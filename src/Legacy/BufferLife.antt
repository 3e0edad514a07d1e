-- ===== src/Legacy/BufferLife.antt =====
-- A buffer over its life: the pieces that were appended, and the size of its account.
use synapse_sap.Common.{
  ℕ, ◌+◌, ◌≤◌, ◌≡◌, ap, ◌∙◌, List, [], ◌∷◌, ◌++◌, length, length-append, arith,
}
use synapse_sap.Errors.{Result, ok}
use synapse_sap.State.{Pubkey, Bytes, MemoryBuffer, header_space}
use synapse_sap.Runtime.{Runtime, Bank, Clock}
use synapse_sap.Legacy.Buffer.{
  BufferAccounts, create_buffer, append_buffer, append_content, append_space,
}

-- A buffer's account, its size, and what was appended to it, the newest first.
pub record Buffered : Type 0 where
  pub buffer : MemoryBuffer
  pub space : ℕ
  pub appended : List Bytes

-- The pieces one after the other, in the order in which they came.
abbrev pub joined : List Bytes → Bytes
joined [] = []
joined (x ∷ older) = joined older ++ x

module _ (rt : Runtime) (realloc : Pubkey → Pubkey → ℕ → Bank → Result Bank) where
  pub data Reach : Buffered → Type 0 where
    created :
        (a : BufferAccounts) (page_index : ℕ) (clock : Clock) (bank bank' : Bank) (b : MemoryBuffer)
        → create_buffer rt realloc a page_index clock bank ≡ ok (b, bank')
        → Reach (record { buffer = b; space = header_space; appended = [] })
    wrote :
        (w : Buffered) (a : BufferAccounts) (page_index : ℕ) (content : Bytes) (clock : Clock)
        (bank bank' : Bank) (b : MemoryBuffer)
        → Reach w
        → a.buffer ≡ w.buffer
        → append_buffer rt realloc a page_index content clock bank ≡ ok (b, bank')
        → Reach (record {
          buffer = b;
          space = append_space a.buffer content;
          appended = content ∷ w.appended;
        })

  pub record IsBuffered (w : Buffered) : Type 0 where
    pub kept : w.buffer.content ≡ joined w.appended
    pub sized : w.buffer.total_size ≡ length w.buffer.content
    pub counted : w.buffer.num_entries ≡ length w.appended
    pub none_empty : w.buffer.num_entries ≤ w.buffer.total_size
    pub bounded : w.buffer.total_size ≤ 10000
    pub allocated : w.space ≡ 101 + length w.buffer.content

  -- What an append that succeeds does.
  record IsAppended (content : Bytes) (old new : MemoryBuffer) : Type 0 where
    grown : new.content ≡ old.content ++ content
    sized : new.total_size ≡ old.total_size + length content
    counted : new.num_entries ≡ old.num_entries + 1
    some_content : 1 ≤ length content
    bounded : new.total_size ≤ 10000

  append_content-IsAppended :
      (old new : MemoryBuffer) (content : Bytes) (clock : Clock)
      → append_content old content clock ≡ ok new
      → IsAppended content old new
  unfolding append_content
  append_content-IsAppended old new content clock h = record {
    grown = ground arith;
    sized = ground arith;
    counted = ground arith;
    some_content = ground arith;
    bounded = ground arith;
  }

  append_buffer-content :
      (a : BufferAccounts) (page_index : ℕ) (content : Bytes) (clock : Clock) (bank bank' : Bank)
      (b : MemoryBuffer)
      → append_buffer rt realloc a page_index content clock bank ≡ ok (b, bank')
      → append_content a.buffer content clock ≡ ok b
  unfolding append_buffer
  append_buffer-content a page_index content clock bank bank' b h = ground arith

  wrote-IsBuffered :
      (w : Buffered) (old new : MemoryBuffer) (content : Bytes)
      → old ≡ w.buffer
      → IsAppended content old new
      → IsBuffered w
      → IsBuffered (record {
        buffer = new;
        space = append_space old content;
        appended = content ∷ w.appended;
      })
  wrote-IsBuffered w old new content same x i = record {
    kept = x.grown ∙ ap (λ b. b.content ++ content) same ∙ ap (λ xs. xs ++ content) i.kept;
    sized = ground (arith, x.sized, x.grown, i.sized, length-append w.buffer.content content);
    counted = ground (arith, x.counted, i.counted);
    none_empty = ground (arith, x.counted, x.sized, x.some_content, i.none_empty);
    bounded = x.bounded;
    allocated = ground (arith, x.grown, i.sized, length-append w.buffer.content content);
  }

  pub Reach-IsBuffered : (w : Buffered) → Reach w → IsBuffered w
  unfolding create_buffer
  Reach-IsBuffered w (created a page_index clock bank bank' b h) = record {
    kept = ground arith;
    sized = ground arith;
    counted = ground arith;
    none_empty = ground arith;
    bounded = ground arith;
    allocated = ground arith;
  }
  Reach-IsBuffered w (wrote w₀ a page_index content clock bank bank' b r same h) =
      wrote-IsBuffered w₀ a.buffer b content same
        (append_content-IsAppended a.buffer b content clock
          (append_buffer-content a page_index content clock bank bank' b h))
        (Reach-IsBuffered w₀ r)

  -- In every state that a buffer comes to, its handler accepts a piece of 1 to 750 bytes that leaves
  -- it with at most 10,000 in all: the counter of the pieces is never exhausted first.
  pub append_content-succeeds :
      (w : Buffered) (content : Bytes) (clock : Clock)
      → Reach w
      → 1 ≤ length content
      → length content ≤ 750
      → length (joined w.appended) + length content ≤ 10000
      → (b : MemoryBuffer) × (append_content w.buffer content clock ≡ ok b)
  unfolding append_content
  append_content-succeeds w content clock r some_content short room =
      let i = Reach-IsBuffered w r in
      let size : w.buffer.total_size ≡ length (joined w.appended) =
        i.sized ∙ ap (λ xs. length xs) i.kept in
      (
        record (w.buffer) {
          content = w.buffer.content ++ content;
          total_size = w.buffer.total_size + length content;
          num_entries = w.buffer.num_entries + 1;
          updated_at = clock.unix_timestamp;
        },
        ground (arith, i.none_empty, i.bounded),
      )
