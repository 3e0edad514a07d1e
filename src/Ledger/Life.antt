-- ===== src/Ledger/Life.antt =====
-- The life of a ledger, from `init_ledger` on: its account, its pages, the newest first, and beside
-- them all that was written, the newest first.
use synapse_sap.Common.{◌≤◌, ◌≡◌, sym, ap, ◌∙◌, List, [], ◌∷◌, ◌++◌, length, arith}
use mathlib.Core.List.{append-nil, append_assoc}
use synapse_sap.Errors.{ok}
use synapse_sap.State.{Pubkey, Hash, Bytes, MemoryLedger, LedgerPage, ring_capacity}
use synapse_sap.Runtime.{Runtime, Bank, Clock}
use synapse_sap.Vault.Session.{Inscription}
use synapse_sap.Vault.Sequence.{rolling_root, content_size}
use synapse_sap.Ledger.Handlers.{LedgerAccounts, init_ledger, write_ledger, seal_ledger}
use synapse_sap.Ledger.Window.{encode, IsEntries}
use synapse_sap.Ledger.Entries.{
  write_ledger-IsWritten, write_ledger_refines, seal_ledger-copies, seal_ledger-keeps,
}

pub record World : Type 0 where
  pub ledger : MemoryLedger
  pub pages : List LedgerPage
  pub written : List Inscription

pub data Step (rt : Runtime) (w w' : World) : Type 0 where
  wrote :
      (a : LedgerAccounts) (content : Bytes) (hash : Hash) (clock : Clock) (out : MemoryLedger)
      → a.ledger ≡ w.ledger
      → write_ledger rt a content hash clock ≡ ok out
      → w' ≡ record w {
        ledger = out;
        written = record { content = content; content_hash = hash } ∷ w.written;
      }
      → Step rt w w'
  sealed :
      (a : LedgerAccounts) (page_key : Pubkey) (clock : Clock) (bank bank' : Bank)
      (out : MemoryLedger) (page : LedgerPage)
      → a.ledger ≡ w.ledger
      → seal_ledger rt a page_key clock bank ≡ ok (out, page, bank')
      → w' ≡ record w { ledger = out; pages = page ∷ w.pages }
      → Step rt w w'

pub data Reach (rt : Runtime) : World → Type 0 where
  made :
      (a : LedgerAccounts) (clock : Clock) (bank bank' : Bank) (l : MemoryLedger) (w : World)
      → init_ledger rt a clock bank ≡ ok (l, bank')
      → w ≡ record { ledger = l; pages = []; written = [] }
      → Reach rt w
  next : (v w : World) → Reach rt v → Step rt v w → Reach rt w

-- The contents in the order of writing.
abbrev pub contents : List Inscription → List Bytes
contents [] = []
contents (x ∷ older) = contents older ++ x.content ∷ []

-- The pages carry the numbers 0, 1, 2, … in the order of sealing.
abbrev pub IsNumbered : List LedgerPage → Type 0
IsNumbered [] = Unit {0}
IsNumbered (p ∷ older) = (p.page_index ≡ length older) × IsNumbered older

pub record IsFaithful (rt : Runtime) (w : World) : Type 0 where
  pub counted : w.ledger.num_entries ≡ length w.written
  pub hashed : w.ledger.merkle_root ≡ rolling_root rt w.written
  pub sized : w.ledger.total_data_size ≡ content_size w.written
  pub numbered : IsNumbered w.pages
  pub pages_counted : w.ledger.num_pages ≡ length w.pages
  pub bounded : length w.ledger.ring ≤ ring_capacity
  pub window :
      (gone : List Bytes) × (kept : List Bytes) × (contents w.written ≡ gone ++ kept)
      × IsEntries kept
      × (w.ledger.ring ≡ encode kept)

regroup :
    (all gone ds dropped kept last : List Bytes)
    → all ≡ gone ++ ds
    → ds ≡ dropped ++ kept
    → all ++ last ≡ (gone ++ dropped) ++ (kept ++ last)
regroup all gone ds dropped kept last e e' = rw (e, e') (simp append_assoc)

Step-IsFaithful : (rt : Runtime) (w w' : World) → Step rt w w' → IsFaithful rt w → IsFaithful rt w'
unfolding encode
Step-IsFaithful rt w w' (wrote a content hash clock out same h to) f =
    let x = write_ledger-IsWritten rt a content hash clock out h in
    let (gone, ds, split, e, ring) = f.window in
    let (dropped, kept, latest, r, _, b, es) =
      write_ledger_refines rt a content hash clock out ds e (ap (λ l. l.ring) same ∙ ring) h in
    rw to (record {
      counted = ground (arith, x.counted, f.counted);
      hashed = ground (arith, x.hashed, f.hashed);
      sized = ground (arith, x.sized, f.sized);
      numbered = f.numbered;
      pages_counted = ground (arith, x.pages_kept, f.pages_counted);
      bounded = b;
      window = (
        gone ++ dropped,
        kept ++ content ∷ [],
        regroup (contents w.written) gone ds dropped kept (content ∷ []) split latest.split,
        es,
        r,
      );
    })
Step-IsFaithful rt w w' (sealed a key clock bank bank' out page same h to) f =
    let (copied, counted, index, root, pages, empty) =
      seal_ledger-copies rt a key clock bank bank' out page h in
    let (entries, hash, size) = seal_ledger-keeps rt a key clock bank bank' out page h in
    rw to (record {
      counted = ground (arith, f.counted);
      hashed = ground (arith, f.hashed);
      sized = ground (arith, f.sized);
      numbered = (ground (arith, f.pages_counted), f.numbered);
      pages_counted = ground (arith, f.pages_counted);
      bounded = omega (arith, ap length empty);
      window = (contents w.written, [], sym (append-nil (contents w.written)), tt, empty);
    })

-- In every state that a ledger comes to, its account counts the entries written, has the rolling
-- hash of their contents and their size; the ring has at most 4096 bytes and is the encoding of the
-- last entries written, in order; the pages carry the numbers 0, 1, 2, …, and the ledger the next.
pub Reach-IsFaithful : (rt : Runtime) (w : World) → Reach rt w → IsFaithful rt w
unfolding init_ledger encode
Reach-IsFaithful rt w (made a clock bank bank' l w₀ h start) = record {
  counted = ground arith;
  hashed = ground arith;
  sized = ground arith;
  numbered = ground arith;
  pages_counted = ground arith;
  bounded = ground arith;
  window = ([], [], ground arith, tt, ground arith);
}
Reach-IsFaithful rt w (next v w₀ r s) = Step-IsFaithful rt v w₀ s (Reach-IsFaithful rt v r)
