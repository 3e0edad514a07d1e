-- ===== src/Vault/Sequence.antt =====
-- What a session's counters say of all that was inscribed.
use synapse_sap.Common.{ℕ, ◌+◌, ◌≡◌, refl, false, List, [], ◌∷◌, length, arith}
use synapse_sap.Errors.{ok, >>=-eq-ok}
use synapse_sap.State.{Pubkey, Hash, Bytes, MemoryVault, SessionLedger, EpochPage, VaultDelegate}
use synapse_sap.Runtime.{Runtime, Bank, Clock}
use synapse_sap.Seeds.{epoch_seeds}
use synapse_sap.Owner.{VaultOwner, vault_constraints}
use synapse_sap.Vault.Handlers.{open_session, close_session}
use synapse_sap.Vault.Inscribe.{
  MemoryArgs, InscribeAccounts, Inscribed, inscribe_core, inscribe_page, inscribe_memory,
  inscribe_memory_delegated, compact_inscribe, session_constraints, delegate_constraints,
  delegate_allowed,
}
use synapse_sap.Vault.Session.{
  Inscription, World, Step, Reach, wrote, wrote_delegated, wrote_compact, closed, opened, next,
  swept,
}

-- What one inscription does to the account of its session, which is open.
pub record IsExtended (rt : Runtime) (content : Bytes) (hash : Hash) (old new : SessionLedger)
    : Type 0 where
  pub open_before : old.is_closed ≡ false
  pub counted : new.sequence_counter ≡ old.sequence_counter + 1
  pub hashed : new.merkle_root ≡ rt.hash_pair old.merkle_root hash
  pub sized : new.total_bytes ≡ old.total_bytes + length content
  pub tip : new.tip_hash ≡ hash

module _ (rt : Runtime) (args : MemoryArgs) (clock : Clock) where
  inscribe_core-IsExtended :
      (key : Pubkey) (bump : ℕ) (s s' : SessionLedger) (v v' : MemoryVault) (p p' : EpochPage)
      → s.is_closed ≡ false
      → inscribe_core rt key bump args clock s v p ≡ ok (s', v', p')
      → IsExtended rt args.encrypted_data args.content_hash s s'
  unfolding inscribe_core
  inscribe_core-IsExtended key bump s s' v v' p p' o h = ground arith

  pub inscribe_page-core :
      (payer : Pubkey) (a : InscribeAccounts) (bank : Bank) (out : Inscribed)
      → inscribe_page rt payer a args clock bank ≡ ok out
      → (bump : ℕ) × (inscribe_core rt a.session_key bump args clock a.session a.vault_owner.vault
            a.epoch_page
          ≡ ok (out.session, out.vault, out.epoch_page))
  unfolding inscribe_page
  inscribe_page-core payer a bank out h =
      ((rt.find_program_address (epoch_seeds a.session_key args.epoch_index)).1, ground arith)

  -- Both handlers with an epoch page run the same body on an open session.
  pub inscribe_memory-core :
      (a : InscribeAccounts) (bank : Bank) (out : Inscribed)
      → inscribe_memory rt a args clock bank ≡ ok out
      → (a.session.is_closed ≡ false)
        × ((bump : ℕ) × (inscribe_core rt a.session_key bump args clock a.session
                a.vault_owner.vault a.epoch_page
              ≡ ok (out.session, out.vault, out.epoch_page)))
  unfolding inscribe_memory session_constraints
  inscribe_memory-core a bank out h =
      let (_, _, h₁) = >>=-eq-ok (vault_constraints rt a.vault_owner) _ h in
      let (_, c, h₂) = >>=-eq-ok (session_constraints rt a.vault_owner.vault_key a.session) _ h₁ in
      (ground arith, inscribe_page-core a.vault_owner.owner.wallet a bank out h₂)

  pub inscribe_memory_delegated-core :
      (signer key : Pubkey) (del : VaultDelegate) (a : InscribeAccounts) (bank : Bank)
      (out : Inscribed)
      → inscribe_memory_delegated rt signer key del a args clock bank ≡ ok out
      → (a.session.is_closed ≡ false)
        × ((bump : ℕ) × (inscribe_core rt a.session_key bump args clock a.session
                a.vault_owner.vault a.epoch_page
              ≡ ok (out.session, out.vault, out.epoch_page)))
  unfolding inscribe_memory_delegated session_constraints
  inscribe_memory_delegated-core signer key del a bank out h =
      let (_, _, h₁) = >>=-eq-ok (delegate_constraints rt signer a key del) _ h in
      let (_, c, h₂) = >>=-eq-ok (session_constraints rt a.vault_owner.vault_key a.session) _ h₁ in
      let (_, _, h₃) = >>=-eq-ok (delegate_allowed rt del clock) _ h₂ in
      (ground arith, inscribe_page-core signer a bank out h₃)

compact_inscribe-IsExtended :
    (rt : Runtime) (v : VaultOwner) (s s' : SessionLedger) (sequence : ℕ) (content : Bytes)
    (hash : Hash) (clock : Clock) (vault : MemoryVault)
    → compact_inscribe rt v s sequence content hash clock ≡ ok (s', vault)
    → IsExtended rt content hash s s'
unfolding compact_inscribe
compact_inscribe-IsExtended rt v s s' sequence content hash clock vault h = ground arith

-- The rolling hash of all contents, and their size.
abbrev pub rolling_root : Runtime → List Inscription → Hash
rolling_root rt [] = 0
rolling_root rt (x ∷ older) = rt.hash_pair (rolling_root rt older) x.content_hash

abbrev pub content_size : List Inscription → ℕ
content_size [] = 0
content_size (x ∷ older) = length x.content + content_size older

pub record IsRecorded (rt : Runtime) (w : World) : Type 0 where
  pub counted : w.session.sequence_counter ≡ length w.inscribed
  pub hashed : w.session.merkle_root ≡ rolling_root rt w.inscribed
  pub sized : w.session.total_bytes ≡ content_size w.inscribed

extended-IsRecorded :
    (rt : Runtime) (w : World) (pages : ℕ → EpochPage) (content : Bytes) (hash : Hash)
    (old new : SessionLedger)
    → old ≡ w.session
    → IsExtended rt content hash old new
    → IsRecorded rt w
    → IsRecorded rt (record {
      session = new;
      pages = pages;
      inscribed = record { content = content; content_hash = hash } ∷ w.inscribed;
    })
extended-IsRecorded rt w pages content hash old new same x r = record {
  counted = ground (arith, x.counted, r.counted);
  hashed = ground (arith, x.hashed, r.hashed);
  sized = ground (arith, x.sized, r.sized);
}

pub Step-IsRecorded :
    (rt : Runtime) (key : Pubkey) (w w' : World)
    → Step rt key w w'
    → IsRecorded rt w
    → IsRecorded rt w'
unfolding close_session
Step-IsRecorded rt key w w' (wrote a args clock bank out k s p h to) r =
    let (o, (bump, core)) = inscribe_memory-core rt args clock a bank out h in
    let x =
      inscribe_core-IsExtended rt args clock a.session_key bump a.session out.session
        a.vault_owner.vault out.vault a.epoch_page out.epoch_page o core in
    rw to
      (extended-IsRecorded rt w _ args.encrypted_data args.content_hash a.session out.session s x r)
Step-IsRecorded rt key w w' (wrote_delegated signer dk del a args clock bank out k s p h to) r =
    let (o, (bump, core)) =
      inscribe_memory_delegated-core rt args clock signer dk del a bank out h in
    let x =
      inscribe_core-IsExtended rt args clock a.session_key bump a.session out.session
        a.vault_owner.vault out.vault a.epoch_page out.epoch_page o core in
    rw to
      (extended-IsRecorded rt w _ args.encrypted_data args.content_hash a.session out.session s x r)
Step-IsRecorded rt key w w' (wrote_compact v sequence content hash clock session vault h to) r =
    rw to (
      extended-IsRecorded rt w w.pages content hash w.session session refl
        (compact_inscribe-IsExtended rt v w.session session sequence content hash clock vault h) r)
Step-IsRecorded rt key w w' (closed v session h to) r = record {
  counted = ground (arith, r.counted);
  hashed = ground (arith, r.hashed);
  sized = ground (arith, r.sized);
}

-- In every state that a session comes to, whoever wrote and with whichever of the three handlers,
-- the sequence counter is the number of inscriptions, the root is the rolling hash of their contents
-- in order, and the byte count is their size.
pub Reach-IsRecorded :
    (rt : Runtime) (key : Pubkey) (start : ℕ → EpochPage) (w : World)
    → Reach rt key start w
    → IsRecorded rt w
unfolding open_session
Reach-IsRecorded rt key start w (opened v hash clock bank bank' session vault w₀ h fresh) = record {
  counted = ground arith;
  hashed = ground arith;
  sized = ground arith;
}
Reach-IsRecorded rt key start w (next v w₀ r s) =
    Step-IsRecorded rt key v w₀ s (Reach-IsRecorded rt key start v r)
Reach-IsRecorded rt key start w (swept w₀ v page_key i bank bank' r h) =
    let before = Reach-IsRecorded rt key start w₀ r in
    record { counted = before.counted; hashed = before.hashed; sized = before.sized }
