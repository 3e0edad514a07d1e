-- ===== src/Vault/Epochs.antt =====
-- The epoch pages of a session: each holds the inscriptions of its own thousand sequence numbers.
use synapse_sap.Common.{
  ℕ, ◌+◌, ◌*◌, ◌/◌, ◌≤◌, ◌≡◌, ◌≢◌, ◌⊎◌, inl, inr, refl, true, arith, ◌==◌, Bool-cases,
}
use synapse_sap.Errors.{ok}
use synapse_sap.State.{Pubkey, Hash, Bytes, MemoryVault, SessionLedger, EpochPage}
use synapse_sap.Runtime.{Runtime, Clock}
use synapse_sap.Owner.{VaultOwner}
use synapse_sap.Vault.Handlers.{close_session}
use synapse_sap.Vault.Inscribe.{MemoryArgs, inscribe_core, compact_inscribe}
use synapse_sap.Vault.Session.{
  World, Step, Reach, wrote, wrote_delegated, wrote_compact, closed, opened, next, swept, put_page,
  no_page,
}
use synapse_sap.Vault.Sequence.{inscribe_memory-core, inscribe_memory_delegated-core}

-- A page that is in use counts inscriptions of its own epoch, all before `sequence`.
pub record Counts (session_key sequence i : ℕ) (page : EpochPage) : Type 0 where
  pub own : page.session ≡ session_key
  pub first : 1000 * i ≤ page.start_sequence
  pub past : page.start_sequence + page.inscription_count ≤ sequence
  pub within : page.start_sequence + page.inscription_count ≤ 1000 * (i + 1)

-- One page, by its index.
abbrev IsPaged : Pubkey → ℕ → World → Type 0
IsPaged key j w = ((w.pages j).session ≡ 0) ⊎ Counts key w.session.sequence_counter j (w.pages j)

module _ (rt : Runtime) (key : Pubkey) (args : MemoryArgs) (clock : Clock) (bump : ℕ)
    (s s' : SessionLedger) (v v' : MemoryVault) (p p' : EpochPage)
    (h : inscribe_core rt key bump args clock s v p ≡ ok (s', v', p')) where
  inscribe_core-next :
      (s'.sequence_counter ≡ s.sequence_counter + 1)
      × (args.epoch_index ≡ s.sequence_counter / 1000)
  unfolding inscribe_core
  inscribe_core-next = ground arith

  inscribe_core-Counts :
      (p.session ≡ 0) ⊎ Counts key s.sequence_counter args.epoch_index p
      → Counts key s'.sequence_counter args.epoch_index p'
  unfolding inscribe_core
  inscribe_core-Counts (inl empty) = record {
    own = ground arith;
    first = ground arith;
    past = ground arith;
    within = ground arith;
  }
  inscribe_core-Counts (inr c) = record {
    own = ground (arith, c.own);
    first = ground (arith, c.first);
    past = ground (arith, c.past);
    within = ground (arith, c.past);
  }

later-Counts :
    (key n m i : ℕ) (p : EpochPage)
    → n ≤ m
    → (p.session ≡ 0) ⊎ Counts key n i p
    → (p.session ≡ 0) ⊎ Counts key m i p
later-Counts key n m i p le (inl empty) = inl empty
later-Counts key n m i p le (inr c) =
    inr (record { own = c.own; first = c.first; past = omega (arith, c.past); within = c.within })

-- An inscription replaces the page of its epoch, and leaves the others as they are.
core-IsPaged :
    (rt : Runtime) (key session_key : Pubkey) (args : MemoryArgs) (clock : Clock) (bump j : ℕ)
    (w : World) (s s' : SessionLedger) (v v' : MemoryVault) (p p' : EpochPage)
    → session_key ≡ key
    → s ≡ w.session
    → p ≡ w.pages args.epoch_index
    → inscribe_core rt session_key bump args clock s v p ≡ ok (s', v', p')
    → IsPaged key j w
    → ((put_page w.pages args.epoch_index p' j).session ≡ 0)
      ⊎ Counts key s'.sequence_counter j (put_page w.pages args.epoch_index p' j)
core-IsPaged rt key session_key args clock bump j w s s' v v' p p' k e q h paged =
    let step = inscribe_core-next rt session_key args clock bump s s' v v' p p' h in
    let grown : w.session.sequence_counter ≤ s'.sequence_counter = ground (arith, step) in
    elim (Bool-cases (args.epoch_index == j)) [
      | inl here ↦
          let same : args.epoch_index ≡ j = ground arith in
          let old : (p.session ≡ 0) ⊎ Counts session_key s.sequence_counter args.epoch_index p =
            rw (k, e, q, same) paged in
          let new = inscribe_core-Counts rt session_key args clock bump s s' v v' p p' h old in
          let new' : Counts key s'.sequence_counter args.epoch_index p' = rw (← k) new in
          rw here (inr (rw (← same) new'))
      | inr other ↦ rw other (
          later-Counts key w.session.sequence_counter s'.sequence_counter j (w.pages j) grown paged)
    ]

compact-grows :
    (rt : Runtime) (v : VaultOwner) (s s' : SessionLedger) (sequence : ℕ) (content : Bytes)
    (hash : Hash) (clock : Clock) (vault : MemoryVault)
    → compact_inscribe rt v s sequence content hash clock ≡ ok (s', vault)
    → s.sequence_counter ≤ s'.sequence_counter
unfolding compact_inscribe
compact-grows rt v s s' sequence content hash clock vault h = ground arith

close_session-keeps :
    (rt : Runtime) (v : VaultOwner) (s s' : SessionLedger)
    → close_session rt v s ≡ ok s'
    → s'.sequence_counter ≡ s.sequence_counter
unfolding close_session
close_session-keeps rt v s s' h = ground arith

Step-IsPaged :
    (rt : Runtime) (key : Pubkey) (j : ℕ) (w w' : World)
    → Step rt key w w'
    → IsPaged key j w
    → IsPaged key j w'
Step-IsPaged rt key j w w' (wrote a args clock bank out k s p h to) paged =
    let (o, (bump, core)) = inscribe_memory-core rt args clock a bank out h in
    rw to (
      core-IsPaged rt key a.session_key args clock bump j w a.session out.session
        a.vault_owner.vault out.vault a.epoch_page out.epoch_page k s p core paged)
Step-IsPaged rt key j w w' (wrote_delegated signer dk del a args clock bank out k s p h to) paged =
    let (o, (bump, core)) =
      inscribe_memory_delegated-core rt args clock signer dk del a bank out h in
    rw to (
      core-IsPaged rt key a.session_key args clock bump j w a.session out.session
        a.vault_owner.vault out.vault a.epoch_page out.epoch_page k s p core paged)
Step-IsPaged rt key j w w' (wrote_compact v sequence content hash clock session vault h to) paged =
    rw to (
      later-Counts key w.session.sequence_counter session.sequence_counter j (w.pages j)
        (compact-grows rt v w.session session sequence content hash clock vault h) paged)
Step-IsPaged rt key j w w' (closed v session h to) paged =
    rw (to, close_session-keeps rt v w.session session h) paged

-- The page that is closed is gone.
swept-IsPaged :
    (key i j : ℕ) (w : World)
    → IsPaged key j w
    → IsPaged key j (record w { pages = put_page w.pages i no_page })
swept-IsPaged key i j w paged = elim (Bool-cases (i == j)) [
  | inl here ↦ rw here (inl refl)
  | inr other ↦ rw other paged
]

Reach-IsPaged :
    (rt : Runtime) (key : Pubkey) (start : ℕ → EpochPage) (w : World) (j : ℕ)
    → (start j).session ≡ 0
    → Reach rt key start w
    → IsPaged key j w
Reach-IsPaged rt key start w j unused (opened v hash clock bank bank' session vault w₀ h fresh) =
    rw fresh (inl unused)
Reach-IsPaged rt key start w j unused (next v w₀ r s) =
    Step-IsPaged rt key j v w₀ s (Reach-IsPaged rt key start v j unused r)
Reach-IsPaged rt key start w j unused (swept w₀ v page_key i bank bank' r h) =
    swept-IsPaged key i j w₀ (Reach-IsPaged rt key start w₀ j unused r)

-- In every state that a session comes to by inscriptions, its closing and the closing of its pages,
-- take an epoch page that was not in use when the session was opened, and is now. It belongs to the
-- session and counts at most a thousand inscriptions, whose sequence numbers, from its first on, are
-- those of its own epoch and have been given out. Nothing is said of a page that was left behind by
-- an earlier session at the same address.
pub epoch_bounds :
    (rt : Runtime) (key : Pubkey) (start : ℕ → EpochPage) (w : World) (i : ℕ)
    → Reach rt key start w
    → (start i).session ≡ 0
    → (w.pages i).session ≢ 0
    → ((w.pages i).session ≡ key)
      × ((w.pages i).inscription_count ≤ 1000)
      × (1000 * i ≤ (w.pages i).start_sequence)
      × ((w.pages i).start_sequence + (w.pages i).inscription_count ≤ 1000 * (i + 1))
      × ((w.pages i).start_sequence + (w.pages i).inscription_count ≤ w.session.sequence_counter)
epoch_bounds rt key start w i r unused used = elim (Reach-IsPaged rt key start w i unused r) [
  | inl empty ↦ absurd (used empty)
  | inr c ↦ (c.own, omega (arith, c.first, c.within), c.first, c.within, c.past)
]

-- A closed session takes no further inscription, by whichever handler, and is not closed again.
pub closed_session_final :
    (rt : Runtime) (key : Pubkey) (w w' : World) → w.session.is_closed ≡ true → ¬ Step rt key w w'
unfolding close_session compact_inscribe
closed_session_final rt key w w' c (wrote a args clock bank out k s p h to) =
    let (o, rest) = inscribe_memory-core rt args clock a bank out h in ground (arith, o, s)
closed_session_final rt key w w' c
      (wrote_delegated signer dk del a args clock bank out k s p h to) =
    let (o, rest) = inscribe_memory_delegated-core rt args clock signer dk del a bank out h in
    ground (arith, o, s)
closed_session_final rt key w w' c
      (wrote_compact v sequence content hash clock session vault h to) =
    ground arith
closed_session_final rt key w w' c (closed v session h to) = ground arith
