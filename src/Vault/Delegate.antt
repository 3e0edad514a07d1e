-- ===== src/Vault/Delegate.antt =====
-- What a delegate may do, and for how long.
use synapse_sap.Common.{ℕ, ◌%◌, ◌≡◌, ◌⊎◌, arith}
use synapse_sap.Common.Int.{ℤ, pos, ◌+ℤ◌, ◌≤ℤ◌, ◌<ℤ◌}
use synapse_sap.Errors.{ok, >>=-eq-ok}
use synapse_sap.Checked.{checked_add_i64}
use synapse_sap.State.{Pubkey, VaultDelegate, max_delegate_duration_secs}
use synapse_sap.Runtime.{Runtime, Bank, Clock}
use synapse_sap.Owner.{VaultOwner}
use synapse_sap.Vault.Handlers.{add_vault_delegate}
use synapse_sap.Vault.Inscribe.{
  MemoryArgs, InscribeAccounts, Inscribed, inscribe_memory_delegated, delegate_constraints,
  session_constraints, delegate_allowed,
}

-- A delegated inscription is signed by the delegate itself, which is one of the session's vault, has
-- the permission to inscribe, and has not expired, unless it is one without an expiry.
pub inscribe_memory_delegated_needs :
    (rt : Runtime) (signer key : Pubkey) (del : VaultDelegate) (a : InscribeAccounts)
    (args : MemoryArgs) (clock : Clock) (bank : Bank) (out : Inscribed)
    → inscribe_memory_delegated rt signer key del a args clock bank ≡ ok out
    → (del.delegate ≡ signer)
      × (del.vault ≡ a.session.vault)
      × (del.permissions % 2 ≡ 1)
      × ((del.expires_at ≤ℤ pos 0) ⊎ (clock.unix_timestamp <ℤ del.expires_at))
unfolding inscribe_memory_delegated delegate_constraints session_constraints delegate_allowed
inscribe_memory_delegated_needs rt signer key del a args clock bank out h =
    let (_, c, h₁) = >>=-eq-ok (delegate_constraints rt signer a key del) _ h in
    let (_, s, h₂) = >>=-eq-ok (session_constraints rt a.vault_owner.vault_key a.session) _ h₁ in
    let (_, d, _) = >>=-eq-ok (delegate_allowed rt del clock) _ h₂ in
    (ground arith, ground arith, ground arith, ground arith)

-- A delegate that is added expires, after now and at most a year from now.
added_delegate_expires :
    (rt : Runtime) (v : VaultOwner) (key delegate : Pubkey) (permissions : ℕ) (expires_at : ℤ)
    (clock : Clock) (bank bank' : Bank) (del : VaultDelegate)
    → add_vault_delegate rt v key delegate permissions expires_at clock bank ≡ ok (del, bank')
    → (del.delegate ≡ delegate)
      × (del.vault ≡ v.vault_key)
      × (clock.unix_timestamp <ℤ del.expires_at)
      × (del.expires_at ≤ℤ clock.unix_timestamp +ℤ max_delegate_duration_secs)
unfolding add_vault_delegate checked_add_i64
added_delegate_expires rt v key delegate permissions expires_at clock bank bank' del h =
    ground arith

-- Where a delegate was added, at a time that is not before 1970, a delegated inscription by it comes
-- less than a year of 365 days after that time.
pub delegate_lasts :
    (rt : Runtime) (v : VaultOwner) (key key' delegate : Pubkey) (permissions : ℕ) (expires_at : ℤ)
    (added now : Clock) (bank bank' bank'' : Bank) (del : VaultDelegate) (a : InscribeAccounts)
    (args : MemoryArgs) (out : Inscribed)
    → pos 0 ≤ℤ added.unix_timestamp
    → add_vault_delegate rt v key delegate permissions expires_at added bank ≡ ok (del, bank')
    → inscribe_memory_delegated rt delegate key' del a args now bank'' ≡ ok out
    → now.unix_timestamp <ℤ added.unix_timestamp +ℤ max_delegate_duration_secs
delegate_lasts rt v key key' delegate permissions expires_at added now bank bank' bank'' del a args
      out positive add wrote =
    ground (
      arith,
      added_delegate_expires rt v key delegate permissions expires_at added bank bank' del add,
      inscribe_memory_delegated_needs rt delegate key' del a args now bank'' out wrote,
    )
