-- ===== src/Attestation/Handlers.antt =====
-- instructions/attestation.rs: the three handlers.
use synapse_sap.Common.{true, false, not, leb, ltb, ◌==◌, if◌then◌else◌, length}
use synapse_sap.Common.Int.{ℤ, pos, ltb_ℤ}
use synapse_sap.Errors.{
  Result, ok, require, constraint, ◌>>=◌, ◌>>◌, constraint_seeds, constraint_has_one,
  self_attestation_not_allowed, empty_attestation_type, attestation_type_too_long,
  attestation_expired, attestation_already_revoked, attestation_not_revoked,
}
use synapse_sap.Checked.{checked_add_u32, saturating_sub}
use synapse_sap.State.{
  Pubkey, Hash, Bytes, AgentAccount, AgentAttestation, GlobalRegistry, max_type_len,
}
use synapse_sap.Runtime.{Runtime, Bank, Clock}
use synapse_sap.Seeds.{attest_seeds, at_address, at_bump}
use synapse_sap.Owner.{global_constraints}

-- The accounts of `revoke` and `close`; `create` makes the attestation.
pub record AttestationAccounts : Type 0 where
  pub attester : Pubkey
  pub agent_key : Pubkey
  pub agent : AgentAccount
  pub attestation_key : Pubkey
  pub attestation : AgentAttestation

-- `if expires_at > 0 { require!(…) }`
unfoldable pub check_attestation_expiry : ℤ → Clock → Result (Unit {0})
check_attestation_expiry expires_at clock =
    if ltb_ℤ (pos 0) expires_at
    then require (ltb_ℤ clock.unix_timestamp expires_at) attestation_expired
    else ok tt

module _ (rt : Runtime) where
  unfoldable pub attestation_constraints : AttestationAccounts → Result (Unit {0})
  attestation_constraints a = do
    constraint
        (at_bump rt (attest_seeds a.agent_key a.attester) a.attestation.bump a.attestation_key)
        constraint_seeds
    constraint (a.attestation.attester == a.attester) constraint_has_one
    constraint (a.attestation.agent == a.agent_key) constraint_has_one

  -- The field `attestation` of the accounts is not read.
  unfoldable pub create_attestation :
      AttestationAccounts
      → Pubkey
      → GlobalRegistry
      → Bytes
      → Hash
      → ℤ
      → Clock
      → Bank
      → Result (AgentAttestation × GlobalRegistry × Bank)
  unfolding global_constraints check_attestation_expiry
  create_attestation a global_key registry attestation_type metadata_hash expires_at clock bank = do
    let seeds = attest_seeds a.agent_key a.attester
    constraint (at_address rt seeds a.attestation_key) constraint_seeds
    bank₁ ← rt.init a.attester a.attestation_key bank
    require (not (a.attester == a.agent.wallet)) self_attestation_not_allowed
    global_constraints rt global_key registry
    require (ltb 0 (length attestation_type)) empty_attestation_type
    require (leb (length attestation_type) max_type_len) attestation_type_too_long
    check_attestation_expiry expires_at clock
    attestations ← checked_add_u32 registry.total_attestations 1
    ok (
      record {
        bump = (rt.find_program_address seeds).1;
        agent = a.agent_key;
        attester = a.attester;
        attestation_type = attestation_type;
        metadata_hash = metadata_hash;
        is_active = true;
        expires_at = expires_at;
        created_at = clock.unix_timestamp;
        updated_at = clock.unix_timestamp;
      },
      record registry { total_attestations = attestations },
      bank₁,
    )

  unfoldable pub revoke_attestation : AttestationAccounts → Clock → Result AgentAttestation
  unfolding attestation_constraints
  revoke_attestation a clock = do
    attestation_constraints a
    require a.attestation.is_active attestation_already_revoked
    ok (record (a.attestation) { is_active = false; updated_at = clock.unix_timestamp })

  unfoldable pub close_attestation :
      AttestationAccounts → Pubkey → GlobalRegistry → Bank → Result (GlobalRegistry × Bank)
  unfolding attestation_constraints global_constraints
  close_attestation a global_key registry bank = do
    attestation_constraints a
    require (not a.attestation.is_active) attestation_not_revoked
    global_constraints rt global_key registry
    bank₁ ← rt.close a.attestation_key a.attester bank
    ok (
      record registry { total_attestations = saturating_sub registry.total_attestations 1 },
      bank₁,
    )
