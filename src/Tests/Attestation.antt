-- ===== src/Tests/Attestation.antt =====
-- Runs of the attestation handlers: an attestation is made, and revoked.
use synapse_sap.Common.{◌≡◌, refl, true, false, none, some, [], ◌∷◌, Option}
use synapse_sap.Common.Int.{pos}
use synapse_sap.Errors.{ok}
use synapse_sap.State.{AgentAttestation}
use synapse_sap.Seeds.{global_seeds, attest_seeds, agent_seeds, at_address, at_bump}
use synapse_sap.Attestation.Handlers.{
  AttestationAccounts, create_attestation, revoke_attestation, close_attestation,
}
use synapse_sap.Attestation.Life.{
  Step, Reach, IsSound, Reach-IsSound, absent, created, revoked, closed, next,
}
use synapse_sap.Tests.Demo

abbrev attestation : AgentAttestation
attestation = record {
  bump = 255;
  agent = Demo.agent_key;
  attester = 22;
  attestation_type = 1 ∷ 2 ∷ [];
  metadata_hash = 3;
  is_active = true;
  expires_at = pos 5000;
  created_at = pos 1000;
  updated_at = pos 1000;
}

abbrev withdrawn : AgentAttestation
withdrawn = record attestation { is_active = false }

abbrev accounts : AgentAttestation → AttestationAccounts
accounts t = record {
  attester = 22;
  agent_key = Demo.agent_key;
  agent = Demo.agent;
  attestation_key = Demo.derive (attest_seeds Demo.agent_key 22);
  attestation = t;
}

create-ok :
    create_attestation Demo.runtime
      (accounts attestation)
      Demo.global_key
      Demo.registry
      (1 ∷ 2 ∷ [])
      3
      (pos 5000)
      Demo.clock
      Demo.bank
    ≡ ok (attestation, record (Demo.registry) { total_attestations = 1 }, Demo.bank)
unfolding create_attestation at_address at_bump global_seeds attest_seeds agent_seeds
create-ok = refl

revoke-ok : revoke_attestation Demo.runtime (accounts attestation) Demo.clock ≡ ok withdrawn
unfolding revoke_attestation at_bump attest_seeds agent_seeds
revoke-ok = refl

close-ok :
    close_attestation Demo.runtime (accounts withdrawn) Demo.global_key Demo.registry Demo.bank
    ≡ ok (Demo.registry, Demo.bank)
unfolding close_attestation at_bump global_seeds attest_seeds agent_seeds
close-ok = refl

withdrawn_reached : Reach Demo.runtime Demo.agent_key Demo.wallet 22 (some withdrawn)
withdrawn_reached =
    next (some attestation) (some withdrawn)
      (next none (some attestation) absent (
        created (accounts attestation) Demo.global_key Demo.registry
          (record (Demo.registry) { total_attestations = 1 }) (1 ∷ 2 ∷ []) 3 (pos 5000) Demo.clock
          Demo.bank Demo.bank attestation refl refl refl create-ok refl refl))
      (revoked (accounts attestation) Demo.clock withdrawn revoke-ok refl refl)

Reach-IsSound_example : IsSound Demo.agent_key Demo.wallet 22 (some withdrawn)
Reach-IsSound_example =
    Reach-IsSound Demo.runtime Demo.agent_key Demo.wallet 22 (some withdrawn) withdrawn_reached

closing : Step Demo.runtime Demo.agent_key Demo.wallet 22 (some withdrawn) none
closing =
    closed (accounts withdrawn) Demo.global_key Demo.registry Demo.registry Demo.bank Demo.bank
      close-ok refl refl

abbrev gone : Option AgentAttestation
gone = none
