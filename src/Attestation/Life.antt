-- ===== src/Attestation/Life.antt =====
-- The attestation of an attester about an agent over time: absent, active or revoked.
use synapse_sap.Common.{◌≤◌, ◌<◌, ◌≡◌, ◌≢◌, ◌⊎◌, false, Option, none, some, length, arith}
use synapse_sap.Common.Int.{ℤ, pos, ◌≤ℤ◌, ◌<ℤ◌}
use synapse_sap.Errors.{ok}
use synapse_sap.State.{Pubkey, Hash, Bytes, AgentAttestation, GlobalRegistry}
use synapse_sap.Runtime.{Runtime, Bank, Clock}
use synapse_sap.Attestation.Handlers.{
  AttestationAccounts, create_attestation, revoke_attestation, close_attestation,
}

-- The steps on the account of one agent and one attester; the wallet is the one that the
-- agent's account names.
pub data Step (rt : Runtime) (agent_key wallet attester : Pubkey) (s s' : Option AgentAttestation)
    : Type 0 where
  created :
      (a : AttestationAccounts) (global_key : Pubkey) (registry registry' : GlobalRegistry)
      (type : Bytes) (metadata_hash : Hash) (expires_at : ℤ) (clock : Clock) (bank bank' : Bank)
      (out : AgentAttestation)
      → a.agent_key ≡ agent_key
      → a.attester ≡ attester
      → a.agent.wallet ≡ wallet
      → create_attestation rt a global_key registry type metadata_hash expires_at clock bank
        ≡ ok (out, registry', bank')
      → s ≡ none
      → s' ≡ some out
      → Step rt agent_key wallet attester s s'
  revoked :
      (a : AttestationAccounts) (clock : Clock) (out : AgentAttestation)
      → revoke_attestation rt a clock ≡ ok out
      → s ≡ some (a.attestation)
      → s' ≡ some out
      → Step rt agent_key wallet attester s s'
  closed :
      (a : AttestationAccounts) (global_key : Pubkey) (registry registry' : GlobalRegistry)
      (bank bank' : Bank)
      → close_attestation rt a global_key registry bank ≡ ok (registry', bank')
      → s ≡ some (a.attestation)
      → s' ≡ none
      → Step rt agent_key wallet attester s s'

pub data Reach (rt : Runtime) (agent_key wallet attester : Pubkey)
    : Option AgentAttestation → Type 0 where
  absent : Reach rt agent_key wallet attester none
  next :
      (s s' : Option AgentAttestation)
      → Reach rt agent_key wallet attester s
      → Step rt agent_key wallet attester s s'
      → Reach rt agent_key wallet attester s'

pub record IsAbout (agent_key wallet attester : Pubkey) (t : AgentAttestation) : Type 0 where
  pub subject : t.agent ≡ agent_key
  pub author : t.attester ≡ attester
  pub independent : t.attester ≢ wallet
  pub named : 0 < length t.attestation_type
  pub short : length t.attestation_type ≤ 32
  pub lasting : (t.expires_at ≤ℤ pos 0) ⊎ (t.created_at <ℤ t.expires_at)

abbrev pub IsSound : Pubkey → Pubkey → Pubkey → Option AgentAttestation → Type 0
IsSound agent_key wallet attester none = Unit {0}
IsSound agent_key wallet attester (some t) = IsAbout agent_key wallet attester t

created-IsAbout :
    (rt : Runtime) (a : AttestationAccounts) (global_key : Pubkey)
    (registry registry' : GlobalRegistry) (type : Bytes) (metadata_hash : Hash) (expires_at : ℤ)
    (clock : Clock) (bank bank' : Bank) (out : AgentAttestation)
    → create_attestation rt a global_key registry type metadata_hash expires_at clock bank
      ≡ ok (out, registry', bank')
    → IsAbout a.agent_key a.agent.wallet a.attester out
unfolding create_attestation
created-IsAbout rt a g r r' type hash expires_at clock bank bank' out h = record {
  subject = ground arith;
  author = ground arith;
  independent = ground arith;
  named = ground arith;
  short = ground arith;
  lasting = ground arith;
}

revoked-IsAbout :
    (rt : Runtime) (agent_key wallet attester : Pubkey) (a : AttestationAccounts) (clock : Clock)
    (out : AgentAttestation)
    → revoke_attestation rt a clock ≡ ok out
    → IsAbout agent_key wallet attester a.attestation
    → IsAbout agent_key wallet attester out
unfolding revoke_attestation
revoked-IsAbout rt agent_key wallet attester a clock out h b = record {
  subject = ground (arith, b.subject);
  author = ground (arith, b.author);
  independent = ground (arith, b.independent);
  named = ground (arith, b.named);
  short = ground (arith, b.short);
  lasting = ground (arith, b.lasting);
}

-- An attestation, in every state that it comes to, is about the agent and by the attester of its
-- address; the attester is not the agent's own wallet; its type has 1 to 32 bytes; and if it has an
-- expiry, that lay ahead when it was made.
pub Reach-IsSound :
    (rt : Runtime) (agent_key wallet attester : Pubkey) (s : Option AgentAttestation)
    → Reach rt agent_key wallet attester s
    → IsSound agent_key wallet attester s
Reach-IsSound rt k w t s absent = tt
Reach-IsSound rt k w t s
      (next s₀ s₁ r (created a g gr gr' type hash e clock bank bank' out ka at wa h from to)) =
    rw (to, ← ka, ← at, ← wa) (created-IsAbout rt a g gr gr' type hash e clock bank bank' out h)
Reach-IsSound rt k w t s (next s₀ s₁ r (revoked a clock out h from to)) =
    rw to (revoked-IsAbout rt k w t a clock out h (rw from at (Reach-IsSound rt k w t s₀ r)))
Reach-IsSound rt k w t s (next s₀ s₁ r (closed a g gr gr' bank bank' h from to)) = rw to tt

-- An attestation that was revoked never becomes active again: a step from it only closes it.
pub revoked_is_final :
    (rt : Runtime) (agent_key wallet attester : Pubkey) (t : AgentAttestation)
    (s : Option AgentAttestation)
    → t.is_active ≡ false
    → Step rt agent_key wallet attester (some t) s
    → s ≡ none
unfolding revoke_attestation
revoked_is_final rt k w u t s off
      (created a g gr gr' type hash e clock bank bank' out ka at wa h from to) =
    absurd (cc)
revoked_is_final rt k w u t s off (revoked a clock out h from to) = absurd (ground arith)
revoked_is_final rt k w u t s off (closed a g gr gr' bank bank' h from to) = to
