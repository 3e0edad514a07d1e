-- ===== src/Errors.antt =====
-- errors.rs: the program's error codes, with the other ways in which an instruction fails, and the
-- result type that every handler returns.

use synapse_sap.Common.{ℕ, Bool, true, false, ◌≡◌, refl, ◌⊎◌, inl, inr, Option, none, some}

-- The constructors carry the source's names in snake case, in the source's order.
pub data SapError : Type 0 where
  name_too_long description_too_long uri_too_long too_many_capabilities too_many_pricing_tiers :
      SapError
  too_many_protocols too_many_plugins already_active already_inactive invalid_feedback_score :
      SapError
  tag_too_long self_review_not_allowed feedback_already_revoked capability_index_full : SapError
  protocol_index_full agent_not_in_index invalid_capability_hash invalid_protocol_hash : SapError
  invalid_plugin_type chunk_data_too_large content_type_too_long ipfs_cid_too_long empty_name :
      SapError
  control_char_in_name empty_description agent_id_too_long invalid_capability_format : SapError
  duplicate_capability empty_tier_id duplicate_tier_id invalid_rate_limit : SapError
  spl_requires_token_mint invalid_x402_endpoint invalid_volume_curve : SapError
  too_many_volume_curve_points min_price_exceeds_max invalid_uptime_percent session_closed :
      SapError
  invalid_sequence invalid_fragment_index inscription_too_large empty_inscription : SapError
  invalid_total_fragments epoch_mismatch vault_not_closed session_not_closed delegate_expired :
      SapError
  invalid_delegate tool_name_too_long empty_tool_name invalid_tool_name_hash : SapError
  invalid_tool_http_method invalid_tool_category tool_already_inactive tool_already_active :
      SapError
  invalid_schema_hash invalid_schema_type invalid_checkpoint_index feedback_not_revoked : SapError
  index_not_empty session_still_open no_fields_to_update insufficient_escrow_balance : SapError
  escrow_max_calls_exceeded escrow_empty escrow_not_empty invalid_settlement_calls : SapError
  attestation_type_too_long empty_attestation_type self_attestation_not_allowed : SapError
  attestation_already_revoked attestation_not_revoked tool_category_index_full : SapError
  tool_not_in_category_index tool_category_mismatch arithmetic_overflow escrow_expired : SapError
  agent_inactive attestation_expired buffer_full buffer_data_too_large unauthorized : SapError
  invalid_session empty_digest_hash ledger_data_too_large ledger_ring_empty batch_empty : SapError
  batch_too_large spl_token_required invalid_token_account invalid_token_program : SapError
  invalid_payment_token invalid_settlement_security co_signer_required invalid_co_signer : SapError
  invalid_arbiter arbiter_required escrow_nonce_reused settlement_not_pending : SapError
  settlement_already_finalized dispute_window_not_expired dispute_window_expired not_depositor :
      SapError
  dispute_already_filed dispute_still_open not_arbiter invalid_dispute_outcome : SapError
  stake_below_minimum no_stake_account unstake_already_pending unstake_cooldown_not_met : SapError
  no_unstake_pending slash_exceeds_stake subscription_already_active subscription_cancelled :
      SapError
  no_interval_due subscription_insufficient_balance invalid_billing_interval : SapError
  invalid_shard_index index_page_full invalid_page_index index_page_not_empty already_migrated :
      SapError
  migration_v1_only settlement_disputed invalid_agent_wallet stake_agent_mismatch : SapError
  not_authority unstake_below_rent insufficient_stake self_report_deprecated : SapError
  arbiter_deprecated invalid_batch_index invalid_period invalid_dispute_type : SapError
  proof_deadline_expired proof_deadline_not_expired invalid_receipt_proof settlement_replay :
      SapError
  payment_token_not_allowed agent_stake_required delegate_expiry_invalid escrow_not_closed :
      SapError
  volume_curve_not_descending duplicate_service_hash stake_below_coverage stake_not_closable :
      SapError
  agent_stake_account_missing pricing_tier_not_found agent_stats_migration_required : SapError
  invalid_pricing_menu max_calls_per_settlement_exceeded invalid_volume_curve_price : SapError
  escrow_coverage_exceeded co_signer_is_agent_wallet escrow_already_expired : SapError
  pending_settlement_exists token_account_owner_mismatch invalid_treasury : SapError
  pending_settlement_required invalid_pending_settlement pending_settlement_deprecated : SapError
  max_receipt_proof_exceeded max_merkle_depth_exceeded pending_amount_mismatch : SapError
  stake_slash_locks_unstake invalid_price_per_call subscription_interval_overflow : SapError
  agent_stats_version_mismatch escrow_version_mismatch receipt_proof_already_submitted : SapError
  duplicate_receipt_proof missing_receipt_signature agent_capability_mismatch : SapError
  agent_protocol_mismatch invalid_tool_parameter_count active_escrow_counter_underflow : SapError

-- The account constraints of Anchor that name no error of the program.
pub data AnchorError : Type 0 where
  constraint_seeds constraint_has_one constraint_raw : AnchorError

-- `program` is an error of a library or of a program that is called; `panicked` is an abort of the
-- instruction, as by an unchecked `+` that overflows (the release profile has overflow checks).
pub data Error : Type 0 where
  sap : SapError → Error
  anchor : AnchorError → Error
  program : ℕ → Error
  panicked : Error
  -- A loop of the model ran out of its fuel.
  out_of_fuel : Error

pub data Result {ℓ} (A : Type ℓ) : Type ℓ where
  ok : A → Result A
  err : Error → Result A

infixl 5 ◌>>=◌ ◌>>◌
-- `?`: the first error ends the handler.
abbrev pub ◌>>=◌ {ℓ ℓ'} : {T : Type ℓ} {U : Type ℓ'} → Result T → (T → Result U) → Result U
err failure >>= next = err failure
ok value >>= next = next value

-- `require!(b, e)`, and a constraint with an error of the program.
abbrev pub require : Bool → SapError → Result (Unit {0})
require true e = ok tt
require false e = err (sap e)

-- A constraint with no error of the program.
abbrev pub constraint : Bool → AnchorError → Result (Unit {0})
constraint true e = ok tt
constraint false e = err (anchor e)

-- `o.ok_or(error!(e))?`
abbrev pub ok_or {ℓ} : {A : Type ℓ} → Option A → SapError → Result A
ok_or none e = err (sap e)
ok_or (some a) e = ok a

-- Two statements in a row, the first one for its checks.
abbrev pub ◌>>◌ {ℓ} : {U : Type ℓ} → Result (Unit {0}) → Result U → Result U
check >> next = check >>= λ _. next

-- Inversion of a successful bind.
pub >>=-eq-ok {ℓ ℓ'} :
    {T : Type ℓ} {U : Type ℓ'} (first : Result T) (next : T → Result U) {out : U}
    → (first >>= next) ≡ ok out
    → (value : T) × (first ≡ ok value) × (next value ≡ ok out)
>>=-eq-ok (err failure) next h = cc
>>=-eq-ok (ok value) next h = (value, refl, h)

pub require-eq-ok : (b : Bool) (e : SapError) → require b e ≡ ok tt → b ≡ true
require-eq-ok true e h = refl
require-eq-ok false e h = cc

-- A result is a success, or an error.
pub Result-cases {ℓ} :
    {A : Type ℓ} (r : Result A) → ((a : A) × (r ≡ ok a)) ⊎ ((e : Error) × (r ≡ err e))
Result-cases (ok a) = inl (a, refl)
Result-cases (err e) = inr (e, refl)

-- Constructors are one-to-one and disjoint.
pub ok-injective {ℓ} : {A : Type ℓ} {a b : A} → ok a ≡ ok b → a ≡ b
ok-injective h = cc
