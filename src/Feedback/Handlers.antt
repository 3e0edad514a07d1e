-- ===== src/Feedback/Handlers.antt =====
-- instructions/feedback.rs: the four handlers.
use synapse_sap.Common.{
  ℕ, true, false, not, Option, none, some, leb, ltb, ◌==◌, if◌then◌else◌, length, is_some,
}
use synapse_sap.Errors.{
  Result, ok, require, constraint, ◌>>=◌, ◌>>◌, constraint_seeds, constraint_has_one,
  agent_inactive, self_review_not_allowed, invalid_feedback_score, tag_too_long,
  feedback_already_revoked, feedback_not_revoked,
}
use synapse_sap.Checked.{
  as_u32, checked_add_u32, checked_add_u64, checked_mul_u64, div_u64, saturating_sub,
}
use synapse_sap.State.{
  Pubkey, Hash, Bytes, AgentAccount, FeedbackAccount, GlobalRegistry, max_tag_len,
}
use synapse_sap.Runtime.{Runtime, Bank, Clock}
use synapse_sap.Seeds.{feedback_seeds, at_address, at_bump}
use synapse_sap.Owner.{global_constraints}

-- The accounts of `update`, `revoke` and `close`; `give` creates the feedback.
pub record FeedbackAccounts : Type 0 where
  pub reviewer : Pubkey
  pub feedback_key : Pubkey
  pub feedback : FeedbackAccount
  pub agent_key : Pubkey
  pub agent : AgentAccount

-- `if let Some(ref t) = new_tag { require!(…) }`
unfoldable pub check_tag : Option Bytes → Result (Unit {0})
check_tag none = ok tt
check_tag (some tag) = require (leb (length tag) max_tag_len) tag_too_long

abbrev or_old {ℓ} : {A : Type ℓ} → Option A → A → A
or_old none old = old
or_old (some new) old = new

-- `if comment_hash.is_some() { feedback.comment_hash = comment_hash; }`
abbrev or_old_hash : Option Hash → Option Hash → Option Hash
or_old_hash new old = if is_some new then new else old

-- `(sum.checked_mul(10)? / total as u64) as u32`
unfoldable pub score_of : ℕ → ℕ → Result ℕ
score_of sum total = do
  scaled ← checked_mul_u64 sum 10
  mean ← div_u64 scaled total
  ok (as_u32 mean)

module _ (rt : Runtime) where
  unfoldable pub feedback_constraints : FeedbackAccounts → Result (Unit {0})
  feedback_constraints a = do
    constraint (at_bump rt (feedback_seeds a.agent_key a.reviewer) a.feedback.bump a.feedback_key)
        constraint_seeds
    constraint (a.feedback.reviewer == a.reviewer) constraint_has_one
    constraint (a.feedback.agent == a.agent_key) constraint_has_one

  -- The field `feedback` of the accounts is not read.
  unfoldable pub give :
      FeedbackAccounts
      → Pubkey
      → GlobalRegistry
      → ℕ
      → Bytes
      → Option Hash
      → Clock
      → Bank
      → Result (FeedbackAccount × AgentAccount × GlobalRegistry × Bank)
  unfolding global_constraints score_of
  give a global_key registry score tag comment_hash clock bank = do
    let seeds = feedback_seeds a.agent_key a.reviewer
    constraint (at_address rt seeds a.feedback_key) constraint_seeds
    bank₁ ← rt.init a.reviewer a.feedback_key bank
    require (a.agent.is_active) agent_inactive
    require (not (a.reviewer == a.agent.wallet)) self_review_not_allowed
    global_constraints rt global_key registry
    require (leb score 1000) invalid_feedback_score
    require (leb (length tag) max_tag_len) tag_too_long
    sum ← checked_add_u64 a.agent.reputation_sum score
    total ← checked_add_u32 a.agent.total_feedbacks 1
    reputation ← score_of sum total
    feedbacks ← checked_add_u64 registry.total_feedbacks 1
    ok (
      record {
        bump = (rt.find_program_address seeds).1;
        agent = a.agent_key;
        reviewer = a.reviewer;
        score = score;
        tag = tag;
        comment_hash = comment_hash;
        created_at = clock.unix_timestamp;
        updated_at = clock.unix_timestamp;
        is_revoked = false;
      },
      record (a.agent) {
        reputation_sum = sum;
        total_feedbacks = total;
        reputation_score = reputation;
        updated_at = clock.unix_timestamp;
      },
      record registry { total_feedbacks = feedbacks },
      bank₁,
    )

  unfoldable pub update_feedback :
      FeedbackAccounts
      → ℕ
      → Option Bytes
      → Option Hash
      → Clock
      → Result (FeedbackAccount × AgentAccount)
  unfolding feedback_constraints check_tag score_of
  update_feedback a new_score new_tag comment_hash clock = do
    feedback_constraints a
    require (leb new_score 1000) invalid_feedback_score
    require (not a.feedback.is_revoked) feedback_already_revoked
    check_tag new_tag
    sum ← checked_add_u64 (saturating_sub a.agent.reputation_sum a.feedback.score) new_score
    reputation ← score_of sum a.agent.total_feedbacks
    ok (
      record (a.feedback) {
        score = new_score;
        tag = or_old new_tag a.feedback.tag;
        comment_hash = or_old_hash comment_hash a.feedback.comment_hash;
        updated_at = clock.unix_timestamp;
      },
      record (a.agent) {
        reputation_sum = sum;
        reputation_score = reputation;
        updated_at = clock.unix_timestamp;
      },
    )

  unfoldable pub revoke : FeedbackAccounts → Clock → Result (FeedbackAccount × AgentAccount)
  unfolding feedback_constraints score_of
  revoke a clock = do
    feedback_constraints a
    require (not a.feedback.is_revoked) feedback_already_revoked
    let sum = saturating_sub a.agent.reputation_sum a.feedback.score
    let total = saturating_sub a.agent.total_feedbacks 1
    reputation ← if ltb 0 total then score_of sum total else ok 0
    ok (
      record (a.feedback) { is_revoked = true; updated_at = clock.unix_timestamp },
      record (a.agent) {
        reputation_sum = sum;
        total_feedbacks = total;
        reputation_score = reputation;
        updated_at = clock.unix_timestamp;
      },
    )

  unfoldable pub close_feedback :
      FeedbackAccounts → Pubkey → GlobalRegistry → Bank → Result (GlobalRegistry × Bank)
  unfolding feedback_constraints global_constraints
  close_feedback a global_key registry bank = do
    feedback_constraints a
    require a.feedback.is_revoked feedback_not_revoked
    global_constraints rt global_key registry
    bank₁ ← rt.close a.feedback_key a.reviewer bank
    ok (record registry { total_feedbacks = saturating_sub registry.total_feedbacks 1 }, bank₁)
