-- ===== src/Feedback/Life.antt =====
-- The reputation of an agent over its life, beside the list of its reviews. A reviewer's account
-- that is closed leaves the list.
use synapse_sap.Common.{ℕ, ◌≤◌, ◌≡◌, sym, ap, ◌∙◌, Option, List, [], ◌∷◌, ◌++◌, arith}
use synapse_sap.Errors.{ok}
use synapse_sap.State.{Pubkey, Hash, Bytes, AgentAccount, FeedbackAccount, GlobalRegistry}
use synapse_sap.Runtime.{Runtime, Bank, Clock}
use synapse_sap.Feedback.Handlers.{FeedbackAccounts, give, update_feedback, revoke, close_feedback}
use synapse_sap.Feedback.Reputation.{
  live_count, live_sum, live_count-append, live_sum-append, IsScored, IsScored-append,
  IsScored-split, live_sum_le, mean_score, mean_bound, scored_mean, revoked_mean, replaced_counts,
  give_lem, update_feedback_lem, revoke_lem, close_feedback_lem,
}

pub record World : Type 0 where
  pub agent : AgentAccount
  pub reviews : List FeedbackAccount

pub data Step (rt : Runtime) (w w' : World) : Type 0 where
  given :
      (a : FeedbackAccounts) (global_key : Pubkey) (registry registry' : GlobalRegistry) (score : ℕ)
      (tag : Bytes) (comment_hash : Option Hash) (clock : Clock) (bank bank' : Bank)
      (review : FeedbackAccount) (agent : AgentAccount)
      → a.agent ≡ w.agent
      → give rt a global_key registry score tag comment_hash clock bank
        ≡ ok (review, agent, registry', bank')
      → w' ≡ record { agent = agent; reviews = review ∷ w.reviews }
      → Step rt w w'
  updated :
      (a : FeedbackAccounts) (before later : List FeedbackAccount) (score : ℕ) (tag : Option Bytes)
      (comment_hash : Option Hash) (clock : Clock) (review : FeedbackAccount) (agent : AgentAccount)
      → a.agent ≡ w.agent
      → w.reviews ≡ before ++ a.feedback ∷ later
      → update_feedback rt a score tag comment_hash clock ≡ ok (review, agent)
      → w' ≡ record { agent = agent; reviews = before ++ review ∷ later }
      → Step rt w w'
  revoked :
      (a : FeedbackAccounts) (before later : List FeedbackAccount) (clock : Clock)
      (review : FeedbackAccount) (agent : AgentAccount)
      → a.agent ≡ w.agent
      → w.reviews ≡ before ++ a.feedback ∷ later
      → revoke rt a clock ≡ ok (review, agent)
      → w' ≡ record { agent = agent; reviews = before ++ review ∷ later }
      → Step rt w w'
  closed :
      (a : FeedbackAccounts) (before later : List FeedbackAccount) (global_key : Pubkey)
      (registry registry' : GlobalRegistry) (bank bank' : Bank)
      → w.reviews ≡ before ++ a.feedback ∷ later
      → close_feedback rt a global_key registry bank ≡ ok (registry', bank')
      → w' ≡ record w { reviews = before ++ later }
      → Step rt w w'

pub record IsMean (w : World) : Type 0 where
  pub counted : w.agent.total_feedbacks ≡ live_count w.reviews
  pub summed : w.agent.reputation_sum ≡ live_sum w.reviews
  pub score : w.agent.reputation_score ≡ mean_score (live_sum w.reviews) (live_count w.reviews)
  pub scored : IsScored w.reviews

Step-IsMean : (rt : Runtime) (w w' : World) → Step rt w w' → IsMean w → IsMean w'
Step-IsMean rt w w' (given a g r r' s tag ch clock bank bank' review agent same h to) m =
    let (live, s', sum, total, scored) =
      give_lem rt a g r r' s tag ch clock bank bank' review agent h in
    let all : List FeedbackAccount = review ∷ w.reviews in
    let e : agent.reputation_sum ≡ live_sum all = ground (arith, m.summed) in
    let e' : agent.total_feedbacks ≡ live_count all = ground (arith, m.counted) in
    rw to (record {
      counted = e';
      summed = e;
      score = scored_mean all agent e e' (s', m.scored) scored;
      scored = (s', m.scored);
    })
Step-IsMean rt w w' (updated a before later s tag ch clock review agent same at h to) m =
    let (live, live', s', sum, total, scored) =
      update_feedback_lem rt a s tag ch clock review agent h in
    let all : List FeedbackAccount = before ++ review ∷ later in
    let (c, t) = replaced_counts before later a.feedback in
    let (c', t') = replaced_counts before later review in
    let old = ap live_sum at in
    let old' = ap live_count at in
    let (sb, sl) = IsScored-split before (a.feedback ∷ later) (rw at at m.scored) in
    let k = IsScored-append before (review ∷ later) sb (s', sl.1) in
    let e : agent.reputation_sum ≡ live_sum all = ground (arith, m.summed) in
    let e' : agent.total_feedbacks ≡ live_count all = ground (arith, m.counted) in
    rw to
      (record { counted = e'; summed = e; score = scored_mean all agent e e' k scored; scored = k })
Step-IsMean rt w w' (revoked a before later clock review agent same at h to) m =
    let (live, dead, s', sum, total, scored) = revoke_lem rt a clock review agent h in
    let all : List FeedbackAccount = before ++ review ∷ later in
    let (c, t) = replaced_counts before later a.feedback in
    let (c', t') = replaced_counts before later review in
    let old = ap live_sum at in
    let old' = ap live_count at in
    let (sb, sl) = IsScored-split before (a.feedback ∷ later) (rw at at m.scored) in
    let k = IsScored-append before (review ∷ later) sb (omega arith, sl.1) in
    let e : agent.reputation_sum ≡ live_sum all = ground (arith, m.summed) in
    let e' : agent.total_feedbacks ≡ live_count all = ground (arith, m.counted) in
    rw to (record {
      counted = e';
      summed = e;
      score = revoked_mean all agent e e' k scored;
      scored = k;
    })
Step-IsMean rt w w' (closed a before later g r r' bank bank' at h to) m =
    let dead = close_feedback_lem rt a g r r' bank bank' h in
    let (c, t) = replaced_counts before later a.feedback in
    let e : live_sum (before ++ later) ≡ live_sum w.reviews =
      ground (arith, ap live_sum at, live_sum-append before later) in
    let e' : live_count (before ++ later) ≡ live_count w.reviews =
      ground (arith, ap live_count at, live_count-append before later) in
    let (sb, sl) = IsScored-split before (a.feedback ∷ later) (rw at at m.scored) in
    rw to (record {
      counted = m.counted ∙ sym e';
      summed = m.summed ∙ sym e;
      score = rw (e, e') m.score;
      scored = IsScored-append before later sb sl.1;
    })

-- From the counters that `register_agent` writes, with no reviews.
pub data Reach (rt : Runtime) : World → Type 0 where
  fresh :
      (agent : AgentAccount) (w : World)
      → agent.reputation_sum ≡ 0
      → agent.total_feedbacks ≡ 0
      → agent.reputation_score ≡ 0
      → w ≡ record { agent = agent; reviews = [] }
      → Reach rt w
  next : (v w : World) → Reach rt v → Step rt v w → Reach rt w

-- In every state that an agent without reviews comes to by giving, updating, revoking and closing
-- reviews, the counters of the agent are the number and the sum of the reviews that are not
-- revoked, each of which scores at most 1000, and the reputation is ten times their mean, rounded
-- down, or zero where there are none.
pub Reach-IsMean : (rt : Runtime) (w : World) → Reach rt w → IsMean w
Reach-IsMean rt w (fresh agent w₀ z z' z'' start) =
    rw start (record { counted = z'; summed = z; score = z''; scored = tt })
Reach-IsMean rt w (next v w₀ r s) = Step-IsMean rt v w₀ s (Reach-IsMean rt v r)

-- In every state that an agent without reviews comes to by reviews, its reputation is at most 10000.
pub Reach-reputation_le : (rt : Runtime) (w : World) → Reach rt w → w.agent.reputation_score ≤ 10000
Reach-reputation_le rt w r =
    let m = Reach-IsMean rt w r in
    ground (
      arith,
      m.score,
      mean_bound (live_sum w.reviews) (live_count w.reviews) (live_sum_le w.reviews m.scored),
    )
