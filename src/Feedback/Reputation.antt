-- ===== src/Feedback/Reputation.antt =====
-- What the reviews of a list add up to, and what the handlers do to an agent's counters.
use synapse_sap.Common.{
  ℕ, ◌+◌, ◌-◌, ◌*◌, ◌/◌, ◌≤◌, ◌≡◌, true, false, Option, List, [], ◌∷◌, ◌++◌, if◌then◌else◌, ltb,
  ◌==◌, arith,
}
use native.Mathlib.Nat.{div-le_of_le-mul}
use synapse_sap.Errors.{ok}
use synapse_sap.State.{Pubkey, Hash, Bytes, AgentAccount, FeedbackAccount, GlobalRegistry}
use synapse_sap.Runtime.{Runtime, Bank, Clock}
use synapse_sap.Feedback.Handlers.{
  FeedbackAccounts, give, update_feedback, revoke, close_feedback, score_of,
}

-- Of the reviews that are not revoked, how many there are, and the sum of their scores.
abbrev pub live_count : List FeedbackAccount → ℕ
live_count [] = 0
live_count (f ∷ fs) = (if f.is_revoked then 0 else 1) + live_count fs

abbrev pub live_sum : List FeedbackAccount → ℕ
live_sum [] = 0
live_sum (f ∷ fs) = (if f.is_revoked then 0 else f.score) + live_sum fs

pub live_count-append :
    (xs ys : List FeedbackAccount) → live_count (xs ++ ys) ≡ live_count xs + live_count ys
live_count-append [] ys = omega arith
live_count-append (f ∷ fs) ys = omega (arith, live_count-append fs ys)

pub live_sum-append :
    (xs ys : List FeedbackAccount) → live_sum (xs ++ ys) ≡ live_sum xs + live_sum ys
live_sum-append [] ys = omega arith
live_sum-append (f ∷ fs) ys = omega (arith, live_sum-append fs ys)

abbrev pub IsScored : List FeedbackAccount → Type 0
IsScored [] = Unit {0}
IsScored (f ∷ fs) = (f.score ≤ 1000) × IsScored fs

pub live_sum_le : (fs : List FeedbackAccount) → IsScored fs → live_sum fs ≤ 1000 * live_count fs
live_sum_le [] h = omega arith
live_sum_le (f ∷ fs) h = ground (arith, live_sum_le fs h.1)

-- The mean of the scores that are not revoked, times ten.
abbrev pub mean_score : ℕ → ℕ → ℕ
mean_score sum total = if total == 0 then 0 else sum * 10 / total

pub mean_bound : (sum total : ℕ) → sum ≤ 1000 * total → sum * 10 / total ≤ 10000
mean_bound sum total h = div-le_of_le-mul total {m = sum * 10} {n = 10000} (omega arith)

score_of-mean :
    (sum total r : ℕ) → sum ≤ 1000 * total → score_of sum total ≡ ok r → r ≡ mean_score sum total
unfolding score_of
score_of-mean sum total r h e = ground (arith, mean_bound sum total h)

pub IsScored-append :
    (xs ys : List FeedbackAccount) → IsScored xs → IsScored ys → IsScored (xs ++ ys)
IsScored-append [] ys h k = k
IsScored-append (f ∷ fs) ys h k = (h.0, IsScored-append fs ys h.1 k)

pub IsScored-split :
    (xs ys : List FeedbackAccount) → IsScored (xs ++ ys) → IsScored xs × IsScored ys
IsScored-split [] ys h = (tt, h)
IsScored-split (f ∷ fs) ys h = let (l, r) = IsScored-split fs ys h.1 in ((h.0, l), r)

-- The counters before and after a review in the list is replaced.
pub replaced_counts :
    (before later : List FeedbackAccount) (f : FeedbackAccount)
    → (live_count (before ++ f ∷ later)
        ≡ live_count before + ((if f.is_revoked then 0 else 1) + live_count later))
      × (live_sum (before ++ f ∷ later)
          ≡ live_sum before + ((if f.is_revoked then 0 else f.score) + live_sum later))
replaced_counts before later f =
    (live_count-append before (f ∷ later), live_sum-append before (f ∷ later))

-- What the three handlers that change the agent do to the counters.
pub give_lem :
    (rt : Runtime) (a : FeedbackAccounts) (global_key : Pubkey)
    (registry registry' : GlobalRegistry) (score : ℕ) (tag : Bytes) (comment_hash : Option Hash)
    (clock : Clock) (bank bank' : Bank) (review : FeedbackAccount) (agent : AgentAccount)
    → give rt a global_key registry score tag comment_hash clock bank
      ≡ ok (review, agent, registry', bank')
    → (review.is_revoked ≡ false)
      × (review.score ≤ 1000)
      × (agent.reputation_sum ≡ a.agent.reputation_sum + review.score)
      × (agent.total_feedbacks ≡ a.agent.total_feedbacks + 1)
      × (score_of agent.reputation_sum agent.total_feedbacks ≡ ok agent.reputation_score)
unfolding give
give_lem rt a g r r' score tag comment_hash clock bank bank' review agent h = ground arith

pub update_feedback_lem :
    (rt : Runtime) (a : FeedbackAccounts) (score : ℕ) (tag : Option Bytes)
    (comment_hash : Option Hash) (clock : Clock) (review : FeedbackAccount) (agent : AgentAccount)
    → update_feedback rt a score tag comment_hash clock ≡ ok (review, agent)
    → (a.feedback.is_revoked ≡ false)
      × (review.is_revoked ≡ false)
      × (review.score ≤ 1000)
      × (agent.reputation_sum ≡ a.agent.reputation_sum - a.feedback.score + review.score)
      × (agent.total_feedbacks ≡ a.agent.total_feedbacks)
      × (score_of agent.reputation_sum agent.total_feedbacks ≡ ok agent.reputation_score)
unfolding update_feedback
update_feedback_lem rt a score tag comment_hash clock review agent h = ground arith

pub revoke_lem :
    (rt : Runtime) (a : FeedbackAccounts) (clock : Clock) (review : FeedbackAccount)
    (agent : AgentAccount)
    → revoke rt a clock ≡ ok (review, agent)
    → (a.feedback.is_revoked ≡ false)
      × (review.is_revoked ≡ true)
      × (review.score ≡ a.feedback.score)
      × (agent.reputation_sum ≡ a.agent.reputation_sum - a.feedback.score)
      × (agent.total_feedbacks ≡ a.agent.total_feedbacks - 1)
      × ((if ltb 0 agent.total_feedbacks
            then score_of agent.reputation_sum agent.total_feedbacks
            else ok 0)
          ≡ ok agent.reputation_score)
unfolding revoke
revoke_lem rt a clock review agent h = ground arith

pub close_feedback_lem :
    (rt : Runtime) (a : FeedbackAccounts) (global_key : Pubkey)
    (registry registry' : GlobalRegistry) (bank bank' : Bank)
    → close_feedback rt a global_key registry bank ≡ ok (registry', bank')
    → a.feedback.is_revoked ≡ true
unfolding close_feedback
close_feedback_lem rt a g r r' bank bank' h = ground arith

-- The stored score is the mean where the counters are right; it stays below 2^32, so the cast to a
-- u32 changes nothing.
pub scored_mean :
    (all : List FeedbackAccount) (agent : AgentAccount)
    → agent.reputation_sum ≡ live_sum all
    → agent.total_feedbacks ≡ live_count all
    → IsScored all
    → score_of agent.reputation_sum agent.total_feedbacks ≡ ok agent.reputation_score
    → agent.reputation_score ≡ mean_score (live_sum all) (live_count all)
scored_mean all agent e e' k h =
    score_of-mean (live_sum all) (live_count all) agent.reputation_score (live_sum_le all k)
      (rw (← e, ← e') h)

pub revoked_mean :
    (all : List FeedbackAccount) (agent : AgentAccount)
    → agent.reputation_sum ≡ live_sum all
    → agent.total_feedbacks ≡ live_count all
    → IsScored all
    → (if ltb 0 agent.total_feedbacks
        then score_of agent.reputation_sum agent.total_feedbacks
        else ok 0)
      ≡ ok agent.reputation_score
    → agent.reputation_score ≡ mean_score (live_sum all) (live_count all)
revoked_mean all agent e e' k h = ground (
  arith,
  score_of-mean (live_sum all) (live_count all) agent.reputation_score (live_sum_le all k),
)
