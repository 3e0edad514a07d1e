-- ===== src/Tests/Feedback.antt =====
-- Runs of the feedback handlers: a reviewer gives 900, lowers it to 401, and revokes it.
use synapse_sap.Common.{ℕ, ◌*◌, ◌≡◌, refl, true, false, none, [], ◌∷◌}
use synapse_sap.Common.Int.{pos}
use synapse_sap.Errors.{ok}
use synapse_sap.State.{AgentAccount, FeedbackAccount}
use synapse_sap.Seeds.{global_seeds, feedback_seeds, agent_seeds, at_address, at_bump}
use synapse_sap.Feedback.Handlers.{FeedbackAccounts, give, update_feedback, revoke}
use synapse_sap.Feedback.Life.{
  World, Reach, IsMean, Reach-IsMean, fresh, given, updated, revoked, next,
}
use synapse_sap.Tests.Demo

abbrev review : ℕ → FeedbackAccount
review score = record {
  bump = 255;
  agent = Demo.agent_key;
  reviewer = 22;
  score = score;
  tag = 1 ∷ [];
  comment_hash = none;
  created_at = pos 1000;
  updated_at = pos 1000;
  is_revoked = false;
}

abbrev rated : ℕ → AgentAccount
rated score = record (Demo.agent) {
  reputation_sum = score;
  total_feedbacks = 1;
  reputation_score = score * 10;
  updated_at = pos 1000;
}

abbrev accounts : FeedbackAccount → AgentAccount → FeedbackAccounts
accounts feedback agent = record {
  reviewer = 22;
  feedback_key = Demo.derive (feedback_seeds Demo.agent_key 22);
  feedback = feedback;
  agent_key = Demo.agent_key;
  agent = agent;
}

give-ok :
    give Demo.runtime
      (accounts (review 0) Demo.agent)
      Demo.global_key
      Demo.registry
      900
      (1 ∷ [])
      none
      Demo.clock
      Demo.bank
    ≡ ok (review 900, rated 900, record (Demo.registry) { total_feedbacks = 1 }, Demo.bank)
unfolding give at_address at_bump global_seeds feedback_seeds agent_seeds
give-ok = refl

update-ok :
    update_feedback Demo.runtime (accounts (review 900) (rated 900)) 401 none none Demo.clock
    ≡ ok (review 401, rated 401)
unfolding update_feedback at_bump feedback_seeds agent_seeds
update-ok = refl

abbrev withdrawn : FeedbackAccount
withdrawn = record (review 401) { is_revoked = true }

abbrev unrated : AgentAccount
unrated = record (Demo.agent) { updated_at = pos 1000 }

revoke-ok :
    revoke Demo.runtime (accounts (review 401) (rated 401)) Demo.clock ≡ ok (withdrawn, unrated)
unfolding revoke at_bump feedback_seeds agent_seeds
revoke-ok = refl

abbrev start : World
start = record { agent = Demo.agent; reviews = [] }

abbrev reviewed : ℕ → World
reviewed score = record { agent = rated score; reviews = review score ∷ [] }

abbrev over : World
over = record { agent = unrated; reviews = withdrawn ∷ [] }

updated_reached : Reach Demo.runtime (reviewed 401)
updated_reached =
    next (reviewed 900) (reviewed 401)
      (next start (reviewed 900) (fresh Demo.agent start refl refl refl refl) (
        given (accounts (review 0) Demo.agent) Demo.global_key Demo.registry
          (record (Demo.registry) { total_feedbacks = 1 }) 900 (1 ∷ []) none Demo.clock Demo.bank
          Demo.bank (review 900) (rated 900) refl give-ok refl))
      (updated (accounts (review 900) (rated 900)) [] [] 401 none none Demo.clock (review 401)
        (rated 401) refl refl update-ok refl)

over_reached : Reach Demo.runtime over
over_reached = next (reviewed 401) over updated_reached (
    revoked (accounts (review 401) (rated 401)) [] [] Demo.clock withdrawn unrated refl refl
      revoke-ok refl)

Reach-IsMean_example : IsMean over
Reach-IsMean_example = Reach-IsMean Demo.runtime over over_reached
