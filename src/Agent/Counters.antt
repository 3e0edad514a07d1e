-- ===== src/Agent/Counters.antt =====
-- The counters of the global registry beside the list of the registered agents.
use synapse_sap.Common.{
  ℕ, ◌+◌, ◌-◌, ◌≡◌, refl, sym, ap, ◌∙◌, Bool, true, false, List, [], ◌∷◌, ◌++◌, if◌then◌else◌,
  length, length-append, arith,
}
use synapse_sap.Errors.{ok}
use synapse_sap.State.{Pubkey, AgentAccount, AgentStats, AgentStake, GlobalRegistry}
use synapse_sap.Runtime.{Runtime, Bank, Clock, AccountInfo}
use synapse_sap.Agent.Handlers.{
  AgentAccounts, Registration, Registered, register, deactivate, reactivate, close_agent,
}

-- A registered agent, with the two flags that say whether it is active.
pub record Entry : Type 0 where
  pub agent_key : Pubkey
  pub is_active : Bool
  pub stats_active : Bool

abbrev pub entry : Pubkey → AgentAccount → AgentStats → Entry
entry key agent stats = record {
  agent_key = key;
  is_active = agent.is_active;
  stats_active = stats.is_active;
}

abbrev pub active_count : List Entry → ℕ
active_count [] = 0
active_count (e ∷ es) = (if e.is_active then 1 else 0) + active_count es

-- The account of the agent and that of its statistics agree.
abbrev pub IsInStep : List Entry → Type 0
IsInStep [] = Unit {0}
IsInStep (e ∷ es) = (e.is_active ≡ e.stats_active) × IsInStep es

pub record World : Type 0 where
  pub total_agents : ℕ
  pub active_agents : ℕ
  pub entries : List Entry

abbrev pub Reads : GlobalRegistry → World → Type 0
Reads registry w =
    (registry.total_agents ≡ w.total_agents) × (registry.active_agents ≡ w.active_agents)

abbrev pub world : GlobalRegistry → List Entry → World
world registry entries = record {
  total_agents = registry.total_agents;
  active_agents = registry.active_agents;
  entries = entries;
}

abbrev pub entry_of : AgentAccounts → Entry
entry_of a = entry a.owner.agent_key a.owner.agent a.stats

pub data Step (rt : Runtime) (w w' : World) : Type 0 where
  registered :
      (wallet agent_key stats_key menu_key global_key : Pubkey) (registry : GlobalRegistry)
      (remaining : List AccountInfo) (r : Registration) (clock : Clock) (bank : Bank)
      (out : Registered)
      → Reads registry w
      → register rt wallet agent_key stats_key menu_key global_key registry remaining r clock bank
        ≡ ok out
      → w' ≡ world out.registry (entry agent_key out.agent out.stats ∷ w.entries)
      → Step rt w w'
  deactivated :
      (a : AgentAccounts) (before later : List Entry) (clock : Clock) (agent : AgentAccount)
      (stats : AgentStats) (registry : GlobalRegistry)
      → Reads a.registry w
      → w.entries ≡ before ++ entry_of a ∷ later
      → deactivate rt a clock ≡ ok (agent, stats, registry)
      → w' ≡ world registry (before ++ entry a.owner.agent_key agent stats ∷ later)
      → Step rt w w'
  reactivated :
      (a : AgentAccounts) (before later : List Entry) (clock : Clock) (agent : AgentAccount)
      (stats : AgentStats) (registry : GlobalRegistry)
      → Reads a.registry w
      → w.entries ≡ before ++ entry_of a ∷ later
      → reactivate rt a clock ≡ ok (agent, stats, registry)
      → w' ≡ world registry (before ++ entry a.owner.agent_key agent stats ∷ later)
      → Step rt w w'
  closed :
      (a : AgentAccounts) (before later : List Entry) (vault_key menu_key stake_key : Pubkey)
      (stake : AgentStake) (bank bank' : Bank) (registry : GlobalRegistry)
      → Reads a.registry w
      → w.entries ≡ before ++ entry_of a ∷ later
      → close_agent rt a vault_key menu_key stake_key stake bank ≡ ok (registry, bank')
      → w' ≡ world registry (before ++ later)
      → Step rt w w'

-- From the counters of `initialize_global`.
pub data Reach (rt : Runtime) : World → Type 0 where
  empty :
      (w : World) → w ≡ record { total_agents = 0; active_agents = 0; entries = [] } → Reach rt w
  next : (v w : World) → Reach rt v → Step rt v w → Reach rt w

pub record IsCounted (w : World) : Type 0 where
  pub total : w.total_agents ≡ length w.entries
  pub active : w.active_agents ≡ active_count w.entries
  pub in_step : IsInStep w.entries

active_count-append :
    (xs ys : List Entry) → active_count (xs ++ ys) ≡ active_count xs + active_count ys
active_count-append [] ys = omega arith
active_count-append (e ∷ es) ys = omega (arith, active_count-append es ys)

IsInStep-replace :
    (before later : List Entry) (e e' : Entry)
    → IsInStep (before ++ e ∷ later)
    → e'.is_active ≡ e'.stats_active
    → IsInStep (before ++ e' ∷ later) × IsInStep (before ++ later)
IsInStep-replace [] later e e' h k = ((k, h.1), h.1)
IsInStep-replace (x ∷ xs) later e e' h k =
    let (l, r) = IsInStep-replace xs later e e' h.1 k in ((h.0, l), (h.0, r))

deactivate_lem :
    (rt : Runtime) (a : AgentAccounts) (clock : Clock) (agent : AgentAccount) (stats : AgentStats)
    (registry : GlobalRegistry)
    → deactivate rt a clock ≡ ok (agent, stats, registry)
    → (a.owner.agent.is_active ≡ true)
      × (agent.is_active ≡ false)
      × (stats.is_active ≡ false)
      × (registry.total_agents ≡ a.registry.total_agents)
      × (registry.active_agents ≡ a.registry.active_agents - 1)
unfolding deactivate
deactivate_lem rt a clock agent stats registry h = ground arith

reactivate_lem :
    (rt : Runtime) (a : AgentAccounts) (clock : Clock) (agent : AgentAccount) (stats : AgentStats)
    (registry : GlobalRegistry)
    → reactivate rt a clock ≡ ok (agent, stats, registry)
    → (a.owner.agent.is_active ≡ false)
      × (agent.is_active ≡ true)
      × (stats.is_active ≡ true)
      × (registry.total_agents ≡ a.registry.total_agents)
      × (registry.active_agents ≡ a.registry.active_agents + 1)
unfolding reactivate
reactivate_lem rt a clock agent stats registry h = ground arith

close_agent_lem :
    (rt : Runtime) (a : AgentAccounts) (vault_key menu_key stake_key : Pubkey) (stake : AgentStake)
    (bank bank' : Bank) (registry : GlobalRegistry)
    → close_agent rt a vault_key menu_key stake_key stake bank ≡ ok (registry, bank')
    → (registry.total_agents ≡ a.registry.total_agents - 1)
      × (registry.active_agents
          ≡ a.registry.active_agents - (if a.owner.agent.is_active then 1 else 0))
unfolding close_agent
close_agent_lem rt a v m k stake bank bank' registry h = ground arith

register_lem :
    (rt : Runtime) (wallet agent_key stats_key menu_key global_key : Pubkey)
    (registry : GlobalRegistry) (remaining : List AccountInfo) (r : Registration) (clock : Clock)
    (bank : Bank) (out : Registered)
    → register rt wallet agent_key stats_key menu_key global_key registry remaining r clock bank
      ≡ ok out
    → (out.agent.is_active ≡ true)
      × (out.stats.is_active ≡ true)
      × (out.registry.total_agents ≡ registry.total_agents + 1)
      × (out.registry.active_agents ≡ registry.active_agents + 1)
unfolding register
register_lem rt wallet ak sk mk gk registry remaining r clock bank out h = ground arith

Step-IsCounted : (rt : Runtime) (w w' : World) → Step rt w w' → IsCounted w → IsCounted w'
Step-IsCounted rt w w'
      (registered wallet ak sk mk gk registry remaining r clock bank out reads h to) c =
    let (on, on', total, active) =
      register_lem rt wallet ak sk mk gk registry remaining r clock bank out h in
    rw to (record {
      total = ground (arith, c.total);
      active = ground (arith, c.active);
      in_step = (on ∙ sym on', c.in_step);
    })
Step-IsCounted rt w w' (deactivated a before later clock agent stats registry reads at h to) c =
    let (on, off, off', total, active) = deactivate_lem rt a clock agent stats registry h in
    let e' : Entry = entry a.owner.agent_key agent stats in
    rw to (record {
      total = ground (
        arith,
        c.total,
        ap length at,
        length-append before (entry_of a ∷ later),
        length-append before (e' ∷ later),
      );
      active = ground (
        arith,
        c.active,
        ap active_count at,
        active_count-append before (entry_of a ∷ later),
        active_count-append before (e' ∷ later),
      );
      in_step =
          (IsInStep-replace before later (entry_of a) e' (rw at at c.in_step) (off ∙ sym off')).0;
    })
Step-IsCounted rt w w' (reactivated a before later clock agent stats registry reads at h to) c =
    let (off, on, on', total, active) = reactivate_lem rt a clock agent stats registry h in
    let e' : Entry = entry a.owner.agent_key agent stats in
    rw to (record {
      total = ground (
        arith,
        c.total,
        ap length at,
        length-append before (entry_of a ∷ later),
        length-append before (e' ∷ later),
      );
      active = ground (
        arith,
        c.active,
        ap active_count at,
        active_count-append before (entry_of a ∷ later),
        active_count-append before (e' ∷ later),
      );
      in_step =
          (IsInStep-replace before later (entry_of a) e' (rw at at c.in_step) (on ∙ sym on')).0;
    })
Step-IsCounted rt w w' (closed a before later v m k stake bank bank' registry reads at h to) c =
    let (total, active) = close_agent_lem rt a v m k stake bank bank' registry h in
    let e : Entry = record { agent_key = 0; is_active = true; stats_active = true } in
    rw to (record {
      total = ground (
        arith,
        c.total,
        ap length at,
        length-append before (entry_of a ∷ later),
        length-append before later,
      );
      active = ground (
        arith,
        c.active,
        ap active_count at,
        active_count-append before (entry_of a ∷ later),
        active_count-append before later,
      );
      in_step = (IsInStep-replace before later (entry_of a) e (rw at at c.in_step) refl).1;
    })

-- In every state that the registry comes to by registrations, deactivations, reactivations and
-- closings of agents, in any order, `total_agents` is the number of the registered agents,
-- `active_agents` is the number of the active ones, and each agent's account and its statistics
-- agree on whether it is active.
pub Reach-IsCounted : (rt : Runtime) (w : World) → Reach rt w → IsCounted w
Reach-IsCounted rt w (empty w₀ start) =
    rw start (record { total = refl; active = refl; in_step = tt })
Reach-IsCounted rt w (next v w₀ r s) = Step-IsCounted rt v w₀ s (Reach-IsCounted rt v r)
