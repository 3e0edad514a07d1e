-- ===== src/Legacy/Plugins.antt =====
-- instructions/plugin.rs: the two handlers, and what they do to the list of the agent's plugins.
use synapse_sap.Common.{
  ℕ, ◌+◌, ◌≤◌, ◌<◌, ◌≡◌, refl, ap, ◌∙◌, true, none, some, Option, List, [], ◌∷◌, ◌++◌, map, ltb,
  ◌==◌, if◌then◌else◌, length, min, length-append, Option-cases, inl, inr, arith,
}
use synapse_sap.Errors.{
  Result, ok, require, constraint, ok_or, ◌>>=◌, ◌>>◌, constraint_seeds, constraint_raw,
  too_many_plugins, invalid_plugin_type,
}
use synapse_sap.State.{
  Pubkey, AgentAccount, PluginRef, PluginSlot, plugin_type_from_u8, max_plugins,
}
use synapse_sap.Runtime.{Runtime, Bank, Clock}
use synapse_sap.Seeds.{plugin_seeds, at_address}
use synapse_sap.Owner.{Owner, owner_constraints}
use synapse_sap.Index.Members.{
  position, swap_remove, count, count-append, map-swap_remove, count-swap_remove, position-none,
}

-- `iter().position(|p| p.pda == plugin_key)` looks at these.
abbrev pub plugin_keys : List PluginRef → List Pubkey
plugin_keys plugins = map (λ p. p.pda) plugins

-- The list after `if let Some(pos) = … { swap_remove(pos) }`.
abbrev without : List PluginRef → Option ℕ → List PluginRef
without plugins none = plugins
without plugins (some pos) = swap_remove plugins pos

module _ (rt : Runtime) where
  unfoldable pub register_plugin :
      Owner → Pubkey → ℕ → Clock → Bank → Result (AgentAccount × PluginSlot × Bank)
  unfolding owner_constraints
  register_plugin owner slot_key plugin_type clock bank = do
    let seeds = plugin_seeds owner.agent_key plugin_type
    owner_constraints rt owner
    constraint (at_address rt seeds slot_key) constraint_seeds
    bank₁ ← rt.init owner.wallet slot_key bank
    let agent = owner.agent
    require (ltb (length agent.active_plugins) max_plugins) too_many_plugins
    pt ← ok_or (plugin_type_from_u8 plugin_type) invalid_plugin_type
    ok (
      record agent {
        active_plugins = agent.active_plugins ++ record { plugin_type = pt; pda = slot_key } ∷ [];
        updated_at = clock.unix_timestamp;
      },
      record {
        bump = (rt.find_program_address seeds).1;
        agent = owner.agent_key;
        plugin_type = pt;
        is_active = true;
        initialized_at = clock.unix_timestamp;
        last_updated = clock.unix_timestamp;
        data_account = none;
      },
      bank₁,
    )

  unfoldable pub close_plugin :
      Owner → Pubkey → PluginSlot → Clock → Bank → Result (AgentAccount × Bank)
  unfolding owner_constraints
  close_plugin owner slot_key slot clock bank = do
    owner_constraints rt owner
    constraint (slot.agent == owner.agent_key) constraint_raw
    let agent = owner.agent
    let plugins = agent.active_plugins
    bank₁ ← rt.close slot_key owner.wallet bank
    ok (
      record agent {
        active_plugins = without plugins (position (plugin_keys plugins) slot_key);
        updated_at = clock.unix_timestamp;
      },
      bank₁,
    )

keys-append :
    (ps : List PluginRef) (p : PluginRef)
    → plugin_keys (ps ++ p ∷ []) ≡ plugin_keys ps ++ p.pda ∷ []
keys-append [] p = refl
keys-append (q ∷ ps) p = ap (λ ks. q.pda ∷ ks) (keys-append ps p)

appended-count :
    (ps qs : List PluginRef) (p : PluginRef) (j : Pubkey)
    → qs ≡ ps ++ p ∷ []
    → count j (plugin_keys qs) ≡ count j (p.pda ∷ plugin_keys ps)
appended-count ps qs p j e =
    ap (λ xs. count j (plugin_keys xs)) e
    ∙ ap (λ ks. count j ks) (keys-append ps p)
    ∙ count-append j p.pda (plugin_keys ps)

removed-count :
    (ps qs : List PluginRef) (k j : Pubkey)
    → qs ≡ without ps (position (plugin_keys ps) k)
    → count j (plugin_keys qs) + (if k == j then min 1 (count j (plugin_keys ps)) else 0)
      ≡ count j (plugin_keys ps)
removed-count ps qs k j e = elim (Option-cases (position (plugin_keys ps) k)) [
  | inl absent ↦
      let same : qs ≡ ps = e ∙ ap (λ o. without ps o) absent in
      rw same (ground (arith, position-none k (plugin_keys ps) absent))
  | inr (i, at) ↦
      let removed : qs ≡ swap_remove ps i = e ∙ ap (λ o. without ps o) at in
      rw removed (
        rw (map-swap_remove (λ p. p.pda) ps i)
          (ground (arith, count-swap_remove j k (plugin_keys ps) i at)))
]

module _ (rt : Runtime) (owner : Owner) (slot_key : Pubkey) (bank bank' : Bank) where
  pub registered :
      (plugin_type : ℕ) (clock : Clock) (agent : AgentAccount) (slot : PluginSlot)
      → register_plugin rt owner slot_key plugin_type clock bank ≡ ok (agent, slot, bank')
      → (agent.active_plugins
          ≡ owner.agent.active_plugins
            ++ record { plugin_type = slot.plugin_type; pda = slot_key } ∷ [])
        × (length owner.agent.active_plugins < 5)
  unfolding register_plugin
  registered plugin_type clock agent slot h = (ground arith, ground arith)

  -- A registration adds the plugin once more to the list, which then holds five at most.
  pub register_plugin-count :
      (plugin_type : ℕ) (clock : Clock) (agent : AgentAccount) (slot : PluginSlot) (j : Pubkey)
      → register_plugin rt owner slot_key plugin_type clock bank ≡ ok (agent, slot, bank')
      → (count j (plugin_keys agent.active_plugins)
          ≡ count j (slot_key ∷ plugin_keys owner.agent.active_plugins))
        × (length agent.active_plugins ≤ 5)
  register_plugin-count plugin_type clock agent slot j h =
      let (e, room) = registered plugin_type clock agent slot h in
      let new : PluginRef = record { plugin_type = slot.plugin_type; pda = slot_key } in
      let old = owner.agent.active_plugins in
      (
        appended-count old agent.active_plugins new j e,
        rw e (omega (arith, length-append old (new ∷ []))),
      )

  -- A closing takes the plugin from the list once, if it stands there, and changes no other.
  pub close_plugin-count :
      (slot : PluginSlot) (clock : Clock) (agent : AgentAccount) (j : Pubkey)
      → close_plugin rt owner slot_key slot clock bank ≡ ok (agent, bank')
      → count j (plugin_keys agent.active_plugins)
          + (if slot_key == j then min 1 (count j (plugin_keys owner.agent.active_plugins)) else 0)
        ≡ count j (plugin_keys owner.agent.active_plugins)
  unfolding close_plugin
  close_plugin-count slot clock agent j h =
      removed-count owner.agent.active_plugins agent.active_plugins slot_key j (ground arith)
