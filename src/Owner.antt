-- ===== src/Owner.antt =====
-- The constraints that most handlers put on the caller: the signer is the wallet of the agent at
-- its derived address, and, for the handlers of instructions/vault.rs and instructions/ledger.rs,
-- the vault is that agent's.
use synapse_sap.Common.{◌==◌}
use synapse_sap.Errors.{Result, constraint, ◌>>◌, constraint_seeds, constraint_has_one}
use synapse_sap.State.{Pubkey, AgentAccount, MemoryVault, GlobalRegistry}
use synapse_sap.Runtime.{Runtime}
use synapse_sap.Seeds.{agent_seeds, vault_seeds, global_seeds, at_bump}

pub record Owner : Type 0 where
  pub wallet : Pubkey
  pub agent_key : Pubkey
  pub agent : AgentAccount

pub record VaultOwner : Type 0 where
  pub owner : Owner
  pub vault_key : Pubkey
  pub vault : MemoryVault

module _ (rt : Runtime) where
  unfoldable pub owner_constraints : Owner → Result (Unit {0})
  owner_constraints o = do
    constraint (at_bump rt (agent_seeds o.wallet) o.agent.bump o.agent_key) constraint_seeds
    constraint (o.agent.wallet == o.wallet) constraint_has_one

  unfoldable pub vault_constraints : VaultOwner → Result (Unit {0})
  unfolding owner_constraints
  vault_constraints v = do
    owner_constraints v.owner
    constraint (at_bump rt (vault_seeds v.owner.agent_key) v.vault.bump v.vault_key)
        constraint_seeds

  -- With `has_one = wallet` on the vault.
  unfoldable pub own_vault_constraints : VaultOwner → Result (Unit {0})
  unfolding vault_constraints
  own_vault_constraints v = do
    vault_constraints v
    constraint (v.vault.wallet == v.owner.wallet) constraint_has_one

  -- The global registry at its address.
  unfoldable pub global_constraints : Pubkey → GlobalRegistry → Result (Unit {0})
  global_constraints key registry =
      constraint (at_bump rt global_seeds registry.bump key) constraint_seeds
