-- ===== src/Registry/Reclaim.antt =====
-- What `reclaim_excess_rent` leaves.
use synapse_sap.Common.{◌+◌, ◌≡◌, ◌≢◌, ◌⊎◌, arith}
use synapse_sap.Errors.{ok}
use synapse_sap.State.{Pubkey, GlobalRegistry}
use synapse_sap.Runtime.{Runtime, Bank, data_len}
use synapse_sap.Registry.Handlers.{reclaim_excess_rent}

-- Only the authority reclaims, to an account of the system program, and from an account of this
-- program if anything is taken. After that the target, whatever it holds the lamports for, has just
-- the rent of its length, the destination, if it is another account, has got the rest, and no third
-- account has changed.
pub reclaim_excess_rent_lem :
    (rt : Runtime) (authority target destination global_key k : Pubkey) (registry : GlobalRegistry)
    (bank bank' : Bank)
    → target ≢ destination
    → reclaim_excess_rent rt authority target destination global_key registry bank ≡ ok bank'
    → (authority ≡ registry.authority)
      × (bank'.lamports target ≡ rt.minimum_balance (data_len bank target))
      × (bank'.lamports destination + bank'.lamports target
          ≡ bank.lamports destination + bank.lamports target)
      × (bank.owner destination ≡ rt.system_program_id)
      × ((bank.owner target ≡ rt.program_id) ⊎ (bank' ≡ bank))
      × ((k ≡ target) ⊎ ((k ≡ destination) ⊎ (bank'.lamports k ≡ bank.lamports k)))
unfolding reclaim_excess_rent
reclaim_excess_rent_lem rt authority target destination global_key k registry bank bank' apart h =
    (ground arith, ground arith, ground arith, ground arith, ground arith, ground arith)
