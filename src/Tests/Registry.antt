-- ===== src/Tests/Registry.antt =====
-- A run of `reclaim_excess_rent` on an escrow: the deposits of its depositor go.
use synapse_sap.Common.{◌+◌, ◌≡◌, ◌⊎◌, ◌==◌, if◌then◌else◌, refl, arith}
use synapse_sap.Errors.{ok}
use synapse_sap.State.{Pubkey}
use synapse_sap.Runtime.{Bank, update}
use synapse_sap.Seeds.{global_seeds, at_bump}
use synapse_sap.Registry.Handlers.{reclaim_excess_rent}
use synapse_sap.Registry.Reclaim.{reclaim_excess_rent_lem}
use synapse_sap.Tests.Demo

abbrev other : Pubkey
other = 77

-- The account 55 has a billion lamports, and the rent of its length is 890880.
abbrev wallets : Bank
wallets = record (Demo.bank) { owner = λ key. if key == 66 then 0 else 1 }

abbrev taken : Bank
taken = record wallets { lamports = update (update wallets.lamports 66 1999109120) 55 890880 }

reclaim-ok :
    reclaim_excess_rent Demo.runtime 44 55 66 Demo.global_key Demo.registry wallets ≡ ok taken
unfolding reclaim_excess_rent at_bump global_seeds
reclaim-ok = refl

reclaim_excess_rent_lem_example :
    (44 ≡ Demo.registry.authority)
    × (taken.lamports 55 ≡ Demo.runtime.minimum_balance 0)
    × (taken.lamports 66 + taken.lamports 55 ≡ wallets.lamports 66 + wallets.lamports 55)
    × (wallets.owner 66 ≡ 0)
    × ((wallets.owner 55 ≡ 1) ⊎ (taken ≡ wallets))
    × ((other ≡ 55) ⊎ ((other ≡ 66) ⊎ (taken.lamports other ≡ wallets.lamports other)))
reclaim_excess_rent_lem_example =
    reclaim_excess_rent_lem Demo.runtime 44 55 66 Demo.global_key other Demo.registry wallets taken
      (omega arith) reclaim-ok
