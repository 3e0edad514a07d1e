-- ===== src/Receipt/Resolve.antt =====
-- instructions/receipt.rs: `determine_dispute_resolution` and `auto_resolve_dispute`.
use synapse_sap.Common.{
  ℕ, ◌-◌, ◌*◌, ◌/◌, ◌%◌, Bool, true, false, not, ◌&&◌, ◌||◌, none, some, List, leb, ltb, ◌==◌,
  if◌then◌else◌, is_some, length, get_elem?, min,
}
use synapse_sap.Common.Int.{ltb_ℤ}
use synapse_sap.Errors.{
  Result, ok, err, sap, panicked, require, constraint, ◌>>=◌, ◌>>◌, constraint_seeds,
  constraint_raw, settlement_already_finalized, stake_agent_mismatch, not_depositor,
  invalid_agent_wallet, pending_amount_mismatch, proof_deadline_not_expired, arithmetic_overflow,
  spl_token_required,
}
use synapse_sap.Checked.{checked_add_u64, checked_sub_u64, saturating_sub}
use synapse_sap.State.{
  Pubkey, AgentStats, AgentStake, EscrowAccountV2, PendingSettlement, DisputeRecord, DisputeType,
  DisputeOutcome, ResolutionLayer,
}
use synapse_sap.Runtime.{Runtime, Bank, AccountInfo, Clock, debit, credit, move_lamports}
use synapse_sap.Seeds.{
  stats_seeds, stake_seeds, escrow_seeds, pending_seeds, dispute_seeds, at_bump,
}
use synapse_sap.Token.{spl_transfer_from_escrow_to_account}
use synapse_sap.Escrow.Settle.{count_calls}
use synapse_sap.Escrow.Finalize.{outcome_is_pending}
use synapse_sap.Dispute.File.{type_is_quality}
use synapse_sap.Dispute.Slash.{try_slash_from_account}

pub record Resolution : Type 0 where
  pub outcome : DisputeOutcome
  pub agent_amount : ℕ
  pub depositor_amount : ℕ

abbrev u64_modulus : ℕ
u64_modulus = 18446744073709551616

-- The u128 product of a u64 and a u32 cannot overflow; the quotient is cut to a u64.
unfoldable pub partial_refund : ℕ → ℕ → ℕ → Result Resolution
partial_refund proven claimed amount = if claimed == 0 then err (sap arithmetic_overflow) else (do
  let agent_share = amount * proven / claimed % u64_modulus
  depositor_share ← checked_sub_u64 amount agent_share arithmetic_overflow
  ok (record {
    outcome = DisputeOutcome.partial_refund;
    agent_amount = agent_share;
    depositor_amount = depositor_share;
  }))

abbrev all_to_agent : ℕ → Resolution
all_to_agent amount = record {
  outcome = DisputeOutcome.agent_wins;
  agent_amount = amount;
  depositor_amount = 0;
}

unfoldable pub determine_dispute_resolution : DisputeType → ℕ → ℕ → Bool → ℕ → Result Resolution
unfolding partial_refund
determine_dispute_resolution dispute_type proven claimed deadline_passed amount =
    if type_is_quality dispute_type
    then (if leb claimed proven && ltb 0 claimed
        then ok (all_to_agent amount)
        else if deadline_passed
        then ok (record {
          outcome = DisputeOutcome.split;
          agent_amount = amount / 2;
          depositor_amount = amount - amount / 2;
        })
        else err (sap proof_deadline_not_expired))
    else if leb claimed proven && ltb 0 claimed
    then ok (all_to_agent amount)
    else if proven == 0 && deadline_passed
    then ok (record {
      outcome = DisputeOutcome.depositor_wins;
      agent_amount = 0;
      depositor_amount = amount;
    })
    else if ltb 0 proven && (ltb proven claimed || deadline_passed)
    then partial_refund proven claimed amount
    else err (sap proof_deadline_not_expired)

pub record ResolveAccounts : Type 0 where
  pub depositor : Pubkey
  pub agent_wallet : Pubkey
  pub escrow_key : Pubkey
  pub escrow : EscrowAccountV2
  pub pending_key : Pubkey
  pub pending_settlement : PendingSettlement
  pub dispute_key : Pubkey
  pub dispute : DisputeRecord
  pub agent_stats_key : Pubkey
  pub agent_stats : AgentStats
  pub agent_stake_key : Pubkey
  pub agent_stake : AgentStake
  pub remaining : List AccountInfo

pub record Resolved : Type 0 where
  pub escrow : EscrowAccountV2
  pub pending_settlement : PendingSettlement
  pub dispute : DisputeRecord
  pub agent_stats : AgentStats
  pub agent_stake : AgentStake
  pub bank : Bank

abbrev pub is_depositor_win : DisputeOutcome → Bool
is_depositor_win DisputeOutcome.depositor_wins = true
is_depositor_win _ = false

abbrev pub is_agent_win : DisputeOutcome → Bool
is_agent_win DisputeOutcome.agent_wins = true
is_agent_win _ = false

-- "Update escrow", up to the counters of settled calls.
unfoldable pub book_released : PendingSettlement → EscrowAccountV2 → Result EscrowAccountV2
book_released ps e = do
  balance' ← checked_sub_u64 e.balance ps.amount arithmetic_overflow
  pending' ← checked_sub_u64 e.pending_amount ps.amount arithmetic_overflow
  pending_calls' ← checked_sub_u64 e.pending_calls ps.calls_to_settle arithmetic_overflow
  ok (record e {
    balance = balance';
    pending_amount = pending';
    pending_calls = pending_calls';
    pending_settlement_count = saturating_sub e.pending_settlement_count 1;
  })

unfoldable pub book_agent_share : ℕ → ℕ → Clock → EscrowAccountV2 → Result EscrowAccountV2
book_agent_share agent_amount calls clock e = do
  settled' ← checked_add_u64 e.total_settled agent_amount
  calls' ← checked_add_u64 e.total_calls_settled calls
  ok (record e {
    total_settled = settled';
    total_calls_settled = calls';
    last_settled_at = clock.unix_timestamp;
  })

-- The escrow after a resolution, its bonds aside.
unfoldable pub book_resolved :
    Resolution → ℕ → PendingSettlement → Clock → EscrowAccountV2 → Result EscrowAccountV2
unfolding book_released book_agent_share
book_resolved r proven ps clock e = do
  e₁ ← book_released ps e
  if ltb 0 r.agent_amount
      then book_agent_share r.agent_amount (min proven ps.calls_to_settle) clock e₁
      else ok e₁

unfoldable pub book_resolved_stats :
    Resolution → ℕ → PendingSettlement → Clock → AgentStats → Result AgentStats
book_resolved_stats r proven ps clock stats =
    if ltb 0 r.agent_amount
    then count_calls (min proven ps.calls_to_settle) clock stats
    else ok stats

abbrev account_at : List AccountInfo → ℕ → Result AccountInfo
account_at accounts i = elim (get_elem? accounts i) [ none ↦ err panicked | some a ↦ ok a ]

module _ (rt : Runtime) where
  unfoldable pub resolve_constraints : ResolveAccounts → Result (Unit {0})
  resolve_constraints accounts = do
    let e = accounts.escrow
    let ps = accounts.pending_settlement
    constraint
        (at_bump rt (escrow_seeds e.agent e.depositor e.escrow_nonce) e.bump accounts.escrow_key)
        constraint_seeds
    constraint
        (at_bump rt (pending_seeds accounts.escrow_key ps.settlement_index) ps.bump
          accounts.pending_key)
        constraint_seeds
    constraint (ps.escrow == accounts.escrow_key) constraint_raw
    require (not ps.is_finalized) settlement_already_finalized
    constraint
        (at_bump rt (dispute_seeds accounts.pending_key) accounts.dispute.bump accounts.dispute_key)
        constraint_seeds
    require (outcome_is_pending accounts.dispute.outcome) settlement_already_finalized
    constraint (at_bump rt (stats_seeds e.agent) accounts.agent_stats.bump accounts.agent_stats_key)
        constraint_seeds
    constraint (at_bump rt (stake_seeds e.agent) accounts.agent_stake.bump accounts.agent_stake_key)
        constraint_seeds
    require (accounts.agent_stake.agent == e.agent) stake_agent_mismatch

  -- The share of one party: `place` is where its token account stands among the remaining
  -- accounts, `wallet` its key and `owner` the owner that the token account must have.
  unfoldable pub pay_share : ResolveAccounts → ℕ → Pubkey → Pubkey → ℕ → Bank → Result Bank
  pay_share accounts place wallet owner amount bank =
      if ltb 0 amount
      then (if is_some accounts.escrow.token_mint
          then (do
            require (leb 4 (length accounts.remaining)) spl_token_required
            escrow_token ← account_at accounts.remaining 0
            dest_token ← account_at accounts.remaining place
            token_program ← account_at accounts.remaining 3
            spl_transfer_from_escrow_to_account rt accounts.escrow_key accounts.escrow escrow_token
                dest_token token_program amount (some owner) bank)
          else move_lamports accounts.escrow_key wallet amount bank)
      else ok bank

  unfoldable pub pay_resolution : ResolveAccounts → Resolution → Bank → Result Bank
  unfolding pay_share
  pay_resolution accounts r bank = do
    bank₁ ←
        pay_share accounts 1 accounts.agent_wallet accounts.escrow.agent_wallet r.agent_amount bank
    pay_share accounts 2 accounts.depositor accounts.escrow.depositor r.depositor_amount bank₁

  -- The slash of the stake where the depositor wins.
  unfoldable pub slash_if_lost :
      ResolveAccounts → Resolution → Bank → Result (AgentStake × DisputeRecord × Bank)
  slash_if_lost accounts r bank =
      if is_depositor_win r.outcome
      then (do
        (stake, slash, bank₁) ←
            try_slash_from_account accounts.agent_stake_key accounts.agent_stake
              accounts.pending_settlement.amount accounts.depositor accounts.escrow.agent bank
        ok (stake, record (accounts.dispute) { slash_amount = slash }, bank₁))
      else ok (accounts.agent_stake, accounts.dispute, bank)

  -- The bond leaves the escrow's account, and goes to the winner, or back to the depositor.
  unfoldable pub return_bond :
      ResolveAccounts → Resolution → EscrowAccountV2 → Bank → Result (EscrowAccountV2 × Bank)
  return_bond accounts r e bank =
      let bond = accounts.dispute.dispute_bond in
      if ltb 0 bond
      then (do
        bank₁ ← debit accounts.escrow_key bond bank
        bank₂ ←
            credit (if is_agent_win r.outcome then accounts.agent_wallet else accounts.depositor)
              bond bank₁
        ok (record e { dispute_bond_total = saturating_sub e.dispute_bond_total bond }, bank₂))
      else ok (e, bank)

  unfoldable pub close_record : DisputeOutcome → Clock → DisputeRecord → DisputeRecord
  close_record outcome clock d = record d {
    outcome = outcome;
    resolution_layer =
        if type_is_quality d.dispute_type then ResolutionLayer.governance else ResolutionLayer.auto;
    resolved_at = clock.unix_timestamp;
  }

  unfoldable pub auto_resolve_dispute : ResolveAccounts → Clock → Bank → Result Resolved
  unfolding resolve_constraints slash_if_lost return_bond close_record
  auto_resolve_dispute accounts clock bank = do
    resolve_constraints accounts
    let ps = accounts.pending_settlement
    let d = accounts.dispute
    require (accounts.depositor == accounts.escrow.depositor) not_depositor
    require (accounts.agent_wallet == accounts.escrow.agent_wallet) invalid_agent_wallet
    require (leb ps.amount accounts.escrow.pending_amount) pending_amount_mismatch
    r ←
        determine_dispute_resolution d.dispute_type d.proven_calls d.claimed_calls
          (ltb_ℤ d.proof_deadline clock.unix_timestamp) ps.amount
    bank₁ ← pay_resolution accounts r bank
    e₁ ← book_resolved r d.proven_calls ps clock accounts.escrow
    stats ← book_resolved_stats r d.proven_calls ps clock accounts.agent_stats
    (stake, d₁, bank₂) ← slash_if_lost accounts r bank₁
    (e₂, bank₃) ← return_bond accounts r e₁ bank₂
    ok (record {
      escrow = e₂;
      pending_settlement = record ps { is_finalized = true; outcome = r.outcome };
      dispute = close_record r.outcome clock d₁;
      agent_stats = stats;
      agent_stake = stake;
      bank = bank₃;
    })
