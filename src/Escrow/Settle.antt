-- ===== src/Escrow/Settle.antt =====
-- instructions/escrow_v2.rs: `settle_calls_v2` and the deprecated `create_pending_settlement`.
use synapse_sap.Common.{
  ℕ, Bool, true, false, ◌&&◌, Option, none, some, List, [], ◌∷◌, leb, ltb, ◌==◌, if◌then◌else◌,
  is_some,
}
use synapse_sap.Errors.{
  Result, ok, err, sap, require, constraint, ok_or, ◌>>=◌, ◌>>◌, constraint_seeds, constraint_raw,
  agent_inactive, invalid_settlement_calls, max_calls_per_settlement_exceeded,
  escrow_max_calls_exceeded, insufficient_escrow_balance, self_report_deprecated,
  co_signer_required, invalid_co_signer, pending_settlement_required, invalid_pending_settlement,
  pending_settlement_exists, pending_settlement_deprecated,
}
use synapse_sap.Checked.{checked_add_u64, checked_sub_u64, checked_add_u32, add_u64}
use synapse_sap.Errors.{arithmetic_overflow}
use synapse_sap.State.{
  Pubkey, Hash, AgentStats, EscrowAccountV2, PendingSettlement, SettlementSecurity, DisputeOutcome,
  max_calls_per_settlement,
}
use synapse_sap.Runtime.{Runtime, Bank, AccountInfo, Clock, move_lamports, data_is_empty}
use synapse_sap.Seeds.{
  agent_seeds, stats_seeds, escrow_seeds, pending_seeds, with_bump, at_address, at_bump,
}
use synapse_sap.Token.{
  find_native_treasury, spl_transfer_from_escrow_v2, spl_transfer_protocol_fee_from_escrow_v2,
}
use synapse_sap.Pricing.{calculate_settle_amount, calculate_protocol_fee}
use synapse_sap.Escrow.Deposit.{check_expiry}

pub record SettleAccounts : Type 0 where
  pub wallet : Pubkey
  pub agent_key : Pubkey
  pub agent_stats_key : Pubkey
  pub agent_stats : AgentStats
  pub escrow_key : Pubkey
  pub escrow : EscrowAccountV2
  pub remaining : List AccountInfo

-- What a settlement writes: a pending settlement only in dispute-window mode, with its key.
pub record Settled : Type 0 where
  pub escrow : EscrowAccountV2
  pub agent_stats : AgentStats
  pub bank : Bank
  pub pending : Option (Pubkey × PendingSettlement)

-- The amount and the fee of a settlement.
pub record Quote : Type 0 where
  pub amount : ℕ
  pub fee : ℕ

-- The cap on the calls of an escrow, skipped where `max_calls` is 0.
unfoldable pub check_max_calls : EscrowAccountV2 → ℕ → Result (Unit {0})
check_max_calls e calls =
    if ltb 0 e.max_calls
    then (do
      open_calls ← checked_add_u64 e.total_calls_settled e.pending_calls
      projected ← checked_add_u64 open_calls calls
      require (leb projected e.max_calls) escrow_max_calls_exceeded)
    else ok tt

-- The balance that no pending settlement has locked covers the amount and the fee.
unfoldable pub check_available : EscrowAccountV2 → ℕ → Result (Unit {0})
check_available e total_required = do
  available ← checked_sub_u64 e.balance e.pending_amount insufficient_escrow_balance
  require (leb total_required available) insufficient_escrow_balance

-- The handler up to the dispatch on the mode.
unfoldable pub quote_settlement : EscrowAccountV2 → ℕ → Clock → Result Quote
unfolding check_max_calls check_available check_expiry
quote_settlement e calls clock = do
  require (leb 1 calls) invalid_settlement_calls
  require (leb calls max_calls_per_settlement) max_calls_per_settlement_exceeded
  check_expiry e clock
  check_max_calls e calls
  total_before ← add_u64 e.total_calls_settled e.pending_calls
  amount ← calculate_settle_amount e.price_per_call e.volume_curve total_before calls
  fee ← calculate_protocol_fee amount
  total_required ← checked_add_u64 amount fee
  check_available e total_required
  ok (record { amount = amount; fee = fee })

-- The loop over the remaining accounts for the co-signer's signature.
unfoldable pub has_co_signed : Pubkey → List AccountInfo → Bool
has_co_signed co_signer [] = false
has_co_signed co_signer (acc ∷ remaining) =
    if acc.key == co_signer && acc.is_signer then true else has_co_signed co_signer remaining

unfoldable pub book_co_signed : Quote → ℕ → Clock → EscrowAccountV2 → Result EscrowAccountV2
book_co_signed q calls clock e = do
  total_required ← checked_add_u64 q.amount q.fee
  balance' ← checked_sub_u64 e.balance total_required arithmetic_overflow
  settled' ← checked_add_u64 e.total_settled q.amount
  calls' ← checked_add_u64 e.total_calls_settled calls
  ok (record e {
    balance = balance';
    total_settled = settled';
    total_calls_settled = calls';
    last_settled_at = clock.unix_timestamp;
  })

unfoldable pub count_calls : ℕ → Clock → AgentStats → Result AgentStats
count_calls calls clock stats = do
  served ← checked_add_u64 stats.total_calls_served calls
  ok (record stats { total_calls_served = served; updated_at = clock.unix_timestamp })

-- The block that locks the funds of a pending settlement.
unfoldable pub book_pending : Quote → ℕ → EscrowAccountV2 → Result EscrowAccountV2
book_pending q calls e = do
  index' ← checked_add_u64 e.settlement_index 1
  balance' ← checked_sub_u64 e.balance q.fee arithmetic_overflow
  pending' ← checked_add_u64 e.pending_amount q.amount
  calls' ← checked_add_u64 e.pending_calls calls
  count' ← checked_add_u32 e.pending_settlement_count 1
  ok (record e {
    settlement_index = index';
    balance = balance';
    pending_amount = pending';
    pending_calls = calls';
    pending_settlement_count = count';
  })

-- `remaining_accounts.iter().find(|account| account.key() == key)`
unfoldable pub find_account : Pubkey → List AccountInfo → Option AccountInfo
find_account key [] = none
find_account key (acc ∷ remaining) = if acc.key == key then some acc else find_account key remaining

-- The length of a PendingSettlement account: the discriminator and the fields.
abbrev pending_settlement_space : ℕ
pending_settlement_space = 244

abbrev pub new_pending : SettleAccounts → Quote → ℕ → Hash → Clock → ℕ → ℕ → PendingSettlement
new_pending accounts q calls service_hash clock bump release_slot = record {
  bump = bump;
  escrow = accounts.escrow_key;
  agent = accounts.agent_key;
  agent_wallet = accounts.escrow.agent_wallet;
  depositor = accounts.escrow.depositor;
  settlement_index = accounts.escrow.settlement_index;
  calls_to_settle = calls;
  amount = q.amount;
  service_hash = service_hash;
  receipt_merkle_root = 0;
  created_at = clock.unix_timestamp;
  release_slot = release_slot;
  is_finalized = false;
  is_disputed = false;
  outcome = DisputeOutcome.pending;
}

module _ (rt : Runtime) where
  unfoldable pub settle_constraints : SettleAccounts → ℕ → Result (Unit {0})
  settle_constraints accounts nonce = do
    constraint (at_address rt (agent_seeds accounts.wallet) accounts.agent_key) constraint_seeds
    constraint
        (at_bump rt (stats_seeds accounts.agent_key) accounts.agent_stats.bump
          accounts.agent_stats_key)
        constraint_seeds
    require accounts.agent_stats.is_active agent_inactive
    constraint
        (at_bump rt (escrow_seeds accounts.agent_key accounts.escrow.depositor nonce)
          accounts.escrow.bump accounts.escrow_key)
        constraint_seeds
    constraint (accounts.escrow.agent == accounts.agent_key) constraint_raw

  -- The fee of a native escrow goes to the treasury, if there is one to pay.
  unfoldable pub pay_native_fee : SettleAccounts → ℕ → Bank → Result Bank
  pay_native_fee accounts fee bank =
      if ltb 0 fee
      then (do
        treasury ← find_native_treasury accounts.remaining
        move_lamports accounts.escrow_key treasury.key fee bank)
      else ok bank

  unfoldable pub pay_co_signed : SettleAccounts → Quote → Bank → Result Bank
  pay_co_signed accounts q bank =
      if is_some accounts.escrow.token_mint
      then (do
        bank₁ ←
            spl_transfer_from_escrow_v2 rt accounts.escrow_key accounts.escrow accounts.remaining
              q.amount (some accounts.escrow.agent_wallet) bank
        spl_transfer_protocol_fee_from_escrow_v2 rt accounts.escrow_key accounts.escrow
            accounts.remaining q.fee bank₁)
      else (do
        bank₁ ← move_lamports accounts.escrow_key accounts.wallet q.amount bank
        pay_native_fee accounts q.fee bank₁)

  unfoldable pub settle_co_signed : SettleAccounts → Quote → ℕ → Clock → Bank → Result Settled
  settle_co_signed accounts q calls clock bank = do
    co_signer ← ok_or accounts.escrow.co_signer co_signer_required
    require (has_co_signed co_signer accounts.remaining) invalid_co_signer
    bank₁ ← pay_co_signed accounts q bank
    e ← book_co_signed q calls clock accounts.escrow
    stats ← count_calls calls clock accounts.agent_stats
    ok (record { escrow = e; agent_stats = stats; bank = bank₁; pending = none })

  unfoldable pub pay_pending_fee : SettleAccounts → ℕ → Bank → Result Bank
  pay_pending_fee accounts fee bank =
      if is_some accounts.escrow.token_mint
      then spl_transfer_protocol_fee_from_escrow_v2 rt accounts.escrow_key accounts.escrow
          accounts.remaining fee bank
      else pay_native_fee accounts fee bank

  -- `init_pending_settlement_from_remaining`, up to the account's contents.
  unfoldable pub create_pending : SettleAccounts → Pubkey → ℕ → Bank → Result Bank
  create_pending accounts pending_pda bump bank = do
    info ← ok_or (find_account pending_pda accounts.remaining) pending_settlement_required
    require info.is_writable invalid_pending_settlement
    require (data_is_empty bank info.key) pending_settlement_exists
    rt.create_account accounts.wallet info.key (rt.minimum_balance pending_settlement_space)
        (with_bump (pending_seeds accounts.escrow_key accounts.escrow.settlement_index) bump) bank

  unfoldable pub settle_dispute_window :
      SettleAccounts → Quote → ℕ → Hash → Clock → Bank → Result Settled
  settle_dispute_window accounts q calls service_hash clock bank = do
    bank₁ ← pay_pending_fee accounts q.fee bank
    release_slot ← checked_add_u64 clock.slot accounts.escrow.dispute_window_slots
    e ← book_pending q calls accounts.escrow
    let (pending_pda, bump) =
        rt.find_program_address (pending_seeds accounts.escrow_key accounts.escrow.settlement_index)
    bank₂ ← create_pending accounts pending_pda bump bank₁
    ok (record {
      escrow = e;
      agent_stats = accounts.agent_stats;
      bank = bank₂;
      pending =
          some (pending_pda, new_pending accounts q calls service_hash clock bump release_slot);
    })

  -- The `match` on the mode.
  unfoldable pub settle_by_mode :
      SettlementSecurity → SettleAccounts → Quote → ℕ → Hash → Clock → Bank → Result Settled
  unfolding settle_co_signed settle_dispute_window
  settle_by_mode SettlementSecurity.self_report accounts q calls service_hash clock bank =
      err (sap self_report_deprecated)
  settle_by_mode SettlementSecurity.co_signed accounts q calls service_hash clock bank =
      settle_co_signed accounts q calls clock bank
  settle_by_mode SettlementSecurity.dispute_window accounts q calls service_hash clock bank =
      settle_dispute_window accounts q calls service_hash clock bank

  unfoldable pub settle_calls_v2 : SettleAccounts → ℕ → ℕ → Hash → Clock → Bank → Result Settled
  settle_calls_v2 accounts nonce calls service_hash clock bank = do
    settle_constraints accounts nonce
    q ← quote_settlement accounts.escrow calls clock
    settle_by_mode accounts.escrow.settlement_security accounts q calls service_hash clock bank

-- `create_pending_settlement_handler` refuses every call.
unfoldable pub create_pending_settlement : ℕ → ℕ → ℕ → Hash → Result (Unit {0})
create_pending_settlement settlement_index calls amount service_hash =
    err (sap pending_settlement_deprecated)
