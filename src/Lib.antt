-- ===== src/Lib.antt =====
-- The on-chain program of the Synapse Agent Protocol, programs/synapse-agent-sap, an Anchor program
-- on Solana: agents sell calls, depositors pay for them from escrows, disputes are resolved by
-- receipts, agents stand behind their escrows with a stake, and subscriptions pay by the interval.
--
-- The parts of the program that are modelled, with the files under programs/synapse-agent-sap/src:
--
-- - Errors, Constants, State, Seeds: errors.rs, constants.rs, state.rs and seeds.rs, as far as the
--   modelled handlers use them. A `Pubkey` or a hash is the number that its bytes spell, an unsigned
--   integer a natural number, an i64 an integer of Common.Int.
-- - Checked: Rust's integer operations. `checked_*` report ArithmeticOverflow, a plain `+` or `-`
--   that overflows aborts (the workspace's release profile has overflow-checks on), `saturating_*` stop
--   at the bound, and a cast cuts off.
-- - Runtime: what the handlers use of Solana and Anchor. The account store `Bank` holds lamports,
--   owners and raw bytes by key. Calls of code outside the repository are the fields of the record
--   `Runtime`, an argument of the handlers: derivation of addresses, the system and token programs,
--   creation and closing of accounts, rent, SHA-256.
-- - Token: the checks of token accounts and the token transfers of instructions/escrow_v2.rs.
-- - Pricing: calculate_settle_amount and calculate_protocol_fee of instructions/escrow_v2.rs. The
--   loop of the former takes fuel, one round for each call; every round prices at least one call, so
--   that is enough, as Pricing.Chunks shows. Pricing.Reference is the price list call by call.
-- - Escrow: the seven handlers of instructions/escrow_v2.rs (Create, Deposit, Settle, Finalize,
--   Withdraw). Accounting is the invariant of the account, Coverage is about collateral and deposits,
--   Consent about the signatures of a settlement.
-- - Dispute: instructions/dispute.rs: filing, evidence, closing, and the slash of a stake; Remaining is
--   the deprecated slash, with what Anchor derives for a stake's account as an argument.
-- - Receipt: instructions/receipt.rs: receipt batches, Merkle proofs, the parser of Ed25519
--   instructions, and the automatic resolution. Tree is the trees that the proofs are about,
--   Message the message that is signed, Search what the parser finds, Proven what a submission of
--   receipts shows. That the program of Ed25519 signatures verifies what its instructions list is
--   Solana's.
-- - Staking and Subscription: instructions/staking.rs and instructions/subscription.rs.
--   Subscription.Life is a subscription with its deposits and the lamports that its handlers move.
-- - Owner: the constraints on an agent's wallet and on its vault that several files share.
-- - Vault: the twelve handlers of instructions/vault.rs (Handlers, Inscribe). Session is a session
--   over its life with all that was inscribed, from whatever its pages' addresses hold at its opening, Sequence its counters, Epochs its pages, Delegate the
--   rights of delegates.
-- - Ledger: instructions/ledger.rs. Ring is the two loops over the bytes of the ring; they take the
--   ring's length as fuel, and every round passes over two bytes at least, so that is enough, as
--   Ledger.Refines shows. Window is the ring as a list of entries, Entries what the handlers do to
--   them, Life a ledger with its pages over its life.
-- - Index: instructions/indexing.rs without the index of tools, and instructions/index_page.rs.
--   Members is the list operations; Life is what the kinds of index share, by an interface that
--   CapabilitySet, ProtocolSet, PageSet and Tool.CategorySet fill.
-- - Tool: instructions/tools.rs, tools (Handlers) and checkpoints of memory sessions (Checkpoint), and
--   the index of tools by category of instructions/indexing.rs (Category). Life is a tool over its
--   life, Snapshots a session of Vault with its checkpoints.
-- - Legacy: what the feature legacy-memory builds: instructions/buffer.rs, instructions/digest.rs,
--   instructions/memory.rs (Entries) and instructions/plugin.rs (Plugins). BufferLife is a buffer with
--   the pieces appended to it, DigestLife a digest with its entries. Anchor's realloc is an argument of
--   the buffer's handlers.
-- - Shards: instructions/shards.rs.
-- - Feedback: instructions/feedback.rs. Reputation is what reviews add up to, Life an agent with its
--   reviews.
-- - Attestation: instructions/attestation.rs; Life is an attestation from its making to its closing.
-- - Registry: instructions/global.rs and instructions/reclaim.rs.
-- - Validator: validator.rs (Checks), and what the data of an accepted registration is like (Accepted).
-- - Agent: instructions/agent.rs. Counters is the global registry beside the registered agents.
-- - Lifecycle: an escrow with all its pending settlements as a state machine, whose steps are the
--   handlers above, in any order and from any callers.
-- - Tests: a concrete runtime, runs of the handlers, and the theorems at those runs.
--
-- How a handler is modelled: its accounts are a record of keys and contents, the constraints of the
-- Anchor struct come first and report Anchor's or the program's error, then the body in its order. A
-- handler returns the new contents of the accounts that it writes, or an error, and then nothing is
-- written. Type and owner checks of deserialized accounts are the types of the records. Signers are
-- the keys that the record names as such. Events are left out, since no handler reads them.
--
-- Not modelled: lib.rs, which passes each call on to its handler, and events.rs, the logs.
pub mod Common
pub mod Errors
pub mod Checked
pub mod State
pub mod Constants
pub mod Pricing
pub mod Runtime
pub mod Seeds
pub mod Token
pub mod Escrow
pub mod Dispute
pub mod Receipt
pub mod Staking
pub mod Subscription
pub mod Lifecycle
pub mod Owner
pub mod Vault
pub mod Ledger
pub mod Index
pub mod Tool
pub mod Legacy
pub mod Shards
pub mod Feedback
pub mod Attestation
pub mod Registry
pub mod Validator
pub mod Agent
pub mod Tests
