-- ===== src/Tests/Vault.antt =====
-- Runs of the vault's handlers: a session with one inscription of three bytes, by the owner.
use synapse_sap.Common.{◌+◌, ◌*◌, ◌≡◌, ◌≢◌, ◌≤◌, ◌⊎◌, refl, true, false, [], ◌∷◌, ◌%◌}
use synapse_sap.Common.Int.{pos, ◌+ℤ◌, ◌≤ℤ◌, ◌<ℤ◌}
use synapse_sap.Errors.{ok}
use synapse_sap.Checked.{checked_add_i64}
use synapse_sap.State.{Pubkey, MemoryVault, SessionLedger, VaultDelegate, vault_protocol_version}
use synapse_sap.Seeds.{
  agent_seeds, vault_seeds, session_seeds, epoch_seeds, delegate_seeds, at_address, at_bump,
}
use synapse_sap.Owner.{Owner, VaultOwner, vault_constraints, own_vault_constraints}
use synapse_sap.Vault.Handlers.{open_session, add_vault_delegate}
use synapse_sap.Vault.Inscribe.{
  MemoryArgs, InscribeAccounts, Inscribed, inscribe_core, inscribe_memory,
  inscribe_memory_delegated,
}
use synapse_sap.Vault.Session.{World, Reach, no_page, after, wrote, opened, next}
use synapse_sap.Vault.Sequence.{IsRecorded, Reach-IsRecorded}
use synapse_sap.Vault.Epochs.{epoch_bounds}
use synapse_sap.Vault.Delegate.{inscribe_memory_delegated_needs}
use synapse_sap.Tests.Demo

abbrev pub owner : Owner
owner = record { wallet = Demo.wallet; agent_key = Demo.agent_key; agent = Demo.agent }

abbrev pub vault_key : Pubkey
vault_key = Demo.derive (vault_seeds Demo.agent_key)

abbrev pub vault : MemoryVault
vault = record {
  bump = 255;
  agent = Demo.agent_key;
  wallet = Demo.wallet;
  vault_nonce = 9;
  total_sessions = 0;
  total_inscriptions = 0;
  total_bytes_inscribed = 0;
  created_at = pos 1000;
  protocol_version = vault_protocol_version;
  nonce_version = 0;
  last_nonce_rotation = pos 0;
}

abbrev pub vault_owner : VaultOwner
vault_owner = record { owner = owner; vault_key = vault_key; vault = vault }

abbrev pub session_key : Pubkey
session_key = Demo.derive (session_seeds vault_key 77)

abbrev pub session : SessionLedger
session = record {
  bump = 255;
  vault = vault_key;
  session_hash = 77;
  sequence_counter = 0;
  total_bytes = 0;
  current_epoch = 0;
  total_epochs = 0;
  created_at = pos 1000;
  last_inscribed_at = pos 0;
  is_closed = false;
  merkle_root = 0;
  total_checkpoints = 0;
  tip_hash = 0;
}

pub open-ok :
    open_session Demo.runtime vault_owner session_key 77 Demo.clock Demo.bank
    ≡ ok (session, record vault { total_sessions = 1 }, Demo.bank)
unfolding open_session vault_constraints at_address at_bump agent_seeds vault_seeds session_seeds
open-ok = refl

abbrev pub args : MemoryArgs
args = record {
  sequence = 0;
  encrypted_data = 1 ∷ 2 ∷ 3 ∷ [];
  content_hash = 5;
  total_fragments = 1;
  fragment_index = 0;
  epoch_index = 0;
}

abbrev page_key : Pubkey
page_key = Demo.derive (epoch_seeds session_key 0)

abbrev pub accounts : InscribeAccounts
accounts = record {
  vault_owner = vault_owner;
  session_key = session_key;
  session = session;
  epoch_page_key = page_key;
  epoch_page = no_page;
}

abbrev pub inscribed : Inscribed
inscribed = record {
  session = record session {
    sequence_counter = 1;
    total_bytes = 3;
    total_epochs = 1;
    last_inscribed_at = pos 1000;
    merkle_root = 5;
    tip_hash = 5;
  };
  vault = record vault { total_inscriptions = 1; total_bytes_inscribed = 3 };
  epoch_page = record {
    bump = 255;
    session = session_key;
    epoch_index = 0;
    start_sequence = 0;
    inscription_count = 1;
    total_bytes = 3;
    first_ts = pos 1000;
    last_ts = pos 1000;
  };
  bank = Demo.bank;
}

pub inscribe-ok : inscribe_memory Demo.runtime accounts args Demo.clock Demo.bank ≡ ok inscribed
unfolding inscribe_memory inscribe_core vault_constraints at_address at_bump agent_seeds vault_seeds
    session_seeds epoch_seeds
inscribe-ok = refl

abbrev pub first : World
first = record { session = session; pages = λ i. no_page; inscribed = [] }

first_reached : Reach Demo.runtime session_key (λ i. no_page) first
first_reached =
    opened vault_owner 77 Demo.clock Demo.bank Demo.bank session
      (record vault { total_sessions = 1 }) first open-ok refl

abbrev pub second : World
second = after first args inscribed

second_reached : Reach Demo.runtime session_key (λ i. no_page) second
second_reached =
    next first second first_reached
      (wrote accounts args Demo.clock Demo.bank inscribed refl refl refl inscribe-ok refl)

Reach-IsRecorded_example : IsRecorded Demo.runtime second
Reach-IsRecorded_example =
    Reach-IsRecorded Demo.runtime session_key (λ i. no_page) second second_reached

-- The address of the page is not zero.
used : (second.pages 0).session ≢ 0
unfolding vault_seeds session_seeds agent_seeds
used h = cc

epoch_bounds_example :
    ((second.pages 0).session ≡ session_key)
    × ((second.pages 0).inscription_count ≤ 1000)
    × (1000 * 0 ≤ (second.pages 0).start_sequence)
    × ((second.pages 0).start_sequence + (second.pages 0).inscription_count ≤ 1000 * (0 + 1))
    × ((second.pages 0).start_sequence + (second.pages 0).inscription_count
        ≤ second.session.sequence_counter)
epoch_bounds_example =
    epoch_bounds Demo.runtime session_key (λ i. no_page) second 0 second_reached refl used

abbrev shut : World
shut = record second { session = record (second.session) { is_closed = true } }

abbrev delegate_key : Pubkey
delegate_key = Demo.derive (delegate_seeds vault_key 33)

-- A delegate for a thousand seconds.
abbrev delegate : VaultDelegate
delegate = record {
  bump = 255;
  vault = vault_key;
  delegate = 33;
  permissions = 1;
  expires_at = pos 2000;
  created_at = pos 1000;
}

add-ok :
    add_vault_delegate Demo.runtime vault_owner delegate_key 33 1 (pos 2000) Demo.clock Demo.bank
    ≡ ok (delegate, Demo.bank)
unfolding add_vault_delegate own_vault_constraints at_address at_bump agent_seeds vault_seeds
    delegate_seeds checked_add_i64 ◌+ℤ◌
add-ok = refl

delegated-ok :
    inscribe_memory_delegated Demo.runtime 33 delegate_key delegate accounts args Demo.clock
      Demo.bank
    ≡ ok inscribed
unfolding inscribe_memory_delegated inscribe_core at_address at_bump agent_seeds vault_seeds
    session_seeds epoch_seeds delegate_seeds
delegated-ok = refl

inscribe_memory_delegated_needs_example :
    (delegate.delegate ≡ 33)
    × (delegate.vault ≡ accounts.session.vault)
    × (delegate.permissions % 2 ≡ 1)
    × ((delegate.expires_at ≤ℤ pos 0) ⊎ (Demo.clock.unix_timestamp <ℤ delegate.expires_at))
inscribe_memory_delegated_needs_example =
    inscribe_memory_delegated_needs Demo.runtime 33 delegate_key delegate accounts args Demo.clock
      Demo.bank inscribed delegated-ok
