-- ===== src/Tests/Legacy.antt =====
-- A buffer with two pieces, a digest with two entries, and a plugin that comes and goes.
use synapse_sap.Common.{ℕ, ◌≡◌, refl, true, none, List, [], ◌∷◌, arith}
use synapse_sap.Common.Int.{pos}
use synapse_sap.Errors.{Result, ok}
use synapse_sap.State.{
  Pubkey, AgentAccount, MemoryBuffer, MemoryDigest, PluginSlot, PluginType, plugin_type_from_u8,
}
use synapse_sap.Runtime.{Bank}
use synapse_sap.Seeds.{
  agent_seeds, vault_seeds, session_seeds, buffer_seeds, digest_seeds, plugin_seeds, at_address,
  at_bump,
}
use synapse_sap.Owner.{Owner, vault_constraints}
use synapse_sap.Index.Members.{position, swap_remove}
use synapse_sap.Legacy.Buffer.{BufferAccounts, create_buffer, append_content, append_buffer}
use synapse_sap.Legacy.BufferLife.{Buffered, Reach, created, wrote, append_content-succeeds}
use synapse_sap.Legacy.Digest.{DigestAccounts, init_digest, post_digest, inscribe_to_digest}
use synapse_sap.Legacy.DigestLife
use synapse_sap.Legacy.DigestLife.{Entry, value, IsProof, Reach-IsProof, post_digest-inscribe}
use synapse_sap.Legacy.Plugins.{register_plugin, close_plugin}
use synapse_sap.Tests.Demo
use synapse_sap.Tests.Vault

abbrev realloc : Pubkey → Pubkey → ℕ → Bank → Result Bank
realloc payer key space bank = ok bank

abbrev buffer_key : Pubkey
buffer_key = Demo.derive (buffer_seeds Vault.session_key 0)

abbrev empty : MemoryBuffer
empty = record {
  bump = 255;
  session = Vault.session_key;
  authority = Demo.wallet;
  page_index = 0;
  num_entries = 0;
  total_size = 0;
  created_at = pos 1000;
  updated_at = pos 1000;
  content = [];
}

abbrev one_piece : MemoryBuffer
one_piece = record empty { num_entries = 1; total_size = 2; content = 8 ∷ 9 ∷ [] }

abbrev two_pieces : MemoryBuffer
two_pieces = record empty { num_entries = 2; total_size = 3; content = 8 ∷ 9 ∷ 7 ∷ [] }

abbrev buffer_accounts : MemoryBuffer → BufferAccounts
buffer_accounts b = record {
  vault_owner = Vault.vault_owner;
  session_key = Vault.session_key;
  session = Vault.session;
  buffer_key = buffer_key;
  buffer = b;
}

create_buffer-ok :
    create_buffer Demo.runtime realloc (buffer_accounts empty) 0 Demo.clock Demo.bank
    ≡ ok (empty, Demo.bank)
unfolding create_buffer vault_constraints at_bump agent_seeds vault_seeds at_address buffer_seeds
    session_seeds
create_buffer-ok = refl

append_one-ok :
    append_buffer Demo.runtime realloc (buffer_accounts empty) 0 (8 ∷ 9 ∷ []) Demo.clock Demo.bank
    ≡ ok (one_piece, Demo.bank)
unfolding append_buffer vault_constraints at_bump agent_seeds vault_seeds buffer_seeds session_seeds
append_one-ok = refl

append_two-ok :
    append_buffer Demo.runtime realloc (buffer_accounts one_piece) 0 (7 ∷ []) Demo.clock Demo.bank
    ≡ ok (two_pieces, Demo.bank)
unfolding append_buffer vault_constraints at_bump agent_seeds vault_seeds buffer_seeds session_seeds
append_two-ok = refl

abbrev buffered : Buffered
buffered = record { buffer = two_pieces; space = 104; appended = (7 ∷ []) ∷ (8 ∷ 9 ∷ []) ∷ [] }

buffered_reached : Reach Demo.runtime realloc buffered
buffered_reached =
    wrote (record { buffer = one_piece; space = 103; appended = (8 ∷ 9 ∷ []) ∷ [] })
      (buffer_accounts one_piece) 0 (7 ∷ []) Demo.clock Demo.bank Demo.bank two_pieces
      (wrote (record { buffer = empty; space = 101; appended = [] }) (buffer_accounts empty) 0
        (8 ∷ 9 ∷ []) Demo.clock Demo.bank Demo.bank one_piece
        (created (buffer_accounts empty) 0 Demo.clock Demo.bank Demo.bank empty create_buffer-ok)
        refl append_one-ok)
      refl append_two-ok

append_content-succeeds_example :
    (b : MemoryBuffer) × (append_content two_pieces (6 ∷ []) Demo.clock ≡ ok b)
append_content-succeeds_example =
    append_content-succeeds Demo.runtime realloc buffered (6 ∷ []) Demo.clock buffered_reached
      (omega arith) (omega arith) (omega arith)

abbrev digest_key : Pubkey
digest_key = Demo.derive (digest_seeds Vault.session_key)

abbrev blank : MemoryDigest
blank = record {
  bump = 255;
  session = Vault.session_key;
  authority = Demo.wallet;
  num_entries = 0;
  merkle_root = 0;
  latest_hash = 0;
  total_data_size = 0;
  storage_ref = 0;
  storage_type = 0;
  created_at = pos 1000;
  updated_at = pos 1000;
}

abbrev digest_accounts : MemoryDigest → DigestAccounts
digest_accounts d = record {
  vault_owner = Vault.vault_owner;
  session_key = Vault.session_key;
  session = Vault.session;
  digest_key = digest_key;
  digest = d;
}

init_digest-ok :
    init_digest Demo.runtime (digest_accounts blank) Demo.clock Demo.bank ≡ ok (blank, Demo.bank)
unfolding init_digest vault_constraints at_bump agent_seeds vault_seeds at_address digest_seeds
    session_seeds
init_digest-ok = refl

abbrev posted_once : MemoryDigest
posted_once = record blank {
  num_entries = 1;
  merkle_root = 6;
  latest_hash = 6;
  total_data_size = 40;
}

post-ok : post_digest Demo.runtime (digest_accounts blank) 6 40 Demo.clock ≡ ok posted_once
unfolding post_digest vault_seeds agent_seeds vault_constraints at_bump digest_seeds session_seeds
post-ok = refl

abbrev inscribed_too : MemoryDigest
inscribed_too = record blank {
  num_entries = 2;
  merkle_root = 23;
  latest_hash = 5;
  total_data_size = 41;
}

inscribe-ok :
    inscribe_to_digest Demo.runtime (digest_accounts posted_once) (9 ∷ []) 5 Demo.clock
    ≡ ok inscribed_too
unfolding inscribe_to_digest vault_constraints at_bump agent_seeds vault_seeds digest_seeds
    session_seeds
inscribe-ok = refl

abbrev entries : List Entry
entries = record { content_hash = 5; size = 1 } ∷ record { content_hash = 6; size = 40 } ∷ []

digest_reached : DigestLife.Reach Demo.runtime inscribed_too entries
digest_reached =
    DigestLife.inscribed (digest_accounts posted_once) (record { content_hash = 6; size = 40 } ∷ [])
      (9 ∷ []) 5 Demo.clock inscribed_too
      (DigestLife.posted (digest_accounts blank) [] 6 40 Demo.clock posted_once
        (DigestLife.created (digest_accounts blank) Demo.clock Demo.bank Demo.bank blank
          init_digest-ok)
        post-ok)
      inscribe-ok

Reach-IsProof_example : IsProof Demo.runtime inscribed_too entries
Reach-IsProof_example = Reach-IsProof Demo.runtime inscribed_too entries digest_reached

post_digest-inscribe_example :
    value (post_digest Demo.runtime (digest_accounts posted_once) 5 1 Demo.clock)
    ≡ value (inscribe_to_digest Demo.runtime (digest_accounts posted_once) (9 ∷ []) 5 Demo.clock)
post_digest-inscribe_example =
    post_digest-inscribe Demo.runtime (digest_accounts posted_once) (9 ∷ []) 5 Demo.clock
      (omega arith) (omega arith)

abbrev slot_key : Pubkey
slot_key = Demo.derive (plugin_seeds Demo.agent_key 1)

abbrev slot : PluginSlot
slot = record {
  bump = 255;
  agent = Demo.agent_key;
  plugin_type = PluginType.validation;
  is_active = true;
  initialized_at = pos 1000;
  last_updated = pos 1000;
  data_account = none;
}

abbrev plugged : AgentAccount
plugged = record (Demo.agent) {
  active_plugins = record { plugin_type = PluginType.validation; pda = slot_key } ∷ [];
  updated_at = pos 1000;
}

register-ok :
    register_plugin Demo.runtime Vault.owner slot_key 1 Demo.clock Demo.bank
    ≡ ok (plugged, slot, Demo.bank)
unfolding register_plugin at_bump agent_seeds at_address plugin_seeds plugin_type_from_u8
register-ok = refl

abbrev plugged_owner : Owner
plugged_owner = record (Vault.owner) { agent = plugged }

abbrev unplugged : AgentAccount
unplugged = record plugged { active_plugins = [] }

close_plugin-ok :
    close_plugin Demo.runtime plugged_owner slot_key slot Demo.clock Demo.bank
    ≡ ok (unplugged, Demo.bank)
unfolding close_plugin at_bump agent_seeds position swap_remove plugin_seeds
close_plugin-ok = refl
