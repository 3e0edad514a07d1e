-- ===== src/Tests/Ledger.antt =====
-- Runs of the ledger's handlers: two entries are written, and sealed into a page.
use synapse_sap.Common.{ℕ, ◌+◌, ◌≤◌, ◌≡◌, refl, zero, suc, List, [], ◌∷◌, ◌++◌, length, arith}
use synapse_sap.Common.Int.{pos}
use synapse_sap.Errors.{ok}
use synapse_sap.State.{Pubkey, Bytes, MemoryLedger, LedgerPage, ring_capacity}
use synapse_sap.Seeds.{
  agent_seeds, vault_seeds, session_seeds, ledger_seeds, page_seeds, at_address, at_bump,
}
use synapse_sap.Owner.{vault_constraints}
use synapse_sap.Ledger.Ring.{evict, count_entries}
use synapse_sap.Ledger.Handlers.{
  LedgerAccounts, init_ledger, write_ledger, seal_ledger, append_entry, ledger_constraints,
  ledger_session_constraints,
}
use synapse_sap.Ledger.Window.{encode, IsEntries, IsLatest}
use synapse_sap.Ledger.Refines.{decode}
use synapse_sap.Ledger.Entries.{write_ledger_refines, write_ledger_total, seal_ledger_roundtrip}
use synapse_sap.Ledger.Life.{World, Reach, IsFaithful, Reach-IsFaithful, made, wrote, sealed, next}
use synapse_sap.Tests.Demo
use synapse_sap.Tests.Vault

abbrev ledger_key : Pubkey
ledger_key = Demo.derive (ledger_seeds Vault.session_key)

abbrev page_key : Pubkey
page_key = Demo.derive (page_seeds ledger_key 0)

abbrev empty : MemoryLedger
empty = record {
  bump = 255;
  session = Vault.session_key;
  authority = Demo.wallet;
  num_entries = 0;
  merkle_root = 0;
  latest_hash = 0;
  total_data_size = 0;
  created_at = pos 1000;
  updated_at = pos 1000;
  num_pages = 0;
  ring = [];
}

abbrev with_ledger : MemoryLedger → LedgerAccounts
with_ledger l = record {
  vault_owner = Vault.vault_owner;
  session_key = Vault.session_key;
  session = Vault.session;
  ledger_key = ledger_key;
  ledger = l;
}

init-ok : init_ledger Demo.runtime (with_ledger empty) Demo.clock Demo.bank ≡ ok (empty, Demo.bank)
unfolding init_ledger vault_constraints at_address at_bump agent_seeds vault_seeds session_seeds
    ledger_seeds
init-ok = refl

abbrev one : MemoryLedger
one = record empty {
  num_entries = 1;
  merkle_root = 5;
  latest_hash = 5;
  total_data_size = 2;
  ring = 2 ∷ 0 ∷ 7 ∷ 8 ∷ [];
}

abbrev two : MemoryLedger
two = record empty {
  num_entries = 2;
  merkle_root = 21;
  latest_hash = 6;
  total_data_size = 3;
  ring = 2 ∷ 0 ∷ 7 ∷ 8 ∷ 1 ∷ 0 ∷ 9 ∷ [];
}

write_one-ok : write_ledger Demo.runtime (with_ledger empty) (7 ∷ 8 ∷ []) 5 Demo.clock ≡ ok one
unfolding write_ledger vault_constraints at_bump append_entry evict agent_seeds vault_seeds
    session_seeds ledger_seeds
write_one-ok = refl

write_two-ok : write_ledger Demo.runtime (with_ledger one) (9 ∷ []) 6 Demo.clock ≡ ok two
unfolding write_ledger vault_constraints at_bump append_entry evict agent_seeds vault_seeds
    session_seeds ledger_seeds
write_two-ok = refl

abbrev both : List Bytes
both = (7 ∷ 8 ∷ []) ∷ (9 ∷ []) ∷ []

two_ring : two.ring ≡ encode both
unfolding encode
two_ring = refl

abbrev sealed_ledger : MemoryLedger
sealed_ledger = record two { num_pages = 1; ring = [] }

abbrev page : LedgerPage
page = record {
  bump = 255;
  ledger = ledger_key;
  page_index = 0;
  sealed_at = pos 1000;
  entries_in_page = 2;
  data_size = 7;
  merkle_root_at_seal = 21;
  page_data = two.ring;
}

seal-ok :
    seal_ledger Demo.runtime (with_ledger two) page_key Demo.clock Demo.bank
    ≡ ok (sealed_ledger, page, Demo.bank)
unfolding seal_ledger vault_constraints at_address at_bump count_entries agent_seeds vault_seeds
    session_seeds ledger_seeds page_seeds
seal-ok = refl

-- A ring with five entries of 750 bytes: the oldest one goes for another.
abbrev fill : ℕ → Bytes
fill zero = []
fill (suc n) = 1 ∷ fill n

abbrev large : Bytes
large = fill 750

abbrev five : List Bytes
five = large ∷ large ∷ large ∷ large ∷ large ∷ []

abbrev full : MemoryLedger
unfolding encode
full = record empty { ring = encode five }

abbrev moved : MemoryLedger
unfolding encode
moved = record empty {
  num_entries = 1;
  merkle_root = 6;
  latest_hash = 6;
  total_data_size = 750;
  ring = encode five;
}

write_full-ok : write_ledger Demo.runtime (with_ledger full) large 6 Demo.clock ≡ ok moved
unfolding write_ledger vault_constraints at_bump append_entry evict agent_seeds vault_seeds
    session_seeds ledger_seeds encode
write_full-ok = refl

five-IsEntries : IsEntries five
five-IsEntries = (omega arith, (omega arith, (omega arith, (omega arith, (omega arith, tt)))))

full_ring : full.ring ≡ encode five
unfolding encode
full_ring = refl

write_ledger_refines_example :
    (dropped : List Bytes) × (kept : List Bytes) × IsLatest (2 + length large) five dropped kept
    × (moved.ring ≡ encode (kept ++ large ∷ []))
    × (decode (length moved.ring) moved.ring ≡ kept ++ large ∷ [])
    × (length moved.ring ≤ ring_capacity)
    × IsEntries (kept ++ large ∷ [])
write_ledger_refines_example =
    write_ledger_refines Demo.runtime (with_ledger full) large 6 Demo.clock moved five
      five-IsEntries full_ring write_full-ok

seal_ledger_roundtrip_example :
    (decode (length page.page_data) page.page_data ≡ both)
    × (page.entries_in_page ≡ length both)
    × (page.page_index ≡ two.num_pages)
    × (page.merkle_root_at_seal ≡ sealed_ledger.merkle_root)
    × (sealed_ledger.num_pages ≡ two.num_pages + 1)
    × (sealed_ledger.ring ≡ [])
seal_ledger_roundtrip_example =
    seal_ledger_roundtrip Demo.runtime (with_ledger two) page_key Demo.clock Demo.bank Demo.bank
      sealed_ledger page both (omega arith, (omega arith, tt)) two_ring seal-ok

-- A ring that no `write_ledger` wrote: the length of its first entry passes its end.
abbrev corrupt : MemoryLedger
corrupt = record empty { ring = 255 ∷ 255 ∷ 1 ∷ [] }

session-ok : ledger_session_constraints Demo.runtime (with_ledger corrupt) ≡ ok tt
unfolding ledger_session_constraints vault_seeds agent_seeds session_seeds
session-ok = refl

ledger-ok : ledger_constraints Demo.runtime (with_ledger corrupt) ≡ ok tt
unfolding ledger_constraints vault_constraints at_bump agent_seeds vault_seeds session_seeds
    ledger_seeds
ledger-ok = refl

write_ledger_total_example :
    (out : MemoryLedger) × (write_ledger Demo.runtime (with_ledger corrupt) (9 ∷ []) 6 Demo.clock
      ≡ ok out)
    × (length out.ring ≤ ring_capacity)
write_ledger_total_example =
    write_ledger_total Demo.runtime (with_ledger corrupt) (9 ∷ []) 6 Demo.clock session-ok refl
      ledger-ok (omega arith) (omega arith) (omega arith) (omega arith) (omega arith)

abbrev start : World
start = record { ledger = empty; pages = []; written = [] }

abbrev after_one : World
after_one = record start {
  ledger = one;
  written = record { content = 7 ∷ 8 ∷ []; content_hash = 5 } ∷ [];
}

abbrev after_two : World
after_two = record start {
  ledger = two;
  written = record { content = 9 ∷ []; content_hash = 6 } ∷ after_one.written;
}

abbrev after_seal : World
after_seal = record after_two { ledger = sealed_ledger; pages = page ∷ [] }

seal_reached : Reach Demo.runtime after_seal
seal_reached =
    next after_two after_seal
      (next after_one after_two
        (next start after_one
          (made (with_ledger empty) Demo.clock Demo.bank Demo.bank empty start init-ok refl)
          (wrote (with_ledger empty) (7 ∷ 8 ∷ []) 5 Demo.clock one refl write_one-ok refl))
        (wrote (with_ledger one) (9 ∷ []) 6 Demo.clock two refl write_two-ok refl))
      (sealed (with_ledger two) page_key Demo.clock Demo.bank Demo.bank sealed_ledger page refl
        seal-ok refl)

Reach-IsFaithful_example : IsFaithful Demo.runtime after_seal
Reach-IsFaithful_example = Reach-IsFaithful Demo.runtime after_seal seal_reached
