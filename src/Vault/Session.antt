-- ===== src/Vault/Session.antt =====
-- A session over its life, from its opening: the session's account, its epoch pages by index, and,
-- beside them, all that was inscribed, the newest first.
use synapse_sap.Common.{ℕ, ◌≡◌, ◌==◌, if◌then◌else◌, List, [], ◌∷◌}
use synapse_sap.Common.Int.{pos}
use synapse_sap.Errors.{ok}
use synapse_sap.State.{Pubkey, Hash, Bytes, MemoryVault, SessionLedger, EpochPage, VaultDelegate}
use synapse_sap.Runtime.{Runtime, Bank, Clock}
use synapse_sap.Owner.{VaultOwner}
use synapse_sap.Vault.Handlers.{open_session, close_session, close_epoch_page}
use synapse_sap.Vault.Inscribe.{
  MemoryArgs, InscribeAccounts, Inscribed, inscribe_memory, inscribe_memory_delegated,
  compact_inscribe,
}

pub record Inscription : Type 0 where
  pub content : Bytes
  pub content_hash : Hash

pub record World : Type 0 where
  pub session : SessionLedger
  pub pages : ℕ → EpochPage
  pub inscribed : List Inscription

-- An account that does not exist, as `init_if_needed` creates it.
abbrev pub no_page : EpochPage
no_page = record {
  bump = 0;
  session = 0;
  epoch_index = 0;
  start_sequence = 0;
  inscription_count = 0;
  total_bytes = 0;
  first_ts = pos 0;
  last_ts = pos 0;
}

abbrev pub put_page : (ℕ → EpochPage) → ℕ → EpochPage → ℕ → EpochPage
put_page pages i page j = if i == j then page else pages j

abbrev pub note : MemoryArgs → Inscription
note args = record { content = args.encrypted_data; content_hash = args.content_hash }

abbrev pub after : World → MemoryArgs → Inscribed → World
after w args out = record {
  session = out.session;
  pages = put_page w.pages args.epoch_index out.epoch_page;
  inscribed = note args ∷ w.inscribed;
}

pub data Step (rt : Runtime) (session_key : Pubkey) (w w' : World) : Type 0 where
  wrote :
      (a : InscribeAccounts) (args : MemoryArgs) (clock : Clock) (bank : Bank) (out : Inscribed)
      → a.session_key ≡ session_key
      → a.session ≡ w.session
      → a.epoch_page ≡ w.pages args.epoch_index
      → inscribe_memory rt a args clock bank ≡ ok out
      → w' ≡ after w args out
      → Step rt session_key w w'
  wrote_delegated :
      (signer delegate_key : Pubkey) (del : VaultDelegate) (a : InscribeAccounts)
      (args : MemoryArgs) (clock : Clock) (bank : Bank) (out : Inscribed)
      → a.session_key ≡ session_key
      → a.session ≡ w.session
      → a.epoch_page ≡ w.pages args.epoch_index
      → inscribe_memory_delegated rt signer delegate_key del a args clock bank ≡ ok out
      → w' ≡ after w args out
      → Step rt session_key w w'
  wrote_compact :
      (v : VaultOwner) (sequence : ℕ) (content : Bytes) (hash : Hash) (clock : Clock)
      (session : SessionLedger) (vault : MemoryVault)
      → compact_inscribe rt v w.session sequence content hash clock ≡ ok (session, vault)
      → w' ≡ record w {
        session = session;
        inscribed = record { content = content; content_hash = hash } ∷ w.inscribed;
      }
      → Step rt session_key w w'
  closed :
      (v : VaultOwner) (session : SessionLedger)
      → close_session rt v w.session ≡ ok session
      → w' ≡ record w { session = session }
      → Step rt session_key w w'

-- `start` is what the pages' addresses hold when the session is opened: nothing for a new session,
-- but the old pages for one that is opened again where one with the same hash was closed.
pub data Reach (rt : Runtime) (session_key : Pubkey) (start : ℕ → EpochPage) : World → Type 0 where
  opened :
      (v : VaultOwner) (hash : Hash) (clock : Clock) (bank bank' : Bank) (session : SessionLedger)
      (vault : MemoryVault) (w : World)
      → open_session rt v session_key hash clock bank ≡ ok (session, vault, bank')
      → w ≡ record { session = session; pages = start; inscribed = [] }
      → Reach rt session_key start w
  next :
      (v w : World)
      → Reach rt session_key start v
      → Step rt session_key v w
      → Reach rt session_key start w
  swept :
      (w : World) (v : VaultOwner) (page_key : Pubkey) (epoch_index : ℕ) (bank bank' : Bank)
      → Reach rt session_key start w
      → close_epoch_page rt v session_key w.session page_key (w.pages epoch_index) epoch_index bank
        ≡ ok bank'
      → Reach rt session_key start (record w { pages = put_page w.pages epoch_index no_page })
