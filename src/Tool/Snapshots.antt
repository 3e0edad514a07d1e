-- ===== src/Tool/Snapshots.antt =====
-- The checkpoints of a session, beside its life: each is a snapshot of all that was inscribed when
-- it was made.
use synapse_sap.Common.{ℕ, ◌≡◌, List, [], ◌∷◌, ◌++◌, length}
use synapse_sap.Errors.{ok}
use synapse_sap.State.{Pubkey, Hash, MemoryVault, SessionLedger, SessionCheckpoint, EpochPage}
use synapse_sap.Runtime.{Runtime, Bank, Clock}
use synapse_sap.Owner.{VaultOwner}
use synapse_sap.Vault.Handlers.{open_session}
use synapse_sap.Vault.Session.{Inscription, World, Step}
use synapse_sap.Vault.Sequence.{rolling_root, content_size, IsRecorded}
use synapse_sap.Tool.Checkpoint.{create_session_checkpoint}

-- A session and its checkpoints, the newest first.
pub record Marked : Type 0 where
  pub world : World
  pub checkpoints : List SessionCheckpoint

module _ (rt : Runtime) (session_key : Pubkey) where
  pub data MarkedReach : Marked → Type 0 where
    begun :
        (v : VaultOwner) (hash : Hash) (clock : Clock) (bank bank' : Bank) (session : SessionLedger)
        (vault : MemoryVault) (start : ℕ → EpochPage)
        → open_session rt v session_key hash clock bank ≡ ok (session, vault, bank')
        → MarkedReach (record {
          world = record { session = session; pages = start; inscribed = [] };
          checkpoints = [];
        })
    stepped :
        (m : Marked) (w : World)
        → MarkedReach m
        → Step rt session_key m.world w
        → MarkedReach (record { world = w; checkpoints = m.checkpoints })
    marked :
        (m : Marked) (v : VaultOwner) (key : Pubkey) (index : ℕ) (clock : Clock) (bank bank' : Bank)
        (checkpoint : SessionCheckpoint) (session : SessionLedger)
        → MarkedReach m
        → create_session_checkpoint rt v session_key m.world.session key index clock bank
          ≡ ok (checkpoint, session, bank')
        → MarkedReach (record {
          world = record (m.world) { session = session };
          checkpoints = checkpoint ∷ m.checkpoints;
        })

  -- The checkpoint tells of the inscriptions up to some moment.
  pub record IsSnapshot (inscribed : List Inscription) (c : SessionCheckpoint) : Type 0 where
    pub newer : List Inscription
    pub older : List Inscription
    pub split : inscribed ≡ newer ++ older
    pub counted : c.inscriptions_at ≡ length older
    pub hashed : c.merkle_root ≡ rolling_root rt older
    pub sized : c.total_bytes_at ≡ content_size older
    pub own : c.session ≡ session_key

  abbrev pub AreSnapshots : List Inscription → List SessionCheckpoint → Type 0
  AreSnapshots inscribed [] = Unit {0}
  AreSnapshots inscribed (c ∷ cs) =
      (c.checkpoint_index ≡ length cs) × IsSnapshot inscribed c × AreSnapshots inscribed cs

  pub record IsMarked (m : Marked) : Type 0 where
    pub recorded : IsRecorded rt m.world
    pub numbered : m.world.session.total_checkpoints ≡ length m.checkpoints
    pub snapshots : AreSnapshots m.world.inscribed m.checkpoints

  -- What a step of the session leaves alone.
  record IsGrown (w w' : World) : Type 0 where
    new : List Inscription
    grown : w'.inscribed ≡ new ++ w.inscribed
    kept : w'.session.total_checkpoints ≡ w.session.total_checkpoints
