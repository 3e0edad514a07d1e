-- ===== src/Tool/Life.antt =====
-- A tool over its life: the versions that its owner publishes, and what stays true of its account.
use synapse_sap.Common.{ℕ, ◌+◌, ◌≤◌, ◌≡◌, Bool, true, false, length, arith}
use synapse_sap.Common.Int.{ℤ}
use synapse_sap.Errors.{ok}
use synapse_sap.State.{Pubkey, ToolDescriptor, GlobalRegistry}
use synapse_sap.Runtime.{Runtime, Bank, Clock}
use synapse_sap.Tool.Handlers.{
  ToolAccounts, ToolArgs, ToolChanges, publish_tool, update_tool, deactivate_tool, reactivate_tool,
}

module _ (rt : Runtime) where
  -- The account, and how often it was updated.
  pub data Reach : ToolDescriptor → ℕ → Type 0 where
    published :
        (a : ToolAccounts) (global_key : Pubkey) (registry registry' : GlobalRegistry)
        (args : ToolArgs) (clock : Clock) (bank bank' : Bank) (tool : ToolDescriptor)
        → publish_tool rt a global_key registry args clock bank ≡ ok (tool, registry', bank')
        → Reach tool 0
    updated :
        (a : ToolAccounts) (changes : ToolChanges) (clock : Clock) (tool : ToolDescriptor) (n : ℕ)
        → Reach a.tool n
        → update_tool rt a changes clock ≡ ok tool
        → Reach tool (n + 1)
    deactivated :
        (a : ToolAccounts) (clock : Clock) (tool : ToolDescriptor) (n : ℕ)
        → Reach a.tool n
        → deactivate_tool rt a clock ≡ ok tool
        → Reach tool n
    reactivated :
        (a : ToolAccounts) (clock : Clock) (tool : ToolDescriptor) (n : ℕ)
        → Reach a.tool n
        → reactivate_tool rt a clock ≡ ok tool
        → Reach tool n

  pub record IsDescribed (tool : ToolDescriptor) (updates : ℕ) : Type 0 where
    pub versioned : tool.version ≡ updates + 1
    pub bounded : tool.version ≤ 65535
    pub named : tool.tool_name_hash ≡ rt.hash tool.tool_name
    pub non_empty : 1 ≤ length tool.tool_name
    pub short : length tool.tool_name ≤ 32
    pub params : tool.required_params ≤ tool.params_count

  published-IsDescribed :
      (a : ToolAccounts) (global_key : Pubkey) (registry registry' : GlobalRegistry)
      (args : ToolArgs) (clock : Clock) (bank bank' : Bank) (tool : ToolDescriptor)
      → publish_tool rt a global_key registry args clock bank ≡ ok (tool, registry', bank')
      → IsDescribed tool 0
  unfolding publish_tool
  published-IsDescribed a global_key registry registry' args clock bank bank' tool h = record {
    versioned = ground arith;
    bounded = ground arith;
    named = ground arith;
    non_empty = ground arith;
    short = ground arith;
    params = ground arith;
  }

  updated-IsDescribed :
      (a : ToolAccounts) (changes : ToolChanges) (clock : Clock) (tool : ToolDescriptor) (n : ℕ)
      → update_tool rt a changes clock ≡ ok tool
      → IsDescribed a.tool n
      → IsDescribed tool (n + 1)
  unfolding update_tool
  updated-IsDescribed a changes clock tool n h d = record {
    versioned = ground (arith, d.versioned);
    bounded = ground arith;
    named = ground (arith, d.named);
    non_empty = ground (arith, d.non_empty);
    short = ground (arith, d.short);
    params = ground arith;
  }

  -- A new flag and a new time leave the description alone.
  flagged-IsDescribed :
      (old new : ToolDescriptor) (active : Bool) (n : ℕ)
      → (time : ℤ) × (new ≡ record old { is_active = active; updated_at = time })
      → IsDescribed old n
      → IsDescribed new n
  flagged-IsDescribed old new active n (time, e) d = rw e (record {
    versioned = d.versioned;
    bounded = d.bounded;
    named = d.named;
    non_empty = d.non_empty;
    short = d.short;
    params = d.params;
  })

  -- In every state that a tool comes to by its publication, updates, deactivations and reactivations,
  -- its version is one more than the number of its updates and a u16, its name has 1 to 32 bytes and
  -- the recorded hash, and no more parameters are required than there are.
  pub Reach-IsDescribed : (tool : ToolDescriptor) (n : ℕ) → Reach tool n → IsDescribed tool n
  unfolding deactivate_tool reactivate_tool
  Reach-IsDescribed tool n (published a gk g g' args clock bank bank' t h) =
      published-IsDescribed a gk g g' args clock bank bank' t h
  Reach-IsDescribed tool n (updated a changes clock t m r h) =
      updated-IsDescribed a changes clock t m h (Reach-IsDescribed a.tool m r)
  Reach-IsDescribed tool n (deactivated a clock t m r h) =
      flagged-IsDescribed a.tool t false m (clock.unix_timestamp, ground arith)
        (Reach-IsDescribed a.tool m r)
  Reach-IsDescribed tool n (reactivated a clock t m r h) =
      flagged-IsDescribed a.tool t true m (clock.unix_timestamp, ground arith)
        (Reach-IsDescribed a.tool m r)
