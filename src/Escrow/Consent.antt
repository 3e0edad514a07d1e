-- ===== src/Escrow/Consent.antt =====
-- Who must sign for a settlement.
use synapse_sap.Common.{
  ℕ, suc, ◌≡◌, refl, inl, inr, true, ◌&&◌, some, List, [], ◌∷◌, get_elem?, ◌==◌, Bool-cases, arith,
}
use synapse_sap.Errors.{ok, require, >>=-eq-ok, ok_or, co_signer_required, invalid_co_signer}
use synapse_sap.State.{Pubkey, SettlementSecurity}
use synapse_sap.Runtime.{Runtime, Bank, AccountInfo, Clock}
use synapse_sap.Escrow.Settle.{
  SettleAccounts, Settled, Quote, settle_calls_v2, settle_constraints, quote_settlement,
  settle_by_mode, settle_co_signed, has_co_signed,
}

-- One of the accounts has the key, and signs.
abbrev pub IsSignedBy : List AccountInfo → Pubkey → Type 0
IsSignedBy accounts key =
    (i : ℕ) × (account : AccountInfo) × (get_elem? accounts i ≡ some account)
    × (account.key ≡ key)
    × (account.is_signer ≡ true)

has_co_signed-IsSignedBy :
    (key : Pubkey) (accounts : List AccountInfo)
    → has_co_signed key accounts ≡ true
    → IsSignedBy accounts key
unfolding has_co_signed
has_co_signed-IsSignedBy key [] h = absurd (cc)
has_co_signed-IsSignedBy key (a ∷ rest) h = elim (Bool-cases (a.key == key && a.is_signer)) [
  | inl here ↦ (0, a, refl, ground arith, ground arith)
  | inr elsewhere ↦
      let (i, account, at, same, signs) = has_co_signed-IsSignedBy key rest (ground arith) in
      (suc i, account, at, same, signs)
]

settle_co_signed-IsSignedBy :
    (rt : Runtime) (a : SettleAccounts) (q : Quote) (calls : ℕ) (clock : Clock) (bank : Bank)
    {out : Settled}
    → settle_co_signed rt a q calls clock bank ≡ ok out
    → (co_signer : Pubkey) × (a.escrow.co_signer ≡ some co_signer)
      × IsSignedBy a.remaining co_signer
unfolding settle_co_signed
settle_co_signed-IsSignedBy rt a q calls clock bank h =
    let (key, named, h₁) = >>=-eq-ok (ok_or a.escrow.co_signer co_signer_required) _ h in
    let (_, signed, _) =
      >>=-eq-ok (require (has_co_signed key a.remaining) invalid_co_signer) _ h₁ in
    (key, ground arith, has_co_signed-IsSignedBy key a.remaining (ground arith))

-- A settlement of a co-signed escrow goes through only if the escrow names a co-signer and one of
-- the accounts of the call has its key and signs.
pub settle_calls_v2-IsSignedBy :
    (rt : Runtime) (a : SettleAccounts) (nonce calls hash : ℕ) (clock : Clock) (bank : Bank)
    (out : Settled)
    → settle_calls_v2 rt a nonce calls hash clock bank ≡ ok out
    → a.escrow.settlement_security ≡ SettlementSecurity.co_signed
    → (co_signer : Pubkey) × (a.escrow.co_signer ≡ some co_signer)
      × IsSignedBy a.remaining co_signer
unfolding settle_calls_v2 settle_by_mode
settle_calls_v2-IsSignedBy rt a nonce calls hash clock bank out h mode =
    let (_, _, h₁) = >>=-eq-ok (settle_constraints rt a nonce) _ h in
    let (q, _, h₂) = >>=-eq-ok (quote_settlement a.escrow calls clock) _ h₁ in
    settle_co_signed-IsSignedBy rt a q calls clock bank {out = out} (ground arith)
