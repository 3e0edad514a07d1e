-- ===== src/Lifecycle/OpenSums.antt =====
-- Sums over the pending settlements that are not final.
use synapse_sap.Common.{
  ℕ, zero, suc, ◌+◌, ◌≤◌, ◌≡◌, refl, true, false, some, List, [], ◌∷◌, get_elem?, arith,
  if◌then◌else◌,
}
use synapse_sap.State.{PendingSettlement}
use synapse_sap.Lifecycle.{set}

module _ (weight : PendingSettlement → ℕ) where
  pub open_sum : List PendingSettlement → ℕ
  open_sum [] = 0
  open_sum (p ∷ ps) = (if p.is_finalized then 0 else weight p) + open_sum ps

  pub open_sum-nil : open_sum [] ≡ 0
  unfolding open_sum
  open_sum-nil = refl

  pub open_sum-cons :
      (p : PendingSettlement) (ps : List PendingSettlement)
      → p.is_finalized ≡ false
      → open_sum (p ∷ ps) ≡ weight p + open_sum ps
  unfolding open_sum
  open_sum-cons p ps h = rw h

  -- A settlement that becomes final leaves the sum.
  pub open_sum-finalized :
      (ps : List PendingSettlement) (i : ℕ) (p p' : PendingSettlement)
      → get_elem? ps i ≡ some p
      → p.is_finalized ≡ false
      → p'.is_finalized ≡ true
      → open_sum (set ps i p') + weight p ≡ open_sum ps
  unfolding open_sum
  open_sum-finalized [] i p p' e f f' = cc
  open_sum-finalized (x ∷ ps) zero p p' e f f' =
      let same : x ≡ p = cc in rw (same, f, f') (omega arith)
  open_sum-finalized (x ∷ ps) (suc i) p p' e f f' =
      omega (arith, open_sum-finalized ps i p p' e f f')

  -- One that stays open, with the same weight, leaves it alone.
  pub open_sum-kept :
      (ps : List PendingSettlement) (i : ℕ) (p p' : PendingSettlement)
      → get_elem? ps i ≡ some p
      → p.is_finalized ≡ false
      → p'.is_finalized ≡ false
      → weight p' ≡ weight p
      → open_sum (set ps i p') ≡ open_sum ps
  unfolding open_sum
  open_sum-kept [] i p p' e f f' same = cc
  open_sum-kept (x ∷ ps) zero p p' e f f' same = let eq : x ≡ p = cc in rw eq (simp (f, f', same))
  open_sum-kept (x ∷ ps) (suc i) p p' e f f' same =
      omega (arith, open_sum-kept ps i p p' e f f' same)

  -- Each open settlement is part of the sum.
  pub le-open_sum :
      (ps : List PendingSettlement) (i : ℕ) (p : PendingSettlement)
      → get_elem? ps i ≡ some p
      → p.is_finalized ≡ false
      → weight p ≤ open_sum ps
  unfolding open_sum
  le-open_sum [] i p e f = cc
  le-open_sum (x ∷ ps) zero p e f = let same : x ≡ p = cc in rw (same, f) (omega arith)
  le-open_sum (x ∷ ps) (suc i) p e f = omega (arith, le-open_sum ps i p e f)
