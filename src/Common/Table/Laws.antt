-- ===== src/Common/Table/Laws.antt =====
-- Lookups after a write, and what holds of every entry.
use mathlib.Core.Path.{◌≡◌}
use mathlib.Core.Option.{none, some}
use mathlib.Core.List.{[], ◌∷◌}
use mathlib.Core.Logic.{inl, inr}
use native.Mathlib.Omega.{arith}
use liteploy.Common.Tests.{if◌then◌else◌, ◌==◌, Bool-cases}
use liteploy.Common.Lists.{All}
use liteploy.Common.Text.{Text, text_eq, text_beq_iff}
use liteploy.Common.Table.{Table, get, put, delete}

module _ {ℓ} {V : Type ℓ} where
  pub get-delete :
      (t : Table V) (k j : Text) → get (delete t k) j ≡ (if k == j then none else get t j)
  unfolding get delete
  get-delete [] k j = ground arith
  get-delete ((i, v) ∷ t) k j =
      ground (arith, get-delete t k j, text_beq_iff i k, text_beq_iff i j, text_beq_iff k j)

  pub get-put :
      (t : Table V) (k : Text) (v : V) (j : Text)
      → get (put t k v) j ≡ (if k == j then some v else get t j)
  unfolding get put
  get-put t k v j = ground (arith, get-delete t k j)

  pub get-put_self : (t : Table V) (k : Text) (v : V) → get (put t k v) k ≡ some v
  get-put_self t k v = ground (arith, get-put t k v k, text_beq_iff k k)

  pub get-delete_self : (t : Table V) (k : Text) → get (delete t k) k ≡ none
  get-delete_self t k = ground (arith, get-delete t k k, text_beq_iff k k)

module _ {ℓ κ} {V : Type ℓ} (P : Text × V → Type κ) where
  pub All-delete : (t : Table V) (k : Text) → All P t → All P (delete t k)
  unfolding delete
  All-delete [] k h = h
  All-delete ((j, v) ∷ t) k h = elim (Bool-cases (j == k)) [
    | inl e ↦ rw e (All-delete t k h.1)
    | inr e ↦ rw e (h.0, All-delete t k h.1)
  ]

  pub All-put : (t : Table V) (k : Text) (v : V) → P (k, v) → All P t → All P (put t k v)
  unfolding put
  All-put t k v p h = (p, All-delete t k h)

  pub at_of_All : (t : Table V) (k : Text) (v : V) → All P t → get t k ≡ some v → P (k, v)
  unfolding get
  at_of_All [] k v h e = ground arith
  at_of_All ((j, w) ∷ t) k v h e = elim (Bool-cases (j == k)) [
    | inl same ↦ ground (arith, text_beq_iff j k)
    | inr other ↦ at_of_All t k v h.1 (ground arith)
  ]
