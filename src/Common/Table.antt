-- ===== src/Common/Table.antt =====
-- Go maps with string keys, as association lists. Go leaves the order of iteration open; here it
-- is the order of the list.
pub mod Laws
use mathlib.Core.Option.{Option, none, some}
use mathlib.Core.List.{List, [], ◌∷◌}
use liteploy.Common.Tests.{if◌then◌else◌, ◌==◌}
use liteploy.Common.Text.{Text, text_eq}

abbrev pub Table {ℓ} : Type ℓ → Type ℓ
Table V = List (Text × V)

module _ {ℓ} {V : Type ℓ} where
  unfoldable pub get : Table V → Text → Option V
  get [] k = none
  get ((j, v) ∷ t) k = if j == k then some v else get t k

  unfoldable pub delete : Table V → Text → Table V
  delete [] k = []
  delete ((j, v) ∷ t) k = let rest = delete t k in if j == k then rest else (j, v) ∷ rest

  unfoldable pub put : Table V → Text → V → Table V
  put t k v = (k, v) ∷ delete t k

  abbrev pub values : Table V → List V
  values [] = []
  values ((j, v) ∷ t) = v ∷ values t
