-- ===== src/Base/Set.antt =====
-- std::set and std::unordered_set where the program only inserts, erases and tests membership.
use mathlib.Core.Path.{◌≡◌}
use mathlib.Core.Bool.{Bool, true, false, ◌||◌}
use mathlib.Core.List.{List, [], ◌∷◌}
use native.Mathlib.Omega.{arith}
use connecttool_qt.Base.Tests.{if◌then◌else◌}
use connecttool_qt.Base.Key.{Key}

module _ {ℓ} {K : Type ℓ} ⦃key : Key K⦄ where
  -- `s.count(k)`
  unfoldable pub contains : K → List K → Bool
  contains k [] = false
  contains k (j ∷ s) = key.same j k || contains k s

  -- `s.insert(k)`
  unfoldable pub insert : K → List K → List K
  unfolding contains
  insert k s = if contains k s then s else k ∷ s

  -- `s.erase(k)`, and `std::remove` on a sequence
  unfoldable pub remove : K → List K → List K
  remove k [] = []
  remove k (j ∷ s) = if key.same j k then remove k s else j ∷ remove k s

  pub contains-insert :
      (j k : K) (s : List K)
      → contains j (insert k s) ≡ (if key.same k j then true else contains j s)
  unfolding contains insert
  contains-insert j k s = ground (arith, key.same_iff k j)

  pub contains-remove :
      (j k : K) (s : List K)
      → contains j (remove k s) ≡ (if key.same k j then false else contains j s)
  unfolding contains remove
  contains-remove j k [] = ground arith
  contains-remove j k (i ∷ s) =
      ground (arith, contains-remove j k s, key.same_iff i k, key.same_iff i j, key.same_iff k j)
