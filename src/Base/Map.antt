-- ===== src/Base/Map.antt =====
-- std::map and std::unordered_map as association lists. A new key stands at its place in the
-- order of the keys, so that a loop over a std::map meets the keys in the order of the program.
use mathlib.Core.Path.{◌≡◌, refl}
use mathlib.Core.Bool.{Bool, true}
use mathlib.Core.Option.{Option, none, some}
use mathlib.Core.List.{List, [], ◌∷◌}
use native.Mathlib.Omega.{arith}
use connecttool_qt.Base.Tests.{if◌then◌else◌}
use connecttool_qt.Base.Key.{Key}

abbrev pub Map {ℓ κ} : Type ℓ → Type κ → Type (ℓ ⊔ κ)
Map K V = List (K × V)

module _ {ℓ κ} {K : Type ℓ} {V : Type κ} ⦃key : Key K⦄ where
  -- `m.find(k)`
  unfoldable pub find : K → Map K V → Option V
  find k [] = none
  find k ((j, v) ∷ m) = if key.same j k then some v else find k m

  -- `m[k] = v`
  unfoldable pub assign : K → V → Map K V → Map K V
  assign k v [] = (k, v) ∷ []
  assign k v ((j, w) ∷ m) =
      if key.same j k
      then (j, v) ∷ m
      else if key.before k j
      then (k, v) ∷ (j, w) ∷ m
      else (j, w) ∷ assign k v m

  -- `m.erase(k)`
  unfoldable pub erase : K → Map K V → Map K V
  erase k [] = []
  erase k ((j, w) ∷ m) = if key.same j k then erase k m else (j, w) ∷ erase k m

  -- The loop `if (p(*it)) it = m.erase(it); else ++it;`.
  unfoldable pub erase_if : (K × V → Bool) → Map K V → Map K V
  erase_if p [] = []
  erase_if p (e ∷ m) = if p e then erase_if p m else e ∷ erase_if p m

  pub find-assign :
      (j k : K) (v : V) (m : Map K V)
      → find j (assign k v m) ≡ (if key.same k j then some v else find j m)
  unfolding find assign
  find-assign j k v [] = refl
  find-assign j k v ((i, w) ∷ m) =
      ground (arith, find-assign j k v m, key.same_iff i k, key.same_iff i j, key.same_iff k j)

  pub find-erase :
      (j k : K) (m : Map K V) → find j (erase k m) ≡ (if key.same k j then none else find j m)
  unfolding find erase
  find-erase j k [] = ground arith
  find-erase j k ((i, w) ∷ m) =
      ground (arith, find-erase j k m, key.same_iff i k, key.same_iff i j, key.same_iff k j)

  -- All keys come after a given one, and the keys ascend, each once.
  abbrev pub Above : K → Map K V → Type 0
  Above i [] = Unit
  Above i ((k, v) ∷ m) = (key.before i k ≡ true) × Above i m

  abbrev pub IsSorted : Map K V → Type 0
  IsSorted [] = Unit
  IsSorted ((k, v) ∷ m) = Above k m × IsSorted m

  pub Above-mono : (i j : K) (m : Map K V) → key.before i j ≡ true → Above j m → Above i m
  Above-mono i j [] h a = tt
  Above-mono i j ((k, v) ∷ m) h a = (key.before_trans i j k h a.0, Above-mono i j m h a.1)

  pub find_below : (k : K) (m : Map K V) → Above k m → find k m ≡ none
  unfolding find
  find_below k [] a = refl
  find_below k ((j, w) ∷ m) a =
      ground (arith, find_below k m a.1, key.same_iff j k, key.before_irrefl k)

  assign-Above :
      (i k : K) (v : V) (m : Map K V) → key.before i k ≡ true → Above i m → Above i (assign k v m)
  unfolding assign
  assign-Above i k v [] h a = (h, tt)
  assign-Above i k v ((j, w) ∷ m) h a = ground (arith, assign-Above i k v m)

  pub assign-IsSorted : (k : K) (v : V) (m : Map K V) → IsSorted m → IsSorted (assign k v m)
  unfolding assign
  assign-IsSorted k v [] s = (tt, tt)
  assign-IsSorted k v ((j, w) ∷ m) s = ground (
    arith,
    assign-IsSorted k v m s.1,
    assign-Above j k v m,
    Above-mono k j m,
    key.before_total k j,
    key.same_iff j k,
    key.same_iff k j,
  )

  erase-Above : (i k : K) (m : Map K V) → Above i m → Above i (erase k m)
  unfolding erase
  erase-Above i k [] a = tt
  erase-Above i k ((j, w) ∷ m) a = ground (arith, erase-Above i k m a.1)

  pub erase-IsSorted : (k : K) (m : Map K V) → IsSorted m → IsSorted (erase k m)
  unfolding erase
  erase-IsSorted k [] s = tt
  erase-IsSorted k ((j, w) ∷ m) s = ground (arith, erase-IsSorted k m s.1, erase-Above j k m s.0)

  erase_if-Above : (p : K × V → Bool) (i : K) (m : Map K V) → Above i m → Above i (erase_if p m)
  unfolding erase_if
  erase_if-Above p i [] a = tt
  erase_if-Above p i ((j, w) ∷ m) a = ground (arith, erase_if-Above p i m a.1)

  pub erase_if-IsSorted : (p : K × V → Bool) (m : Map K V) → IsSorted m → IsSorted (erase_if p m)
  unfolding erase_if
  erase_if-IsSorted p [] s = tt
  erase_if-IsSorted p ((j, w) ∷ m) s =
      ground (arith, erase_if-IsSorted p m s.1, erase_if-Above p j m s.0)

  -- An entry is kept by a sweep if it fails the test, and is gone if it passes.
  pub find-erase_if-none :
      (p : K × V → Bool) (k : K) (m : Map K V) → find k m ≡ none → find k (erase_if p m) ≡ none
  unfolding find erase_if
  find-erase_if-none p k [] h = refl
  find-erase_if-none p k ((j, w) ∷ m) h = ground (arith, find-erase_if-none p k m)

  pub find-erase_if :
      (p : K × V → Bool) (k : K) (v : V) (m : Map K V)
      → IsSorted m
      → find k m ≡ some v
      → find k (erase_if p m) ≡ (if p (k, v) then none else some v)
  unfolding find erase_if
  find-erase_if p k v [] u h = cc
  find-erase_if p k v ((j, w) ∷ m) u h = ground (
    arith,
    find-erase_if p k v m u.1,
    find-erase_if-none p j m,
    find_below j m u.0,
    key.same_iff j k,
  )
