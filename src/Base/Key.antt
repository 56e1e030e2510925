-- ===== src/Base/Key.antt =====
-- What a standard container asks of its keys: an order for std::map, and equality.
use mathlib.Core.Path.{◌≡◌, refl}
use mathlib.Core.Logic.{◌↔◌}
use mathlib.Core.Bool.{Bool, true, false, ◌&&◌}
use mathlib.Core.List.{List, [], ◌∷◌}
use native.Mathlib.Omega.{arith}
use Prim.Native.Nat.{ℕ}
use connecttool_qt.Base.Tests.{ltb, ◌==◌ as nat_same, ==_iff, ltb_irrefl, if◌then◌else◌}

pub record Key {ℓ} (K : Type ℓ) : Type ℓ where
  pub before : K → K → Bool
  pub same : K → K → Bool
  pub same_iff : (a b : K) → (same a b ≡ true) ↔ (a ≡ b)
  pub before_irrefl : (a : K) → before a a ≡ false
  pub before_trans : (a b c : K) → before a b ≡ true → before b c ≡ true → before a c ≡ true
  pub before_total : (a b : K) → same a b ≡ false → before a b ≡ false → before b a ≡ true

module _ {ℓ} {K : Type ℓ} ⦃key : Key K⦄ where
  pub same_refl : (a : K) → key.same a a ≡ true
  same_refl a = (key.same_iff a a).1 refl

pub ltb_trans : (a b c : ℕ) → ltb a b ≡ true → ltb b c ≡ true → ltb a c ≡ true
ltb_trans a b c h k = ground arith

pub ltb_total : (a b : ℕ) → nat_same a b ≡ false → ltb a b ≡ false → ltb b a ≡ true
ltb_total a b h k = ground arith

instance abbrev pub nat_key : Key ℕ
nat_key = record {
  before = ltb;
  same = nat_same;
  same_iff = ==_iff;
  before_irrefl = ltb_irrefl;
  before_trans = ltb_trans;
  before_total = ltb_total;
}

-- Texts and byte arrays compare lexicographically.
abbrev pub lex_before : List ℕ → List ℕ → Bool
lex_before xs [] = false
lex_before [] (y ∷ ys) = true
lex_before (x ∷ xs) (y ∷ ys) =
    let rest = lex_before xs ys in if ltb x y then true else if ltb y x then false else rest

abbrev pub list_same : List ℕ → List ℕ → Bool
list_same [] [] = true
list_same [] (y ∷ ys) = false
list_same (x ∷ xs) [] = false
list_same (x ∷ xs) (y ∷ ys) = nat_same x y && list_same xs ys

list_same→eq : (xs ys : List ℕ) → list_same xs ys ≡ true → xs ≡ ys
list_same→eq [] [] h = refl
list_same→eq [] (y ∷ ys) h = cc
list_same→eq (x ∷ xs) [] h = cc
list_same→eq (x ∷ xs) (y ∷ ys) h = ground (arith, list_same→eq xs ys)

list_same_self : (xs : List ℕ) → list_same xs xs ≡ true
list_same_self [] = refl
list_same_self (x ∷ xs) = ground (arith, list_same_self xs)

pub lex_before_irrefl : (xs : List ℕ) → lex_before xs xs ≡ false
lex_before_irrefl [] = refl
lex_before_irrefl (x ∷ xs) = ground (arith, lex_before_irrefl xs)

pub lex_before_trans :
    (xs ys zs : List ℕ)
    → lex_before xs ys ≡ true
    → lex_before ys zs ≡ true
    → lex_before xs zs ≡ true
lex_before_trans xs ys [] h k = cc
lex_before_trans xs [] (z ∷ zs) h k = cc
lex_before_trans [] (y ∷ ys) (z ∷ zs) h k = refl
lex_before_trans (x ∷ xs) (y ∷ ys) (z ∷ zs) h k = ground (arith, lex_before_trans xs ys zs)

pub lex_before_total :
    (xs ys : List ℕ) → list_same xs ys ≡ false → lex_before xs ys ≡ false → lex_before ys xs ≡ true
lex_before_total [] [] h k = cc
lex_before_total [] (y ∷ ys) h k = cc
lex_before_total (x ∷ xs) [] h k = refl
lex_before_total (x ∷ xs) (y ∷ ys) h k = ground (arith, lex_before_total xs ys)

pub list_same_iff : (xs ys : List ℕ) → (list_same xs ys ≡ true) ↔ (xs ≡ ys)
list_same_iff xs ys = (list_same→eq xs ys, λ e. rw e (list_same_self ys))

instance abbrev pub list_key : Key (List ℕ)
list_key = record {
  before = lex_before;
  same = list_same;
  same_iff = list_same_iff;
  before_irrefl = lex_before_irrefl;
  before_trans = lex_before_trans;
  before_total = lex_before_total;
}
