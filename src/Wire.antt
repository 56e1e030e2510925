-- ===== src/Wire.antt =====
-- Integers as they lie in memory, which memcpy and reinterpret_cast move in and out of buffers:
-- little-endian, as on every host that the program is built for.
use connecttool_qt.Base.{
  ℕ, zero, suc, ◌+◌, ◌*◌, ◌/◌, ◌%◌, ◌^◌, ◌<◌, ◌≡◌, refl, ap, List, [], ◌∷◌, length, take, drop,
  arith, All,
}
use native.Mathlib.Nat.{pow-suc}

-- The low n bytes of x, the lowest first.
unfoldable pub store : ℕ → ℕ → List ℕ
store zero x = []
store (suc n) x = (x % 256) ∷ store n (x / 256)

-- The number whose bytes are given.
unfoldable pub load : List ℕ → ℕ
load [] = 0
load (b ∷ bs) = b + 256 * load bs

-- The field of n bytes at an offset of a packed structure.
abbrev pub field_at : ℕ → ℕ → List ℕ → List ℕ
field_at offset n bytes = take n (drop offset bytes)

pub length-store : (n x : ℕ) → length (store n x) ≡ n
unfolding store
length-store zero x = refl
length-store (suc n) x = ap suc (length-store n (x / 256))

pub load-store : (n x : ℕ) → x < 256 ^ n → load (store n x) ≡ x
unfolding store load
load-store zero x h = omega arith
load-store (suc n) x h = omega (arith, load-store n (x / 256) (omega (arith, pow-suc 256 n)))

pub store_bytes : (n x : ℕ) → All (λ b. b < 256) (store n x)
unfolding store
store_bytes zero x = tt
store_bytes (suc n) x = (omega arith, store_bytes n (x / 256))

pub load-lt : (bs : List ℕ) → All (λ b. b < 256) bs → load bs < 256 ^ length bs
unfolding load
load-lt [] h = omega arith
load-lt (b ∷ bs) h = omega (arith, load-lt bs h.1, pow-suc 256 (length bs))
