-- ===== src/Connections/Estimate.antt =====
-- The estimate of the relay's ping, and the transport that the pings lead to.
use mathlib.Core.Path.{subst}
use connecttool_qt.Base.{
  ℕ, ◌*◌, ◌^◌, ◌<◌, ◌≤◌, ◌≡◌, ◌⊎◌, inl, inr, refl, List, [], ◌∷◌, true, some, All, if◌then◌else◌,
  ltb, ◌==◌, arith, if_cases, sym, ==_iff,
}
use connecttool_qt.Base.Int.{ℤ, pos, negsuc, signed32}
use connecttool_qt.Connections.Transport.{int_max, best_ping, estimate_relay_ping_ms, penalties}

abbrev pub AtLeast : ℕ → ℤ → Type 0
AtLeast n (pos ping) = n ≤ ping
AtLeast n (negsuc k) = Unit

abbrev pub Occurs : ℕ → List ℤ → Type 0
Occurs n [] = ¬ Unit
Occurs n (ping ∷ pings) = (ping ≡ pos n) ⊎ Occurs n pings

best_ping-le : (best : ℕ) (pings : List ℤ) → best_ping best pings ≤ best
unfolding best_ping
best_ping-le best [] = omega arith
best_ping-le best (pos ping ∷ pings) =
    ground (arith, best_ping-le (if ltb ping best then ping else best) pings)
best_ping-le best (negsuc n ∷ pings) = best_ping-le best pings

best_ping-AtLeast : (best : ℕ) (pings : List ℤ) → All (AtLeast (best_ping best pings)) pings
unfolding best_ping
best_ping-AtLeast best [] = tt
best_ping-AtLeast best (pos ping ∷ pings) =
    let next = if ltb ping best then ping else best in
    (ground (arith, best_ping-le next pings), best_ping-AtLeast next pings)
best_ping-AtLeast best (negsuc n ∷ pings) = (tt, best_ping-AtLeast best pings)

best_ping-Occurs :
    (best : ℕ) (pings : List ℤ)
    → (best_ping best pings ≡ best) ⊎ Occurs (best_ping best pings) pings
unfolding best_ping
best_ping-Occurs best [] = inl refl
best_ping-Occurs best (pos ping ∷ pings) =
    ground (arith, best_ping-Occurs (if ltb ping best then ping else best) pings)
best_ping-Occurs best (negsuc n ∷ pings) = ground (arith, best_ping-Occurs best pings)

-- A ping whose double is an int, and one that was not measured.
abbrev pub IsSmall : ℤ → Type 0
IsSmall (pos ping) = ping < 2 ^ 30
IsSmall (negsuc k) = Unit

abbrev pub IsUnknown : ℤ → Type 0
IsUnknown (pos ping) = ⊥
IsUnknown (negsuc k) = Unit

-- What the estimate is to be: twice the least of the pings that are not negative, or else -1.
abbrev pub IsEstimate : List ℤ → ℤ → Type 0
IsEstimate pings (negsuc k) = (k ≡ 0) × All IsUnknown pings
IsEstimate pings (pos r) =
    (least : ℕ) × (r ≡ least * 2) × Occurs least pings × All (AtLeast least) pings

small-IsUnknown :
    (pings : List ℤ) → All IsSmall pings → All (AtLeast int_max) pings → All IsUnknown pings
small-IsUnknown [] s a = tt
small-IsUnknown (pos ping ∷ pings) (s, ss) (a, more) = absurd (omega (arith, s, a))
small-IsUnknown (negsuc k ∷ pings) (s, ss) (a, more) = (tt, small-IsUnknown pings ss more)

small-Occurs : (n : ℕ) (pings : List ℤ) → All IsSmall pings → Occurs n pings → n < 2 ^ 30
small-Occurs n [] s o = absurd (o tt)
small-Occurs n (pos ping ∷ pings) (s, ss) (inl e) = ground arith
small-Occurs n (negsuc k ∷ pings) (s, ss) (inl e) = ground arith
small-Occurs n (ping ∷ pings) (s, ss) (inr o) = small-Occurs n pings ss o

signed32_small : (n : ℕ) → n < 2 ^ 30 → signed32 (n * 2) ≡ pos (n * 2)
signed32_small n h = ground arith

-- If Steam is there and every ping is below 2 ^ 30, so that its double is an int, then the
-- estimate is twice the least ping that is not negative, and -1 only if every ping is negative.
pub estimate_relay_ping_ms-IsEstimate :
    (pings : List ℤ) → All IsSmall pings → IsEstimate pings (estimate_relay_ping_ms true pings)
unfolding estimate_relay_ping_ms
estimate_relay_ping_ms-IsEstimate pings s =
    if_cases (IsEstimate pings) (best_ping int_max pings == int_max) {x = negsuc 0}
      {y = signed32 (best_ping int_max pings * 2)}
      (λ h. (
        refl,
        small-IsUnknown pings s (
            rw (sym ((==_iff (best_ping int_max pings) int_max).0 h))
              (best_ping-AtLeast int_max pings)),
      ))
      (λ h.
        let o : Occurs (best_ping int_max pings) pings =
          ground (arith, best_ping-Occurs int_max pings) in
        subst (IsEstimate pings)
          (sym (
            signed32_small (best_ping int_max pings)
              (small-Occurs (best_ping int_max pings) pings s o)))
          (best_ping int_max pings, refl, o, best_ping-AtLeast int_max pings))

-- With both pings known, a lower direct ping makes the penalty of the relay no smaller and that of
-- ICE no greater.
pub penalties_mono :
    (direct direct' relay : ℕ)
    → direct ≤ direct'
    → ((penalties (some direct') (some relay)).0 ≤ (penalties (some direct) (some relay)).0)
      × ((penalties (some direct) (some relay)).1 ≤ (penalties (some direct') (some relay)).1)
unfolding penalties
penalties_mono direct direct' relay h = (ground arith, ground arith)
