-- ===== src/Connections/Transport.antt =====
-- The relay's estimated ping, and the choice between direct and relayed transport.
use connecttool_qt.Base.{
  ℕ, ◌+◌, ◌*◌, ◌-◌, ◌^◌, List, [], ◌∷◌, Bool, true, false, ◌&&◌, ◌||◌, not, Option, none, some,
  if◌then◌else◌, ltb, ◌==◌,
}
use connecttool_qt.Base.Int.{ℤ, pos, negsuc, leb_ℤ, ltb_ℤ, signed32}
use connecttool_qt.Steam.{sdr_penalty, ice_penalty}
use connecttool_qt.Connections.State.{Call, configure}

-- std::numeric_limits<int>::max()
abbrev pub int_max : ℕ
int_max = 2 ^ 31 - 1

-- The loop over the data centers: the least ping that is not negative.
unfoldable pub best_ping : ℕ → List ℤ → ℕ
best_ping best [] = best
best_ping best (pos ping ∷ pings) = best_ping (if ltb ping best then ping else best) pings
best_ping best (negsuc n ∷ pings) = best_ping best pings

-- The pings are those of the data centers that Steam lists. The product wraps around, though the
-- language does not define what happens beyond the greatest int.
unfoldable pub estimate_relay_ping_ms : Bool → List ℤ → ℤ
unfolding best_ping
estimate_relay_ping_ms has_utils pings =
    let best = best_ping int_max pings in
    if not has_utils then negsuc 0 else if best == int_max then negsuc 0 else signed32 (best * 2)

-- A ping is measured unless it is negative: none stands for that.
abbrev is_known : Option ℕ → Bool
is_known none = false
is_known (some n) = true

-- `direct <= relay + 10` and `relay + 15 < direct`, if both are known.
abbrev is_competitive : Option ℕ → Option ℕ → Bool
is_competitive (some direct) (some relay) = leb_ℤ (pos direct) (signed32 (relay + 10))
is_competitive _ _ = false

abbrev is_worse : Option ℕ → Option ℕ → Bool
is_worse (some direct) (some relay) = ltb_ℤ (signed32 (relay + 15)) (pos direct)
is_worse _ _ = false

-- The penalties of the relay and of ICE.
unfoldable pub penalties : Option ℕ → Option ℕ → ℕ × ℕ
penalties direct relay =
    if is_known direct && (not (is_known relay) || is_competitive direct relay)
    then (150, 0)
    else if is_known relay && (not (is_known direct) || is_worse direct relay)
    then (0, 200)
    else (0, 0)

unfoldable pub apply_transport_preference : Bool → Option ℕ → Option ℕ → List Call
unfolding penalties
apply_transport_preference has_utils direct relay =
    let (sdr, ice) = penalties direct relay in
    if has_utils then configure (sdr_penalty sdr) ∷ configure (ice_penalty ice) ∷ [] else []
