-- ===== src/IpNegotiator/Tests.antt =====
-- A negotiation on concrete values, in the network 10.0.0.0/8.
use connecttool_qt.Base.{
  ℕ, ◌≡◌, ◌≢◌, ◌⊎◌, refl, List, [], ◌∷◌, true, false, replicate, arith, if◌then◌else◌,
}
use connecttool_qt.Base.Set.{contains}
use connecttool_qt.Base.Key.{nat_key}
use connecttool_qt.Samples.{platform, platform-IsPlatform}
use connecttool_qt.NodeIdentity.Defs.{NodeId, compare, has_priority}
use connecttool_qt.IpNegotiator.State.{
  IpNegotiator, NegotiationState, ConflictInfo, probing, stable, new,
}
use connecttool_qt.IpNegotiator.Address.{find_next_available_ip}
use connecttool_qt.IpNegotiator.Handlers.{
  initialize, check_timeout, claim, reselect, probe_reply, handle_probe_request,
  handle_address_announce, send_forced_release, should_release,
}
use connecttool_qt.IpNegotiator.Events.{starts, times_out, run}
use connecttool_qt.IpNegotiator.Subnet.{IsSubnetMask}
use connecttool_qt.IpNegotiator.Search.{find_next_available_ip_free}
use connecttool_qt.IpNegotiator.Valid.{Keeps, IsValid}
use connecttool_qt.IpNegotiator.Invariant.{run-Keeps, initialize-IsValid}
use connecttool_qt.IpNegotiator.Claim.{
  check_timeout_lem, check_timeout-AllStale, outranks_all, live, senders,
}
use connecttool_qt.IpNegotiator.Contention.{
  probing_contention, holding_contention, request_of, announce_of, release_of,
}

abbrev base : ℕ
base = 167772160

abbrev mask : ℕ
mask = 4278190080

mask-IsSubnetMask : IsSubnetMask 24 mask
mask-IsSubnetMask = record { two = omega arith; fits = omega arith; ones = refl }

abbrev fresh : IpNegotiator
fresh = initialize platform 7 base mask new

fresh-IsValid : IsValid 24 fresh
fresh-IsValid = initialize-IsValid platform 24 7 base mask (omega arith) mask-IsSubnetMask

run-Keeps_example :
    Keeps 24 fresh.base_ip fresh.subnet_mask (run platform fresh (starts 0 ∷ times_out 600 ∷ []))
run-Keeps_example = run-Keeps platform 24 fresh (starts 0 ∷ times_out 600 ∷ []) fresh-IsValid

find_next_available_ip_free_example :
    contains (find_next_available_ip base mask (167772161 ∷ []) 167772161) (167772161 ∷ []) ≡ false
find_next_available_ip_free_example =
    find_next_available_ip_free base mask (167772161 ∷ []) 167772161 2 (omega arith) (omega arith)
      (omega arith) (unfold contains in refl)

-- A node ID with a given first byte.
abbrev id_of : ℕ → NodeId
id_of n = n ∷ replicate 31 0

-- A node in a state, with the first byte of its ID, an address and conflicts.
abbrev node : NegotiationState → ℕ → ℕ → List ConflictInfo → IpNegotiator
node state first ip conflicts = record {
  local_node_id = id_of first;
  local_steam_id = first;
  local_ip = ip;
  base_ip = base;
  subnet_mask = mask;
  state = state;
  candidate_ip = ip;
  probe_offset = 0;
  probe_start_time = 0;
  collected_conflicts = conflicts;
  used_ips = [];
  send_callback = true;
  broadcast_callback = true;
  success_callback = true;
}

abbrev rival : ℕ → ConflictInfo
rival heartbeat = record { node_id = id_of 3; last_heartbeat_ms = heartbeat; sender_steam_id = 3 }

abbrev contested : IpNegotiator
contested = node probing 5 167772162 (rival 200000 ∷ [])

check_timeout_lem_example : check_timeout platform 300000 contested ≡ (
    if outranks_all contested.local_node_id (live 300000 contested.collected_conflicts)
    then claim platform
        (record contested { collected_conflicts = [] })
        (senders (live 300000 contested.collected_conflicts))
    else reselect platform 300000 (record contested { collected_conflicts = [] }))
check_timeout_lem_example = check_timeout_lem platform 300000 contested refl (omega arith)

-- A rival that outranks us, but answered with the clock of a machine that has just started.
abbrev outranked : IpNegotiator
outranked = node probing 1 167772162 (rival 100000 ∷ [])

check_timeout-AllStale_example :
    check_timeout platform 300000 outranked
    ≡ claim platform (record outranked { collected_conflicts = [] }) []
check_timeout-AllStale_example =
    check_timeout-AllStale platform 300000 outranked refl (omega arith)
      ((omega arith, omega arith), tt)

abbrev left : NegotiationState → IpNegotiator
left state = node state 5 167772162 []

abbrev right : NegotiationState → IpNegotiator
right state = node state 4 167772162 []

differ : id_of 5 ≢ id_of 4
differ h = ground arith

left_wins : has_priority (id_of 5) (id_of 4) ≡ true
unfolding has_priority compare
left_wins = refl

probing_contention_example :
    ((handle_probe_request platform 9
          (left probing)
          (request_of platform platform-IsPlatform (right probing))
          4
        ≡ (left probing, probe_reply platform 9 (left probing) 167772162 4))
      × (handle_probe_request platform 9
            (right probing)
            (request_of platform platform-IsPlatform (left probing))
            5
          ≡ reselect platform 9 (right probing)))
    ⊎ ((handle_probe_request platform 9
            (left probing)
            (request_of platform platform-IsPlatform (right probing))
            4
          ≡ reselect platform 9 (left probing))
        × (handle_probe_request platform 9
              (right probing)
              (request_of platform platform-IsPlatform (left probing))
              5
            ≡ (right probing, probe_reply platform 9 (right probing) 167772162 5)))
probing_contention_example =
    probing_contention platform platform-IsPlatform 9 (left probing) (right probing) 5 4 refl refl
      refl (omega arith) refl differ

holding_contention_example :
    (handle_address_announce platform 9
        (left stable)
        (announce_of platform platform-IsPlatform (right stable))
        4
      ≡ (left stable, send_forced_release platform (left stable) 167772162 4))
    × (handle_address_announce platform 9
          (right stable)
          (announce_of platform platform-IsPlatform (left stable))
          5
        ≡ reselect platform 9 (right stable))
    × (should_release platform
          (right stable)
          (release_of platform platform-IsPlatform (left stable) 167772162)
        ≡ true)
    × (should_release platform
          (left stable)
          (release_of platform platform-IsPlatform (right stable) 167772162)
        ≡ false)
holding_contention_example =
    holding_contention platform platform-IsPlatform 9 (left stable) (right stable) 5 4 refl refl
      refl (omega arith) refl left_wins
