-- ===== src/IpNegotiator/Valid.antt =====
-- What a consistent negotiator is, and the parts of its handlers that start or end a negotiation.
use connecttool_qt.Base.{ℕ, ◌<◌, ◌^◌, ◌≡◌, refl, List, [], ◌∷◌, true, ◌||◌, arith, All, All-append}
use connecttool_qt.Base.Word.{add32}
use connecttool_qt.Platform.{Platform}
use connecttool_qt.IpNegotiator.State.{
  IpNegotiator, stable, Action, send, broadcast, success, is_probing, is_stable,
}
use connecttool_qt.IpNegotiator.Handlers.{
  start_negotiation, started, reselect, claim, release_all, announce_claim, send_forced_release,
  send_address_announce, send_probe_request,
}
use connecttool_qt.IpNegotiator.Subnet.{IsSubnetMask, IsHost, find_next_available_ip-IsHost}

-- The state is consistent with a subnet of `k` host bits: an address that is probed or held is a
-- host address of the subnet, and the held address is the last candidate.
pub record IsValid (k : ℕ) (s : IpNegotiator) : Type 0 where
  pub word : s.base_ip < 2 ^ 32
  pub mask : IsSubnetMask k s.subnet_mask
  pub candidate :
      (is_probing s.state || is_stable s.state) ≡ true
      → IsHost s.base_ip s.subnet_mask s.candidate_ip
  pub held : is_stable s.state ≡ true → s.local_ip ≡ s.candidate_ip

-- An address that is reported as won is a host address of the subnet.
abbrev pub Reports : ℕ → ℕ → Action → Type 0
Reports base mask (success ip id) = IsHost base mask ip
Reports base mask (send t b to r) = Unit {0}
Reports base mask (broadcast t b r) = Unit {0}

pub move_subnet :
    {b b' m m' : ℕ} (out : List Action)
    → b ≡ b'
    → m ≡ m'
    → All (Reports b m) out
    → All (Reports b' m') out
move_subnet out e f h = rw (← e, ← f) h

-- What a call leaves behind: a valid state of the same subnet, and only valid reports.
pub record Keeps (k base mask : ℕ) (r : IpNegotiator × List Action) : Type 0 where
  pub valid : IsValid k r.0
  pub same_base : r.0.base_ip ≡ base
  pub same_mask : r.0.subnet_mask ≡ mask
  pub reports : All (Reports base mask) r.1

module _ (p : Platform) (k : ℕ) where
  pub started-IsValid :
      (now : ℕ) (s : IpNegotiator)
      → s.base_ip < 2 ^ 32
      → IsSubnetMask k s.subnet_mask
      → IsValid k (started p now s)
  unfolding started is_probing is_stable
  started-IsValid now s w m = record {
    word = w;
    mask = m;
    candidate = λ _. find_next_available_ip-IsHost k s.subnet_mask m s.base_ip _ s.used_ips w;
    held = λ e. cc;
  }

  -- Messages to peers report nothing to the bridge.
  module _ (base mask : ℕ) where
    pub send_probe_request-Reports :
        (s : IpNegotiator) → All (Reports base mask) (send_probe_request p s)
    unfolding send_probe_request
    send_probe_request-Reports s = ground arith

    pub release_all-Reports :
        (s : IpNegotiator) (nodes : List ℕ) → All (Reports base mask) (release_all p s nodes)
    unfolding release_all send_forced_release
    release_all-Reports s [] = tt
    release_all-Reports s (n ∷ ns) =
        All-append (Reports base mask) (send_forced_release p s s.candidate_ip n)
          (release_all p s ns) (ground arith) (release_all-Reports s ns)

    pub claim-Reports :
        (s : IpNegotiator) (nodes : List ℕ)
        → IsHost base mask s.candidate_ip
        → All (Reports base mask) (claim p s nodes).1
    unfolding claim announce_claim send_address_announce
    claim-Reports s nodes h =
        All-append (Reports base mask) (release_all p s nodes)
          (announce_claim p (record s { state = stable; local_ip = s.candidate_ip }))
          (release_all-Reports s nodes) (ground arith)

  pub start_negotiation-Keeps :
      (now : ℕ) (s : IpNegotiator)
      → s.base_ip < 2 ^ 32
      → IsSubnetMask k s.subnet_mask
      → Keeps k s.base_ip s.subnet_mask (start_negotiation p now s)
  unfolding start_negotiation started
  start_negotiation-Keeps now s w m = record {
    valid = started-IsValid now s w m;
    same_base = refl;
    same_mask = refl;
    reports = send_probe_request-Reports s.base_ip s.subnet_mask (started p now s);
  }

  pub reselect-Keeps :
      (now : ℕ) (s : IpNegotiator)
      → s.base_ip < 2 ^ 32
      → IsSubnetMask k s.subnet_mask
      → Keeps k s.base_ip s.subnet_mask (reselect p now s)
  unfolding reselect
  reselect-Keeps now s w m =
      start_negotiation-Keeps now (record s { probe_offset = add32 s.probe_offset 1 }) w m

  pub claim-Keeps :
      (s : IpNegotiator) (nodes : List ℕ)
      → IsValid k s
      → is_probing s.state ≡ true
      → Keeps k s.base_ip s.subnet_mask (claim p s nodes)
  unfolding claim is_stable is_probing
  claim-Keeps s nodes v h =
      let host : IsHost s.base_ip s.subnet_mask s.candidate_ip = v.candidate (rw h) in
      record {
        valid = record { word = v.word; mask = v.mask; candidate = λ _. host; held = λ _. refl };
        same_base = refl;
        same_mask = refl;
        reports = claim-Reports s.base_ip s.subnet_mask s nodes host;
      }
