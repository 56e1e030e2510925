-- ===== src/IpNegotiator/Contention.antt =====
-- Two nodes after the same address: exactly one of them keeps it.
use connecttool_qt.Base.{
  ℕ, ◌<◌, ◌^◌, ◌≡◌, ◌≢◌, sym, ◌⊎◌, inl, inr, true, false, arith, length, Bool-cases, if◌then◌else◌,
}
use connecttool_qt.Platform.{Platform, IsPlatform}
use connecttool_qt.NodeIdentity.Defs.{has_priority}
use connecttool_qt.NodeIdentity.Order.{has_priority_total, has_priority_asymm}
use connecttool_qt.Protocol.Messages.{
  ProbeRequestPayload, AddressAnnouncePayload, ForcedReleasePayload,
}
use connecttool_qt.IpNegotiator.State.{IpNegotiator, probing, stable, is_probing, is_stable}
use connecttool_qt.IpNegotiator.Handlers.{
  reselect, probe_reply, handle_probe_request, handle_address_announce, send_forced_release,
  should_release,
}

module _ (p : Platform) (laws : IsPlatform p) where
  -- The request that a node broadcasts when it starts to probe.
  abbrev pub request_of : IpNegotiator → ProbeRequestPayload
  request_of s = record { ip_address = p.htonl s.candidate_ip; node_id = s.local_node_id }

  probing_outcome :
      (now : ℕ) (a b : IpNegotiator) (peer : ℕ)
      → a.state ≡ probing
      → a.candidate_ip ≡ b.candidate_ip
      → b.candidate_ip < 2 ^ 32
      → handle_probe_request p now a (request_of b) peer ≡ (
          if has_priority a.local_node_id b.local_node_id
          then (a, probe_reply p now a a.candidate_ip peer)
          else reselect p now a)
  unfolding handle_probe_request is_probing is_stable
  probing_outcome now a b peer pa same word = ground (arith, laws.ntohl-htonl b.candidate_ip word)

  -- Two probing nodes with one candidate address below 2 ^ 32 and different IDs of one length, on
  -- the probe request of each other: one of them keeps its state and answers, and the other starts
  -- again with the next offset.
  pub probing_contention :
      (now : ℕ) (a b : IpNegotiator) (a_peer b_peer : ℕ)
      → a.state ≡ probing
      → b.state ≡ probing
      → a.candidate_ip ≡ b.candidate_ip
      → b.candidate_ip < 2 ^ 32
      → length a.local_node_id ≡ length b.local_node_id
      → a.local_node_id ≢ b.local_node_id
      → ((handle_probe_request p now a (request_of b) b_peer
            ≡ (a, probe_reply p now a a.candidate_ip b_peer))
          × (handle_probe_request p now b (request_of a) a_peer ≡ reselect p now b))
        ⊎ ((handle_probe_request p now a (request_of b) b_peer ≡ reselect p now a)
            × (handle_probe_request p now b (request_of a) a_peer
                ≡ (b, probe_reply p now b b.candidate_ip a_peer)))
  probing_contention now a b a_peer b_peer pa pb same word l ne =
      let first = probing_outcome now a b b_peer pa same word in
      let second = probing_outcome now b a a_peer pb (sym same) (omega arith) in
      let total = has_priority_total a.local_node_id b.local_node_id l ne in
      elim (Bool-cases (has_priority b.local_node_id a.local_node_id)) [
        | inl wins ↦ inr (rw (total, wins) at first, rw wins at second)
        | inr loses ↦ inl (rw (total, loses) at first, rw loses at second)
      ]

  -- The forced release that a holder sends against an announcement.
  abbrev pub release_of : IpNegotiator → ℕ → ForcedReleasePayload
  release_of s ip = record { ip_address = p.htonl ip; winner_node_id = s.local_node_id }

  abbrev pub announce_of : IpNegotiator → AddressAnnouncePayload
  announce_of s = record { ip_address = p.htonl s.local_ip; node_id = s.local_node_id }

  -- Two stable nodes that hold one address below 2 ^ 32, the first with priority, on the
  -- announcement of each other: the first keeps its state and orders the second to release, the
  -- second reselects, and by the second's rule for releases that order would make it leave the
  -- address, while the opposite order would not move the first.
  pub holding_contention :
      (now : ℕ) (a b : IpNegotiator) (a_peer b_peer : ℕ)
      → a.state ≡ stable
      → b.state ≡ stable
      → a.local_ip ≡ b.local_ip
      → b.local_ip < 2 ^ 32
      → length a.local_node_id ≡ length b.local_node_id
      → has_priority a.local_node_id b.local_node_id ≡ true
      → (handle_address_announce p now a (announce_of b) b_peer
          ≡ (a, send_forced_release p a a.local_ip b_peer))
        × (handle_address_announce p now b (announce_of a) a_peer ≡ reselect p now b)
        × (should_release p b (release_of a a.local_ip) ≡ true)
        × (should_release p a (release_of b b.local_ip) ≡ false)
  unfolding handle_address_announce should_release is_probing is_stable
  holding_contention now a b a_peer b_peer pa pb same word l wins =
      let asym = has_priority_asymm a.local_node_id b.local_node_id l wins in
      let back = laws.ntohl-htonl b.local_ip word in
      (
        ground (arith, back, wins),
        ground (arith, back, asym),
        ground (arith, back, asym),
        ground (arith, back, wins),
      )
