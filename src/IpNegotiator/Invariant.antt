-- ===== src/IpNegotiator/Invariant.antt =====
-- Whatever happens, a negotiator that probes or holds an address does so in its subnet.
use connecttool_qt.Base.{
  ℕ, ◌<◌, ◌^◌, ◌≡◌, refl, ◌∙◌, List, [], ◌∷◌, ◌++◌, ◌&&◌, arith, All-append, Bool-cases, if_cases,
  inl, inr, if◌then◌else◌, ◌==◌, not,
}
use connecttool_qt.Base.Word.{add32}
use connecttool_qt.Platform.{Platform}
use connecttool_qt.Base.Int.{pos, ◌-ℤ◌, ltb_ℤ}
use connecttool_qt.NodeIdentity.Defs.{has_priority}
use connecttool_qt.Protocol.Messages.{
  probe_timeout_ms, ProbeRequestPayload, ProbeResponsePayload, AddressAnnouncePayload,
  ForcedReleasePayload,
}
use connecttool_qt.IpNegotiator.State.{
  new, IpNegotiator, ConflictInfo, idle, Action, is_probing, is_stable,
}
use connecttool_qt.IpNegotiator.Handlers.{
  initialize, reset, mark_ip_used, mark_ip_unused, reselect, claim, send_forced_release,
  probe_reply, should_release, check_timeout, arbitrate, handle_probe_request,
  handle_probe_response, handle_address_announce, handle_forced_release,
}
use connecttool_qt.IpNegotiator.Events.{
  Event, starts, times_out, requests, responds, announces, releases, uses, frees, resets, step, run,
}
use connecttool_qt.IpNegotiator.Subnet.{IsSubnetMask}
use connecttool_qt.IpNegotiator.Valid.{
  IsValid, Reports, move_subnet, Keeps, start_negotiation-Keeps, reselect-Keeps, claim-Keeps,
}

module _ (p : Platform) (k : ℕ) where
  unchanged-Keeps : (s : IpNegotiator) → IsValid k s → Keeps k s.base_ip s.subnet_mask (s, [])
  unchanged-Keeps s v = record { valid = v; same_base = refl; same_mask = refl; reports = tt }

  cleared-IsValid :
      {s : IpNegotiator} → IsValid k s → IsValid k (record s { collected_conflicts = [] })
  cleared-IsValid v = record {
    word = v.word;
    mask = v.mask;
    candidate = v.candidate;
    held = v.held;
  }

  check_timeout-Keeps :
      (now : ℕ) (s : IpNegotiator)
      → IsValid k s
      → Keeps k s.base_ip s.subnet_mask (check_timeout p now s)
  unfolding check_timeout
  check_timeout-Keeps now s v =
      let cleared : IpNegotiator = record s { collected_conflicts = [] } in
      let decision = arbitrate now s.local_node_id s.collected_conflicts [] in
      let early = ltb_ℤ (pos now -ℤ pos s.probe_start_time) (pos probe_timeout_ms) in
      let verdict = if decision.0 then claim p cleared decision.1 else reselect p now cleared in
      if_cases (Keeps k s.base_ip s.subnet_mask) (not (is_probing s.state))
        (λ _. unchanged-Keeps s v)
        λ probes.
          if_cases (Keeps k s.base_ip s.subnet_mask) early {y = verdict} (λ _. unchanged-Keeps s v)
            λ _.
              if_cases (Keeps k s.base_ip s.subnet_mask) decision.0
                (λ _. claim-Keeps p k cleared decision.1 (cleared-IsValid v) (ground arith))
                (λ _. reselect-Keeps p k now cleared v.word v.mask)

  handle_probe_request-Keeps :
      (now : ℕ) (s : IpNegotiator) (r : ProbeRequestPayload) (sender : ℕ)
      → IsValid k s
      → Keeps k s.base_ip s.subnet_mask (handle_probe_request p now s r sender)
  unfolding handle_probe_request probe_reply
  handle_probe_request-Keeps now s r sender v =
      let ours = p.ntohl r.ip_address == s.candidate_ip in
      let answer : IpNegotiator × List Action =
        (s, probe_reply p now s (p.ntohl r.ip_address) sender) in
      let contend = if has_priority s.local_node_id r.node_id then answer else reselect p now s in
      if_cases (Keeps k s.base_ip s.subnet_mask)
        (is_stable s.state && p.ntohl r.ip_address == s.local_ip)
        {y = if is_probing s.state && ours then contend else (s, [])} (λ _. reply)
        λ _.
          if_cases (Keeps k s.base_ip s.subnet_mask) (is_probing s.state && ours) {x = contend}
            (λ _.
              if_cases (Keeps k s.base_ip s.subnet_mask) (has_priority s.local_node_id r.node_id)
                {x = answer} (λ _. reply) (λ _. reselect-Keeps p k now s v.word v.mask))
            (λ _. unchanged-Keeps s v)
    where
      reply : Keeps k s.base_ip s.subnet_mask (s, probe_reply p now s (p.ntohl r.ip_address) sender)
      reply = record { valid = v; same_base = refl; same_mask = refl; reports = ground arith }

  handle_address_announce-Keeps :
      (now : ℕ) (s : IpNegotiator) (r : AddressAnnouncePayload) (peer : ℕ)
      → IsValid k s
      → Keeps k s.base_ip s.subnet_mask (handle_address_announce p now s r peer)
  unfolding handle_address_announce mark_ip_used send_forced_release
  handle_address_announce-Keeps now s r peer v =
      let announced = p.ntohl r.ip_address in
      let lost = not (has_priority s.local_node_id r.node_id) in
      let kept : IpNegotiator × List Action = (s, send_forced_release p s announced peer) in
      if_cases (Keeps k s.base_ip s.subnet_mask) (announced == s.local_ip && is_stable s.state)
        {x = if lost then reselect p now s else kept}
        (λ _.
          if_cases (Keeps k s.base_ip s.subnet_mask) lost {y = kept}
            (λ _. reselect-Keeps p k now s v.word v.mask)
            (λ _. record { valid = v; same_base = refl; same_mask = refl; reports = ground arith }))
        (λ _. record { valid = used; same_base = refl; same_mask = refl; reports = tt })
    where
      used : IsValid k (mark_ip_used (p.ntohl r.ip_address) s)
      used = record { word = v.word; mask = v.mask; candidate = v.candidate; held = v.held }

  handle_forced_release-Keeps :
      (now : ℕ) (s : IpNegotiator) (r : ForcedReleasePayload)
      → IsValid k s
      → Keeps k s.base_ip s.subnet_mask (handle_forced_release p now s r)
  unfolding handle_forced_release
  handle_forced_release-Keeps now s r v = elim (Bool-cases (should_release p s r)) [
    | inl e ↦ rw e (
        start_negotiation-Keeps p k now
          (record s { probe_offset = add32 s.probe_offset 1; state = idle }) v.word v.mask)
    | inr e ↦ rw e (unchanged-Keeps s v)
  ]

  handle_probe_response-Keeps :
      (s : IpNegotiator) (r : ProbeResponsePayload) (sender : ℕ)
      → IsValid k s
      → Keeps k s.base_ip s.subnet_mask (handle_probe_response p s r sender, [])
  unfolding handle_probe_response
  handle_probe_response-Keeps s r sender v =
      let P = λ (t : IpNegotiator). Keeps k s.base_ip s.subnet_mask (t, []) in
      let info : ConflictInfo = record {
        node_id = r.node_id;
        last_heartbeat_ms = r.last_heartbeat_ms;
        sender_steam_id = sender;
      } in
      let added = record s { collected_conflicts = s.collected_conflicts ++ info ∷ [] } in
      let other = not (p.ntohl r.ip_address == s.candidate_ip) in
      if_cases P (not (is_probing s.state)) {y = if other then s else added}
        (λ _. unchanged-Keeps s v)
        λ _.
          if_cases P other (λ _. unchanged-Keeps s v)
            λ _. record {
              valid = record {
                word = v.word;
                mask = v.mask;
                candidate = v.candidate;
                held = v.held;
              };
              same_base = refl;
              same_mask = refl;
              reports = tt;
            }

  reset-IsValid : {s : IpNegotiator} → IsValid k s → IsValid k (reset s)
  unfolding reset is_probing is_stable
  reset-IsValid v = record { word = v.word; mask = v.mask; candidate = λ e. cc; held = λ e. cc }

  used-IsValid :
      {s : IpNegotiator} (ips : List ℕ) → IsValid k s → IsValid k (record s { used_ips = ips })
  used-IsValid ips v = record {
    word = v.word;
    mask = v.mask;
    candidate = v.candidate;
    held = v.held;
  }

  quiet-Keeps :
      (s t : IpNegotiator)
      → IsValid k t
      → t.base_ip ≡ s.base_ip
      → t.subnet_mask ≡ s.subnet_mask
      → Keeps k s.base_ip s.subnet_mask (t, [])
  quiet-Keeps s t v b m = record { valid = v; same_base = b; same_mask = m; reports = tt }

  -- Every event keeps the state valid and the subnet as it is, and what it reports to the bridge
  -- as won is a host address of the subnet.
  pub step-Keeps :
      (s : IpNegotiator) (e : Event) → IsValid k s → Keeps k s.base_ip s.subnet_mask (step p s e)
  unfolding step mark_ip_used mark_ip_unused reset
  step-Keeps s (starts now) v = start_negotiation-Keeps p k now s v.word v.mask
  step-Keeps s (times_out now) v = check_timeout-Keeps now s v
  step-Keeps s (requests now r sender) v = handle_probe_request-Keeps now s r sender v
  step-Keeps s (responds r sender) v = handle_probe_response-Keeps s r sender v
  step-Keeps s (announces now r peer) v = handle_address_announce-Keeps now s r peer v
  step-Keeps s (releases now r) v = handle_forced_release-Keeps now s r v
  step-Keeps s (uses ip) v = quiet-Keeps s (mark_ip_used ip s) (used-IsValid _ v) refl refl
  step-Keeps s (frees ip) v = quiet-Keeps s (mark_ip_unused ip s) (used-IsValid _ v) refl refl
  step-Keeps s resets v = quiet-Keeps s (reset s) (reset-IsValid v) refl refl

  -- From a valid state, a negotiator stays valid after every sequence of events in any order: it
  -- keeps its network, a candidate is a host address of the subnet while it probes or holds one,
  -- the address it holds is its candidate, and every address it reports to the bridge is a host
  -- address of the subnet.
  pub run-Keeps :
      (s : IpNegotiator) (es : List Event)
      → IsValid k s
      → Keeps k s.base_ip s.subnet_mask (run p s es)
  unfolding run
  run-Keeps s [] v = unchanged-Keeps s v
  run-Keeps s (e ∷ es) v =
      let first = step-Keeps s e v in
      let rest = run-Keeps (step p s e).0 es first.valid in
      record {
        valid = rest.valid;
        same_base = rest.same_base ∙ first.same_base;
        same_mask = rest.same_mask ∙ first.same_mask;
        reports =
            All-append (Reports s.base_ip s.subnet_mask) (step p s e).1 (run p (step p s e).0 es).1
              first.reports
              (move_subnet (run p (step p s e).0 es).1 first.same_base first.same_mask
                rest.reports);
      }

  -- A negotiator that was set up for a subnet starts in a valid state.
  pub initialize-IsValid :
      (steam_id base mask : ℕ)
      → base < 2 ^ 32
      → IsSubnetMask k mask
      → IsValid k (initialize p steam_id base mask new)
  unfolding initialize new is_probing is_stable
  initialize-IsValid steam_id base mask w m = record {
    word = w;
    mask = m;
    candidate = λ e. cc;
    held = λ e. cc;
  }
