-- ===== src/IpNegotiator/Events.antt =====
-- The calls that reach a negotiator, as a sequence of events: the bridge's thread reports
-- timeouts, and messages of peers come in between in any order.
use connecttool_qt.Base.{ℕ, List, [], ◌∷◌, ◌++◌}
use connecttool_qt.Platform.{Platform}
use connecttool_qt.Protocol.Messages.{
  ProbeRequestPayload, ProbeResponsePayload, AddressAnnouncePayload, ForcedReleasePayload,
}
use connecttool_qt.IpNegotiator.State.{IpNegotiator, Action}
use connecttool_qt.IpNegotiator.Handlers.{
  reset, mark_ip_used, mark_ip_unused, start_negotiation, check_timeout, handle_probe_request,
  handle_probe_response, handle_address_announce, handle_forced_release,
}

-- Each event that reads the clock has the reading first; a peer's Steam ID comes last.
pub data Event : Type 0 where
  starts : ℕ → Event
  times_out : ℕ → Event
  requests : ℕ → ProbeRequestPayload → ℕ → Event
  responds : ProbeResponsePayload → ℕ → Event
  announces : ℕ → AddressAnnouncePayload → ℕ → Event
  releases : ℕ → ForcedReleasePayload → Event
  uses : ℕ → Event
  frees : ℕ → Event
  resets : Event

module _ (p : Platform) where
  unfoldable pub step : IpNegotiator → Event → IpNegotiator × List Action
  step s (starts now) = start_negotiation p now s
  step s (times_out now) = check_timeout p now s
  step s (requests now r sender) = handle_probe_request p now s r sender
  step s (responds r sender) = (handle_probe_response p s r sender, [])
  step s (announces now a peer) = handle_address_announce p now s a peer
  step s (releases now r) = handle_forced_release p now s r
  step s (uses ip) = (mark_ip_used ip s, [])
  step s (frees ip) = (mark_ip_unused ip s, [])
  step s resets = (reset s, [])

  -- The state after a history, and all the calls of callbacks in it.
  unfoldable pub run : IpNegotiator → List Event → IpNegotiator × List Action
  run s [] = (s, [])
  run s (e ∷ es) = let (s', out) = step s e in let (t, more) = run s' es in (t, out ++ more)
