-- ===== src/Multiplex/Tests.antt =====
-- The multiplexer on a link that takes every packet.
use connecttool_qt.Base.{
  ℕ, ◌+◌, ◌%◌, ◌==◌, if◌then◌else◌, ◌≡◌, refl, [], ◌∷◌, ◌++◌, map, true, false, some, replicate,
  arith,
}
use connecttool_qt.Base.Map.{find}
use connecttool_qt.Base.Set.{contains}
use connecttool_qt.Base.Key.{list_key}
use connecttool_qt.Multiplex.Packet.{ClientId, build_packet, payloads}
use connecttool_qt.Multiplex.State.{Steam, Manager, accepted, limit_exceeded, new}
use connecttool_qt.Multiplex.Transport.{
  BackoffInRange, is_send_saturated, check_status, send_now, send_unless_saturated, try_send_packet,
  try_send_packet_backoff,
}
use connecttool_qt.Multiplex.Queue.Flush.{queue_of, push_pending, flush_pending_packets}
use connecttool_qt.Multiplex.Queue.Invariant.{IsQueued, push_pending-IsQueued}
use connecttool_qt.Multiplex.Queue.Drain.{Returns, flush_pending_packets-Returns}
use connecttool_qt.Multiplex.Recorded.{recorded, taken}
use connecttool_qt.Multiplex.Manager.{send_tunnel_packet}
use connecttool_qt.Multiplex.Send.{taken-send_tunnel_packet, send_tunnel_packet_overtakes}

-- The world counts the packets; the clock stands still.
abbrev open_link : Steam
open_link = record {
  World = ℕ;
  status = λ w. (some 0, w);
  send_message = λ packet w. (accepted, w);
  clock = λ w. (w, w);
}

-- A link that takes nothing.
abbrev full_link : Steam
full_link = record {
  World = ℕ;
  status = λ w. (some 0, w);
  send_message = λ packet w. (limit_exceeded, w);
  clock = λ w. (w, w);
}

abbrev id : ClientId
id = b'a' ∷ b'b' ∷ b'c' ∷ b'd' ∷ b'e' ∷ b'f' ∷ []

new-IsQueued : IsQueued new
unfolding new contains find
new-IsQueued = record {
  sorted = tt;
  agree = λ j. refl;
  waiting = λ j h. ground arith;
  distinct = tt;
}

abbrev waiting : Manager
waiting = push_pending id (1 ∷ []) new

waiting-IsQueued : IsQueued waiting
waiting-IsQueued = push_pending-IsQueued id (1 ∷ []) new new-IsQueued

flush_pending_packets-Returns_example :
    Returns open_link (flush_pending_packets open_link waiting 9)
flush_pending_packets-Returns_example =
    flush_pending_packets-Returns open_link waiting 9 waiting-IsQueued

new_backoff : BackoffInRange new
unfolding new
new_backoff = (omega arith, omega arith)

try_send_packet_backoff_example : BackoffInRange (try_send_packet full_link (1 ∷ []) new 9).1
try_send_packet_backoff_example = try_send_packet_backoff full_link (1 ∷ []) new 9 new_backoff

is_refused : (try_send_packet full_link (1 ∷ []) new 9).0 ≡ false
unfolding try_send_packet send_unless_saturated send_now is_send_saturated check_status new
is_refused = refl

nothing_waits : queue_of id new.pending_packets ≡ []
unfolding new find
nothing_waits = refl

-- A link that takes one packet of two: the world counts the packets.
abbrev odd_link : Steam
odd_link = record {
  World = ℕ;
  status = λ w. (some 0, w);
  send_message = λ packet w. (if w % 2 == 0 then accepted else limit_exceeded, w + 1);
  clock = λ w. (w, w);
}

taken-send_tunnel_packet_example :
    taken (send_tunnel_packet (recorded odd_link) id (replicate 2300 7) 0 new (10, [])).world.1
      ++ queue_of id
          (send_tunnel_packet
            (recorded odd_link)
            id
            (replicate 2300 7)
            0
            new
            (10, [])).manager.pending_packets
    ≡ map (λ part. build_packet id part 0) (payloads (replicate 2300 7) 0)
taken-send_tunnel_packet_example =
    taken-send_tunnel_packet odd_link id (replicate 2300 7) 0 new 10 nothing_waits

is_free : (is_send_saturated open_link waiting 9).0 ≡ false
unfolding is_send_saturated check_status push_pending new find contains
is_free = refl

is_taken :
    (try_send_packet open_link
      (build_packet id [] 1)
      (is_send_saturated open_link waiting 9).1
      (is_send_saturated open_link waiting 9).2).0
    ≡ true
unfolding try_send_packet send_unless_saturated send_now is_send_saturated check_status push_pending
    new find build_packet contains
is_taken = refl

send_tunnel_packet_overtakes_example :
    ((send_tunnel_packet open_link id [] 1 waiting 9).passed ≡ (id, build_packet id [] 1) ∷ [])
    × (queue_of id (send_tunnel_packet open_link id [] 1 waiting 9).manager.pending_packets
        ≡ queue_of id waiting.pending_packets)
send_tunnel_packet_overtakes_example =
    send_tunnel_packet_overtakes open_link id waiting 9 is_free is_taken
