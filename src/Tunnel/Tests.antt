-- ===== src/Tunnel/Tests.antt =====
-- The tunnel on concrete values: a connection 5, a client of the host's local server, and a client
-- of ours.
use connecttool_qt.Base.{
  ℕ, ◌+◌, ◌%◌, ◌==◌, if◌then◌else◌, ◌≡◌, List, [], ◌∷◌, length, true, false, none, some,
}
use connecttool_qt.Multiplex.Packet.{ClientId, build_packet}
use connecttool_qt.Multiplex.State.{accepted, limit_exceeded}
use connecttool_qt.Tunnel.State.{Network, new}
use connecttool_qt.Tunnel.Poll.{Message}
use connecttool_qt.Tunnel.Events.{
  Event, starts, stops, polls, server_starts, server_stops, accepts, reads, flushes, client_reads,
  write_fails, run,
}
use connecttool_qt.Tunnel.Sound.{IsSound, run-IsSound}
use connecttool_qt.Tunnel.Count.{last_count}
use connecttool_qt.Tunnel.Clients.{run_reports}

-- A network that takes one packet of two: the world counts the packets.
abbrev odd_network : Network
odd_network = record {
  World = ℕ;
  status = λ conn w. (some 0, w);
  send_message = λ conn packet w. (if w % 2 == 0 then accepted else limit_exceeded, w + 1);
  clock = λ w. (w, w);
}

abbrev theirs : ClientId
theirs = b'a' ∷ b'b' ∷ b'c' ∷ b'd' ∷ b'e' ∷ b'f' ∷ []

abbrev ours : ClientId
ours = b'u' ∷ b'v' ∷ b'w' ∷ b'x' ∷ b'y' ∷ b'z' ∷ []

abbrev opening : Message
opening = record { packet = build_packet theirs (1 ∷ 2 ∷ []) 0; connected = some 70 }

abbrev unasked : Message
unasked = record { packet = build_packet ours (3 ∷ []) 1; connected = none }

-- What happens: the poll meets a new client, ours comes and sends two bytes, the poll gets nothing
-- and then an invalid connection's answer, the
-- host's client sends a byte, packets are flushed, a write fails, and ours goes.
abbrev events : List Event
events =
    starts true ((5, some (opening ∷ [])) ∷ [])
    ∷ server_starts true
    ∷ accepts 5 71 (some ours)
    ∷ accepts 5 72 none
    ∷ reads true 5 71 ours (some (8 ∷ 9 ∷ []))
    ∷ polls false true ((5, some []) ∷ [])
    ∷ polls false true ((5, none) ∷ (6, some (unasked ∷ [])) ∷ [])
    ∷ client_reads 5 theirs (some (4 ∷ []))
    ∷ flushes false 5
    ∷ write_fails 5 theirs
    ∷ reads true 5 71 ours none
    ∷ flushes true 5
    ∷ polls true true []
    ∷ server_stops
    ∷ stops
    ∷ []

-- Whatever happens to a new tunnel.
run-IsSound_example : IsSound odd_network (run odd_network events (new odd_network 7)).0
run-IsSound_example = run-IsSound odd_network 7 events

run_reports_example :
    last_count 0 (run odd_network events (new odd_network 7)).1
    ≡ length ((run odd_network events (new odd_network 7)).0).clients
run_reports_example = run_reports odd_network 7 events
