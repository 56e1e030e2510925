-- ===== src/Multiplex/Queue/Falls.antt =====
-- Each round of a flush comes nearer to its end.
use connecttool_qt.Base.{
  ℕ, ◌+◌, ◌≤◌, ◌<◌, ◌≡◌, refl, ap, List, [], ◌∷◌, Bool, true, false, Option, none, some, arith,
  length, length-append,
}
use mathlib.Core.Path.{subst}
use connecttool_qt.Base.Map.{Map, find, assign, erase, IsSorted, Above, find_below, Above-mono}
use connecttool_qt.Base.Key.{list_key, lex_before}
use connecttool_qt.Multiplex.Packet.{ClientId, Packet}
use connecttool_qt.Multiplex.State.{Steam, Manager}
use connecttool_qt.Multiplex.Transport.{try_send_packet, try_send_packet-SameQueues}
use connecttool_qt.Multiplex.Queue.Flush.{
  Round, drained, refused, served, forget, after_send, serve, flush_round, rounds, total,
}

pub total-erase_le : (id : ClientId) (m : Map ClientId (List Packet)) → total (erase id m) ≤ total m
unfolding erase total
total-erase_le id [] = omega arith
total-erase_le id ((j, p) ∷ m) = ground (arith, total-erase_le id m)

-- A key before all keys of a map is not in it.
pub absent_below :
    (j id : ClientId) (m : Map ClientId (List Packet))
    → Above j m
    → lex_before id j ≡ true
    → find id m ≡ none
absent_below j id m a h = find_below id m (Above-mono id j m h a)

-- The queue of `id` counts in the total once.
pub total-erase :
    (id : ClientId) (q : List Packet) (m : Map ClientId (List Packet))
    → find id m ≡ some q
    → total (erase id m) + length q ≤ total m
unfolding find erase total
total-erase id q [] e = cc
total-erase id q ((j, p) ∷ m) e = ground (arith, total-erase id q m, total-erase_le id m)

pub total-assign :
    (id : ClientId) (q q' : List Packet) (m : Map ClientId (List Packet))
    → IsSorted m
    → find id m ≡ some q
    → total (assign id q' m) + length q ≡ total m + length q'
unfolding find assign total
total-assign id q q' [] s e = cc
total-assign id q q' ((j, p) ∷ m) s e =
    ground (arith, total-assign id q q' m, absent_below j id m s.0)

pub rounds_same :
    (m m' : Manager) (n : ℕ)
    → m'.pending_packets ≡ m.pending_packets
    → m'.send_order ≡ m.send_order
    → rounds m < n
    → rounds m' < n
unfolding rounds
rounds_same m m' n p o h = omega (arith, ap total p, ap length o)

pub pop_falls :
    (id : ClientId) (order : List ClientId) (m : Manager)
    → m.send_order ≡ id ∷ order
    → rounds (record m { send_order = order }) < rounds m
unfolding rounds
pop_falls id order m e = omega (arith, ap length e)

module _ (steam : Steam) where
  open steam use {World}

  -- A round that serves an ID comes nearer to the end.
  abbrev pub RoundFalls : ℕ → Round World → Type 0
  RoundFalls n drained = Unit {0}
  RoundFalls n (refused m w) = Unit {0}
  RoundFalls n (served m w out) = rounds m < n

  pub after_send-RoundFalls :
      (id : ClientId) (packet : Packet) (rest : List Packet) (n : ℕ) (r : Bool × Manager × World)
      → IsSorted r.1.pending_packets
      → find id r.1.pending_packets ≡ some (packet ∷ rest)
      → rounds r.1 < n
      → RoundFalls n (after_send steam id packet rest r)
  unfolding after_send forget rounds
  after_send-RoundFalls id packet rest n (false, m, w) s e h = tt
  after_send-RoundFalls id packet [] n (true, m, w) s e h =
      omega (arith, total-erase id (packet ∷ []) m.pending_packets e)
  after_send-RoundFalls id packet (next ∷ rest) n (true, m, w) s e h = omega (
    arith,
    total-assign id (packet ∷ next ∷ rest) (next ∷ rest) m.pending_packets s e,
    length-append m.send_order (id ∷ []),
  )

  pub serve-RoundFalls :
      (id : ClientId) (o : Option (List Packet)) (n : ℕ) (m : Manager) (w : World)
      → IsSorted m.pending_packets
      → find id m.pending_packets ≡ o
      → rounds m < n
      → RoundFalls n (serve steam id o m w)
  unfolding serve forget rounds
  serve-RoundFalls id none n m w s e h = h
  serve-RoundFalls id (some []) n m w s e h = omega (arith, total-erase_le id m.pending_packets)
  serve-RoundFalls id (some (packet ∷ rest)) n m w s e h =
      let same = try_send_packet-SameQueues steam packet m w in
      after_send-RoundFalls id packet rest n (try_send_packet steam packet m w) (rw same.pending s)
        (rw same.pending e)
        (rounds_same m (try_send_packet steam packet m w).1 n same.pending same.order h)

  pub flush_round-RoundFalls :
      (order : List ClientId) (m : Manager) (w : World)
      → m.send_order ≡ order
      → IsSorted m.pending_packets
      → RoundFalls (rounds m) (flush_round steam order m w)
  unfolding flush_round
  flush_round-RoundFalls [] m w e s = tt
  flush_round-RoundFalls (id ∷ order) m w e s =
      serve-RoundFalls id (find id m.pending_packets) (rounds m) (record m { send_order = order }) w
        s refl (pop_falls id order m e)

  abbrev pub NotDrained : Round World → Type 0
  NotDrained drained = ⊥
  NotDrained (refused m w) = Unit {0}
  NotDrained (served m w out) = Unit {0}

  pub after_send-NotDrained :
      (id : ClientId) (packet : Packet) (rest : List Packet) (r : Bool × Manager × World)
      → NotDrained (after_send steam id packet rest r)
  unfolding after_send
  after_send-NotDrained id packet rest (false, m, w) = tt
  after_send-NotDrained id packet [] (true, m, w) = tt
  after_send-NotDrained id packet (next ∷ rest) (true, m, w) = tt

  pub serve-NotDrained :
      (id : ClientId) (o : Option (List Packet)) (m : Manager) (w : World)
      → NotDrained (serve steam id o m w)
  unfolding serve
  serve-NotDrained id none m w = tt
  serve-NotDrained id (some []) m w = tt
  serve-NotDrained id (some (packet ∷ rest)) m w =
      after_send-NotDrained id packet rest (try_send_packet steam packet m w)

  pub flush_round_drained :
      (order : List ClientId) (m : Manager) (w : World)
      → flush_round steam order m w ≡ drained
      → order ≡ []
  unfolding flush_round
  flush_round_drained [] m w e = refl
  flush_round_drained (id ∷ order) m w e = absurd (
      subst NotDrained e
        (serve-NotDrained id (find id m.pending_packets) (record m { send_order = order }) w))
