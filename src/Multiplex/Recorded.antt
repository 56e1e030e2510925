-- ===== src/Multiplex/Recorded.antt =====
-- Steam with a record of the packets that it is given and of its answers.
use connecttool_qt.Base.{
  ℕ, ◌<◌, ◌≡◌, refl, ap, List, [], ◌∷◌, ◌++◌, Bool, true, false, none, some, if◌then◌else◌, ◌==◌,
  length, length-append, leb, arith, if_cases,
}
use mathlib.Core.Path.{subst}
use mathlib.Core.List.{append-nil}
use connecttool_qt.Wire.{store}
use connecttool_qt.Multiplex.Packet.{ClientId, Packet, build_packet}
use connecttool_qt.Multiplex.State.{SendResult, limit_exceeded, Steam, Manager, high_water_bytes}
use connecttool_qt.Multiplex.Transport.{
  block, check_status, is_send_saturated, send_now, send_unless_saturated, try_send_packet,
}

abbrev pub recorded : Steam → Steam
recorded steam = record {
  World = steam.World × List (Packet × SendResult);
  status = λ w. ((steam.status w.0).0, ((steam.status w.0).1, w.1));
  send_message = λ packet w. (
    (steam.send_message packet w.0).0,
    ((steam.send_message packet w.0).1, w.1 ++ (packet, (steam.send_message packet w.0).0) ∷ []),
  );
  clock = λ w. ((steam.clock w.0).0, ((steam.clock w.0).1, w.1));
}

-- The packets that Steam did not answer with LimitExceeded.
abbrev pub is_limit : SendResult → Bool
is_limit limit_exceeded = true
is_limit _ = false

abbrev pub taken : List (Packet × SendResult) → List Packet
taken [] = []
taken ((packet, result) ∷ log) =
    let rest = taken log in if is_limit result then rest else packet ∷ rest

taken-append_one :
    (log : List (Packet × SendResult)) (packet : Packet) (result : SendResult)
    → taken (log ++ (packet, result) ∷ [])
      ≡ taken log ++ (if is_limit result then [] else packet ∷ [])
taken-append_one [] packet result = ground arith
taken-append_one ((p, r) ∷ log) packet result = ground (arith, taken-append_one log packet result)

module _ (steam : Steam) where
  open steam use {World}

  pub is_send_saturated_log :
      (m : Manager) (w : World × List (Packet × SendResult))
      → (is_send_saturated (recorded steam) m w).2.1 ≡ w.1
  unfolding is_send_saturated check_status
  is_send_saturated_log m w = ground arith

  -- What Steam took, after an attempt that gave `sent`.
  abbrev pub Took :
      List Packet → Packet → Bool × Manager × (World × List (Packet × SendResult)) → Type 0
  Took before packet r = taken r.2.1 ≡ (if r.0 then before ++ packet ∷ [] else before)

  send_now-Took :
      (packet : Packet) (m : Manager) (w : World × List (Packet × SendResult))
      → Took (taken w.1) packet (send_now (recorded steam) packet m w)
  unfolding send_now
  send_now-Took packet m w =
      ground (
        arith,
        taken-append_one w.1 packet (steam.send_message packet w.0).0,
        append-nil (taken w.1),
      )

  send_unless_saturated-Took :
      (packet : Packet) (m : Manager) (w : World × List (Packet × SendResult))
      → Took (taken w.1) packet (send_unless_saturated (recorded steam) packet m w)
  unfolding send_unless_saturated
  send_unless_saturated-Took packet m w =
      let r = is_send_saturated (recorded steam) m w in
      let same : taken r.2.1 ≡ taken w.1 = ap taken (is_send_saturated_log m w) in
      if_cases (Took (taken w.1) packet) r.0 {x = (false, r.1, r.2)} (λ _. same)
        (λ _.
          subst (λ before. Took before packet (send_now (recorded steam) packet r.1 r.2)) same
            (send_now-Took packet r.1 r.2))

  pub try_send_packet-Took :
      (packet : Packet) (m : Manager) (w : World × List (Packet × SendResult))
      → 0 < length packet
      → Took (taken w.1) packet (try_send_packet (recorded steam) packet m w)
  unfolding try_send_packet
  try_send_packet-Took [] m w h = absurd (omega arith)
  try_send_packet-Took (b ∷ bytes) m w h =
      let packet = b ∷ bytes in
      let (pending, w') = (recorded steam).status w in
      let later = send_unless_saturated-Took packet m w' in
      elim pending
        as (λ o. Took (taken w.1) packet (elim o [
          | none ↦ send_unless_saturated (recorded steam) packet m w'
          | some n ↦
              let (now, w'') = (recorded steam).clock w' in
              if leb high_water_bytes n
              then (false, block now 200 m, w'')
              else send_unless_saturated (recorded steam) packet m w'
        ])) [
          | none ↦ later
          | some n ↦
              let (now, w'') = (recorded steam).clock w' in
              if_cases (Took (taken w.1) packet) (leb high_water_bytes n)
                {x = (false, block now 200 m, w'')} (λ _. refl) (λ _. later)
        ]

pub build_packet_long :
    (id : ClientId) (bytes : List ℕ) (type : ℕ) → 0 < length (build_packet id bytes type)
unfolding build_packet
build_packet_long id bytes type = omega (
  arith,
  length-append (id ++ 0 ∷ [] ++ store 4 type) (if type == 0 then bytes else []),
  length-append (id ++ 0 ∷ []) (store 4 type),
  length-append id (0 ∷ []),
)
