-- ===== src/Multiplex/Packet.antt =====
-- The packets of the tunnel: `buildPacket`, and the checks at the front of `handleTunnelPacket`.
use connecttool_qt.Base.{
  ℕ, zero, suc, ◌≤◌, ◌<◌, ◌^◌, ◌≡◌, refl, ap, List, [], ◌∷◌, ◌++◌, if◌then◌else◌, ltb, ◌==◌, length,
  take, drop, arith, length-append, take-append_left, drop-append_left, take-append-drop,
  length-drop, length-take, Bool-cases, inl, inr, All,
}
use connecttool_qt.Wire.{store, load, length-store, load-store, field_at}
use mathlib.Core.List.{append_assoc, append-nil}

abbrev pub ClientId : Type 0
ClientId = List ℕ

abbrev pub Packet : Type 0
Packet = List ℕ

-- The ID with its terminating zero, the type, and for type 0 the data.
unfoldable pub build_packet : ClientId → List ℕ → ℕ → Packet
build_packet id bytes type = (id ++ 0 ∷ []) ++ store 4 type ++ (if type == 0 then bytes else [])

pub data Tunnel : Type 0 where
  invalid : Tunnel
  bytes_for : ClientId → List ℕ → Tunnel
  disconnect : ClientId → Tunnel
  unknown : ℕ → Tunnel

-- What handleTunnelPacket makes of a buffer: 6 bytes of ID, a zero, 4 bytes of type, the data.
unfoldable pub read_packet : Packet → Tunnel
read_packet packet =
    let id = take 6 packet in
    let type = load (field_at 7 4 packet) in
    if ltb (length packet) 11
    then invalid
    else if type == 0
    then bytes_for id (drop 11 packet)
    else if type == 1
    then disconnect id
    else unknown type

-- kTunnelChunkBytes
abbrev pub chunk_bytes : ℕ
chunk_bytes = 1100

-- The pieces of the loop in sendTunnelPacket; the fuel bounds the rounds, one for each piece.
unfoldable pub chunks : ℕ → List ℕ → List (List ℕ)
chunks zero bytes = []
chunks (suc fuel) [] = []
chunks (suc fuel) (b ∷ bytes) =
    take chunk_bytes (b ∷ bytes) ∷ chunks fuel (drop chunk_bytes (b ∷ bytes))

-- The payloads of one call of sendTunnelPacket, with as much fuel as there are bytes.
unfoldable pub payloads : List ℕ → ℕ → List (List ℕ)
unfolding chunks
payloads bytes type =
    if type == 0
    then (if ltb chunk_bytes (length bytes) then chunks (length bytes) bytes else bytes ∷ [])
    else bytes ∷ []

abbrev pub concat : List (List ℕ) → List ℕ
concat [] = []
concat (x ∷ xs) = x ++ concat xs

-- The parts of a packet, whatever its body.
packet_parts :
    (id : ClientId) (type : ℕ) (body : List ℕ)
    → length id ≡ 6
    → type < 2 ^ 32
    → (take 6 (id ++ 0 ∷ [] ++ store 4 type ++ body) ≡ id)
      × (load (field_at 7 4 (id ++ 0 ∷ [] ++ store 4 type ++ body)) ≡ type)
      × (drop 11 (id ++ 0 ∷ [] ++ store 4 type ++ body) ≡ body)
      × (11 ≤ length (id ++ 0 ∷ [] ++ store 4 type ++ body))
packet_parts id type body six word = (
  rw (append_assoc, append_assoc) (take-append_left 6 id _ six),
  rw
      (
        append_assoc,
        drop-append_left 7 (id ++ 0 ∷ []) (store 4 type ++ body) front,
        take-append_left 4 (store 4 type) body (length-store 4 type),
      )
      (load-store 4 type word),
  drop-append_left 11 (id ++ 0 ∷ [] ++ store 4 type) body (omega (arith, whole)),
  omega (arith, whole, length-append (id ++ 0 ∷ [] ++ store 4 type) body),
)
  where
    front : length (id ++ 0 ∷ []) ≡ 7
    front = omega (arith, length-append id (0 ∷ []))

    whole : length (id ++ 0 ∷ [] ++ store 4 type) ≡ 11
    whole = omega (arith, front, length-append (id ++ 0 ∷ []) (store 4 type), length-store 4 type)

module _ (id : ClientId) (six : length id ≡ 6) where
  -- A data packet with an ID of six bytes is read back with its ID and all its bytes.
  pub read_packet-build_packet :
      (bytes : List ℕ) → read_packet (build_packet id bytes 0) ≡ bytes_for id bytes
  unfolding read_packet build_packet
  read_packet-build_packet bytes = ground (arith, packet_parts id 0 bytes six)

  pub read_packet-build_disconnect :
      (bytes : List ℕ) → read_packet (build_packet id bytes 1) ≡ disconnect id
  unfolding read_packet build_packet
  read_packet-build_disconnect bytes = ground (arith, packet_parts id 1 [] six)

-- The pieces joined are the data, and no piece is longer than the limit.
chunks-concat :
    (fuel : ℕ) (bytes : List ℕ)
    → length bytes ≤ fuel
    → (concat (chunks fuel bytes) ≡ bytes) × All (λ c. length c ≤ chunk_bytes) (chunks fuel bytes)
unfolding chunks
chunks-concat zero [] h = (refl, tt)
chunks-concat zero (b ∷ bytes) h = absurd (omega arith)
chunks-concat (suc fuel) [] h = (refl, tt)
chunks-concat (suc fuel) (b ∷ bytes) h =
    let rest = chunks-concat fuel (drop 1099 bytes) (omega (arith, length-drop 1099 bytes)) in
    (
      ap (◌∷◌ b) (rw (rest.0) (take-append-drop 1099 bytes)),
      (omega (arith, length-take 1099 bytes), rest.1),
    )

-- The payloads of one call with data join to the data, and none is longer than the limit for a
-- piece.
pub payloads-concat :
    (bytes : List ℕ)
    → (concat (payloads bytes 0) ≡ bytes) × All (λ c. length c ≤ chunk_bytes) (payloads bytes 0)
unfolding payloads
payloads-concat bytes = elim (Bool-cases (ltb chunk_bytes (length bytes))) [
  | inl long ↦ rw long (chunks-concat (length bytes) bytes (omega arith))
  | inr short ↦ rw short (append-nil bytes, (ground arith, tt))
]
