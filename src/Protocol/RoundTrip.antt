-- ===== src/Protocol/RoundTrip.antt =====
-- What a peer writes is what another reads: structures and frames.
use connecttool_qt.Base.{
  ℕ, ◌^◌, ◌<◌, ◌≡◌, refl, ap, List, [], ◌++◌, some, length, take, drop, arith, length-append,
  take-append_left, drop-append_left, take-append_short,
}
use mathlib.Core.List.{append_assoc, append-nil}
use native.Mathlib.Nat.{mod-eq_of_lt}
use connecttool_qt.Platform.{Platform, IsPlatform}
use connecttool_qt.NodeIdentity.Defs.{NodeId}
use connecttool_qt.Wire.{store, load, length-store, load-store, field_at}
use connecttool_qt.Protocol.Messages.{
  VpnMessageType, ip_packet, type_code, type_of_code, encode_address, encode_probe_response,
  AddressAnnouncePayload, encode_address_announce, decode_address_announce, encode_forced_release,
  ProbeRequestPayload, encode_probe_request, decode_probe_request, ProbeResponsePayload,
  decode_probe_response, VpnPacketWrapper, encode_wrapper, decode_wrapper, decode_forced_release,
  ForcedReleasePayload,
}
use connecttool_qt.Protocol.Frame.{frame, unframe}

pub type_of_code-type_code : (t : VpnMessageType) → type_of_code (type_code t) ≡ some t
unfolding type_of_code type_code
type_of_code-type_code ip_packet = refl
type_of_code-type_code t = refl

-- The fields of the common prefix, whatever follows it.
pub address-encode_address :
    (ip : ℕ) (id : NodeId) (rest : List ℕ)
    → ip < 2 ^ 32
    → length id ≡ 32
    → (load (field_at 0 4 (encode_address ip id ++ rest)) ≡ ip)
      × (field_at 4 32 (encode_address ip id ++ rest) ≡ id)
      × (drop 36 (encode_address ip id ++ rest) ≡ rest)
unfolding encode_address
address-encode_address ip id rest h l = (
  rw (append_assoc, take-append_left 4 (store 4 ip) (id ++ rest) (length-store 4 ip))
      (load-store 4 ip h),
  rw (append_assoc, drop-append_left 4 (store 4 ip) (id ++ rest) (length-store 4 ip))
      (take-append_left 32 id rest l),
  drop-append_left 36 (store 4 ip ++ id) rest (rw (length-append, length-store, l)),
)

module _ (p : Platform) (laws : IsPlatform p) where
  length_field :
      (n : ℕ) (rest : List ℕ)
      → n < 2 ^ 16
      → p.ntohs (load (take 2 (store 2 (p.htons n) ++ rest))) ≡ n
  length_field n rest h =
      rw
        (take-append_left 2 _ rest (length-store 2 (p.htons n)), load-store 2 _ (laws.htons-lt n h))
        (laws.ntohs-htons n h)

  -- A framed message whose payload is shorter than 2 ^ 16 bytes is accepted, with its type and its
  -- payload, and the bytes behind it are ignored.
  pub unframe-frame_rest :
      (t : VpnMessageType) (payload rest : List ℕ)
      → length payload < 2 ^ 16
      → unframe p (frame p t payload ++ rest) ≡ some (type_code t, payload)
  unfolding frame unframe load
  unframe-frame_rest t payload rest h =
      rw
        (
          mod-eq_of_lt h,
          append_assoc,
          length_field (length payload) (payload ++ rest) h,
          length-append,
          length-store,
        )
        (rw
          (
            drop-append_left 2 (store 2 (p.htons (length payload))) (payload ++ rest)
                (length-store 2 _),
            take-append_left (length payload) payload rest refl,
            length-append,
          )
          (ground arith))

  pub unframe-frame :
      (t : VpnMessageType) (payload : List ℕ)
      → length payload < 2 ^ 16
      → unframe p (frame p t payload) ≡ some (type_code t, payload)
  unframe-frame t payload h = rw append-nil at (unframe-frame_rest t payload [] h)

-- The bytes of the three kinds of structure are read back, whatever follows them.
pub decode-encode_request :
    (r : ProbeRequestPayload) (rest : List ℕ)
    → r.ip_address < 2 ^ 32
    → length r.node_id ≡ 32
    → decode_probe_request (encode_probe_request r ++ rest) ≡ r
unfolding decode_probe_request encode_probe_request
decode-encode_request r rest h l =
    ground (arith, address-encode_address r.ip_address r.node_id rest)

pub decode-encode_forced_release :
    (r : ForcedReleasePayload) (rest : List ℕ)
    → r.ip_address < 2 ^ 32
    → length r.winner_node_id ≡ 32
    → decode_forced_release (encode_forced_release r ++ rest) ≡ r
unfolding decode_forced_release encode_forced_release
decode-encode_forced_release r rest h l =
    ground (arith, address-encode_address r.ip_address r.winner_node_id rest)

pub decode-encode_announce :
    (r : AddressAnnouncePayload) (rest : List ℕ)
    → r.ip_address < 2 ^ 32
    → length r.node_id ≡ 32
    → decode_address_announce (encode_address_announce r ++ rest) ≡ r
unfolding decode_address_announce encode_address_announce
decode-encode_announce r rest h l =
    ground (arith, address-encode_address r.ip_address r.node_id rest)

-- A probe response whose address, ID and time fit into their fields is read back as it was,
-- whatever follows it.
pub decode-encode_response :
    (r : ProbeResponsePayload) (rest : List ℕ)
    → r.ip_address < 2 ^ 32
    → length r.node_id ≡ 32
    → r.last_heartbeat_ms < 2 ^ 64
    → decode_probe_response (encode_probe_response r ++ rest) ≡ r
unfolding decode_probe_response encode_probe_response
decode-encode_response r rest h l t = rw append_assoc (
    ground (
      arith,
      address-encode_address r.ip_address r.node_id (store 8 r.last_heartbeat_ms ++ rest),
      take-append_left 8 (store 8 r.last_heartbeat_ms) rest (length-store 8 _),
      load-store 8 r.last_heartbeat_ms,
    ))

-- The wrapper of a packet whose ID and address fit into their fields is read back as it was,
-- whatever follows it.
pub decode-encode_wrapper :
    (w : VpnPacketWrapper) (rest : List ℕ)
    → w.source_ip < 2 ^ 32
    → length w.sender_node_id ≡ 32
    → decode_wrapper (encode_wrapper w ++ rest) ≡ w
unfolding decode_wrapper encode_wrapper
decode-encode_wrapper w rest h l = rw (
  append_assoc,
  take-append_left 32 w.sender_node_id (store 4 w.source_ip ++ rest) l,
  drop-append_left 32 w.sender_node_id (store 4 w.source_ip ++ rest) l,
  take-append_left 4 (store 4 w.source_ip) rest (length-store 4 _),
  load-store 4 w.source_ip h,
)

-- Read as an order to release, the wrapper of a packet with an ID of 32 bytes has for its address
-- the first four bytes of the ID.
pub decode_forced_release-encode_wrapper :
    (w : VpnPacketWrapper) (rest : List ℕ)
    → length w.sender_node_id ≡ 32
    → (decode_forced_release (encode_wrapper w ++ rest)).ip_address ≡ load (take 4 w.sender_node_id)
unfolding decode_forced_release encode_wrapper
decode_forced_release-encode_wrapper w rest l =
    ap load (rw append_assoc (take-append_short 4 w.sender_node_id _ (omega arith)))
