-- ===== src/Protocol/Messages.antt =====
-- net/vpn_protocol.h: message types, and the packed structures as they lie in a buffer.
-- A structure is written by reinterpret_cast and read by memcpy from the front of the payload.
use connecttool_qt.Base.{ℕ, List, ◌++◌, Bool, Option, none, some, if◌then◌else◌, ◌==◌}
use connecttool_qt.Base.Int.{pos, ◌-ℤ◌, leb_ℤ, ltb_ℤ}
use connecttool_qt.NodeIdentity.Defs.{NodeId}
use connecttool_qt.Wire.{store, load, field_at}

-- Protocol timing, in milliseconds.
abbrev pub probe_timeout_ms : ℕ
probe_timeout_ms = 500

abbrev pub heartbeat_interval_ms : ℕ
heartbeat_interval_ms = 60000

abbrev pub lease_expiry_ms : ℕ
lease_expiry_ms = 360000

abbrev pub heartbeat_expiry_ms : ℕ
heartbeat_expiry_ms = 180000

pub data VpnMessageType : Type 0 where
  ip_packet route_update probe_request probe_response address_announce : VpnMessageType
  forced_release heartbeat heartbeat_ack session_hello : VpnMessageType

-- The value of the uint8_t behind the enumeration.
unfoldable pub type_code : VpnMessageType → ℕ
type_code ip_packet = 1
type_code route_update = 3
type_code probe_request = 10
type_code probe_response = 11
type_code address_announce = 12
type_code forced_release = 13
type_code heartbeat = 14
type_code heartbeat_ack = 15
type_code session_hello = 20

-- The enumerator that a byte names, if it names one.
unfoldable pub type_of_code : ℕ → Option VpnMessageType
type_of_code c =
    if c == 1
    then some ip_packet
    else if c == 3
    then some route_update
    else if c == 10
    then some probe_request
    else if c == 11
    then some probe_response
    else if c == 12
    then some address_announce
    else if c == 13
    then some forced_release
    else if c == 14
    then some heartbeat
    else if c == 15
    then some heartbeat_ack
    else if c == 20
    then some session_hello
    else none

-- Addresses in these records are in network byte order, as in the structures.
pub record VpnPacketWrapper : Type 0 where
  pub sender_node_id : NodeId
  pub source_ip : ℕ

pub record ProbeRequestPayload : Type 0 where
  pub ip_address : ℕ
  pub node_id : NodeId

pub record ProbeResponsePayload : Type 0 where
  pub ip_address : ℕ
  pub node_id : NodeId
  pub last_heartbeat_ms : ℕ

pub record AddressAnnouncePayload : Type 0 where
  pub ip_address : ℕ
  pub node_id : NodeId

pub record ForcedReleasePayload : Type 0 where
  pub ip_address : ℕ
  pub winner_node_id : NodeId

pub record HeartbeatPayload : Type 0 where
  pub ip_address : ℕ
  pub node_id : NodeId
  pub timestamp_ms : ℕ

-- Their sizes: #pragma pack(push, 1) leaves no padding.
abbrev pub size_header : ℕ
size_header = 3

abbrev pub size_wrapper : ℕ
size_wrapper = 36

abbrev pub size_address : ℕ
size_address = 36

abbrev pub size_timed : ℕ
size_timed = 44

-- An address and a node ID, which most structures begin with.
unfoldable pub encode_address : ℕ → NodeId → List ℕ
encode_address ip id = store 4 ip ++ id

unfoldable pub encode_wrapper : VpnPacketWrapper → List ℕ
encode_wrapper w = w.sender_node_id ++ store 4 w.source_ip

unfoldable pub encode_probe_request : ProbeRequestPayload → List ℕ
unfolding encode_address
encode_probe_request r = encode_address r.ip_address r.node_id

unfoldable pub encode_probe_response : ProbeResponsePayload → List ℕ
unfolding encode_address
encode_probe_response r = encode_address r.ip_address r.node_id ++ store 8 r.last_heartbeat_ms

unfoldable pub encode_address_announce : AddressAnnouncePayload → List ℕ
unfolding encode_address
encode_address_announce r = encode_address r.ip_address r.node_id

unfoldable pub encode_forced_release : ForcedReleasePayload → List ℕ
unfolding encode_address
encode_forced_release r = encode_address r.ip_address r.winner_node_id

unfoldable pub encode_heartbeat : HeartbeatPayload → List ℕ
unfolding encode_address
encode_heartbeat r = encode_address r.ip_address r.node_id ++ store 8 r.timestamp_ms

unfoldable pub decode_wrapper : List ℕ → VpnPacketWrapper
decode_wrapper b = record { sender_node_id = field_at 0 32 b; source_ip = load (field_at 32 4 b) }

unfoldable pub decode_probe_request : List ℕ → ProbeRequestPayload
decode_probe_request b = record { ip_address = load (field_at 0 4 b); node_id = field_at 4 32 b }

unfoldable pub decode_probe_response : List ℕ → ProbeResponsePayload
decode_probe_response b = record {
  ip_address = load (field_at 0 4 b);
  node_id = field_at 4 32 b;
  last_heartbeat_ms = load (field_at 36 8 b);
}

unfoldable pub decode_address_announce : List ℕ → AddressAnnouncePayload
decode_address_announce b = record { ip_address = load (field_at 0 4 b); node_id = field_at 4 32 b }

unfoldable pub decode_forced_release : List ℕ → ForcedReleasePayload
decode_forced_release b = record {
  ip_address = load (field_at 0 4 b);
  winner_node_id = field_at 4 32 b;
}

unfoldable pub decode_heartbeat : List ℕ → HeartbeatPayload
decode_heartbeat b = record {
  ip_address = load (field_at 0 4 b);
  node_id = field_at 4 32 b;
  timestamp_ms = load (field_at 36 8 b);
}

-- NodeInfo::isActive and NodeInfo::isLeaseExpired, at the time `now`. The clock is monotone, so
-- the elapsed time is not negative.
unfoldable pub is_active : ℕ → ℕ → Bool
is_active now last_heartbeat = ltb_ℤ (pos now -ℤ pos last_heartbeat) (pos heartbeat_expiry_ms)

unfoldable pub is_lease_expired : ℕ → ℕ → Bool
is_lease_expired now last_heartbeat = leb_ℤ (pos lease_expiry_ms) (pos now -ℤ pos last_heartbeat)
