-- ===== src/Protocol/Tests.antt =====
-- The wire format on concrete values.
use connecttool_qt.Base.{◌≡◌, refl, [], ◌∷◌, ◌++◌, some, replicate, arith}
use connecttool_qt.Samples.{platform, platform-IsPlatform}
use connecttool_qt.Protocol.Messages.{
  heartbeat, type_code, type_of_code, VpnPacketWrapper, ProbeRequestPayload, encode_probe_request,
  decode_probe_request, ProbeResponsePayload, AddressAnnouncePayload, encode_address_announce,
  decode_address_announce,
}
use connecttool_qt.Protocol.Frame.{frame, unframe}
use connecttool_qt.Protocol.RoundTrip.{
  unframe-frame_rest, decode-encode_request, decode-encode_announce, type_of_code-type_code,
}

abbrev request : ProbeRequestPayload
request = record { ip_address = 167772165; node_id = replicate 32 9 }

abbrev response : ProbeResponsePayload
response = record { ip_address = 167772165; node_id = replicate 32 9; last_heartbeat_ms = 5000 }

abbrev announce : AddressAnnouncePayload
announce = record { ip_address = 167772165; node_id = replicate 32 9 }

abbrev wrapper : VpnPacketWrapper
wrapper = record { sender_node_id = replicate 32 9; source_ip = 167772165 }

unframe-frame_rest_example :
    unframe platform (frame platform heartbeat (7 ∷ 8 ∷ []) ++ 1 ∷ [])
    ≡ some (type_code heartbeat, 7 ∷ 8 ∷ [])
unframe-frame_rest_example =
    unframe-frame_rest platform platform-IsPlatform heartbeat (7 ∷ 8 ∷ []) (1 ∷ []) (omega arith)

type_of_code-type_code_example : type_of_code (type_code heartbeat) ≡ some heartbeat
type_of_code-type_code_example = type_of_code-type_code heartbeat

decode-encode_request_example :
    decode_probe_request (encode_probe_request request ++ 1 ∷ []) ≡ request
decode-encode_request_example = decode-encode_request request (1 ∷ []) (omega arith) refl

decode-encode_announce_example :
    decode_address_announce (encode_address_announce announce ++ 1 ∷ []) ≡ announce
decode-encode_announce_example = decode-encode_announce announce (1 ∷ []) (omega arith) refl
