-- ===== src/Protocol/Frame.antt =====
-- The frame of a message, steam/steam_vpn_bridge.cpp: `sendVpnMessage` and `broadcastVpnMessage`
-- put a header before the payload, and `handleVpnMessage` checks and removes it.
use connecttool_qt.Base.{
  ℕ, ◌+◌, ◌%◌, ◌^◌, List, ◌∷◌, ◌++◌, Option, none, some, if◌then◌else◌, ltb, length, take, drop,
}
use connecttool_qt.Platform.{Platform}
use connecttool_qt.Wire.{store, load, field_at}
use connecttool_qt.Protocol.Messages.{VpnMessageType, type_code, size_header}

module _ (p : Platform) where
  -- The header and the payload; the length is cut to 16 bits.
  unfoldable pub frame : VpnMessageType → List ℕ → List ℕ
  frame type payload = type_code type ∷ store 2 (p.htons (length payload % 2 ^ 16)) ++ payload

  -- The type byte and the payload, or nothing for a message that is too short.
  unfoldable pub unframe : List ℕ → Option (ℕ × List ℕ)
  unframe bytes =
      let payload_length = p.ntohs (load (field_at 1 2 bytes)) in
      if ltb (length bytes) size_header
      then none
      else if ltb (length bytes) (size_header + payload_length)
      then none
      else some (load (field_at 0 1 bytes), take payload_length (drop size_header bytes))
