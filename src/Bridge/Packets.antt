-- ===== src/Bridge/Packets.antt =====
-- Reading IP packets: extractDestIP, extractSourceIP and isBroadcastAddress.
use connecttool_qt.Base.{
  ℕ, ◌/◌, ◌%◌, List, Bool, true, ◌&&◌, if◌then◌else◌, ltb, leb, ◌==◌, length, bit_and, bit_or,
}
use connecttool_qt.Base.Word.{not32}
use connecttool_qt.Platform.{Platform}
use connecttool_qt.Wire.{load, field_at}
use connecttool_qt.Bridge.State.{Bridge}

module _ (p : Platform) where
  -- The address field at an offset of a packet whose header has 20 bytes and version 4.
  abbrev address_at : ℕ → List ℕ → ℕ
  address_at offset packet =
      let version = (load (field_at 0 1 packet) / 16) % 16 in
      if ltb (length packet) 20
      then 0
      else if version == 4
      then p.ntohl (load (field_at offset 4 packet))
      else 0

  unfoldable pub extract_dest_ip : List ℕ → ℕ
  extract_dest_ip packet = address_at 16 packet

  unfoldable pub extract_source_ip : List ℕ → ℕ
  extract_source_ip packet = address_at 12 packet

unfoldable pub is_broadcast_address : Bridge → ℕ → Bool
is_broadcast_address b ip =
    let subnet_broadcast = bit_or (bit_and b.base_ip b.subnet_mask) (not32 b.subnet_mask) in
    let first_octet = (ip / 16777216) % 256 in
    if ip == 4294967295
    then true
    else if ip == subnet_broadcast
    then true
    else leb 224 first_octet && leb first_octet 239
