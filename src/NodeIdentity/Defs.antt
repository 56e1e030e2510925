-- ===== src/NodeIdentity/Defs.antt =====
-- The functions of net/node_identity.cpp: node IDs, 32 bytes each, their priority and their text.
use connecttool_qt.Base.{
  ℕ, ◌+◌, ◌-◌, ◌/◌, ◌%◌, List, [], ◌∷◌, ◌++◌, Bool, true, false, if◌then◌else◌, ltb, leb, ◌==◌,
  length, take, replicate,
}
use connecttool_qt.Base.Int.{ℤ, pos, negsuc, ltb_ℤ}
use connecttool_qt.Platform.{Platform}
use connecttool_qt.Wire.{store}

-- std::array<uint8_t, 32>
abbrev pub NodeId : Type 0
NodeId = List ℕ

abbrev pub node_id_size : ℕ
node_id_size = 32

-- "ConnectTool_VPN_Salt_v1"
abbrev pub app_secret_salt : List ℕ
app_secret_salt =
    b'C' ∷ b'o' ∷ b'n' ∷ b'n' ∷ b'e' ∷ b'c' ∷ b't' ∷ b'T' ∷ b'o' ∷ b'o' ∷ b'l' ∷ b'_' ∷ b'V' ∷ b'P'
    ∷ b'N' ∷ b'_' ∷ b'S' ∷ b'a' ∷ b'l' ∷ b't' ∷ b'_' ∷ b'v' ∷ b'1' ∷ []

module _ (p : Platform) where
  -- The digest of the 64-bit Steam ID as it lies in memory, followed by the salt.
  unfoldable pub generate : ℕ → NodeId
  generate steam_id =
      let hash = p.sha256 (store 8 steam_id ++ app_secret_salt) in
      if leb node_id_size (length hash) then take node_id_size hash else replicate node_id_size 0

-- The loop over the bytes, from the most significant.
unfoldable pub compare : NodeId → NodeId → ℤ
compare [] bs = pos 0
compare (a ∷ as_) [] = pos 0
compare (a ∷ as_) (b ∷ bs) =
    let rest = compare as_ bs in if ltb a b then negsuc 0 else if ltb b a then pos 1 else rest

unfoldable pub has_priority : NodeId → NodeId → Bool
has_priority a b = ltb_ℤ (pos 0) (compare a b)

unfoldable pub is_empty : NodeId → Bool
is_empty [] = true
is_empty (b ∷ bs) = if b == 0 then is_empty bs else false

-- The digit of std::hex, and a byte under std::setw(2) and std::setfill('0').
abbrev pub hex_digit : ℕ → ℕ
hex_digit d = if ltb d 10 then b'0' + d else b'a' + (d - 10)

abbrev pub hex_byte : ℕ → List ℕ
hex_byte b = hex_digit (b / 16) ∷ hex_digit (b % 16) ∷ []

unfoldable pub hex_bytes : List ℕ → List ℕ
hex_bytes [] = []
hex_bytes (b ∷ bs) = hex_byte b ++ hex_bytes bs

-- All 32 bytes in hexadecimal, or the first eight and an ellipsis.
unfoldable pub to_string : NodeId → Bool → List ℕ
unfolding hex_bytes
to_string id full =
    let text = hex_bytes (take (if full then node_id_size else 8) id) in
    if full then text else text ++ b'.' ∷ b'.' ∷ b'.' ∷ []
