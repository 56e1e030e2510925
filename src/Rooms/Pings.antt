-- ===== src/Rooms/Pings.antt =====
-- broadcastPings, handlePingMessage and getRemotePing.
use connecttool_qt.Base.{
  ℕ, List, [], ◌∷◌, ◌++◌, Bool, true, false, ◌||◌, not, Option, none, some, if◌then◌else◌, ltb, leb,
  ◌==◌, length, take, drop,
}
use connecttool_qt.Base.Int.{ℤ, pos, negsuc}
use connecttool_qt.Base.Key.{nat_key, list_same}
use connecttool_qt.Base.Map.{Map, find, assign}
use connecttool_qt.Rooms.Text.{split_at, pieces, to_text, stoull, stoi}
use connecttool_qt.Rooms.State.{Room, PingInfo, World, Steam, Call, send_chat}

-- "PING|"
abbrev pub ping_prefix : List ℕ
ping_prefix = b'P' ∷ b'I' ∷ b'N' ∷ b'G' ∷ b'|' ∷ []

pub record Entry : Type 0 where
  pub id : ℕ
  pub ping : ℤ
  pub relay : List ℕ

-- The text of an entry whose ping is not negative.
unfoldable pub entry_text : ℕ → ℕ → List ℕ → List ℕ
unfolding to_text
entry_text id ping relay = to_text id ++ b':' ∷ (to_text ping ++ b':' ∷ relay)

-- A round of the loop of broadcastPings: `first` is its flag, which a skipped entry leaves alone.
unfoldable pub add_entry : Bool → Entry → ℤ → List ℕ → List ℕ → List ℕ
unfolding entry_text
add_entry first e (negsuc n) skipped rest = skipped
add_entry first e (pos ping) skipped rest =
    (if first then [] else b';' ∷ []) ++ (entry_text e.id ping e.relay ++ rest)

unfoldable pub entries_text : Bool → List Entry → List ℕ
unfolding add_entry
entries_text first [] = []
entries_text first (e ∷ entries) =
    add_entry first e e.ping (entries_text first entries) (entries_text false entries)

unfoldable pub ping_payload : List Entry → List ℕ
unfolding entries_text
ping_payload entries = ping_prefix ++ entries_text true entries

unfoldable pub broadcast_pings : Steam → List Entry → World → List Call
unfolding ping_payload
broadcast_pings steam entries w =
    let payload = ping_payload entries in
    if not w.net.is_host || (w.room.current_lobby == 0)
    then []
    else if not steam.has_matchmaking || leb (length payload) (length ping_prefix)
    then []
    else send_chat w.room.current_lobby payload ∷ []

-- The numbers of an entry, if both are read.
unfoldable pub store_ping : ℕ → Option ℕ → Option ℤ → List ℕ → Map ℕ PingInfo → Map ℕ PingInfo
store_ping now (some id) (some (pos ping)) relay table =
    if ltb 0 id
    then assign id (record { ping = ping; relay = relay; updated_at = now }) table
    else table
store_ping now _ _ relay table = table

-- A part of the payload: ID, ping and relay between the first two colons and behind them.
unfoldable pub read_relay : ℕ → List ℕ → List ℕ → Option (List ℕ) → Map ℕ PingInfo → Map ℕ PingInfo
read_relay now id ping none table = table
read_relay now id ping (some relay) table = store_ping now (stoull id) (stoi ping) relay table

unfoldable pub read_ping : ℕ → List ℕ → Option (List ℕ) → Map ℕ PingInfo → Map ℕ PingInfo
unfolding read_relay
read_ping now id none table = table
read_ping now id (some rest) table =
    read_relay now id (split_at b':' rest).0 (split_at b':' rest).1 table

unfoldable pub handle_part : ℕ → List ℕ → Map ℕ PingInfo → Map ℕ PingInfo
unfolding split_at read_ping
handle_part now part table = read_ping now (split_at b':' part).0 (split_at b':' part).1 table

unfoldable pub handle_parts : ℕ → List (List ℕ) → Map ℕ PingInfo → Map ℕ PingInfo
unfolding handle_part
handle_parts now [] table = table
handle_parts now (part ∷ parts) table = handle_parts now parts (handle_part now part table)

abbrev pub has_ping_prefix : List ℕ → Bool
has_ping_prefix payload = list_same (take (length ping_prefix) payload) ping_prefix

-- An empty part has no colon and is passed over as well.
unfoldable pub handle_ping_message : ℕ → List ℕ → Room → Room
unfolding handle_parts pieces
handle_ping_message now payload room =
    let body = drop (length ping_prefix) payload in
    if has_ping_prefix payload
    then record room { remote_pings = handle_parts now (pieces b';' body) room.remote_pings }
    else room

-- What getRemotePing fills in if it returns true; a stored ping is never negative.
unfoldable pub get_remote_ping : ℕ → Room → Option (ℕ × List ℕ)
get_remote_ping id room = elim (find id room.remote_pings) [
  | some info ↦ some (info.ping, info.relay)
  | none ↦ none
]
