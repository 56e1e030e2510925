-- ===== src/Rooms/Metadata.antt =====
-- What a lobby says about itself, and what a member reads of it.
use connecttool_qt.Base.{
  ℕ, List, [], ◌∷◌, ◌++◌, Bool, true, false, ◌&&◌, ◌||◌, not, Option, none, some, if◌then◌else◌,
  ◌==◌,
}
use connecttool_qt.Base.Int.{ℤ, pos, negsuc}
use connecttool_qt.Base.Key.{list_same}
use connecttool_qt.Connections.Transport.{estimate_relay_ping_ms, apply_transport_preference}
use connecttool_qt.Connections.State as Connections
use connecttool_qt.Rooms.Text.{to_text}
use connecttool_qt.Rooms.State.{
  Room, World, Steam, Key, key_name, key_host_name, key_host_id, key_ping_location, key_tag,
  key_pinned, key_mode, Call, network, set_data, delete_data, send_chat, pinned_changed,
  chat_received, list_updated, Method, is_me,
}

-- "tun" and "tcp"
abbrev pub mode_tun : List ℕ
mode_tun = b't' ∷ b'u' ∷ b'n' ∷ []

abbrev pub mode_tcp : List ℕ
mode_tcp = b't' ∷ b'c' ∷ b'p' ∷ []

abbrev pub is_empty {ℓ} : {A : Type ℓ} → List A → Bool
is_empty [] = true
is_empty (x ∷ xs) = false

abbrev pub text_or_empty : Option (List ℕ) → List ℕ
text_or_empty none = []
text_or_empty (some text) = text

abbrev set_if_some : ℕ → Key → Option (List ℕ) → List Call
set_if_some lobby key none = []
set_if_some lobby key (some text) = set_data lobby key text ∷ []

abbrev is_tun : Option (List ℕ) → Bool
is_tun none = false
is_tun (some mode) = list_same mode mode_tun

-- A ping is measured unless it is negative.
abbrev pub measured : Option ℤ → Option ℕ
measured none = none
measured (some (pos ping)) = some ping
measured (some (negsuc n)) = none

module _ (steam : Steam) where
  unfoldable pub lobby_wants_tun : ℕ → Bool
  lobby_wants_tun lobby = steam.has_matchmaking && is_tun (steam.data_of lobby key_mode)

  unfoldable pub get_pinned_message_data : ℕ → List ℕ
  get_pinned_message_data lobby =
      if not steam.has_matchmaking || not (steam.is_valid_id lobby)
      then []
      else text_or_empty (steam.data_of lobby key_pinned)

  unfoldable pub notify_pinned_message_changed : ℕ → World → List Call
  unfolding get_pinned_message_data
  notify_pinned_message_changed lobby w =
      if w.room.has_pinned_callback then pinned_changed (get_pinned_message_data lobby) ∷ [] else []

  abbrev is_absent : World → Bool
  is_absent w = (w.room.current_lobby == 0) || not steam.has_matchmaking

  unfoldable pub set_pinned_message_data : List ℕ → World → List Call
  set_pinned_message_data text w =
      if is_absent w then [] else set_data w.room.current_lobby key_pinned text ∷ []

  unfoldable pub clear_pinned_message_data : World → List Call
  clear_pinned_message_data w =
      if is_absent w then [] else delete_data w.room.current_lobby key_pinned ∷ []

  unfoldable pub get_lobby_name : World → List ℕ
  get_lobby_name w =
      if is_absent w then [] else text_or_empty (steam.data_of w.room.current_lobby key_name)

  unfoldable pub get_lobby_members : World → List ℕ
  get_lobby_members w =
      if w.room.current_lobby == 0 then [] else steam.members_of w.room.current_lobby

  -- The name that is published: the one given, or else our own.
  unfoldable pub published_name : Room → List ℕ
  published_name room =
      if is_empty room.lobby_name && steam.has_friends
      then text_or_empty steam.my_name
      else room.lobby_name

  unfoldable pub metadata : Room → List Call
  unfolding published_name
  metadata room =
      let lobby = room.current_lobby in
      let owner = steam.owner_of lobby in
      let name = published_name room in
      (if room.publish_lobby then set_data lobby key_tag (b'1' ∷ []) else delete_data lobby key_tag)
      ∷ ((if is_empty name then [] else set_data lobby key_name name ∷ [])
          ++ ((if steam.is_valid_id owner
                then set_data lobby key_host_id (to_text owner) ∷ []
                else [])
              ++ ((if steam.has_friends then set_if_some lobby key_host_name steam.my_name else [])
                  ++ ((if steam.has_utils
                        then set_data lobby key_ping_location steam.my_location ∷ []
                        else [])
                      ++ set_data lobby key_mode
                          (if room.advertised_wants_tun then mode_tun else mode_tcp)
                        ∷ []))))

  unfoldable pub refresh_lobby_metadata : World → List Call
  unfolding metadata
  refresh_lobby_metadata w =
      let is_owner = is_me steam.my_id (steam.owner_of w.room.current_lobby) in
      if is_absent w
      then []
      else if not w.net.is_host && not (w.room.vpn_mode && is_owner)
      then []
      else metadata w.room

  unfoldable pub set_lobby_name : List ℕ → Method
  unfolding refresh_lobby_metadata
  set_lobby_name name w =
      let w' = record w { room = record (w.room) { lobby_name = name } } in
      (w', refresh_lobby_metadata w')

  unfoldable pub set_publish_lobby : Bool → Method
  unfolding refresh_lobby_metadata
  set_publish_lobby publish w =
      let w' = record w { room = record (w.room) { publish_lobby = publish } } in
      (w', refresh_lobby_metadata w')

  abbrev networked : List Connections.Call → List Call
  networked [] = []
  networked (c ∷ cs) = network c ∷ networked cs

  -- The ping to the location that the lobby names, if it names one.
  unfoldable pub direct_ping : List ℕ → Option ℕ
  direct_ping [] = none
  direct_ping (c ∷ cs) = measured (steam.ping_to (c ∷ cs))

  unfoldable pub decide_transport_for_current_lobby : World → List Call
  unfolding direct_ping
  decide_transport_for_current_lobby w =
      let location = text_or_empty (steam.data_of w.room.current_lobby key_ping_location) in
      let relay = measured (some (estimate_relay_ping_ms steam.has_utils steam.pop_pings)) in
      if w.room.vpn_mode || w.net.is_host || is_absent w || not steam.has_utils
      then []
      else networked (apply_transport_preference steam.has_utils (direct_ping location) relay)

  unfoldable pub send_chat_message : List ℕ → World → Bool × List Call
  send_chat_message message w =
      if is_empty message || is_absent w
      then (false, [])
      else (steam.sends_chat, send_chat w.room.current_lobby message ∷ [])

  unfoldable pub handle_chat_message : ℕ → List ℕ → World → List Call
  handle_chat_message sender payload w =
      if not w.room.has_chat_callback || is_empty payload || not (steam.is_valid_id sender)
      then []
      else chat_received sender payload ∷ []

  unfoldable pub notify_lobby_list_updated : World → List Call
  notify_lobby_list_updated w =
      if w.room.has_list_callback then list_updated w.room.lobby_infos ∷ [] else []
