-- ===== src/Rooms/Trust.antt =====
-- Who can set the pings of a guest.
use connecttool_qt.Base.{
  ℕ, ◌≤◌, ◌≡◌, ◌≢◌, refl, ap, ◌∙◌, List, [], ◌∷◌, Bool, true, false, ◌&&◌, not, Option, some, none,
  All, if◌then◌else◌, ◌==◌, arith, length, take_all, if_cases,
}
use connecttool_qt.Rooms.State.{World, Steam, send_chat}
use connecttool_qt.Rooms.Pings.{
  Entry, ping_payload, broadcast_pings, has_ping_prefix, handle_ping_message,
}
use connecttool_qt.Rooms.RoundTrip.{FitsEntry, enter_all, handle_ping_message-ping_payload}
use connecttool_qt.Rooms.Callbacks.{
  until_zero, payload_of, is_current, on_chat_text, on_lobby_chat_msg,
}

until_zero-All : (bytes : List ℕ) → All (λ b. b ≢ 0) bytes → until_zero bytes ≡ bytes
unfolding until_zero
until_zero-All [] h = refl
until_zero-All (b ∷ bytes) (h, hs) = ground (arith, until_zero-All bytes hs)

payload_of-All :
    (bytes : List ℕ) → length bytes ≤ 2047 → All (λ b. b ≢ 0) bytes → payload_of bytes ≡ bytes
unfolding payload_of
payload_of-All bytes short h = rw (take_all 2047 bytes short) (until_zero-All bytes h)

sent_payload :
    (steam : Steam) (host : World) (entries : List Entry) (lobby : ℕ) (payload : List ℕ)
    → broadcast_pings steam entries host ≡ send_chat lobby payload ∷ []
    → payload ≡ ping_payload entries
unfolding broadcast_pings
sent_payload steam host entries lobby payload sent = ground arith

ping_payload_prefix : (entries : List Entry) → has_ping_prefix (ping_payload entries) ≡ true
unfolding ping_payload
ping_payload_prefix entries = refl

module _ (steam : Steam) (now : ℕ) where
  -- The two tests of a payload.
  trusted :
      {A : Type 0} (prefixed known : Bool) (chat kept taken : A)
      → prefixed ≡ true
      → known ≡ false
      → (if not prefixed then chat else if known then kept else taken) ≡ taken
  trusted true false chat kept taken h k = refl
  trusted false known chat kept taken h k = absurd (ground arith)
  trusted true true chat kept taken h k = absurd (ground arith)

  -- The sender is known not to be the owner.
  abbrev is_other : ℕ → ℕ → Bool
  is_other owner sender =
      steam.is_valid_id owner && steam.is_valid_id sender && not (sender == owner)

  other_false : (owner sender : ℕ) → sender ≡ owner → is_other owner sender ≡ false
  other_false owner sender e = ground arith

  on_lobby_chat_msg_untrusted :
      (lobby sender : ℕ) (entry : Option (List ℕ)) (w : World)
      → is_other (steam.owner_of lobby) sender ≡ true
      → (on_lobby_chat_msg steam now lobby sender entry w).0 ≡ w
  unfolding on_lobby_chat_msg on_chat_text
  on_lobby_chat_msg_untrusted lobby sender none w h = refl
  on_lobby_chat_msg_untrusted lobby sender (some entry) w h = ground (arith, h)

  -- If a host's broadcast of pings makes a message of at most 2047 bytes without a zero byte,
  -- whose entries have an ID and a ping that fit and a relay without semicolon, then a guest in
  -- that lobby who gets it from the owner has every ping that is not negative under its ID, in
  -- order, and keeps everything else.
  pub broadcast_pings-received :
      (host guest : World) (host_steam : Steam) (entries : List Entry) (lobby sender : ℕ)
      (payload : List ℕ)
      → broadcast_pings host_steam entries host ≡ send_chat lobby payload ∷ []
      → All FitsEntry entries
      → length payload ≤ 2047
      → All (λ b. b ≢ 0) payload
      → is_current steam now lobby guest ≡ true
      → sender ≡ steam.owner_of lobby
      → on_lobby_chat_msg steam now lobby sender (some payload) guest ≡ (
        record guest {
          room = record (guest.room) {
            remote_pings = enter_all now entries guest.room.remote_pings;
          };
        },
        [],
      )
  unfolding on_lobby_chat_msg on_chat_text
  broadcast_pings-received host guest host_steam entries lobby sender payload sent fits short h
        current owner =
      let e = sent_payload host_steam host entries lobby payload sent in
      let text = payload_of-All payload short h in
      let prefixed : has_ping_prefix (payload_of payload) ≡ true =
        ap has_ping_prefix (text ∙ e) ∙ ping_payload_prefix entries in
      let stored : handle_ping_message now (payload_of payload) guest.room
          ≡ record (guest.room) { remote_pings = enter_all now entries guest.room.remote_pings } =
        ap (λ t. handle_ping_message now t guest.room) (text ∙ e)
        ∙ handle_ping_message-ping_payload now entries guest.room fits in
      rw current (
        trusted (has_ping_prefix (payload_of payload)) (is_other (steam.owner_of lobby) sender) _ _
          (record guest { room = handle_ping_message now (payload_of payload) guest.room }, [])
          prefixed (other_false (steam.owner_of lobby) sender owner)
        ∙ ap (λ r. (record guest { room = r }, [])) stored)

-- A message of the chat, when it comes in and from whom.
pub record Heard : Type 0 where
  pub time : ℕ
  pub sender : ℕ
  pub entry : Option (List ℕ)

abbrev pub sent_by : ℕ → List Heard → List Heard
sent_by user [] = []
sent_by user (msg ∷ messages) =
    let rest = sent_by user messages in if msg.sender == user then msg ∷ rest else rest

module _ (steam : Steam) (lobby : ℕ) where
  -- The messages of a lobby's chat in the order in which they come in.
  abbrev pub hear : List Heard → World → World
  hear [] w = w
  hear (msg ∷ messages) w =
      hear messages (on_lobby_chat_msg steam msg.time lobby msg.sender msg.entry w).0

  -- In a lobby whose owner is valid and stays the same, where all senders are valid, a sequence of
  -- chat messages of any kind leaves the same state, with its pings, as the owner's messages among
  -- them alone.
  pub hear-sent_by :
      (messages : List Heard) (w : World)
      → steam.is_valid_id (steam.owner_of lobby) ≡ true
      → All (λ (msg : Heard). steam.is_valid_id msg.sender ≡ true) messages
      → hear messages w ≡ hear (sent_by (steam.owner_of lobby) messages) w
  hear-sent_by [] w o v = refl
  hear-sent_by (msg ∷ messages) w o (s, v) =
      let owner = steam.owner_of lobby in
      let w' = (on_lobby_chat_msg steam msg.time lobby msg.sender msg.entry w).0 in
      if_cases (λ kept. hear messages w' ≡ hear kept w) (msg.sender == owner)
        {x = msg ∷ sent_by owner messages} {y = sent_by owner messages}
        (λ _. hear-sent_by messages w' o v)
        (λ e.
          ap (hear messages) (
            on_lobby_chat_msg_untrusted steam msg.time lobby msg.sender msg.entry w
              (rw (o, s, e) refl))
          ∙ hear-sent_by messages w o v)
