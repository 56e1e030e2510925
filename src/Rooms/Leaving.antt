-- ===== src/Rooms/Leaving.antt =====
-- After a lobby was left.
use connecttool_qt.Base.{
  ℕ, ◌≡◌, refl, sym, ◌∙◌, List, [], Bool, true, false, ◌&&◌, some, ◌==◌, arith, if_cases,
}
use mathlib.Core.Path.{subst}
use connecttool_qt.Connections.State as Connections
use connecttool_qt.Connections.Manager.{disconnect}
use connecttool_qt.Connections.Update.{
  update, check_connection, check_pending, close_if_set, try_relay,
}
use connecttool_qt.Rooms.State.{World, Steam, Method, then_do}
use connecttool_qt.Rooms.Lobby.{leave_current, leave_lobby}
use connecttool_qt.Rooms.Callbacks.{
  on_net, is_current, on_lobby_chat_msg, on_lobby_chat_update, on_lobby_data_update,
  on_member_left_tcp,
}

leave_lobby_current : (w : World) → (leave_lobby w).0.room.current_lobby ≡ 0
unfolding leave_lobby leave_current
leave_lobby_current w = ground arith

module _ (steam : Steam) (now : ℕ) where
  no_lobby :
      (lobby : ℕ) (w : World)
      → steam.is_valid_id 0 ≡ false
      → w.room.current_lobby ≡ 0
      → is_current steam now lobby w ≡ false
  no_lobby lobby w nil e = rw (e, nil) refl

  no_data :
      (succeeds : Bool) (lobby member current : ℕ)
      → steam.is_valid_id 0 ≡ false
      → current ≡ 0
      → (succeeds && steam.is_valid_id lobby && (lobby == current) && (lobby == member)) ≡ false
  no_data succeeds lobby member current nil e = ground arith

  -- A report makes no call and changes nothing.
  abbrev pub Ignored : Method → World → Type 0
  Ignored f w = f w ≡ (w, [])

  -- If 0 is no valid lobby, then after leaving the lobby a chat message, a change of members or a
  -- change of the data, of any lobby, makes no call and changes nothing.
  pub leave_lobby-Ignored :
      (on_mode : Bool → ℕ → Method) (w : World) (lobby sender user member : ℕ) (entry : List ℕ)
      (entered left succeeds : Bool)
      → steam.is_valid_id 0 ≡ false
      → let w' = (leave_lobby w).0 in
        Ignored (on_lobby_chat_msg steam now lobby sender (some entry)) w'
        × Ignored (on_lobby_chat_update steam now lobby entered left user) w'
        × Ignored (on_lobby_data_update steam now on_mode succeeds lobby member) w'
  unfolding on_lobby_chat_msg on_lobby_chat_update on_lobby_data_update
  leave_lobby-Ignored on_mode w lobby sender user member entry entered left succeeds nil =
      let w' = (leave_lobby w).0 in
      let off = no_lobby lobby w' nil (leave_lobby_current w) in
      let none_current =
        no_data succeeds lobby member w'.room.current_lobby nil (leave_lobby_current w) in
      let update_if =
        if_cases (λ r. r ≡ (w', []))
          (succeeds
            && steam.is_valid_id lobby
            && (lobby == w'.room.current_lobby)
            && (lobby == member))
          {y = (w', [])} (λ h. absurd (ground arith)) (λ _. refl) in
      (rw off refl, rw off refl, update_if)

-- The world without connection and lobby.
abbrev pub IsIdle : World → Type 0
IsIdle w =
    (w.room.current_lobby ≡ 0)
    × ((steam : Connections.Steam) (now : ℕ) → update steam now w.net ≡ (w.net, []))

update_unconnected :
    (steam : Connections.Steam) (now : ℕ) (net : Connections.Manager)
    → net.is_client ≡ false
    → net.connection ≡ 0
    → update steam now net ≡ (net, [])
unfolding update Connections.then_do check_connection check_pending close_if_set try_relay
update_unconnected steam now net c e = ground arith

leave_lobby_net :
    (w : World)
    → ((leave_lobby w).0.net.is_client ≡ w.net.is_client)
      × ((leave_lobby w).0.net.connection ≡ w.net.connection)
unfolding leave_lobby leave_current
leave_lobby_net w = (ground arith, ground arith)

leave_lobby-IsIdle :
    (w : World) → w.net.is_client ≡ false → w.net.connection ≡ 0 → IsIdle (leave_lobby w).0
leave_lobby-IsIdle w c e = (
  leave_lobby_current w,
  λ steam now.
      update_unconnected steam now (leave_lobby w).0.net ((leave_lobby_net w).0 ∙ c)
        ((leave_lobby_net w).1 ∙ e),
)

module _ (steam : Steam) (now : ℕ) where
  on_lobby_chat_update_host :
      (w : World) (lobby user : ℕ) (entered : Bool)
      → is_current steam now lobby w ≡ true
      → w.room.vpn_mode ≡ false
      → w.net.is_host ≡ false
      → (user == w.net.host_steam_id) ≡ true
      → on_lobby_chat_update steam now lobby entered true user w
        ≡ then_do (on_net disconnect w) leave_lobby
  unfolding on_lobby_chat_update on_member_left_tcp
  on_lobby_chat_update_host w lobby user entered current tcp guest host =
      rw (current, tcp, guest, host) refl

  -- When a client without virtual network learns that the host left its lobby, it is then in no
  -- lobby, and no later update of its connections makes a call or changes anything, whatever Steam
  -- answers.
  pub on_lobby_chat_update-IsIdle :
      (w : World) (lobby user : ℕ) (entered : Bool)
      → is_current steam now lobby w ≡ true
      → w.room.vpn_mode ≡ false
      → w.net.is_host ≡ false
      → user ≡ w.net.host_steam_id
      → IsIdle (on_lobby_chat_update steam now lobby entered true user w).0
  unfolding then_do on_net disconnect
  on_lobby_chat_update-IsIdle w lobby user entered current tcp guest host =
      subst (λ r. IsIdle r.0)
        (sym (on_lobby_chat_update_host w lobby user entered current tcp guest (ground arith)))
        (leave_lobby-IsIdle (on_net disconnect w).0 refl refl)
