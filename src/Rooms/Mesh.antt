-- ===== src/Rooms/Mesh.antt =====
-- The peers of the virtual network follow the members of the lobby: the calls of the room manager,
-- carried out by the manager of sessions.
use connecttool_qt.Base.{
  ℕ, ◌≡◌, refl, ap, ◌∙◌, List, [], ◌∷◌, ◌++◌, Bool, true, false, ◌&&◌, ◌||◌, not, some,
  if◌then◌else◌, ◌==◌, ==_iff, arith, if_cases,
}
use connecttool_qt.Base.Set.{contains}
use connecttool_qt.Base.Key.{nat_key}
use connecttool_qt.Platform.{Platform}
use connecttool_qt.Bridge.State.{Host}
use connecttool_qt.Sessions.State.{Manager, has, then_do}
use connecttool_qt.Sessions.Peers as Sessions
use connecttool_qt.Sessions.Loops.{has-assign, add_peer_peers, add_peer_ready}
use connecttool_qt.Rooms.State.{
  World, Steam, Call, Method, peer_added, peer_removed, peers_cleared, is_me,
}
use connecttool_qt.Rooms.Lobby.{leave_lobby, leave_current}
use connecttool_qt.Rooms.Metadata.{refresh_lobby_metadata, metadata}
use connecttool_qt.Rooms.Callbacks.{add_members, enter_vpn}

module _ (p : Platform) (host : Host) (at : ℕ) where
  abbrev pub follow : Call → Manager → Manager
  follow (peer_added peer) m = (Sessions.add_peer p host true at peer m).0
  follow (peer_removed peer) m = (Sessions.remove_peer p host true at peer m).0
  follow peers_cleared m = (Sessions.clear_peers p host true at m).0
  follow _ m = m

  abbrev pub follow_all : List Call → Manager → Manager
  follow_all [] m = m
  follow_all (c ∷ calls) m = follow_all calls (follow c m)

  follow_all-append :
      (xs ys : List Call) (m : Manager) → follow_all (xs ++ ys) m ≡ follow_all ys (follow_all xs m)
  follow_all-append [] ys m = refl
  follow_all-append (x ∷ xs) ys m = follow_all-append xs ys (follow x m)

  module _ (steam : Steam) (now : ℕ) (on_mode : Bool → ℕ → Method) where
    follow_all-refresh :
        (w : World) (m : Manager) → follow_all (refresh_lobby_metadata steam w) m ≡ m
    unfolding refresh_lobby_metadata metadata
    follow_all-refresh w m = ground arith

    has-add_members :
        (q : ℕ) (members : List ℕ) (m : Manager)
        → m.ready ≡ true
        → steam.my_id ≡ some host.my_steam_id
        → has q (follow_all (add_members steam now on_mode members) m).peers
          ≡ has q m.peers || (contains q members && not (q == host.my_steam_id))
    unfolding contains
    has-add_members q [] m r me = ground arith
    has-add_members q (member ∷ members) m r me = rw me (
        grind (
          arith,
          ==_iff member q,
          add_peer_peers p host true at member m,
          has-assign q member m.peers,
          has-add_members q members m r me,
          has-add_members q members (Sessions.add_peer p host true at member m).0
              (add_peer_ready p host true at member m ∙ r) me,
        ))

    -- If the manager of sessions is ready and carries out the calls of the room manager for
    -- entering a lobby in the mode with the virtual network, then its peers are those it had and
    -- the members of the lobby, without ourselves.
    pub follow_all-enter_vpn :
        (lobby q : ℕ) (w : World) (m : Manager)
        → m.ready ≡ true
        → steam.my_id ≡ some host.my_steam_id
        → w.room.has_vpn_manager ≡ true
        → has q (follow_all (enter_vpn steam now on_mode lobby w) m).peers
          ≡ has q m.peers || (contains q (steam.members_of lobby) && not (q == host.my_steam_id))
    unfolding enter_vpn refresh_lobby_metadata
    follow_all-enter_vpn lobby q w m r me vpn = rw vpn (
        let joined = follow_all (add_members steam now on_mode (steam.members_of lobby)) m in
        let is_owner = is_me steam.my_id (steam.owner_of lobby) in
        let published = if is_owner then refresh_lobby_metadata steam w else [] in
        let unmoved : follow_all published joined ≡ joined =
          if_cases (λ calls. follow_all calls joined ≡ joined) is_owner
            {x = refresh_lobby_metadata steam w} {y = []} (λ _. follow_all-refresh w joined)
            (λ _. refl) in
        ap (λ (m' : Manager). has q m'.peers)
          (follow_all-append (add_members steam now on_mode (steam.members_of lobby)) published m
            ∙ unmoved)
        ∙ has-add_members q (steam.members_of lobby) m r me)

  -- Leaving: nobody.
  pub follow_all-leave_lobby :
      (w : World) (m : Manager)
      → (w.room.current_lobby == 0) ≡ false
      → w.room.vpn_mode ≡ true
      → w.room.has_vpn_manager ≡ true
      → (follow_all (leave_lobby w).1 m).peers ≡ []
  unfolding leave_lobby leave_current Sessions.clear_peers then_do
  follow_all-leave_lobby w m lobby vpn manager = rw (lobby, vpn, manager) refl
