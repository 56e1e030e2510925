-- ===== src/Rooms/Listing.antt =====
-- The list of lobbies that the user sees.
use connecttool_qt.Base.{
  ℕ, ◌≡◌, refl, ap, ◌∙◌, List, [], ◌∷◌, ◌++◌, Bool, true, false, ◌&&◌, ◌||◌, not, map,
  if◌then◌else◌, ◌==◌,
}
use mathlib.Core.List.{map-append}
use connecttool_qt.Base.Set.{contains}
use connecttool_qt.Base.Key.{nat_key}
use connecttool_qt.Rooms.State.{Room, World, LobbyInfo, Steam}
use connecttool_qt.Rooms.Callbacks.{info_of, any_id, with_current, on_lobby_list_received}

module _ (steam : Steam) (now : ℕ) where
  abbrev pub id_of : LobbyInfo → ℕ
  id_of info = info.id

  ids_found : (found : List ℕ) → map id_of (map (info_of steam now) found) ≡ found
  unfolding info_of
  ids_found [] = refl
  ids_found (lobby ∷ found) = ap (◌∷◌ lobby) (ids_found found)

  any_id-map :
      (lobby : ℕ) (found : List ℕ)
      → any_id steam now lobby (map (info_of steam now) found) ≡ contains lobby found
  unfolding contains info_of
  any_id-map lobby [] = refl
  any_id-map lobby (l ∷ found) = ap (λ b. (l == lobby) || b) (any_id-map lobby found)

  -- The lobbies that were found, and the current one behind them if it is to be listed and is not
  -- among them.
  abbrev pub listing : Room → List ℕ → List ℕ
  listing room found =
      if steam.is_valid_id room.current_lobby
        && room.publish_lobby
        && not (contains room.current_lobby found)
      then found ++ room.current_lobby ∷ []
      else found

  appended :
      (b : Bool) (lobby : ℕ) (found : List ℕ)
      → map id_of (
          if b
          then map (info_of steam now) found ++ info_of steam now lobby ∷ []
          else map (info_of steam now) found)
        ≡ (if b then found ++ lobby ∷ [] else found)
  unfolding info_of
  appended true lobby found =
      map-append id_of (map (info_of steam now) found) (info_of steam now lobby ∷ [])
      ∙ ap (λ ids. ids ++ lobby ∷ []) (ids_found found)
  appended false lobby found = ids_found found

  with_current_ids :
      (room : Room) (found : List ℕ)
      → map id_of (with_current steam now room (map (info_of steam now) found)) ≡ listing room found
  unfolding with_current
  with_current_ids room found =
      rw (any_id-map room.current_lobby found) (appended _ room.current_lobby found)

  -- A list of lobbies that was received shows the lobbies found, in order, and behind them the
  -- current one if it is valid, published and not among them.
  pub on_lobby_list_received_ids :
      (found : List ℕ) (w : World)
      → map id_of (on_lobby_list_received steam now false found w).0.room.lobby_infos
        ≡ listing w.room found
  unfolding on_lobby_list_received
  on_lobby_list_received_ids found w = with_current_ids w.room found
