-- ===== src/Sessions/Tests.antt =====
-- A manager with peers 33 and 44, and a bridge that has a route to each.
use connecttool_qt.Base.{
  ℕ, ◌≡◌, refl, List, [], ◌∷◌, true, false, none, some, replicate, ◌==◌, arith,
}
use connecttool_qt.Base.Map.{Map, find}
use connecttool_qt.Base.Key.{nat_key}
use connecttool_qt.Samples.{platform}
use connecttool_qt.Bridge.State.{Bridge, RouteEntry, Host}
use connecttool_qt.Bridge.State as B
use connecttool_qt.Bridge.Events as Bridge
use connecttool_qt.Bridge.Table.{IsTable}
use connecttool_qt.Sessions.State.{has, Manager, new}
use connecttool_qt.Sessions.Peers.{sync_peers}
use connecttool_qt.Sessions.Handler.{Message, handle_messages}
use connecttool_qt.Sessions.Events.{
  Event, initializes, attaches, adds, syncs, failed, starts_handler, fires, bridges, run,
}
use connecttool_qt.Sessions.Invariant.{IsValid}
use connecttool_qt.Sessions.History.{run-IsValid}
use connecttool_qt.Sessions.Sync.{IsGoal, sync_peers-IsGoal}
use connecttool_qt.Sessions.Hello.{handle_all, handle_messages_lem}

abbrev host : Host
host = record {
  my_steam_id = 7;
  persona_name = λ user. [];
  my_name = [];
  peer_count = 0;
  configures = true;
  inet_pton = λ text. some 10;
}

abbrev route : ℕ → ℕ → RouteEntry
route user ip = record {
  steam_id = user;
  ip_address = ip;
  name = [];
  is_local = user == 7;
  node_id = user ∷ replicate 31 0;
}

abbrev table : Map ℕ RouteEntry
table = (167772163, route 33 167772163) ∷ (167772164, route 44 167772164) ∷ []

abbrev bridge : Bridge
bridge = record (B.new) { routing_table = table }

abbrev manager : Manager
manager = record {
  ready = true;
  peers = (33, tt) ∷ (44, tt) ∷ [];
  handler = none;
  bridge = some bridge;
  host_steam_id = 0;
}

table-IsTable : IsTable table
unfolding find
table-IsTable = record {
  sorted = ((refl, tt), (tt, tt));
  keyed = λ ip e h. ground arith;
  single = λ ip ip' e e' h h' same. ground arith;
}

not_ours : (peer : ℕ) → (peer == 7) ≡ true → has peer manager.peers ≡ false
unfolding find
not_ours peer h = ground arith

-- We and 44 are wanted; 33 is to go.
sync_peers-IsGoal_example :
    IsGoal platform host true 5
      ((7, tt) ∷ (44, tt) ∷ (55, tt) ∷ [])
      (sync_peers platform host true 5 ((7, tt) ∷ (44, tt) ∷ (55, tt) ∷ []) manager).0.peers
sync_peers-IsGoal_example =
    sync_peers-IsGoal platform host true 5 ((7, tt) ∷ (44, tt) ∷ (55, tt) ∷ []) manager refl
      not_ours

abbrev hello : Message
hello = record { bytes = 20 ∷ 0 ∷ 0 ∷ []; sender = 33 }

abbrev routes : Message
routes = record { bytes = 3 ∷ 0 ∷ 12 ∷ replicate 12 1; sender = 44 }

abbrev events : List Event
events =
    initializes true true
    ∷ attaches
    ∷ starts_handler
    ∷ adds 5 33
    ∷ syncs 6 ((44, tt) ∷ [])
    ∷ fires 7 false (hello ∷ routes ∷ [])
    ∷ bridges (Bridge.beats 8)
    ∷ failed 44
    ∷ []

run-IsValid_example : IsValid platform host true (run platform host true events new).0
run-IsValid_example = run-IsValid platform host true events

handle_messages_lem_example :
    handle_messages platform host 9 (hello ∷ routes ∷ []) manager
    ≡ handle_all platform host 9 (hello ∷ routes ∷ []) manager
handle_messages_lem_example = handle_messages_lem platform host 9 (hello ∷ routes ∷ []) manager

is_known : has 33 manager.peers ≡ true
unfolding find
is_known = refl
