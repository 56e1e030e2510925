-- ===== src/Tunnel/Callbacks.antt =====
-- The callbacks of a connection's multiplexer: of its flush's timer, a read and a write.
use connecttool_qt.Base.{ℕ, List, [], map, Bool, Option, none, some, if◌then◌else◌}
use connecttool_qt.Base.Key.{nat_key}
use connecttool_qt.Base.Map.{find}
use connecttool_qt.Multiplex.Packet.{ClientId}
use connecttool_qt.Multiplex.State as Multiplex
use connecttool_qt.Multiplex.Queue.Flush.{Flushed, rearm, on_timer}
use connecttool_qt.Multiplex.Manager.{Handled, start_read, on_read, remove_client}
use connecttool_qt.Tunnel.State.{Network, steam_on, Method}
use connecttool_qt.Tunnel.Poll.{settle}

module _ (net : Network) where
  unfoldable pub on_found :
      (conn : ℕ)
      → (Multiplex.Manager → net.World → Handled (steam_on net conn))
      → Option Multiplex.Manager
      → Method net
  unfolding settle
  on_found conn f none t = (t, [])
  on_found conn f (some m) t = settle net conn (f m t.world) t

  -- On the multiplexer of a connection, if it has one.
  unfoldable pub on_manager :
      (conn : ℕ) → (Multiplex.Manager → net.World → Handled (steam_on net conn)) → Method net
  unfolding on_found
  on_manager conn f t = on_found conn f (find conn t.managers) t

  -- After a flush the reads are resumed whose IDs it gives. The fuel does not run out.
  unfoldable pub flushed :
      (conn : ℕ)
      → Multiplex.Manager
      → net.World
      → Option (Flushed (steam_on net conn) × List ClientId × Option ℕ)
      → Handled (steam_on net conn)
  flushed conn m w none = record { manager = m; world = w; passed = []; effects = [] }
  flushed conn m w (some (r, resumed, delay)) = record {
    manager = r.manager;
    world = r.world;
    passed = r.passed;
    effects = map start_read resumed;
  }

  -- The handler of the flush's timer: `failed` is its error.
  unfoldable pub fire :
      Bool → (conn : ℕ) → Multiplex.Manager → net.World → Handled (steam_on net conn)
  unfolding rearm flushed
  fire failed conn m w =
      if failed
      then record {
        manager = (rearm (steam_on net conn) m).0;
        world = w;
        passed = [];
        effects = [];
      }
      else flushed conn m w (on_timer (steam_on net conn) m w)

  unfoldable pub on_flush_timer : Bool → ℕ → Method net
  unfolding on_manager fire
  on_flush_timer failed conn = on_manager conn (fire failed conn)

  -- The callback of startAsyncRead: the bytes, or nothing on an error.
  unfoldable pub on_client_read : ℕ → ClientId → Option (List ℕ) → Method net
  unfolding on_manager
  on_client_read conn id bytes = on_manager conn (on_read (steam_on net conn) id bytes)

  unfoldable pub drop_failed :
      (conn : ℕ) → ClientId → Multiplex.Manager → net.World → Handled (steam_on net conn)
  drop_failed conn id m w =
      let (was, m', effects) = remove_client id m in
      record { manager = m'; world = w; passed = []; effects = effects }

  -- The callback of a write to a client that failed; one that succeeds does nothing.
  unfoldable pub on_write_failed : ℕ → ClientId → Method net
  unfolding on_manager drop_failed
  on_write_failed conn id = on_manager conn (drop_failed conn id)
