-- ===== src/Tunnel/State.antt =====
-- The members of SteamMessageHandler and of TCPServer, and what the two do.
use connecttool_qt.Base.{ℕ, List, [], ◌++◌, Bool, false, Option, none, some}
use connecttool_qt.Base.Key.{nat_key}
use connecttool_qt.Base.Map.{Map, find}
use connecttool_qt.Multiplex.Packet.{ClientId, Packet}
use connecttool_qt.Multiplex.State.{SendResult, Steam}
use connecttool_qt.Multiplex.State as Multiplex
use connecttool_qt.Multiplex.Manager.{Effect}

-- Steam's sockets and the clock, with the connection as an argument.
pub record Network : Type 1 where
  pub World : Type 0
  pub status : ℕ → World → Option ℕ × World
  pub send_message : ℕ → Packet → World → SendResult × World
  pub clock : World → ℕ × World

abbrev pub steam_on : Network → ℕ → Steam
steam_on net conn = record {
  World = net.World;
  status = net.status conn;
  send_message = net.send_message conn;
  clock = net.clock;
}

-- What leaves the program: on a connection's multiplexer, a socket's operation or a packet that
-- trySendPacket was done with; and for the server a write to a client, the number of clients for
-- the callback, a read that is started, and an accept.
pub data Output : Type 0 where
  on_socket : ℕ → Effect → Output
  passed : ℕ → ClientId → Packet → Output
  write : ℕ → List ℕ → Output
  client_count : ℕ → Output
  read : ℕ → ClientId → Output
  accept : Output

module _ (net : Network) where
  -- `waiting` says that the poll's timer has a wait pending; `clients` are the server's sockets.
  pub record Tunnel : Type 0 where
    pub running : Bool
    pub waiting : Bool
    pub poll_interval : ℕ
    pub managers : Map ℕ Multiplex.Manager
    pub world : net.World
    pub server_running : Bool
    pub clients : List ℕ

  abbrev pub Method : Type 0
  Method = Tunnel → Tunnel × List Output

  unfoldable pub then_do : Tunnel × List Output → Method → Tunnel × List Output
  then_do r f = ((f r.0).0, r.1 ++ (f r.0).1)

  unfoldable pub new : net.World → Tunnel
  new w = record {
    running = false;
    waiting = false;
    poll_interval = 0;
    managers = [];
    world = w;
    server_running = false;
    clients = [];
  }

abbrev pub or_new : Option Multiplex.Manager → Multiplex.Manager
or_new none = Multiplex.new
or_new (some m) = m

-- getMultiplexManager: a connection's multiplexer, which is new if there is none yet.
unfoldable pub get_multiplex_manager : ℕ → Map ℕ Multiplex.Manager → Multiplex.Manager
get_multiplex_manager conn managers = or_new (find conn managers)
