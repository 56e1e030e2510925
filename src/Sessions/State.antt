-- ===== src/Sessions/State.antt =====
-- SteamVpnNetworkingManager: its members, and the calls it makes.
use connecttool_qt.Base.{
  ℕ, List, [], ◌∷◌, ◌++◌, Bool, true, false, Option, none, some, map, if◌then◌else◌,
}
use connecttool_qt.Base.Map.{Map, find}
use connecttool_qt.Base.Key.{nat_key}
use connecttool_qt.Steam.{Flags, Setting, reliable, unreliable_no_delay}
use connecttool_qt.Bridge.State.{
  Bridge, Output, to_user, to_all, to_device, set_ip, add_route, close_device,
}

-- A std::set of Steam IDs: its loops meet the IDs in ascending order.
abbrev pub Peers : Type 0
Peers = Map ℕ Unit

abbrev pub is_some {ℓ} : {A : Type ℓ} → Option A → Bool
is_some none = false
is_some (some a) = true

abbrev pub has : ℕ → Peers → Bool
has peer peers = is_some (find peer peers)

-- VpnMessageHandler. The pointers are known to be set or not: the timer, its pending wait, and
-- the thread of the handler's own context; `external` is set with an outer context.
pub record Handler : Type 0 where
  pub running : Bool
  pub external : Bool
  pub timer : Bool
  pub waiting : Bool
  pub thread : Bool
  pub poll_interval : ℕ

-- `ready` says that the interface to Steam's messages is there.
pub record Manager : Type 0 where
  pub ready : Bool
  pub peers : Peers
  pub handler : Option Handler
  pub bridge : Option Bridge
  pub host_steam_id : ℕ

-- The calls that leave the manager and its bridge, to Steam or to the TUN device.
pub data Call : Type 0 where
  configure : Setting → Call
  send : ℕ → List ℕ → Flags → Call
  close_session : ℕ → Call
  accept_session : ℕ → Call
  device : Output → Call

abbrev pub Method : Type 0
Method = Manager → Manager × List Call

unfoldable pub then_do : Manager × List Call → Method → Manager × List Call
then_do r f = ((f r.0).0, r.1 ++ (f r.0).1)

unfoldable pub new : Manager
new = record { ready = false; peers = []; handler = none; bridge = none; host_steam_id = 0 }

-- The message handler that initialize creates; the intervals are in microseconds.
abbrev pub min_poll_interval : ℕ
min_poll_interval = 100

abbrev pub max_poll_interval : ℕ
max_poll_interval = 1000

abbrev pub poll_increment : ℕ
poll_increment = 100

unfoldable pub new_handler : Handler
new_handler = record {
  running = false;
  external = false;
  timer = false;
  waiting = false;
  thread = false;
  poll_interval = min_poll_interval;
}

-- What sendMessageToUser and broadcastMessage send.
unfoldable pub send_message_to_user : Manager → ℕ → List ℕ → Flags → List Call
send_message_to_user m peer bytes flags = if m.ready then send peer bytes flags ∷ [] else []

unfoldable pub broadcast_message : Manager → List ℕ → Flags → List Call
broadcast_message m bytes flags =
    if m.ready then map (λ (e : ℕ × Unit). send e.0 bytes flags) m.peers else []

abbrev pub flags_of : Bool → Flags
flags_of true = reliable
flags_of false = unreliable_no_delay

-- A call of the bridge, made on the manager.
unfoldable pub carry_out : Manager → Output → List Call
unfolding send_message_to_user broadcast_message
carry_out m (to_user peer bytes rel) = send_message_to_user m peer bytes (flags_of rel)
carry_out m (to_all bytes rel) = broadcast_message m bytes (flags_of rel)
carry_out m (to_device bytes) = device (to_device bytes) ∷ []
carry_out m (set_ip ip mask) = device (set_ip ip mask) ∷ []
carry_out m (add_route ip mask) = device (add_route ip mask) ∷ []
carry_out m close_device = device close_device ∷ []

unfoldable pub carry_out_all : Manager → List Output → List Call
carry_out_all m [] = []
carry_out_all m (o ∷ os) = carry_out m o ++ carry_out_all m os
