-- ===== src/Steam.antt =====
-- What both networking managers ask of Steam: the settings they make at the start, and the flags
-- of a message. The flags' numbers are Steam's, so they stand here by name.
use connecttool_qt.Base.{ℕ, ◌*◌, List, [], ◌∷◌}

pub data Flags : Type 0 where
  reliable : Flags
  reliable_auto_restart : Flags
  unreliable_no_delay : Flags

-- A global setting and its value; `ice_everywhere` enables ICE with public and private addresses.
pub data Setting : Type 0 where
  send_buffer_size : ℕ → Setting
  recv_buffer_size : ℕ → Setting
  recv_buffer_messages : ℕ → Setting
  send_rate_min : ℕ → Setting
  send_rate_max : ℕ → Setting
  nagle_time : ℕ → Setting
  sdr_penalty : ℕ → Setting
  ice_penalty : ℕ → Setting
  ice_everywhere : Setting
  allow_without_auth : ℕ → Setting
  log_level_verbose : Setting

-- The settings of SteamVpnNetworkingManager::initialize, in order.
abbrev pub message_settings : List Setting
message_settings =
    send_buffer_size (2 * 1024 * 1024)
    ∷ recv_buffer_size (2 * 1024 * 1024)
    ∷ recv_buffer_messages 2048
    ∷ send_rate_min (1024 * 1024)
    ∷ send_rate_max (1024 * 1024)
    ∷ nagle_time 0
    ∷ ice_everywhere
    ∷ sdr_penalty 0
    ∷ []

-- The settings of SteamNetworkingManager::initialize, in order.
abbrev pub socket_settings : List Setting
socket_settings =
    log_level_verbose
    ∷ send_buffer_size (2 * 1024 * 1024)
    ∷ recv_buffer_size (2 * 1024 * 1024)
    ∷ recv_buffer_messages 2048
    ∷ send_rate_min (1024 * 1024)
    ∷ send_rate_max (1024 * 1024)
    ∷ sdr_penalty 0
    ∷ ice_penalty 0
    ∷ nagle_time 0
    ∷ ice_everywhere
    ∷ sdr_penalty 0
    ∷ allow_without_auth 2
    ∷ []
