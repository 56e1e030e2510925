-- ===== src/Sessions/Hello.antt =====
-- SESSION_HELLO: the poll skips it, and a bridge would do nothing with it.
use connecttool_qt.Base.{
  ℕ, ◌+◌, ◌≡◌, refl, List, [], ◌∷◌, true, Option, none, some, ◌==◌, ==_iff, ltb, length, arith, ap,
  ap₂, sym, ◌∙◌, if_cases,
}
use connecttool_qt.Platform.{Platform}
use connecttool_qt.Wire.{load, field_at}
use connecttool_qt.Protocol.Messages.{session_hello, type_code, type_of_code, size_header}
use connecttool_qt.Protocol.Frame.{unframe}
use connecttool_qt.Bridge.State.{Bridge, Host}
use connecttool_qt.Bridge.Receive.{handle_vpn_message, handle_frame, dispatch_code, dispatch}
use connecttool_qt.Sessions.State.{Manager, Method, then_do, carry_out_all}
use connecttool_qt.Sessions.Peers.{host_of, on_bridge, settle, handle_incoming_vpn_message}
use connecttool_qt.Sessions.Handler.{Message, is_hello, handle_message, handle_messages}

module _ (p : Platform) (host : Host) (now : ℕ) where
  hello_code :
      (code : ℕ) (payload : List ℕ) (sender : ℕ) (b : Bridge)
      → (code == type_code session_hello) ≡ true
      → handle_frame p host now (some (code, payload)) sender b ≡ (b, [])
  unfolding handle_frame dispatch_code dispatch type_of_code type_code
  hello_code code payload sender b h = rw ((==_iff code 20).0 h) refl

  handle_hello :
      (bytes : List ℕ) (sender : ℕ) (b : Bridge)
      → (load (field_at 0 1 bytes) == type_code session_hello) ≡ true
      → handle_vpn_message p host now bytes sender b ≡ (b, [])
  unfolding handle_vpn_message handle_frame unframe
  handle_hello bytes sender b h =
      let IsIdle : Option (ℕ × List ℕ) → Type 0 =
        λ o. handle_frame p host now o sender b ≡ (b, []) in
      if_cases IsIdle (ltb (length bytes) size_header) {x = none} (λ _. refl)
        λ _.
          if_cases IsIdle (ltb (length bytes) (size_header + p.ntohs (load (field_at 1 2 bytes))))
            {x = none} (λ _. refl) (λ _. hello_code (load (field_at 0 1 bytes)) _ sender b h)

module _ (p : Platform) (host : Host) (now : ℕ) where
  -- The loop of pollMessages without its test.
  abbrev pub handle_all : List Message → Method
  handle_all [] m = (m, [])
  handle_all (msg ∷ msgs) m =
      then_do (handle_incoming_vpn_message p host now msg.bytes msg.sender m) (handle_all msgs)

  on_bridge_hello :
      (o : Option Bridge) (m : Manager) (bytes : List ℕ) (sender : ℕ)
      → m.bridge ≡ o
      → (load (field_at 0 1 bytes) == type_code session_hello) ≡ true
      → on_bridge (handle_vpn_message p (host_of host m) now bytes sender) o m ≡ (m, [])
  unfolding on_bridge settle carry_out_all
  on_bridge_hello none m bytes sender e h = refl
  on_bridge_hello (some b) m bytes sender e h =
      ap (settle m) (handle_hello p (host_of host m) now bytes sender b h)
      ∙ ap (λ o. (record m { bridge = o }, [])) (sym e)

  handle_message_lem :
      (msg : Message) (m : Manager)
      → handle_message p host now msg m
        ≡ handle_incoming_vpn_message p host now msg.bytes msg.sender m
  unfolding handle_message is_hello handle_incoming_vpn_message
  handle_message_lem msg m =
      if_cases (λ r. r ≡ handle_incoming_vpn_message p host now msg.bytes msg.sender m)
        (is_hello msg)
        (λ h. sym (on_bridge_hello m.bridge m msg.bytes msg.sender refl (ground arith))) (λ _. refl)

  -- The poll, which skips every SESSION_HELLO, has the same result as handing every message to the
  -- bridge: the same state and the same calls.
  pub handle_messages_lem :
      (msgs : List Message) (m : Manager) → handle_messages p host now msgs m ≡ handle_all msgs m
  unfolding handle_messages
  handle_messages_lem [] m = refl
  handle_messages_lem (msg ∷ msgs) m =
      ap₂ then_do (handle_message_lem msg m) (λ i m'. handle_messages_lem msgs m' i)
