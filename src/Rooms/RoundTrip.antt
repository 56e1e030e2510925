-- ===== src/Rooms/RoundTrip.antt =====
-- What a broadcast of pings leaves in the table of a guest.
use connecttool_qt.Base.{
  ℕ, ◌^◌, ◌<◌, ◌≡◌, ◌≢◌, refl, ap, ◌∙◌, List, [], ◌∷◌, ◌++◌, true, false, All, All-append, arith,
}
use mathlib.Core.List.{append-nil}
use connecttool_qt.Base.Int.{ℤ, pos, negsuc}
use connecttool_qt.Base.Key.{nat_key}
use connecttool_qt.Base.Map.{Map, assign}
use connecttool_qt.Rooms.Text.{split_at, pieces, digits, to_text}
use connecttool_qt.Rooms.State.{Room, PingInfo}
use connecttool_qt.Rooms.Pings.{
  Entry, entry_text, add_entry, entries_text, ping_payload, store_ping, read_relay, read_ping,
  handle_part, handle_parts, handle_ping_message,
}
use connecttool_qt.Rooms.Reading.{
  IsDigit, Lacks, digits-IsDigit, stoull-to_text, stoi-to_text, split_at-append, pieces_alone,
  pieces-append,
}

-- What a broadcast is for: each measured ping is entered under its ID, the last one counts.
abbrev pub enter : ℕ → Entry → ℤ → Map ℕ PingInfo → Map ℕ PingInfo
enter now e (negsuc n) table = table
enter now e (pos ping) table =
    assign e.id (record { ping = ping; relay = e.relay; updated_at = now }) table

abbrev pub enter_all : ℕ → List Entry → Map ℕ PingInfo → Map ℕ PingInfo
enter_all now [] table = table
enter_all now (e ∷ entries) table = enter_all now entries (enter now e e.ping table)

-- The ID is one of Steam's, the ping an int, and the name of the relay has no semicolon.
abbrev IsInt : ℤ → Type 0
IsInt (negsuc n) = Unit
IsInt (pos ping) = ping < 2 ^ 31

pub record FitsEntry (e : Entry) : Type 0 where
  pub id_set : 0 < e.id
  pub id_fits : e.id < 2 ^ 64
  pub ping_fits : IsInt e.ping
  pub relay_lacks : Lacks b';' e.relay

IsDigit→Lacks : (c : ℕ) (text : List ℕ) → b'9' < c → All IsDigit text → Lacks c text
IsDigit→Lacks c [] h ds = tt
IsDigit→Lacks c (d ∷ text) h (dd, ds) = (λ e. ground arith, IsDigit→Lacks c text h ds)

to_text-Lacks : (c n : ℕ) → b'9' < c → Lacks c (to_text n)
unfolding to_text
to_text-Lacks c n h = IsDigit→Lacks c (digits 20 n) h (digits-IsDigit 20 n)

entry_text-Lacks :
    (id ping : ℕ) (relay : List ℕ) → Lacks b';' relay → Lacks b';' (entry_text id ping relay)
unfolding entry_text
entry_text-Lacks id ping relay h =
    All-append (λ x. x ≢ b';') (to_text id) (b':' ∷ (to_text ping ++ b':' ∷ relay))
      (to_text-Lacks b';' id (omega arith))
      (
        λ e. absurd (omega arith),
        All-append (λ x. x ≢ b';') (to_text ping) (b':' ∷ relay)
            (to_text-Lacks b';' ping (omega arith)) (λ e. absurd (omega arith), h),
      )

-- A part of the payload enters its ping.
handle_part-entry_text :
    (now id ping : ℕ) (relay : List ℕ) (table : Map ℕ PingInfo)
    → 0 < id
    → id < 2 ^ 64
    → ping < 2 ^ 31
    → handle_part now (entry_text id ping relay) table
      ≡ assign id (record { ping = ping; relay = relay; updated_at = now }) table
unfolding handle_part entry_text read_ping read_relay store_ping
handle_part-entry_text now id ping relay table set fits int =
    rw
      (
        split_at-append b':' (to_text id) (to_text ping ++ b':' ∷ relay)
            (to_text-Lacks b':' id (omega arith)),
        split_at-append b':' (to_text ping) relay (to_text-Lacks b':' ping (omega arith)),
        stoull-to_text id fits,
        stoi-to_text ping int,
      )
      (ground arith)

-- The texts of the entries that are broadcast.
add_text : Entry → ℤ → List (List ℕ) → List (List ℕ)
add_text e (negsuc n) rest = rest
add_text e (pos ping) rest = entry_text e.id ping e.relay ∷ rest

texts : List Entry → List (List ℕ)
unfolding add_text
texts [] = []
texts (e ∷ entries) = add_text e e.ping (texts entries)

-- A text without semicolon, followed by the other entries, is taken apart into its pieces.
pieces-add :
    (text : List ℕ) (e : Entry) (ping : ℤ) (entries : List Entry)
    → Lacks b';' text
    → Lacks b';' e.relay
    → ((text' : List ℕ)
        → Lacks b';' text'
        → pieces b';' (text' ++ entries_text false entries) ≡ text' ∷ texts entries)
    → pieces b';'
        (text ++ add_entry false e ping (entries_text false entries) (entries_text false entries))
      ≡ text ∷ add_text e ping (texts entries)
unfolding add_entry add_text
pieces-add text e (negsuc n) entries h r ih = ih text h
pieces-add text e (pos ping) entries h r ih =
    pieces-append b';' text (entry_text e.id ping e.relay ++ entries_text false entries) h
    ∙ ap (◌∷◌ text) (ih (entry_text e.id ping e.relay) (entry_text-Lacks e.id ping e.relay r))

pieces-entries_text :
    (entries : List Entry) (text : List ℕ)
    → Lacks b';' text
    → All FitsEntry entries
    → pieces b';' (text ++ entries_text false entries) ≡ text ∷ texts entries
unfolding entries_text texts
pieces-entries_text [] text h fits = rw (append-nil text) (pieces_alone b';' text h)
pieces-entries_text (e ∷ entries) text h (f, fs) =
    pieces-add text e e.ping entries h f.relay_lacks
      (λ text' h'. pieces-entries_text entries text' h' fs)

handle_parts-add_text :
    (now : ℕ) (e : Entry) (ping : ℤ) (rest : List (List ℕ)) (table : Map ℕ PingInfo)
    → FitsEntry e
    → IsInt ping
    → handle_parts now (add_text e ping rest) table ≡ handle_parts now rest (enter now e ping table)
unfolding handle_parts add_text
handle_parts-add_text now e (negsuc n) rest table f i = refl
handle_parts-add_text now e (pos ping) rest table f i =
    ap (handle_parts now rest)
      (handle_part-entry_text now e.id ping e.relay table f.id_set f.id_fits i)

handle_parts-texts :
    (now : ℕ) (entries : List Entry) (table : Map ℕ PingInfo)
    → All FitsEntry entries
    → handle_parts now (texts entries) table ≡ enter_all now entries table
unfolding handle_parts texts
handle_parts-texts now [] table fits = refl
handle_parts-texts now (e ∷ entries) table (f, fs) =
    handle_parts-add_text now e e.ping (texts entries) table f f.ping_fits
    ∙ handle_parts-texts now entries (enter now e e.ping table) fs

-- The same from the first entry on, before which there is no semicolon.
handle_parts-first :
    (now : ℕ) (e : Entry) (ping : ℤ) (entries : List Entry) (table : Map ℕ PingInfo)
    → FitsEntry e
    → IsInt ping
    → All FitsEntry entries
    → ((table' : Map ℕ PingInfo)
        → handle_parts now (pieces b';' (entries_text true entries)) table'
          ≡ enter_all now entries table')
    → handle_parts now
        (pieces b';'
          (add_entry true e ping (entries_text true entries) (entries_text false entries)))
        table
      ≡ enter_all now entries (enter now e ping table)
unfolding add_entry add_text
handle_parts-first now e (negsuc n) entries table f i fs ih = ih table
handle_parts-first now e (pos ping) entries table f i fs ih =
    ap (λ ps. handle_parts now ps table)
      (pieces-entries_text entries (entry_text e.id ping e.relay)
        (entry_text-Lacks e.id ping e.relay f.relay_lacks) fs)
    ∙ handle_parts-add_text now e (pos ping) (texts entries) table f i
    ∙ handle_parts-texts now entries (enter now e (pos ping) table) fs

handle_parts-entries_text :
    (now : ℕ) (entries : List Entry) (table : Map ℕ PingInfo)
    → All FitsEntry entries
    → handle_parts now (pieces b';' (entries_text true entries)) table ≡ enter_all now entries table
unfolding handle_parts handle_part pieces entries_text split_at read_ping
handle_parts-entries_text now [] table fits = refl
handle_parts-entries_text now (e ∷ entries) table (f, fs) =
    handle_parts-first now e e.ping entries table f f.ping_fits fs
      (λ table'. handle_parts-entries_text now entries table' fs)

pub handle_ping_message-ping_payload :
    (now : ℕ) (entries : List Entry) (room : Room)
    → All FitsEntry entries
    → handle_ping_message now (ping_payload entries) room
      ≡ record room { remote_pings = enter_all now entries room.remote_pings }
unfolding handle_ping_message ping_payload
handle_ping_message-ping_payload now entries room fits =
    ap (λ table. record room { remote_pings = table })
      (handle_parts-entries_text now entries room.remote_pings fits)
