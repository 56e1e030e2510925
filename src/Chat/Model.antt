-- ===== src/Chat/Model.antt =====
-- ChatModel: its members, its methods, and the signals that they emit.
use connecttool_qt.Base.{
  ℕ, ◌+◌, ◌-◌, max, min, List, [], ◌∷◌, ◌++◌, length, drop, Bool, true, false, not, ◌&&◌, Option,
  none, some, if◌then◌else◌, ltb, ◌==◌,
}
use connecttool_qt.Base.Key.{list_same}

-- A QString is a list of its units, a valid QDateTime the milliseconds since the first one.
pub record Entry : Type 0 where
  pub steam_id : List ℕ
  pub display_name : List ℕ
  pub avatar : List ℕ
  pub message : List ℕ
  pub is_self : Bool
  pub pinned : Bool
  pub timestamp : Option ℕ

pub record ChatModel : Type 0 where
  pub entries : List Entry
  pub pinned_entry : Option Entry

pub data Signal : Type 0 where
  rows_inserted : ℕ → ℕ → Signal
  rows_removed : ℕ → ℕ → Signal
  model_reset : Signal
  count_changed : Signal
  pinned_changed : Signal
  data_changed : ℕ → ℕ → Signal

abbrev pub max_messages : ℕ
max_messages = 200

unfoldable pub new : ChatModel
new = record { entries = []; pinned_entry = none }

-- The last lines of sameMessage, on two times.
unfoldable pub same_time : Option ℕ → Option ℕ → Bool
same_time (some s) (some t) = s == t
same_time (some s) none = true
same_time none t = true

unfoldable pub same_message : Entry → Entry → Bool
unfolding same_time
same_message a b =
    list_same a.steam_id b.steam_id
    && list_same a.message b.message
    && same_time a.timestamp b.timestamp

-- `std::llabs(s.msecsTo(t))`, for two valid times
unfoldable pub time_between : Option ℕ → Option ℕ → Option ℕ
time_between (some s) (some t) = some (max s t - min s t)
time_between (some s) none = none
time_between none t = none

-- Whether the row with that time is better than the best one so far, which has its row and time.
unfoldable pub is_better : ℕ → Option (ℕ × ℕ) → Bool
is_better delta none = true
is_better delta (some (row, best)) = ltb delta best

abbrev pub row_of : Option (ℕ × ℕ) → Option ℕ
row_of none = none
row_of (some (row, best)) = some row

-- The loop of findPinnedEntryIndex from row `i` on.
unfoldable pub find_from : Entry → ℕ → Option (ℕ × ℕ) → List Entry → Option ℕ
unfolding time_between is_better
find_from pinned i best [] = row_of best
find_from pinned i best (e ∷ entries) =
    elim (list_same e.steam_id pinned.steam_id && list_same e.message pinned.message) [
      | false ↦ find_from pinned (i + 1) best entries
      | true ↦ elim (time_between pinned.timestamp e.timestamp) [
        | none ↦ some i
        | some delta ↦
            find_from pinned (i + 1) (if is_better delta best then some (i, delta) else best)
              entries
      ]
    ]

unfoldable pub find_pinned_entry_index : Option Entry → List Entry → Option ℕ
unfolding find_from
find_pinned_entry_index none entries = none
find_pinned_entry_index (some pinned) entries = find_from pinned 0 none entries

abbrev pub is_row : Option ℕ → ℕ → Bool
is_row none i = false
is_row (some row) i = i == row

-- The loop of updatePinnedFlags from row `i` on: the entries, and the rows that change.
unfoldable pub set_flags : Option ℕ → ℕ → List Entry → List Entry
set_flags row i [] = []
set_flags row i (e ∷ entries) = record e { pinned = is_row row i } ∷ set_flags row (i + 1) entries

unfoldable pub changed_rows : Option ℕ → ℕ → List Entry → List ℕ
changed_rows row i [] = []
changed_rows row i (e ∷ entries) =
    let rest = changed_rows row (i + 1) entries in
    if (if e.pinned then is_row row i else not (is_row row i)) then rest else i ∷ rest

-- The loop over changedRows behind its first row.
unfoldable pub tell_ranges : ℕ → ℕ → List ℕ → List Signal
tell_ranges start end [] = data_changed start end ∷ []
tell_ranges start end (row ∷ rows) = elim (row == end + 1) [
  | true ↦ tell_ranges start row rows
  | false ↦ data_changed start end ∷ tell_ranges row row rows
]

unfoldable pub tell_rows : List ℕ → List Signal
unfolding tell_ranges
tell_rows [] = []
tell_rows (row ∷ rows) = tell_ranges row row rows

unfoldable pub update_pinned_flags : ChatModel → ChatModel × List Signal
unfolding find_pinned_entry_index set_flags changed_rows tell_rows
update_pinned_flags m =
    let row = find_pinned_entry_index m.pinned_entry m.entries in
    (record m { entries = set_flags row 0 m.entries }, tell_rows (changed_rows row 0 m.entries))

unfoldable pub mark_new : Option Entry → Entry → Entry
unfolding same_message
mark_new none e = e
mark_new (some pinned) e = if same_message e pinned then record e { pinned = true } else e

abbrev pub trimmed : List Entry → List Entry
trimmed entries = drop (length entries - max_messages) entries

unfoldable pub trim_signals : ℕ → List Signal
trim_signals overflow =
    if overflow == 0 then [] else rows_removed 0 (overflow - 1) ∷ count_changed ∷ []

unfoldable pub append_message : Entry → ChatModel → ChatModel × List Signal
unfolding mark_new trim_signals update_pinned_flags
append_message e m =
    let entries = m.entries ++ mark_new m.pinned_entry e ∷ [] in
    let (m', told) = update_pinned_flags (record m { entries = trimmed entries }) in
    (
      m',
      rows_inserted (length m.entries) (length m.entries)
          ∷ count_changed
          ∷ (trim_signals (length entries - max_messages) ++ told),
    )

abbrev pub has : Option Entry → Bool
has none = false
has (some e) = true

abbrev pub if_told : Bool → Signal → List Signal
if_told b s = if b then s ∷ [] else []

unfoldable pub clear : ChatModel → ChatModel × List Signal
clear m = (
  new,
  (if length m.entries == 0 then [] else model_reset ∷ count_changed ∷ [])
      ++ if_told (has m.pinned_entry) pinned_changed,
)

unfoldable pub is_other : Option Entry → Entry → Bool
unfolding same_message
is_other none e = true
is_other (some pinned) e = not (same_message pinned e)

unfoldable pub set_pinned_message : Entry → ChatModel → ChatModel × List Signal
unfolding is_other update_pinned_flags
set_pinned_message entry m =
    let e = record entry { pinned = true } in
    let (m', told) = update_pinned_flags (record m { pinned_entry = some e }) in
    (m', told ++ if_told (is_other m.pinned_entry e) pinned_changed)

unfoldable pub clear_pinned_message : ChatModel → ChatModel × List Signal
unfolding update_pinned_flags
clear_pinned_message m =
    let (m', told) = update_pinned_flags (record m { pinned_entry = none }) in
    if has m.pinned_entry then (m', told ++ pinned_changed ∷ []) else (m, [])

-- What is called, in order.
pub data Event : Type 0 where
  appends : Entry → Event
  clears : Event
  pins : Entry → Event
  unpins : Event

unfoldable pub step : Event → ChatModel → ChatModel × List Signal
unfolding append_message clear set_pinned_message clear_pinned_message
step (appends e) m = append_message e m
step clears m = clear m
step (pins e) m = set_pinned_message e m
step unpins m = clear_pinned_message m

unfoldable pub run : List Event → ChatModel → ChatModel
unfolding step
run [] m = m
run (e ∷ events) m = run events (step e m).0
