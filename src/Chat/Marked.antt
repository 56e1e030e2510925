-- ===== src/Chat/Marked.antt =====
-- The mark of the pinned message and the number of messages, after any calls.
use mathlib.Core.Path.{subst, fun_ext}
use connecttool_qt.Base.{
  ℕ, ◌+◌, ◌-◌, ◌≤◌, ◌≡◌, refl, sym, ap₂, List, [], ◌∷◌, ◌++◌, length, length-drop, true, false,
  ◌&&◌, Option, none, some, if◌then◌else◌, arith, if_cases,
}
use connecttool_qt.Base.Key.{list_same}
use connecttool_qt.Chat.Model.{
  Entry, ChatModel, Signal, max_messages, trimmed, new, time_between, is_better, find_from,
  find_pinned_entry_index, is_row, set_flags, update_pinned_flags, mark_new, append_message, clear,
  set_pinned_message, clear_pinned_message, has, Event, appends, clears, pins, unpins, step, run,
}

-- From row `i` on, exactly the row `row` has the mark.
abbrev pub MarkedFrom : Option ℕ → ℕ → List Entry → Type 0
MarkedFrom row i [] = Unit
MarkedFrom row i (e ∷ entries) = (e.pinned ≡ is_row row i) × MarkedFrom row (i + 1) entries

-- The marked row is the one that findPinnedEntryIndex finds, and there are not too many messages.
pub record IsMarked (m : ChatModel) : Type 0 where
  pub marked : MarkedFrom (find_pinned_entry_index m.pinned_entry m.entries) 0 m.entries
  pub bounded : length m.entries ≤ 200

set_flags-MarkedFrom :
    (row : Option ℕ) (i : ℕ) (entries : List Entry) → MarkedFrom row i (set_flags row i entries)
unfolding set_flags
set_flags-MarkedFrom row i [] = tt
set_flags-MarkedFrom row i (e ∷ entries) = (refl, set_flags-MarkedFrom row (i + 1) entries)

length-set_flags :
    (row : Option ℕ) (i : ℕ) (entries : List Entry)
    → length (set_flags row i entries) ≡ length entries
unfolding set_flags
length-set_flags row i [] = refl
length-set_flags row i (e ∷ entries) = omega (arith, length-set_flags row (i + 1) entries)

-- The search does not look at the marks.
find_from-set_flags :
    (pinned : Entry) (row : Option ℕ) (i : ℕ) (best : Option (ℕ × ℕ)) (entries : List Entry)
    → find_from pinned i best (set_flags row i entries) ≡ find_from pinned i best entries
unfolding find_from set_flags
find_from-set_flags pinned row i best [] = refl
find_from-set_flags pinned row i best (e ∷ entries) =
    ap₂
      (λ x y. elim (list_same e.steam_id pinned.steam_id && list_same e.message pinned.message) [
        | false ↦ x
        | true ↦ elim (time_between pinned.timestamp e.timestamp) [
          | none ↦ some i
          | some delta ↦ y delta
        ]
      ])
      (find_from-set_flags pinned row (i + 1) best entries)
      (fun_ext λ delta.
        find_from-set_flags pinned row (i + 1)
          (if is_better delta best then some (i, delta) else best) entries)

find_pinned_entry_index-set_flags :
    (pinned : Option Entry) (row : Option ℕ) (entries : List Entry)
    → find_pinned_entry_index pinned (set_flags row 0 entries)
      ≡ find_pinned_entry_index pinned entries
unfolding find_pinned_entry_index
find_pinned_entry_index-set_flags none row entries = refl
find_pinned_entry_index-set_flags (some pinned) row entries =
    find_from-set_flags pinned row 0 none entries

update_pinned_flags-IsMarked :
    (m : ChatModel) → length m.entries ≤ 200 → IsMarked (update_pinned_flags m).0
unfolding update_pinned_flags
update_pinned_flags-IsMarked m h =
    let row = find_pinned_entry_index m.pinned_entry m.entries in
    record {
      marked =
          subst (λ r. MarkedFrom r 0 (set_flags row 0 m.entries))
            (sym (find_pinned_entry_index-set_flags m.pinned_entry row m.entries))
            (set_flags-MarkedFrom row 0 m.entries);
      bounded = omega (arith, h, length-set_flags row 0 m.entries);
    }

trimmed_bound : (entries : List Entry) → length (trimmed entries) ≤ 200
trimmed_bound entries = omega (arith, length-drop (length entries - max_messages) entries)

step-IsMarked : (e : Event) (m : ChatModel) → IsMarked m → IsMarked (step e m).0
unfolding step append_message clear set_pinned_message clear_pinned_message new
step-IsMarked (appends e) m v =
    let entries = trimmed (m.entries ++ mark_new m.pinned_entry e ∷ []) in
    update_pinned_flags-IsMarked (record m { entries = entries })
      (trimmed_bound (m.entries ++ mark_new m.pinned_entry e ∷ []))
step-IsMarked clears m v = record { marked = tt; bounded = omega arith }
step-IsMarked (pins e) m v =
    update_pinned_flags-IsMarked (record m { pinned_entry = some (record e { pinned = true }) })
      v.bounded
step-IsMarked unpins m v =
    if_cases (λ (r : ChatModel × List Signal). IsMarked r.0) (has m.pinned_entry) {y = (m, [])}
      (λ _. update_pinned_flags-IsMarked (record m { pinned_entry = none }) v.bounded) (λ _. v)

run_from-IsMarked : (events : List Event) (m : ChatModel) → IsMarked m → IsMarked (run events m)
unfolding run
run_from-IsMarked [] m v = v
run_from-IsMarked (e ∷ events) m v = run_from-IsMarked events (step e m).0 (step-IsMarked e m v)

-- Whatever is called on a new chat model, it has at most 200 messages, and a message has the mark
-- exactly if it is in the row that findPinnedEntryIndex finds.
pub run-IsMarked : (events : List Event) → IsMarked (run events new)
unfolding new
run-IsMarked events = run_from-IsMarked events new (record { marked = tt; bounded = omega arith })
