-- ===== src/Chat/Tests.antt =====
-- A chat of three messages, of which the second is pinned.
use connecttool_qt.Base.{ℕ, ◌≡◌, refl, List, [], ◌∷◌, true, false, Option, none, some}
use connecttool_qt.Chat.Model.{
  Entry, ChatModel, data_changed, new, find_pinned_entry_index, update_pinned_flags, Event, appends,
  clears, pins, unpins, run,
}
use connecttool_qt.Chat.Marked.{IsMarked, run-IsMarked}
use connecttool_qt.Chat.Told.{told_rows, differing_rows, told_rows-update_pinned_flags}

abbrev entry : ℕ → Option ℕ → Entry
entry user time = record {
  steam_id = user ∷ [];
  display_name = 65 ∷ [];
  avatar = [];
  message = 104 ∷ 105 ∷ [];
  is_self = false;
  pinned = false;
  timestamp = time;
}

abbrev events : List Event
events =
    appends (entry 1 (some 1000))
    ∷ appends (entry 2 (some 2000))
    ∷ pins (entry 2 (some 2100))
    ∷ appends (entry 2 (some 2600))
    ∷ unpins
    ∷ pins (entry 1 none)
    ∷ clears
    ∷ appends (entry 1 (some 1000))
    ∷ []

-- The marks of the first and third rows are wrong: the second is nearest in time.
abbrev chat : ChatModel
chat = record {
  entries =
      record (entry 2 (some 1000)) { pinned = true }
      ∷ entry 2 (some 2000)
      ∷ record (entry 2 (some 3000)) { pinned = true }
      ∷ [];
  pinned_entry = some (entry 2 (some 2100));
}

chat_told : (update_pinned_flags chat).1 ≡ data_changed 0 2 ∷ []
unfolding update_pinned_flags find_pinned_entry_index
chat_told = refl

-- What is called on a new model.
run-IsMarked_example : IsMarked (run events new)
run-IsMarked_example = run-IsMarked events

-- The rows that are told as changed.
told_rows-update_pinned_flags_example :
    told_rows (update_pinned_flags chat).1
    ≡ differing_rows 0 chat.entries ((update_pinned_flags chat).0).entries
told_rows-update_pinned_flags_example = told_rows-update_pinned_flags chat
