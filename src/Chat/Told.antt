-- ===== src/Chat/Told.antt =====
-- The rows that updatePinnedFlags tells the view of.
use connecttool_qt.Base.{
  ℕ, ◌+◌, ◌-◌, ◌≤◌, ◌≡◌, refl, sym, ap, ◌∙◌, suc, zero, List, [], ◌∷◌, ◌++◌, Bool, true, false, not,
  Option, if◌then◌else◌, ◌==◌, arith,
}
use connecttool_qt.Chat.Model.{
  Entry, ChatModel, Signal, rows_inserted, rows_removed, model_reset, count_changed, pinned_changed,
  data_changed, set_flags, changed_rows, tell_ranges, tell_rows, find_pinned_entry_index,
  update_pinned_flags,
}

-- `n` rows from row `i` on.
abbrev pub rows_from : ℕ → ℕ → List ℕ
rows_from i zero = []
rows_from i (suc n) = i ∷ rows_from (i + 1) n

-- The rows of the ranges that are told as changed.
abbrev pub told_rows : List Signal → List ℕ
told_rows [] = []
told_rows (data_changed start end ∷ told) = rows_from start (end + 1 - start) ++ told_rows told
told_rows (rows_inserted start end ∷ told) = told_rows told
told_rows (rows_removed start end ∷ told) = told_rows told
told_rows (model_reset ∷ told) = told_rows told
told_rows (count_changed ∷ told) = told_rows told
told_rows (pinned_changed ∷ told) = told_rows told

-- The rows, from row `i` on, in which two lists of messages differ in the mark.
abbrev pub differing_rows : ℕ → List Entry → List Entry → List ℕ
differing_rows i [] others = []
differing_rows i (e ∷ entries) [] = []
differing_rows i (e ∷ entries) (f ∷ others) =
    let rest = differing_rows (i + 1) entries others in
    if (if e.pinned then f.pinned else not f.pinned) then rest else i ∷ rest

rows_from-append :
    (i n : ℕ) (rows : List ℕ) → rows_from i (suc n) ++ rows ≡ rows_from i n ++ (i + n) ∷ rows
rows_from-append i zero rows = ap (λ k. k ∷ rows) (omega arith)
rows_from-append i (suc n) rows =
    ap (◌∷◌ i)
      (rows_from-append (i + 1) n rows ∙ ap (λ k. rows_from (i + 1) n ++ k ∷ rows) (omega arith))

-- The same for the rows from `start` to `end`, and the row behind them.
rows_from_next :
    (start end row : ℕ) (rows : List ℕ)
    → start ≤ end
    → row ≡ end + 1
    → rows_from start (row + 1 - start) ++ rows ≡ rows_from start (end + 1 - start) ++ row ∷ rows
rows_from_next start end row rows h e =
    ap (λ n. rows_from start n ++ rows) {x = row + 1 - start} {y = suc (end + 1 - start)}
      (omega (arith, h, e))
    ∙ rows_from-append start (end + 1 - start) rows
    ∙ ap (λ k. rows_from start (end + 1 - start) ++ k ∷ rows) {x = start + (end + 1 - start)}
        {y = row} (omega (arith, h, e))

rows_from_one : (row : ℕ) (rows : List ℕ) → rows_from row (row + 1 - row) ++ rows ≡ row ∷ rows
rows_from_one row rows =
    ap (λ n. rows_from row n ++ rows) {x = row + 1 - row} {y = suc zero} (omega arith)

branch_cases {ℓ κ} :
    {A : Type ℓ} (P : A → Type κ) (b : Bool) {x y : A}
    → (b ≡ true → P x)
    → (b ≡ false → P y)
    → P (elim b [ true ↦ x | false ↦ y ])
branch_cases P true f g = f refl
branch_cases P false f g = g refl

told_rows-tell_ranges :
    (start end : ℕ) (rows : List ℕ)
    → start ≤ end
    → told_rows (tell_ranges start end rows) ≡ rows_from start (end + 1 - start) ++ rows
unfolding tell_ranges
told_rows-tell_ranges start end [] h = refl
told_rows-tell_ranges start end (row ∷ rows) h =
    branch_cases (λ told. told_rows told ≡ rows_from start (end + 1 - start) ++ row ∷ rows)
      (row == end + 1) {x = tell_ranges start row rows}
      {y = data_changed start end ∷ tell_ranges row row rows}
      (λ e.
        told_rows-tell_ranges start row rows (ground arith)
        ∙ rows_from_next start end row rows h (ground arith))
      (λ _.
        ap (λ rest. rows_from start (end + 1 - start) ++ rest)
          (told_rows-tell_ranges row row rows (omega arith) ∙ rows_from_one row rows))

told_rows-tell_rows : (rows : List ℕ) → told_rows (tell_rows rows) ≡ rows
unfolding tell_rows
told_rows-tell_rows [] = refl
told_rows-tell_rows (row ∷ rows) =
    told_rows-tell_ranges row row rows (omega arith) ∙ rows_from_one row rows

differing_rows-set_flags :
    (row : Option ℕ) (i : ℕ) (entries : List Entry)
    → differing_rows i entries (set_flags row i entries) ≡ changed_rows row i entries
unfolding set_flags changed_rows
differing_rows-set_flags row i [] = refl
differing_rows-set_flags row i (e ∷ entries) =
    ground (arith, differing_rows-set_flags row (i + 1) entries)

-- The ranges of rows that updatePinnedFlags tells as changed, put together in order, are exactly
-- the rows whose mark it changes, in ascending order and each once.
pub told_rows-update_pinned_flags :
    (m : ChatModel)
    → told_rows (update_pinned_flags m).1
      ≡ differing_rows 0 m.entries ((update_pinned_flags m).0).entries
unfolding update_pinned_flags
told_rows-update_pinned_flags m =
    let row = find_pinned_entry_index m.pinned_entry m.entries in
    told_rows-tell_rows (changed_rows row 0 m.entries)
    ∙ sym (differing_rows-set_flags row 0 m.entries)
