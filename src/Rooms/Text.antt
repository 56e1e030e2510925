-- ===== src/Rooms/Text.antt =====
-- What the room manager uses of std::string: finding a character, std::to_string, std::stoull and
-- std::stoi. A text is a list of bytes.
use connecttool_qt.Base.{
  ℕ, zero, suc, ◌+◌, ◌-◌, ◌*◌, ◌/◌, ◌%◌, ◌^◌, List, [], ◌∷◌, ◌++◌, Bool, true, false, ◌&&◌, ◌||◌,
  Option, none, some, if◌then◌else◌, ltb, leb, ◌==◌,
}
use connecttool_qt.Base.Int.{ℤ, pos, negsuc}

-- The text before the first occurrence of a character, and the text after it if there is one.
unfoldable pub split_at : ℕ → List ℕ → List ℕ × Option (List ℕ)
split_at c [] = ([], none)
split_at c (x ∷ xs) =
    let rest = split_at c xs in if x == c then ([], some xs) else (x ∷ rest.0, rest.1)

abbrev pub push : ℕ → List (List ℕ) → List (List ℕ)
push c [] = (c ∷ []) ∷ []
push c (p ∷ ps) = (c ∷ p) ∷ ps

-- The texts between the occurrences of a character.
unfoldable pub pieces : ℕ → List ℕ → List (List ℕ)
pieces c [] = [] ∷ []
pieces c (x ∷ xs) = let rest = pieces c xs in if x == c then [] ∷ rest else push x rest

-- Decimal digits; a 64-bit number has at most 20.
unfoldable pub digits : ℕ → ℕ → List ℕ
digits zero n = []
digits (suc fuel) n =
    let before = digits fuel (n / 10) in
    if n / 10 == 0 then (b'0' + n) ∷ [] else before ++ (b'0' + n % 10) ∷ []

unfoldable pub to_text : ℕ → List ℕ
unfolding digits
to_text n = digits 20 n

abbrev pub is_digit : ℕ → Bool
is_digit c = leb b'0' c && leb c b'9'

-- The value of the digits that a text starts with.
unfoldable pub scan : ℕ → List ℕ → ℕ
scan n [] = n
scan n (c ∷ cs) = let rest = scan (n * 10 + (c - b'0')) cs in if is_digit c then rest else n

abbrev is_space : ℕ → Bool
is_space c = (c == 32) || (leb 9 c && leb c 13)

unfoldable pub skip_spaces : List ℕ → List ℕ
skip_spaces [] = []
skip_spaces (c ∷ cs) = let rest = skip_spaces cs in if is_space c then rest else c ∷ cs

-- Whether the number is negative, and its magnitude, if there is a digit.
unfoldable pub magnitude : Bool → List ℕ → Option (Bool × ℕ)
unfolding scan
magnitude negative [] = none
magnitude negative (c ∷ cs) = if is_digit c then some (negative, scan 0 (c ∷ cs)) else none

unfoldable pub signed : List ℕ → Option (Bool × ℕ)
unfolding magnitude
signed [] = none
signed (c ∷ cs) =
    if c == b'-'
    then magnitude true cs
    else if c == b'+'
    then magnitude false cs
    else magnitude false (c ∷ cs)

-- The conversions of strtoull and strtol; none where std::stoull and std::stoi throw. A negative
-- number is negated in 64 bits.
unfoldable pub to_ull : Option (Bool × ℕ) → Option ℕ
to_ull none = none
to_ull (some (negative, n)) =
    if leb (2 ^ 64) n then none else some (if negative then (2 ^ 64 - n) % 2 ^ 64 else n)

unfoldable pub to_int : Option (Bool × ℕ) → Option ℤ
to_int none = none
to_int (some (false, n)) = if ltb n (2 ^ 31) then some (pos n) else none
to_int (some (true, zero)) = some (pos 0)
to_int (some (true, suc n)) = if ltb n (2 ^ 31) then some (negsuc n) else none

unfoldable pub stoull : List ℕ → Option ℕ
unfolding skip_spaces signed to_ull
stoull text = to_ull (signed (skip_spaces text))

unfoldable pub stoi : List ℕ → Option ℤ
unfolding skip_spaces signed to_int
stoi text = to_int (signed (skip_spaces text))
