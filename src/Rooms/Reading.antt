-- ===== src/Rooms/Reading.antt =====
-- Printed numbers are read back, and a joined text is taken apart again.
use connecttool_qt.Base.{
  ℕ, if_cases, zero, suc, ◌+◌, ◌-◌, ◌*◌, ◌/◌, ◌%◌, ◌^◌, ◌<◌, ◌≡◌, ◌≢◌, refl, ap, ◌∙◌, List, [], ◌∷◌,
  ◌++◌, Bool, true, false, some, All, All-append, ◌==◌, arith,
}
use connecttool_qt.Base.Int.{pos}
use connecttool_qt.Rooms.Text.{
  split_at, pieces, digits, to_text, is_digit, scan, skip_spaces, magnitude, signed, to_ull, to_int,
  stoull, stoi,
}

abbrev pub IsDigit : ℕ → Type 0
IsDigit c = is_digit c ≡ true

-- Texts without a character.
abbrev pub Lacks : ℕ → List ℕ → Type 0
Lacks c text = All (λ x. x ≢ c) text

pub digits-IsDigit : (fuel n : ℕ) → All IsDigit (digits fuel n)
unfolding digits
digits-IsDigit zero n = tt
digits-IsDigit (suc fuel) n = ground (
  arith,
  digits-IsDigit fuel (n / 10),
  All-append IsDigit (digits fuel (n / 10)) ((b'0' + n % 10) ∷ []),
)

scan-append :
    (acc c : ℕ) (xs : List ℕ)
    → All IsDigit xs
    → IsDigit c
    → scan acc (xs ++ c ∷ []) ≡ scan acc xs * 10 + (c - b'0')
unfolding scan
scan-append acc c [] h d = ground arith
scan-append acc c (x ∷ xs) (h, hs) d = ground (arith, scan-append (acc * 10 + (x - b'0')) c xs hs d)

quotient_lt : (fuel n : ℕ) → n < 10 ^ suc fuel → n / 10 < 10 ^ fuel
quotient_lt fuel n h = omega arith

pub scan-digits : (fuel n : ℕ) → n < 10 ^ fuel → scan 0 (digits fuel n) ≡ n
unfolding digits scan
scan-digits zero n h = omega arith
scan-digits (suc fuel) n h =
    let small : n / 10 < 10 ^ fuel = quotient_lt fuel n h in
    ground (
      arith,
      scan-digits fuel (n / 10) small,
      scan-append 0 (b'0' + n % 10) (digits fuel (n / 10)) (digits-IsDigit fuel (n / 10))
          (ground arith),
    )

-- A printed number starts with a digit.
HasHead : List ℕ → Type 0
HasHead text = (c : ℕ) × (cs : List ℕ) × (text ≡ c ∷ cs) × IsDigit c

digits-HasHead : (fuel n : ℕ) → HasHead (digits (suc fuel) n)
unfolding digits HasHead
digits-HasHead zero n =
    if_cases HasHead (n / 10 == 0) {x = (b'0' + n) ∷ []} {y = (b'0' + n % 10) ∷ []}
      (λ h. (b'0' + n, [], refl, ground arith)) (λ _. (b'0' + n % 10, [], refl, ground arith))
digits-HasHead (suc fuel) n =
    let (c, cs, e, d) = digits-HasHead fuel (n / 10) in
    if_cases HasHead (n / 10 == 0) {x = (b'0' + n) ∷ []}
      {y = digits (suc fuel) (n / 10) ++ (b'0' + n % 10) ∷ []}
      (λ h. (b'0' + n, [], refl, ground arith))
      (λ _. (c, cs ++ (b'0' + n % 10) ∷ [], ap (λ t. t ++ (b'0' + n % 10) ∷ []) e, d))

magnitude-digits :
    (negative : Bool) (text : List ℕ) (c : ℕ) (cs : List ℕ)
    → text ≡ c ∷ cs
    → IsDigit c
    → magnitude negative text ≡ some (negative, scan 0 text)
unfolding magnitude
magnitude-digits negative text c cs e d = rw (e, d) refl

signed-digits :
    (text : List ℕ) (c : ℕ) (cs : List ℕ)
    → text ≡ c ∷ cs
    → IsDigit c
    → signed (skip_spaces text) ≡ some (false, scan 0 text)
unfolding signed skip_spaces
signed-digits text c cs e d = rw e (ground (arith, magnitude-digits false (c ∷ cs) c cs refl d))

-- A printed number is read back, if it fits.
signed-to_text : (n : ℕ) → n < 2 ^ 64 → signed (skip_spaces (to_text n)) ≡ some (false, n)
unfolding to_text HasHead
signed-to_text n h =
    let (c, cs, e, d) = digits-HasHead 19 n in
    signed-digits (digits 20 n) c cs e d
    ∙ ap (λ k. some (false, k)) (scan-digits 20 n (omega arith))

pub stoull-to_text : (n : ℕ) → n < 2 ^ 64 → stoull (to_text n) ≡ some n
unfolding stoull to_ull
stoull-to_text n h = rw (signed-to_text n h) (ground arith)

pub stoi-to_text : (n : ℕ) → n < 2 ^ 31 → stoi (to_text n) ≡ some (pos n)
unfolding stoi to_int
stoi-to_text n h = rw (signed-to_text n (omega arith)) (ground arith)

-- A text without a character ends at the first occurrence of it.
pub split_at-append :
    (c : ℕ) (text rest : List ℕ) → Lacks c text → split_at c (text ++ c ∷ rest) ≡ (text, some rest)
unfolding split_at
split_at-append c [] rest h = ground arith
split_at-append c (x ∷ text) rest (h, hs) = ground (arith, split_at-append c text rest hs)

pub pieces_alone : (c : ℕ) (text : List ℕ) → Lacks c text → pieces c text ≡ text ∷ []
unfolding pieces
pieces_alone c [] h = refl
pieces_alone c (x ∷ text) (h, hs) = ground (arith, pieces_alone c text hs)

pub pieces-append :
    (c : ℕ) (text rest : List ℕ) → Lacks c text → pieces c (text ++ c ∷ rest) ≡ text ∷ pieces c rest
unfolding pieces
pieces-append c [] rest h = ground arith
pieces-append c (x ∷ text) rest (h, hs) = ground (arith, pieces-append c text rest hs)
