-- ===== src/Text/Decimal.antt =====
-- std::to_string and std::stoi on `int`.
use distributed_chat_system.Prelude.{
  ℕ, zero, suc, ◌+◌, ◌-◌, ◌*◌, ◌/◌, ◌%◌, ◌^◌, ◌≤◌, ◌<◌, ◌≡◌, refl, Bool, true, false, ◌&&◌, ◌||◌,
  Option, none, some, List, [], ◌∷◌, ◌++◌, arith, if◌then◌else◌, ◌==◌, ltb, leb, ℤ, pos, negsuc,
  All, All-append, Bool-cases, inl, inr,
}

-- The decimal digits of `n`; `n + 1` rounds are enough, since each divides by ten.
unfoldable pub decimal_rounds : ℕ → ℕ → List ℕ
decimal_rounds zero n = []
decimal_rounds (suc f) n =
    let rest = decimal_rounds f (n / 10) in
    if ltb n 10 then (48 + n) ∷ [] else rest ++ (48 + n % 10) ∷ []

unfoldable pub decimal : ℕ → List ℕ
unfolding decimal_rounds
decimal n = decimal_rounds (suc n) n

unfoldable pub to_string : ℤ → List ℕ
unfolding decimal
to_string (pos n) = decimal n
to_string (negsuc n) = 45 ∷ decimal (suc n)

abbrev is_digit : ℕ → Bool
is_digit c = leb 48 c && leb c 57

-- The leading digits as a number: `acc` is what was read before.
unfoldable pub read_digits : ℕ → List ℕ → ℕ
read_digits acc [] = acc
read_digits acc (c ∷ s) =
    let rest = read_digits (acc * 10 + (c - 48)) s in if is_digit c then rest else acc

abbrev starts_with_digit : List ℕ → Bool
starts_with_digit [] = false
starts_with_digit (c ∷ s) = is_digit c

-- isspace in the "C" locale
abbrev is_space : ℕ → Bool
is_space c = c == 32 || leb 9 c && leb c 13

unfoldable pub skip_spaces : List ℕ → List ℕ
skip_spaces [] = []
skip_spaces (c ∷ s) = if is_space c then skip_spaces s else c ∷ s

-- `none` is an exception: std::invalid_argument with no digit, std::out_of_range past `int`.
positive : List ℕ → Option ℤ
unfolding read_digits
positive s =
    let n = read_digits 0 s in if starts_with_digit s && ltb n (2 ^ 31) then some (pos n) else none

negated : ℕ → ℤ
negated zero = pos zero
negated (suc n) = negsuc n

negative : List ℕ → Option ℤ
unfolding read_digits negated
negative s =
    let n = read_digits 0 s in
    if starts_with_digit s && leb n (2 ^ 31) then some (negated n) else none

signed : List ℕ → Option ℤ
unfolding positive negative
signed [] = none
signed (c ∷ s) = if c == 45 then negative s else if c == 43 then positive s else positive (c ∷ s)

unfoldable pub stoi : List ℕ → Option ℤ
unfolding signed skip_spaces
stoi s = signed (skip_spaces s)

-- The values of `int`.
abbrev pub IsInt : ℤ → Type 0
IsInt (pos n) = n < 2 ^ 31
IsInt (negsuc n) = n < 2 ^ 31

abbrev IsDigit : ℕ → Type 0
IsDigit c = (48 ≤ c) × (c ≤ 57)

decimal_rounds-IsDigit : (f n : ℕ) → All IsDigit (decimal_rounds f n)
unfolding decimal_rounds
decimal_rounds-IsDigit zero n = tt
decimal_rounds-IsDigit (suc f) n = elim (Bool-cases (ltb n 10)) [
  | inl e ↦ rw e (ground arith)
  | inr e ↦ rw e (All-append IsDigit _ _ (decimal_rounds-IsDigit f (n / 10)) (ground arith))
]

read_digits-append :
    (acc : ℕ) (xs : List ℕ) (d : ℕ)
    → All IsDigit xs
    → d < 10
    → read_digits acc (xs ++ (48 + d) ∷ []) ≡ read_digits acc xs * 10 + d
unfolding read_digits
read_digits-append acc [] d h k = ground arith
read_digits-append acc (c ∷ xs) d h k =
    ground (arith, read_digits-append (acc * 10 + (c - 48)) xs d h.1 k)

read_digits-decimal_rounds : (f n : ℕ) → n < f → read_digits 0 (decimal_rounds f n) ≡ n
unfolding decimal_rounds read_digits
read_digits-decimal_rounds zero n h = absurd (omega arith)
read_digits-decimal_rounds (suc f) n h = elim (Bool-cases (ltb n 10)) [
  | inl e ↦ rw e (ground arith)
  | inr e ↦
      rw
        (
          e,
          read_digits-append 0 (decimal_rounds f (n / 10)) (n % 10)
              (decimal_rounds-IsDigit f (n / 10)) (omega arith),
        )
        (ground (arith, read_digits-decimal_rounds f (n / 10)))
]

last_digit :
    (xs : List ℕ) (d : ℕ) → starts_with_digit xs ≡ true → starts_with_digit (xs ++ d ∷ []) ≡ true
last_digit [] d h = cc
last_digit (c ∷ xs) d h = h

starts-decimal_rounds : (f n : ℕ) → n < f → starts_with_digit (decimal_rounds f n) ≡ true
unfolding decimal_rounds
starts-decimal_rounds zero n h = absurd (omega arith)
starts-decimal_rounds (suc f) n h = elim (Bool-cases (ltb n 10)) [
  | inl e ↦ rw e (ground arith)
  | inr e ↦ rw e (
      last_digit (decimal_rounds f (n / 10)) (48 + n % 10)
        (starts-decimal_rounds f (n / 10) (ground arith)))
]

pub decimal-IsDigit : (n : ℕ) → All (λ c. (48 ≤ c) × (c ≤ 57)) (decimal n)
unfolding decimal
decimal-IsDigit n = decimal_rounds-IsDigit (suc n) n

skip_spaces-digit : (xs : List ℕ) → starts_with_digit xs ≡ true → skip_spaces xs ≡ xs
unfolding skip_spaces
skip_spaces-digit [] h = refl
skip_spaces-digit (c ∷ xs) h = ground arith

signed-digit : (xs : List ℕ) → starts_with_digit xs ≡ true → signed xs ≡ positive xs
unfolding signed
signed-digit [] h = cc
signed-digit (c ∷ xs) h = ground arith

starts-decimal : (n : ℕ) → starts_with_digit (decimal n) ≡ true
unfolding decimal
starts-decimal n = starts-decimal_rounds (suc n) n (omega arith)

read_digits-decimal : (n : ℕ) → read_digits 0 (decimal n) ≡ n
unfolding decimal
read_digits-decimal n = read_digits-decimal_rounds (suc n) n (omega arith)

stoi-decimal : (n : ℕ) → n < 2 ^ 31 → stoi (decimal n) ≡ some (pos n)
unfolding stoi
stoi-decimal n h =
    rw
      (
        skip_spaces-digit (decimal n) (starts-decimal n),
        signed-digit (decimal n) (starts-decimal n),
      )
      (unfold positive in ground (arith, starts-decimal n, read_digits-decimal n))

-- Every `int` survives the way through its decimal text.
pub stoi-to_string : (z : ℤ) → IsInt z → stoi (to_string z) ≡ some z
unfolding to_string
stoi-to_string (pos n) h = stoi-decimal n h
stoi-to_string (negsuc n) h =
    unfold stoi skip_spaces signed negative negated in
    ground (arith, starts-decimal (suc n), read_digits-decimal (suc n))

digits_pos : (xs : List ℕ) → All IsDigit xs → All (λ c. 0 < c) xs
digits_pos [] h = tt
digits_pos (c ∷ xs) h = (omega arith, digits_pos xs h.1)

-- The text of an `int` holds no separator.
pub to_string-ne-nul : (z : ℤ) → All (λ c. 0 < c) (to_string z)
unfolding to_string
to_string-ne-nul (pos n) = digits_pos (decimal n) (decimal-IsDigit n)
to_string-ne-nul (negsuc n) = (omega arith, digits_pos (decimal (suc n)) (decimal-IsDigit (suc n)))
