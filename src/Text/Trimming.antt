-- ===== src/Text/Trimming.antt =====
-- What `Trim` returns: a text with no blank at either end.
use distributed_chat_system.Prelude.{
  ℕ, ◌≡◌, refl, inl, inr, Bool, true, false, ◌&&◌, [], ◌∷◌, Bool-cases,
}
use distributed_chat_system.Text.{Bytes, is_blank, skip_blanks, drop_trailing, trim, is_empty}

-- The text is empty or begins with a byte that is no blank.
abbrev pub StartsClean : Bytes → Type 0
StartsClean [] = Unit
StartsClean (c ∷ s) = is_blank c ≡ false

-- The text is empty or ends with a byte that is no blank.
abbrev pub EndsClean : Bytes → Type 0
EndsClean [] = Unit
EndsClean (c ∷ []) = is_blank c ≡ false
EndsClean (c ∷ d ∷ s) = EndsClean (d ∷ s)

skip_blanks-StartsClean : (s : Bytes) → StartsClean (skip_blanks s)
unfolding skip_blanks
skip_blanks-StartsClean [] = tt
skip_blanks-StartsClean (c ∷ s) = elim (Bool-cases (is_blank c)) [
  | inl e ↦ rw e (skip_blanks-StartsClean s)
  | inr e ↦ rw (e) e
]

cons-EndsClean : (c : ℕ) (t : Bytes) → is_empty t ≡ false → EndsClean t → EndsClean (c ∷ t)
cons-EndsClean c [] e h = cc
cons-EndsClean c (d ∷ t) e h = h

nil_of_is_empty : (s : Bytes) → is_empty s ≡ true → s ≡ []
nil_of_is_empty [] e = refl
nil_of_is_empty (c ∷ s) e = cc

&&-false : (b : Bool) → (b && false) ≡ false
&&-false true = refl
&&-false false = refl

drop_trailing-EndsClean : (s : Bytes) → EndsClean (drop_trailing s)
unfolding drop_trailing
drop_trailing-EndsClean [] = tt
drop_trailing-EndsClean (c ∷ s) = elim (Bool-cases (is_empty (drop_trailing s))) [
  | inl e ↦ elim (Bool-cases (is_blank c)) [
    | inl b ↦ rw (b, e) tt
    | inr b ↦ rw (b, nil_of_is_empty (drop_trailing s) e) b
  ]
  | inr e ↦
      rw (e, &&-false (is_blank c))
        (cons-EndsClean c (drop_trailing s) e (drop_trailing-EndsClean s))
]

-- A byte that is no blank stays at the front.
drop_trailing-StartsClean : (s : Bytes) → StartsClean s → StartsClean (drop_trailing s)
unfolding drop_trailing
drop_trailing-StartsClean [] h = tt
drop_trailing-StartsClean (c ∷ s) h = rw (h) h

-- `Trim` returns a text with no blank at either end, for every text.
pub trim-ends : (s : Bytes) → StartsClean (trim s) × EndsClean (trim s)
unfolding trim
trim-ends s = (
  drop_trailing-StartsClean (skip_blanks s) (skip_blanks-StartsClean s),
  drop_trailing-EndsClean (skip_blanks s),
)

pub skip_blanks_clean : (s : Bytes) → StartsClean s → skip_blanks s ≡ s
unfolding skip_blanks
skip_blanks_clean [] h = refl
skip_blanks_clean (c ∷ s) h = rw h

EndsClean-tail : (c : ℕ) (s : Bytes) → EndsClean (c ∷ s) → EndsClean s
EndsClean-tail c [] h = tt
EndsClean-tail c (d ∷ s) h = h

blank_last : (c : ℕ) (s : Bytes) → EndsClean (c ∷ s) → (is_blank c && is_empty s) ≡ false
blank_last c [] h = rw h
blank_last c (d ∷ s) h = &&-false (is_blank c)

pub drop_trailing_clean : (s : Bytes) → EndsClean s → drop_trailing s ≡ s
unfolding drop_trailing
drop_trailing_clean [] h = refl
drop_trailing_clean (c ∷ s) h = rw (drop_trailing_clean s (EndsClean-tail c s h), blank_last c s h)

-- A text with no blank at either end is returned as it is; so trimming twice is trimming once.
pub trim_clean : (s : Bytes) → StartsClean s → EndsClean s → trim s ≡ s
unfolding trim
trim_clean s h k = rw (skip_blanks_clean s h) (drop_trailing_clean s k)
