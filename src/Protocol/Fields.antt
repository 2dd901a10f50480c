-- ===== src/Protocol/Fields.antt =====
-- The laws of Pack and Unpack.
use distributed_chat_system.Prelude.{
  ℕ, zero, suc, ◌<◌, ◌≤◌, ◌≡◌, refl, ap, sym, ◌∙◌, false, List, [], ◌∷◌, ◌++◌, arith, append-nil,
  append_assoc, ◌==◌, length, All, Bool-cases, inl, inr,
}
use distributed_chat_system.Text.{Bytes, is_empty, read_until, getline, split_rounds, split}
use distributed_chat_system.Protocol.{pack, unpack, unpack_from}

-- A field that can be packed holds no separator.
abbrev pub IsNulFree : Bytes → Type 0
IsNulFree s = All (λ c. 0 < c) s

unpack_from-field :
    (current field s : Bytes)
    → IsNulFree field
    → unpack_from current (field ++ (0 ∷ s)) ≡ (current ++ field) ∷ unpack_from [] s
unfolding unpack_from
unpack_from-field current [] s h = rw append-nil
unpack_from-field current (c ∷ field) s h = elim (Bool-cases (c == 0)) [
  | inl e ↦ absurd (ground arith)
  | inr e ↦ rw e (
      unpack_from-field (current ++ c ∷ []) field s h.1
      ∙ ap (λ f. f ∷ unpack_from [] s) (append_assoc current (c ∷ []) field))
]

unpack_from-pack :
    (fields : List Bytes) (s : Bytes)
    → All IsNulFree fields
    → unpack_from [] (pack fields ++ s) ≡ fields ++ unpack_from [] s
unfolding pack
unpack_from-pack [] s h = refl
unpack_from-pack (field ∷ fields) s h = rw (append_assoc field (0 ∷ pack fields) s) (
    unpack_from-field [] field (pack fields ++ s) h.0
    ∙ ap (◌∷◌ field) (unpack_from-pack fields s h.1))

-- Fields without a separator come back as they were packed, empty ones too.
pub unpack-pack : (fields : List Bytes) → All IsNulFree fields → unpack (pack fields) ≡ fields
unfolding unpack
unpack-pack fields h =
    ap (unpack_from []) (sym (append-nil (pack fields)))
    ∙ (unpack_from-pack fields [] h ∙ (unfold unpack_from in append-nil fields))

-- A field that is itself packed, as the list of users in a STATUS packet: it is read back as its
-- own fields and an empty one behind them.
pub unpack_nested :
    (tag : Bytes) (inner : List Bytes)
    → IsNulFree tag
    → All IsNulFree inner
    → unpack (pack (tag ∷ pack inner ∷ [])) ≡ tag ∷ (inner ++ [] ∷ [])
unfolding unpack pack
unpack_nested tag inner h k =
    unpack_from-field [] tag (pack inner ++ (0 ∷ [])) h
    ∙ ap (◌∷◌ tag) (unpack_from-pack inner (0 ∷ []) k ∙ (unfold unpack_from in refl))

not-is_empty : (xs : Bytes) (d : ℕ) → is_empty (xs ++ d ∷ []) ≡ false
not-is_empty [] d = refl
not-is_empty (x ∷ xs) d = refl

-- One field of the loop is one line of std::getline.
unpack_from-read_until :
    (current : Bytes) (c : ℕ) (s : Bytes)
    → unpack_from current (c ∷ s)
      ≡ (current ++ (read_until 0 (c ∷ s)).0) ∷ unpack_from [] (read_until 0 (c ∷ s)).1
unfolding unpack_from read_until
unpack_from-read_until current c [] = elim (Bool-cases (c == 0)) [
  | inl e ↦ rw e (ap (λ f. f ∷ []) (sym (append-nil current)))
  | inr e ↦ rw (e, not-is_empty current c)
]
unpack_from-read_until current c (d ∷ s) = elim (Bool-cases (c == 0)) [
  | inl e ↦ rw e (ap (λ f. f ∷ unpack_from [] (d ∷ s)) (sym (append-nil current)))
  | inr e ↦ rw e (
      unpack_from-read_until (current ++ c ∷ []) d s
      ∙ ap (λ f. f ∷ unpack_from [] (read_until 0 (d ∷ s)).1)
          (append_assoc current (c ∷ []) (read_until 0 (d ∷ s)).0))
]

length-read_until-le : (d : ℕ) (s : Bytes) → length (read_until d s).1 ≤ length s
unfolding read_until
length-read_until-le d [] = omega arith
length-read_until-le d (c ∷ s) = ground (arith, length-read_until-le d s)

length-read_until-lt : (d c : ℕ) (s : Bytes) → length (read_until d (c ∷ s)).1 < suc (length s)
unfolding read_until
length-read_until-lt d c s = ground (arith, length-read_until-le d s)

unpack_from-split_rounds :
    (f : ℕ) (s : Bytes) → length s ≤ f → unpack_from [] s ≡ split_rounds f s 0
unfolding split_rounds getline
unpack_from-split_rounds zero [] h = unfold unpack_from in refl
unpack_from-split_rounds zero (c ∷ s) h = absurd (omega arith)
unpack_from-split_rounds (suc f) [] h = unfold unpack_from in refl
unpack_from-split_rounds (suc f) (c ∷ s) h =
    unpack_from-read_until [] c s
    ∙ ap (◌∷◌ (read_until 0 (c ∷ s)).0) (
        unpack_from-split_rounds f (read_until 0 (c ∷ s)).1
          (omega (arith, length-read_until-lt 0 c s)))

-- `Unpack` splits a text as `Split` does at the separator, on every text.
pub unpack-eq-split : (s : Bytes) → unpack s ≡ split s 0
unfolding unpack split
unpack-eq-split s = unpack_from-split_rounds (length s) s (omega arith)
