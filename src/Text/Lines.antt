-- ===== src/Text/Lines.antt =====
-- The lines of a text, as `while (std::getline(file, line))` reads them.
use distributed_chat_system.Prelude.{
  ℕ, zero, suc, ◌≤◌, ◌≡◌, refl, ap, some, false, List, [], ◌∷◌, ◌++◌, arith, length, length-append,
  All,
}
use distributed_chat_system.Text.{Bytes, has_byte, read_until, getline, split_rounds, split}

-- Lines, each closed by the delimiter.
abbrev pub join_lines : ℕ → List Bytes → Bytes
join_lines d [] = []
join_lines d (l ∷ ls) = l ++ (d ∷ join_lines d ls)

read_until-line :
    (d : ℕ) (l rest : Bytes) → has_byte d l ≡ false → read_until d (l ++ (d ∷ rest)) ≡ (l, rest)
unfolding read_until has_byte
read_until-line d [] rest h = ground arith
read_until-line d (c ∷ l) rest h = ground (arith, read_until-line d l rest)

getline-line :
    (d : ℕ) (l rest : Bytes) → getline (l ++ (d ∷ rest)) d ≡ some (read_until d (l ++ (d ∷ rest)))
unfolding getline
getline-line d [] rest = refl
getline-line d (c ∷ l) rest = refl

split_rounds-join_lines :
    (f d : ℕ) (ls : List Bytes)
    → All (λ l. has_byte d l ≡ false) ls
    → length (join_lines d ls) ≤ f
    → split_rounds f (join_lines d ls) d ≡ ls
unfolding split_rounds
split_rounds-join_lines zero d [] h enough = refl
split_rounds-join_lines (suc f) d [] h enough = unfold getline in refl
split_rounds-join_lines zero d (l ∷ ls) h enough =
    absurd (omega (arith, length-append l (d ∷ join_lines d ls)))
split_rounds-join_lines (suc f) d (l ∷ ls) h enough =
    rw (getline-line d l (join_lines d ls), split_rounds)
      (rw (read_until-line d l (join_lines d ls) h.0) (
        ap (◌∷◌ l) (
          split_rounds-join_lines f d ls h.1
            (omega (arith, length-append l (d ∷ join_lines d ls))))))

-- Lines without the delimiter come back as they were joined.
pub split-join_lines :
    (d : ℕ) (ls : List Bytes) → All (λ l. has_byte d l ≡ false) ls → split (join_lines d ls) d ≡ ls
unfolding split
split-join_lines d ls h = split_rounds-join_lines _ d ls h (omega arith)
