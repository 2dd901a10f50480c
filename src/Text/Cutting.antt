-- ===== src/Text/Cutting.antt =====
-- Cutting a text at a byte, and blanks at the ends of a part.
use distributed_chat_system.Prelude.{ℕ, ◌≡◌, refl, ◌∙◌, false, ◌||◌, some, [], ◌∷◌, ◌++◌, arith}
use distributed_chat_system.Text.{
  Bytes, trim, is_empty, skip_blanks, drop_trailing, has_byte, cut_at,
}
use distributed_chat_system.Text.Trimming.{
  StartsClean, EndsClean, trim_clean, skip_blanks_clean, drop_trailing_clean,
}

pub has_byte-append : (b : ℕ) (s t : Bytes) → has_byte b (s ++ t) ≡ (has_byte b s || has_byte b t)
unfolding has_byte
has_byte-append b [] t = refl
has_byte-append b (c ∷ s) t = ground (arith, has_byte-append b s t)

pub cut_at-append :
    (b : ℕ) (s t : Bytes) → has_byte b s ≡ false → cut_at b (s ++ (b ∷ t)) ≡ some (s, t)
unfolding cut_at has_byte
cut_at-append b [] t h = ground arith
cut_at-append b (c ∷ s) t h = ground (arith, cut_at-append b s t)

pub EndsClean-append : (s t : Bytes) → is_empty t ≡ false → EndsClean t → EndsClean (s ++ t)
EndsClean-append [] t e h = h
EndsClean-append (c ∷ []) [] e h = cc
EndsClean-append (c ∷ []) (d ∷ t) e h = h
EndsClean-append (c ∷ d ∷ s) t e h = EndsClean-append (d ∷ s) t e h

pub StartsClean-append : (s t : Bytes) → is_empty s ≡ false → StartsClean s → StartsClean (s ++ t)
StartsClean-append [] t e h = cc
StartsClean-append (c ∷ s) t e h = h

drop_trailing-space : (s : Bytes) → drop_trailing (s ++ (32 ∷ [])) ≡ drop_trailing s
unfolding drop_trailing
drop_trailing-space [] = refl
drop_trailing-space (c ∷ s) = rw (drop_trailing-space s)

pub trim-space_after : (s : Bytes) → StartsClean s → EndsClean s → trim (s ++ (32 ∷ [])) ≡ s
unfolding trim
trim-space_after [] h k = refl
trim-space_after (c ∷ s) h k =
    rw (skip_blanks_clean (c ∷ (s ++ (32 ∷ []))) h)
      (drop_trailing-space (c ∷ s) ∙ drop_trailing_clean (c ∷ s) k)

pub trim-space_before : (s : Bytes) → StartsClean s → EndsClean s → trim (32 ∷ s) ≡ s
unfolding trim skip_blanks
trim-space_before s h k = unfold trim in trim_clean s h k
