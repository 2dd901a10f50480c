-- ===== src/Dict/Loops.antt =====
-- A loop over the values of a map, seen from one of its entries.
use mathlib.Core.List.{lookup}
use distributed_chat_system.Prelude.{
  ◌≡◌, sym, subst, ◌⊎◌, some, List, [], ◌∷◌, arith, inl, inr, for_each, for_each_induction,
}
use distributed_chat_system.Dict.Map.{values}

module _ {ℓ} {K V : Type ℓ} (dec : Discrete K) where
  lookup-first :
      (k j : K) (v x : V) (m : List (K × V))
      → lookup dec k ((j, x) ∷ m) ≡ some v
      → (x ≡ v) ⊎ (lookup dec k m ≡ some v)
  unfolding lookup
  lookup-first k j v x m e = ground arith

  -- What the round for an entry of the map brings about, and every round keeps, holds at the end.
  -- That round may rely on what all rounds before it keep.
  pub for_each-values {κ μ} :
      {S : Type κ} (before after : S → Type μ) (body : V → S → S) (k : K) (v : V)
      → ((x : V) (s : S) → before s → before (body x s))
      → ((s : S) → before s → after (body v s))
      → ((x : V) (s : S) → after s → after (body x s))
      → (m : List (K × V)) (s : S) → lookup dec k m ≡ some v
      → before s
      → after (for_each (values m) body s)
  unfolding for_each lookup
  for_each-values before after body k v keep round stay [] s found h = absurd (cc found)
  for_each-values before after body k v keep round stay ((j, x) ∷ m) s found h =
      elim (lookup-first k j v x m found) [
        | inl same ↦
            for_each_induction after (values m) body (body x s) stay
              (subst (λ y. after (body y s)) (sym same) (round s h))
        | inr later ↦
            for_each-values before after body k v keep round stay m (body x s) later (keep x s h)
      ]
