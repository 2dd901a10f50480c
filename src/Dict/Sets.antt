-- ===== src/Dict/Sets.antt =====
-- std::unordered_set: `insert`, `erase`, `find`.
use distributed_chat_system.Prelude.{◌≡◌, refl, ite, Bool, true, false, List, [], ◌∷◌, arith}

module _ {K : Type 0} (dec : Discrete K) where
  unfoldable pub contains : K → List K → Bool
  contains k [] = false
  contains k (j ∷ xs) = ite (dec k j) true (contains k xs)

  unfoldable pub put : K → List K → List K
  put k [] = k ∷ []
  put k (j ∷ xs) = ite (dec k j) (j ∷ xs) (j ∷ put k xs)

  unfoldable pub remove : K → List K → List K
  remove k [] = []
  remove k (j ∷ xs) = let rest = remove k xs in ite (dec k j) rest (j ∷ rest)

  pub contains-put :
      (q k : K) (xs : List K) → contains q (put k xs) ≡ ite (dec q k) true (contains q xs)
  unfolding contains put
  contains-put q k [] = refl
  contains-put q k (j ∷ xs) = ground (arith, contains-put q k xs)

  pub contains-remove :
      (q k : K) (xs : List K) → contains q (remove k xs) ≡ ite (dec q k) false (contains q xs)
  unfolding contains remove
  contains-remove q k [] = ground arith
  contains-remove q k (j ∷ xs) = ground (arith, contains-remove q k xs)

pub ruleset set_laws = (contains-put, contains-remove)
