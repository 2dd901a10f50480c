-- ===== src/Dict/Map.antt =====
-- std::unordered_map: `m[k] = v`, `find`, `erase(k)`, and erasure in a loop.
use mathlib.Core.List.{lookup}
use distributed_chat_system.Prelude.{
  ◌≡◌, refl, ite, if_pos, if_neg, All, Bool, none, some, List, [], ◌∷◌, map, arith, if◌then◌else◌,
}

module _ {ℓ} {K V : Type ℓ} where
  abbrev pub keys : List (K × V) → List K
  keys = map (λ e. e.0)

  abbrev pub values : List (K × V) → List V
  values = map (λ e. e.1)

  -- the loop `if (p(it->second)) it = m.erase(it); else ++it;`
  unfoldable pub erase_if : (V → Bool) → List (K × V) → List (K × V)
  erase_if p [] = []
  erase_if p ((j, v) ∷ m) = let rest = erase_if p m in if p v then rest else (j, v) ∷ rest

module _ {ℓ} {K V : Type ℓ} (dec : Discrete K) where
  unfoldable pub insert : K → V → List (K × V) → List (K × V)
  insert k v [] = (k, v) ∷ []
  insert k v ((j, w) ∷ m) = ite (dec k j) ((k, v) ∷ m) ((j, w) ∷ insert k v m)

  unfoldable pub erase : K → List (K × V) → List (K × V)
  erase k [] = []
  erase k ((j, v) ∷ m) = let rest = erase k m in ite (dec k j) rest ((j, v) ∷ rest)

  unfoldable pub lookup_or : V → K → List (K × V) → V
  unfolding lookup
  lookup_or d k m = elim (lookup dec k m) [ none ↦ d | some v ↦ v ]

  pub lookup-insert :
      (q k : K) (v : V) (m : List (K × V))
      → lookup dec q (insert k v m) ≡ ite (dec q k) (some v) (lookup dec q m)
  unfolding lookup insert
  lookup-insert q k v [] = ground arith
  lookup-insert q k v ((j, w) ∷ m) = ground (arith, lookup-insert q k v m)

  pub lookup-erase :
      (q k : K) (m : List (K × V)) → lookup dec q (erase k m) ≡ ite (dec q k) none (lookup dec q m)
  unfolding lookup erase
  lookup-erase q k [] = ground arith
  lookup-erase q k ((j, w) ∷ m) = ground (arith, lookup-erase q k m)

  -- No key stands twice.
  abbrev pub Distinct : List (K × V) → Type ℓ
  Distinct [] = Unit
  Distinct ((k, v) ∷ m) = (lookup dec k m ≡ none) × Distinct m

  pub insert-Distinct : (k : K) (v : V) (m : List (K × V)) → Distinct m → Distinct (insert k v m)
  unfolding insert lookup
  insert-Distinct k v [] h = (refl, tt)
  insert-Distinct k v ((j, w) ∷ m) h = ground (arith, insert-Distinct k v m, lookup-insert j k v m)

  pub erase-Distinct : (k : K) (m : List (K × V)) → Distinct m → Distinct (erase k m)
  unfolding erase
  erase-Distinct k [] h = tt
  erase-Distinct k ((j, w) ∷ m) h = ground (arith, erase-Distinct k m, lookup-erase j k m)

  lookup-erase_if-none :
      (p : V → Bool) (q : K) (m : List (K × V))
      → lookup dec q m ≡ none
      → lookup dec q (erase_if p m) ≡ none
  unfolding lookup erase_if
  lookup-erase_if-none p q [] h = refl
  lookup-erase_if-none p q ((j, w) ∷ m) h = ground (arith, lookup-erase_if-none p q m)

  -- The loop drops an entry exactly when its value passes the test.
  pub lookup-erase_if :
      (p : V → Bool) (q : K) (m : List (K × V))
      → Distinct m
      → lookup dec q (erase_if p m)
        ≡ elim (lookup dec q m) [ none ↦ none | some v ↦ if p v then none else some v ]
  unfolding lookup erase_if
  lookup-erase_if p q [] h = refl
  lookup-erase_if p q ((j, w) ∷ m) h =
      ground (arith, lookup-erase_if p q m, lookup-erase_if-none p j m)

  pub erase_if-Distinct : (p : V → Bool) (m : List (K × V)) → Distinct m → Distinct (erase_if p m)
  unfolding erase_if
  erase_if-Distinct p [] h = tt
  erase_if-Distinct p ((j, w) ∷ m) h =
      ground (arith, erase_if-Distinct p m, lookup-erase_if-none p j m)

-- What holds of every entry still does after a change.
module _ {ℓ κ} {K V : Type ℓ} (dec : Discrete K) (P : K × V → Type κ) where
  pub insert-All :
      (k : K) (v : V) (m : List (K × V)) → P (k, v) → All P m → All P (insert dec k v m)
  unfolding insert
  insert-All k v [] p h = (p, tt)
  insert-All k v ((j, w) ∷ m) p h = elim (dec k j) [
    | yes e ↦ rw (if_pos _ e) (p, h.1)
    | no e ↦ rw (if_neg _ e) (h.0, insert-All k v m p h.1)
  ]

  pub erase-All : (k : K) (m : List (K × V)) → All P m → All P (erase dec k m)
  unfolding erase
  erase-All k [] h = tt
  erase-All k ((j, w) ∷ m) h = elim (dec k j) [
    | yes e ↦ rw (if_pos _ e) (erase-All k m h.1)
    | no e ↦ rw (if_neg _ e) (h.0, erase-All k m h.1)
  ]

pub ruleset map_laws = (lookup-insert, lookup-erase)
