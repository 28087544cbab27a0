-- ===== src/Prelude/Members.antt =====
-- "Some element has the property" as a predicate by recursion, which the tactics open.
use mathlib.Core.Logic.{◌⊎◌, inl, inr}
use mathlib.Core.List.{List, [], ◌∷◌, ◌++◌}
use modbus_viewer.Prelude.Lists.{All}

abbrev pub Any {ℓ} : {A : Type ℓ} → (A → Type 0) → List A → Type 0
Any P [] = ⊥
Any P (x ∷ xs) = P x ⊎ Any P xs

module _ {ℓ} {A : Type ℓ} (P : A → Type 0) where
  pub Any-append_left : (xs ys : List A) → Any P xs → Any P (xs ++ ys)
  Any-append_left [] ys h = absurd h
  Any-append_left (x ∷ xs) ys (inl h) = inl h
  Any-append_left (x ∷ xs) ys (inr h) = inr (Any-append_left xs ys h)

  pub Any-append_right : (xs ys : List A) → Any P ys → Any P (xs ++ ys)
  Any-append_right [] ys h = h
  Any-append_right (x ∷ xs) ys h = inr (Any-append_right xs ys h)

  pub Any-split : (xs ys : List A) → Any P (xs ++ ys) → Any P xs ⊎ Any P ys
  Any-split [] ys h = inr h
  Any-split (x ∷ xs) ys (inl h) = inl (inl h)
  Any-split (x ∷ xs) ys (inr h) = elim (Any-split xs ys h) [ inl k ↦ inl (inr k) | inr k ↦ inr k ]

module _ {ℓ} {A : Type ℓ} (P Q : A → Type 0) where
  pub Any-mono : ((a : A) → P a → Q a) → (xs : List A) → Any P xs → Any Q xs
  Any-mono f [] h = h
  Any-mono f (x ∷ xs) (inl h) = inl (f x h)
  Any-mono f (x ∷ xs) (inr h) = inr (Any-mono f xs h)

  -- An element with one property, where all have the other.
  pub Any_find : (xs : List A) → All P xs → Any Q xs → (a : A) × P a × Q a
  Any_find [] all h = absurd h
  Any_find (x ∷ xs) all (inl h) = (x, all.0, h)
  Any_find (x ∷ xs) all (inr h) = Any_find xs all.1 h

  pub All-mono : ((a : A) → P a → Q a) → (xs : List A) → All P xs → All Q xs
  All-mono f [] h = h
  All-mono f (x ∷ xs) h = (f x h.0, All-mono f xs h.1)

  pub All-both : (xs : List A) → All P xs → All Q xs → All (λ a. P a × Q a) xs
  All-both [] h k = tt
  All-both (x ∷ xs) h k = ((h.0, k.0), All-both xs h.1 k.1)

  pub Any-both : (xs : List A) → All P xs → Any Q xs → Any (λ a. P a × Q a) xs
  Any-both [] h k = k
  Any-both (x ∷ xs) h (inl k) = inl (h.0, k)
  Any-both (x ∷ xs) h (inr k) = inr (Any-both xs h.1 k)
