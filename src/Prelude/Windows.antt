-- ===== src/Prelude/Windows.antt =====
-- The last elements of a list: what a list keeps that drops its oldest element above a capacity.
use Prim.Native.Nat.{ℕ, zero, suc, ◌+◌, ◌-◌, ◌≤◌}
use mathlib.Core.Path.{◌≡◌, refl, ap, ◌∙◌, sym}
use mathlib.Core.List.{List, [], ◌∷◌, ◌++◌}
use native.Mathlib.Omega.{arith}
use modbus_viewer.Prelude.Lists.{length, drop, length-append, length-drop}

module _ {ℓ} {A : Type ℓ} where
  abbrev pub last : ℕ → List A → List A
  last n xs = drop (length xs - n) xs

  drop-nil : (m : ℕ) → drop {A = A} m [] ≡ []
  drop-nil zero = refl
  drop-nil (suc m) = refl

  drop-drop : (m k : ℕ) (xs : List A) → drop m (drop k xs) ≡ drop (k + m) xs
  drop-drop m zero xs = let e : 0 + m ≡ m = omega arith in rw e refl
  drop-drop m (suc k) [] = drop-nil m ∙ sym (drop-nil (suc k + m))
  drop-drop m (suc k) (x ∷ xs) =
      let e : suc k + m ≡ suc (k + m) = omega arith in rw e (drop-drop m k xs)

  pub drop-append_left :
      (k : ℕ) (xs ys : List A) → k ≤ length xs → drop k (xs ++ ys) ≡ drop k xs ++ ys
  drop-append_left zero xs ys h = refl
  drop-append_left (suc k) [] ys h = absurd (omega arith)
  drop-append_left (suc k) (x ∷ xs) ys h = drop-append_left k xs ys (omega arith)

  -- A window taken early loses nothing that the last one needs.
  pub last-append : (n : ℕ) (xs ys : List A) → last n (last n xs ++ ys) ≡ last n (xs ++ ys)
  last-append n xs ys =
      let k = length xs - n in
      let whole : drop k xs ++ ys ≡ drop k (xs ++ ys) =
        sym (drop-append_left k xs ys (omega arith)) in
      let m = length (drop k xs ++ ys) - n in
      let count : k + m ≡ length (xs ++ ys) - n =
        omega (arith, length-append (drop k xs) ys, length-drop k xs, length-append xs ys) in
      ap (drop m) whole ∙ drop-drop m k (xs ++ ys) ∙ ap (λ i. drop i (xs ++ ys)) count

  pub last_short : (n : ℕ) (xs : List A) → length xs ≤ n → last n xs ≡ xs
  last_short n xs h = let e : length xs - n ≡ 0 = omega arith in rw e refl

  pub length-last : (n : ℕ) (xs : List A) → length (last n xs) ≤ n
  length-last n xs = omega (arith, length-drop (length xs - n) xs)
