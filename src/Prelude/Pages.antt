-- ===== src/Prelude/Pages.antt =====
-- `LIMIT` and `OFFSET`: the length of a page, and what holds of its rows.
use Prim.Native.Nat.{ℕ, zero, suc, ◌≤◌}
use mathlib.Core.Path.{◌≡◌, refl, ap, ◌∙◌}
use mathlib.Core.Logic.{inl, inr}
use mathlib.Core.Bool.{Bool, true, false, not}
use mathlib.Core.List.{List, [], ◌∷◌, ◌++◌, map}
use native.Mathlib.Omega.{arith}
use document_classifier_week.Prelude.Tests.{if◌then◌else◌, Bool-cases}
use document_classifier_week.Prelude.Lists.{length, select, All, take, drop, IsReordering}

module _ {ℓ} {A : Type ℓ} where
  pub length-map {κ} : {B : Type κ} (f : A → B) (xs : List A) → length (map f xs) ≡ length xs
  length-map f [] = refl
  length-map f (x ∷ xs) = ap suc (length-map f xs)

  pub length-take_le : (n : ℕ) (xs : List A) → length (take n xs) ≤ n
  length-take_le zero xs = omega arith
  length-take_le (suc n) [] = omega arith
  length-take_le (suc n) (x ∷ xs) = let rest = length-take_le n xs in omega arith

  pub length-drop_le : (n : ℕ) (xs : List A) → length (drop n xs) ≤ length xs
  length-drop_le zero xs = omega arith
  length-drop_le (suc n) [] = omega arith
  length-drop_le (suc n) (x ∷ xs) = let rest = length-drop_le n xs in omega arith

  pub take-drop : (n : ℕ) (xs : List A) → take n xs ++ drop n xs ≡ xs
  take-drop zero xs = refl
  take-drop (suc n) [] = refl
  take-drop (suc n) (x ∷ xs) = ap (λ ys. x ∷ ys) (take-drop n xs)

  pub All-take {κ} : (P : A → Type κ) (n : ℕ) (xs : List A) → All P xs → All P (take n xs)
  All-take P zero xs h = tt
  All-take P (suc n) [] h = tt
  All-take P (suc n) (x ∷ xs) (h, hs) = (h, All-take P n xs hs)

  pub All-drop {κ} : (P : A → Type κ) (n : ℕ) (xs : List A) → All P xs → All P (drop n xs)
  All-drop P zero xs h = h
  All-drop P (suc n) [] h = tt
  All-drop P (suc n) (x ∷ xs) (h, hs) = All-drop P n xs hs

  select-excluded : (p : A → Bool) (xs : List A) → select (λ x. not (p x)) (select p xs) ≡ []
  select-excluded p [] = refl
  select-excluded p (x ∷ xs) = elim (Bool-cases (p x)) [
    | inl e ↦ rw (e, if◌then◌else◌, e, select-excluded p xs)
    | inr e ↦ rw (e, if◌then◌else◌, select-excluded p xs)
  ]

  no_others :
      (p : A → Bool) (xs : List A)
      → length (select (λ x. not (p x)) xs) ≡ 0
      → All (λ x. p x ≡ true) xs
  no_others p [] h = tt
  no_others p (x ∷ xs) h = one (p x) refl h (no_others p xs)
    where
      one :
          (b : Bool)
          → p x ≡ b
          → length (if not b then x ∷ select (λ x. not (p x)) xs else select (λ x. not (p x)) xs)
            ≡ 0
          → (length (select (λ x. not (p x)) xs) ≡ 0 → All (λ x. p x ≡ true) xs)
          → (p x ≡ true) × All (λ x. p x ≡ true) xs
      one true e h rest = (e, rest h)
      one false e h rest = grind arith

  -- Every row of an ordered query meets its condition.
  pub All-reordered :
      (order : List A → List A) (p : A → Bool) (xs : List A)
      → IsReordering order
      → All (λ x. p x ≡ true) (order (select p xs))
  All-reordered order p xs h =
      no_others p (order (select p xs))
        (h (λ x. not (p x)) (select p xs) ∙ ap length (select-excluded p xs))
