-- ===== src/Prelude/Rows.antt =====
-- What an update of rows keeps: a property of every row, and an image of the table.
use mathlib.Core.Path.{◌≡◌, refl, sym, ap, ◌∙◌}
use mathlib.Core.Logic.{inl, inr}
use mathlib.Core.Bool.{Bool, true, false, ◌&&◌}
use Prim.Native.Nat.{◌+◌, ◌≤◌}
use mathlib.Core.List.{List, [], ◌∷◌, ◌++◌, map}
use native.Mathlib.Omega.{arith}
use document_classifier_week.Prelude.Tests.{if◌then◌else◌, Bool-cases}
use document_classifier_week.Prelude.Lists.{length, rewrite, select, All}

-- `xs` is `base` with newer entries in front.
abbrev pub Extends {ℓ} : {A : Type ℓ} → List A → List A → Type ℓ
Extends {A = A} base xs = (newer : List A) × (xs ≡ newer ++ base)

module _ {ℓ} {A : Type ℓ} where
  pub Extends-refl : (base : List A) → Extends base base
  Extends-refl base = ([], refl)

  pub Extends-cons : (base : List A) (x : A) {xs : List A} → Extends base xs → Extends base (x ∷ xs)
  Extends-cons base x (newer, e) = (x ∷ newer, ap (λ ys. x ∷ ys) e)

  pub All-rewrite {κ} :
      {P : A → Type κ} (p : A → Bool) (f : A → A)
      → ((x : A) → P x → P (f x))
      → (xs : List A) → All P xs
      → All P (rewrite p f xs)
  All-rewrite p f keep [] h = tt
  All-rewrite {P = P} p f keep (x ∷ xs) (h, hs) = (one (p x), All-rewrite p f keep xs hs)
    where
      one : (b : Bool) → P (if b then f x else x)
      one true = keep x h
      one false = h

  pub map-rewrite {κ} :
      {B : Type κ} (g : A → B) (p : A → Bool) (f : A → A)
      → ((x : A) → g (f x) ≡ g x)
      → (xs : List A) → map g (rewrite p f xs) ≡ map g xs
  map-rewrite g p f keep [] = refl
  map-rewrite g p f keep (x ∷ xs) = rw (one (p x), map-rewrite g p f keep xs)
    where
      one : (b : Bool) → g (if b then f x else x) ≡ g x
      one true = keep x
      one false = refl

module _ {A : Type 0} (p : A → Bool) (f : A → A) where
  -- An update that takes the rows out of its own query leaves none.
  pub select-rewrite_self :
      ((x : A) → p x ≡ true → p (f x) ≡ false) → (xs : List A) → select p (rewrite p f xs) ≡ []
  select-rewrite_self out [] = refl
  select-rewrite_self out (x ∷ xs) = elim (Bool-cases (p x)) [
    | inl e ↦ rw (e, if◌then◌else◌, out x e, select-rewrite_self out xs)
    | inr e ↦ rw (e, if◌then◌else◌, e, select-rewrite_self out xs)
  ]

  -- An update of rows that a query finds neither before nor after does not change what it finds.
  pub select-rewrite_other :
      (q : A → Bool)
      → ((x : A) → p x ≡ true → (q x ≡ false) × (q (f x) ≡ false))
      → (xs : List A) → select q (rewrite p f xs) ≡ select q xs
  select-rewrite_other q out [] = refl
  select-rewrite_other q out (x ∷ xs) = elim (Bool-cases (p x)) [
    | inl e ↦ let (n, n') = out x e in rw (e, if◌then◌else◌, n, n', select-rewrite_other q out xs)
    | inr e ↦ rw (e, if◌then◌else◌, select-rewrite_other q out xs)
  ]

module _ {A : Type 0} (p : A → Bool) where
  pub select-here : (x : A) (xs : List A) → p x ≡ true → select p (x ∷ xs) ≡ x ∷ select p xs
  select-here x xs e = rw (e, if◌then◌else◌) refl

  pub select-skip : (x : A) (xs : List A) → p x ≡ false → select p (x ∷ xs) ≡ select p xs
  select-skip x xs e = rw (e, if◌then◌else◌) refl

  pub rewrite-here :
      (f : A → A) (x : A) (xs : List A) → p x ≡ true → rewrite p f (x ∷ xs) ≡ f x ∷ rewrite p f xs
  rewrite-here f x xs e = rw (e, if◌then◌else◌) refl

  pub rewrite-skip :
      (f : A → A) (x : A) (xs : List A) → p x ≡ false → rewrite p f (x ∷ xs) ≡ x ∷ rewrite p f xs
  rewrite-skip f x xs e = rw (e, if◌then◌else◌) refl

  pub cons-nil : {x : A} {xs : List A} → ¬ Path (List A) (x ∷ xs) []
  cons-nil h = grind arith

  pub rewrite-none : (f : A → A) (xs : List A) → select p xs ≡ [] → rewrite p f xs ≡ xs
  rewrite-none f [] h = refl
  rewrite-none f (x ∷ xs) h = elim (Bool-cases (p x)) [
    | inl e ↦ absurd (cons-nil (sym (select-here x xs e) ∙ h))
    | inr e ↦
        rewrite-skip f x xs e ∙ ap (λ ys. x ∷ ys) (rewrite-none f xs (sym (select-skip x xs e) ∙ h))
  ]

module _ {A : Type 0} where
  -- Two conditions in one query, or one after the other.
  pub select-and :
      (p q : A → Bool) (xs : List A) → select (λ x. p x && q x) xs ≡ select q (select p xs)
  select-and p q [] = refl
  select-and p q (x ∷ xs) =
      let rest = select-and p q xs in
      elim (Bool-cases (p x)) [
        | inr e ↦ rw (e, if◌then◌else◌) rest
        | inl e ↦ elim (Bool-cases (q x)) [
          | inl g ↦ rw (e, g, if◌then◌else◌) (ap (λ ys. x ∷ ys) rest)
          | inr g ↦ rw (e, g, if◌then◌else◌) rest
        ]
      ]

  pub length-select-select :
      (p q : A → Bool) (xs : List A) → length (select q (select p xs)) ≤ length (select q xs)
  length-select-select p q [] = omega arith
  length-select-select p q (x ∷ xs) =
      let rest = length-select-select p q xs in
      elim (Bool-cases (p x)) [
        | inl e ↦ elim (Bool-cases (q x)) [
          | inl g ↦ rw (e, g, if◌then◌else◌) (omega arith)
          | inr g ↦ rw (e, g, if◌then◌else◌) rest
        ]
        | inr e ↦ elim (Bool-cases (q x)) [
          | inl g ↦ rw (e, g, if◌then◌else◌) (omega arith)
          | inr g ↦ rw (e, g, if◌then◌else◌) rest
        ]
      ]

  -- An update after which its rows are not found takes away those that were found before.
  pub length-rewrite :
      (p q : A → Bool) (f : A → A)
      → ((x : A) → q (f x) ≡ false)
      → (xs : List A)
      → length (select q (rewrite p f xs)) + length (select (λ x. p x && q x) xs)
        ≡ length (select q xs)
  length-rewrite p q f out [] = refl
  length-rewrite p q f out (x ∷ xs) =
      let rest = length-rewrite p q f out xs in
      elim (Bool-cases (p x)) [
        | inl e ↦ elim (Bool-cases (q x)) [
          | inl g ↦ rw (e, g, if◌then◌else◌, out x) (omega arith)
          | inr g ↦ rw (e, g, if◌then◌else◌, out x) rest
        ]
        | inr e ↦ elim (Bool-cases (q x)) [
          | inl g ↦ rw (e, g, if◌then◌else◌) (omega arith)
          | inr g ↦ rw (e, g, if◌then◌else◌) rest
        ]
      ]
