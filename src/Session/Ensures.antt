-- ===== src/Session/Ensures.antt =====
-- What a run that returned has done: one rule for each way to build an action.
use document_classifier_week.Prelude.{
  ℕ, ◌≡◌, refl, sym, ◌∙◌, arith, Bool, true, false, List, Option, some, none, [], ◌∷◌,
}
use document_classifier_week.Models.{Db, Change, apply}
use document_classifier_week.Session.Errors.{Error}
use document_classifier_week.Session.Answers.{Outside}
use document_classifier_week.Session.Monad.{
  World, M, Result, ok, err, continue, recover, catch, raise_if, pure, raise, step, ◌>>=◌,
}
use document_classifier_week.Session.Database.{
  write, statement, rows, rows_at, commit, now, scalar_one_or_none,
}

-- From `w`, what `m` returns and its new world satisfy `Q`.
pub record Ensures {A : Type 0} (w : World) (m : M A) (Q : A → World → Type 0) : Type 0 where
  pub at : (a : A) (v : World) → m w ≡ (ok a, v) → Q a v

module _ {A : Type 0} where
  ok-equal :
      {a b : A} {w v : World} → Path (Result A × World) (ok a, w) (ok b, v) → (a ≡ b) × (w ≡ v)
  ok-equal h = grind arith

  pub Ensures-pure : {Q : A → World → Type 0} (a : A) (w : World) → Q a w → Ensures w (pure a) Q
  Ensures-pure {Q = Q} a w q = record {
    at = λ b v e. let (same, same') = ok-equal e in rw (sym same, sym same') q;
  }

  pub Ensures-raise : {Q : A → World → Type 0} (e : Error) (w : World) → Ensures w (raise e) Q
  Ensures-raise e w = record { at = λ b v h. absurd (no_value h) }
    where
      no_value : {b : A} {v : World} → ¬ Path (Result A × World) (err e, w) (ok b, v)
      no_value h = grind arith

module _ {A B : Type 0} where
  continue_inv :
      (r : Result A × World) (f : A → M B) (b : B) (w' : World)
      → continue r f ≡ (ok b, w')
      → (a : A) × (v : World) × (r ≡ (ok a, v)) × (f a v ≡ (ok b, w'))
  continue_inv (ok a, v) f b w' h = (a, v, refl, h)
  continue_inv (err e, v) f b w' h = grind arith

  pub Ensures-bind :
      {R : A → World → Type 0} {Q : B → World → Type 0} {w : World} {m : M A} {f : A → M B}
      → Ensures w m R
      → ((a : A) (v : World) → R a v → Ensures v (f a) Q)
      → Ensures w (m >>= f) Q
  Ensures-bind {w = w} {m = m} {f = f} h k = record {
    at = λ b v e.
        let (a, u, first, rest) = continue_inv (m w) f b v e in
        (k a u (h.at a u first)).at b v rest;
  }

pub Ensures-guard :
    {B : Type 0} {Q : B → World → Type 0} {w : World} (t : Bool) (e : Error) (f : Unit → M B)
    → (t ≡ false → Ensures w (f tt) Q)
    → Ensures w (raise_if t e >>= f) Q
Ensures-guard true e f k = Ensures-raise e _
Ensures-guard false e f k = k refl

abbrev pub to_list : {A : Type 0} → Option A → List A
to_list none = []
to_list (some x) = x ∷ []

pub Ensures-scalar :
    {A : Type 0} (xs : List A) (w : World)
    → Ensures w (scalar_one_or_none xs) (λ r v. (v ≡ w) × (xs ≡ to_list r))
unfolding scalar_one_or_none
Ensures-scalar [] w = Ensures-pure none w (refl, refl)
Ensures-scalar (x ∷ []) w = Ensures-pure (some x) w (refl, refl)
Ensures-scalar (x ∷ y ∷ rest) w = Ensures-raise _ w

pub Ensures-write :
    (c : Change) (w : World) → Ensures w (write c) (λ a v. v ≡ record w { db = apply c w.db })
unfolding write
Ensures-write c w = record { at = λ a v h. ground arith }

module _ (o : Outside) where
  pub Ensures-statement : (w : World) → Ensures w (statement o) (λ a v. v ≡ step w)
  unfolding statement
  Ensures-statement w = record { at = λ a v h. ground arith }

  pub Ensures-now : (w : World) → Ensures w (now o) (λ a v. v ≡ step w)
  unfolding now
  Ensures-now w = record { at = λ a v h. ground arith }

  pub Ensures-rows :
      {A : Type 0} (query : Db → List A) (w : World)
      → Ensures w (rows o query) (λ xs v. (xs ≡ query w.db) × (v ≡ step w))
  unfolding rows
  Ensures-rows query w = record { at = λ a v h. ground arith }

  pub Ensures-rows_at :
      {A : Type 0} (query : ℕ → Db → List A) (w : World)
      → Ensures w (rows_at o query) (λ xs v. (xs ≡ query w.tick w.db) × (v ≡ step w))
  unfolding rows_at
  Ensures-rows_at query w = record { at = λ a v h. (Ensures-rows (query w.tick) w).at a v h }

  pub Ensures-commit :
      (w : World) → Ensures w (commit o) (λ a v. v ≡ record (step w) { saved = w.db })
  unfolding commit
  Ensures-commit w = record { at = λ a v h. ground arith }

  -- a query for one row
  pub Ensures-one_row :
      {A : Type 0} (query : Db → List A) (w : World)
      → Ensures w
          (rows o query >>= scalar_one_or_none)
          (λ r v. (v ≡ step w) × (query w.db ≡ to_list r))
  Ensures-one_row query w = Ensures-bind (Ensures-rows query w) (λ xs u (read, stepped). record {
    at = λ r v h.
        let (same, found) = (Ensures-scalar xs u).at r v h in (same ∙ stepped, sym read ∙ found);
  })

recover_inv :
    {A : Type 0} (Q : A → World → Type 0) (r : Result A × World) (handler : Error → M A)
    → ((a : A) (v : World) → r ≡ (ok a, v) → Q a v)
    → ((e : Error) (u : World) → Ensures u (handler e) Q)
    → (a : A) (v : World) → recover r handler ≡ (ok a, v)
    → Q a v
recover_inv Q (ok b, u) handler h k a v e = h a v e
recover_inv Q (err exc, u) handler h k a v e = (k exc u).at a v e

pub Ensures-catch :
    {A : Type 0} {Q : A → World → Type 0} {w : World} {m : M A} {handler : Error → M A}
    → Ensures w m Q
    → ((e : Error) (u : World) → Ensures u (handler e) Q)
    → Ensures w (catch m handler) Q
Ensures-catch {Q = Q} {w = w} {m = m} {handler = handler} h k = record {
  at = λ a v e. recover_inv Q (m w) handler h.at k a v e;
}
