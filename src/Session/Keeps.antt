-- ===== src/Session/Keeps.antt =====
-- Invariants of actions, whether they return or raise: one rule for each way to build an action.
use document_classifier_week.Prelude.{◌≡◌, refl, Bool, true, false, List, [], ◌∷◌, if◌then◌else◌}
use document_classifier_week.Session.Errors.{Error}
use document_classifier_week.Session.Monad.{
  World, M, Result, ok, err, pure, raise, gets, continue, recover, raise_if, catch, for_each, ◌>>=◌,
}
use document_classifier_week.Session.Database.{scalar_one_or_none}

-- `m` keeps `P`.
pub record Keeps {A : Type 0} (P : World → Type 0) (m : M A) : Type 0 where
  pub at : (w : World) → P w → P (m w).1

abbrev pub Given : {A : Type 0} → (A → Type 0) → Result A → Type 0
Given Q (ok a) = Q a
Given Q (err e) = Unit

-- What `m` returns satisfies `Q`.
pub record Returns {A : Type 0} (Q : A → Type 0) (m : M A) : Type 0 where
  pub at : (w : World) → Given Q (m w).0

module _ {P : World → Type 0} where
  module _ {A : Type 0} where
    pub Keeps-if :
        (test : Bool) (then_ else_ : M A)
        → (test ≡ true → Keeps P then_)
        → (test ≡ false → Keeps P else_)
        → Keeps P (if test then then_ else else_)
    Keeps-if false then_ else_ on off = off refl
    Keeps-if true then_ else_ on off = on refl

    pub Keeps-raise : (exc : Error) → Keeps P (raise {A = A} exc)
    Keeps-raise exc = record { at = λ w kept. kept }

    pub Keeps-gets : (query : World → A) → Keeps P (gets query)
    Keeps-gets query = record { at = λ w kept. kept }

    pub Keeps-pure : (value : A) → Keeps P (pure value)
    Keeps-pure value = record { at = λ w kept. kept }

    pub Keeps-scalar : (xs : List A) → Keeps P (scalar_one_or_none xs)
    unfolding scalar_one_or_none
    Keeps-scalar [] = record { at = λ w h. h }
    Keeps-scalar (x ∷ []) = record { at = λ w h. h }
    Keeps-scalar (x ∷ y ∷ rest) = record { at = λ w h. h }

    recover-Keeps :
        (r : Result A × World) (handler : Error → M A)
        → P r.1
        → ((e : Error) → Keeps P (handler e))
        → P (recover r handler).1
    recover-Keeps (ok a, w) handler h kh = h
    recover-Keeps (err e, w) handler h kh = (kh e).at w h

    pub Keeps-catch :
        (m : M A) (handler : Error → M A)
        → Keeps P m
        → ((e : Error) → Keeps P (handler e))
        → Keeps P (catch m handler)
    Keeps-catch m handler km kh = record { at = λ w h. recover-Keeps (m w) handler (km.at w h) kh }

  module _ {A B : Type 0} where
    continue-Keeps :
        (Q : A → Type 0) (r : Result A × World) (f : A → M B)
        → P r.1
        → Given Q r.0
        → ((a : A) → Q a → Keeps P (f a))
        → P (continue r f).1
    continue-Keeps Q (ok a, w) f h q kf = (kf a q).at w h
    continue-Keeps Q (err e, w) f h q kf = h

    -- the rest may use what the first action returns
    pub Keeps-bind_given :
        (Q : A → Type 0) (m : M A) (f : A → M B)
        → Keeps P m
        → Returns Q m
        → ((a : A) → Q a → Keeps P (f a))
        → Keeps P (m >>= f)
    Keeps-bind_given Q m f km rm kf = record {
      at = λ w h. continue-Keeps Q (m w) f (km.at w h) (rm.at w) kf;
    }

    pub Keeps-bind :
        (m : M A) (f : A → M B) → Keeps P m → ((a : A) → Keeps P (f a)) → Keeps P (m >>= f)
    Keeps-bind m f km kf = record {
      at = λ w h. continue-Keeps (λ a. Unit) (m w) f (km.at w h) (any_result (m w).0) (λ a q. kf a);
    }
      where
        any_result : (r : Result A) → Given (λ a. Unit) r
        any_result (ok a) = tt
        any_result (err e) = tt

  -- the rest may use that the test did not raise
  pub Keeps-guard :
      {B : Type 0} (b : Bool) (e : Error) (f : Unit → M B)
      → (b ≡ false → Keeps P (f tt))
      → Keeps P (raise_if b e >>= f)
  Keeps-guard true e f kf = record { at = λ w h. h }
  Keeps-guard false e f kf = kf refl

  pub Keeps-raise_if : (b : Bool) (e : Error) → Keeps P (raise_if b e)
  Keeps-raise_if true e = record { at = λ w h. h }
  Keeps-raise_if false e = record { at = λ w h. h }

  pub Keeps-for_each :
      {A : Type 0} (xs : List A) (f : A → M Unit)
      → ((a : A) → Keeps P (f a))
      → Keeps P (for_each xs f)
  unfolding for_each
  Keeps-for_each [] f kf = record { at = λ w h. h }
  Keeps-for_each (x ∷ xs) f kf =
      Keeps-bind (f x) (λ _. for_each xs f) (kf x) (λ _. Keeps-for_each xs f kf)

pub ruleset keeps_rules = (
  Keeps-pure, Keeps-raise, Keeps-gets, Keeps-if, Keeps-scalar, Keeps-catch, Keeps-bind,
  Keeps-raise_if,
)
