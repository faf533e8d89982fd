-- ===== src/Transactions/Atomic.antt =====
-- Actions that commit nothing, and actions that commit nothing when they raise.
use document_classifier_week.Prelude.{
  ◌≡◌, ◌≢◌, refl, ◌∙◌, ap, Bool, true, false, if◌then◌else◌, arith,
}
use document_classifier_week.Models.{Db}
use document_classifier_week.Session.{
  Outside, Error, World, M, Result, ok, err, continue, pure, ◌>>=◌, commit,
}
use document_classifier_week.Session.Keeps.{Keeps}
use document_classifier_week.Cache.{or_warn}
use document_classifier_week.Cache.Effects.{IsHarmless, or_warn-returns}

-- What is committed is `s`.
pub record IsSaved (s : Db) (w : World) : Type 0 where
  pub eq : w.saved ≡ s

abbrev pub IsQuiet : {A : Type 0} → M A → Type 0
IsQuiet m = (s : Db) → Keeps (IsSaved s) m

-- `m` has committed nothing when it raises.
pub record IsAtomic {A : Type 0} (m : M A) : Type 0 where
  pub at : (w : World) (e : Error) → (m w).0 ≡ err e → (m w).1.saved ≡ w.saved

pub record IsTotal {A : Type 0} (m : M A) : Type 0 where
  pub at : (w : World) (e : Error) → (m w).0 ≢ err e

pub IsTotal-or_warn : (m : M Unit) → IsHarmless m → IsTotal (or_warn m)
IsTotal-or_warn m hm = record { at = λ w e h. grind (arith, or_warn-returns m w hm) }

err-injective : {A : Type 0} {e e' : Error} → Path (Result A) (err e) (err e') → e ≡ e'
err-injective h = cc

module _ {A : Type 0} where
  pub IsTotal-pure : (a : A) → IsTotal (pure a)
  IsTotal-pure a = record { at = λ w e h. grind arith }

  pub IsAtomic-quiet : (m : M A) → IsQuiet m → IsAtomic m
  IsAtomic-quiet m q = record { at = λ w e h. ((q w.saved).at w (record { eq = refl })).eq }

  pub IsAtomic-if : (b : Bool) (m n : M A) → IsAtomic m → IsAtomic n → IsAtomic (if b then m else n)
  IsAtomic-if true m n hm hn = hm
  IsAtomic-if false m n hm hn = hn

module _ {A B : Type 0} where
  continue-saved :
      (s : Db) (r : Result A × World) (f : A → M B)
      → r.1.saved ≡ s
      → ((a : A) → IsAtomic (f a))
      → (e : Error) → (continue r f).0 ≡ err e
      → (continue r f).1.saved ≡ s
  continue-saved s (ok a, w) f q hf e h = (hf a).at w e h ∙ q
  continue-saved s (err exc, w) f q hf e h = q

  -- nothing is committed before the rest
  pub IsAtomic-bind :
      (m : M A) (f : A → M B) → IsQuiet m → ((a : A) → IsAtomic (f a)) → IsAtomic (m >>= f)
  IsAtomic-bind m f q hf = record {
    at =
        λ w e h. continue-saved w.saved (m w) f ((q w.saved).at w (record { eq = refl })).eq hf e h;
  }

  continue-total :
      (r : Result A × World) (f : A → M B)
      → ((a : A) → IsTotal (f a))
      → (e : Error) → (continue r f).0 ≡ err e
      → r.0 ≡ err e
  continue-total (ok a, w) f hf e h = absurd ((hf a).at w e h)
  continue-total (err exc, w) f hf e h = ap err (err-injective h)

  continue-first :
      (s : Db) (r : Result A × World) (f : A → M B)
      → (e : Error) → r.0 ≡ err e
      → r.1.saved ≡ s
      → (continue r f).1.saved ≡ s
  continue-first s (ok a, w) f e h q = grind arith
  continue-first s (err exc, w) f e h q = q

  pub IsTotal-bind :
      (m : M A) (f : A → M B) → IsTotal m → ((a : A) → IsTotal (f a)) → IsTotal (m >>= f)
  IsTotal-bind m f hm hf = record { at = λ w e h. hm.at w e (continue-total (m w) f hf e h) }

  -- the rest does not raise
  pub IsAtomic-last :
      (m : M A) (f : A → M B) → IsAtomic m → ((a : A) → IsTotal (f a)) → IsAtomic (m >>= f)
  IsAtomic-last m f hm hf = record {
    at = λ w e h.
        let raised = continue-total (m w) f hf e h in
        continue-first w.saved (m w) f e raised (hm.at w e raised);
  }

pub IsAtomic-commit : (o : Outside) → IsAtomic (commit o)
unfolding commit
IsAtomic-commit o = record { at = λ w e h. ground arith }
