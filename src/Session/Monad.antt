-- ===== src/Session/Monad.antt =====
-- State and exceptions. What was done before a raise stays done, so the world comes back beside an
-- error too.
use document_classifier_week.Prelude.{ℕ, ◌+◌, String, Bool, true, false, List, [], ◌∷◌}
use document_classifier_week.Models.{Uuid, Bytes, Db}
use document_classifier_week.Session.Errors.{Error}
use document_classifier_week.Session.Answers.{PolicyCall}

-- `db` is what the session in use sees, with its pending changes; `saved` is what is committed.
-- A session that is not `active` waits for its rollback. The other fields list what the outside
-- has accepted, the newest first: no rollback undoes them. In particular the enforcer stores a change
-- of its rules in `casbin_rule` at once, in a session of its own; that table is in `policies` alone.
pub record World : Type 0 where
  pub tick : ℕ
  pub active : Bool
  pub db : Db
  pub saved : Db
  pub policies : List PolicyCall
  pub buckets : List String
  pub blobs : List (String × String × Bytes)
  pub queue : List (Uuid × Uuid)
  pub deleted_keys : List String

pub data Result (A : Type 0) : Type 0 where
  ok : A → Result A
  err : Error → Result A

abbrev pub M : Type 0 → Type 0
M A = World → Result A × World

module _ {A : Type 0} where
  abbrev pub pure : A → M A
  pure a w = (ok a, w)

  abbrev pub raise : Error → M A
  raise e w = (err e, w)

  abbrev pub gets : (World → A) → M A
  gets f w = (ok (f w), w)

-- what follows an action, after its result and its world
abbrev pub continue : {A B : Type 0} → Result A × World → (A → M B) → Result B × World
continue (ok a, w) f = f a w
continue (err e, w) f = (err e, w)

infixl 5 ◌>>=◌ ◌>>◌
abbrev pub ◌>>=◌ : {A B : Type 0} → M A → (A → M B) → M B
◌>>=◌ m f w = continue (m w) f

abbrev pub ◌>>◌ : {A B : Type 0} → M A → M B → M B
m >> k = m >>= λ _. k

abbrev pub modify : (World → World) → M Unit
modify f w = (ok tt, f w)

-- one interaction with the outside has passed
abbrev pub step : World → World
step w = record w { tick = w.tick + 1 }

abbrev pub when : Bool → M Unit → M Unit
when true m = m
when false m = pure tt

abbrev pub raise_if : Bool → Error → M Unit
raise_if b e = when b (raise e)

-- `try: m except: handler`
abbrev pub recover : {A : Type 0} → Result A × World → (Error → M A) → Result A × World
recover (ok a, w) handler = (ok a, w)
recover (err e, w) handler = handler e w

abbrev pub catch : {A : Type 0} → M A → (Error → M A) → M A
catch m handler w = recover (m w) handler

-- `for x in xs: f(x)`
unfoldable pub for_each : {A : Type 0} → List A → (A → M Unit) → M Unit
for_each [] f = pure tt
for_each (x ∷ xs) f = f x >> for_each xs f
