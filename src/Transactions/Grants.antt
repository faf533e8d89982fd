-- ===== src/Transactions/Grants.antt =====
-- The role service against its specification, over histories of operations.
use document_classifier_week.Prelude.{
  ℕ, IsReordering, ◌≡◌, refl, sym, ◌∙◌, ap, String, Option, List, [], ◌∷◌, arith,
}
use document_classifier_week.Models.{Uuid}
use document_classifier_week.Session.{
  Outside, Error, World, M, Result, ok, err, pure, continue, ◌>>=◌, rollback, in_session,
}
use document_classifier_week.RoleManagement.{assign_role, revoke_role, replace_roles}
use document_classifier_week.Guards.Roles.Parts.{active}
use document_classifier_week.Guards.Roles.Effects.{RoleOp, times, effect}
use document_classifier_week.Guards.Refinement.{perform, perform-Implements}
use document_classifier_week.Transactions.Services.{
  assign_role-raises, revoke_role-raises, replace_roles-raises,
}

-- an operation, the administrator who asks for it, and the identifier of the request
abbrev pub Call : Type 0
Call = RoleOp × Uuid × Option String

-- what the operations of the list do to the number of grants of a role to a user, in order
abbrev pub effects : List RoleOp → Uuid → String → ℕ → ℕ
effects [] other name n = n
effects (op ∷ ops) other name n = effects ops other name (effect op other name n)

-- the operation counts if it returned
abbrev counted : Result Unit → RoleOp → List RoleOp → List RoleOp
counted (ok a) op rest = op ∷ rest
counted (err e) op rest = rest

module _ (o : Outside) where
  -- each call in a session of its own
  abbrev run_call : Call → World → Result Unit × World
  run_call (op, admin, request_id) = in_session o (perform o op admin request_id)

  -- the world after the calls, whatever each returned or raised
  unfoldable pub run_calls : List Call → World → World
  run_calls [] w = w
  run_calls (c ∷ calls) w = run_calls calls (run_call c w).1

  -- the operations that returned
  unfoldable pub returned : List Call → World → List RoleOp
  returned [] w = []
  returned (c ∷ calls) w = counted (run_call c w).0 c.0 (returned calls (run_call c w).1)

  dropped :
      {A : Type 0} (r : Result A × World) (e : Error) (v : World)
      → continue r (λ a. pure tt) ≡ (err e, v)
      → (r.0 ≡ err e) × (v ≡ r.1)
  dropped (ok a, w) e v h = grind arith
  dropped (err x, w) e v h = grind arith

  dropped-saved :
      {A : Type 0} (m : M A) (w : World) (e : Error) (v : World)
      → ((m w).0 ≡ err e → (m w).1.saved ≡ w.saved)
      → (m >>= λ a. pure tt) w ≡ (err e, v)
      → v.saved ≡ w.saved
  dropped-saved m w e v atomic h =
      let (raised, same) = dropped (m w) e v h in ap (λ x. x.saved) same ∙ atomic raised

  perform-raises :
      (op : RoleOp) (admin : Uuid) (request_id : Option String) (w : World) (e : Error) (v : World)
      → perform o op admin request_id w ≡ (err e, v)
      → v.saved ≡ w.saved
  perform-raises (RoleOp.assign user role) admin request_id w e v h =
      dropped-saved (assign_role o user role admin request_id) w e v
        (assign_role-raises o user role admin request_id w e) h
  perform-raises (RoleOp.revoke user role) admin request_id w e v h =
      dropped-saved (revoke_role o user role admin request_id) w e v
        (revoke_role-raises o user role admin request_id w e) h
  perform-raises (RoleOp.replace user roles) admin request_id w e v h =
      dropped-saved (replace_roles o user roles admin request_id) w e v
        (replace_roles-raises o user roles admin request_id w e) h

  effects-counted :
      (r : Result Unit) (op : RoleOp) (rest : List RoleOp) (other : Uuid) (name : String) (n : ℕ)
      → effects (counted r op rest) other name n
        ≡ effects rest other name (effects (counted r op []) other name n)
  effects-counted (ok a) op rest other name n = refl
  effects-counted (err e) op rest other name n = refl

  -- the active grants of a role to a user that are committed
  abbrev pub committed : Uuid → String → World → ℕ
  committed other name w = times name (active other w.saved.role_assignments)

  -- one call, from the world that its session begins in
  call-effects :
      (op : RoleOp) (admin other : Uuid) (name : String) (request_id : Option String) (w : World)
      (r : Result Unit × World)
      → ((t : ℕ) → IsReordering (o.in_any_order t))
      → perform o op admin request_id (rollback w) ≡ r
      → committed other name r.1 ≡ effects (counted r.0 op []) other name (committed other name w)
  unfolding rollback
  call-effects op admin other name request_id w (ok a, v) reorders h =
      (perform-Implements o op admin other name request_id (rollback w) reorders refl).at a v h
  call-effects op admin other name request_id w (err e, v) reorders h =
      ap (λ db. times name (active other db.role_assignments))
        (perform-raises op admin request_id (rollback w) e v h)

  -- The role service refines counters. If the database gives the active roles of a user in any order,
  -- which may change from query to query, then after any calls of `assign_role`, `revoke_role` and
  -- `replace_roles`, each in a session of its own, some of which may have raised, the number of
  -- committed active grants of every role to every user is the one that results if exactly the
  -- operations that returned act on it, in order: an assignment makes it 1 if it was 0, a revocation
  -- takes one away, and a replacement sets it to how often the new list has the role.
  pub run_calls-effects :
      (calls : List Call) (other : Uuid) (name : String) (w : World)
      → ((t : ℕ) → IsReordering (o.in_any_order t))
      → committed other name (run_calls calls w)
        ≡ effects (returned calls w) other name (committed other name w)
  unfolding run_calls returned in_session rollback
  run_calls-effects [] other name w reorders = refl
  run_calls-effects ((op, admin, request_id) ∷ calls) other name w reorders =
      let c : Call = (op, admin, request_id) in
      run_calls-effects calls other name (run_call c w).1 reorders
      ∙ ap (effects (returned calls (run_call c w).1) other name) (
          call-effects op admin other name request_id w (perform o op admin request_id (rollback w))
            reorders refl)
      ∙ sym (
          effects-counted (run_call c w).0 op (returned calls (run_call c w).1) other name
            (committed other name w))
