-- ===== src/Guards/Roles/Revoking.antt =====
-- What the repository's revocation of a row that was found does to the active roles.
use document_classifier_week.Prelude.{
  ◌≡◌, sym, ◌∙◌, ap, subst, String, Bool, true, Option, some, List, [], ◌∷◌, ◌==◌, nat_eq,
  string_eq, inl, inr, Bool-cases, arith, select, rewrite, cons-nil, select-here, select-skip,
  IsReordering,
}
use document_classifier_week.Models.{Uuid, Change, apply, RoleAssignment, as_revoked}
use document_classifier_week.Session.{Outside, World, step}
use document_classifier_week.Session.Ensures.{
  Ensures, Ensures-pure, Ensures-bind, Ensures-write, Ensures-statement, Ensures-now,
  Ensures-one_row, to_list,
}
use document_classifier_week.Repositories.Roles
use document_classifier_week.Repositories.Roles.{is_active_role}
use document_classifier_week.Guards.Roles.Parts.{active}
use document_classifier_week.Guards.Roles.Effects.{RoleOp, times, effect}
use document_classifier_week.Guards.Roles.Revoked.{is_target, Finds, target-active, revoked-times}

select-true :
    {A : Type 0} (p : A → Bool) (xs rest : List A) (r : A) → select p xs ≡ r ∷ rest → p r ≡ true
select-true p [] rest r h = absurd (cons-nil p (sym h))
select-true {A = A} p (x ∷ xs) rest r h = elim (Bool-cases (p x)) [
  | inl e ↦ subst (λ y. p y ≡ true) (head-equal (sym (select-here p x xs e) ∙ h)) e
  | inr e ↦ select-true p xs rest r (sym (select-skip p x xs e) ∙ h)
]
  where
    head-equal : {a b : A} {ys zs : List A} → Path (List A) (a ∷ ys) (b ∷ zs) → a ≡ b
    head-equal h = grind arith

module _ (o : Outside) (user : Uuid) (role : String) where
  -- the tables after a revocation
  abbrev pub After : Uuid → String → World → World → Type 0
  After other name w v =
      times name (active other v.db.role_assignments)
      ≡ effect (RoleOp.revoke user role) other name
          (times name (active other w.db.role_assignments))

  -- one row has the identifier, and it is an active grant of the role
  abbrev IsGrant : RoleAssignment → List RoleAssignment → Type 0
  IsGrant r xs = (select (λ x. x.id == r.id) xs ≡ r ∷ []) × (is_active_role user role r ≡ true)

  Ensures-revoke_some :
      (r : RoleAssignment) (other : Uuid) (name : String) (w : World)
      → IsGrant r w.db.role_assignments
      → Ensures w (Roles.revoke_found o (some r)) (λ a v. After other name w v)
  unfolding Roles.revoke_found apply
  Ensures-revoke_some r other name w (only, act) = Ensures-bind (Ensures-now o w) (λ τ w1 e1.
      Ensures-bind (Ensures-write (Change.revoke_role r.id τ) w1) (λ _ w2 e2.
        Ensures-bind (Ensures-statement o w2) (λ _ w3 e3. Ensures-pure _ w3 (
          ap (λ x. times name (active other x.db.role_assignments)) (e3 ∙ ap step e2)
          ∙ ap
              (λ x.
                times name
                  (active other (rewrite (λ y. y.id == r.id) (as_revoked τ) x.db.role_assignments)))
              e1
          ∙ revoked-times user role r τ other name w.db.role_assignments only act))))

  Ensures-revoke_found :
      (t : RoleAssignment) (r : Option RoleAssignment) (other : Uuid) (name : String) (w : World)
      (order : List RoleAssignment → List RoleAssignment)
      → IsReordering order
      → Finds user role t order w.db.role_assignments
      → select (is_target user role t) w.db.role_assignments ≡ to_list r
      → Ensures w (Roles.revoke_found o r) (λ a v. After other name w v)
  Ensures-revoke_found t r other name w order reorders finds found =
      let (s, is_s, act) =
        target-active user role t order w.db.role_assignments r reorders finds found in
      let here = found ∙ ap to_list is_s in
      let same =
        (nat_eq.test_iff s.id t.id).0
          (select-true (is_target user role t) w.db.role_assignments [] s here) in
      subst (λ q. Ensures w (Roles.revoke_found o q) (λ a v. After other name w v)) (sym is_s)
        (Ensures-revoke_some s other name w (
          subst (λ i. select (λ x. x.id == i) w.db.role_assignments ≡ s ∷ []) (sym same) here,
          act,
        ))

  pub Ensures-revoke :
      (t : RoleAssignment) (other : Uuid) (name : String) (w : World)
      (order : List RoleAssignment → List RoleAssignment)
      → IsReordering order
      → Finds user role t order w.db.role_assignments
      → Ensures w (Roles.revoke o t.id) (λ a v. After other name w v)
  unfolding Roles.revoke Roles.get_by_id
  Ensures-revoke t other name w order reorders finds =
      Ensures-bind (Ensures-one_row o (λ db. select (is_target user role t) db.role_assignments) w)
        (λ r w1 (e1, found). record {
          at = λ a v h.
              (Ensures-revoke_found t r other name w1 order reorders
                  (subst (λ x. Finds user role t order x.db.role_assignments) (sym e1) finds)
                  (ap (λ x. select (is_target user role t) x.db.role_assignments) e1 ∙ found)).at
                a v h
              ∙ ap
                  (λ x.
                    effect (RoleOp.revoke user role) other name
                      (times name (active other x.db.role_assignments)))
                  e1;
        })
