-- ===== src/Transactions/Stored.antt =====
-- What Casbin has stored when `replace_roles` ends: the enforcer writes its own table at once.
use document_classifier_week.Prelude.{
  ℕ, suc, ◌≡◌, refl, sym, ◌∙◌, ap, subst, ◌⊎◌, inl, inr, String, Option, List, [], ◌∷◌, take, arith,
  str, string_eq,
}
use document_classifier_week.Models.{Uuid}
use document_classifier_week.Session.{
  Outside, Error, PolicyCall, add_role_for_user, delete_roles_for_user, World, M, Result, ok, err,
  continue, ◌>>=◌, commit, for_each,
}
use document_classifier_week.Repositories.Roles
use document_classifier_week.Authorization
use document_classifier_week.Cache.{or_warn}
use document_classifier_week.Cache.Effects.{user_roles-IsHarmless}
use document_classifier_week.RoleManagement.{
  require_admin, validate_role, new_assignment, assign_each, audit_change, replace_roles,
}
use document_classifier_week.Transactions.Services.{replace_roles-raises}
use document_classifier_week.Transactions.Mute.{
  IsMute, Mute-or_warn, Mute-require_admin, Mute-validate_roles, Mute-revoke_all,
  Mute-new_assignment, Mute-create, Mute-audit_change, Mute-commit,
}

-- What holds of the enforcer's calls at the end of a bind, if it holds where the bind raises, and of
-- all that follows.
module _ {A B : Type 0} (Q : List PolicyCall → Type 0) where
  Ends-continue :
      (r : Result A × World) (f : A → M B)
      → ((e : Error) (v : World) → r ≡ (err e, v) → Q v.policies)
      → ((a : A) (v : World) → r ≡ (ok a, v) → Q (f a v).1.policies)
      → Q (continue r f).1.policies
  Ends-continue (ok a, v) f raised returned = returned a v refl
  Ends-continue (err e, v) f raised returned = raised e v refl

  -- after an action that tells nothing
  Ends-mute :
      (m : M A) (f : A → M B) (w : World)
      → IsMute m
      → Q w.policies
      → ((a : A) (v : World) → v.policies ≡ w.policies → Q (f a v).1.policies)
      → Q ((m >>= f) w).1.policies
  Ends-mute m f w quiet here rest =
      let kept = ((quiet w.policies).at w (record { eq = refl })).eq in
      Ends-continue (m w) f (λ e v h. subst Q (sym (sym (ap (λ r. r.1.policies) h) ∙ kept)) here)
        (λ a v h. rest a v (sym (ap (λ r. r.1.policies) h) ∙ kept))

-- what the loop over `roles` tells
abbrev pub told : List String → Uuid → List PolicyCall → List PolicyCall
told [] user ps = ps
told (role ∷ roles) user ps = told roles user (add_role_for_user (str user) role ∷ ps)

-- the loop has come to the role after the first `n`
abbrev IsPart : List String → Uuid → List PolicyCall → List PolicyCall → Type 0
IsPart roles user base ps = (n : ℕ) × (ps ≡ told (take n roles) user base)

-- Nothing is stored, or the removal of the user's roles and after it the first `n` of the new ones.
abbrev pub IsStored : List String → Uuid → List PolicyCall → List PolicyCall → Type 0
IsStored roles user base ps =
    (ps ≡ base) ⊎ IsPart roles user (delete_roles_for_user (str user) ∷ base) ps

module _ (o : Outside) where
  tell-refused :
      (c : PolicyCall) (w : World) (e : Error) (v : World)
      → Authorization.tell o c w ≡ (err e, v)
      → v.policies ≡ w.policies
  unfolding Authorization.tell
  tell-refused c w e v h = ground arith

  tell-stored :
      (c : PolicyCall) (w : World) (a : Unit) (v : World)
      → Authorization.tell o c w ≡ (ok a, v)
      → v.policies ≡ c ∷ w.policies
  unfolding Authorization.tell
  tell-stored c w a v h = ground arith

  -- a change of the rules is stored, or it raises
  Ends-tell :
      {B : Type 0} (Q : List PolicyCall → Type 0) (c : PolicyCall) (f : Unit → M B) (w : World)
      → Q w.policies
      → ((a : Unit) (v : World) → v.policies ≡ c ∷ w.policies → Q (f a v).1.policies)
      → Q ((Authorization.tell o c >>= f) w).1.policies
  Ends-tell Q c f w here rest =
      Ends-continue Q (Authorization.tell o c w) f
        (λ e v h. subst Q (sym (tell-refused c w e v h)) here)
        (λ a v h. rest a v (tell-stored c w a v h))

  assign_each-IsPart :
      (roles : List String) (user admin : Uuid) (base : List PolicyCall) (w : World)
      → w.policies ≡ base
      → IsPart roles user base (assign_each o roles user admin w).1.policies
  unfolding assign_each Authorization.assign_role
  assign_each-IsPart [] user admin base w e = (0, e)
  assign_each-IsPart (role ∷ roles) user admin base w e =
      let Q : List PolicyCall → Type 0 = IsPart (role ∷ roles) user base in
      Ends-mute Q (new_assignment o user role admin) _ w (Mute-new_assignment o user role admin)
        (0, e)
        (λ a w1 e1.
          Ends-mute Q (Roles.create o a) _ w1 (Mute-create o a) (0, e1 ∙ e)
            (λ _ w2 e2.
              Ends-tell Q (add_role_for_user (str user) role) _ w2 (0, e2 ∙ e1 ∙ e)
                (λ _ w3 e3.
                  let (n, part) =
                    assign_each-IsPart roles user admin (add_role_for_user (str user) role ∷ base)
                      w3 (e3 ∙ ap (λ ps. add_role_for_user (str user) role ∷ ps) (e2 ∙ e1 ∙ e)) in
                  Ends-continue Q (assign_each o roles user admin w3) _
                    (λ exc v h. (suc n, sym (ap (λ r. r.1.policies) h) ∙ part))
                    (λ made v h. (suc n, sym (ap (λ r. r.1.policies) h) ∙ part)))))

  replace_roles-IsStored :
      (user : Uuid) (roles : List String) (admin : Uuid) (request_id : Option String) (w : World)
      → IsStored roles user w.policies (replace_roles o user roles admin request_id w).1.policies
  unfolding replace_roles Authorization.remove_roles_for_user
  replace_roles-IsStored user roles admin request_id w =
      let Q : List PolicyCall → Type 0 = IsStored roles user w.policies in
      let c = delete_roles_for_user (str user) in
      Ends-mute Q (require_admin o admin) _ w (Mute-require_admin o admin) (inl refl) (λ _ w1 e1.
        Ends-mute Q (for_each roles (validate_role o)) _ w1 (Mute-validate_roles o roles) (inl e1)
          (λ _ w2 e2.
            Ends-mute Q (Roles.revoke_all_for_user o user) _ w2 (Mute-revoke_all o user)
              (inl (e2 ∙ e1))
              (λ _ w3 e3. Ends-tell Q c _ w3 (inl (e3 ∙ e2 ∙ e1)) (λ _ w4 e4.
                let part =
                  assign_each-IsPart roles user admin (c ∷ w.policies) w4
                    (e4 ∙ ap (λ ps. c ∷ ps) (e3 ∙ e2 ∙ e1)) in
                let stays : (v : World)
                    → v.policies ≡ (assign_each o roles user admin w4).1.policies
                    → Q v.policies =
                  λ v h. inr (part.0, h ∙ part.1) in
                Ends-continue Q (assign_each o roles user admin w4) _
                  (λ exc v h. stays v (sym (ap (λ r. r.1.policies) h)))
                  (λ made v h.
                    let here = sym (ap (λ r. r.1.policies) h) in
                    Ends-mute Q (audit_change o _ user admin _ request_id) _ v
                      (Mute-audit_change o _ user admin _ request_id) (stays v here)
                      (λ _ w5 e5.
                        Ends-mute Q (commit o) _ w5 (Mute-commit o) (stays w5 (e5 ∙ here))
                          (λ _ w6 e6.
                            Ends-mute Q (or_warn _) _ w6
                              (Mute-or_warn _ (user_roles-IsHarmless o user))
                              (stays w6 (e6 ∙ e5 ∙ here))
                              (λ _ w7 e7. stays w7 (e7 ∙ e6 ∙ e5 ∙ here)))))))))

  -- If `replace_roles` raises, even in the middle of its list, the committed tables of the session are
  -- unchanged, so that the old role assignments stay; but Casbin has stored either nothing, or the
  -- removal of all the user's roles and after it the first `n` of the new ones.
  pub replace_roles-leaves :
      (user : Uuid) (roles : List String) (admin : Uuid) (request_id : Option String) (w : World)
      (e : Error)
      → (replace_roles o user roles admin request_id w).0 ≡ err e
      → ((replace_roles o user roles admin request_id w).1.saved ≡ w.saved)
        × IsStored roles user w.policies (replace_roles o user roles admin request_id w).1.policies
  replace_roles-leaves user roles admin request_id w e h = (
    replace_roles-raises o user roles admin request_id w e h,
    replace_roles-IsStored user roles admin request_id w,
  )
