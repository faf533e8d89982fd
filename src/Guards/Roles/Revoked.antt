-- ===== src/Guards/Roles/Revoked.antt =====
-- The row that `revoke_role` has found, in whatever order the query gave it, and the tables without it.
use document_classifier_week.Prelude.{
  ℕ, ◌+◌, ◌-◌, ◌≤◌, ◌≡◌, refl, sym, ◌∙◌, ap, subst, String, Bool, true, false, ◌&&◌, Option, none,
  some, List, [], ◌∷◌, ◌==◌, nat_eq, string_eq, inl, inr, both, Bool-cases, arith, length, select,
  rewrite, All, IsReordering, All-reordered, select-and, length-select-select, length-rewrite,
  if◌then◌else◌,
}
use document_classifier_week.Models.{Uuid, Time, RoleAssignment, is_active_of, as_revoked}
use document_classifier_week.Session.Ensures.{to_list}
use document_classifier_week.Repositories.Roles.{is_active_role}
use document_classifier_week.RoleManagement.{first_with_role}
use document_classifier_week.Guards.Roles.Parts.{active}
use document_classifier_week.Guards.Roles.Effects.{RoleOp, times, effect, times-active}

some-equal : {x y : RoleAssignment} → Path (Option RoleAssignment) (some x) (some y) → x ≡ y
some-equal h = grind arith

first-here :
    (role : String) (x : RoleAssignment) (xs : List RoleAssignment)
    → (x.role == role) ≡ true
    → first_with_role role (x ∷ xs) ≡ some x
first-here role x xs e = rw (e, if◌then◌else◌) refl

first-skip :
    (role : String) (x : RoleAssignment) (xs : List RoleAssignment)
    → (x.role == role) ≡ false
    → first_with_role role (x ∷ xs) ≡ first_with_role role xs
first-skip role x xs e = rw (e, if◌then◌else◌) refl

-- What holds of every row holds of the first with the role, which has it.
first-meets :
    (role : String) (t : RoleAssignment) (q : RoleAssignment → Bool) (xs : List RoleAssignment)
    → first_with_role role xs ≡ some t
    → All (λ x. q x ≡ true) xs
    → (q t ≡ true) × ((t.role == role) ≡ true)
first-meets role t q [] h all = grind arith
first-meets role t q (x ∷ xs) h (here, rest) = elim (Bool-cases (x.role == role)) [
  | inl e ↦
      let same = some-equal (sym (first-here role x xs e) ∙ h) in
      (subst (λ y. q y ≡ true) same here, subst (λ y. (y.role == role) ≡ true) same e)
  | inr e ↦ first-meets role t q xs (sym (first-skip role x xs e) ∙ h) rest
]

-- A query that the first row with the role meets finds a row.
first-present :
    (role : String) (t : RoleAssignment) (q : RoleAssignment → Bool) (xs : List RoleAssignment)
    → first_with_role role xs ≡ some t
    → q t ≡ true
    → 1 ≤ length (select q xs)
first-present role t q [] h found = grind arith
first-present role t q (x ∷ xs) h found = elim (Bool-cases (q x)) [
  | inl g ↦ rw (g, if◌then◌else◌) (omega arith)
  | inr g ↦ elim (Bool-cases (x.role == role)) [
    | inr e ↦
        rw (g, if◌then◌else◌) (first-present role t q xs (sym (first-skip role x xs e) ∙ h) found)
    | inl e ↦ absurd (
        not-both g
          (subst (λ y. q y ≡ true) (sym (some-equal (sym (first-here role x xs e) ∙ h))) found))
  ]
]
  where
    not-both : {b : Bool} → b ≡ false → ¬ (b ≡ true)
    not-both h h' = grind arith

module _ (user : Uuid) (role : String) (t : RoleAssignment) where
  -- the row that is found
  abbrev pub is_target : RoleAssignment → Bool
  is_target x = x.id == t.id

  -- the first with the role among the rows in the order of the query
  abbrev pub Finds : (List RoleAssignment → List RoleAssignment) → List RoleAssignment → Type 0
  Finds order xs = first_with_role role (order (select (is_active_of user) xs)) ≡ some t

  -- the conditions of `Finds`, in one
  found_active :
      is_active_of user t ≡ true → (t.role == role) ≡ true → is_active_role user role t ≡ true
  found_active a r = ground arith

  -- The row with the identifier of the row that was found is an active grant of the role.
  pub target-active :
      (order : List RoleAssignment → List RoleAssignment) (xs : List RoleAssignment)
      (r : Option RoleAssignment)
      → IsReordering order
      → Finds order xs
      → select is_target xs ≡ to_list r
      → (s : RoleAssignment) × (r ≡ some s) × (is_active_role user role s ≡ true)
  target-active order xs r reorders h found =
      let (a, n) =
        first-meets role t (is_active_of user) _ h
          (All-reordered order (is_active_of user) xs reorders) in
      let q : RoleAssignment → Bool = λ x. is_target x && is_active_role user role x in
      let own : q t ≡ true = own_query (found_active a n) in
      let here =
        subst (λ k. 1 ≤ k) (reorders q (select (is_active_of user) xs))
          (first-present role t q _ h own) in
      let below = length-select-select (is_active_of user) q xs in
      one r (
        subst (λ ys. 1 ≤ length (select (is_active_role user role) ys)) found
          (subst (λ ys. 1 ≤ length ys) (select-and is_target (is_active_role user role) xs)
            (omega arith)))
    where
      own_query :
          is_active_role user role t ≡ true → (is_target t && is_active_role user role t) ≡ true
      own_query e = rw ((nat_eq.test_iff t.id t.id).1 refl, e) refl

      one :
          (r : Option RoleAssignment)
          → 1 ≤ length (select (is_active_role user role) (to_list r))
          → (s : RoleAssignment) × (r ≡ some s) × (is_active_role user role s ≡ true)
      one none h = grind arith
      one (some s) h = (
        s,
        refl,
        elim (Bool-cases (is_active_role user role s)) [
          | inl e ↦ e
          | inr e ↦ absurd (none_left e h)
        ],
      )
        where
          none_left :
              is_active_role user role s ≡ false
              → ¬ (1 ≤ length (if is_active_role user role s then s ∷ [] else []))
          none_left e = rw (e, if◌then◌else◌) (λ h. omega arith)

revoked-not_active :
    (τ : Time) (other : Uuid) (name : String) (x : RoleAssignment)
    → is_active_role other name (as_revoked τ x) ≡ false
revoked-not_active τ other name x = ground arith

same_user_role :
    (user other : Uuid) (role name : String) (r : RoleAssignment)
    → is_active_role user role r ≡ true
    → is_active_role other name r ≡ (user == other && role == name)
same_user_role user other role name r h =
    let (u, rest) = both (r.user_id == user) _ h in
    let (g, a) = both (r.role == role) _ rest in
    rw ((nat_eq.test_iff r.user_id user).0 u, (string_eq.test_iff r.role role).0 g, a)
      (last (user == other) (role == name))
  where
    last : (a b : Bool) → (a && (b && true)) ≡ (a && b)
    last a b = ground arith

counted-one : (n m : ℕ) (b : Bool) → n + (if b then 1 else 0) ≡ m → n ≡ (if b then m - 1 else m)
counted-one n m true h = omega arith
counted-one n m false h = omega arith

-- The revocation of a row that alone has its identifier takes one grant of its role from its user.
pub revoked-times :
    (user : Uuid) (role : String) (r : RoleAssignment) (τ : Time) (other : Uuid) (name : String)
    (xs : List RoleAssignment)
    → select (λ x. x.id == r.id) xs ≡ r ∷ []
    → is_active_role user role r ≡ true
    → times name (active other (rewrite (λ x. x.id == r.id) (as_revoked τ) xs))
      ≡ effect (RoleOp.revoke user role) other name (times name (active other xs))
revoked-times user role r τ other name xs only act =
    let is_it : RoleAssignment → Bool = λ x. x.id == r.id in
    let q = is_active_role other name in
    let taken =
      ap length (select-and is_it q xs ∙ ap (select q) only)
      ∙ alone (q r) r
      ∙ ap (λ b. if b then 1 else 0) (same_user_role user other role name r act) in
    let balance = length-rewrite is_it q (as_revoked τ) (revoked-not_active τ other name) xs in
    times-active other name (rewrite is_it (as_revoked τ) xs)
    ∙ counted-one _ _ (user == other && role == name)
        (sym (ap (λ k. length (select q (rewrite is_it (as_revoked τ) xs)) + k) taken) ∙ balance)
    ∙ ap (λ n. effect (RoleOp.revoke user role) other name n) (sym (times-active other name xs))
  where
    alone :
        (b : Bool) (r : RoleAssignment)
        → Path ℕ (length (if b then r ∷ [] else [])) (if b then 1 else 0)
    alone true r = refl
    alone false r = refl
