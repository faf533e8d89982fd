-- ===== src/Guards/Routes/Statuses.antt =====
-- The exceptions of the services that the routes turn into status codes.
use document_classifier_week.Prelude.{
  ℕ, ◌≡◌, refl, ◌∙◌, ap, String, Bool, true, false, none, List, map, if◌then◌else◌,
}
use document_classifier_week.Models.{Uuid, RoleAssignment}
use document_classifier_week.Session.{
  Outside, Error, permission_denied, http_exception, value_error, World, M, ok, err, raise, catch,
  pure, ◌>>=◌, user_invitation_already_exists, prediction_not_found, invalid_review_label,
  review_not_eligible,
}
use document_classifier_week.Session.Laws.{bind_ok, bind_err, catch_err}
use document_classifier_week.PredictionReview.{relabel}
use document_classifier_week.RoleManagement.{replace_roles}
use document_classifier_week.UserManagement
use document_classifier_week.Api.Dependencies.{require_permission}
use document_classifier_week.Api.Predictions.{
  ReviewPredictionRequest, review_prediction, review_as, require_label, review_error,
}
use document_classifier_week.Api.Users.{
  invite_user, replace_user_roles, update_user_role, roles_error, invite_error,
}
use document_classifier_week.Api.Routes.{Route, handle}
use document_classifier_week.Guards.Routes.Reviews.{Gives}

-- the routes that call a service in a `try`, with the label that the service gets
pub data Call : Type 0 where
  review : Uuid → ReviewPredictionRequest → String → Call
  replace update : Uuid → List String → Call
  invite : String → Call

abbrev pub route : Call → Route
route (Call.review id request l) = Route.review_prediction id request
route (Call.replace id roles) = Route.replace_user_roles id roles
route (Call.update id roles) = Route.update_user_role id roles
route (Call.invite email) = Route.invite_user email

-- the permission that the route asks for
abbrev pub permission : Call → String × String
permission (Call.review id request l) = ("predictions", "relabel")
permission (Call.replace id roles) = ("roles", "manage")
permission (Call.update id roles) = ("roles", "manage")
permission (Call.invite email) = ("users", "manage")

abbrev pub IsComplete : Call → Type 0
IsComplete (Call.review id request l) = Gives request l
IsComplete _ = Unit

-- the service raises
abbrev pub Raises : Outside → Uuid → Call → World → Error → World → Type 0
Raises o user (Call.review id request l) w e v = relabel o id l user none none w ≡ (err e, v)
Raises o user (Call.replace id roles) w e v = replace_roles o id roles user none w ≡ (err e, v)
Raises o user (Call.update id roles) w e v = replace_roles o id roles user none w ≡ (err e, v)
Raises o user (Call.invite email) w e v =
    UserManagement.invite_user o email user none w ≡ (err e, v)

-- the exceptions that the route catches
abbrev pub catches : Call → Error → Bool
catches (Call.review id request l) prediction_not_found = true
catches (Call.review id request l) invalid_review_label = true
catches (Call.review id request l) review_not_eligible = true
catches (Call.review id request l) permission_denied = true
catches (Call.replace id roles) permission_denied = true
catches (Call.replace id roles) value_error = true
catches (Call.update id roles) permission_denied = true
catches (Call.update id roles) value_error = true
catches (Call.invite email) user_invitation_already_exists = true
catches c e = false

-- one status for each exception, whichever route it is in; 500 for any other
abbrev pub status : Error → ℕ
status permission_denied = 403
status prediction_not_found = 404
status invalid_review_label = 422
status review_not_eligible = 409
status user_invitation_already_exists = 409
status value_error = 400
status e = 500

-- what leaves the route
abbrev pub answered : Call → Error → Error
answered c e = if catches c e then http_exception (status e) else e

review_error-answered :
    (id : Uuid) (request : ReviewPredictionRequest) (l : String) (e : Error)
    → review_error e ≡ answered (Call.review id request l) e
review_error-answered id request l prediction_not_found = refl
review_error-answered id request l invalid_review_label = refl
review_error-answered id request l review_not_eligible = refl
review_error-answered id request l permission_denied = refl
review_error-answered id request l e = refl

replace-answered :
    (id : Uuid) (roles : List String) (e : Error)
    → roles_error e ≡ answered (Call.replace id roles) e
replace-answered id roles permission_denied = refl
replace-answered id roles value_error = refl
replace-answered id roles e = refl

update-answered :
    (id : Uuid) (roles : List String) (e : Error)
    → roles_error e ≡ answered (Call.update id roles) e
update-answered id roles permission_denied = refl
update-answered id roles value_error = refl
update-answered id roles e = refl

invite-answered : (email : String) (e : Error) → invite_error e ≡ answered (Call.invite email) e
invite-answered email user_invitation_already_exists = refl
invite-answered email e = refl

-- `try: m except … raise f(exc)`, where `m` raises
translated :
    {A : Type 0} (m : M A) (f : Error → Error) (e e' : Error) (w v : World)
    → m w ≡ (err e, v)
    → f e ≡ e'
    → catch m (λ x. raise (f x)) w ≡ (err e', v)
translated m f e e' w v h same = catch_err m (λ x. raise (f x)) h ∙ ap (λ x. (err x, v)) same

module _ (o : Outside) (user : Uuid) where
  review_prediction-raises :
      (id : Uuid) (request : ReviewPredictionRequest) (l : String) (w w' : World) (e : Error)
      (v : World)
      → Gives request l
      → require_permission o user "predictions" "relabel" w ≡ (ok user, w')
      → relabel o id l user none none w' ≡ (err e, v)
      → review_prediction o user id request w ≡ (err (answered (Call.review id request l) e), v)
  unfolding review_prediction review_as require_label
  review_prediction-raises id request l w w' e v (given, one) allowed raised =
      bind_ok (require_permission o user "predictions" "relabel") _ allowed
      ∙ rw (one, given)
          (translated (relabel o id l user none none) review_error e _ w' v raised
            (review_error-answered id request l e))

  -- the answer of both routes that replace roles
  abbrev replaced_roles : Uuid → List RoleAssignment → M (Uuid × List String)
  replaced_roles id made = pure (id, map (λ a. a.role) made)

  replacement-raises :
      (id : Uuid) (roles : List String) (w : World) (e e' : Error) (v : World)
      → replace_roles o id roles user none w ≡ (err e, v)
      → roles_error e ≡ e'
      → (catch (replace_roles o id roles user none) (λ x. raise (roles_error x))
            >>= replaced_roles id)
          w
        ≡ (err e', v)
  replacement-raises id roles w e e' v raised same =
      bind_err (catch (replace_roles o id roles user none) (λ x. raise (roles_error x)))
        (replaced_roles id) {w = w}
        (translated (replace_roles o id roles user none) roles_error e e' w v raised same)

  -- If the user has the permission that the route asks for, the request is complete, and the service
  -- raises, then the route `review_prediction`, `replace_user_roles`, `update_user_role` or
  -- `invite_user` raises in its place: `HTTPException` with the status of the exception (403 for
  -- `PermissionDenied`, 404 for `PredictionNotFound`, 422 for `InvalidReviewLabel`, 409 for
  -- `ReviewNotEligible` and `UserInvitationAlreadyExists`, 400 for `ValueError`) if the route has an
  -- `except` clause for it, and the exception itself otherwise.
  pub handle-answers :
      (c : Call) (w w' : World) (e : Error) (v : World)
      → IsComplete c
      → require_permission o user (permission c).0 (permission c).1 w ≡ (ok user, w')
      → Raises o user c w' e v
      → handle o user (route c) w ≡ (err (answered c e), v)
  unfolding handle replace_user_roles update_user_role invite_user
  handle-answers (Call.review id request l) w w' e v given allowed raised =
      bind_err (review_prediction o user id request) _
        (review_prediction-raises id request l w w' e v given allowed raised)
  handle-answers (Call.replace id roles) w w' e v given allowed raised =
      bind_err (replace_user_roles o user id roles) _ (
        bind_ok (require_permission o user "roles" "manage") _ allowed
        ∙ replacement-raises id roles w' e _ v raised (replace-answered id roles e))
  handle-answers (Call.update id roles) w w' e v given allowed raised =
      bind_err (update_user_role o user id roles) _ (
        bind_ok (require_permission o user "roles" "manage") _ allowed
        ∙ replacement-raises id roles w' e _ v raised (update-answered id roles e))
  handle-answers (Call.invite email) w w' e v given allowed raised =
      bind_err (invite_user o user email) _ (
        bind_ok (require_permission o user "users" "manage") _ allowed
        ∙ translated (UserManagement.invite_user o email user none) invite_error e _ w' v raised
            (invite-answered email e))
