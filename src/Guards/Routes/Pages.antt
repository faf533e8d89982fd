-- ===== src/Guards/Routes/Pages.antt =====
-- The pages that the API answers with.
use document_classifier_week.Prelude.{
  length-map, both, ℕ, ◌≤◌, ◌≡◌, sym, ◌∙◌, ap, subst, String, true, false, ◌||◌, Option, none, some,
  List, [], ◌∷◌, map, Eq, nat_eq, string_eq, ltb, arith, length, select, take, drop, All,
  IsReordering, length-take_le, All-take, All-drop, All-reordered,
}
use document_classifier_week.Models.{Uuid, Db, AuditEvent}
use document_classifier_week.Session.{Outside, World, ok}
use document_classifier_week.Session.Ensures.{
  Ensures, Ensures-pure, Ensures-bind, Ensures-guard, Ensures-rows_at,
}
use document_classifier_week.Repositories.AuditEvents
use document_classifier_week.Repositories.AuditEvents.{is_given, is_selected}
use document_classifier_week.Audit.{AuditEventRead, to_read_model, list_events}
use document_classifier_week.Api.AuditEvents.{list_audit_events}
use document_classifier_week.Guards.Routes.Reviews.{Ensures-permission}

-- A filter that is given is met.
abbrev pub Meets : {A : Type 0} → Option A → Option A → Type 0
Meets {A = A} filter column = (a : A) → filter ≡ some a → column ≡ some a

is_given-Meets :
    {A : Type 0} ⦃e : Eq A⦄ (filter column : Option A)
    → is_given filter column ≡ true
    → Meets filter column
is_given-Meets none column h a eq = grind arith
is_given-Meets (some b) none h a eq = grind arith
is_given-Meets ⦃e⦄ (some b) (some c) h a eq = sym (ap some ((e.test_iff b c).0 h)) ∙ eq

-- what the filters of the route ask of an event
abbrev pub IsSelected :
    Option Uuid → Option String → Option String → Option String → AuditEventRead → Type 0
IsSelected actor action type id read =
    Meets actor read.actor_id
    × Meets action (some read.action)
    × Meets type read.target_type
    × Meets id read.target_id

is_selected-IsSelected :
    (actor : Option Uuid) (action type id : Option String) (e : AuditEvent)
    → is_selected actor action type id e ≡ true
    → IsSelected actor action type id (to_read_model e)
is_selected-IsSelected actor action type id e h =
    let (a, rest) = both (is_given actor e.actor_user_id) _ h in
    let (b, rest') = both (is_given action (some e.action)) _ rest in
    let (c, d) = both (is_given type e.target_type) (is_given id e.target_id) rest' in
    (
      is_given-Meets actor _ a,
      is_given-Meets action _ b,
      is_given-Meets type _ c,
      is_given-Meets id _ d,
    )

All-read :
    (actor : Option Uuid) (action type id : Option String) (events : List AuditEvent)
    → All (λ e. is_selected actor action type id e ≡ true) events
    → All (IsSelected actor action type id) (map to_read_model events)
All-read actor action type id [] h = tt
All-read actor action type id (e ∷ events) (h, hs) =
    (is_selected-IsSelected actor action type id e h, All-read actor action type id events hs)

pub limit_bounds : (n : ℕ) → (ltb n 1 || ltb 100 n) ≡ false → (1 ≤ n) × (n ≤ 100)
limit_bounds n h = (ground arith, ground arith)

module _ (o : Outside) where
  -- the rows of a page of the audit log
  abbrev page :
      ℕ → Option Uuid → Option String → Option String → Option String → ℕ → ℕ → Db → List AuditEvent
  page t actor action type id limit offset db = take limit (
      drop offset
        (o.newest_audit_events t (select (is_selected actor action type id) db.audit_events)))

  Ensures-list_events :
      (actor : Option Uuid) (action type id : Option String) (limit offset : ℕ) (w : World)
      → Ensures w (list_events o actor action type id limit offset) (λ reads v.
        reads ≡ map to_read_model (page w.tick actor action type id limit offset w.db))
  unfolding list_events AuditEvents.list
  Ensures-list_events actor action type id limit offset w =
      Ensures-bind (Ensures-rows_at o (λ t. page t actor action type id limit offset) w)
        (λ events u (read, stepped). Ensures-pure _ u (ap (map to_read_model) read))

  Ensures-list_audit_events :
      (user : Uuid) (actor : Option Uuid) (action type id : Option String) (limit offset : ℕ)
      (w : World)
      → ((t : ℕ) → IsReordering (o.newest_audit_events t))
      → Ensures w (list_audit_events o user actor action type id limit offset) (λ reads v.
        (1 ≤ limit)
        × (limit ≤ 100)
        × (length reads ≤ limit)
        × All (IsSelected actor action type id) reads)
  unfolding list_audit_events
  Ensures-list_audit_events user actor action type id limit offset w reorders =
      Ensures-bind (Ensures-permission o user "audit_logs" "read" w) (λ _ w1 allowed.
        Ensures-guard (ltb limit 1 || ltb 100 limit) _ _ (λ bounds. record {
          at = λ reads v h.
              let e = (Ensures-list_events actor action type id limit offset w1).at reads v h in
              let (low, high) = limit_bounds limit bounds in
              let rows = page w1.tick actor action type id limit offset w1.db in
              (
                low,
                high,
                subst (λ n. n ≤ limit) (sym (ap length e ∙ length-map to_read_model rows))
                    (length-take_le limit _),
                subst (All (IsSelected actor action type id)) (sym e) (
                    All-read actor action type id rows (
                      All-take _ limit _ (
                        All-drop _ offset _ (
                          All-reordered (o.newest_audit_events w1.tick) _ w1.db.audit_events
                            (reorders w1.tick))))),
              );
        }))

  -- If `ORDER BY` only reorders the rows of the audit log, in any way each time, and `list_audit_events` answers, then the limit
  -- is between 1 and 100, the page has at most that many events, and each of them meets every filter
  -- that the request gives.
  pub list_audit_events-bounded :
      (user : Uuid) (actor : Option Uuid) (action type id : Option String) (limit offset : ℕ)
      (w : World) (reads : List AuditEventRead) (v : World)
      → ((t : ℕ) → IsReordering (o.newest_audit_events t))
      → list_audit_events o user actor action type id limit offset w ≡ (ok reads, v)
      → (1 ≤ limit)
        × (limit ≤ 100)
        × (length reads ≤ limit)
        × All (IsSelected actor action type id) reads
  list_audit_events-bounded user actor action type id limit offset w reads v reorders h =
      (Ensures-list_audit_events user actor action type id limit offset w reorders).at reads v h
