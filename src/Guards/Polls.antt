-- ===== src/Guards/Polls.antt =====
-- The ingestion worker while the listings of its drop directory fail.
use document_classifier_week.Prelude.{
  ℕ, zero, suc, ◌≡◌, refl, ◌∙◌, ap, String, Bool, true, false, arith, inl, inr, Bool-cases,
  if◌then◌else◌,
}
use document_classifier_week.Models.{Uuid}
use document_classifier_week.Session.{Outside, Listing, World, ok, step, for_each}
use document_classifier_week.Session.Laws.{bind_ok}
use document_classifier_week.Sftp.{list_files, listed, when_connected}
use document_classifier_week.IngestionWorker.{Seen, attempt, detect_stable_files, poll, polls}

-- the server gives the entries of the directory
abbrev pub is_answered : Listing → Bool
is_answered (Listing.entries entries) = true
is_answered _ = false

module _ (o : Outside) (drop_dir : String) (model_metadata_id : Uuid) where
  -- the world after a round that failed: an adapter without a session does not ask the server
  abbrev after_failure : World → World
  after_failure w = if o.sftp_connected w.tick then step w else w

  after_failure-tables :
      (w : World) → ((after_failure w).db ≡ w.db) × ((after_failure w).saved ≡ w.saved)
  after_failure-tables w = elim (Bool-cases (o.sftp_connected w.tick)) [
    | inl c ↦ rw (c, if◌then◌else◌) (refl, refl)
    | inr c ↦ rw (c, if◌then◌else◌) (refl, refl)
  ]

  poll-asked :
      (seen : Seen) (w : World) (answer : Listing)
      → o.sftp_connected w.tick ≡ true
      → o.listdir_attr w.tick drop_dir ≡ answer
      → is_answered answer ≡ false
      → poll o drop_dir model_metadata_id seen w ≡ (ok seen, step w)
  unfolding poll detect_stable_files attempt list_files when_connected listed for_each
  poll-asked seen w (Listing.entries entries) c e h = grind arith
  poll-asked seen w Listing.permission_error c e h = rw (c, if◌then◌else◌, e) refl
  poll-asked seen w Listing.file_not_found c e h = rw (c, if◌then◌else◌, e) refl
  poll-asked seen w Listing.os_error c e h = rw (c, if◌then◌else◌, e) refl
  poll-asked seen w Listing.other_error c e h = rw (c, if◌then◌else◌, e) refl

  poll-failed :
      (seen : Seen) (w : World)
      → is_answered (o.listdir_attr w.tick drop_dir) ≡ false
      → poll o drop_dir model_metadata_id seen w ≡ (ok seen, after_failure w)
  unfolding poll detect_stable_files attempt list_files when_connected listed for_each
  poll-failed seen w h = elim (Bool-cases (o.sftp_connected w.tick)) [
    | inr c ↦ rw (c, if◌then◌else◌) refl
    | inl c ↦
        poll-asked seen w (o.listdir_attr w.tick drop_dir) c refl h ∙ rw (c, if◌then◌else◌) refl
  ]

  -- If no listing of the drop directory is answered, whether the server refuses it, or the
  -- connection is lost and paramiko raises an exception of its own, then any number
  -- of rounds of the inner loop return: none raises an exception that would leave the loop for a new
  -- connection, and they change neither the tracking nor the tables.
  pub polls-unanswered :
      (n : ℕ) (seen : Seen) (w : World)
      → ((t : ℕ) → is_answered (o.listdir_attr t drop_dir) ≡ false)
      → ((polls o n drop_dir model_metadata_id seen w).0 ≡ ok seen)
        × ((polls o n drop_dir model_metadata_id seen w).1.db ≡ w.db)
        × ((polls o n drop_dir model_metadata_id seen w).1.saved ≡ w.saved)
  unfolding polls
  polls-unanswered zero seen w silent = (refl, refl, refl)
  polls-unanswered (suc n) seen w silent =
      let round = poll-failed seen w (silent w.tick) in
      let (returned, seen_tables, committed) = polls-unanswered n seen (after_failure w) silent in
      let (same_tables, same_commits) = after_failure-tables w in
      let next =
        bind_ok (poll o drop_dir model_metadata_id seen) (polls o n drop_dir model_metadata_id)
          round in
      (
        ap (λ r. r.0) next ∙ returned,
        ap (λ r. r.1.db) next ∙ seen_tables ∙ same_tables,
        ap (λ r. r.1.saved) next ∙ committed ∙ same_commits,
      )
