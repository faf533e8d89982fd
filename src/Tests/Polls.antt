-- ===== src/Tests/Polls.antt =====
-- Three rounds of the ingestion worker without a connection.
use document_classifier_week.Prelude.{◌≡◌, refl, []}
use document_classifier_week.Models.{JobStatus}
use document_classifier_week.Session.{Outside, World, ok}
use document_classifier_week.IngestionWorker.{polls}
use document_classifier_week.Guards.Polls.{polls-unanswered}
use document_classifier_week.Tests.Samples.{outside, world}

abbrev cut_off : Outside
cut_off = outside "admin" 100

abbrev idle : World
idle = world JobStatus.queued

polls-unanswered_example :
    ((polls cut_off 3 "drop" 1 [] idle).0 ≡ ok [])
    × ((polls cut_off 3 "drop" 1 [] idle).1.db ≡ idle.db)
    × ((polls cut_off 3 "drop" 1 [] idle).1.saved ≡ idle.saved)
polls-unanswered_example = polls-unanswered cut_off "drop" 1 3 [] idle (λ t. refl)
