-- ===== src/Deferral/Queries.antt =====
-- listRecognitions() and findRecognitionByJournalEntryId().
use noryx_platform.Common.{ℕ, Bool, false, ◌&&◌, Option, none, some, List, ◌==◌}
use noryx_platform.Common.Rows.{find}
use noryx_platform.Database.{Caller, not_found, no_such_row, DeferralRecognition}
use noryx_platform.Database.Tx.{Tx, gets, or_throw, ◌>>=◌}
use noryx_platform.Journal.{in_scope}
use noryx_platform.Deferral.Schedules.{find_schedule_or_throw, recognitions_of}

abbrev pub posted_as : ℕ → Option ℕ → Bool
posted_as id none = false
posted_as id (some a) = a == id

module _ (c : Caller) where
  unfoldable pub list_recognitions : ℕ → Tx (List DeferralRecognition)
  unfolding find_schedule_or_throw recognitions_of
  list_recognitions schedule_id = do
    schedule ← find_schedule_or_throw c schedule_id
    gets λ db. recognitions_of schedule_id db.deferral_recognitions

  abbrev pub resulting_key : ℕ → DeferralRecognition → Bool
  resulting_key id r =
      posted_as id r.resulting_journal_entry_id && in_scope c r.tenant_id r.legal_entity_id

  unfoldable pub find_recognition_by_journal_entry_id : ℕ → Tx DeferralRecognition
  find_recognition_by_journal_entry_id id = do
    row ← gets λ db. find (resulting_key id) db.deferral_recognitions
    or_throw row (not_found no_such_row)
