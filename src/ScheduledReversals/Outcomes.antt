-- ===== src/ScheduledReversals/Outcomes.antt =====
-- What a claim of a waiting reversal does: it reverses the original, or gives way to a reversal
-- that came first.
use noryx_platform.Common.{ℕ, ◌≡◌, refl, sym, ap, ◌∙◌, none, some, map, arith, true}
use mathlib.Core.Path.{subst}
use noryx_platform.Common.Rows.{find, find-update_where, find_holds}
use noryx_platform.Database.{
  Db, Caller, Platform, posted, open_period, conflict, already_reversed, AccountingPeriod,
  JournalEntry, EntryWithLines, ScheduledReversal, ScheduledReversalStatus,
}
use noryx_platform.Database.Tx.{
  Result, err, Answers, Answers-bind, Ensures, Ensures-map, Ensures-bind, Ensures-both, Achieves,
  Returns-Achieves, Answers-Returns,
}
use noryx_platform.Journal.{
  ReverseJournalEntryDto, entry_key, covers, journal_number_text, mark_posted, new_entry,
  number_lines, reversal_line, complete_reversal_posting, reverse_in_tx, lines_accepted,
}
use noryx_platform.Books.Shape.{SameReference, drawn, lines_at}
use noryx_platform.Books.Entries.{next_entry_id}
use noryx_platform.Books.Success.{complete_succeeds}
use noryx_platform.Books.Outcomes.{IsReversal, complete-IsReversal, keep-IsReversal}
use noryx_platform.Books.Linked.{complete-Reverses, reverse_in_tx-Reverses}
use noryx_platform.Books.Netting.{NetsToZero, complete-NetsToZero}
use noryx_platform.Books.Final.{reversed_refused}
use noryx_platform.Books.Tables.{id-find}
use noryx_platform.ScheduledReversals.{
  reversal_key, ClaimOutcome, reversal_memo, mark_executed, record_execution, execute_claimed,
  transition_to_cancelled, already_reversed_text, claim_and_execute_one, update_reversal,
}

module _ (p : Platform) (c : Caller) where
  pub record Records (claimed : ScheduledReversal) (w : EntryWithLines) (db db' : Db)
      (o : ClaimOutcome) : Type 0 where
    pub outcome : o ≡ ClaimOutcome.executed
    pub row :
        find (reversal_key c claimed.id) db.scheduled_reversals ≡ some claimed
        → find (reversal_key c claimed.id) db'.scheduled_reversals
          ≡ some (mark_executed p c w.entry.id claimed)
    pub entries : db'.journal_entries ≡ db.journal_entries
    pub lines : db'.journal_lines ≡ db.journal_lines

  record_shape :
      (claimed : ScheduledReversal) (w : EntryWithLines) (db : Db)
      → Ensures (λ o db'. Records claimed w db db' o) (record_execution p c claimed w db)
  unfolding record_execution update_reversal mark_executed
  record_shape claimed w db = record {
    outcome = refl;
    row = λ there.
        find-update_where (reversal_key c claimed.id) (mark_executed p c w.entry.id)
          db.scheduled_reversals claimed (λ r. refl) there;
    entries = refl;
    lines = refl;
  }

  -- What an execution leaves: the reversal in the journal, the stored row, and the refusal of a
  -- manual reversal after it.
  pub record Executes (claimed : ScheduledReversal) (original : EntryWithLines) (period : ℕ)
      (p' : Platform) (dto' : ReverseJournalEntryDto) (db db' : Db) (o : ClaimOutcome)
      : Type 0 where
    pub outcome : o ≡ ClaimOutcome.executed
    pub reversal : EntryWithLines
    pub posting : IsReversal p c original claimed.target_date period db db' reversal
    pub nets : NetsToZero original.lines reversal.lines
    pub row : ScheduledReversal
    pub found : find (reversal_key c claimed.id) db'.scheduled_reversals ≡ some row
    pub status : row.status ≡ ScheduledReversalStatus.executed
    pub resulting : row.resulting_reversal_journal_entry_id ≡ some reversal.entry.id
    pub at : row.executed_at ≡ some p.now
    pub same_original : row.original_journal_entry_id ≡ claimed.original_journal_entry_id
    pub final : reverse_in_tx p' c original.entry.id dto' db' ≡ err (conflict already_reversed)

  -- An entry with its lines as they are stored.
  abbrev pub stored_entry : JournalEntry → Db → EntryWithLines
  stored_entry e db = record { entry = e; lines = lines_at e.id db.journal_lines }

  -- If its id finds the claimed row, and the original is in the caller's scope and posted, an
  -- execution that returns answers "executed". It has stored a posted reversal of the target date,
  -- original and reversal name each other, and the lines that it has added are the original's
  -- stored lines with debit and credit exchanged, which net to zero with them. The stored row is
  -- executed and names the reversal, and a manual reversal of the original is then refused as
  -- already reversed.
  pub execution_reverses :
      (claimed : ScheduledReversal) (e : JournalEntry) (period : AccountingPeriod) (db : Db)
      (p' : Platform) (dto' : ReverseJournalEntryDto)
      → find (reversal_key c claimed.id) db.scheduled_reversals ≡ some claimed
      → find (entry_key c e.id) db.journal_entries ≡ some e
      → e.status ≡ posted
      → Ensures
          (λ o db'. Executes claimed (stored_entry e db) period.id p' dto' db db' o)
          (execute_claimed p c claimed (stored_entry e db) period db)
  unfolding execute_claimed mark_executed
  execution_reverses claimed e period db p' dto' there found st =
      let original = stored_entry e db in
      let memo = reversal_memo original in
      Ensures-bind
        (λ w db1.
          (IsReversal p c original claimed.target_date period.id db db1 w × SameReference db db1)
          × NetsToZero original.lines w.lines)
        _ (complete_reversal_posting p c original period claimed.target_date memo)
        (record_execution p c claimed) db
        (Ensures-both _ _ _
          (Ensures-both _ _ _
            (complete-IsReversal p c db original period claimed.target_date memo found)
            (Ensures-map _ (λ w db1. SameReference db db1) _ (λ w db1 s. s.1)
              (complete-Reverses p c db original period claimed.target_date memo found)))
          (complete-NetsToZero p c db original period claimed.target_date memo))
        λ w db1 s.
          Ensures-map (λ o db'. Records claimed w db1 db' o)
            (λ o db'. Executes claimed original period.id p' dto' db db' o)
            (record_execution p c claimed w db1)
            (λ o db' m.
              let posting =
                keep-IsReversal p c original claimed.target_date period.id db db1 db' w m.entries
                  m.lines s.0.0 in
              record {
                outcome = m.outcome;
                reversal = w;
                posting = posting;
                nets = s.1;
                row = mark_executed p c w.entry.id claimed;
                found =
                    m.row (ap (find (reversal_key c claimed.id)) s.0.1.scheduled_reversals ∙ there);
                status = refl;
                resulting = refl;
                at = refl;
                same_original = refl;
                final =
                    reversed_refused p' c e.id dto' db' _ w.entry.id posting.reverses.linked st
                      refl;
              })
            (record_shape claimed w db1)

  record-Answers :
      (claimed : ScheduledReversal) (w : EntryWithLines) (db : Db)
      → Answers ClaimOutcome.executed (record_execution p c claimed w db)
  unfolding record_execution
  record-Answers claimed w db = ground arith

  execute-Answers :
      (claimed : ScheduledReversal) (original : EntryWithLines) (period : AccountingPeriod)
      (db : Db)
      → find (entry_key c original.entry.id) db.journal_entries ≡ some original.entry
      → lines_accepted db.chart_of_accounts db.tax_codes (map reversal_line original.lines) ≡ true
      → Answers ClaimOutcome.executed (execute_claimed p c claimed original period db)
  unfolding execute_claimed
  execute-Answers claimed original period db found accepted =
      let date = claimed.target_date in
      let memo = reversal_memo original in
      let w : EntryWithLines = record {
        entry = mark_posted p c (journal_number_text (drawn c db).0) period.id (
            new_entry p c (next_entry_id p db) date original.entry.currency_code (some memo)
              (some original.entry.id));
        lines = number_lines c (next_entry_id p db) 0 (map reversal_line original.lines);
      } in
      Answers-bind w ClaimOutcome.executed (complete_reversal_posting p c original period date memo)
        (record_execution p c claimed) db
        (complete_succeeds p c original period date memo db found accepted)
        (λ db'. record-Answers claimed w db')

  -- The guards of a claim let a waiting row with an open period and an original that may be
  -- reversed through to the execution.
  claim-execute :
      (id : ℕ) (claimed : ScheduledReversal) (e : JournalEntry) (period : AccountingPeriod)
      (db : Db)
      → find (reversal_key c id) db.scheduled_reversals ≡ some claimed
      → claimed.status ≡ ScheduledReversalStatus.scheduled
      → find (entry_key c claimed.original_journal_entry_id) db.journal_entries ≡ some e
      → e.status ≡ posted
      → e.reversed_by_journal_entry_id ≡ none
      → e.reversal_of_journal_entry_id ≡ none
      → find (covers c claimed.target_date) db.accounting_periods ≡ some period
      → period.status ≡ open_period
      → claim_and_execute_one p c id db
        ≡ execute_claimed p c claimed
            (record {
              entry = e;
              lines = lines_at claimed.original_journal_entry_id db.journal_lines;
            })
            period
            db
  unfolding claim_and_execute_one
  claim-execute id claimed e period db there waits found st free new cover open_ = ground arith

  -- When its id finds a waiting reversal, its original is in the caller's scope, posted, neither
  -- reversed nor itself a reversal, the constraints of the table of lines accept its lines with
  -- debit and credit exchanged, and an open period covers the target date, a claim returns
  -- "executed". It has stored a posted reversal of the target date that names the original, which
  -- names it, and has added the original's lines with debit and credit exchanged; the stored row
  -- is executed and names the reversal; and a manual reversal is then refused.
  pub claim_reverses :
      (id : ℕ) (claimed : ScheduledReversal) (e : JournalEntry) (period : AccountingPeriod)
      (db : Db) (p' : Platform) (dto' : ReverseJournalEntryDto)
      → find (reversal_key c id) db.scheduled_reversals ≡ some claimed
      → claimed.status ≡ ScheduledReversalStatus.scheduled
      → find (entry_key c claimed.original_journal_entry_id) db.journal_entries ≡ some e
      → e.status ≡ posted
      → e.reversed_by_journal_entry_id ≡ none
      → e.reversal_of_journal_entry_id ≡ none
      → lines_accepted db.chart_of_accounts db.tax_codes
          (map reversal_line (stored_entry e db).lines)
        ≡ true
      → find (covers c claimed.target_date) db.accounting_periods ≡ some period
      → period.status ≡ open_period
      → Achieves
          (λ o db'. Executes claimed (stored_entry e db) period.id p' dto' db db' o)
          (claim_and_execute_one p c id db)
  claim_reverses id claimed e period db p' dto' there waits found st free new accepted cover open_ =
      let original = stored_entry e db in
      let of : e.id ≡ claimed.original_journal_entry_id =
        id-find c claimed.original_journal_entry_id db.journal_entries e found in
      let own : find (entry_key c e.id) db.journal_entries ≡ some e =
        ap (λ k. find (entry_key c k) db.journal_entries) of ∙ found in
      let key : reversal_key c id claimed ≡ true =
        find_holds (reversal_key c id) db.scheduled_reversals claimed there in
      let here : claimed.id ≡ id = ground arith in
      let row : find (reversal_key c claimed.id) db.scheduled_reversals ≡ some claimed =
        ap (λ k. find (reversal_key c k) db.scheduled_reversals) here ∙ there in
      subst (Achieves (λ o db'. Executes claimed original period.id p' dto' db db' o))
        (sym (
          claim-execute id claimed e period db there waits found st free new cover open_
          ∙ ap
              (λ k.
                execute_claimed p c claimed
                  (record { entry = e; lines = lines_at k db.journal_lines }) period db)
              (sym of)))
        (Returns-Achieves (λ o db'. Executes claimed original period.id p' dto' db db' o)
          (execute_claimed p c claimed original period db)
          (Answers-Returns ClaimOutcome.executed (execute_claimed p c claimed original period db)
            (execute-Answers claimed original period db own accepted))
          (execution_reverses claimed e period db p' dto' row own st))

  -- A claim that gives way.
  claim-cancel :
      (id : ℕ) (claimed : ScheduledReversal) (e : JournalEntry) (r : ℕ) (db : Db)
      → find (reversal_key c id) db.scheduled_reversals ≡ some claimed
      → claimed.status ≡ ScheduledReversalStatus.scheduled
      → find (entry_key c claimed.original_journal_entry_id) db.journal_entries ≡ some e
      → e.status ≡ posted
      → e.reversed_by_journal_entry_id ≡ some r
      → claim_and_execute_one p c id db
        ≡ transition_to_cancelled p c claimed already_reversed_text db
  unfolding claim_and_execute_one
  claim-cancel id claimed e r db there waits found st link = ground arith

  cancelling :
      (claimed : ScheduledReversal) (text : _) (db : Db)
      → Answers ClaimOutcome.cancelled (transition_to_cancelled p c claimed text db)
        × Ensures
            (λ o db'.
              (db'.journal_entries ≡ db.journal_entries) × (db'.journal_lines ≡ db.journal_lines))
            (transition_to_cancelled p c claimed text db)
  unfolding transition_to_cancelled
  cancelling claimed text db = ground arith

  -- After a manual reversal of an entry that succeeds, the claim of a reversal scheduled for that
  -- entry, if it was waiting, answers "cancelled" and leaves entries and lines of the journal alone.
  pub manual_reversal_cancels :
      (p' : Platform) (id : ℕ) (dto : ReverseJournalEntryDto) (db : Db)
      (claimed : ScheduledReversal)
      → find (reversal_key c claimed.id) db.scheduled_reversals ≡ some claimed
      → claimed.status ≡ ScheduledReversalStatus.scheduled
      → claimed.original_journal_entry_id ≡ id
      → Ensures
          (λ w db'.
            Answers ClaimOutcome.cancelled (claim_and_execute_one p c claimed.id db')
            × Ensures
                (λ o db''.
                  (db''.journal_entries ≡ db'.journal_entries)
                  × (db''.journal_lines ≡ db'.journal_lines))
                (claim_and_execute_one p c claimed.id db'))
          (reverse_in_tx p' c id dto db)
  manual_reversal_cancels p' id dto db claimed there waits of =
      Ensures-map _ _ (reverse_in_tx p' c id dto db)
        (λ w db' s.
          let (original, a, here, v, same) = s in
          let still : find (reversal_key c claimed.id) db'.scheduled_reversals ≡ some claimed =
            ap (find (reversal_key c claimed.id)) same.scheduled_reversals ∙ there in
          let linked : find (entry_key c claimed.original_journal_entry_id) db'.journal_entries
              ≡ some (record original.entry { reversed_by_journal_entry_id = some w.entry.id }) =
            ap (λ k. find (entry_key c k) db'.journal_entries) (of ∙ sym here) ∙ v.linked in
          subst
            (λ (r : Result (ClaimOutcome × Db)).
              Answers ClaimOutcome.cancelled r
              × Ensures
                  (λ o db''.
                    (db''.journal_entries ≡ db'.journal_entries)
                    × (db''.journal_lines ≡ db'.journal_lines))
                  r)
            (sym (
              claim-cancel claimed.id claimed _ w.entry.id db' still waits linked a.was_posted
                refl))
            (cancelling claimed already_reversed_text db'))
        (reverse_in_tx-Reverses p' c id dto db)
