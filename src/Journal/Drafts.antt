-- ===== src/Journal/Drafts.antt =====
-- create(), update() and remove().
use noryx_platform.Common.{
  ℕ, Bool, true, false, Option, none, some, List, [], ◌∷◌, ◌++◌, map, or_else,
}
use noryx_platform.Common.Decimal.{Text}
use noryx_platform.Common.Rows.{update_where, delete_where}
use noryx_platform.Database.{
  Caller, Platform, AuditLog, AuditAction, EntityType, Snapshot, entry_with_lines, not_found,
  conflict, internal, no_such_row, cannot_edit_posted, cannot_delete_posted, EntryStatus, draft,
  posted, JournalEntry, EntryWithLines,
}
use noryx_platform.Database.Tx.{Tx, pure, or_throw, guard, modify, audit, ◌>>=◌, ◌>>◌}
use noryx_platform.Journal.Lines.{CreateJournalLineDto, validate_lines_or_throw, insert_lines}
use noryx_platform.Journal.Lookup.{entry_key, line_of, resolve_currency, find_by_id_in_tx}

pub record CreateJournalEntryDto : Type 0 where
  pub transaction_date : ℕ
  pub memo : Option Text
  pub lines : Option (List CreateJournalLineDto)

pub record UpdateJournalEntryDto : Type 0 where
  pub transaction_date : Option ℕ
  pub memo : Option Text
  pub lines : Option (List CreateJournalLineDto)

abbrev pub is_draft : EntryStatus → Bool
is_draft draft = true
is_draft posted = false

abbrev pub entry_ids : List JournalEntry → List ℕ
entry_ids es = map (λ e. e.id) es

module _ (p : Platform) (c : Caller) where
  -- The row that `insert(journalEntries)` makes: the columns given, and the defaults.
  unfoldable pub new_entry : ℕ → ℕ → Text → Option Text → Option ℕ → JournalEntry
  new_entry id date currency memo reversal_of = record {
    id = id;
    tenant_id = c.tenant_id;
    legal_entity_id = c.legal_entity_id;
    journal_number = none;
    status = draft;
    transaction_date = date;
    period_id = none;
    currency_code = currency;
    memo = memo;
    reversal_of_journal_entry_id = reversal_of;
    reversed_by_journal_entry_id = none;
    created_by = c.actor_user_id;
    posted_by = none;
    posted_at = none;
    created_at = p.now;
    updated_at = p.now;
  }

  unfoldable pub insert_entry : ℕ → Text → Option Text → Option ℕ → Tx JournalEntry
  unfolding new_entry
  insert_entry date currency memo reversal_of db =
      let row =
        new_entry (p.new_id (entry_ids db.journal_entries)) date currency memo reversal_of in
      pure row (record db { journal_entries = db.journal_entries ++ row ∷ [] })

module _ (c : Caller) where
  abbrev pub entry_audit : AuditAction → ℕ → Option Snapshot → Option Snapshot → AuditLog
  entry_audit action id before after = record {
    tenant_id = c.tenant_id;
    legal_entity_id = c.legal_entity_id;
    actor_user_id = c.actor_user_id;
    action = action;
    entity_type = EntityType.journal_entry;
    entity_id = id;
    before_state = before;
    after_state = after;
  }

  -- `update(journalEntries).set(f)` on the row of one id in scope.
  unfoldable pub update_entry : ℕ → (JournalEntry → JournalEntry) → Tx (Unit {0})
  update_entry id f =
      modify
        λ db. record db { journal_entries = update_where (entry_key c id) f db.journal_entries }

  -- The delete of `remove()`: the foreign key deletes the entry's lines too.
  unfoldable pub delete_entry : ℕ → Tx (Unit {0})
  delete_entry id = modify λ db. record db {
    journal_entries = delete_where (entry_key c id) db.journal_entries;
    journal_lines = delete_where (line_of id) db.journal_lines;
  }

  unfoldable pub replace_lines : ℕ → Option (List CreateJournalLineDto) → Tx (Unit {0})
  unfolding insert_lines
  replace_lines id none = pure tt
  replace_lines id (some lines) = do
    modify λ db. record db { journal_lines = delete_where (line_of id) db.journal_lines }
    insert_lines c id lines
    pure tt

  unfoldable pub validate_some_or_throw : Option (List CreateJournalLineDto) → Tx (Unit {0})
  unfolding validate_lines_or_throw
  validate_some_or_throw none = pure tt
  validate_some_or_throw (some lines) = validate_lines_or_throw c lines

module _ (p : Platform) (c : Caller) where
  unfoldable pub create : CreateJournalEntryDto → Tx EntryWithLines
  unfolding resolve_currency validate_lines_or_throw insert_entry insert_lines
  create dto = do
    currency ← resolve_currency c
    let lines = or_else dto.lines []
    validate_lines_or_throw c lines
    entry ← insert_entry p c dto.transaction_date currency dto.memo none
    rows ← insert_lines c entry.id lines
    let full : EntryWithLines = record { entry = entry; lines = rows }
    audit (entry_audit c AuditAction.create entry.id none (some (entry_with_lines full)) ∷ [])
    pure full

  -- `headerPatch`: a field that the request leaves out is kept.
  unfoldable pub header_patch : UpdateJournalEntryDto → JournalEntry → JournalEntry
  header_patch dto e = record e {
    updated_at = p.now;
    transaction_date = or_else dto.transaction_date e.transaction_date;
    memo = elim dto.memo [ none ↦ e.memo | some m ↦ some m ];
  }

  unfoldable pub update : ℕ → UpdateJournalEntryDto → Tx EntryWithLines
  unfolding find_by_id_in_tx validate_some_or_throw update_entry header_patch replace_lines
  update id dto = do
    found ← find_by_id_in_tx c id
    before ← or_throw found (not_found no_such_row)
    guard (is_draft before.entry.status) (conflict cannot_edit_posted)
    validate_some_or_throw c dto.lines
    update_entry c id (header_patch dto)
    replace_lines c id dto.lines
    read ← find_by_id_in_tx c id
    -- `after!`
    after ← or_throw read (internal no_such_row)
    audit (
        entry_audit c AuditAction.update id (some (entry_with_lines before))
          (some (entry_with_lines after))
        ∷ [])
    pure after

  unfoldable pub remove : ℕ → Tx EntryWithLines
  unfolding find_by_id_in_tx delete_entry
  remove id = do
    found ← find_by_id_in_tx c id
    before ← or_throw found (not_found no_such_row)
    guard (is_draft before.entry.status) (conflict cannot_delete_posted)
    delete_entry c id
    audit (entry_audit c AuditAction.delete id (some (entry_with_lines before)) none ∷ [])
    pure before
