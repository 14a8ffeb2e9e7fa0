-- ===== src/Books/Shape.antt =====
-- What a successful call of JournalEntriesService has read and written, step by step. The
-- other modules of this tree derive the properties of the books from these records.
use noryx_platform.Journal.{
  CreateJournalLineDto, entity_key, CreateJournalEntryDto, UpdateJournalEntryDto, entry_key,
  line_of, order_by_line_number, number_lines, covers, next_number, counter_key,
  journal_number_text, entry_ids, new_entry, header_patch, mark_posted, entry_audit, total_debit,
  total_credit, create, update, remove, post,
}
use noryx_platform.Common.{
  Option, ℕ, ◌≤◌, ◌≡◌, none, some, List, [], ◌∷◌, ◌++◌, arith, length, or_else,
}
use noryx_platform.Common.Rows.{find, update_where, delete_where, select}
use noryx_platform.Database.{
  LegalEntity, Db, Caller, Platform, AuditAction, entry_with_lines, draft, open_period,
  AccountingPeriod, JournalEntry, JournalLine, JournalNumberCounter, EntryWithLines,
}
use noryx_platform.Database.Tx.{Ensures}

-- The lines that `findByIdInTx` attaches to an entry.
abbrev pub lines_at : ℕ → List JournalLine → List JournalLine
lines_at id lines = order_by_line_number (select (line_of id) lines)

-- The number that the counter gives next, and the counters after.
abbrev pub drawn : Caller → Db → ℕ × List JournalNumberCounter
drawn c db =
    next_number c db.journal_number_counters (find (counter_key c) db.journal_number_counters)

-- Full replacement of an entry's lines, if the request has lines.
abbrev pub replaced_lines :
    Caller → ℕ → Option (List CreateJournalLineDto) → List JournalLine → List JournalLine
replaced_lines c id none lines = lines
replaced_lines c id (some dtos) lines = delete_where (line_of id) lines ++ number_lines c id 0 dtos

-- The tables that JournalEntriesService only reads.
pub record SameReference (db db' : Db) : Type 0 where
  pub legal_entities : db'.legal_entities ≡ db.legal_entities
  pub chart_of_accounts : db'.chart_of_accounts ≡ db.chart_of_accounts
  pub tax_codes : db'.tax_codes ≡ db.tax_codes
  pub accounting_periods : db'.accounting_periods ≡ db.accounting_periods
  pub deferral_schedules : db'.deferral_schedules ≡ db.deferral_schedules
  pub deferral_recognitions : db'.deferral_recognitions ≡ db.deferral_recognitions
  pub scheduled_reversals : db'.scheduled_reversals ≡ db.scheduled_reversals
  pub supplier_bills : db'.supplier_bills ≡ db.supplier_bills
  pub supplier_payments : db'.supplier_payments ≡ db.supplier_payments
  pub supplier_payment_allocations :
      db'.supplier_payment_allocations ≡ db.supplier_payment_allocations

module _ (p : Platform) (c : Caller) (db db' : Db) (r : EntryWithLines) where
  pub record Creates (dto : CreateJournalEntryDto) : Type 0 where
    pub legal_entity : LegalEntity
    pub resolved : find (entity_key c) db.legal_entities ≡ some legal_entity
    pub entry :
        r.entry
        ≡ new_entry p c
            (p.new_id (entry_ids db.journal_entries))
            dto.transaction_date
            legal_entity.currency_code
            dto.memo
            none
    pub rows : r.lines ≡ number_lines c r.entry.id 0 (or_else dto.lines [])
    pub entries : db'.journal_entries ≡ db.journal_entries ++ r.entry ∷ []
    pub lines : db'.journal_lines ≡ db.journal_lines ++ r.lines
    pub counters : db'.journal_number_counters ≡ db.journal_number_counters
    pub trail :
        db'.audit_logs
        ≡ db.audit_logs
          ++ entry_audit c AuditAction.create r.entry.id none (some (entry_with_lines r)) ∷ []
    pub reference : SameReference db db'

  pub record Posts (id : ℕ) : Type 0 where
    pub before : JournalEntry
    pub found : find (entry_key c id) db.journal_entries ≡ some before
    pub was_draft : before.status ≡ draft
    pub enough : 2 ≤ length (lines_at id db.journal_lines)
    pub even :
        total_debit (lines_at id db.journal_lines) ≡ total_credit (lines_at id db.journal_lines)
    pub period : AccountingPeriod
    pub covered : find (covers c before.transaction_date) db.accounting_periods ≡ some period
    pub period_open : period.status ≡ open_period
    pub entries :
        db'.journal_entries
        ≡ update_where
            (entry_key c id)
            (mark_posted p c (journal_number_text (drawn c db).0) period.id)
            db.journal_entries
    pub lines : db'.journal_lines ≡ db.journal_lines
    pub counters : db'.journal_number_counters ≡ (drawn c db).1
    pub entry : find (entry_key c id) db'.journal_entries ≡ some r.entry
    pub rows : r.lines ≡ lines_at id db.journal_lines
    pub reference : SameReference db db'

  pub record Updates (id : ℕ) (dto : UpdateJournalEntryDto) : Type 0 where
    pub before : JournalEntry
    pub found : find (entry_key c id) db.journal_entries ≡ some before
    pub was_draft : before.status ≡ draft
    pub entries :
        db'.journal_entries
        ≡ update_where (entry_key c id) (header_patch p c dto) db.journal_entries
    pub lines : db'.journal_lines ≡ replaced_lines c id dto.lines db.journal_lines
    pub counters : db'.journal_number_counters ≡ db.journal_number_counters
    pub entry : find (entry_key c id) db'.journal_entries ≡ some r.entry
    pub rows : r.lines ≡ lines_at id db'.journal_lines
    pub reference : SameReference db db'

  pub record Removes (id : ℕ) : Type 0 where
    pub before : JournalEntry
    pub found : find (entry_key c id) db.journal_entries ≡ some before
    pub was_draft : before.status ≡ draft
    pub entries : db'.journal_entries ≡ delete_where (entry_key c id) db.journal_entries
    pub lines : db'.journal_lines ≡ delete_where (line_of id) db.journal_lines
    pub counters : db'.journal_number_counters ≡ db.journal_number_counters
    pub reference : SameReference db db'

module _ (p : Platform) (c : Caller) (db : Db) where
  pub create_shape :
      (dto : CreateJournalEntryDto)
      → Ensures (λ r db'. Creates p c db db' r dto) (create p c dto db)
  unfolding create
  create_shape dto = ground arith

  pub post_shape : (id : ℕ) → Ensures (λ r db'. Posts p c db db' r id) (post p c id db)
  unfolding post
  post_shape id = ground arith

  pub update_shape :
      (id : ℕ) (dto : UpdateJournalEntryDto)
      → Ensures (λ r db'. Updates p c db db' r id dto) (update p c id dto db)
  unfolding update
  update_shape id dto = ground arith

  pub remove_shape : (id : ℕ) → Ensures (λ r db'. Removes p c db db' r id) (remove p c id db)
  unfolding remove
  remove_shape id = ground arith
