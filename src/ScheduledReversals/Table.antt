-- ===== src/ScheduledReversals/Table.antt =====
-- What the table scheduled_reversals keeps through create(), cancel() and the claims.
use noryx_platform.Common.{
  ℕ, ◌≡◌, refl, ap, ◌∙◌, Bool, true, false, ◌&&◌, Option, some, List, [], ◌∷◌, ◌++◌, map, arith,
  ◌==◌, All, All-append, inl, inr, if◌then◌else◌,
}
use noryx_platform.Common.Decimal.{Text}
use noryx_platform.Common.Keys.{IsKeyed, IsKeyed-snoc, IsKeyed-update_where, IsOnly-find}
use noryx_platform.Common.Rows.{find, exists, update_where, exists-append}
use noryx_platform.Database.{Db, Caller, Platform, ScheduledReversal, ScheduledReversalStatus}
use noryx_platform.Database.Tx.{Ensures, Ensures-map}
use noryx_platform.ScheduledReversals.{
  CreateScheduledReversalDto, is_waiting, reversal_key, active_for, new_reversal, mark_cancelled,
  create, cancel, claim_and_execute_one,
}
use noryx_platform.ScheduledReversals.Transitions.{TerminalFields, Ends, Settles, cancelled-Ends}
use noryx_platform.ScheduledReversals.Claims.{claim-Claims}

-- At most one row waits for each original: the partial unique index.
abbrev pub IsSingle : List ScheduledReversal → Type 0
IsSingle [] = Unit
IsSingle (r ∷ rs) =
    ((is_waiting r.status && exists (active_for r.original_journal_entry_id) rs) ≡ false)
    × IsSingle rs

pub record IsTable (rows : List ScheduledReversal) : Type 0 where
  pub keyed : IsKeyed (λ (r : ScheduledReversal). r.id) rows
  pub single : IsSingle rows
  pub fields : All TerminalFields rows

IsSingle-snoc :
    (rs : List ScheduledReversal) (a : ScheduledReversal)
    → IsSingle rs
    → exists (active_for a.original_journal_entry_id) rs ≡ false
    → IsSingle (rs ++ a ∷ [])
IsSingle-snoc [] a h n = (ground arith, tt)
IsSingle-snoc (r ∷ rs) a h n = (
  ap (λ b. is_waiting r.status && b)
        (exists-append (active_for r.original_journal_entry_id) rs (a ∷ []))
      ∙ ground (arith, h.0),
  IsSingle-snoc rs a h.1 (ground arith),
)

module _ (c : Caller) (id : ℕ) (f : ScheduledReversal → ScheduledReversal) (ends : Ends f) where
  fewer_active :
      (original : ℕ) (rs : List ScheduledReversal)
      → exists (active_for original) rs ≡ false
      → exists (active_for original) (update_where (reversal_key c id) f rs) ≡ false
  fewer_active original [] h = refl
  fewer_active original (r ∷ rs) h =
      ground (arith, ends.off r, fewer_active original rs (ground arith))

  IsSingle-update_where :
      (rs : List ScheduledReversal) → IsSingle rs → IsSingle (update_where (reversal_key c id) f rs)
  IsSingle-update_where [] h = tt
  IsSingle-update_where (r ∷ rs) h = (head (reversal_key c id r), IsSingle-update_where rs h.1)
    where
      rest : List ScheduledReversal
      rest = update_where (reversal_key c id) f rs

      waiting :
          (w : Bool)
          → (w && exists (active_for r.original_journal_entry_id) rs) ≡ false
          → (w && exists (active_for r.original_journal_entry_id) rest) ≡ false
      waiting true e = fewer_active r.original_journal_entry_id rs e
      waiting false e = refl

      head :
          (b : Bool)
          → (is_waiting (if b then f r else r).status
              && exists (active_for (if b then f r else r).original_journal_entry_id) rest)
            ≡ false
      head true = rw (ends.off r) refl
      head false = waiting (is_waiting r.status) h.0

  fields-update_where :
      (rs : List ScheduledReversal) (a : ScheduledReversal)
      → a.status ≡ ScheduledReversalStatus.scheduled
      → All (λ (x : ScheduledReversal). (x.id == id) ≡ true → x ≡ a) rs
      → All TerminalFields rs
      → All TerminalFields (update_where (reversal_key c id) f rs)
  fields-update_where [] a w only h = tt
  fields-update_where (r ∷ rs) a w only h =
      (head (reversal_key c id r) refl, fields-update_where rs a w only.1 h.1)
    where
      head : (b : Bool) → reversal_key c id r ≡ b → TerminalFields (if b then f r else r)
      head true k =
          let same : r ≡ a = only.0 (ground arith) in
          ends.fields r (ap (λ x. x.status) same ∙ w) h.0
      head false k = h.0

waiting_status :
    (r : ScheduledReversal)
    → is_waiting r.status ≡ true
    → r.status ≡ ScheduledReversalStatus.scheduled
waiting_status r w = go r.status w
  where
    go : (s : ScheduledReversalStatus) → is_waiting s ≡ true → s ≡ ScheduledReversalStatus.scheduled
    go ScheduledReversalStatus.scheduled e = refl
    go ScheduledReversalStatus.executed e = absurd (cc)
    go ScheduledReversalStatus.failed e = absurd (cc)
    go ScheduledReversalStatus.cancelled e = absurd (cc)

Settles-IsTable :
    (c : Caller) (id : ℕ) (rows rows' : List ScheduledReversal)
    → IsTable rows
    → Settles c id rows rows'
    → IsTable rows'
Settles-IsTable c id rows rows' h s = rw s.after (record {
  keyed =
      IsKeyed-update_where (λ (r : ScheduledReversal). r.id) (reversal_key c id) s.change rows
        s.ends.same_id h.keyed;
  single = IsSingle-update_where c id s.change s.ends rows h.single;
  fields =
      fields-update_where c id s.change s.ends rows s.row (waiting_status s.row s.waited)
        (IsOnly-find (λ (r : ScheduledReversal). r.id) (reversal_key c id) id rows s.row
          (λ x t. ground arith) h.keyed s.found)
        h.fields;
})

module _ (p : Platform) (c : Caller) (db : Db) where
  pub record Creates (dto : CreateScheduledReversalDto) (db' : Db) : Type 0 where
    pub rows :
        db'.scheduled_reversals
        ≡ db.scheduled_reversals
          ++ new_reversal p c (p.new_id (map (λ r. r.id) db.scheduled_reversals)) dto ∷ []
    pub free : exists (active_for dto.original_journal_entry_id) db.scheduled_reversals ≡ false

  create_shape :
      (dto : CreateScheduledReversalDto) → Ensures (λ r db'. Creates dto db') (create p c dto db)
  unfolding create
  create_shape dto = ground arith

  record Cancels (id : ℕ) (db' : Db) : Type 0 where
    row : ScheduledReversal
    found : find (reversal_key c id) db.scheduled_reversals ≡ some row
    waited : is_waiting row.status ≡ true
    after :
        db'.scheduled_reversals
        ≡ update_where (reversal_key c id) (mark_cancelled p c) db.scheduled_reversals

  cancel_shape :
      (id : ℕ) (reason : Option Text) → Ensures (λ r db'. Cancels id db') (cancel p c id reason db)
  unfolding cancel
  cancel_shape id reason = ground arith

  module _ (h : IsTable db.scheduled_reversals) where
    create-IsTable :
        (dto : CreateScheduledReversalDto)
        → Ensures (λ r db'. IsTable db'.scheduled_reversals) (create p c dto db)
    unfolding new_reversal
    create-IsTable dto =
        Ensures-map (λ r db'. Creates dto db') (λ r db'. IsTable db'.scheduled_reversals)
          (create p c dto db)
          (λ r db' s. rw s.rows (record {
            keyed =
                IsKeyed-snoc (λ (r : ScheduledReversal). r.id) db.scheduled_reversals _ h.keyed
                  (p.new_id_fresh (map (λ r. r.id) db.scheduled_reversals));
            single = IsSingle-snoc db.scheduled_reversals _ h.single s.free;
            fields =
                All-append TerminalFields db.scheduled_reversals _ h.fields
                  ((refl, refl, refl), tt);
          }))
          (create_shape dto)

    cancel-IsTable :
        (id : ℕ) (reason : Option Text)
        → Ensures (λ r db'. IsTable db'.scheduled_reversals) (cancel p c id reason db)
    cancel-IsTable id reason =
        Ensures-map (λ r db'. Cancels id db') (λ r db'. IsTable db'.scheduled_reversals)
          (cancel p c id reason db)
          (λ r db' s. Settles-IsTable c id db.scheduled_reversals _ h (record {
            row = s.row;
            found = s.found;
            waited = s.waited;
            change = mark_cancelled p c;
            ends = cancelled-Ends p c;
            after = s.after;
          }))
          (cancel_shape id reason)

    claim-IsTable :
        (id : ℕ)
        → Ensures (λ o db'. IsTable db'.scheduled_reversals) (claim_and_execute_one p c id db)
    claim-IsTable id =
        Ensures-map _ (λ o db'. IsTable db'.scheduled_reversals) (claim_and_execute_one p c id db)
          (λ o db' s. elim s [
            | inl same ↦ rw same.1 h
            | inr settled ↦ Settles-IsTable c id db.scheduled_reversals _ h settled
          ])
          (claim-Claims p c id db)

    -- If ids are different, at most one row waits for each original, and every row has the fields
    -- of its status, then creating, cancelling or claiming a scheduled reversal keeps it so.
    pub operations-IsTable :
        (dto : CreateScheduledReversalDto) (id : ℕ) (reason : Option Text)
        → Ensures (λ r db'. IsTable db'.scheduled_reversals) (create p c dto db)
          × Ensures (λ r db'. IsTable db'.scheduled_reversals) (cancel p c id reason db)
          × Ensures (λ o db'. IsTable db'.scheduled_reversals) (claim_and_execute_one p c id db)
    operations-IsTable dto id reason =
        (create-IsTable dto, cancel-IsTable id reason, claim-IsTable id)
