-- ===== src/Database/Tx.antt =====
-- One transaction: state and exceptions over the database. What throws leaves no state behind,
-- so `with_tenant` rolls back; the tenant's row-level-security policy is SQL and not modelled.
use mathlib.Core.Path.{◌≡◌, sym, subst}
use noryx_platform.Common.{Bool, true, false, Option, none, some, List, ◌++◌}
use noryx_platform.Database.Store.{Db, Failure, AuditLog}

pub data Result (A : Type 0) : Type 0 where
  ok : A → Result A
  err : Failure → Result A

abbrev pub Tx : Type 0 → Type 0
Tx A = Db → Result (A × Db)

module _ {A : Type 0} where
  abbrev pub pure : A → Tx A
  pure a db = ok (a, db)

  abbrev pub throw : Failure → Tx A
  throw e db = err e

  abbrev pub gets : (Db → A) → Tx A
  gets f db = ok (f db, db)

  abbrev pub or_throw : Option A → Failure → Tx A
  or_throw none e = throw e
  or_throw (some a) e = pure a

  -- `db.transaction`: the result, and the database after COMMIT or ROLLBACK.
  unfoldable pub with_tenant : Tx A → Db → Result A × Db
  with_tenant m db = elim (m db) [ ok (a, db') ↦ (ok a, db') | err e ↦ (err e, db) ]

infixl 5 ◌>>=◌ ◌>>◌
abbrev pub ◌>>=◌ : {A B : Type 0} → Tx A → (A → Tx B) → Tx B
◌>>=◌ m f db = elim (m db) [ ok (a, db') ↦ f a db' | err e ↦ err e ]

abbrev pub ◌>>◌ : {A B : Type 0} → Tx A → Tx B → Tx B
m >> k = m >>= λ _. k

-- `if (!c) throw e`
abbrev pub guard : Bool → Failure → Tx (Unit {0})
guard true e = pure tt
guard false e = throw e

abbrev pub modify : (Db → Db) → Tx (Unit {0})
modify f db = ok (tt, f db)

-- `insert(auditLogs).values(rows)`
abbrev pub audit : List AuditLog → Tx (Unit {0})
audit rows = modify (λ db. record db { audit_logs = db.audit_logs ++ rows })

-- What a call that began in `db` has done: a postcondition of its result and final state, met
-- when it returns; a call that throws is rolled back.
abbrev pub Ensures : {A : Type 0} → (A → Db → Type 0) → Result (A × Db) → Type 0
Ensures Q (ok (a, db)) = Q a db
Ensures Q (err e) = Unit

module _ {A B : Type 0} where
  continue : (A → Tx B) → Result (A × Db) → Result (B × Db)
  continue f (ok (a, db)) = f a db
  continue f (err e) = err e

  Ensures-continue :
      (R : A → Db → Type 0) (Q : B → Db → Type 0) (f : A → Tx B) (r : Result (A × Db))
      → Ensures R r
      → ((a : A) (db : Db) → R a db → Ensures Q (f a db))
      → Ensures Q (continue f r)
  unfolding continue
  Ensures-continue R Q f (ok (a, db)) h k = k a db h
  Ensures-continue R Q f (err e) h k = tt

  -- The rule of a sequence: the rest starts in a state that the first part ensures.
  pub Ensures-bind :
      (R : A → Db → Type 0) (Q : B → Db → Type 0) (m : Tx A) (f : A → Tx B) (db : Db)
      → Ensures R (m db)
      → ((a : A) (db' : Db) → R a db' → Ensures Q (f a db'))
      → Ensures Q ((m >>= f) db)
  unfolding continue
  Ensures-bind R Q m f db h k = Ensures-continue R Q f (m db) h k

pub Ensures-map :
    {A : Type 0} (R Q : A → Db → Type 0) (r : Result (A × Db))
    → ((a : A) (db : Db) → R a db → Q a db)
    → Ensures R r
    → Ensures Q r
Ensures-map R Q (ok (a, db)) f h = f a db h
Ensures-map R Q (err e) f h = tt

pub Ensures-both :
    {A : Type 0} (P Q : A → Db → Type 0) (r : Result (A × Db))
    → Ensures P r
    → Ensures Q r
    → Ensures (λ a db. P a db × Q a db) r
Ensures-both P Q (ok (a, db)) h k = (h, k)
Ensures-both P Q (err e) h k = tt

-- The call returns, with this result.
abbrev pub Answers : {A : Type 0} → A → Result (A × Db) → Type 0
Answers w (ok (a, db)) = a ≡ w
Answers w (err e) = ⊥

module _ {A B : Type 0} where
  Answers-continue :
      (w : A) (v : B) (f : A → Tx B) (r : Result (A × Db))
      → Answers w r
      → ((db : Db) → Answers v (f w db))
      → Answers v (continue f r)
  unfolding continue
  Answers-continue w v f (ok (a, db)) h k = subst (λ x. Answers v (f x db)) (sym h) (k db)
  Answers-continue w v f (err e) h k = h

  -- A sequence returns when its first part does, and the rest from whatever state that leaves.
  pub Answers-bind :
      (w : A) (v : B) (m : Tx A) (f : A → Tx B) (db : Db)
      → Answers w (m db)
      → ((db' : Db) → Answers v (f w db'))
      → Answers v ((m >>= f) db)
  unfolding continue
  Answers-bind w v m f db h k = Answers-continue w v f (m db) h k

-- The call returns, and what it answers and leaves is so.
abbrev pub Achieves : {A : Type 0} → (A → Db → Type 0) → Result (A × Db) → Type 0
Achieves Q (ok (a, db)) = Q a db
Achieves Q (err e) = ⊥

-- The call returns, with some result.
abbrev pub Returns : {A : Type 0} → Result (A × Db) → Type 0
Returns (ok x) = Unit
Returns (err e) = ⊥

module _ {A B : Type 0} where
  Returns-continue :
      (R : A → Db → Type 0) (f : A → Tx B) (r : Result (A × Db))
      → Returns r
      → Ensures R r
      → ((a : A) (db : Db) → R a db → Returns (f a db))
      → Returns (continue f r)
  unfolding continue
  Returns-continue R f (ok (a, db)) h e k = k a db e
  Returns-continue R f (err e) h _ k = h

  -- A sequence returns when its first part does, and the rest from a state that it ensures.
  pub Returns-bind :
      (R : A → Db → Type 0) (m : Tx A) (f : A → Tx B) (db : Db)
      → Returns (m db)
      → Ensures R (m db)
      → ((a : A) (db' : Db) → R a db' → Returns (f a db'))
      → Returns ((m >>= f) db)
  unfolding continue
  Returns-bind R m f db h e k = Returns-continue R f (m db) h e k

  pub Returns-then :
      (m : Tx A) (f : A → Tx B) (db : Db)
      → Returns (m db)
      → ((a : A) (db' : Db) → Returns (f a db'))
      → Returns ((m >>= f) db)
  Returns-then m f db h k = Returns-bind (λ a db'. Unit) m f db h (any (m db)) λ a db' u. k a db'
    where
      any : (r : Result (A × Db)) → Ensures (λ a db'. Unit) r
      any (ok x) = tt
      any (err e) = tt

pub Returns-Achieves :
    {A : Type 0} (Q : A → Db → Type 0) (r : Result (A × Db))
    → Returns r
    → Ensures Q r
    → Achieves Q r
Returns-Achieves Q (ok (a, db)) h k = k
Returns-Achieves Q (err e) h k = h

pub Answers-Returns : {A : Type 0} (w : A) (r : Result (A × Db)) → Answers w r → Returns r
Answers-Returns w (ok (a, db)) h = tt
Answers-Returns w (err e) h = h

pub Achieves-map :
    {A : Type 0} (R Q : A → Db → Type 0) (r : Result (A × Db))
    → ((a : A) (db : Db) → R a db → Q a db)
    → Achieves R r
    → Achieves Q r
Achieves-map R Q (ok (a, db)) f h = f a db h
Achieves-map R Q (err e) f h = h

-- The rule of a sequence after a guard.
pub Ensures-guarded :
    {A B : Type 0} (b : Bool) (e : Failure) (R : A → Db → Type 0) (Q : B → Db → Type 0) (m : Tx A)
    (f : A → Tx B) (db : Db)
    → Ensures R (m db)
    → ((a : A) (db' : Db) → R a db' → Ensures Q (f a db'))
    → Ensures Q ((guard b e >> (m >>= f)) db)
Ensures-guarded true e R Q m f db h k = Ensures-bind R Q m f db h k
Ensures-guarded false e R Q m f db h k = tt

-- A sequence goes on from what its first part answers.
pub Achieves-after :
    {A B : Type 0} (Q : B → Db → Type 0) (m : Tx A) (f : A → Tx B) (db db' : Db) (a : A)
    → m db ≡ ok (a, db')
    → Achieves Q (f a db')
    → Achieves Q ((m >>= f) db)
unfolding continue
Achieves-after Q m f db db' a e h = subst (λ r. Achieves Q (continue f r)) (sym e) h

-- A transaction that ends, or is rolled back, keeps what its body ensures.
pub with_tenant-keeps :
    {A : Type 0} (P : Db → Type 0) (m : Tx A) (db : Db)
    → P db
    → Ensures (λ a db'. P db') (m db)
    → P (with_tenant m db).1
unfolding with_tenant
with_tenant-keeps {A = A} P m db h e = go (m db) e
  where
    go :
        (r : Result (A × Db))
        → Ensures (λ a db'. P db') r
        → P (elim r as (λ _. Result A × Db) [ ok (a, db') ↦ (ok a, db') | err x ↦ (err x, db) ]).1
    go (ok (a, db')) k = k
    go (err x) k = h

-- The call throws.
abbrev pub Refuses : {A : Type 0} → Result (A × Db) → Type 0
Refuses r = Ensures (λ a db'. ⊥) r
