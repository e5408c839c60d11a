-- ===== src/Storage/Sqlite/Claims.antt =====
-- The claims of one-time token ids in SQLite.
use ayane.Base.{
  suc, List, retain, ◌↔◌, ℕ, String, if◌then◌else◌, ◌≡◌, ◌≢◌, ◌<◌, ◌≤◌, inl, inr, refl, sym, ap,
  ◌∙◌, subst, true, false, not, ◌&&◌, [], ◌∷◌, ◌++◌, ◌==◌, eq_iff, arith, Any, any, Any-append,
  Any-last, any_of_Any, Any-retain, Bool-cases, Option-cases, nat_eq,
}
use ayane.Error.{Error, Result, ok, err}
use ayane.Action.{
  lift, ◌>>=◌, continue, Action, Keeps, Keeps-bind, Keeps-pure, Keeps-fail, Keeps-lift-bind,
  lift-eq-ok, >>=-eq-ok, pure, fail,
}
use ayane.Time.{SystemTime, unix_epoch}
use ayane.Storage.{secs}
use ayane.Storage.Sqlite.{
  SqliteStorage, Database, TokenRow, unix_secs, execute, next_fault, rolled_back, transaction,
  delete_expired_token, insert_token, insert_or_ignore, claim_row, claim_token, is_expired,
}

-- The token id is claimed until the second `e` at least.
abbrev pub Claimed : String → ℕ → Database → Type 0
Claimed j e db = Any (λ row. (row.jti ≡ j) × (e ≤ row.expires_at)) db.tokens

pub unix_secs-eq : (t : SystemTime) (n : ℕ) → unix_secs t ≡ ok n → n ≡ secs t
unfolding unix_secs
unix_secs-eq t n h = ground arith

pub unix_secs_ok : (t : SystemTime) → unix_epoch ≤ t → unix_secs t ≡ ok (secs t)
unfolding unix_secs
unix_secs_ok t h = ground arith

-- A statement that succeeds has done its work.
pub execute-eq-ok :
    {A : Type 0} (statement : Database → Result A × Database) (s : SqliteStorage) {a : A}
    → (execute statement s).0 ≡ ok a
    → ((statement s.database).0 ≡ ok a)
      × ((execute statement s).1.database ≡ (statement s.database).1)
unfolding execute
execute-eq-ok statement s h = elim (Option-cases (next_fault s.faults).0) [
  | inl e ↦ (rw (execute, e) at h, rw (execute, e) refl)
  | inr (m, e) ↦ absurd (ground arith)
]

-- A statement that keeps a property of the database keeps it on a connection.
pub Keeps-execute :
    {A : Type 0} (P : Database → Type 0) (statement : Database → Result A × Database)
    → ((db : Database) → P db → P (statement db).1)
    → Keeps (λ s. P s.database) (execute statement)
unfolding execute
Keeps-execute P statement h = record {
  after = λ s p. elim (Option-cases (next_fault s.faults).0) [
    | inl e ↦ rw (execute, e) (h s.database p)
    | inr (m, e) ↦ rw (execute, e) p
  ];
}

rolled :
    {A : Type 0} (P : Database → Type 0) (before : Database)
    → P before
    → (o : Result A × SqliteStorage) → P o.1.database
    → P (rolled_back before o).1.database
unfolding rolled_back
rolled P before p (ok a, s) q = q
rolled P before p (err e, s) q = p

pub Keeps-transaction :
    {A : Type 0} (P : Database → Type 0) (body : Action SqliteStorage A)
    → Keeps (λ s. P s.database) body
    → Keeps (λ s. P s.database) (transaction body)
unfolding transaction
Keeps-transaction P body h = record {
  after = λ s p. rolled P s.database p _ (
      (Keeps-bind body _ h
          λ a. Keeps-bind _ _ (Keeps-execute P _ λ db q. q) λ _. Keeps-pure a).after
        s p);
}

-- A claim keeps what its two statements keep.
pub claim_token-Keeps :
    (P : Database → Type 0) (now : SystemTime) (j : String) (t : SystemTime)
    → ((db : Database) → P db → P (delete_expired_token j (secs now) db).1)
    → ((expires : ℕ) (db : Database) → P db → P (insert_token j expires db).1)
    → Keeps (λ s. P s.database) (claim_token now j t)
unfolding claim_token claim_row
claim_token-Keeps P now j t hd hi = Keeps-lift-bind _ _ λ expires _.
    Keeps-lift-bind _ _ λ now_secs h. Keeps-transaction P _ (
      Keeps-bind _ _
        (Keeps-execute P _ λ db p.
          subst (λ n. P (delete_expired_token j n db).1) (sym (unix_secs-eq now now_secs h))
            (hd db p))
        λ _. Keeps-bind _ _ (Keeps-execute P _ λ db p. hi expires db p) λ inserted.
          elim (Bool-cases (nat_eq inserted 0)) [
            | inl e' ↦ rw e' (Keeps-fail _)
            | inr e' ↦ rw e' (Keeps-pure _)
          ])

module _ (j : String) (e : ℕ) where
  delete-Claimed :
      (k : String) (now : ℕ) (db : Database)
      → now < e
      → Claimed j e db
      → Claimed j e (delete_expired_token k now db).1
  unfolding delete_expired_token
  delete-Claimed k now db lt c = Any-retain _ _ db.tokens (λ row (q, le). fresh row le) c
    where
      fresh :
          (row : TokenRow) → e ≤ row.expires_at → not ((row.jti == k) && is_expired now row) ≡ true
      fresh row le = ground arith

  insert-Claimed :
      (k : String) (t : ℕ) (db : Database) → Claimed j e db → Claimed j e (insert_token k t db).1
  unfolding insert_token insert_or_ignore
  insert-Claimed k t db c = elim (Bool-cases (any (λ row. row.jti == k) db.tokens)) [
    | inl e' ↦ rw e' c
    | inr e' ↦ rw e' (Any-append _ db.tokens _ c)
  ]

  pub claim-Claimed :
      (now : SystemTime) (k : String) (t : SystemTime)
      → secs now < e
      → Keeps (λ s. Claimed j e s.database) (claim_token now k t)
  claim-Claimed now k t lt =
      claim_token-Keeps (Claimed j e) now k t (λ db c. delete-Claimed k (secs now) db lt c)
        (λ expires db c. insert-Claimed k expires db c)

rolled_back-eq-ok :
    {A : Type 0} (before : Database) (o : Result A × SqliteStorage) {a : A}
    → (rolled_back before o).0 ≡ ok a
    → rolled_back before o ≡ o
unfolding rolled_back
rolled_back-eq-ok before (ok a, s) h = refl
rolled_back-eq-ok before (err e, s) h = cc

pub transaction-eq-ok :
    {A : Type 0} (body : Action SqliteStorage A) (s : SqliteStorage) {a : A}
    → (transaction body s).0 ≡ ok a
    → ((body s).0 ≡ ok a) × ((transaction body s).1.database ≡ (body s).1.database)
unfolding transaction pure
transaction-eq-ok body s h =
    let r = rolled_back-eq-ok s.database _ h in
    let (a', hb, e) = >>=-eq-ok body _ s (sym (ap (λ o. o.0) r) ∙ h) in
    let (u, hx, e') =
      >>=-eq-ok (execute (λ db. (ok tt, db))) (λ _. pure a') (body s).1
        (sym (ap (λ o. o.0) (r ∙ e)) ∙ h) in
    let (_, same) = execute-eq-ok (λ db. (ok tt, db)) (body s).1 hx in
    (hb ∙ sym (ap (λ o. o.0) (r ∙ e ∙ e')) ∙ h, ap (λ o. o.1.database) (r ∙ e ∙ e') ∙ same)

finish :
    (n : ℕ) (c : Error) (s : SqliteStorage)
    → ((if nat_eq n 0 then fail c else pure tt) s).0 ≡ ok tt
    → (nat_eq n 0 ≡ false) × (((if nat_eq n 0 then fail c else pure tt) s).1 ≡ s)
unfolding fail pure
finish n c s h = elim (Bool-cases (nat_eq n 0)) [
  | inl e ↦ absurd (ground arith)
  | inr e ↦ (e, rw e refl)
]

inserted-new :
    (j : String) (t : ℕ) (db : Database) (n : ℕ)
    → (insert_token j t db).0 ≡ ok n
    → nat_eq n 0 ≡ false
    → any (λ row. row.jti == j) db.tokens ≡ false
unfolding insert_token insert_or_ignore
inserted-new j t db n h nz = ground arith

insert-tokens :
    (j : String) (t : ℕ) (db : Database)
    → any (λ row. row.jti == j) db.tokens ≡ false
    → (insert_token j t db).1.tokens ≡ db.tokens ++ record { jti = j; expires_at = t } ∷ []
unfolding insert_token insert_or_ignore
insert-tokens j t db h = rw h refl

claim_row-eq-ok :
    (j : String) (t now : ℕ) (s : SqliteStorage)
    → (claim_row j t now s).0 ≡ ok tt
    → (any (λ row. row.jti == j) (delete_expired_token j now s.database).1.tokens ≡ false)
      × ((claim_row j t now s).1.database
          ≡ (insert_token j t (delete_expired_token j now s.database).1).1)
unfolding claim_row
claim_row-eq-ok j t now s h =
    let (u, hd, e) = >>=-eq-ok (execute (delete_expired_token j now)) _ s h in
    let (n, hi, e') =
      >>=-eq-ok (execute (insert_token j t)) _ (execute (delete_expired_token j now) s).1
        (sym (ap (λ o. o.0) e) ∙ h) in
    let (_, d) = execute-eq-ok (delete_expired_token j now) s hd in
    let (i, k) = execute-eq-ok (insert_token j t) (execute (delete_expired_token j now) s).1 hi in
    let (nz, same) = finish n _ _ (sym (ap (λ o. o.0) (e ∙ e')) ∙ h) in
    (
      inserted-new j t _ n (ap (λ db. (insert_token j t db).0) (sym d) ∙ i) nz,
      ap (λ o. o.1.database) (e ∙ e')
          ∙ ap (λ x. x.database) same
          ∙ k
          ∙ ap (λ db. (insert_token j t db).1) d,
    )

claim_token-eq-ok :
    (now : SystemTime) (j : String) (t : SystemTime) (s : SqliteStorage)
    → (claim_token now j t s).0 ≡ ok tt
    → (any (λ row. row.jti == j) (delete_expired_token j (secs now) s.database).1.tokens ≡ false)
      × ((claim_token now j t s).1.database
          ≡ (insert_token j (secs t) (delete_expired_token j (secs now) s.database).1).1)
unfolding claim_token
claim_token-eq-ok now j t s h =
    let (expires, he, e) = lift-eq-ok (unix_secs t) _ s h in
    let (now_secs, hn, e') = lift-eq-ok (unix_secs now) _ s (sym (ap (λ o. o.0) e) ∙ h) in
    let (done, db) = transaction-eq-ok _ s (sym (ap (λ o. o.0) (e ∙ e')) ∙ h) in
    let (new, db') = claim_row-eq-ok j expires now_secs s done in
    let p = unix_secs-eq t expires he in
    let q = unix_secs-eq now now_secs hn in
    (
      subst (λ n. any (λ row. row.jti == j) (delete_expired_token j n s.database).1.tokens ≡ false)
          q new,
      ap (λ o. o.1.database) (e ∙ e') ∙ db ∙ db' ∙ rw (p, q) refl,
    )

-- A claim that succeeds holds from then on.
pub claimed :
    (now : SystemTime) (j : String) (t : SystemTime) (s : SqliteStorage)
    → (claim_token now j t s).0 ≡ ok tt
    → Claimed j (secs t) (claim_token now j t s).1.database
claimed now j t s h =
    let (new, db) = claim_token-eq-ok now j t s h in
    let before = (delete_expired_token j (secs now) s.database).1 in
    subst (Claimed j (secs t)) (sym db)
      (rw (insert-tokens j (secs t) before new) (Any-last _ before.tokens _ (refl, omega arith)))

-- While it holds, another claim is refused.
pub refused :
    (now : SystemTime) (j : String) (e : ℕ) (t : SystemTime) (s : SqliteStorage)
    → Claimed j e s.database
    → secs now < e
    → (claim_token now j t s).0 ≢ ok tt
refused now j e t s c lt h =
    let (new, _) = claim_token-eq-ok now j t s h in
    let kept =
      any_of_Any _ (λ row. row.jti == j) _ (λ row (q, _). (eq_iff row.jti j).1 q)
        (delete-Claimed j e j (secs now) s.database lt c) in
    ground arith

none_left :
    (j : String) (now : ℕ) (rows : List TokenRow)
    → (Any (λ row. (row.jti ≡ j) × (now < row.expires_at)) rows → ⊥)
    → any (λ row. row.jti == j) (retain (λ row. not ((row.jti == j) && is_expired now row)) rows)
      ≡ false
none_left j now [] h = refl
none_left j now (row ∷ rows) h = elim (Bool-cases (row.jti == j)) [
  | inr e ↦ rw (e, e) (none_left j now rows (λ a. h (inr a)))
  | inl e ↦ elim (Bool-cases (is_expired now row)) [
    | inl x ↦ rw (e, x) (none_left j now rows (λ a. h (inr a)))
    | inr x ↦ absurd (h (inl ((eq_iff row.jti j).0 e, ground arith)))
  ]
]

-- On an engine that does not fail, and from the Unix epoch on, a claim of a token id succeeds exactly
-- when no claim of it is left that has not expired by the second of the clock.
pub claim_iff :
    (now : SystemTime) (j : String) (t : SystemTime) (db : Database)
    → unix_epoch ≤ now
    → unix_epoch ≤ t
    → ((claim_token now j t (record { database = db; faults = [] })).0 ≡ ok tt)
      ↔ ¬ Any (λ row. (row.jti ≡ j) × (secs now < row.expires_at)) db.tokens
unfolding claim_token claim_row transaction execute next_fault delete_expired_token insert_token
    insert_or_ignore rolled_back ◌>>=◌ continue lift pure fail
claim_iff now j t db hn ht = (
  (λ h c. refused now j (suc (secs now)) t _ c (omega arith) h),
  (λ h. rw (unix_secs_ok t ht, unix_secs_ok now hn, none_left j (secs now) db.tokens h) refl),
)
