-- ===== src/Storage/Sqlite.antt =====
-- ayane/src/storage/sqlite.rs: the SQLite backend. Each SQL statement of the source is written out
-- as what it does to the rows of its table.
pub mod Claims
pub mod Laws
pub mod Replay
pub mod Rollback
use ayane.Base.{
  ℕ, String, Bool, true, false, not, ◌&&◌, ◌+◌, Option, none, some, List, [], ◌∷◌, ◌++◌, ◌==◌, map,
  find, retain, length, leb, ltb, nat_eq, any, if◌then◌else◌,
}
use ayane.Error.{Error, Result, ok, err, internal, conflict}
use ayane.Action.{Action, pure, fail, lift, ◌>>=◌, ◌>>◌}
use ayane.Time.{SystemTime, duration_since, unix_epoch, as_secs}
use ayane.San.{Bytes, same_bytes}
use ayane.Ca.Serial.{Text}
use ayane.Storage.{CertificateRecord, RevocationRecord, Storage}

-- a row of `certificates`; `sans` is a column of JSON text
pub record CertificateRow : Type 0 where
  pub serial_number : Text
  pub subject : String
  pub sans : String
  pub not_before : String
  pub not_after : String
  pub issued_at : String
  pub provisioner : Option String
  pub operation : String
  pub renewable : Bool
  pub pem : String

pub record TokenRow : Type 0 where
  pub jti : String
  pub expires_at : ℕ

pub record CacheRow : Type 0 where
  pub key : String
  pub value : Bytes
  pub expires_at : ℕ

pub record Database : Type 0 where
  pub certificates : List CertificateRow
  pub revocations : List RevocationRecord
  pub tokens : List TokenRow
  pub cache : List CacheRow

-- The connection: its database, and how the statements to come fare (`some e`: the engine fails
-- with `e`); a statement past the end of the list succeeds.
pub record SqliteStorage : Type 0 where
  pub database : Database
  pub faults : List (Option String)

-- serde_json on a list of texts
pub record Json : Type 0 where
  pub to_string : List String → Result String
  pub from_str : String → Option (List String)

unfoldable pub next_fault : List (Option String) → Option String × List (Option String)
next_fault [] = (none, [])
next_fault (fault ∷ faults) = (fault, faults)

-- one statement on the database
unfoldable pub execute : {A : Type 0} → (Database → Result A × Database) → Action SqliteStorage A
unfolding next_fault
execute statement s =
    let (fault, faults) = next_fault s.faults in
    elim fault [
      | some e ↦ (err (internal e), record { database = s.database; faults = faults })
      | none ↦ (
        (statement s.database).0,
        record { database = (statement s.database).1; faults = faults },
      )
    ]

-- a transaction that an error leaves by dropping it: it is rolled back
unfoldable pub rolled_back :
    {A : Type 0} → Database → Result A × SqliteStorage → Result A × SqliteStorage
rolled_back before (ok a, s) = (ok a, s)
rolled_back before (err e, s) = (err e, record s { database = before })

-- `conn.transaction()`, the body, and `tx.commit()`
unfoldable pub transaction : {A : Type 0} → Action SqliteStorage A → Action SqliteStorage A
transaction body s = rolled_back s.database ((do a ← body; execute (λ db. (ok tt, db)); pure a) s)

unfoldable pub unix_secs : SystemTime → Result ℕ
unix_secs t = elim (duration_since t unix_epoch) [
  | some d ↦ ok (as_secs d)
  | none ↦ err (internal "timestamp before epoch")
]

module _ {A : Type 0} (same_key : A → Bool) (row : A) (rows : List A) where
  -- `INSERT INTO`: a row with the same primary key is a constraint error
  unfoldable pub insert : Result (Unit {0}) × List A
  insert =
      if any same_key rows
      then (err (internal "UNIQUE constraint failed"), rows)
      else (ok tt, rows ++ row ∷ [])

  -- `INSERT OR IGNORE INTO`: the number of rows inserted, and the rows
  unfoldable pub insert_or_ignore : ℕ × List A
  insert_or_ignore = if any same_key rows then (0, rows) else (1, rows ++ row ∷ [])

  -- `INSERT OR REPLACE INTO`
  unfoldable pub insert_or_replace : List A
  insert_or_replace = retain (λ r. not (same_key r)) rows ++ row ∷ []

-- the order of the texts, by their character codes
unfoldable pub text_leb : Text → Text → Bool
text_leb [] b = true
text_leb (x ∷ a) [] = false
text_leb (x ∷ a) (y ∷ b) =
    let rest = text_leb a b in if ltb x y then true else if nat_eq x y then rest else false

-- `ORDER BY serial_number`
unfoldable pub insert_sorted : RevocationRecord → List RevocationRecord → List RevocationRecord
insert_sorted r [] = r ∷ []
insert_sorted r (q ∷ rs) =
    let rest = insert_sorted r rs in
    if text_leb r.serial_number q.serial_number then r ∷ q ∷ rs else q ∷ rest

unfoldable pub sort_revocations : List RevocationRecord → List RevocationRecord
sort_revocations [] = []
sort_revocations (r ∷ rs) = insert_sorted r (sort_revocations rs)

abbrev pub is_expired : ℕ → TokenRow → Bool
is_expired now row = leb row.expires_at now

abbrev pub is_stale : ℕ → CacheRow → Bool
is_stale now row = leb row.expires_at now

-- `DELETE FROM tokens WHERE jti = ?1 AND expires_at <= ?2`
unfoldable pub delete_expired_token : String → ℕ → Database → Result (Unit {0}) × Database
delete_expired_token jti now db = (
  ok tt,
  record db { tokens = retain (λ row. not ((row.jti == jti) && is_expired now row)) db.tokens },
)

-- `INSERT OR IGNORE INTO tokens (jti, expires_at) VALUES (?1, ?2)`
unfoldable pub insert_token : String → ℕ → Database → Result ℕ × Database
insert_token jti expires_at db =
    let (n, rows) =
      insert_or_ignore (λ row. row.jti == jti) (record { jti = jti; expires_at = expires_at })
        db.tokens in
    (ok n, record db { tokens = rows })

unfoldable pub claim_row : String → ℕ → ℕ → Action SqliteStorage (Unit {0})
claim_row jti expires_at now = do
  execute (delete_expired_token jti now)
  inserted ← execute (insert_token jti expires_at)
  if nat_eq inserted 0 then fail (conflict "token already claimed") else pure tt

unfoldable pub claim_token : SystemTime → String → SystemTime → Action SqliteStorage (Unit {0})
claim_token now jti expires_at = do
  expires ← lift (unix_secs expires_at)
  now_secs ← lift (unix_secs now)
  transaction (claim_row jti expires now_secs)

unfoldable pub get_cache : SystemTime → String → Action SqliteStorage (Option Bytes)
get_cache now key = do
  now_secs ← lift (unix_secs now)
  execute (λ db. (
    ok tt,
    record db { cache = retain (λ row. not ((row.key == key) && is_stale now_secs row)) db.cache },
  ))
  execute (λ db. (
    ok (elim (find (λ row. row.key == key) db.cache) [ some row ↦ some row.value | none ↦ none ]),
    db,
  ))

unfoldable pub set_cache : String → Bytes → SystemTime → Action SqliteStorage (Unit {0})
set_cache key value expires_at = do
  expires ← lift (unix_secs expires_at)
  execute (λ db. (
    ok tt,
    record db {
      cache =
          insert_or_replace (λ row. row.key == key)
            (record { key = key; value = value; expires_at = expires }) db.cache;
    },
  ))

unfoldable pub reap_expired : SystemTime → Action SqliteStorage ℕ
reap_expired now = do
  now_secs ← lift (unix_secs now)
  transaction do
    tokens ← execute (λ db. (
      ok (length (retain (is_expired now_secs) db.tokens)),
      record db { tokens = retain (λ row. not (is_expired now_secs row)) db.tokens },
    ))
    cached ← execute (λ db. (
      ok (length (retain (is_stale now_secs) db.cache)),
      record db { cache = retain (λ row. not (is_stale now_secs row)) db.cache },
    ))
    pure (tokens + cached)

unfoldable pub revoke : RevocationRecord → Action SqliteStorage (Unit {0})
revoke record_ = do
  execute (λ db. (
    ok tt,
    record db {
      revocations =
          (insert_or_ignore (λ r. same_bytes r.serial_number record_.serial_number) record_
            db.revocations).1;
    },
  ))

unfoldable pub get_revocation : Text → Action SqliteStorage (Option RevocationRecord)
get_revocation serial =
    execute (λ db. (ok (find (λ r. same_bytes r.serial_number serial) db.revocations), db))

unfoldable pub list_revocations : Action SqliteStorage (List RevocationRecord)
list_revocations = execute (λ db. (ok (sort_revocations db.revocations), db))

unfoldable pub to_row : CertificateRecord → String → CertificateRow
to_row r sans = record {
  serial_number = r.serial_number;
  subject = r.subject;
  sans = sans;
  not_before = r.not_before;
  not_after = r.not_after;
  issued_at = r.issued_at;
  provisioner = r.provisioner;
  operation = r.operation;
  renewable = r.renewable;
  pem = r.pem;
}

module _ (J : Json) where
  unfoldable pub record_certificate : CertificateRecord → Action SqliteStorage (Unit {0})
  record_certificate r = do
    sans ← lift (J.to_string r.sans)
    execute (λ db.
        let (result, rows) =
          insert (λ row. same_bytes row.serial_number r.serial_number) (to_row r sans)
            db.certificates in
        (result, record db { certificates = rows }))

  unfoldable pub row_to_certificate : CertificateRow → Result CertificateRecord
  row_to_certificate row = elim (J.from_str row.sans) [
    | none ↦ err (internal "sqlite get_certificate")
    | some sans ↦ ok (record {
      serial_number = row.serial_number;
      subject = row.subject;
      sans = sans;
      not_before = row.not_before;
      not_after = row.not_after;
      issued_at = row.issued_at;
      provisioner = row.provisioner;
      operation = row.operation;
      renewable = row.renewable;
      pem = row.pem;
    })
  ]

  unfoldable pub read_row : Option CertificateRow → Result (Option CertificateRecord)
  read_row none = ok none
  read_row (some row) = elim (row_to_certificate row) [ ok r ↦ ok (some r) | err e ↦ err e ]

  unfoldable pub get_certificate : Text → Action SqliteStorage (Option CertificateRecord)
  get_certificate serial =
      execute
        (λ db. (read_row (find (λ row. same_bytes row.serial_number serial) db.certificates), db))

  -- `impl Storage for SqliteStorage`
  unfoldable pub sqlite : Storage SqliteStorage
  sqlite = record {
    record_certificate = record_certificate;
    get_certificate = get_certificate;
    revoke = revoke;
    get_revocation = get_revocation;
    list_revocations = list_revocations;
    claim_token = claim_token;
    get_cache = get_cache;
    set_cache = set_cache;
    reap_expired = reap_expired;
  }
