-- ===== src/Storage/Sqlite/Laws.antt =====
-- SQLite keeps the contract of a storage backend.
use ayane.Base.{
  ℕ, String, ◌≡◌, ◌≢◌, ◌<◌, ◌≤◌, inl, inr, refl, sym, ap, ◌∙◌, subst, Bool, true, false, not,
  Option, none, some, List, [], ◌∷◌, ◌++◌, arith, any, Any-retain, retain, find, Bool-cases,
}
use ayane.Error.{ok, ok-injective}
use ayane.Action.{Keeps, Keeps-bind, Keeps-pure, Keeps-lift-bind, lift-eq-ok}
use ayane.Time.{SystemTime}
use ayane.San.{Bytes, same_bytes, same_bytes_self}
use ayane.Ca.Serial.{Text}
use ayane.Storage.{
  CertificateRecord, RevocationRecord, IsStorage, IsConsistent, Fact, claimed, revoked, recorded,
  Outlives,
}
use ayane.Storage.Sqlite.{
  Json, SqliteStorage, CacheRow, delete_expired_token, insert_token, Database, TokenRow,
  CertificateRow, execute, claim_token, get_cache, set_cache, reap_expired, revoke, get_revocation,
  list_revocations, record_certificate, get_certificate, row_to_certificate, read_row, to_row,
  insert, insert_or_ignore, sqlite, is_expired,
}
use ayane.Storage.Sqlite.Claims.{
  Claimed, claim-Claimed, claim_token-Keeps, Keeps-execute, Keeps-transaction, execute-eq-ok,
  unix_secs-eq,
}
use ayane.Storage.Sqlite.Claims

-- The texts that serde_json writes are read back.
abbrev pub IsCodec : Json → Type 0
IsCodec J =
    (sans : List String) (text : String) → J.to_string sans ≡ ok text → J.from_str text ≡ some sans

abbrev same_serial : Text → CertificateRow → Bool
same_serial n row = same_bytes row.serial_number n

abbrev same_revocation : Text → RevocationRecord → Bool
same_revocation n r = same_bytes r.serial_number n

find-append :
    {A : Type 0} (p : A → Bool) (x : A) (xs ys : List A)
    → find p xs ≡ some x
    → find p (xs ++ ys) ≡ some x
find-append p x [] ys h = cc
find-append p x (y ∷ xs) ys h = elim (Bool-cases (p y)) [
  | inl e ↦ rw e (rw e at h)
  | inr e ↦ rw e (find-append p x xs ys (rw e at h))
]

find_last :
    {A : Type 0} (p : A → Bool) (x : A) (xs : List A)
    → any p xs ≡ false
    → p x ≡ true
    → find p (xs ++ x ∷ []) ≡ some x
find_last p x [] h e = rw e refl
find_last p x (y ∷ xs) h e = elim (Bool-cases (p y)) [
  | inl q ↦ absurd (ground arith)
  | inr q ↦ rw q (find_last p x xs (rw q at h) e)
]

module _ (J : Json) where
  abbrev pub HoldsIn : Fact → Database → Type 0
  HoldsIn (claimed j e) db = Claimed j e db
  HoldsIn (revoked n) db = any (same_revocation n) db.revocations ≡ true
  HoldsIn (recorded r) db =
      (text : String) × (J.to_string r.sans ≡ ok text)
      × (find (same_serial r.serial_number) db.certificates ≡ some (to_row r text))

  -- The cache is apart from the facts, and the tokens are from all but the claims.
  frame_cache :
      (f : Fact) (db : Database) (rows : List CacheRow)
      → HoldsIn f db
      → HoldsIn f (record db { cache = rows })
  frame_cache (claimed j e) db rows h = h
  frame_cache (revoked n) db rows h = h
  frame_cache (recorded r) db rows h = h

  record-Keeps :
      (f : Fact) (r : CertificateRecord)
      → Keeps (λ s. HoldsIn f s.database) (record_certificate J r)
  unfolding record_certificate insert
  record-Keeps f r =
      Keeps-lift-bind _ _ λ sans _. Keeps-execute (HoldsIn f) _ λ db h. go f sans db h
    where
      go :
          (f : Fact) (sans : String) (db : Database)
          → HoldsIn f db
          → HoldsIn f (record db {
            certificates = (insert (same_serial r.serial_number) (to_row r sans) db.certificates).1;
          })
      go (claimed j e) sans db h = h
      go (revoked n) sans db h = h
      go (recorded r') sans db (text, c, h) = (
        text,
        c,
        elim (Bool-cases (any (same_serial r.serial_number) db.certificates)) [
          | inl e ↦ rw e h
          | inr e ↦ rw e (find-append _ _ db.certificates _ h)
        ],
      )

  any-append :
      {A : Type 0} (p : A → Bool) (xs ys : List A) → any p xs ≡ true → any p (xs ++ ys) ≡ true
  any-append p [] ys h = cc
  any-append p (x ∷ xs) ys h = ground (arith, any-append p xs ys)

  revoke-Keeps : (f : Fact) (r : RevocationRecord) → Keeps (λ s. HoldsIn f s.database) (revoke r)
  unfolding revoke insert_or_ignore
  revoke-Keeps f r = Keeps-execute (HoldsIn f) _ λ db h. go f db h
    where
      go :
          (f : Fact) (db : Database)
          → HoldsIn f db
          → HoldsIn f (record db {
            revocations = (insert_or_ignore (same_revocation r.serial_number) r db.revocations).1;
          })
      go (claimed j e) db h = h
      go (recorded n) db h = h
      go (revoked n) db h =
          elim (Bool-cases (any (same_revocation r.serial_number) db.revocations)) [
            | inl e ↦ rw e h
            | inr e ↦ rw e (any-append _ db.revocations _ h)
          ]

  claim-Keeps :
      (f : Fact) (now : SystemTime) (j : String) (t : SystemTime)
      → Outlives f now
      → Keeps (λ s. HoldsIn f s.database) (claim_token now j t)
  unfolding delete_expired_token insert_token
  claim-Keeps (claimed j' e) now j t lt = claim-Claimed j' e now j t lt
  claim-Keeps (revoked n) now j t lt =
      claim_token-Keeps (HoldsIn (revoked n)) now j t (λ db h. h) (λ e db h. h)
  claim-Keeps (recorded r) now j t lt =
      claim_token-Keeps (HoldsIn (recorded r)) now j t (λ db h. h) (λ e db h. h)

  get_cache-Keeps :
      (f : Fact) (now : SystemTime) (key : String)
      → Keeps (λ s. HoldsIn f s.database) (get_cache now key)
  unfolding get_cache
  get_cache-Keeps f now key = Keeps-lift-bind _ _ λ now_secs _.
      Keeps-bind _ _ (Keeps-execute (HoldsIn f) _ λ db h. frame_cache f db _ h)
        λ _. Keeps-execute (HoldsIn f) _ λ db h. h

  set_cache-Keeps :
      (f : Fact) (key : String) (v : Bytes) (t : SystemTime)
      → Keeps (λ s. HoldsIn f s.database) (set_cache key v t)
  unfolding set_cache
  set_cache-Keeps f key v t =
      Keeps-lift-bind _ _ λ expires _. Keeps-execute (HoldsIn f) _ λ db h. frame_cache f db _ h

  unexpired :
      (f : Fact) (now : ℕ) (db : Database)
      → ((j : String) (e : ℕ) → f ≡ claimed j e → now < e)
      → HoldsIn f db
      → HoldsIn f (record db { tokens = retain (λ row. not (is_expired now row)) db.tokens })
  unexpired (claimed j e) now db lt h =
      Any-retain _ _ db.tokens (λ row (q, le). fresh row le (lt j e refl)) h
    where
      fresh : (row : TokenRow) → e ≤ row.expires_at → now < e → not (is_expired now row) ≡ true
      fresh row le lt = ground arith
  unexpired (revoked n) now db lt h = h
  unexpired (recorded r) now db lt h = h

  reap-Keeps :
      (f : Fact) (now : SystemTime)
      → Outlives f now
      → Keeps (λ s. HoldsIn f s.database) (reap_expired now)
  unfolding reap_expired
  reap-Keeps f now lt = Keeps-lift-bind _ _ λ now_secs hn. Keeps-transaction (HoldsIn f) _ (
      Keeps-bind _ _
        (Keeps-execute (HoldsIn f) _ λ db h.
          unexpired f now_secs db
            (λ j e q.
              subst (λ n. n < e) (sym (unix_secs-eq now now_secs hn))
                (subst (λ g. Outlives g now) q lt))
            h)
        λ _.
          Keeps-bind _ _ (Keeps-execute (HoldsIn f) _ λ db h. frame_cache f db _ h)
            λ _. Keeps-pure _)

  any_last :
      {A : Type 0} (p : A → Bool) (xs : List A) (x : A) → p x ≡ true → any p (xs ++ x ∷ []) ≡ true
  any_last p [] x h = rw h refl
  any_last p (y ∷ xs) x h = ground (arith, any_last p xs x h)

  revoke-revoked :
      (r : RevocationRecord) (s : SqliteStorage)
      → (revoke r s).0 ≡ ok tt
      → HoldsIn (revoked r.serial_number) (revoke r s).1.database
  unfolding revoke insert_or_ignore
  revoke-revoked r s h =
      let (_, db) = execute-eq-ok _ s h in
      subst (HoldsIn (revoked r.serial_number)) (sym db)
        (elim (Bool-cases (any (same_revocation r.serial_number) s.database.revocations)) [
          | inl e ↦ rw e e
          | inr e ↦ rw e (any_last _ s.database.revocations r (same_bytes_self r.serial_number))
        ])

  find_of_any : {A : Type 0} (p : A → Bool) (xs : List A) → any p xs ≡ true → find p xs ≢ none
  find_of_any p [] h = cc
  find_of_any p (x ∷ xs) h = ground (arith, find_of_any p xs)

  revoked-get :
      (n : Text) (s : SqliteStorage)
      → HoldsIn (revoked n) s.database
      → (get_revocation n s).0 ≢ ok none
  unfolding get_revocation
  revoked-get n s h e =
      let (q, _) = execute-eq-ok _ s e in find_of_any _ s.database.revocations h (ok-injective q)

  insert-find :
      {A : Type 0} (p : A → Bool) (row : A) (rows : List A)
      → (insert p row rows).0 ≡ ok tt
      → p row ≡ true
      → find p (insert p row rows).1 ≡ some row
  unfolding insert
  insert-find p row rows h e = elim (Bool-cases (any p rows)) [
    | inl q ↦ absurd (ground arith)
    | inr q ↦ rw q (find_last p row rows q e)
  ]

  same_row :
      (r : CertificateRecord) (text : String) → same_serial r.serial_number (to_row r text) ≡ true
  unfolding to_row
  same_row r text = same_bytes_self r.serial_number

  record-recorded :
      (r : CertificateRecord) (s : SqliteStorage)
      → (record_certificate J r s).0 ≡ ok tt
      → HoldsIn (recorded r) (record_certificate J r s).1.database
  unfolding record_certificate
  record-recorded r s h =
      let (text, ht, e) = lift-eq-ok (J.to_string r.sans) _ s h in
      let (done, db) = execute-eq-ok _ s (sym (ap (λ o. o.0) e) ∙ h) in
      subst (HoldsIn (recorded r)) (sym (ap (λ o. o.1.database) e ∙ db))
        (text, ht, insert-find _ (to_row r text) s.database.certificates done (same_row r text))

  pub sqlite_contract : IsStorage (sqlite J)
  unfolding sqlite execute get_certificate get_revocation list_revocations
  sqlite_contract = record {
    Holds = λ f s. HoldsIn f s.database;
    claim-claimed = Claims.claimed;
    claimed-claim = Claims.refused;
    revoke-revoked = revoke-revoked;
    record-recorded = record-recorded;
    keeps_record = record-Keeps;
    keeps_get_certificate = λ f n. Keeps-execute (HoldsIn f) _ λ db h. h;
    keeps_revoke = revoke-Keeps;
    keeps_get_revocation = λ f n. Keeps-execute (HoldsIn f) _ λ db h. h;
    keeps_list = λ f. Keeps-execute (HoldsIn f) _ λ db h. h;
    keeps_claim = claim-Keeps;
    keeps_get_cache = get_cache-Keeps;
    keeps_set_cache = set_cache-Keeps;
    keeps_reap = reap-Keeps;
  }

  module _ (codec : IsCodec J) where
    read-back :
        (r : CertificateRecord) (text : String)
        → J.to_string r.sans ≡ ok text
        → read_row J (some (to_row r text)) ≡ ok (some r)
    unfolding read_row row_to_certificate to_row
    read-back r text h = rw (read_row, row_to_certificate, codec r.sans text h) refl

    recorded-get :
        (r : CertificateRecord) (s : SqliteStorage) {o : Option CertificateRecord}
        → HoldsIn (recorded r) s.database
        → (get_certificate J r.serial_number s).0 ≡ ok o
        → o ≡ some r
    unfolding get_certificate
    recorded-get r s (text, ht, found) h =
        let (q, _) = execute-eq-ok _ s h in
        ok-injective (sym q ∙ ap (read_row J) found ∙ read-back r text ht)

    pub sqlite_contract-IsConsistent : IsConsistent sqlite_contract
    unfolding sqlite sqlite_contract
    sqlite_contract-IsConsistent = record {
      revoked-get = revoked-get;
      recorded-get = λ r s h e. recorded-get r s h e;
    }
