-- ===== src/Storage/Dynamo.antt =====
-- ayane/src/storage/dynamodb.rs: the DynamoDB backend, one table under the composite key (pk, sk).
-- Each request to the service is written out as what it does to the table.
pub mod Keys
pub mod Table
pub mod Laws
pub mod Paging
pub mod Replay
pub mod Listing
use ayane.Base.{
  ℕ, String, Bool, true, false, not, ◌&&◌, ◌+◌, Option, none, some, List, [], ◌∷◌, ◌++◌, ◌==◌, find,
  retain, leb, if◌then◌else◌, map,
}
use ayane.Error.{Error, Result, ok, err, internal, conflict}
use ayane.Action.{Action, pure, fail, lift, ◌>>=◌, ◌>>◌}
use ayane.Time.{SystemTime, duration_since, unix_epoch, as_secs, Duration, from_secs}
use ayane.San.{Bytes}
use ayane.Ca.Serial.{Text}
use ayane.Storage.{CertificateRecord, RevocationRecord, Storage, secs}
use ayane.Storage.Dynamo.Keys.{
  Key, PartitionKey, certificate_pk, revocation_pk, token_pk, cache_pk, SortKey, certificate_sk,
  revocation_type, token_type, cache_type, same_key, same_pk, is_certificate_sk, is_revocation_type,
}

abbrev pub ttl_buffer : Duration
ttl_buffer = from_secs 3_600

-- `aws_sdk_dynamodb::types::AttributeValue`, a number as the number that it is the text of
pub data AttributeValue : Type 0 where
  text : String → AttributeValue
  number : ℕ → AttributeValue
  binary : Bytes → AttributeValue

-- the attributes of an item but its key, by name
abbrev pub Attributes : Type 0
Attributes = List (String × AttributeValue)

pub record Item : Type 0 where
  pub key : Key
  pub attributes : Attributes

-- How the service answers a request: `failure` is an error, before which a write has been applied
-- if it `landed`; a read comes after the replica has caught up if it is `synced`; `page` more
-- items than one fit into the page of a query.
pub record Outcome : Type 0 where
  pub failure : Option String
  pub landed : Bool
  pub synced : Bool
  pub page : ℕ

-- The table, the state of it that the reads see, which are eventually consistent, and how the
-- requests to come fare; one past the end of the list does well.
pub record DynamoDbStorage : Type 0 where
  pub table : List Item
  pub replica : List Item
  pub outcomes : List Outcome

-- serde_dynamo on the two records, and the order of the sort keys of certificates
pub record Serde : Type 0 where
  pub certificate_to_item : CertificateRecord → Result Attributes
  pub certificate_from_item : Attributes → Result CertificateRecord
  pub revocation_to_item : RevocationRecord → Result Attributes
  pub revocation_from_item : Attributes → Result RevocationRecord
  pub precedes : SortKey → SortKey → Bool

unfoldable pub next_outcome : List Outcome → Outcome × List Outcome
next_outcome [] = (record { failure = none; landed = true; synced = true; page = 0 }, [])
next_outcome (o ∷ outcomes) = (o, outcomes)

-- a write, which gives what the condition evaluated to
unfoldable pub write : (List Item → Bool × List Item) → Action DynamoDbStorage Bool
unfolding next_outcome
write put s =
    let (o, outcomes) = next_outcome s.outcomes in
    elim o.failure [
      | none ↦ (ok (put s.table).0, record s { table = (put s.table).1; outcomes = outcomes })
      | some e ↦ (
        err (internal e),
        record s { table = if o.landed then (put s.table).1 else s.table; outcomes = outcomes },
      )
    ]

-- a read, on the replica
unfoldable pub read : {A : Type 0} → (ℕ → List Item → Result A) → Action DynamoDbStorage A
unfolding next_outcome
read query s =
    let (o, outcomes) = next_outcome s.outcomes in
    let seen = if o.synced then s.table else s.replica in
    elim o.failure [
      | none ↦ (query o.page seen, record s { replica = seen; outcomes = outcomes })
      | some e ↦ (err (internal e), record s { replica = seen; outcomes = outcomes })
    ]

abbrev pub has_key : Key → Item → Bool
has_key key item = same_key key item.key

-- `PutItem` with a condition on the item that has the key
unfoldable pub put_item : (Option Item → Bool) → Item → List Item → Bool × List Item
put_item condition item table =
    if condition (find (has_key item.key) table)
    then (true, retain (λ x. not (has_key item.key x)) table ++ item ∷ [])
    else (false, table)

-- `attribute_not_exists(pk)`
abbrev pub not_exists : Option Item → Bool
not_exists none = true
not_exists (some item) = false

abbrev pub always_put : Option Item → Bool
always_put existing = true

abbrev pub get_attribute : String → Attributes → Option AttributeValue
get_attribute name [] = none
get_attribute name ((n, v) ∷ attributes) =
    let rest = get_attribute name attributes in if n == name then some v else rest

-- the number that an attribute is: `as_n` and `parse`
abbrev pub as_n : Option AttributeValue → Option ℕ
as_n (some (number n)) = some n
as_n _ = none

abbrev pub is_due : Option ℕ → ℕ → Bool
is_due none now = false
is_due (some ttl) now = leb ttl now

-- `attribute_not_exists(pk) OR #ttl <= :now`
unfoldable pub claimable : ℕ → Option Item → Bool
claimable now none = true
claimable now (some item) = is_due (as_n (get_attribute "ttl" item.attributes)) now

unfoldable pub token_ttl : SystemTime → Result ℕ
token_ttl expires_at = elim (duration_since (expires_at + ttl_buffer) unix_epoch) [
  | some d ↦ ok (as_secs d)
  | none ↦ err (internal "expiry before epoch")
]

unfoldable pub token_item : String → ℕ → Item
token_item jti ttl = record {
  key = record { pk = token_pk jti; sk = token_type };
  attributes = ("ttl", number ttl) ∷ [];
}

-- The clock before the epoch reads as 0.
unfoldable pub claim_token : SystemTime → String → SystemTime → Action DynamoDbStorage (Unit {0})
claim_token now jti expires_at = do
  ttl ← lift (token_ttl expires_at)
  put ← write (put_item (claimable (secs now)) (token_item jti ttl))
  if put then pure tt else fail (conflict "token already claimed")

-- `exp` decides; an item without a readable `exp` has expired.
unfoldable pub is_expired : Attributes → ℕ → Bool
is_expired attributes now = elim (as_n (get_attribute "exp" attributes)) [
  | some exp ↦ leb exp now
  | none ↦ true
]

unfoldable pub cache_value : Attributes → Result (Option Bytes)
cache_value attributes = elim (get_attribute "value" attributes) [
  | some (binary blob) ↦ ok (some blob)
  | _ ↦ err (internal "missing or non-binary value attribute")
]

unfoldable pub epoch_secs : SystemTime → Result ℕ
epoch_secs t = elim (duration_since t unix_epoch) [
  | some d ↦ ok (as_secs d)
  | none ↦ err (internal "before epoch")
]

unfoldable pub read_cache : SystemTime → Option Item → Result (Option Bytes)
read_cache now none = ok none
read_cache now (some item) = elim (epoch_secs now) [
  | err e ↦ err e
  | ok n ↦ if is_expired item.attributes n then ok none else cache_value item.attributes
]

unfoldable pub get_cache : SystemTime → String → Action DynamoDbStorage (Option Bytes)
get_cache now key = read λ page seen.
    read_cache now (find (has_key (record { pk = cache_pk key; sk = cache_type })) seen)

unfoldable pub cache_item : String → Bytes → ℕ → Item
cache_item key value exp = record {
  key = record { pk = cache_pk key; sk = cache_type };
  attributes =
      ("value", binary value)
      ∷ ("exp", number exp)
      ∷ ("ttl", number (exp + as_secs ttl_buffer))
      ∷ [];
}

-- Last writer wins.
unfoldable pub set_cache : String → Bytes → SystemTime → Action DynamoDbStorage (Unit {0})
set_cache key value expires_at = do
  exp ← lift (epoch_secs expires_at)
  write (put_item always_put (cache_item key value exp))
  pure tt

-- DynamoDB reaps by itself.
unfoldable pub reap_expired : SystemTime → Action DynamoDbStorage ℕ
reap_expired now = pure 0

module _ (J : Serde) where
  unfoldable pub record_certificate : CertificateRecord → Action DynamoDbStorage (Unit {0})
  record_certificate r = do
    attributes ← lift (J.certificate_to_item r)
    put ← write (
        put_item not_exists (record {
          key = record { pk = certificate_pk r.serial_number; sk = certificate_sk r.subject };
          attributes = attributes;
        }))
    if put then pure tt else fail (internal "ConditionalCheckFailedException")

  -- the first item by its sort key
  unfoldable pub first_item : List Item → Option Item
  first_item [] = none
  first_item (x ∷ xs) = elim (first_item xs) [
    | none ↦ some x
    | some y ↦ if J.precedes y.key.sk x.key.sk then some y else some x
  ]

  -- `#pk = :pk AND begins_with(#sk, "cn:")`
  abbrev pub in_partition : Text → Item → Bool
  in_partition serial item =
      same_pk (certificate_pk serial) item.key.pk && is_certificate_sk item.key.sk

  unfoldable pub read_certificate : Option Item → Result (Option CertificateRecord)
  read_certificate none = ok none
  read_certificate (some item) = elim (J.certificate_from_item item.attributes) [
    | ok r ↦ ok (some r)
    | err e ↦ err e
  ]

  -- a query with `limit(1)`
  unfoldable pub get_certificate : Text → Action DynamoDbStorage (Option CertificateRecord)
  get_certificate serial =
      read λ page seen. read_certificate (first_item (retain (in_partition serial) seen))

  -- An existing revocation keeps its record, and is a success.
  unfoldable pub revoke : RevocationRecord → Action DynamoDbStorage (Unit {0})
  revoke r = do
    attributes ← lift (J.revocation_to_item r)
    write (
        put_item not_exists (record {
          key = record { pk = revocation_pk r.serial_number; sk = revocation_type };
          attributes = attributes;
        }))
    pure tt

  unfoldable pub read_revocation : Option Item → Result (Option RevocationRecord)
  read_revocation none = ok none
  read_revocation (some item) = elim (J.revocation_from_item item.attributes) [
    | ok r ↦ ok (some r)
    | err e ↦ err e
  ]

  unfoldable pub get_revocation : Text → Action DynamoDbStorage (Option RevocationRecord)
  get_revocation serial = read λ page seen.
      read_revocation
        (find (has_key (record { pk = revocation_pk serial; sk = revocation_type })) seen)
