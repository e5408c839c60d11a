-- ===== src/Tests/DynamoStores.antt =====
-- The DynamoDB theorems at small tables, and what its reads may show.
use ayane.Base.{
  pos, ◌==◌, ◌+◌, ◌≡◌, ◌≢◌, ◌↔◌, refl, Bool, true, false, none, some, List, [], ◌∷◌, arith, retain,
}
use ayane.Error.{ok, err, internal}
use ayane.Time.{SystemTime, unix_epoch, from_secs}
use ayane.Storage.{CertificateRecord, RevocationRecord, secs}
use ayane.Storage.Replay.{Call, steps}
use ayane.Storage.Replay
use ayane.Storage.Dynamo.{
  Serde, Item, DynamoDbStorage, text, number, claim_token, revoke, get_revocation,
  record_certificate, get_certificate, next_outcome, write, read, put_item, claimable, token_ttl,
  token_item, read_revocation, read_certificate, first_item, is_due, as_n, get_attribute,
}
use ayane.Storage.Dynamo.Keys.{token_pk, token_type, revocation_pk, revocation_type, certificate_sk}
use ayane.Storage.Dynamo.Table.{Has}
use ayane.Storage.Dynamo.Paging.{
  pages, page_bound, is_revocation, from_items, list_revocations, dynamo,
}
use ayane.Storage.Dynamo.Replay.{
  Event, request, sweep, reacts, claim_padded, claim_iff_due, revocation_found,
}
use ayane.Storage.Dynamo.Listing.{listing_ends, listing_complete}
use ayane.Action

abbrev noon : SystemTime
noon = unix_epoch + from_secs 1000

abbrev issued : CertificateRecord
issued = record {
  serial_number = 0x37 ∷ [];
  subject = "b.example";
  sans = [];
  not_before = "2026-01-01T00:00:00Z";
  not_after = "2026-01-02T00:00:00Z";
  issued_at = "2026-01-01T00:00:00Z";
  provisioner = none;
  operation = "sign";
  renewable = true;
  pem = "pem";
}

abbrev revocation : RevocationRecord
revocation = record {
  serial_number = 0x37 ∷ [];
  reason_code = pos 1;
  reason = none;
  revoked_at = "2026-01-01T00:00:00Z";
  provisioner = none;
}

-- A codec for records with the fixed fields of the two above.
abbrev serde : Serde
serde = record {
  certificate_to_item = λ r. ok (("subject", text r.subject) ∷ []);
  certificate_from_item = λ attributes. elim (get_attribute "subject" attributes) [
    | some (text subject) ↦ ok (record issued { subject = subject })
    | _ ↦ err (internal "subject")
  ];
  revocation_to_item = λ r. ok (("revoked_at", text r.revoked_at) ∷ []);
  revocation_from_item = λ attributes. ok revocation;
  precedes = λ a b. elim a [ certificate_sk cn ↦ cn == "a.example" | _ ↦ false ];
}

-- One request in two is answered from a replica that lags.
abbrev lagging : DynamoDbStorage
lagging = record {
  table = [];
  replica = [];
  outcomes =
      record { failure = none; landed = true; synced = true; page = 0 }
      ∷ record { failure = none; landed = true; synced = false; page = 0 }
      ∷ [];
}

claimed_once : (claim_token noon "jti#a" (noon + from_secs 60) lagging).0 ≡ ok tt
unfolding claim_token token_ttl write next_outcome put_item claimable token_item Action.◌>>=◌
    Action.continue Action.lift Action.pure
claimed_once = refl

abbrev every : Item → Bool
every item = true

-- a reap, a deletion of what is due at the claim's expiry, and a claim of another id
abbrev between : List Event
between =
    request (Replay.reap_expired (noon + from_secs 70))
    ∷ sweep (secs (noon + from_secs 60)) every
    ∷ request (Replay.claim_token (noon + from_secs 80) "jti#b" (noon + from_secs 90))
    ∷ []

claim_padded_example :
    (claim_token
      (noon + from_secs 3_000)
      "jti#a"
      (noon + from_secs 9_000)
      (reacts serde between (claim_token noon "jti#a" (noon + from_secs 60) lagging).1)).0
    ≢ ok tt
claim_padded_example =
    claim_padded serde noon (noon + from_secs 3_000) "jti#a" (noon + from_secs 60)
      (noon + from_secs 9_000) lagging between (omega arith) claimed_once
      (omega arith, (omega arith, (omega arith, tt))) (omega arith)

abbrev tokens : List Item
tokens =
    record {
      key = record { pk = token_pk "jti#a"; sk = token_type };
      attributes = ("ttl", number 900) ∷ [];
    }
    ∷ []

claim_iff_due_example :
    ((claim_token noon "jti#a"
        (noon + from_secs 60)
        (record { table = tokens; replica = tokens; outcomes = [] })).0
      ≡ ok tt)
    ↔ ¬ Has
        (record { pk = token_pk "jti#a"; sk = token_type })
        (λ item. is_due (as_n (get_attribute "ttl" item.attributes)) (secs noon) ≡ false)
        tokens
claim_iff_due_example = claim_iff_due noon "jti#a" (noon + from_secs 60) tokens (omega arith)

-- The expired claim of the id is overwritten.
reclaimed :
    (claim_token noon "jti#a"
      (noon + from_secs 60)
      (record { table = tokens; replica = tokens; outcomes = [] })).0
    ≡ ok tt
unfolding claim_token token_ttl write next_outcome put_item claimable token_item Action.◌>>=◌
    Action.continue Action.lift Action.pure
reclaimed = refl

abbrev calls : List Call
calls = Replay.get_revocation (0x37 ∷ []) ∷ []

revoked_once : (revoke serde revocation lagging).0 ≡ ok tt
unfolding revoke write next_outcome put_item Action.◌>>=◌ Action.continue Action.lift Action.pure
revoked_once = refl

caught_up :
    (next_outcome
      (steps (dynamo serde) calls (revoke serde revocation lagging).1).outcomes).0.synced
    ≡ true
unfolding revoke get_revocation read_revocation read write next_outcome put_item steps Replay.step
    dynamo Action.◌>>=◌ Action.continue Action.lift Action.pure
caught_up = refl

revocation_found_example :
    (get_revocation serde
      (0x37 ∷ [])
      (steps (dynamo serde) calls (revoke serde revocation lagging).1)).0
    ≢ ok none
revocation_found_example = revocation_found serde revocation lagging calls revoked_once caught_up

-- A look-up just after a revocation was answered finds none, on a replica that lags.
stale_look_up : (get_revocation serde (0x37 ∷ []) (revoke serde revocation lagging).1).0 ≡ ok none
unfolding revoke get_revocation read_revocation read write next_outcome put_item Action.◌>>=◌
    Action.continue Action.lift Action.pure
stale_look_up = refl

-- Two certificates of one serial number and different subjects are both recorded, and a look-up
-- gives the one whose subject comes first.
abbrev both : DynamoDbStorage
both = record { table = []; replica = []; outcomes = [] }

abbrev other : CertificateRecord
other = record issued { subject = "a.example" }

second_recorded :
    (record_certificate serde other (record_certificate serde issued both).1).0 ≡ ok tt
unfolding record_certificate write next_outcome put_item Action.◌>>=◌ Action.continue Action.lift
    Action.pure
second_recorded = refl

second_found :
    (get_certificate serde
      (0x37 ∷ [])
      (record_certificate serde other (record_certificate serde issued both).1).1).0
    ≡ ok (some other)
unfolding record_certificate get_certificate read_certificate first_item read write next_outcome
    put_item Action.◌>>=◌ Action.continue Action.lift Action.pure
second_found = refl

-- Two revocations, in pages of one.
abbrev listed : DynamoDbStorage
listed = record { table = items; replica = items; outcomes = [] }
  where
    items : List Item
    items =
        record {
          key = record { pk = revocation_pk (0x37 ∷ []); sk = revocation_type };
          attributes = [];
        }
        ∷ record {
          key = record { pk = revocation_pk (0x38 ∷ []); sk = revocation_type };
          attributes = [];
        }
        ∷ []

listing_ends_example : (pages serde (page_bound serde listed) 0 [] listed).0 ≢ ok none
listing_ends_example = listing_ends serde listed

listing_complete_example :
    (list_revocations serde listed).0 ≡ from_items serde (retain is_revocation listed.table)
listing_complete_example = listing_complete serde listed (record { answers = tt; caught_up = refl })
