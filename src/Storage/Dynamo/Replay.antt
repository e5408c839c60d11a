-- ===== src/Storage/Dynamo/Replay.antt =====
-- What DynamoDB's claims and revocations promise across later calls, and across the deletions that
-- the table's time to live makes by itself.
use ayane.Base.{
  ℕ, ◌+◌, String, ◌≡◌, ◌≢◌, ◌<◌, ◌≤◌, ◌↔◌, inl, inr, refl, ◌∙◌, subst, Bool, true, false, not, ◌&&◌,
  none, some, List, [], ◌∷◌, arith, retain, find, Bool-cases, Option-cases, All, if◌then◌else◌,
  All-of,
}
use ayane.Error.{ok, err, conflict, Result-cases}
use ayane.Action.{lift, ◌>>=◌, continue, pure, fail}
use ayane.Time.{SystemTime, unix_epoch}
use ayane.Ca.Serial.{Text}
use ayane.Storage.{RevocationRecord, claimed, revoked, secs}
use ayane.Storage.Replay.{Call, step, steps, Within, always}
use ayane.Storage.Dynamo.{
  DynamoDbStorage, Item, Serde, next_outcome, has_key, put_item, as_n, get_attribute, is_due,
  claimable, token_ttl, token_item, claim_token, revoke, get_revocation, read, write,
  read_revocation,
}
use ayane.Storage.Dynamo.Keys.{Key, token_pk, token_type}
use ayane.Storage.Dynamo.Table.{Has}
use ayane.Storage.Dynamo.Paging.{dynamo}
use ayane.Storage.Dynamo.Laws.{
  Due, HoldsIn, claimed-new, claimed-refused, revoked-new, step-HoldsIn, steps-HoldsIn,
}

-- a call of an operation, or a deletion of some of the items that are due at a second
pub data Event : Type 0 where
  request : Call → Event
  sweep : ℕ → (Item → Bool) → Event

abbrev swept : ℕ → (Item → Bool) → Item → Bool
swept now chosen item = is_due (as_n (get_attribute "ttl" item.attributes)) now && chosen item

-- The clocks of the calls and of the deletions are before the second `e`.
abbrev pub Before : String → ℕ → Event → Type 0
Before j e (request c) = Within (claimed j e) c
Before j e (sweep now chosen) = now < e

module _ (J : Serde) where
  unfoldable pub react : Event → DynamoDbStorage → DynamoDbStorage
  react (request c) s = step (dynamo J) c s
  react (sweep now chosen) s = record s { table = retain (λ x. not (swept now chosen x)) s.table }

  unfoldable pub reacts : List Event → DynamoDbStorage → DynamoDbStorage
  reacts [] s = s
  reacts (c ∷ cs) s = reacts cs (react c s)

  retain-Has :
      (key : Key) (P : Item → Type 0) (p : Item → Bool) (table : List Item)
      → ((y : Item) → P y → p y ≡ true)
      → Has key P table
      → Has key P (retain p table)
  retain-Has key P p table k h = record { item = h.item; found = go table h.found; holds = h.holds }
    where
      go :
          (xs : List Item)
          → find (has_key key) xs ≡ some h.item
          → find (has_key key) (retain p xs) ≡ some h.item
      go [] e = cc
      go (x ∷ xs) e = elim (Bool-cases (has_key key x)) [
        | inl q ↦
            let found = rw q at e in
            let same : h.item ≡ x = cc in
            let keep : p x ≡ true = k x (subst P same h.holds) in rw (keep, q) found
        | inr q ↦ elim (Bool-cases (p x)) [
          | inl r ↦ rw (r, q) (go xs (rw q at e))
          | inr r ↦ rw r (go xs (rw q at e))
        ]
      ]

  kept_from_sweep :
      (e now : ℕ) (chosen : Item → Bool) (y : Item)
      → now < e
      → Due e y
      → not (swept now chosen y) ≡ true
  kept_from_sweep e now chosen y lt (n, h, le) = rw h (ground arith)

  react-HoldsIn :
      (j : String) (e : ℕ) (c : Event) (s : DynamoDbStorage)
      → Before j e c
      → HoldsIn J (claimed j e) s.table
      → HoldsIn J (claimed j e) (react c s).table
  unfolding react
  react-HoldsIn j e (request c) s w h = step-HoldsIn J (claimed j e) c s w h
  react-HoldsIn j e (sweep now chosen) s w h =
      retain-Has _ _ _ s.table (λ y. kept_from_sweep e now chosen y w) h

  reacts-HoldsIn :
      (j : String) (e : ℕ) (cs : List Event) (s : DynamoDbStorage)
      → All (Before j e) cs
      → HoldsIn J (claimed j e) s.table
      → HoldsIn J (claimed j e) (reacts cs s).table
  unfolding reacts
  reacts-HoldsIn j e [] s w h = h
  reacts-HoldsIn j e (c ∷ cs) s (w, ws) h =
      reacts-HoldsIn j e cs (react c s) ws (react-HoldsIn j e c s w h)

padded : (t : SystemTime) (ttl : ℕ) → unix_epoch ≤ t → token_ttl t ≡ ok ttl → ttl ≡ secs t + 3_600
unfolding token_ttl
padded t ttl h e = ground arith

-- After a claim of a token id that succeeds, with an expiry from the Unix epoch on, another claim of
-- it is refused until an hour after the expiry, whatever calls of the operations come in between, and
-- whatever of the items that are due the table's time to live deletes, as long as the clocks of
-- those calls and deletions are before that hour's end: an hour longer than the source's comments and
-- docs/storage.md say.
pub claim_padded :
    (J : Serde) (now later : SystemTime) (j : String) (t t' : SystemTime) (s : DynamoDbStorage)
    (events : List Event)
    → unix_epoch ≤ t
    → (claim_token now j t s).0 ≡ ok tt
    → All (Before j (secs t + 3_600)) events
    → secs later < secs t + 3_600
    → (claim_token later j t' (reacts J events (claim_token now j t s).1)).0 ≢ ok tt
claim_padded J now later j t t' s events after h w lt q =
    let held =
      (claimed-new J now j t (secs t + 3_600) s
          λ ttl ht. let e = padded t ttl after ht in omega arith).at
        tt h in
    (claimed-refused J later j (secs t + 3_600) t' _
        (reacts-HoldsIn J j (secs t + 3_600) events _ w held) lt).at
      tt q

padded_ok : (t : SystemTime) → unix_epoch ≤ t → token_ttl t ≡ ok (secs t + 3_600)
unfolding token_ttl
padded_ok t h = ground arith

abbrev token_key : String → Key
token_key j = record { pk = token_pk j; sk = token_type }

healthy_claim :
    (now : SystemTime) (j : String) (t : SystemTime) (table : List Item)
    → unix_epoch ≤ t
    → (claim_token now j t (record { table = table; replica = table; outcomes = [] })).0 ≡ (
        if claimable (secs now) (find (has_key (token_key j)) table)
        then ok tt
        else err (conflict "token already claimed"))
unfolding claim_token write next_outcome put_item token_item ◌>>=◌ continue lift pure fail
healthy_claim now j t table h =
    rw (padded_ok t h)
      (elim (Bool-cases (claimable (secs now) (find (has_key (token_key j)) table))) [
        | inl e ↦ rw e refl
        | inr e ↦ rw e refl
      ])

-- Where the service answers without a failure, a claim with an expiry from the Unix epoch on succeeds
-- exactly when the table has no item of the token id whose time to live is yet to come.
pub claim_iff_due :
    (now : SystemTime) (j : String) (t : SystemTime) (table : List Item)
    → unix_epoch ≤ t
    → ((claim_token now j t (record { table = table; replica = table; outcomes = [] })).0 ≡ ok tt)
      ↔ ¬ Has
          (record { pk = token_pk j; sk = token_type })
          (λ item. is_due (as_n (get_attribute "ttl" item.attributes)) (secs now) ≡ false)
          table
unfolding claimable
claim_iff_due now j t table h = (
  (λ q held.
      let c : claimable (secs now) (find (has_key (token_key j)) table) ≡ false =
        rw held.found held.holds in
      let r = healthy_claim now j t table h in let r' = rw c at r in cc),
  (λ no_claim.
      healthy_claim now j t table h ∙ elim (Option-cases (find (has_key (token_key j)) table)) [
        | inl e ↦ rw e refl
        | inr (item, e) ↦
            elim (Bool-cases (is_due (as_n (get_attribute "ttl" item.attributes)) (secs now))) [
              | inl d ↦ rw (e, d) refl
              | inr d ↦ absurd (no_claim (record { item = item; found = e; holds = d }))
            ]
      ]),
)

found_in_replica :
    (J : Serde) (n : Text) (s : DynamoDbStorage)
    → HoldsIn J (revoked n) s.table
    → (next_outcome s.outcomes).0.synced ≡ true
    → (get_revocation J n s).0 ≢ ok none
unfolding get_revocation read read_revocation
found_in_replica J n s h synced q = elim (Option-cases (next_outcome s.outcomes).0.failure) [
  | inr (m, e) ↦ absurd (ground arith)
  | inl e ↦
      let q' = rw (get_revocation, read, e, synced, h.found) at q in
      elim (Result-cases (J.revocation_from_item h.item.attributes)) [
        | inl (r, f) ↦ let q'' = rw (read_revocation, f) at q' in cc
        | inr (x, f) ↦ let q'' = rw (read_revocation, f) at q' in cc
      ]
]

-- A look-up whose read comes after the replica has caught up finds a revocation that was answered,
-- after any calls of the operations.
pub revocation_found :
    (J : Serde) (r : RevocationRecord) (s : DynamoDbStorage) (calls : List Call)
    → (revoke J r s).0 ≡ ok tt
    → (next_outcome (steps (dynamo J) calls (revoke J r s).1).outcomes).0.synced ≡ true
    → (get_revocation J r.serial_number (steps (dynamo J) calls (revoke J r s).1)).0 ≢ ok none
revocation_found J r s calls h synced q =
    let left = steps (dynamo J) calls (revoke J r s).1 in
    let held =
      steps-HoldsIn J (revoked r.serial_number) calls (revoke J r s).1
        (All-of (Within (revoked r.serial_number)) (always r.serial_number) calls)
        ((revoked-new J r s).at tt h) in
    found_in_replica J r.serial_number left held synced q
