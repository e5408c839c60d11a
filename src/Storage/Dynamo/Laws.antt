-- ===== src/Storage/Dynamo/Laws.antt =====
-- DynamoDB keeps what a backend promises of its writes.
use ayane.Base.{
  ℕ, zero, suc, String, ◌≡◌, ◌<◌, ◌≤◌, inl, inr, refl, sym, ◌∙◌, subst, Bool, false, some, List, [],
  ◌++◌, arith, Bool-cases, Option-cases, All,
}
use ayane.Error.{Result, ok, ok-injective}
use ayane.Action.{
  Keeps, Keeps-bind, Keeps-pure, Keeps-fail, Keeps-lift-bind, Yields, Yields-bind, Yields-lift-bind,
  Yields-pure, Yields-fail,
}
use ayane.Time.{SystemTime}
use ayane.San.{Bytes}
use ayane.Storage.{
  CertificateRecord, RevocationRecord, IsStorage, Fact, claimed, revoked, recorded, Outlives, secs,
}
use ayane.Storage.Replay.{Call, step, steps, Within, step-Holds, steps-Holds}
use ayane.Storage.Dynamo.{
  DynamoDbStorage, Item, Serde, next_outcome, write, read, put_item, not_exists, as_n,
  get_attribute, claimable, token_ttl, token_item, claim_token, set_cache, get_cache, cache_item,
  reap_expired, record_certificate, revoke, get_revocation, get_certificate,
}
use ayane.Storage.Dynamo.Keys.{
  Key, certificate_pk, revocation_pk, token_pk, certificate_sk, revocation_type, token_type,
  cache_type, cache_pk,
}
use ayane.Storage.Dynamo.Table.{Has, put-Has, put-Has_new, put-Has_some}
use ayane.Storage.Dynamo.Paging.{pages, list_revocations, dynamo}

-- What a put keeps of the table, a write keeps on a connection, whether its answer arrives or not.
pub Keeps-write :
    (P : List Item → Type 0) (put : List Item → Bool × List Item)
    → ((table : List Item) → P table → P (put table).1)
    → Keeps (λ s. P s.table) (write put)
unfolding write
Keeps-write P put h = record {
  after = λ s p. elim (Option-cases (next_outcome s.outcomes).0.failure) [
    | inl e ↦ rw (write, e) (h s.table p)
    | inr (m, e) ↦
        rw (write, e)
          (elim (Bool-cases (next_outcome s.outcomes).0.landed) [
            | inl l ↦ rw l (h s.table p)
            | inr l ↦ rw l p
          ])
  ];
}

pub Keeps-read :
    {A : Type 0} (P : List Item → Type 0) (query : ℕ → List Item → Result A)
    → Keeps (λ s. P s.table) (read query)
unfolding read
Keeps-read P query = record {
  after = λ s p. elim (Option-cases (next_outcome s.outcomes).0.failure) [
    | inl e ↦ rw (read, e) p
    | inr (m, e) ↦ rw (read, e) p
  ];
}

write-eq-ok :
    (put : List Item → Bool × List Item) (s : DynamoDbStorage) {b : Bool}
    → (write put s).0 ≡ ok b
    → ((put s.table).0 ≡ b) × ((write put s).1.table ≡ (put s.table).1)
unfolding write
write-eq-ok put s h = elim (Option-cases (next_outcome s.outcomes).0.failure) [
  | inl e ↦ (ok-injective (rw (write, e) at h), rw (write, e) refl)
  | inr (m, e) ↦ absurd (ground arith)
]

-- An item's number under `ttl` is the second `e` at least.
abbrev pub Due : ℕ → Item → Type 0
Due e item = (n : ℕ) × (as_n (get_attribute "ttl" item.attributes) ≡ some n) × (e ≤ n)

module _ (J : Serde) where
  abbrev key_of : Fact → Key
  key_of (claimed j e) = record { pk = token_pk j; sk = token_type }
  key_of (revoked n) = record { pk = revocation_pk n; sk = revocation_type }
  key_of (recorded r) = record {
    pk = certificate_pk r.serial_number;
    sk = certificate_sk r.subject;
  }

  abbrev Bears : Fact → Item → Type 0
  Bears (claimed j e) item = Due e item
  Bears (revoked n) item = Unit
  Bears (recorded r) item = J.certificate_to_item r ≡ ok item.attributes

  -- The table bears the fact out.
  abbrev pub HoldsIn : Fact → List Item → Type 0
  HoldsIn f table = Has (key_of f) (Bears f) table

  -- A put whose condition refuses an existing item keeps every fact.
  keeps_new :
      (f : Fact) (x : Item) (table : List Item)
      → HoldsIn f table
      → HoldsIn f (put_item not_exists x table).1
  keeps_new f x table h = put-Has (key_of f) (Bears f) not_exists x table (λ q y p. refl) h

  record-Keeps :
      (f : Fact) (r : CertificateRecord) → Keeps (λ s. HoldsIn f s.table) (record_certificate J r)
  unfolding record_certificate
  record-Keeps f r = Keeps-lift-bind _ _ λ attributes _.
      Keeps-bind _ _ (Keeps-write (HoldsIn f) _ λ table h. keeps_new f _ table h)
        λ put. elim (Bool-cases put) [ inl e ↦ rw e (Keeps-pure _) | inr e ↦ rw e (Keeps-fail _) ]

  revoke-Keeps : (f : Fact) (r : RevocationRecord) → Keeps (λ s. HoldsIn f s.table) (revoke J r)
  unfolding revoke
  revoke-Keeps f r = Keeps-lift-bind _ _ λ attributes _.
      Keeps-bind _ _ (Keeps-write (HoldsIn f) _ λ table h. keeps_new f _ table h)
        λ put. Keeps-pure _

  no_token :
      (f : Fact) (j : String) (now : SystemTime) (y : Item)
      → Outlives f now
      → key_of f ≡ record { pk = token_pk j; sk = token_type }
      → Bears f y
      → claimable (secs now) (some y) ≡ false
  unfolding claimable
  no_token (claimed j' e) j now y lt q (n, h, le) = rw h (ground arith)
  no_token (revoked n) j now y lt q p = cc
  no_token (recorded r) j now y lt q p = cc

  no_cache :
      (f : Fact) (key : String) (A : Type 0)
      → key_of f ≡ record { pk = cache_pk key; sk = cache_type }
      → A
  no_cache (claimed j' e) key A q = cc
  no_cache (revoked n) key A q = cc
  no_cache (recorded r) key A q = cc

  claim-Keeps :
      (f : Fact) (now : SystemTime) (j : String) (t : SystemTime)
      → Outlives f now
      → Keeps (λ s. HoldsIn f s.table) (claim_token now j t)
  unfolding claim_token token_item
  claim-Keeps f now j t lt = Keeps-lift-bind _ _ λ ttl _.
      Keeps-bind _ _
        (Keeps-write (HoldsIn f) _
          λ table h. put-Has (key_of f) (Bears f) _ _ table (λ q y p. no_token f j now y lt q p) h)
        λ put. elim (Bool-cases put) [ inl e ↦ rw e (Keeps-pure _) | inr e ↦ rw e (Keeps-fail _) ]

  set_cache-Keeps :
      (f : Fact) (key : String) (v : Bytes) (t : SystemTime)
      → Keeps (λ s. HoldsIn f s.table) (set_cache key v t)
  unfolding set_cache cache_item
  set_cache-Keeps f key v t = Keeps-lift-bind _ _ λ exp _.
      Keeps-bind _ _
        (Keeps-write (HoldsIn f) _
          λ table h. put-Has (key_of f) (Bears f) _ _ table (λ q y p. no_cache f key _ q) h)
        λ put. Keeps-pure _

  pages-Keeps :
      (f : Fact) (fuel start : ℕ) (out : List RevocationRecord)
      → Keeps (λ s. HoldsIn f s.table) (pages J fuel start out)
  unfolding pages
  pages-Keeps f zero start out = Keeps-pure _
  pages-Keeps f (suc fuel) start out = Keeps-bind _ _ (Keeps-read (HoldsIn f) _) λ response.
      Keeps-lift-bind _ _ λ page _. elim (Option-cases response.1) [
        | inl e ↦ rw e (Keeps-pure _)
        | inr (key, e) ↦ rw e (pages-Keeps f fuel key (out ++ page))
      ]

  list-Keeps : (f : Fact) → Keeps (λ s. HoldsIn f s.table) (list_revocations J)
  unfolding list_revocations
  list-Keeps f = record {
    after = λ s h. (Keeps-bind _ _ (pages-Keeps f _ 0 []) λ out. Keeps-pure _).after s h;
  }

  pub claimed-new :
      (now : SystemTime) (j : String) (t : SystemTime) (e : ℕ) (s : DynamoDbStorage)
      → ((ttl : ℕ) → token_ttl t ≡ ok ttl → e ≤ ttl)
      → Yields (λ _ s'. HoldsIn (claimed j e) s'.table) (claim_token now j t) s
  unfolding claim_token token_item
  claimed-new now j t e s le = Yields-lift-bind _ _ _ λ ttl ht. Yields-bind _ _ _ λ put hp.
      let (made, table) = write-eq-ok _ s hp in
      elim (Bool-cases put) [
        | inr n ↦ rw n (Yields-fail _ _)
        | inl y ↦ rw y (
            Yields-pure _ _ (
              subst (Has (key_of (claimed j e)) (Bears (claimed j e))) (sym table) (
                put-Has_new (Bears (claimed j e)) _ (token_item j ttl) s.table (made ∙ y)
                  (ttl, refl, le ttl ht))))
      ]

  pub claimed-refused :
      (now : SystemTime) (j : String) (e : ℕ) (t : SystemTime) (s : DynamoDbStorage)
      → HoldsIn (claimed j e) s.table
      → secs now < e
      → Yields (λ _ s'. ⊥) (claim_token now j t) s
  unfolding claim_token token_item put_item claimable
  claimed-refused now j e t s h lt = Yields-lift-bind _ _ _ λ ttl ht. Yields-bind _ _ _ λ put hp.
      let (made, _) = write-eq-ok _ s hp in
      let c = no_token (claimed j e) j now h.item lt refl h.holds in
      let n : put ≡ false = sym made ∙ rw (put_item, h.found, c) refl in rw n (Yields-fail _ _)

  pub revoked-new :
      (r : RevocationRecord) (s : DynamoDbStorage)
      → Yields (λ _ s'. HoldsIn (revoked r.serial_number) s'.table) (revoke J r) s
  unfolding revoke
  revoked-new r s = Yields-lift-bind _ _ _ λ attributes ha. Yields-bind _ _ _ λ put hp.
      let (_, table) = write-eq-ok _ s hp in
      Yields-pure _ _ (
        subst (Has (key_of (revoked r.serial_number)) (Bears (revoked r.serial_number))) (sym table)
          (put-Has_some _ s.table))

  recorded-new :
      (r : CertificateRecord) (s : DynamoDbStorage)
      → Yields (λ _ s'. HoldsIn (recorded r) s'.table) (record_certificate J r) s
  unfolding record_certificate
  recorded-new r s = Yields-lift-bind _ _ _ λ attributes ha. Yields-bind _ _ _ λ put hp.
      let (made, table) = write-eq-ok _ s hp in
      elim (Bool-cases put) [
        | inr n ↦ rw n (Yields-fail _ _)
        | inl y ↦ rw y (
            Yields-pure _ _ (
              subst (Has (key_of (recorded r)) (Bears (recorded r))) (sym table)
                (put-Has_new (Bears (recorded r)) _ _ s.table (made ∙ y) ha)))
      ]

  held_until : (t : SystemTime) (ttl : ℕ) → token_ttl t ≡ ok ttl → secs t ≤ ttl
  unfolding token_ttl
  held_until t ttl h = ground arith

  -- `claimed-claim` holds for the padded expiry, so DynamoDB keeps the contract.
  pub dynamo_contract : IsStorage (dynamo J)
  unfolding dynamo get_certificate get_revocation get_cache reap_expired
  dynamo_contract = record {
    Holds = λ f s. HoldsIn f s.table;
    claim-claimed = λ now j t s h. (claimed-new now j t (secs t) s (held_until t)).at tt h;
    claimed-claim = λ now j e t s h lt q. (claimed-refused now j e t s h lt).at tt q;
    revoke-revoked = λ r s h. (revoked-new r s).at tt h;
    record-recorded = λ r s h. (recorded-new r s).at tt h;
    keeps_record = record-Keeps;
    keeps_get_certificate = λ f n. Keeps-read (HoldsIn f) _;
    keeps_revoke = revoke-Keeps;
    keeps_get_revocation = λ f n. Keeps-read (HoldsIn f) _;
    keeps_list = list-Keeps;
    keeps_claim = claim-Keeps;
    keeps_get_cache = λ f now key. Keeps-read (HoldsIn f) _;
    keeps_set_cache = set_cache-Keeps;
    keeps_reap = λ f now lt. Keeps-pure _;
  }

  pub step-HoldsIn :
      (f : Fact) (c : Call) (s : DynamoDbStorage)
      → Within f c
      → HoldsIn f s.table
      → HoldsIn f (step (dynamo J) c s).table
  unfolding dynamo_contract
  step-HoldsIn f c s w h = step-Holds (dynamo J) dynamo_contract f c s w h

  pub steps-HoldsIn :
      (f : Fact) (cs : List Call) (s : DynamoDbStorage)
      → All (Within f) cs
      → HoldsIn f s.table
      → HoldsIn f (steps (dynamo J) cs s).table
  unfolding dynamo_contract
  steps-HoldsIn f cs s w h = steps-Holds (dynamo J) dynamo_contract f cs s w h
