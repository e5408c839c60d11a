-- ===== src/Storage.antt =====
-- ayane/src/storage/mod.rs: what is stored, the operations of a storage backend, and what its
-- clients rely on.
pub mod Sqlite
pub mod Dynamo
pub mod Replay
use ayane.Base.{ℤ, Bool, List, Option, String, none, some, ℕ, ◌-◌, ◌<◌, ◌≡◌, ◌≢◌}
use ayane.Error.{Result, ok}
use ayane.Action.{Action, Keeps}
use ayane.Time.{SystemTime, duration_since, unix_epoch, as_secs}
use ayane.San.{Bytes}
use ayane.Ca.Serial.{Text}

pub record CertificateRecord : Type 0 where
  pub serial_number : Text
  pub subject : String
  pub sans : List String
  pub not_before : String
  pub not_after : String
  pub issued_at : String
  pub provisioner : Option String
  pub operation : String
  pub renewable : Bool
  pub pem : String

pub record RevocationRecord : Type 0 where
  pub serial_number : Text
  pub reason_code : ℤ
  pub reason : Option String
  pub revoked_at : String
  pub provisioner : Option String

-- The operations, on a state of type `S`. The instant that a claim or a cache read takes from the
-- clock is an argument.
pub record Storage (S : Type 0) : Type 0 where
  pub record_certificate : CertificateRecord → Action S (Unit {0})
  pub get_certificate : Text → Action S (Option CertificateRecord)
  pub revoke : RevocationRecord → Action S (Unit {0})
  pub get_revocation : Text → Action S (Option RevocationRecord)
  pub list_revocations : Action S (List RevocationRecord)
  pub claim_token : SystemTime → String → SystemTime → Action S (Unit {0})
  pub get_cache : SystemTime → String → Action S (Option Bytes)
  pub set_cache : String → Bytes → SystemTime → Action S (Unit {0})
  pub reap_expired : SystemTime → Action S ℕ

-- whole seconds from the Unix epoch; 0 before it
abbrev pub secs : SystemTime → ℕ
secs t = as_secs (t - unix_epoch)

-- What a client knows of the state: a token id is claimed until a second at least, a serial number
-- is revoked, a certificate is in the inventory.
pub data Fact : Type 0 where
  claimed : String → ℕ → Fact
  revoked : Text → Fact
  recorded : CertificateRecord → Fact

-- A claim lasts until its expiry, everything else for ever.
abbrev pub Outlives : Fact → SystemTime → Type 0
Outlives (claimed j e) now = secs now < e
Outlives (revoked n) now = Unit
Outlives (recorded r) now = Unit

-- What the clients rely on, of every backend.
pub record IsStorage {S : Type 0} (storage : Storage S) : Type 1 where
  pub Holds : Fact → S → Type 0
  pub claim-claimed :
      (now : SystemTime) (j : String) (t : SystemTime) (s : S)
      → (storage.claim_token now j t s).0 ≡ ok tt
      → Holds (claimed j (secs t)) (storage.claim_token now j t s).1
  pub claimed-claim :
      (now : SystemTime) (j : String) (e : ℕ) (t : SystemTime) (s : S)
      → Holds (claimed j e) s
      → secs now < e
      → (storage.claim_token now j t s).0 ≢ ok tt
  pub revoke-revoked :
      (r : RevocationRecord) (s : S)
      → (storage.revoke r s).0 ≡ ok tt
      → Holds (revoked r.serial_number) (storage.revoke r s).1
  pub record-recorded :
      (r : CertificateRecord) (s : S)
      → (storage.record_certificate r s).0 ≡ ok tt
      → Holds (recorded r) (storage.record_certificate r s).1
  pub keeps_record :
      (f : Fact) (r : CertificateRecord) → Keeps (Holds f) (storage.record_certificate r)
  pub keeps_get_certificate : (f : Fact) (n : Text) → Keeps (Holds f) (storage.get_certificate n)
  pub keeps_revoke : (f : Fact) (r : RevocationRecord) → Keeps (Holds f) (storage.revoke r)
  pub keeps_get_revocation : (f : Fact) (n : Text) → Keeps (Holds f) (storage.get_revocation n)
  pub keeps_list : (f : Fact) → Keeps (Holds f) storage.list_revocations
  pub keeps_claim :
      (f : Fact) (now : SystemTime) (j : String) (t : SystemTime)
      → Outlives f now
      → Keeps (Holds f) (storage.claim_token now j t)
  pub keeps_get_cache :
      (f : Fact) (now : SystemTime) (key : String) → Keeps (Holds f) (storage.get_cache now key)
  pub keeps_set_cache :
      (f : Fact) (key : String) (v : Bytes) (t : SystemTime)
      → Keeps (Holds f) (storage.set_cache key v t)
  pub keeps_reap :
      (f : Fact) (now : SystemTime) → Outlives f now → Keeps (Holds f) (storage.reap_expired now)

-- A backend whose look-ups see what was written: a replica that lags, or two certificates of one
-- serial number, are ruled out.
pub record IsConsistent {S : Type 0} {storage : Storage S} (I : IsStorage storage) : Type 0 where
  pub revoked-get :
      (n : Text) (s : S) → I.Holds (revoked n) s → (storage.get_revocation n s).0 ≢ ok none
  pub recorded-get :
      (r : CertificateRecord) (s : S) {o : Option CertificateRecord}
      → I.Holds (recorded r) s
      → (storage.get_certificate r.serial_number s).0 ≡ ok o
      → o ≡ some r
