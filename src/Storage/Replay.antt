-- ===== src/Storage/Replay.antt =====
-- Any storage that keeps its contract rejects replays, whatever happens in between.
use ayane.Base.{String, ◌≡◌, ◌≢◌, List, [], ◌∷◌, All}
use ayane.Error.{ok}
use ayane.Time.{SystemTime}
use ayane.San.{Bytes}
use ayane.Ca.Serial.{Text}
use ayane.Storage.{
  CertificateRecord, RevocationRecord, Storage, IsStorage, Fact, claimed, revoked, recorded,
  Outlives, secs,
}

-- a call of one of the operations
pub data Call : Type 0 where
  record_certificate : CertificateRecord → Call
  get_certificate : Text → Call
  revoke : RevocationRecord → Call
  get_revocation : Text → Call
  list_revocations : Call
  claim_token : SystemTime → String → SystemTime → Call
  get_cache : SystemTime → String → Call
  set_cache : String → Bytes → SystemTime → Call
  reap_expired : SystemTime → Call

module _ {S : Type 0} (storage : Storage S) where
  unfoldable pub step : Call → S → S
  step (record_certificate r) s = (storage.record_certificate r s).1
  step (get_certificate n) s = (storage.get_certificate n s).1
  step (revoke r) s = (storage.revoke r s).1
  step (get_revocation n) s = (storage.get_revocation n s).1
  step list_revocations s = (storage.list_revocations s).1
  step (claim_token now j t) s = (storage.claim_token now j t s).1
  step (get_cache now key) s = (storage.get_cache now key s).1
  step (set_cache key v t) s = (storage.set_cache key v t s).1
  step (reap_expired now) s = (storage.reap_expired now s).1

  unfoldable pub steps : List Call → S → S
  steps [] s = s
  steps (c ∷ cs) s = steps cs (step c s)

-- The instants at which the calls read the clock come before the fact's end.
abbrev pub Within : Fact → Call → Type 0
Within f (claim_token now j t) = Outlives f now
Within f (reap_expired now) = Outlives f now
Within f _ = Unit

module _ {S : Type 0} (storage : Storage S) (I : IsStorage storage) where
  pub step-Holds :
      (f : Fact) (c : Call) (s : S) → Within f c → I.Holds f s → I.Holds f (step storage c s)
  unfolding step
  step-Holds f (record_certificate r) s w h = (I.keeps_record f r).after s h
  step-Holds f (get_certificate n) s w h = (I.keeps_get_certificate f n).after s h
  step-Holds f (revoke r) s w h = (I.keeps_revoke f r).after s h
  step-Holds f (get_revocation n) s w h = (I.keeps_get_revocation f n).after s h
  step-Holds f list_revocations s w h = (I.keeps_list f).after s h
  step-Holds f (claim_token now j t) s w h = (I.keeps_claim f now j t w).after s h
  step-Holds f (get_cache now key) s w h = (I.keeps_get_cache f now key).after s h
  step-Holds f (set_cache key v t) s w h = (I.keeps_set_cache f key v t).after s h
  step-Holds f (reap_expired now) s w h = (I.keeps_reap f now w).after s h

  pub steps-Holds :
      (f : Fact) (cs : List Call) (s : S)
      → All (Within f) cs
      → I.Holds f s
      → I.Holds f (steps storage cs s)
  unfolding steps
  steps-Holds f [] s w h = h
  steps-Holds f (c ∷ cs) s (w, ws) h = steps-Holds f cs (step storage c s) ws (step-Holds f c s w h)

-- After a claim that succeeds, and any calls whatever of the operations before it expires, failed
-- ones included, another claim of the same id before it expires is refused.
pub replay_rejected :
    {S : Type 0} (storage : Storage S)
    → IsStorage storage
    → (now later : SystemTime) (j : String) (t t' : SystemTime) (s : S) (calls : List Call)
    → (storage.claim_token now j t s).0 ≡ ok tt
    → All (Within (claimed j (secs t))) calls
    → Outlives (claimed j (secs t)) later
    → (storage.claim_token later j t' (steps storage calls (storage.claim_token now j t s).1)).0
      ≢ ok tt
replay_rejected storage I now later j t t' s calls h w lt =
    I.claimed-claim later j (secs t) t' _
      (steps-Holds storage I (claimed j (secs t)) calls _ w (I.claim-claimed now j t s h)) lt

pub always : (n : Text) (c : Call) → Within (revoked n) c
always n (record_certificate r) = tt
always n (get_certificate m) = tt
always n (revoke r) = tt
always n (get_revocation m) = tt
always n list_revocations = tt
always n (claim_token now j t) = tt
always n (get_cache now key) = tt
always n (set_cache key v t) = tt
always n (reap_expired now) = tt

pub always_recorded : (r' : CertificateRecord) (c : Call) → Within (recorded r') c
always_recorded r' (record_certificate r) = tt
always_recorded r' (get_certificate m) = tt
always_recorded r' (revoke r) = tt
always_recorded r' (get_revocation m) = tt
always_recorded r' list_revocations = tt
always_recorded r' (claim_token now j t) = tt
always_recorded r' (get_cache now key) = tt
always_recorded r' (set_cache key v t) = tt
always_recorded r' (reap_expired now) = tt
