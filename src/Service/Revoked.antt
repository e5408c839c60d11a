-- ===== src/Service/Revoked.antt =====
-- What a revocation that is granted needed, and what it leaves behind.
use ayane.Base.{
  String, ◌+◌, ◌≡◌, ◌≢◌, inl, inr, subst, Option, none, some, List, All-of, Bool-cases,
}
use ayane.Error.{ok, Ensures, Ensures-ok, Ensures-err}
use ayane.Action.{Yields, Yields-bind, Yields-lift-bind, Yields-pure, Yields-fail}
use ayane.Time.{SystemTime}
use ayane.San.{Bytes, same_bytes, same_bytes→eq}
use ayane.X509.{Certificate}
use ayane.Ca.{verify_issued}
use ayane.Ca.Serial.{Text}
use ayane.Storage.{IsStorage, IsConsistent, Fact, revoked, claimed, secs}
use ayane.Storage.Replay.{Call, steps, Within, steps-Holds, always}
use ayane.Service.{
  Service, Validated, VerifiedProof, claim_jti, system_time_from_epoch, replay_leeway,
}
use ayane.Service.Claims.{held_until, claim_once-claimed}
use ayane.Service.Signed.{token_key}
use ayane.Dpop.Once.{proof_key}
use ayane.Service.Renew.{serial_of}
use ayane.Service.Sign.{AuditEvent}
use ayane.Service.Revoke.{
  RevokeRequest, chars, normalize_serial, same_serial, revoke_by_token, revoke_by_proof,
  authorize_revocation, revocation_record, try_revoke,
}

same_serial-eq : (a b : Text) (msg : String) → Ensures (λ _. a ≡ b) (same_serial a b msg)
unfolding same_serial
same_serial-eq a b msg = elim (Bool-cases (same_bytes a b)) [
  | inl e ↦ rw e (Ensures-ok tt (same_bytes→eq a b e))
  | inr e ↦ rw e (Ensures-err _)
]

module _ {S : Type 0} (self : Service S) (I : IsStorage self.storage)
    (hex_decode : Text → Option Bytes) (now : SystemTime) where
  -- A token whose subject is the serial number, with its claim in the store.
  pub record ByToken (token url : String) (serial : Text) (s : S) : Type 0 where
    pub validated : Validated
    pub valid : self.validate now token url ≡ ok validated
    pub subject : normalize_serial hex_decode (chars validated.claims.sub) ≡ ok serial
    pub held :
        I.Holds
          (claimed
            (token_key validated.replay_id)
            (secs (held_until now (system_time_from_epoch validated.claims.exp + replay_leeway))))
          s

  -- A certificate of this CA that carries the serial number, and a proof that is accepted for it, with
  -- its claim in the store.
  pub record ByProof (proof pem url : String) (serial : Text) (s : S) : Type 0 where
    pub cert : Certificate
    pub read : self.certificate_from_pem pem ≡ ok cert
    pub ours : verify_issued self.formats self.signer self.ca cert ≡ ok tt
    pub carries : serial_of cert ≡ serial
    pub verified : VerifiedProof
    pub accepted : self.verify_proof now proof cert url self.dpop_max_age ≡ ok verified
    pub held :
        I.Holds
          (claimed
            (proof_key verified.jti)
            (secs (held_until now (verified.issued_at + self.dpop_max_age + replay_leeway))))
          s

  -- Who may revoke a serial number: a token for it, or, where there is no token, a proof with its
  -- certificate.
  abbrev pub MayRevoke : Option String → Option String → Option String → String → Text → S → Type 0
  MayRevoke (some token) dpop certificate url serial s = ByToken token url serial s
  MayRevoke none (some proof) (some pem) url serial s = ByProof proof pem url serial s
  MayRevoke none none certificate url serial s = ⊥
  MayRevoke none (some proof) none url serial s = ⊥

  authorize-MayRevoke :
      (serial : Text) (token dpop certificate : Option String) (url : String) (s : S)
      → Yields
          (λ _ s'. MayRevoke token dpop certificate url serial s')
          (authorize_revocation self hex_decode now serial token dpop certificate url)
          s
  unfolding authorize_revocation revoke_by_token revoke_by_proof claim_jti
  authorize-MayRevoke serial (some token) dpop certificate url s = Yields-lift-bind _ _ _ λ v hv.
      Yields-lift-bind _ _ _ λ sub hs. Yields-lift-bind _ _ _ λ u hu. Yields-bind _ _ _ λ _ h1.
        Yields-pure _ _ (record {
          validated = v;
          valid = hv;
          subject =
              subst (λ n. normalize_serial hex_decode (chars v.claims.sub) ≡ ok n)
                ((same_serial-eq sub serial _).at u hu) hs;
          held = claim_once-claimed self I now _ _ _ _ h1;
        })
  authorize-MayRevoke serial none (some proof) (some pem) url s = Yields-lift-bind _ _ _ λ cert hp.
      Yields-lift-bind _ _ _ λ _ ours. Yields-lift-bind _ _ _ λ u hu. Yields-lift-bind _ _ _ λ v hv.
        Yields-bind _ _ _ λ _ h1. Yields-pure _ _ (record {
          cert = cert;
          read = hp;
          ours = ours;
          carries = (same_serial-eq _ serial _).at u hu;
          verified = v;
          accepted = hv;
          held = claim_once-claimed self I now _ _ _ _ h1;
        })
  authorize-MayRevoke serial none none certificate url s = Yields-fail _ s
  authorize-MayRevoke serial none (some proof) none url s = Yields-fail _ s

  -- A permission stands while its claim does.
  MayRevoke-later :
      (serial : Text) (token dpop certificate : Option String) (url : String) (s s' : S)
      → ((f : Fact) → I.Holds f s → I.Holds f s')
      → MayRevoke token dpop certificate url serial s
      → MayRevoke token dpop certificate url serial s'
  MayRevoke-later serial (some token) dpop certificate url s s' keeps m = record {
    validated = m.validated;
    valid = m.valid;
    subject = m.subject;
    held = keeps _ m.held;
  }
  MayRevoke-later serial none (some proof) (some pem) url s s' keeps m = record {
    cert = m.cert;
    read = m.read;
    ours = m.ours;
    carries = m.carries;
    verified = m.verified;
    accepted = m.accepted;
    held = keeps _ m.held;
  }
  MayRevoke-later serial none none certificate url s s' keeps m = absurd m
  MayRevoke-later serial none (some proof) none url s s' keeps m = absurd m

  -- The serial number behind an answer.
  record IsRevocation (req : RevokeRequest) (dpop : Option String) (url : String) (s' : S)
      : Type 0 where
    serial : Text
    read : normalize_serial hex_decode (chars req.serial_number) ≡ ok serial
    allowed : MayRevoke req.token dpop req.certificate url serial s'
    held : I.Holds (revoked serial) s'

  try_revoke-IsRevocation :
      (req : RevokeRequest) (dpop : Option String) (url : String) (id : Option String) (s : S)
      → Yields
          (λ _ s'. IsRevocation req dpop url s')
          (try_revoke self hex_decode now req dpop url id)
          s
  unfolding try_revoke revocation_record
  try_revoke-IsRevocation req dpop url id s = Yields-lift-bind _ _ _ λ serial hs.
      Yields-bind _ _ _ λ provisioner hp. Yields-bind _ _ _ λ _ hr. Yields-pure _ _ (record {
        serial = serial;
        read = hs;
        allowed =
            MayRevoke-later serial req.token dpop req.certificate url _ _
              (λ f h. (I.keeps_revoke f _).after _ h)
              ((authorize-MayRevoke serial req.token dpop req.certificate url s).at provisioner hp);
        held = I.revoke-revoked _ _ hr;
      })

-- Over any storage that keeps its contract and whose look-ups see what was written, a revocation that
-- is answered was allowed to a token that is valid and for the serial number, or, where the request
-- has none, to a proof that is accepted for a certificate of this CA that carries it, and the claim of
-- that token or proof is in the store; and after any calls of the storage, a look-up of the serial
-- number that answers finds a revocation.
pub revocation_stands :
    {S : Type 0} (self : Service S) (I : IsStorage self.storage) (look : IsConsistent I)
    (hex_decode : Text → Option Bytes) (now : SystemTime) (req : RevokeRequest)
    (dpop : Option String) (url : String) (id : Option String) (s : S) (calls : List Call)
    (out : String × AuditEvent)
    → (try_revoke self hex_decode now req dpop url id s).0 ≡ ok out
    → (serial : Text) × (normalize_serial hex_decode (chars req.serial_number) ≡ ok serial)
      × MayRevoke self I hex_decode now req.token dpop req.certificate url serial
          (try_revoke self hex_decode now req dpop url id s).1
      × ((self.storage.get_revocation serial
            (steps self.storage calls (try_revoke self hex_decode now req dpop url id s).1)).0
          ≢ ok none)
revocation_stands self I look hex_decode now req dpop url id s calls out h =
    let left = (try_revoke self hex_decode now req dpop url id s).1 in
    let a = (try_revoke-IsRevocation self I hex_decode now req dpop url id s).at out h in
    let kept =
      steps-Holds self.storage I (revoked a.serial) calls left
        (All-of (Within (revoked a.serial)) (always a.serial) calls) a.held in
    (a.serial, a.read, a.allowed, look.revoked-get a.serial _ kept)
