-- ===== src/Service/Signed.antt =====
-- What a signature that is granted leaves behind.
use ayane.Base.{
  All-of, some, ℕ, arith, String, ◌+◌, ◌≡◌, ◌≢◌, ◌<◌, ◌≤◌, refl, ap, ◌∙◌, sym, subst, Option, List,
  All,
}
use Prim.Native.String
use ayane.Error.{ok, ok-injective}
use ayane.Action.{Yields, Yields-bind, Yields-lift-bind, Yields-pure}
use ayane.Time.{SystemTime, unix_epoch}
use ayane.San.{Bytes, IpAddr}
use ayane.Storage.{IsStorage, IsConsistent, Fact, claimed, recorded, secs, CertificateRecord}
use ayane.Storage.Replay.{Call, steps, Within, steps-Holds, always_recorded}
use ayane.Ca.{IssuedCertificate, issue}
use ayane.Service.{
  Service, SignRequest, CertificateResponse, claim_jti, certificate_response,
  system_time_from_epoch, replay_leeway,
}
use ayane.Service.Plan.{SignPlan, sign_plan}
use ayane.Service.Sign.{AuditEvent, issue_params, sign_record, commit_sign, try_sign}
use ayane.Service.Claims.{
  held_until, claim_once-claimed, claim_once-refused, claim_once_scopes-Keeps,
}

-- the key that a token's replay id is claimed under
abbrev pub token_key : String → String
token_key jti = String.◌++◌ "ott" (String.◌++◌ "#" jti)

-- the instant until which a token's claim is held at least
abbrev pub token_held : SystemTime → SignPlan → SystemTime
token_held now p = held_until now (system_time_from_epoch p.validated.claims.exp + replay_leeway)

pub held_later : (now t : SystemTime) → unix_epoch ≤ now → secs now < secs (held_until now t)
held_later now t h = omega arith

module _ {S : Type 0} (self : Service S) (I : IsStorage self.storage)
    (show_ip : IpAddr → String) where
  -- The plan and the certificate behind an answer, with what the store holds in the end.
  pub record IsSigned (now : SystemTime) (random : Bytes) (req : SignRequest) (url : String)
      (out : CertificateResponse × AuditEvent) (s' : S) : Type 0 where
    pub plan : SignPlan
    pub planned : sign_plan self now req url ≡ ok plan
    pub issued : IssuedCertificate
    pub signed :
        issue self.formats self.signer self.ca random (issue_params self show_ip now random plan)
        ≡ ok issued
    pub answered : out.0 ≡ certificate_response self issued
    pub token :
        I.Holds (claimed (token_key plan.validated.replay_id) (secs (token_held now plan))) s'
    pub listed : I.Holds (recorded (sign_record self show_ip now random plan issued)) s'

  try_sign-IsSigned :
      (now : SystemTime) (random : Bytes) (req : SignRequest) (url : String) (id : Option String)
      (s : S)
      → unix_epoch ≤ now
      → Yields (IsSigned now random req url) (try_sign self show_ip now random req url id) s
  unfolding try_sign commit_sign claim_jti
  try_sign-IsSigned now random req url id s after = Yields-lift-bind _ _ _ λ p planned.
      Yields-bind _ _ _ λ _ h1. Yields-bind _ _ _ λ _ _. Yields-lift-bind _ _ _ λ issued signed.
        Yields-bind _ _ _ λ _ h4. Yields-pure _ _ (record {
          plan = p;
          planned = planned;
          issued = issued;
          signed = signed;
          answered = refl;
          token = (I.keeps_record (token_fact p) _).after _ (
              (claim_once_scopes-Keeps self I (token_fact p) now (held_later now _ after)
                  p.once_scopes p.custom.not_after).after
                _ (claim_once-claimed self I now _ _ _ s h1));
          listed = I.record-recorded _ _ h4;
        })
    where
      token_fact : SignPlan → Fact
      token_fact p = claimed (token_key p.validated.replay_id) (secs (token_held now p))

  -- A request whose token is claimed fails.
  sign_refused :
      (now : SystemTime) (random : Bytes) (req : SignRequest) (url : String) (id : Option String)
      (s : S) (p : SignPlan) (e : ℕ)
      → sign_plan self now req url ≡ ok p
      → I.Holds (claimed (token_key p.validated.replay_id) e) s
      → secs now < e
      → Yields (λ out s'. ⊥) (try_sign self show_ip now random req url id) s
  unfolding try_sign commit_sign claim_jti
  sign_refused now random req url id s p e hp c lt = Yields-lift-bind _ _ _ λ q hq.
      Yields-bind _ _ _ λ _ h1. absurd (
        claim_once-refused self I now _ _ _ s
          (subst (λ x. I.Holds (claimed (token_key x.validated.replay_id) e) s)
            (ok-injective (sym hp ∙ hq)) c)
          lt h1)

-- Over any storage that keeps its contract, once a token is signed for, from the Unix epoch on, any
-- request with a token of the same replay id fails until the token's expiry and leeway have passed,
-- whatever calls of the storage come in between and read the clock before then.
pub sign_once :
    {S : Type 0} (self : Service S) (I : IsStorage self.storage) (show_ip : IpAddr → String)
    (now later : SystemTime) (random random' : Bytes) (req req' : SignRequest) (url url' : String)
    (id id' : Option String) (s : S) (calls : List Call) (p p' : SignPlan)
    (out out' : CertificateResponse × AuditEvent)
    → unix_epoch ≤ now
    → (try_sign self show_ip now random req url id s).0 ≡ ok out
    → sign_plan self now req url ≡ ok p
    → sign_plan self later req' url' ≡ ok p'
    → p'.validated.replay_id ≡ p.validated.replay_id
    → All (Within (claimed (token_key p.validated.replay_id) (secs (token_held now p)))) calls
    → secs later < secs (token_held now p)
    → (try_sign self show_ip later random' req' url' id'
        (steps self.storage calls (try_sign self show_ip now random req url id s).1)).0
      ≢ ok out'
sign_once self I show_ip now later random random' req req' url url' id id' s calls p p' out out'
      after h hp hp' same within lt h' =
    let left = (try_sign self show_ip now random req url id s).1 in
    let a = (try_sign-IsSigned self I show_ip now random req url id s after).at out h in
    let signed =
      subst (λ q. I.Holds (token_fact q) left) (ok-injective (sym a.planned ∙ hp)) a.token in
    let kept = steps-Holds self.storage I (token_fact p) calls left within signed in
    (sign_refused self I show_ip later random' req' url' id' (steps self.storage calls left) p'
        (secs (token_held now p)) hp'
        (subst
          (λ j.
            I.Holds (claimed (token_key j) (secs (token_held now p)))
              (steps self.storage calls left))
          (sym same) kept)
        lt).at
      out' h'
  where
    token_fact : SignPlan → Fact
    token_fact p = claimed (token_key p.validated.replay_id) (secs (token_held now p))

-- Over any storage that keeps its contract and whose look-ups see what was written, after an answer to a signing request, from the Unix epoch
-- on, and any calls of the storage, a look-up of its serial number that answers gives a record of it,
-- with the text that was answered.
pub sign_listed :
    {S : Type 0} (self : Service S) (I : IsStorage self.storage) (look : IsConsistent I)
    (show_ip : IpAddr → String) (now : SystemTime) (random : Bytes) (req : SignRequest)
    (url : String) (id : Option String) (s : S) (calls : List Call)
    (out : CertificateResponse × AuditEvent) (found : Option CertificateRecord)
    → unix_epoch ≤ now
    → (try_sign self show_ip now random req url id s).0 ≡ ok out
    → (self.storage.get_certificate out.0.serial_number
        (steps self.storage calls (try_sign self show_ip now random req url id s).1)).0
      ≡ ok found
    → (r : CertificateRecord) × (found ≡ some r)
      × (r.serial_number ≡ out.0.serial_number)
      × (r.pem ≡ out.0.certificate)
unfolding certificate_response sign_record
sign_listed self I look show_ip now random req url id s calls out found after h g =
    let left = (try_sign self show_ip now random req url id s).1 in
    let a = (try_sign-IsSigned self I show_ip now random req url id s after).at out h in
    let r = sign_record self show_ip now random a.plan a.issued in
    let same = ap (λ x. x.serial_number) a.answered in
    let kept =
      steps-Holds self.storage I (recorded r) calls left
        (All-of (Within (recorded r)) (always_recorded r) calls) a.listed in
    (
      r,
      look.recorded-get r _ kept (
          subst (λ n. (self.storage.get_certificate n (steps self.storage calls left)).0 ≡ ok found)
            same g),
      sym same,
      sym (ap (λ x. x.certificate) a.answered),
    )
