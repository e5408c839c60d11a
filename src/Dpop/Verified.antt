-- ===== src/Dpop/Verified.antt =====
-- What a proof that is accepted says, and of which certificate and request.
use ayane.Base.{
  String, Bool, true, false, not, ltb, ◌+◌, ◌≡◌, ◌≤◌, refl, ap, Option, none, some, arith, eq_iff,
  if◌then◌else◌,
}
use ayane.Error.{Error, ok, ok_or, ok-injective, Ensures, Ensures-bind, Ensures-ok, Ensures-err}
use ayane.Time.{SystemTime, Duration, from_secs, unix_epoch, checked_add}
use ayane.San.{Bytes}
use ayane.X509.{Certificate}
use ayane.Authorizer.{Algorithm}
use ayane.Service.{VerifiedProof}
use ayane.Dpop.{
  Proofs, DpopClaims, iat_secs, require, decode, decoding_key_from_spki, eq_ignore_ascii_case,
  is_stale, verify,
}

given :
    (b : Bool) (o : Option DpopClaims) (e : Error) (c : DpopClaims)
    → ok_or (if b then o else none) e ≡ ok c
    → (b ≡ true) × (o ≡ some c)
given true none e c h = cc
given true (some c') e c h = (refl, ap some (ok-injective h))
given false o e c h = cc

module _ (D : Proofs) where
  require-true : (b : Bool) (msg : String) → Ensures (λ _. b ≡ true) (require b msg)
  unfolding require
  require-true true msg = Ensures-ok tt refl
  require-true false msg = Ensures-err _

  decode-valid :
      (proof : String) (key : Bytes) (alg : Algorithm) (e : Error) (c : DpopClaims)
      → ok_or (decode D proof key alg) e ≡ ok c
      → (D.valid_signature key alg proof ≡ true) × (D.claims proof ≡ some c)
  unfolding decode
  decode-valid proof key alg e c h = given (D.valid_signature key alg proof) (D.claims proof) e c h

  time_of :
      (d : Duration) (iat : SystemTime) (e : Error)
      → ok_or (checked_add unix_epoch d) e ≡ ok iat
      → iat ≡ unix_epoch + d
  time_of d iat e h = ground arith

  arrived_of :
      (now iat : SystemTime) → not (ltb (now + from_secs 60) iat) ≡ true → iat ≤ now + from_secs 60
  arrived_of now iat h = ground arith

  fresh_of :
      (now iat : SystemTime) (max_age : Duration)
      → not (is_stale now iat max_age) ≡ true
      → now ≤ iat + max_age
  unfolding is_stale
  fresh_of now iat max_age h = ground arith

  -- A proof with its claims, the certificate's key that it is signed with, and its time.
  pub record IsBound (proof : String) (cert : Certificate) (method uri : String)
      (max_age : Duration) (now : SystemTime) (v : VerifiedProof) : Type 0 where
    pub claims : DpopClaims
    pub read : D.claims proof ≡ some claims
    pub key : Bytes
    pub alg : Algorithm
    pub pinned :
        decoding_key_from_spki D cert.tbs_certificate.subject_public_key_info ≡ ok (key, alg)
    pub signed : D.valid_signature key alg proof ≡ true
    pub method_matches : eq_ignore_ascii_case claims.htm method ≡ true
    pub target : claims.htu ≡ uri
    pub id : v.jti ≡ claims.jti
    pub issued : v.issued_at ≡ unix_epoch + from_secs (iat_secs claims.iat)
    pub arrived : v.issued_at ≤ now + from_secs 60
    pub fresh : now ≤ v.issued_at + max_age

  Ensures-IsBound :
      (proof : String) (cert : Certificate) (method uri : String) (max_age : Duration)
      (now : SystemTime)
      → Ensures
          (IsBound proof cert method uri max_age now)
          (verify D proof cert method uri max_age now)
  unfolding verify
  Ensures-IsBound proof cert method uri max_age now = Ensures-bind _ _ λ header _.
      Ensures-bind _ _ λ _ _. Ensures-bind _ _ λ key pinned. Ensures-bind _ _ λ _ _.
        Ensures-bind _ _ λ claims hc. Ensures-bind _ _ λ u hm. Ensures-bind _ _ λ u' ht.
          Ensures-bind _ _ λ iat hi. Ensures-bind _ _ λ u1 ha. Ensures-bind _ _ λ u2 hf.
            let (signed, read) = decode-valid proof key.0 key.1 _ claims hc in
            Ensures-ok _ (record {
              claims = claims;
              read = read;
              key = key.0;
              alg = key.1;
              pinned = pinned;
              signed = signed;
              method_matches = (require-true _ _).at u hm;
              target = (eq_iff claims.htu uri).0 ((require-true _ _).at u' ht);
              id = refl;
              issued = time_of _ iat _ hi;
              arrived = arrived_of now iat ((require-true _ _).at u1 ha);
              fresh = fresh_of now iat max_age ((require-true _ _).at u2 hf);
            })

-- A proof that is accepted is signed, under the algorithm that the certificate's key pins, with that
-- key; its claims name the method, letters' case aside, and the URI of the request; and its time is
-- a minute ahead of the clock at most, and no older than the age it may have.
pub verify-IsBound :
    (D : Proofs) (proof : String) (cert : Certificate) (method uri : String) (max_age : Duration)
    (now : SystemTime) (v : VerifiedProof)
    → verify D proof cert method uri max_age now ≡ ok v
    → IsBound D proof cert method uri max_age now v
verify-IsBound D proof cert method uri max_age now v h =
    (Ensures-IsBound D proof cert method uri max_age now).at v h
