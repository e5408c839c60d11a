-- ===== src/Dpop.antt =====
-- ayane/src/dpop.rs: the check of a proof that the caller holds a certificate's key, with what it
-- reads of ayane-protocol/src/dpop.rs.
--
-- jsonwebtoken, pem, der and const_oid are third-party code: what the program uses of them is the
-- record `Proofs`. Its decoding of a token is in two, the signature's check under a key and the
-- reading of the claims.
pub mod Verified
pub mod Once
use ayane.Base.{
  ℕ, ℤ, pos, negsuc, String, Bool, false, nat_eq, ◌+◌, ◌==◌, not, ltb, leb, ◌&&◌, Option, none,
  some, List, [], ◌∷◌, map, if◌then◌else◌,
}
use ayane.Error.{Result, ok, err, ok_or, bad_request, unauthorized, internal, ◌>>=◌, ◌>>◌}
use ayane.Time.{SystemTime, Duration, from_secs, unix_epoch, checked_add, duration_since}
use ayane.San.{Bytes, same_bytes}
use ayane.X509.{Certificate, PublicKey}
use ayane.Authorizer.{
  Algorithm, hs256, hs384, hs512, es256, es384, rs256, rs384, rs512, ps256, ps384, ps512, eddsa,
}
use ayane.Service.{Service, VerifiedProof}
use ayane.Service.Revoke.{chars}

-- ayane-protocol
pub record DpopClaims : Type 0 where
  pub htm : String
  pub htu : String
  pub iat : ℤ
  pub jti : String
  pub nonce : Option String

abbrev dpop_typ : String
dpop_typ = "dpop+jwt"

-- the parts of a token's header that are read
pub record ProofHeader : Type 0 where
  pub typ : Option String
  pub alg : Algorithm

pub record Proofs : Type 0 where
  pub decode_header : String → Option ProofHeader
  pub valid_signature : Bytes → Algorithm → String → Bool
  pub claims : String → Option DpopClaims
  pub spki_to_der : PublicKey → Option Bytes
  pub pem_encode : Bytes → String
  pub from_ec_pem : String → Option Bytes
  pub from_rsa_pem : String → Option Bytes
  pub oid_from_der : Bytes → Option String
  pub ec_public_key : String
  pub secp_256_r_1 : String
  pub secp_384_r_1 : String
  pub rsa_encryption : String

unfoldable pub algorithm_index : Algorithm → ℕ
algorithm_index hs256 = 0
algorithm_index hs384 = 1
algorithm_index hs512 = 2
algorithm_index es256 = 3
algorithm_index es384 = 4
algorithm_index rs256 = 5
algorithm_index rs384 = 6
algorithm_index rs512 = 7
algorithm_index ps256 = 8
algorithm_index ps384 = 9
algorithm_index ps512 = 10
algorithm_index eddsa = 11

unfoldable pub same_algorithm : Algorithm → Algorithm → Bool
same_algorithm a b = nat_eq (algorithm_index a) (algorithm_index b)

-- `u8::to_ascii_lowercase`
unfoldable pub lower : ℕ → ℕ
lower c = if leb 65 c && leb c 90 then c + 32 else c

unfoldable pub eq_ignore_ascii_case : String → String → Bool
eq_ignore_ascii_case s t = same_bytes (map lower (chars s)) (map lower (chars t))

-- `claims.iat.max(0) as u64`
unfoldable pub iat_secs : ℤ → ℕ
iat_secs (pos n) = n
iat_secs (negsuc n) = 0

unfoldable pub require : Bool → String → Result (Unit {0})
require b msg = if b then ok tt else err (unauthorized msg)

-- `header.typ.as_deref() == Some(DPOP_TYP)`
unfoldable pub is_dpop_typ : Option String → Bool
is_dpop_typ none = false
is_dpop_typ (some t) = t == dpop_typ

-- `if let Ok(age) = now.duration_since(iat) && age > max_age`
unfoldable pub is_stale : SystemTime → SystemTime → Duration → Bool
is_stale now iat max_age = elim (duration_since now iat) [
  | none ↦ false
  | some age ↦ ltb max_age age
]

module _ (D : Proofs) where
  unfoldable pub ec_algorithm : Option Bytes → Result Algorithm
  ec_algorithm none = err (bad_request "unsupported EC curve in certificate for DPoP")
  ec_algorithm (some p) = elim (D.oid_from_der p) [
    | none ↦ err (bad_request "unsupported EC curve in certificate for DPoP")
    | some c ↦
        if c == D.secp_256_r_1
        then ok es256
        else if c == D.secp_384_r_1
        then ok es384
        else err (bad_request "unsupported EC curve in certificate for DPoP")
  ]

  unfoldable pub ec_key : PublicKey → String → Result (Bytes × Algorithm)
  ec_key spki pem = do
    alg ← ec_algorithm spki.parameters
    key ← ok_or (D.from_ec_pem pem) (internal "DPoP EC key")
    ok (key, alg)

  unfoldable pub rsa_key : String → Result (Bytes × Algorithm)
  rsa_key pem = do key ← ok_or (D.from_rsa_pem pem) (internal "DPoP RSA key"); ok (key, rs256)

  unfoldable pub key_of : PublicKey → String → Result (Bytes × Algorithm)
  key_of spki pem =
      if spki.algorithm_oid == D.ec_public_key
      then ec_key spki pem
      else if spki.algorithm_oid == D.rsa_encryption
      then rsa_key pem
      else err (bad_request "unsupported certificate key type for DPoP")

  unfoldable pub decoding_key_from_spki : PublicKey → Result (Bytes × Algorithm)
  decoding_key_from_spki spki = do
    spki_der ← ok_or (D.spki_to_der spki) (internal "der")
    key_of spki (D.pem_encode spki_der)

  unfoldable pub decode : String → Bytes → Algorithm → Option DpopClaims
  decode proof key alg = if D.valid_signature key alg proof then D.claims proof else none

  unfoldable pub verify :
      String → Certificate → String → String → Duration → SystemTime → Result VerifiedProof
  verify proof cert expected_method expected_uri max_age now = do
    header ← ok_or (D.decode_header proof) (unauthorized "invalid DPoP header")
    require (is_dpop_typ header.typ) "DPoP proof has wrong typ (expected dpop+jwt)"
    key ← decoding_key_from_spki cert.tbs_certificate.subject_public_key_info
    require (same_algorithm header.alg key.1)
        "DPoP proof algorithm does not match the certificate key"
    claims ← ok_or (decode proof key.0 key.1) (unauthorized "DPoP proof signature invalid")
    require (eq_ignore_ascii_case claims.htm expected_method) "DPoP htm does not match"
    require (claims.htu == expected_uri) "DPoP htu does not match"
    iat ←
        ok_or (checked_add unix_epoch (from_secs (iat_secs claims.iat)))
          (unauthorized "DPoP iat out of range")
    require (not (ltb (now + from_secs 60) iat)) "DPoP proof issued in the future"
    require (not (is_stale now iat max_age)) "DPoP proof is stale"
    ok (record { jti = claims.jti; issued_at = iat })

  -- the service, with this check of its proofs
  abbrev pub with_dpop : {S : Type 0} → Service S → Service S
  with_dpop self = record self {
    verify_proof = λ now proof cert url max_age. verify proof cert "POST" url max_age now;
  }
