-- ===== src/Authorizer.antt =====
-- ayane/src/authorizer/mod.rs, ayane/src/authorizer/jwk.rs, and what ayane/src/config.rs says of
-- provisioners: the routing of tokens to provisioners, and their verification.
pub mod Url
pub mod Keyset
pub mod Provisioners
pub mod Rotation
pub mod Routing
use ayane.Base.{
  ℕ, String, Bool, true, false, Option, none, some, List, [], ◌∷◌, ◌==◌, is_empty, if◌then◌else◌,
  unwrap_or,
}
use ayane.Error.{Error, Result, ok, err, unauthorized, ◌>>=◌, ok_or}
use ayane.Time.{SystemTime}
use ayane.San.{Bytes}
use ayane.Ca.Serial.{Text}
use ayane.Service.{OttClaims}

-- jsonwebtoken's types
pub data EllipticCurve : Type 0 where
  p256 p384 p521 ed25519 : EllipticCurve

pub data AlgorithmParameters : Type 0 where
  elliptic_curve octet_key_pair : EllipticCurve → AlgorithmParameters
  rsa octet_key : AlgorithmParameters

pub data Algorithm : Type 0 where
  hs256 hs384 hs512 es256 es384 rs256 rs384 rs512 ps256 ps384 ps512 eddsa : Algorithm

-- `key_algorithm` is the hint that a key carries, `none` also for one that names no signature
pub record Jwk : Type 0 where
  pub algorithm : AlgorithmParameters
  pub key_algorithm : Option Algorithm
  pub key_id : Option String
  pub material : Bytes

pub record SigningKey : Type 0 where
  pub decoding_key : Bytes
  pub algorithm : Algorithm

pub record Validation : Type 0 where
  pub algorithm : Algorithm
  pub issuer : String
  pub audiences : List String
  pub leeway : ℕ

-- third-party code: jsonwebtoken, base64, serde_json and sha2
pub record Jwt : Type 0 where
  pub decoding_key : Jwk → Option Bytes
  -- the header's `kid`
  pub decode_header : String → Option (Option String)
  -- the claims, and their `jti`
  pub decode : SystemTime → String → Bytes → Validation → Option (OttClaims × Option String)
  -- `token.split('.').nth(1)`
  pub payload : String → Option String
  pub base64url_decode : String → Option Bytes
  -- a JSON value's `iss`, if it is a text
  pub json_iss : Bytes → Option (Option String)
  pub sha256_hex : String → String

unfoldable pub algorithm_from_jwk : Jwk → Option Algorithm
algorithm_from_jwk jwk = elim jwk.algorithm [
  | elliptic_curve c ↦ elim c [ p256 ↦ some es256 | p384 ↦ some es384 | _ ↦ none ]
  | rsa ↦ elim jwk.key_algorithm [
    | none ↦ some rs256
    | some hint ↦ elim hint [
      | rs384 ↦ some rs384
      | rs512 ↦ some rs512
      | ps256 ↦ some ps256
      | ps384 ↦ some ps384
      | ps512 ↦ some ps512
      | _ ↦ some rs256
    ]
  ]
  | octet_key_pair c ↦ elim c [ ed25519 ↦ some eddsa | _ ↦ none ]
  | octet_key ↦ none
]

module _ (J : Jwt) where
  unfoldable pub signing_key_from_jwk : (String → Error) → Jwk → Result SigningKey
  unfolding algorithm_from_jwk
  signing_key_from_jwk wrap jwk = do
    decoding_key ← ok_or (J.decoding_key jwk) (wrap "invalid JWK")
    algorithm ← ok_or (algorithm_from_jwk jwk) (wrap "cannot determine algorithm from JWK")
    ok (record { decoding_key = decoding_key; algorithm = algorithm })

  unfoldable pub unverified_issuer : String → Result String
  unverified_issuer token = do
    payload ← ok_or (J.payload token) (unauthorized "malformed token")
    bytes ← ok_or (J.base64url_decode payload) (unauthorized "malformed token payload")
    value ← ok_or (J.json_iss bytes) (unauthorized "malformed token payload")
    ok_or value (unauthorized "token missing iss claim")

  unfoldable pub validate_signed :
      SystemTime
      → String
      → String
      → String
      → List String
      → SigningKey
      → ℕ
      → Result (OttClaims × String)
  validate_signed now token audience issuer audiences key leeway = do
    data_ ←
        ok_or
          (J.decode now token key.decoding_key (record {
            algorithm = key.algorithm;
            issuer = issuer;
            audiences = if is_empty audiences then audience ∷ [] else audiences;
            leeway = leeway;
          }))
          (unauthorized "token validation failed")
    ok (data_.0, unwrap_or data_.1 (J.sha256_hex token))

  -- `matches` of both verifiers
  unfoldable pub matches : String → String → Bool
  unfolding unverified_issuer
  matches issuer token = elim (unverified_issuer token) [ ok iss ↦ iss == issuer | err e ↦ false ]
