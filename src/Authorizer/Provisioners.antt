-- ===== src/Authorizer/Provisioners.antt =====
-- ayane/src/authorizer/mod.rs and ayane/src/config.rs: the provisioners, their configuration, and
-- the validation of a token by the provisioner that its issuer names.
use Prim.Native.String.{len, slice}
use ayane.Base.{
  ℕ, ◌-◌, String, Bool, true, false, not, ◌&&◌, ◌||◌, Option, none, some, List, [], ◌∷◌, ◌==◌, leb,
  any, is_empty, if◌then◌else◌, unwrap_or,
}
use ayane.Error.{Result, ok, err, config, unauthorized, ◌>>=◌, ◌>>◌, guard}
use ayane.Action.{Action}
use ayane.Time.{SystemTime}
use ayane.Service.{OttClaims, Validated}
use ayane.Authorizer.{Jwt, Jwk, SigningKey, signing_key_from_jwk, validate_signed, matches}
use ayane.Authorizer.Keyset.{JwksConfig, JwksSource, Documents, Exchange, new_source, resolve}

pub data ProvisionerKind : Type 0 where
  jwk : Jwk → ProvisionerKind
  jwks : JwksConfig → ProvisionerKind

pub record ProvisionerConfig : Type 0 where
  pub name : String
  pub audiences : List String
  pub template : Option String
  pub authorized : Option Bool
  pub kind : ProvisionerKind

abbrev pub is_jwk : ProvisionerKind → Bool
is_jwk (jwk key) = true
is_jwk (jwks cfg) = false

unfoldable pub effective_authorized : ProvisionerConfig → Bool
effective_authorized cfg = unwrap_or cfg.authorized (is_jwk cfg.kind)

unfoldable pub strip_suffix : String → String → Option String
strip_suffix s suffix =
    if leb (len suffix) (len s) && (slice s (len s - len suffix) (len s) == suffix)
    then some (slice s 0 (len s - len suffix))
    else none

unfoldable pub resolved_issuer : JwksConfig → String → String
resolved_issuer cfg name = elim cfg.issuer [
  | some issuer ↦ issuer
  | none ↦ elim cfg.openid_configuration_url [
    | none ↦ name
    | some url ↦ unwrap_or (strip_suffix url "/.well-known/openid-configuration") name
  ]
]

unfoldable pub expected_issuer : ProvisionerConfig → String
expected_issuer cfg = elim cfg.kind [
  | jwk key ↦ cfg.name
  | jwks source ↦ resolved_issuer source cfg.name
]

-- the hooks of a configuration, as far as the check of the provisioners reads them
pub record HookScope : Type 0 where
  pub provisioners : List String

abbrev pub applies : String → HookScope → Bool
applies name hook = is_empty hook.provisioners || any (λ p. p == name) hook.provisioners

unfoldable pub validate_provisioner_authorization :
    List ProvisionerConfig → List HookScope → Result (Unit {0})
unfolding effective_authorized
validate_provisioner_authorization [] hooks = ok tt
validate_provisioner_authorization (cfg ∷ cfgs) hooks =
    let rest = validate_provisioner_authorization cfgs hooks in
    if effective_authorized cfg || any (applies cfg.name) hooks
    then rest
    else err (config "is not authorized but no hook applies to it")

pub record JwkVerifier : Type 0 where
  pub issuer : String
  pub audiences : List String
  pub key : SigningKey
  pub leeway_secs : ℕ

pub record JwksVerifier : Type 0 where
  pub issuer : String
  pub audiences : List String
  pub source : JwksSource
  pub leeway_secs : ℕ

pub data TokenVerifier : Type 0 where
  static : JwkVerifier → TokenVerifier
  remote : JwksVerifier → TokenVerifier

abbrev pub issuer_of : TokenVerifier → String
issuer_of (static v) = v.issuer
issuer_of (remote v) = v.issuer

pub record Provisioner : Type 0 where
  pub name : String
  pub template : Option String
  pub authorized : Bool
  pub verifier : TokenVerifier

module _ (J : Jwt) where
  unfoldable pub new_jwk_verifier : ProvisionerConfig → Jwk → Result JwkVerifier
  new_jwk_verifier cfg key = do
    key ← signing_key_from_jwk J config key
    ok (record { issuer = cfg.name; audiences = cfg.audiences; key = key; leeway_secs = 60 })

  unfoldable pub new_jwks_verifier :
      ProvisionerConfig → JwksConfig → List Exchange → Result JwksVerifier
  new_jwks_verifier cfg endpoint replies = do
    guard (not (is_empty cfg.audiences)) (config "`jwks` requires a non-empty `audiences`")
    source ← new_source (resolved_issuer endpoint cfg.name) endpoint replies
    ok (record {
      issuer = resolved_issuer endpoint cfg.name;
      audiences = cfg.audiences;
      source = source;
      leeway_secs = 60;
    })

  unfoldable pub new_verifier : ProvisionerConfig → List Exchange → Result TokenVerifier
  new_verifier cfg replies = elim cfg.kind [
    | jwk key ↦ elim (new_jwk_verifier cfg key) [ ok v ↦ ok (static v) | err e ↦ err e ]
    | jwks source ↦ elim (new_jwks_verifier cfg source replies) [
      | ok v ↦ ok (remote v)
      | err e ↦ err e
    ]
  ]

  -- The loop of `from_configs`. The replies that a source is to get are given by its issuer.
  unfoldable pub build :
      (String → List Exchange) → List String → List ProvisionerConfig → Result (List Provisioner)
  build replies seen [] = ok []
  build replies seen (cfg ∷ cfgs) = do
    guard (not (any (λ i. i == expected_issuer cfg) seen))
        (config "claimed by more than one provisioner")
    verifier ← new_verifier cfg (replies (expected_issuer cfg))
    rest ← build replies (expected_issuer cfg ∷ seen) cfgs
    ok (
        record {
          name = cfg.name;
          template = cfg.template;
          authorized = effective_authorized cfg;
          verifier = verifier;
        }
        ∷ rest)

  unfoldable pub from_configs :
      (String → List Exchange) → List ProvisionerConfig → Result (List Provisioner)
  from_configs replies cfgs = build replies [] cfgs

  module _ (D : Documents) where
    unfoldable pub verify_remote :
        SystemTime → String → String → JwksVerifier → Result (OttClaims × String) × JwksVerifier
    verify_remote now token audience v = elim (J.decode_header token) [
      | none ↦ (err (unauthorized "malformed token header"), v)
      | some kid ↦
          let (key, source) = resolve J D now kid v.source in
          (
            (do k ← key; validate_signed J now token audience v.issuer v.audiences k v.leeway_secs),
            record v { source = source },
          )
    ]

    unfoldable pub verify :
        SystemTime → String → String → TokenVerifier → Result (OttClaims × String) × TokenVerifier
    verify now token audience (static v) =
        (validate_signed J now token audience v.issuer v.audiences v.key v.leeway_secs, static v)
    verify now token audience (remote v) =
        let (r, v') = verify_remote now token audience v in (r, remote v')

    unfoldable pub validated : Provisioner → Result (OttClaims × String) → Result Validated
    validated p (err e) = err e
    validated p (ok (claims, replay_id)) = ok (record {
      claims = claims;
      provisioner = p.name;
      authorized = p.authorized;
      template = p.template;
      replay_id = replay_id;
    })

    -- The first provisioner whose verifier claims the token verifies it.
    unfoldable pub validate : SystemTime → String → String → Action (List Provisioner) Validated
    validate now token audience [] = (err (unauthorized "unknown provisioner"), [])
    validate now token audience (p ∷ ps) =
        let (r, verifier) = verify now token audience p.verifier in
        let (rest, ps') = validate now token audience ps in
        if matches J (issuer_of p.verifier) token
        then (validated p r, record p { verifier = verifier } ∷ ps)
        else (rest, p ∷ ps')
