-- ===== src/Service.antt =====
-- ayane/src/service.rs: signing, renewing, rekeying and revoking, with what they read of
-- ayane-protocol/src/lib.rs. The instants at which one request reads the clock are one argument.
pub mod Claims
pub mod Plan
pub mod Sign
pub mod Signed
pub mod Policy
pub mod Reissue
pub mod Renew
pub mod Renewed
pub mod Revoke
pub mod Revoked
pub mod Scopes
pub mod Roots
use ayane.Base.{
  ℤ, pos, negsuc, ℕ, String, Bool, true, false, ◌+◌, ◌-◌, ◌*◌, ◌==◌, max, ltb, leb, not, Option,
  none, some, List, [], ◌∷◌, ◌++◌, map, find, unwrap_or, is_some, is_empty, if◌then◌else◌,
}
use Prim.Native.String
use ayane.Error.{
  Error, Result, ok, err, ok_or, config, forbidden, unauthorized, conflict, bad_request,
}
use ayane.Error
use ayane.Action.{Action, pure, fail, lift, ◌>>=◌, ◌>>◌}
use ayane.Time.{SystemTime, Duration, from_secs, unix_epoch, checked_add, duration_since}
use ayane.San.{San, IpAddr, Bytes, contains, to_string}
use ayane.San
use ayane.X509.{Formats, Certificate, Name, PublicKey}
use ayane.Template.{CertificateTemplate, compute_validity, max_not_after}
use ayane.Hook.{HookProvider, Context, Customization, OnceClaim, OnceScope, Operation}
use ayane.Hook
use ayane.Ca.{Signer, CertificateAuthority, IssuedCertificate, issue, reissue, verify_issued}
use ayane.Ca.Serial.{Text, serial_to_decimal}
use ayane.Csr.{ParsedCsr, CsrFormats, from_pem, verify_signature, requested_sans}
use ayane.Storage.{CertificateRecord, RevocationRecord, Storage}

-- ayane-protocol: the scope and the claims of a one-time token
pub record OnceScopeClaim : Type 0 where
  pub scope : String
  pub exp : Option ℤ

pub record OttClaims : Type 0 where
  pub sub : String
  pub sans : List String
  pub exp : ℤ
  -- `cnf.x5t#S256`
  pub x5t_s256 : Option String
  pub renew : Bool
  pub once : Option OnceScopeClaim

pub record SignRequest : Type 0 where
  pub csr : String
  pub token : String
  pub not_before : Option String
  pub not_after : Option String

pub record CertificateResponse : Type 0 where
  pub certificate : String
  pub chain : List String
  pub serial_number : Text
  pub not_after : String

-- authorizer/mod.rs: what a token stands for
pub record Validated : Type 0 where
  pub claims : OttClaims
  pub provisioner : String
  pub authorized : Bool
  pub template : Option String
  pub replay_id : String

-- dpop.rs
pub record VerifiedProof : Type 0 where
  pub jti : String
  pub issued_at : SystemTime

-- The service's parts. `validate` is that of the authorizer, on the tokens at an instant.
pub record Service (S : Type 0) : Type 0 where
  pub formats : Formats
  pub csr_formats : CsrFormats
  pub signer : Signer
  pub ca : CertificateAuthority
  pub storage : Storage S
  pub hooks : List HookProvider
  pub validate : SystemTime → String → String → Result Validated
  pub templates : List (String × CertificateTemplate)
  pub default_template_name : Option String
  pub fallback_template : CertificateTemplate
  -- dpop.rs: the proof's check, and the age it may have
  pub verify_proof : SystemTime → String → Certificate → String → Duration → Result VerifiedProof
  pub dpop_max_age : Duration
  -- third-party code
  pub certificate_from_pem : String → Result Certificate
  pub certificate_to_der : Certificate → Result Bytes
  pub parse_oid : String → Option String
  pub parse_ip : String → Option IpAddr
  pub parse_rfc3339 : String → Option SystemTime

abbrev pub replay_leeway : Duration
replay_leeway = from_secs 60

unfoldable pub system_time_from_epoch : ℤ → SystemTime
system_time_from_epoch (pos n) = unix_epoch + from_secs n
system_time_from_epoch (negsuc n) = unix_epoch

-- `match … { Err(Conflict(_)) => Err(Unauthorized(msg)), … }`
unfoldable pub on_conflict : {S A : Type 0} → String → Result A × S → Result A × S
on_conflict msg (ok a, s) = (ok a, s)
on_conflict msg (err (conflict d), s) = (err (unauthorized msg), s)
on_conflict msg (err e, s) = (err e, s)

-- `name.or(default)`
abbrev pub or_default : Option String → Option String → Option String
or_default none d = d
or_default (some n) d = some n

unfoldable pub find_template :
    List (String × CertificateTemplate) → String → Result CertificateTemplate
find_template [] n = err (config "unknown template")
find_template ((name, t) ∷ more) n = if name == n then ok t else find_template more n

unfoldable pub allowed_sans : (String → Option IpAddr) → OttClaims → List San
allowed_sans parse_ip claims =
    if is_empty claims.sans
    then San.parse parse_ip claims.sub ∷ []
    else map (λ s. San.parse parse_ip s) claims.sans

-- the test of every requested name against the token's
unfoldable pub check_sans : List San → List San → Result (Unit {0})
check_sans allowed [] = ok tt
check_sans allowed (san ∷ sans) =
    if contains allowed san
    then check_sans allowed sans
    else err (forbidden "SAN is not permitted by the token")

-- the names to ask for: those requested, or the full permitted set
unfoldable pub authorized_sans : Bool → List San → List San → Result (List San)
authorized_sans false allowed requested = ok requested
authorized_sans true allowed requested =
    let effective = if is_empty requested then allowed else requested in
    Error.◌>>=◌ (check_sans allowed effective) (λ _. ok effective)

-- the binding of a token to a CSR
unfoldable pub check_binding : OttClaims → String → Result (Unit {0})
check_binding claims fingerprint = elim claims.x5t_s256 [
  | none ↦ ok tt
  | some want ↦
      if want == fingerprint then ok tt else err (forbidden "token is bound to a different CSR")
]

-- `if let Some(ceiling) = … && not_after > ceiling { not_after = ceiling }`
unfoldable pub clamp_not_after : Option SystemTime → SystemTime → SystemTime
clamp_not_after none t = t
clamp_not_after (some ceiling) t = if ltb ceiling t then ceiling else t

unfoldable pub check_window : SystemTime → SystemTime → Result (Unit {0})
check_window not_before not_after =
    if leb not_after not_before
    then err (forbidden "certificate validity window collapsed")
    else ok tt

unfoldable pub parse_time :
    (String → Option SystemTime) → Option String → Result (Option SystemTime)
parse_time parse none = ok none
parse_time parse (some s) =
    Error.◌>>=◌ (ok_or (parse s) (bad_request "invalid timestamp")) (λ t. ok (some t))

-- a token's own scope, in the provisioner's name space
unfoldable pub token_scope : String → Option OnceScopeClaim → List OnceClaim
token_scope provisioner none = []
token_scope provisioner (some once) =
    record {
      namespace = String.◌++◌ "prov:" provisioner;
      value = once.scope;
      expires_at = elim once.exp [ some t ↦ some (system_time_from_epoch t) | none ↦ none ];
    }
    ∷ []

module _ {S : Type 0} (self : Service S) where
  unfoldable pub resolve_template : Option String → Result CertificateTemplate
  resolve_template name = elim (or_default name self.default_template_name) [
    | some n ↦ find_template self.templates n
    | none ↦ ok self.fallback_template
  ]

  unfoldable pub claim_once : SystemTime → String → SystemTime → String → Action S (Unit {0})
  claim_once now key expires_at conflict_msg s =
      on_conflict conflict_msg
        (self.storage.claim_token now key (max expires_at (now + replay_leeway)) s)

  unfoldable pub claim_jti : SystemTime → String → String → SystemTime → Action S (Unit {0})
  claim_jti now kind jti expires_at =
      claim_once now (String.◌++◌ kind (String.◌++◌ "#" jti)) expires_at
        "token or proof has already been used"

  abbrev pub scope_key : OnceClaim → String
  scope_key scope = String.◌++◌ "scope#" (String.◌++◌ scope.namespace (String.◌++◌ "#" scope.value))

  unfoldable pub claim_once_scopes : SystemTime → List OnceClaim → SystemTime → Action S (Unit {0})
  claim_once_scopes now [] default_expiry = pure tt
  claim_once_scopes now (scope ∷ scopes) default_expiry = do
    claim_once now (scope_key scope) (unwrap_or scope.expires_at default_expiry)
        "an issuance has already been performed for this scope"
    claim_once_scopes now scopes default_expiry

  unfoldable pub certificate_response : IssuedCertificate → CertificateResponse
  certificate_response issued = record {
    certificate = issued.pem;
    chain = self.ca.chain_pem;
    serial_number = issued.serial_decimal;
    not_after = issued.not_after_rfc3339;
  }
