-- ===== src/Tls/Renewer.antt =====
-- ayane/src/tls.rs: the issuer of the server's own certificate, and the task that renews it. The
-- encoders of keys, the PEM parser and the loader of keys are the fields of `Keys`.
use ayane.Base.{ℕ, String, ◌+◌, min, Option, none, some, List, [], ◌∷◌, ◌++◌, true, false}
use ayane.Error.{Result, ok, err, ◌>>=◌}
use ayane.Time.{SystemTime, Duration, checked_add, checked_sub, from_secs}
use ayane.San.{San, Bytes, dns}
use ayane.X509.{Formats, PublicKey}
use ayane.Template.{
  CertificateTemplate, default_template, digital_signature, key_encipherment, server_auth,
}
use ayane.Ca.{CertificateAuthority, Signer, IssueParams, issue}
use ayane.Tls.{
  Addresses, TlsConfig, resolve_sans, renew_delay, effective_renew_before, effective_renew_jitter,
}

pub record Keys : Type 0 where
  -- the public key of a fresh key, encoded and read back
  pub public_key_of : Bytes → Result PublicKey
  pub parse_many : String → Result (List Bytes)
  pub to_pkcs8_der : Bytes → Result Bytes
  pub any_ecdsa_type : Bytes → Result Bytes

-- without the handle to the CA, which is an argument below
pub record SelfIssuer : Type 0 where
  pub sans : List San
  pub validity : Duration
  pub renew_before : Duration
  pub renew_jitter : Duration
  pub template : CertificateTemplate

-- rustls's `CertifiedKey`
pub record CertifiedKey : Type 0 where
  pub cert : List Bytes
  pub key : Bytes

pub record ServingCert : Type 0 where
  pub certified_key : CertifiedKey
  pub not_after : SystemTime

abbrev pub server_template : CertificateTemplate
server_template = record default_template {
  key_usage = digital_signature ∷ key_encipherment ∷ [];
  extended_key_usage = server_auth ∷ [];
  is_ca = false;
  path_len = none;
  set_common_name = true;
}

-- `SelfIssuer::new`
unfoldable pub self_issuer : Addresses → TlsConfig → Option String → Result SelfIssuer
self_issuer A tls external_url = do
  sans ← resolve_sans A tls external_url
  ok (record {
    sans = sans;
    validity = tls.validity;
    renew_before = effective_renew_before tls;
    renew_jitter = effective_renew_jitter tls;
    template = server_template;
  })

-- the first DNS name, or the empty text
unfoldable pub serving_common_name : List San → String
serving_common_name [] = ""
serving_common_name (dns d ∷ sans) = d
serving_common_name (san ∷ sans) = serving_common_name sans

-- `now - 60 s` and `now + validity`, `none` where one of them panics
unfoldable pub serving_window : SystemTime → Duration → Option (SystemTime × SystemTime)
serving_window now validity = elim (checked_sub now (from_secs 60)) [
  | none ↦ none
  | some not_before ↦ elim (checked_add now validity) [
    | none ↦ none
    | some not_after ↦ some (not_before, not_after)
  ]
]

abbrev pub serving_params : SelfIssuer → PublicKey → SystemTime → SystemTime → IssueParams
serving_params issuer public_key not_before not_after = record {
  common_name = serving_common_name issuer.sans;
  sans = issuer.sans;
  public_key = public_key;
  not_before = not_before;
  not_after = not_after;
  template = issuer.template;
  key_usage_override = none;
  extended_key_usage_override = none;
  additional_extensions = [];
  renewable = true;
}

-- the two nested loops over the PEM texts and their blocks
unfoldable pub parse_chain : Keys → List String → Result (List Bytes)
parse_chain T [] = ok []
parse_chain T (text ∷ texts) = do
  blocks ← T.parse_many text
  more ← parse_chain T texts
  ok (blocks ++ more)

-- what one issuance draws, and the key provider as it answers then
pub record Attempt : Type 0 where
  pub secret : Bytes
  pub serial : Bytes
  pub signer : Signer

-- What the task has, at a time: the certificate in the resolver, and when it ends.
pub record Renewer : Type 0 where
  pub now : SystemTime
  pub current : CertifiedKey
  pub not_after : SystemTime

-- What an iteration meets: the draw of its jitter, how long after the due time the clock is read
-- again, what it issues with and how long that takes, and how late the pause after a failure ends.
pub record Round : Type 0 where
  pub draw : ℕ
  pub late : Duration
  pub attempt : Attempt
  pub took : Duration
  pub paused : Duration

pub data Turn : Type 0 where
  renewed failed : Renewer → Turn
  panicked : Turn

abbrev pub retry_backoff : SelfIssuer → Duration
retry_backoff issuer = min issuer.renew_before (from_secs 60)

module _ (F : Formats) (T : Keys) (ca : CertificateAuthority) where
  -- the part of `issue_serving` after the window
  unfoldable pub serve :
      SelfIssuer → Attempt → PublicKey → SystemTime × SystemTime → Result ServingCert
  serve issuer a public_key window = do
    issued ← issue F a.signer ca a.serial (serving_params issuer public_key window.0 window.1)
    certs ← parse_chain T (issued.pem ∷ ca.chain_pem)
    key_der ← T.to_pkcs8_der a.secret
    signing_key ← T.any_ecdsa_type key_der
    ok (record { certified_key = record { cert = certs; key = signing_key }; not_after = window.1 })

  -- `none` where it panics
  unfoldable pub issue_serving : SelfIssuer → Attempt → SystemTime → Option (Result ServingCert)
  issue_serving issuer a now = elim (T.public_key_of a.secret) [
    | err e ↦ some (err e)
    | ok public_key ↦ elim (serving_window now issuer.validity) [
      | none ↦ none
      | some window ↦ some (serve issuer a public_key window)
    ]
  ]

  -- the arms of the match on the answer
  unfoldable pub settle :
      SelfIssuer → Round → SystemTime → Renewer → Option (Result ServingCert) → Turn
  settle issuer r done st none = panicked
  settle issuer r done st (some (ok serving)) =
      renewed
        (record { now = done; current = serving.certified_key; not_after = serving.not_after })
  settle issuer r done st (some (err e)) =
      failed (record st { now = done + retry_backoff issuer + r.paused })

  -- one iteration of `run_renewer`
  unfoldable pub iteration : SelfIssuer → Round → Renewer → Turn
  iteration issuer r st =
      let woken =
        st.now
        + renew_delay st.now st.not_after issuer.renew_before issuer.renew_jitter r.draw
        + r.late in
      settle issuer r (woken + r.took) st (issue_serving issuer r.attempt woken)
