-- ===== src/Ca.antt =====
-- ayane/src/ca.rs: issuing and reissuing certificates. The signing key, the encoders of whole
-- certificates and the random bytes are arguments.
pub mod Serial
pub mod Marker
pub mod Issued
use ayane.Base.{
  ℕ, String, ◌≡◌, Bool, true, false, not, ◌||◌, Option, none, some, List, [], ◌∷◌, ◌++◌, ◌==◌,
  retain, unwrap_or, is_empty, if◌then◌else◌,
}
use ayane.Error.{Result, ok, err, config, forbidden, ◌>>=◌, ◌>>◌}
use ayane.Time.{SystemTime}
use ayane.San.{San, Bytes}
use ayane.Crypto.{SignatureAlgorithm, AlgorithmIdentifier, algorithm_identifier}
use ayane.X509.{
  Extension, Formats, PublicKey, Name, TbsCertificate, Certificate, non_renewable_oid,
  non_renewable_extension, name_with_common_name, validity,
}
use ayane.Template.{
  CertificateTemplate, ExtensionOverrides, KeyUsageName, ExtKeyUsageName, build_extensions,
  upsert_some, upsert_all, subject_alt_name_extension, key_usage_extension,
  extended_key_usage_extension, finalize_key_identifiers,
}
use Serial.{Text, serial_to_decimal}

-- The key provider, and what der, pem and humantime do with whole certificates and instants.
pub record Signer : Type 0 where
  pub algorithm : SignatureAlgorithm
  pub algorithm_oid : SignatureAlgorithm → String
  pub sign : Bytes → Result Bytes
  pub tbs_to_der : TbsCertificate → Result Bytes
  pub certificate_pem : Certificate → Result String
  pub format_rfc3339 : SystemTime → String
  pub verify_x509_signature : PublicKey → Bytes → Bytes → AlgorithmIdentifier → Bool

pub record IssueParams : Type 0 where
  pub common_name : String
  pub sans : List San
  pub public_key : PublicKey
  pub not_before : SystemTime
  pub not_after : SystemTime
  pub template : CertificateTemplate
  pub key_usage_override : Option (List KeyUsageName)
  pub extended_key_usage_override : Option (List ExtKeyUsageName)
  pub additional_extensions : List Extension
  pub renewable : Bool

pub record ReissueParams : Type 0 where
  pub old : Certificate
  pub public_key : PublicKey
  pub subject_common_name_override : Option String
  pub sans : List San
  pub not_before : SystemTime
  pub not_after : SystemTime
  pub key_usage_override : Option (List KeyUsageName)
  pub extended_key_usage_override : Option (List ExtKeyUsageName)
  pub additional_extensions : List Extension
  pub renewable : Bool

pub record IssuedCertificate : Type 0 where
  pub certificate : Certificate
  pub pem : String
  pub serial_decimal : Text
  pub not_after_rfc3339 : String

pub record CertificateAuthority : Type 0 where
  pub issuer_name : Name
  pub ca_key_id : Bytes
  pub ca_spki : PublicKey
  pub chain_pem : List String
  pub roots_pem : List String

unfoldable pub set_non_renewable_marker : Formats → List Extension → Bool → List Extension
set_non_renewable_marker F extensions renewable =
    let rest = retain (λ e. not (e.extn_id == non_renewable_oid)) extensions in
    if renewable then rest else rest ++ non_renewable_extension F ∷ []

-- the extensions of the previous certificate that a reissue starts from
unfoldable pub kept_extensions : Formats → Option (List Extension) → List Extension
kept_extensions F none = []
kept_extensions F (some exts) =
    retain
      (λ ext. not (
        (ext.extn_id == F.subject_key_identifier_oid
          || ext.extn_id == F.authority_key_identifier_oid)
        || ext.extn_id == F.subject_alt_name_oid))
      exts

-- `match ext { Some(ext) => upsert, None => retain(not the identifier) }`
unfoldable pub replace_usage : List Extension → String → Option Extension → List Extension
replace_usage exts oid none = retain (λ e. not (e.extn_id == oid)) exts
replace_usage exts oid (some ext) = upsert_some exts (some ext)

module _ (F : Formats) (K : Signer) (self : CertificateAuthority) where
  -- the part that `issue` and `reissue` end with: assemble, sign and encode
  unfoldable pub seal :
      Bytes → Name → PublicKey → SystemTime → SystemTime → List Extension → Result IssuedCertificate
  seal serial_number subject public_key not_before not_after extensions = do
    window ← validity F not_before not_after
    let algorithm = algorithm_identifier K.algorithm_oid K.algorithm
    let tbs : TbsCertificate = record {
      serial_number = serial_number;
      signature = algorithm;
      issuer = self.issuer_name;
      validity = window;
      subject = subject;
      subject_public_key_info = public_key;
      extensions = some extensions;
    }
    tbs_der ← K.tbs_to_der tbs
    signature ← K.sign tbs_der
    let certificate : Certificate = record {
      tbs_certificate = tbs;
      signature_algorithm = algorithm;
      signature = signature;
    }
    pem ← K.certificate_pem certificate
    ok (record {
      certificate = certificate;
      pem = pem;
      serial_decimal = serial_to_decimal serial_number;
      not_after_rfc3339 = K.format_rfc3339 not_after;
    })

  unfoldable pub issue : Bytes → IssueParams → Result IssuedCertificate
  issue serial_number params = do
    let subject_is_empty = not params.template.set_common_name || params.common_name == ""
    let common_name = if params.template.set_common_name then params.common_name else ""
    subject ← name_with_common_name F common_name
    extensions ←
        build_extensions F params.template params.public_key params.sans self.ca_key_id
          subject_is_empty
          (record {
            key_usage = params.key_usage_override;
            extended_key_usage = params.extended_key_usage_override;
            additional_extensions = params.additional_extensions;
          })
    seal serial_number subject params.public_key params.not_before params.not_after
        (set_non_renewable_marker F extensions params.renewable)

  -- the subject: the override's common name, or the previous subject
  unfoldable pub reissue_subject : ReissueParams → Result Name
  reissue_subject params = elim params.subject_common_name_override [
    | some cn ↦ name_with_common_name F cn
    | none ↦ ok params.old.tbs_certificate.subject
  ]

  -- `if let Some(names) = &override { match extension(names)? … }`
  unfoldable pub override_usage :
      {A : Type 0}
      → (List A → Result (Option Extension))
      → String
      → Option (List A)
      → List Extension
      → Result (List Extension)
  override_usage build oid none exts = ok exts
  override_usage build oid (some names) exts = do ext ← build names; ok (replace_usage exts oid ext)

  unfoldable pub reissue : Bytes → ReissueParams → Result IssuedCertificate
  reissue serial_number params = do
    subject ← reissue_subject params
    let kept = kept_extensions F params.old.tbs_certificate.extensions
    san ← subject_alt_name_extension F params.sans (is_empty subject)
    with_usage ←
        override_usage (key_usage_extension F) F.key_usage_oid params.key_usage_override
          (upsert_some kept san)
    with_purposes ←
        override_usage (extended_key_usage_extension F) F.extended_key_usage_oid
          params.extended_key_usage_override with_usage
    let added = upsert_all with_purposes params.additional_extensions
    let marked = set_non_renewable_marker F added params.renewable
    extensions ← finalize_key_identifiers F marked params.public_key self.ca_key_id
    seal serial_number subject params.public_key params.not_before params.not_after extensions

  unfoldable pub verify_issued : Certificate → Result (Unit {0})
  verify_issued cert = do
    tbs ← K.tbs_to_der cert.tbs_certificate
    if K.verify_x509_signature self.ca_spki tbs cert.signature cert.signature_algorithm
        then ok tt
        else err (forbidden "certificate was not issued by this CA")
