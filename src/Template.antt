-- ===== src/Template.antt =====
-- ayane/src/template.rs: the shape and the validity of an issued certificate.
pub mod Extensions
pub mod Validity
use ayane.Base.{
  ℕ, String, ◌≡◌, Bool, true, false, not, Option, none, some, List, [], ◌∷◌, ◌++◌, map, ◌+◌, ◌*◌,
  ◌==◌, ltb, min, any, retain, unwrap_or, is_empty, if◌then◌else◌, nat_eq,
}
use ayane.Error.{Result, ok, err, ok_or, internal, bad_request, ◌>>=◌}
use ayane.Time.{SystemTime, Duration, from_secs, checked_add, checked_sub, duration_since}
use ayane.San.{San, Bytes, GeneralName, to_general_name}
use ayane.X509.{
  Extension, Formats, PublicKey, ExtensionValue, basic_constraints, key_usage, extended_key_usage,
  subject_alt_name, subject_key_identifier, authority_key_identifier, extension, key_identifier,
}
use ayane.X509

pub data KeyUsageName : Type 0 where
  digital_signature content_commitment key_encipherment data_encipherment : KeyUsageName
  key_agreement key_cert_sign crl_sign encipher_only decipher_only : KeyUsageName

unfoldable pub flag : KeyUsageName → X509.KeyUsages
flag digital_signature = X509.digital_signature
flag content_commitment = X509.non_repudiation
flag key_encipherment = X509.key_encipherment
flag data_encipherment = X509.data_encipherment
flag key_agreement = X509.key_agreement
flag key_cert_sign = X509.key_cert_sign
flag crl_sign = X509.crl_sign
flag encipher_only = X509.encipher_only
flag decipher_only = X509.decipher_only

pub data ExtKeyUsageName : Type 0 where
  server_auth client_auth code_signing email_protection time_stamping ocsp_signing : ExtKeyUsageName

-- The arc under id-kp of each purpose; `key_purpose_oid` names the identifier.
unfoldable pub purpose : ExtKeyUsageName → ℕ
purpose server_auth = 1
purpose client_auth = 2
purpose code_signing = 3
purpose email_protection = 4
purpose time_stamping = 8
purpose ocsp_signing = 9

pub record CertificateTemplate : Type 0 where
  pub key_usage : List KeyUsageName
  pub extended_key_usage : List ExtKeyUsageName
  pub is_ca : Bool
  pub path_len : Option ℕ
  pub set_common_name : Bool
  pub default_validity : Duration
  pub min_validity : Duration
  pub max_validity : Duration
  pub backdate : Duration

abbrev pub default_template : CertificateTemplate
default_template = record {
  key_usage = digital_signature ∷ [];
  extended_key_usage = server_auth ∷ [];
  is_ca = false;
  path_len = none;
  set_common_name = true;
  default_validity = from_secs 86_400;
  min_validity = from_secs 60;
  max_validity = from_secs 86_400;
  backdate = from_secs 60;
}

pub record ExtensionOverrides : Type 0 where
  pub key_usage : Option (List KeyUsageName)
  pub extended_key_usage : Option (List ExtKeyUsageName)
  pub additional_extensions : List Extension

unfoldable pub upsert_extension : List Extension → Extension → List Extension
upsert_extension exts ext = retain (λ e. not (e.extn_id == ext.extn_id)) exts ++ ext ∷ []

-- `if let Some(ext) = o { upsert_extension(exts, ext) }`
unfoldable pub upsert_some : List Extension → Option Extension → List Extension
upsert_some exts none = exts
upsert_some exts (some ext) = upsert_extension exts ext

-- the loop over `additional_extensions`
unfoldable pub upsert_all : List Extension → List Extension → List Extension
upsert_all exts [] = exts
upsert_all exts (ext ∷ more) = upsert_all (upsert_extension exts ext) more

unfoldable pub key_usage_extension : Formats → List KeyUsageName → Result (Option Extension)
key_usage_extension F names =
    if is_empty names
    then ok none
    else do ext ← extension F (X509.key_usage (map flag names)) true; ok (some ext)

unfoldable pub extended_key_usage_extension :
    Formats → List ExtKeyUsageName → Result (Option Extension)
extended_key_usage_extension F names = if is_empty names then ok none else do
  ext ← extension F (X509.extended_key_usage (map (λ e. F.key_purpose_oid (purpose e)) names)) false
  ok (some ext)

-- `sans.iter().map(GeneralName::try_from).collect::<Result<Vec<_>>>()`
unfoldable pub general_names : Formats → List San → Result (List GeneralName)
general_names F [] = ok []
general_names F (san ∷ sans) = do
  gn ← to_general_name F.is_ia5 san
  gns ← general_names F sans
  ok (gn ∷ gns)

unfoldable pub subject_alt_name_extension : Formats → List San → Bool → Result (Option Extension)
subject_alt_name_extension F sans critical = if is_empty sans then ok none else do
  gns ← general_names F sans
  ext ← extension F (subject_alt_name gns) critical
  ok (some ext)

unfoldable pub finalize_key_identifiers :
    Formats → List Extension → PublicKey → Bytes → Result (List Extension)
unfolding ◌>>=◌
finalize_key_identifiers F exts subject_spki ca_key_id = do
  ski ← extension F (subject_key_identifier (key_identifier F subject_spki)) false
  aki ← extension F (authority_key_identifier ca_key_id) false
  ok (upsert_extension (upsert_extension exts ski) aki)

module _ (F : Formats) (self : CertificateTemplate) where
  unfoldable pub build_extensions :
      PublicKey → List San → Bytes → Bool → ExtensionOverrides → Result (List Extension)
  build_extensions subject_spki sans ca_key_id subject_is_empty overrides = do
    let path_len = if self.is_ca then self.path_len else none
    bc ← extension F (basic_constraints self.is_ca path_len) true
    let usage = unwrap_or overrides.key_usage self.key_usage
    ku ← key_usage_extension F usage
    let purposes = unwrap_or overrides.extended_key_usage self.extended_key_usage
    eku ← extended_key_usage_extension F purposes
    san ← subject_alt_name_extension F sans subject_is_empty
    let exts = upsert_some (upsert_some (upsert_some (upsert_extension [] bc) ku) eku) san
    let all = upsert_all exts overrides.additional_extensions
    finalize_key_identifiers F all subject_spki ca_key_id

-- `None => default_validity + backdate`, `Some(na) => na - not_before`
unfoldable pub requested_duration :
    CertificateTemplate → SystemTime → Option SystemTime → Result Duration
requested_duration self not_before none = ok (self.default_validity + self.backdate)
requested_duration self not_before (some na) =
    ok_or (duration_since na not_before) (bad_request "notAfter precedes notBefore")

unfoldable pub compute_validity :
    CertificateTemplate
    → SystemTime
    → Option SystemTime
    → Option SystemTime
    → Result (SystemTime × SystemTime)
unfolding requested_duration ◌>>=◌
compute_validity self now requested_not_before requested_not_after = do
  let base = unwrap_or requested_not_before now
  let not_before = unwrap_or (checked_sub base self.backdate) base
  requested ← requested_duration self not_before requested_not_after
  if ltb requested self.min_validity
      then err (bad_request "requested validity is below the minimum")
      else do
        let duration = min requested (self.max_validity + self.backdate)
        not_after ← ok_or (checked_add not_before duration) (internal "validity overflow")
        ok (not_before, not_after)

unfoldable pub max_not_after : CertificateTemplate → SystemTime → Option SystemTime
max_not_after self not_before = checked_add not_before (self.max_validity + self.backdate)
