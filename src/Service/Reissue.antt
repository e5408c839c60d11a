-- ===== src/Service/Reissue.antt =====
-- ayane/src/service.rs, `try_renew_or_rekey`: all that is checked and decided between the look-up of
-- the revocation and the first claim.
use ayane.Base.{
  String, ◌==◌, leb, Option, none, some, List, [], ◌∷◌, is_some, unwrap_or, if◌then◌else◌, true,
}
use ayane.Error.{Result, ok, err, ok_or, forbidden, internal, ◌>>=◌, ◌>>◌}
use ayane.Time.{SystemTime, checked_add, duration_since}
use ayane.San.{San, Bytes}
use ayane.X509.{
  Formats, Certificate, PublicKey, Name, AttributeTypeAndValue, Extension, is_marked_non_renewable,
}
use ayane.Hook.{Context, Customization, renew, rekey}
use ayane.Hook
use ayane.Csr.{from_pem, verify_signature, push_names}
use ayane.Service.{Service, VerifiedProof, clamp_not_after, check_window}

-- an attribute's text, if it is a common name
unfoldable pub attribute_name : Formats → AttributeTypeAndValue → Option String
attribute_name F atv =
    if atv.oid == F.common_name_oid
    then elim (F.utf8_string_from_der atv.value) [
      | some s ↦ some s
      | none ↦ F.printable_string_from_der atv.value
    ]
    else none

unfoldable pub rdn_name : Formats → List AttributeTypeAndValue → Option String
rdn_name F [] = none
rdn_name F (atv ∷ atvs) = elim (attribute_name F atv) [ some s ↦ some s | none ↦ rdn_name F atvs ]

unfoldable pub subject_common_name : Formats → Name → Option String
subject_common_name F [] = none
subject_common_name F (rdn ∷ rdns) = elim (rdn_name F rdn) [
  | some s ↦ some s
  | none ↦ subject_common_name F rdns
]

-- the loop over the extensions
unfoldable pub names_of : Formats → List San → List Extension → Result (List San)
names_of F out [] = ok out
names_of F out (ext ∷ exts) =
    if ext.extn_id == F.subject_alt_name_oid
    then (do
      names ← ok_or (F.san_from_der ext.extn_value) (internal "decode SAN from certificate")
      names_of F (push_names out names) exts)
    else names_of F out exts

unfoldable pub cert_sans : Formats → Certificate → Result (List San)
cert_sans F cert = elim cert.tbs_certificate.extensions [
  | some exts ↦ names_of F [] exts
  | none ↦ ok []
]

unfoldable pub cert_validity_window : Formats → Certificate → SystemTime × SystemTime
cert_validity_window F cert = (
  F.to_system_time cert.tbs_certificate.validity.not_before,
  F.to_system_time cert.tbs_certificate.validity.not_after,
)

unfoldable pub refuse_marked : Formats → Certificate → Result (Unit {0})
refuse_marked F cert =
    if is_marked_non_renewable F cert then err (forbidden "certificate is not renewable") else ok tt

unfoldable pub refuse_expired : SystemTime → SystemTime → Result (Unit {0})
refuse_expired now cert_na =
    if leb cert_na now
    then err (forbidden "certificate has expired and cannot be renewed")
    else ok tt

-- what a reissue goes on with
pub record ReissuePlan : Type 0 where
  pub proof : VerifiedProof
  pub public_key : PublicKey
  pub baseline_subject : String
  -- the end of the baseline window
  pub not_after : SystemTime
  pub context : Context
  pub custom : Customization

module _ {S : Type 0} (self : Service S) (now : SystemTime) where
  -- the new key, of which the CSR proves possession, or the previous one
  unfoldable pub reissue_key : Certificate → Option String → Result (PublicKey × Option Bytes)
  reissue_key cert none = ok (cert.tbs_certificate.subject_public_key_info, none)
  reissue_key cert (some pem) = do
    new_csr ← from_pem self.formats self.csr_formats pem
    verify_signature self.formats self.csr_formats new_csr
    ok (new_csr.public_key, some new_csr.der)

  unfoldable pub reissue_context :
      Option String → String → List San → SystemTime → Option Bytes → Bytes → Context
  reissue_context new_csr_pem subject sans not_after csr_der previous = record {
    operation = if is_some new_csr_pem then rekey else renew;
    authorized = true;
    provisioner = none;
    subject = subject;
    sans = sans;
    not_before = now;
    not_after = not_after;
    csr_der = csr_der;
    previous_certificate_der = some previous;
    renewable = true;
  }

  -- the hooks' customization, with `notAfter` no later than the baseline's
  unfoldable pub customize_reissue : SystemTime → Context → Result Customization
  customize_reissue not_after context = do
    asked ← Hook.run self.parse_oid now self.hooks context
    let custom : Customization = record asked {
      not_after = clamp_not_after (some not_after) asked.not_after;
    }
    check_window custom.not_before custom.not_after
    ok custom

  unfoldable pub reissue_plan : Certificate → Option String → String → String → Result ReissuePlan
  reissue_plan cert new_csr_pem dpop request_url = do
    refuse_marked self.formats cert
    let window = cert_validity_window self.formats cert
    refuse_expired now window.1
    proof ← self.verify_proof now dpop cert request_url self.dpop_max_age
    key ← reissue_key cert new_csr_pem
    let subject = unwrap_or (subject_common_name self.formats cert.tbs_certificate.subject) ""
    sans ← cert_sans self.formats cert
    let original_duration = unwrap_or (duration_since window.1 window.0) 0
    not_after ← ok_or (checked_add now original_duration) (internal "renewal validity overflow")
    previous ← self.certificate_to_der cert
    let context = reissue_context new_csr_pem subject sans not_after key.1 previous
    custom ← customize_reissue not_after context
    ok (record {
      proof = proof;
      public_key = key.0;
      baseline_subject = subject;
      not_after = not_after;
      context = context;
      custom = custom;
    })
