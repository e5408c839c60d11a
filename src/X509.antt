-- ===== src/X509.antt =====
-- ayane/src/x509.rs: the certificate's parts, its extensions and the non-renewable marker.
--
-- The DER codecs, the dates and the hashes are third-party code. What the program uses of them is
-- the record `Formats`, which the definitions take as an argument. Object identifiers are texts in
-- dotted form; a public key keeps the fields that the program reads.
use ayane.Base.{
  ℕ, String, Bool, false, not, Option, none, some, List, [], ◌∷◌, ◌==◌, leb, find, unwrap_or,
  if◌then◌else◌,
}
use ayane.Error.{Result, ok, err, ok_or, internal, ◌>>=◌}
use ayane.Time.{SystemTime}
use ayane.San.{Bytes, GeneralName}
use ayane.Crypto.{AlgorithmIdentifier}

pub record Extension : Type 0 where
  pub extn_id : String
  pub critical : Bool
  pub extn_value : Bytes

-- flagset's set of `keyUsage` bits is the list of the bits that were set, in any order.
pub data KeyUsages : Type 0 where
  digital_signature non_repudiation key_encipherment data_encipherment key_agreement : KeyUsages
  key_cert_sign crl_sign encipher_only decipher_only : KeyUsages

-- The typed extension values that the program encodes.
pub data ExtensionValue : Type 0 where
  basic_constraints : Bool → Option ℕ → ExtensionValue
  key_usage : List KeyUsages → ExtensionValue
  extended_key_usage : List String → ExtensionValue
  subject_alt_name : List GeneralName → ExtensionValue
  subject_key_identifier : Bytes → ExtensionValue
  authority_key_identifier : Bytes → ExtensionValue

pub record AttributeTypeAndValue : Type 0 where
  pub oid : String
  pub value : Bytes

-- `RdnSequence`: relative names, each a set of attributes.
abbrev pub Name : Type 0
Name = List (List AttributeTypeAndValue)

pub record PublicKey : Type 0 where
  pub algorithm_oid : String
  pub parameters : Option Bytes
  pub subject_public_key : Bytes

-- An X.509 time, in seconds since the Unix epoch.
pub data X509Time : Type 0 where
  utc_time general_time : ℕ → X509Time

pub record Validity : Type 0 where
  pub not_before : X509Time
  pub not_after : X509Time

pub record TbsCertificate : Type 0 where
  pub serial_number : Bytes
  pub signature : AlgorithmIdentifier
  pub issuer : Name
  pub validity : Validity
  pub subject : Name
  pub subject_public_key_info : PublicKey
  pub extensions : Option (List Extension)

pub record Certificate : Type 0 where
  pub tbs_certificate : TbsCertificate
  pub signature_algorithm : AlgorithmIdentifier
  pub signature : Bytes

pub record Formats : Type 0 where
  -- the object identifiers of x509_cert and const_oid
  pub basic_constraints_oid : String
  pub key_usage_oid : String
  pub extended_key_usage_oid : String
  pub subject_alt_name_oid : String
  pub subject_key_identifier_oid : String
  pub authority_key_identifier_oid : String
  pub common_name_oid : String
  pub key_purpose_oid : ℕ → String
  -- DER, `none` where it fails
  pub to_der : ExtensionValue → Option Bytes
  pub san_from_der : Bytes → Option (List GeneralName)
  pub bool_to_der : Bool → Bytes
  pub bool_from_der : Bytes → Option Bool
  pub utf8_string_to_der : String → Result Bytes
  pub utf8_string_from_der : Bytes → Option String
  pub printable_string_from_der : Bytes → Option String
  pub is_ia5 : String → Bool
  -- der's DateTime, in seconds since the Unix epoch
  pub date_time : SystemTime → Option ℕ
  pub year : ℕ → ℕ
  pub is_utc_time : ℕ → Bool
  pub to_system_time : X509Time → SystemTime
  pub sha1 : Bytes → Bytes

abbrev pub oid_of : Formats → ExtensionValue → String
oid_of F (basic_constraints _ _) = F.basic_constraints_oid
oid_of F (key_usage _) = F.key_usage_oid
oid_of F (extended_key_usage _) = F.extended_key_usage_oid
oid_of F (subject_alt_name _) = F.subject_alt_name_oid
oid_of F (subject_key_identifier _) = F.subject_key_identifier_oid
oid_of F (authority_key_identifier _) = F.authority_key_identifier_oid

abbrev pub non_renewable_oid : String
non_renewable_oid = "1.3.6.1.4.1.47517.9.1.509.1"

unfoldable pub non_renewable_extension : Formats → Extension
non_renewable_extension F = record {
  extn_id = non_renewable_oid;
  critical = false;
  extn_value = F.bool_to_der false;
}

-- The test on the extension list of a certificate.
unfoldable pub is_marked : Formats → List Extension → Bool
is_marked F extensions = elim (find (λ e. e.extn_id == non_renewable_oid) extensions) [
  | some ext ↦ not (unwrap_or (F.bool_from_der ext.extn_value) false)
  | none ↦ false
]

unfoldable pub is_marked_non_renewable : Formats → Certificate → Bool
unfolding is_marked
is_marked_non_renewable F cert = elim cert.tbs_certificate.extensions [
  | none ↦ false
  | some extensions ↦ is_marked F extensions
]

unfoldable pub extension : Formats → ExtensionValue → Bool → Result Extension
unfolding ◌>>=◌
extension F value critical = do
  bytes ← ok_or (F.to_der value) (internal "der")
  ok (record { extn_id = oid_of F value; critical = critical; extn_value = bytes })

-- crypto.rs: the hash of the key's bits
unfoldable pub key_identifier : Formats → PublicKey → Bytes
key_identifier F spki = F.sha1 spki.subject_public_key

unfoldable pub to_x509_time : Formats → SystemTime → Result X509Time
unfolding ◌>>=◌
to_x509_time F time = do
  dt ← ok_or (F.date_time time) (internal "validity time")
  if leb (F.year dt) 2049
      then (if F.is_utc_time dt then ok (utc_time dt) else err (internal "utc time"))
      else ok (general_time dt)

unfoldable pub validity : Formats → SystemTime → SystemTime → Result Validity
unfolding to_x509_time
validity F not_before not_after = do
  nb ← to_x509_time F not_before
  na ← to_x509_time F not_after
  ok (record { not_before = nb; not_after = na })

unfoldable pub name_with_common_name : Formats → String → Result Name
name_with_common_name F cn = if cn == "" then ok [] else do
  value ← F.utf8_string_to_der cn
  ok ((record { oid = F.common_name_oid; value = value } ∷ []) ∷ [])
