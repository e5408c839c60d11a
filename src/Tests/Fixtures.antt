-- ===== src/Tests/Fixtures.antt =====
-- Concrete codecs, keys and requests that the tests share.
use ayane.Base.{
  ◌==◌, eq_iff, if◌then◌else◌, not, nat_eq, ◌-◌, ◌/◌, String, ◌+◌, ◌≡◌, ◌≢◌, refl, Bool, true,
  false, none, some, [], ◌∷◌, arith,
}
use ayane.Error.{ok, err, internal}
use ayane.Time.{nanos_per_sec, SystemTime, unix_epoch, from_secs}
use ayane.Crypto
use ayane.X509.{Formats, PublicKey, Certificate, utc_time, non_renewable_oid}
use ayane.Ca.{Signer, CertificateAuthority}
use ayane.Ca.Marker.{IsCoherent}
use ayane.Storage.Sqlite.{Json, SqliteStorage, Database}
use ayane.Storage.Sqlite.Laws.{IsCodec}

abbrev pub any_text : String → Bool
any_text s = true

abbrev pub noon : SystemTime
noon = unix_epoch + from_secs 1_000_000

-- Codecs that write nothing, but tell the two truth values apart.
abbrev pub formats : Formats
formats = record {
  basic_constraints_oid = "2.5.29.19";
  key_usage_oid = "2.5.29.15";
  extended_key_usage_oid = "2.5.29.37";
  subject_alt_name_oid = "2.5.29.17";
  subject_key_identifier_oid = "2.5.29.14";
  authority_key_identifier_oid = "2.5.29.35";
  common_name_oid = "2.5.4.3";
  key_purpose_oid = λ n. "1.3.6.1.5.5.7.3";
  to_der = λ value. some [];
  san_from_der = λ bytes. some [];
  bool_to_der = λ b. if b then 1 ∷ [] else 0 ∷ [];
  bool_from_der = λ bytes. elim bytes [ [] ↦ none | x ∷ more ↦ some (not (nat_eq x 0)) ];
  utf8_string_to_der = λ text. ok [];
  utf8_string_from_der = λ bytes. none;
  printable_string_from_der = λ bytes. none;
  is_ia5 = any_text;
  date_time = λ t. some (t / nanos_per_sec - 9_223_372_036_854_775_808);
  year = λ s. 1970 + s / 31_556_952;
  is_utc_time = λ s. true;
  to_system_time = λ t. noon;
  sha1 = λ bytes. bytes;
}

pub apart : (a b : String) → (a == b) ≡ false → a ≢ b
apart a b h e = ground (arith, (eq_iff a b).1 e)

pub formats-IsCoherent : IsCoherent formats
formats-IsCoherent = record {
  ski_aki = apart "2.5.29.14" "2.5.29.35" refl;
  marker_ski = apart non_renewable_oid "2.5.29.14" refl;
  marker_aki = apart non_renewable_oid "2.5.29.35" refl;
  false_decodes = refl;
}

abbrev pub signer : Signer
signer = record {
  algorithm = Crypto.ecdsa_sha256;
  algorithm_oid = λ a. "1.2.840.10045.4.3.2";
  sign = λ bytes. ok (1 ∷ 2 ∷ []);
  tbs_to_der = λ tbs. ok [];
  certificate_pem = λ cert. ok "pem";
  format_rfc3339 = λ t. "2026-01-01T00:00:00Z";
  verify_x509_signature = λ key message signature algorithm. true;
}

abbrev pub authority : CertificateAuthority
authority = record {
  issuer_name = [];
  ca_key_id = 9 ∷ [];
  ca_spki = record {
    algorithm_oid = "1.2.840.10045.2.1";
    parameters = none;
    subject_public_key = 9 ∷ [];
  };
  chain_pem = [];
  roots_pem = [];
}

abbrev pub leaf_key : PublicKey
leaf_key = record {
  algorithm_oid = "1.2.840.10045.2.1";
  parameters = some (6 ∷ []);
  subject_public_key = 4 ∷ 2 ∷ [];
}

-- A marked certificate, and its renewal as one that is renewable.
abbrev pub marked : Certificate
marked = record {
  tbs_certificate = record {
    serial_number = 64 ∷ [];
    signature = record { oid = "1.2.840.10045.4.3.2"; parameters = false };
    issuer = [];
    validity = record { not_before = utc_time 0; not_after = utc_time 86_400 };
    subject = [];
    subject_public_key_info = leaf_key;
    extensions =
        some (record { extn_id = non_renewable_oid; critical = false; extn_value = 0 ∷ [] } ∷ []);
  };
  signature_algorithm = record { oid = "1.2.840.10045.4.3.2"; parameters = false };
  signature = [];
}

-- A codec that writes a list of one name.
abbrev pub json : Json
json = record {
  to_string = λ sans. elim sans [
    | [] ↦ err (internal "no name")
    | name ∷ more ↦ elim more [ [] ↦ ok name | _ ↦ err (internal "names") ]
  ];
  from_str = λ text. some (text ∷ []);
}

abbrev pub empty : Database
empty = record { certificates = []; revocations = []; tokens = []; cache = [] }

-- The third statement to come fails.
abbrev pub flaky : SqliteStorage
flaky = record { database = empty; faults = none ∷ none ∷ none ∷ some "disk I/O error" ∷ [] }

pub json-IsCodec : IsCodec json
json-IsCodec [] text h = cc
json-IsCodec (name ∷ []) text h = ground arith
json-IsCodec (name ∷ other ∷ more) text h = cc
