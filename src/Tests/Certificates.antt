-- ===== src/Tests/Certificates.antt =====
-- The certificate theorems at concrete parameters.
use ayane.Base.{min, ◌-◌, ◌+◌, ◌≤◌, ◌≡◌, ◌↔◌, refl, true, false, none, some, [], ◌∷◌, arith}
use ayane.Error.{ok}
use ayane.Time.{SystemTime, from_secs}
use ayane.San.{San, dns, ip, v4, ip_address, to_general_name, from_general_name}
use ayane.San.RoundTrip.{from-to_general_name}
use ayane.Template.{default_template, compute_validity, requested_duration}
use ayane.Template.Validity.{start_of, compute_validity_bounds}
use ayane.Ca.{IssueParams, ReissueParams, IssuedCertificate, issue, reissue}
use ayane.Ca.Issued.{IsCertified, issue-IsCertified, reissue-IsCertified}
use ayane.Ca.Serial.{serial_to_decimal}
use ayane.Ca.Serial.Canonical.{serial_to_decimal-eq_iff}
use ayane.Ca.Serial.Value.{bytes_from}
use ayane.Tests.Fixtures.{
  any_text, noon, formats, formats-IsCoherent, signer, authority, leaf_key, marked,
}

serial_to_decimal-eq_iff_example :
    (serial_to_decimal (0 ∷ 7 ∷ []) ≡ serial_to_decimal (7 ∷ []))
    ↔ (bytes_from 0 (0 ∷ 7 ∷ []) ≡ bytes_from 0 (7 ∷ []))
serial_to_decimal-eq_iff_example =
    serial_to_decimal-eq_iff (0 ∷ 7 ∷ []) (7 ∷ []) (omega arith, (omega arith, tt))
      (omega arith, tt)

abbrev address : San
address = ip (v4 (192 ∷ 0 ∷ 2 ∷ 1 ∷ []))

from-to_general_name_example : from_general_name (ip_address (192 ∷ 0 ∷ 2 ∷ 1 ∷ [])) ≡ some address
from-to_general_name_example =
    from-to_general_name any_text address (ip_address (192 ∷ 0 ∷ 2 ∷ 1 ∷ [])) refl
      (unfold to_general_name in refl)

window :
    compute_validity default_template noon none (some (noon + from_secs 3600))
    ≡ ok (noon - from_secs 60, noon + from_secs 3600)
unfolding compute_validity requested_duration ayane.Error.◌>>=◌
window = refl

compute_validity_bounds_example :
    (noon - from_secs 60 ≡ start_of default_template noon none)
    × (noon
          - from_secs 60
          + min default_template.min_validity
              (default_template.max_validity + default_template.backdate)
        ≤ noon + from_secs 3600)
    × (noon + from_secs 3600
        ≤ noon - from_secs 60 + (default_template.max_validity + default_template.backdate))
    × ((wanted : SystemTime)
        → some (noon + from_secs 3600) ≡ some wanted
        → noon + from_secs 3600 ≤ wanted)
compute_validity_bounds_example =
    compute_validity_bounds default_template noon none (some (noon + from_secs 3600))
      (noon - from_secs 60) (noon + from_secs 3600) window

abbrev params : IssueParams
params = record {
  common_name = "a.example";
  sans = dns "a.example" ∷ [];
  public_key = leaf_key;
  not_before = noon;
  not_after = noon + from_secs 3600;
  template = default_template;
  key_usage_override = none;
  extended_key_usage_override = none;
  additional_extensions = [];
  renewable = false;
}

unfoldable issued :
    (i : IssuedCertificate) × (issue formats signer authority (64 ∷ []) params ≡ ok i)
unfolding issue ayane.Error.◌>>=◌ ayane.Ca.seal ayane.Ca.set_non_renewable_marker
    ayane.Ca.Serial.serial_to_decimal ayane.Ca.kept_extensions ayane.Ca.override_usage
    ayane.Ca.reissue_subject ayane.Crypto.algorithm_identifier ayane.Crypto.is_rsa
    ayane.San.to_general_name ayane.Template.build_extensions
    ayane.Template.extended_key_usage_extension ayane.Template.finalize_key_identifiers
    ayane.Template.flag ayane.Template.general_names ayane.Template.key_usage_extension
    ayane.Template.purpose ayane.Template.subject_alt_name_extension ayane.Template.upsert_all
    ayane.Template.upsert_extension ayane.Template.upsert_some ayane.X509.extension
    ayane.X509.key_identifier ayane.X509.name_with_common_name ayane.X509.non_renewable_extension
    ayane.X509.to_x509_time ayane.X509.validity
issued = (_, refl)

issue-IsCertified_example :
    IsCertified formats signer authority leaf_key false noon (noon + from_secs 3600) issued.0
issue-IsCertified_example =
    issue-IsCertified formats signer authority formats-IsCoherent (64 ∷ []) params issued.0 issued.1

abbrev reissue_params : ReissueParams
reissue_params = record {
  old = marked;
  public_key = leaf_key;
  subject_common_name_override = none;
  sans = dns "a.example" ∷ [];
  not_before = noon;
  not_after = noon + from_secs 3600;
  key_usage_override = none;
  extended_key_usage_override = none;
  additional_extensions = [];
  renewable = true;
}

unfoldable reissued :
    (i : IssuedCertificate) × (reissue formats signer authority (65 ∷ []) reissue_params ≡ ok i)
unfolding reissue ayane.Error.◌>>=◌ ayane.Ca.seal ayane.Ca.set_non_renewable_marker
    ayane.Ca.Serial.serial_to_decimal ayane.Ca.kept_extensions ayane.Ca.override_usage
    ayane.Ca.reissue_subject ayane.Crypto.algorithm_identifier ayane.Crypto.is_rsa
    ayane.San.to_general_name ayane.Template.build_extensions
    ayane.Template.extended_key_usage_extension ayane.Template.finalize_key_identifiers
    ayane.Template.flag ayane.Template.general_names ayane.Template.key_usage_extension
    ayane.Template.purpose ayane.Template.subject_alt_name_extension ayane.Template.upsert_all
    ayane.Template.upsert_extension ayane.Template.upsert_some ayane.X509.extension
    ayane.X509.key_identifier ayane.X509.name_with_common_name ayane.X509.non_renewable_extension
    ayane.X509.to_x509_time ayane.X509.validity
reissued = (_, refl)

reissue-IsCertified_example :
    IsCertified formats signer authority leaf_key true noon (noon + from_secs 3600) reissued.0
reissue-IsCertified_example =
    reissue-IsCertified formats signer authority formats-IsCoherent (65 ∷ []) reissue_params
      reissued.0 (tt, tt) reissued.1
