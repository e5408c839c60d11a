-- ===== src/Tests/Requests.antt =====
-- The service's theorems at concrete requests, over SQLite.
use ayane.Base.{
  inl, pos, ◌+◌, ◌≡◌, ◌≢◌, ◌<◌, ◌≤◌, refl, true, false, Option, none, some, List, [], ◌∷◌, arith,
  All,
}
use ayane.Error.{ok}
use ayane.Time.{SystemTime, unix_epoch, from_secs}
use ayane.San.{dns, IpAddr, contains}
use ayane.X509.{Certificate}
use ayane.Csr.{ParsedCsr, CsrFormats}
use ayane.Template.{default_template, max_not_after}
use ayane.Storage.{CertificateRecord, RevocationRecord, secs}
use ayane.Storage.Replay.{Call, steps}
use ayane.Storage.Replay
use ayane.Storage.Sqlite.{SqliteStorage, sqlite}
use ayane.Storage.Sqlite.Laws.{sqlite_contract, sqlite_contract-IsConsistent}
use ayane.Service.{Service, OttClaims, SignRequest, CertificateResponse, Validated, allowed_sans}
use ayane.Service.Plan.{SignPlan, sign_plan}
use ayane.Service.Sign.{AuditEvent, try_sign}
use ayane.Service.Signed.{sign_once, sign_listed}
use ayane.Service.Policy.{sign_plan-permits}
use ayane.Service.Renew.{serial_of, try_renew_or_rekey}
use ayane.Service.Renewed.{revoked_never_renewed}
use ayane.San.{Bytes}
use ayane.Ca.Serial.{Text}
use ayane.Service.Revoke.{RevokeRequest, chars, normalize_serial, try_revoke}
use ayane.Service.Revoked.{MayRevoke, revocation_stands}
use ayane.Hook.{OnceClaim}
use ayane.Service.Scopes.{scope_once}
use ayane.Tests.Fixtures.{
  noon, formats, signer, authority, leaf_key, marked, json, json-IsCodec, empty,
}

abbrev csr : ParsedCsr
csr = record { public_key = leaf_key; attributes = []; der = 7 ∷ [] }

abbrev validated : Validated
validated = record {
  claims = record {
    sub = "a.example";
    sans = [];
    exp = pos 1_000_300;
    x5t_s256 = some "fingerprint";
    renew = true;
    once = some (record { scope = "instance-7"; exp = none });
  };
  provisioner = "ci";
  authorized = true;
  template = none;
  replay_id = "ci#1";
}

-- The previous certificate of a renewal, of which a day is left.
abbrev pub previous : Certificate
previous = record marked {
  tbs_certificate = record marked.tbs_certificate {
    extensions = some (record { extn_id = "2.5.29.17"; critical = false; extn_value = [] } ∷ []);
  };
}

abbrev pub service : Service SqliteStorage
service = record {
  formats = record formats {
    san_from_der = λ bytes. some (ayane.San.dns_name "a.example" ∷ []);
    to_system_time = λ t. elim t [
      | ayane.X509.utc_time n ↦ unix_epoch + from_secs (950_000 + n)
      | ayane.X509.general_time n ↦ unix_epoch
    ];
  };
  csr_formats = record {
    from_pem = λ pem. some csr;
    extension_req_oid = "1.2.840.113549.1.9.14";
    extension_req_from_der = λ bytes. none;
    fingerprint_b64url = λ bytes. "fingerprint";
    verify_signature = λ csr. true;
  };
  signer = signer;
  ca = authority;
  storage = sqlite json;
  hooks = [];
  validate = λ now token url. ok validated;
  templates = [];
  default_template_name = none;
  fallback_template = default_template;
  verify_proof = λ now proof cert url age. ok (record { jti = "p1"; issued_at = now });
  dpop_max_age = from_secs 60;
  certificate_from_pem = λ pem. ok previous;
  certificate_to_der = λ cert. ok [];
  parse_oid = λ s. some s;
  parse_ip = λ s. none;
  parse_rfc3339 = λ s. none;
}

abbrev request : SignRequest
request = record { csr = "csr"; token = "token"; not_before = none; not_after = none }

abbrev pub show : IpAddr → ayane.Base.String
show a = "address"

abbrev pub state : SqliteStorage
state = record { database = empty; faults = [] }

unfoldable signed :
    (out : CertificateResponse × AuditEvent) × ((try_sign service show noon
        (65 ∷ [])
        request
        "url"
        none
        state).0
      ≡ ok out)
unfolding try_sign ayane.Action.◌>>=◌ ayane.Action.lift sign_plan ayane.Error.◌>>=◌
    ayane.Csr.from_pem ayane.Csr.verify_signature ayane.Service.check_binding
    ayane.Csr.requested_sans ayane.Csr.attribute_sans ayane.Service.authorized_sans
    ayane.Service.check_sans allowed_sans contains ayane.San.parse ayane.Service.resolve_template
    ayane.Service.parse_time ayane.Template.compute_validity ayane.Action.continue ayane.Action.pure
    ayane.Ca.Serial.serial_to_decimal ayane.Ca.issue ayane.Ca.seal ayane.Ca.set_non_renewable_marker
    ayane.Crypto.algorithm_identifier ayane.Crypto.is_rsa ayane.Hook.baseline ayane.Hook.run
    ayane.Hook.unauthorized_guard ayane.San.same_san ayane.San.to_general_name ayane.San.to_string
    ayane.Service.Plan.customize ayane.Service.Plan.sign_context ayane.Service.Sign.commit_sign
    ayane.Service.Sign.issue_params ayane.Service.Sign.sign_event ayane.Service.Sign.sign_record
    ayane.Service.certificate_response ayane.Service.check_window ayane.Service.claim_jti
    ayane.Service.claim_once ayane.Service.claim_once_scopes ayane.Service.clamp_not_after
    ayane.Service.on_conflict ayane.Service.system_time_from_epoch ayane.Service.token_scope
    ayane.Template.build_extensions ayane.Template.extended_key_usage_extension
    ayane.Template.finalize_key_identifiers ayane.Template.flag ayane.Template.general_names
    ayane.Template.key_usage_extension max_not_after ayane.Template.purpose
    ayane.Template.requested_duration ayane.Template.subject_alt_name_extension
    ayane.Template.upsert_all ayane.Template.upsert_extension ayane.Template.upsert_some
    ayane.X509.extension ayane.X509.key_identifier ayane.X509.name_with_common_name
    ayane.X509.non_renewable_extension ayane.X509.to_x509_time ayane.X509.validity
    ayane.Storage.Sqlite.sqlite ayane.Storage.Sqlite.claim_token ayane.Storage.Sqlite.claim_row
    ayane.Storage.Sqlite.transaction ayane.Storage.Sqlite.execute ayane.Storage.Sqlite.next_fault
    ayane.Storage.Sqlite.rolled_back ayane.Storage.Sqlite.unix_secs
    ayane.Storage.Sqlite.insert_or_ignore ayane.Storage.Sqlite.insert
    ayane.Storage.Sqlite.insert_token ayane.Storage.Sqlite.delete_expired_token
    ayane.Storage.Sqlite.record_certificate ayane.Storage.Sqlite.to_row
signed = (_, refl)

unfoldable planned : (p : SignPlan) × (sign_plan service noon request "url" ≡ ok p)
unfolding try_sign ayane.Action.◌>>=◌ ayane.Action.lift sign_plan ayane.Error.◌>>=◌
    ayane.Csr.from_pem ayane.Csr.verify_signature ayane.Service.check_binding
    ayane.Csr.requested_sans ayane.Csr.attribute_sans ayane.Service.authorized_sans
    ayane.Service.check_sans allowed_sans contains ayane.San.parse ayane.Service.resolve_template
    ayane.Service.parse_time ayane.Template.compute_validity ayane.Action.continue ayane.Action.pure
    ayane.Ca.Serial.serial_to_decimal ayane.Ca.issue ayane.Ca.seal ayane.Ca.set_non_renewable_marker
    ayane.Crypto.algorithm_identifier ayane.Crypto.is_rsa ayane.Hook.baseline ayane.Hook.run
    ayane.Hook.unauthorized_guard ayane.San.same_san ayane.San.to_general_name ayane.San.to_string
    ayane.Service.Plan.customize ayane.Service.Plan.sign_context ayane.Service.Sign.commit_sign
    ayane.Service.Sign.issue_params ayane.Service.Sign.sign_event ayane.Service.Sign.sign_record
    ayane.Service.certificate_response ayane.Service.check_window ayane.Service.claim_jti
    ayane.Service.claim_once ayane.Service.claim_once_scopes ayane.Service.clamp_not_after
    ayane.Service.on_conflict ayane.Service.system_time_from_epoch ayane.Service.token_scope
    ayane.Template.build_extensions ayane.Template.extended_key_usage_extension
    ayane.Template.finalize_key_identifiers ayane.Template.flag ayane.Template.general_names
    ayane.Template.key_usage_extension max_not_after ayane.Template.purpose
    ayane.Template.requested_duration ayane.Template.subject_alt_name_extension
    ayane.Template.upsert_all ayane.Template.upsert_extension ayane.Template.upsert_some
    ayane.X509.extension ayane.X509.key_identifier ayane.X509.name_with_common_name
    ayane.X509.non_renewable_extension ayane.X509.to_x509_time ayane.X509.validity
    ayane.Storage.Sqlite.sqlite ayane.Storage.Sqlite.claim_token ayane.Storage.Sqlite.claim_row
    ayane.Storage.Sqlite.transaction ayane.Storage.Sqlite.execute ayane.Storage.Sqlite.next_fault
    ayane.Storage.Sqlite.rolled_back ayane.Storage.Sqlite.unix_secs
    ayane.Storage.Sqlite.insert_or_ignore ayane.Storage.Sqlite.insert
    ayane.Storage.Sqlite.insert_token ayane.Storage.Sqlite.delete_expired_token
    ayane.Storage.Sqlite.record_certificate ayane.Storage.Sqlite.to_row
planned = (_, refl)

unfoldable planned_again :
    (p : SignPlan) × (sign_plan service (noon + from_secs 120) request "other" ≡ ok p)
unfolding try_sign ayane.Action.◌>>=◌ ayane.Action.lift sign_plan ayane.Error.◌>>=◌
    ayane.Csr.from_pem ayane.Csr.verify_signature ayane.Service.check_binding
    ayane.Csr.requested_sans ayane.Csr.attribute_sans ayane.Service.authorized_sans
    ayane.Service.check_sans allowed_sans contains ayane.San.parse ayane.Service.resolve_template
    ayane.Service.parse_time ayane.Template.compute_validity ayane.Action.continue ayane.Action.pure
    ayane.Ca.Serial.serial_to_decimal ayane.Ca.issue ayane.Ca.seal ayane.Ca.set_non_renewable_marker
    ayane.Crypto.algorithm_identifier ayane.Crypto.is_rsa ayane.Hook.baseline ayane.Hook.run
    ayane.Hook.unauthorized_guard ayane.San.same_san ayane.San.to_general_name ayane.San.to_string
    ayane.Service.Plan.customize ayane.Service.Plan.sign_context ayane.Service.Sign.commit_sign
    ayane.Service.Sign.issue_params ayane.Service.Sign.sign_event ayane.Service.Sign.sign_record
    ayane.Service.certificate_response ayane.Service.check_window ayane.Service.claim_jti
    ayane.Service.claim_once ayane.Service.claim_once_scopes ayane.Service.clamp_not_after
    ayane.Service.on_conflict ayane.Service.system_time_from_epoch ayane.Service.token_scope
    ayane.Template.build_extensions ayane.Template.extended_key_usage_extension
    ayane.Template.finalize_key_identifiers ayane.Template.flag ayane.Template.general_names
    ayane.Template.key_usage_extension max_not_after ayane.Template.purpose
    ayane.Template.requested_duration ayane.Template.subject_alt_name_extension
    ayane.Template.upsert_all ayane.Template.upsert_extension ayane.Template.upsert_some
    ayane.X509.extension ayane.X509.key_identifier ayane.X509.name_with_common_name
    ayane.X509.non_renewable_extension ayane.X509.to_x509_time ayane.X509.validity
    ayane.Storage.Sqlite.sqlite ayane.Storage.Sqlite.claim_token ayane.Storage.Sqlite.claim_row
    ayane.Storage.Sqlite.transaction ayane.Storage.Sqlite.execute ayane.Storage.Sqlite.next_fault
    ayane.Storage.Sqlite.rolled_back ayane.Storage.Sqlite.unix_secs
    ayane.Storage.Sqlite.insert_or_ignore ayane.Storage.Sqlite.insert
    ayane.Storage.Sqlite.insert_token ayane.Storage.Sqlite.delete_expired_token
    ayane.Storage.Sqlite.record_certificate ayane.Storage.Sqlite.to_row
planned_again = (_, refl)

-- A failed claim of the token's key, and a reap.
abbrev pub between : List Call
between =
    Replay.claim_token (noon + from_secs 10) "ott#ci#1" (noon + from_secs 90)
    ∷ Replay.reap_expired (noon + from_secs 20)
    ∷ []

sign_once_example :
    (try_sign service show (noon + from_secs 120) (66 ∷ []) request "other" none (
      steps service.storage between
        (try_sign service show noon (65 ∷ []) request "url" none state).1)).0
    ≢ ok signed.0
unfolding planned planned_again ayane.Service.system_time_from_epoch
sign_once_example =
    sign_once service (sqlite_contract json) show noon (noon + from_secs 120) (65 ∷ []) (66 ∷ [])
      request request "url" "other" none none state between planned.0 planned_again.0 signed.0
      signed.0 (omega arith) signed.1 planned.1 planned_again.1 refl
      (omega arith, (omega arith, tt)) (omega arith)

sign_plan-permits_example :
    (planned.0.validated.authorized ≡ true
      → All
          (λ san. contains (allowed_sans service.parse_ip planned.0.validated.claims) san ≡ true)
          planned.0.context.sans)
    × (planned.0.custom.not_before < planned.0.custom.not_after)
    × ((ceiling : SystemTime)
        → max_not_after planned.0.template planned.0.custom.not_before ≡ some ceiling
        → planned.0.custom.not_after ≤ ceiling)
sign_plan-permits_example = sign_plan-permits service noon request "url" planned.0 planned.1

unfoldable listed :
    (o : Option CertificateRecord) × ((service.storage.get_certificate signed.0.0.serial_number (
        steps service.storage []
          (try_sign service show noon (65 ∷ []) request "url" none state).1)).0
      ≡ ok o)
unfolding try_sign ayane.Action.◌>>=◌ ayane.Action.lift sign_plan ayane.Error.◌>>=◌
    ayane.Csr.from_pem ayane.Csr.verify_signature ayane.Service.check_binding
    ayane.Csr.requested_sans ayane.Csr.attribute_sans ayane.Service.authorized_sans
    ayane.Service.check_sans allowed_sans contains ayane.San.parse ayane.Service.resolve_template
    ayane.Service.parse_time ayane.Template.compute_validity ayane.Action.continue ayane.Action.pure
    ayane.Ca.Serial.serial_to_decimal ayane.Ca.issue ayane.Ca.seal ayane.Ca.set_non_renewable_marker
    ayane.Crypto.algorithm_identifier ayane.Crypto.is_rsa ayane.Hook.baseline ayane.Hook.run
    ayane.Hook.unauthorized_guard ayane.San.same_san ayane.San.to_general_name ayane.San.to_string
    ayane.Service.Plan.customize ayane.Service.Plan.sign_context ayane.Service.Sign.commit_sign
    ayane.Service.Sign.issue_params ayane.Service.Sign.sign_event ayane.Service.Sign.sign_record
    ayane.Service.certificate_response ayane.Service.check_window ayane.Service.claim_jti
    ayane.Service.claim_once ayane.Service.claim_once_scopes ayane.Service.clamp_not_after
    ayane.Service.on_conflict ayane.Service.system_time_from_epoch ayane.Service.token_scope
    ayane.Template.build_extensions ayane.Template.extended_key_usage_extension
    ayane.Template.finalize_key_identifiers ayane.Template.flag ayane.Template.general_names
    ayane.Template.key_usage_extension max_not_after ayane.Template.purpose
    ayane.Template.requested_duration ayane.Template.subject_alt_name_extension
    ayane.Template.upsert_all ayane.Template.upsert_extension ayane.Template.upsert_some
    ayane.X509.extension ayane.X509.key_identifier ayane.X509.name_with_common_name
    ayane.X509.non_renewable_extension ayane.X509.to_x509_time ayane.X509.validity
    ayane.Storage.Sqlite.sqlite ayane.Storage.Sqlite.claim_token ayane.Storage.Sqlite.claim_row
    ayane.Storage.Sqlite.transaction ayane.Storage.Sqlite.execute ayane.Storage.Sqlite.next_fault
    ayane.Storage.Sqlite.rolled_back ayane.Storage.Sqlite.unix_secs
    ayane.Storage.Sqlite.insert_or_ignore ayane.Storage.Sqlite.insert
    ayane.Storage.Sqlite.insert_token ayane.Storage.Sqlite.delete_expired_token
    ayane.Storage.Sqlite.record_certificate ayane.Storage.Sqlite.to_row signed steps
    ayane.Storage.Sqlite.get_certificate ayane.Storage.Sqlite.read_row
    ayane.Storage.Sqlite.row_to_certificate
listed = (_, refl)

sign_listed_example :
    (r : CertificateRecord) × (listed.0 ≡ some r)
    × (r.serial_number ≡ signed.0.0.serial_number)
    × (r.pem ≡ signed.0.0.certificate)
sign_listed_example =
    sign_listed service (sqlite_contract json) (sqlite_contract-IsConsistent json json-IsCodec) show
      noon (65 ∷ []) request "url" none state [] signed.0 listed.0 (omega arith) signed.1 listed.1

unfoldable renewed :
    (out : CertificateResponse × AuditEvent) × ((try_renew_or_rekey service show noon
        (noon + from_secs 20)
        (66 ∷ [])
        "pem"
        none
        (some "proof")
        "url"
        none
        state).0
      ≡ ok out)
unfolding try_sign ayane.Action.◌>>=◌ ayane.Action.lift sign_plan ayane.Error.◌>>=◌
    ayane.Csr.from_pem ayane.Csr.verify_signature ayane.Service.check_binding
    ayane.Csr.requested_sans ayane.Csr.attribute_sans ayane.Service.authorized_sans
    ayane.Service.check_sans allowed_sans contains ayane.San.parse ayane.Service.resolve_template
    ayane.Service.parse_time ayane.Template.compute_validity ayane.Action.continue ayane.Action.pure
    ayane.Ca.Serial.serial_to_decimal ayane.Ca.issue ayane.Ca.seal ayane.Ca.set_non_renewable_marker
    ayane.Crypto.algorithm_identifier ayane.Crypto.is_rsa ayane.Hook.baseline ayane.Hook.run
    ayane.Hook.unauthorized_guard ayane.San.same_san ayane.San.to_general_name ayane.San.to_string
    ayane.Service.Plan.customize ayane.Service.Plan.sign_context ayane.Service.Sign.commit_sign
    ayane.Service.Sign.issue_params ayane.Service.Sign.sign_event ayane.Service.Sign.sign_record
    ayane.Service.certificate_response ayane.Service.check_window ayane.Service.claim_jti
    ayane.Service.claim_once ayane.Service.claim_once_scopes ayane.Service.clamp_not_after
    ayane.Service.on_conflict ayane.Service.system_time_from_epoch ayane.Service.token_scope
    ayane.Template.build_extensions ayane.Template.extended_key_usage_extension
    ayane.Template.finalize_key_identifiers ayane.Template.flag ayane.Template.general_names
    ayane.Template.key_usage_extension max_not_after ayane.Template.purpose
    ayane.Template.requested_duration ayane.Template.subject_alt_name_extension
    ayane.Template.upsert_all ayane.Template.upsert_extension ayane.Template.upsert_some
    ayane.X509.extension ayane.X509.key_identifier ayane.X509.name_with_common_name
    ayane.X509.non_renewable_extension ayane.X509.to_x509_time ayane.X509.validity
    ayane.Storage.Sqlite.sqlite ayane.Storage.Sqlite.claim_token ayane.Storage.Sqlite.claim_row
    ayane.Storage.Sqlite.transaction ayane.Storage.Sqlite.execute ayane.Storage.Sqlite.next_fault
    ayane.Storage.Sqlite.rolled_back ayane.Storage.Sqlite.unix_secs
    ayane.Storage.Sqlite.insert_or_ignore ayane.Storage.Sqlite.insert
    ayane.Storage.Sqlite.insert_token ayane.Storage.Sqlite.delete_expired_token
    ayane.Storage.Sqlite.record_certificate ayane.Storage.Sqlite.to_row try_renew_or_rekey
    ayane.Service.Renew.commit_reissue ayane.Service.Renew.reissue_params
    ayane.Service.Renew.reissue_record ayane.Service.Renew.reissue_event
    ayane.Service.Renew.refuse_revoked ayane.Service.Reissue.reissue_plan
    ayane.Service.Reissue.refuse_marked ayane.Service.Reissue.refuse_expired
    ayane.Service.Reissue.cert_validity_window ayane.Service.Reissue.cert_sans
    ayane.Service.Reissue.subject_common_name ayane.Service.Reissue.reissue_key
    ayane.Service.Reissue.names_of ayane.Csr.push_names ayane.San.from_general_name
    ayane.Service.Reissue.reissue_context ayane.Service.Reissue.customize_reissue
    ayane.Storage.Sqlite.get_revocation ayane.Ca.verify_issued ayane.Ca.reissue
    ayane.Ca.kept_extensions ayane.Ca.override_usage ayane.Ca.reissue_subject
    ayane.X509.is_marked_non_renewable
renewed = (_, refl)

abbrev revocation : RevocationRecord
revocation = record {
  serial_number = serial_of previous;
  reason_code = pos 1;
  reason = none;
  revoked_at = "2026-01-01T00:00:00Z";
  provisioner = none;
}

revoked_never_renewed_example :
    (try_renew_or_rekey service show noon
      (noon + from_secs 20)
      (66 ∷ [])
      "pem"
      none
      (some "proof")
      "url"
      none
      (steps service.storage between (service.storage.revoke revocation state).1)).0
    ≢ ok renewed.0
unfolding ayane.Storage.Sqlite.sqlite ayane.Storage.Sqlite.revoke ayane.Storage.Sqlite.execute
    ayane.Storage.Sqlite.next_fault
revoked_never_renewed_example =
    revoked_never_renewed service (sqlite_contract json)
      (sqlite_contract-IsConsistent json json-IsCodec) show noon (noon + from_secs 20) (66 ∷ [])
      "pem" none (some "proof") "url" none previous revocation state between renewed.0 refl refl
      refl

-- A holder revokes the previous certificate, with a leading zero in its serial number.
abbrev revoke_request : RevokeRequest
revoke_request = record {
  serial_number = " 064";
  reason = some "superseded";
  reason_code = none;
  token = none;
  certificate = some "pem";
}

abbrev no_hex : Text → Option Bytes
no_hex text = none

unfoldable revoked_once :
    (out : ayane.Base.String × AuditEvent) × ((try_revoke service no_hex noon revoke_request
        (some "proof")
        "url"
        none
        state).0
      ≡ ok out)
unfolding ayane.Action.◌>>=◌ ayane.Action.lift sign_plan ayane.Error.◌>>=◌ ayane.Csr.from_pem
    ayane.Csr.verify_signature ayane.Service.check_binding ayane.Csr.requested_sans
    ayane.Csr.attribute_sans ayane.Service.authorized_sans ayane.Service.check_sans allowed_sans
    contains ayane.San.parse ayane.Service.resolve_template ayane.Service.parse_time
    ayane.Template.compute_validity ayane.Action.continue ayane.Action.pure
    ayane.Ca.Serial.serial_to_decimal ayane.Ca.issue ayane.Ca.seal ayane.Ca.set_non_renewable_marker
    ayane.Crypto.algorithm_identifier ayane.Crypto.is_rsa ayane.Hook.baseline ayane.Hook.run
    ayane.Hook.unauthorized_guard ayane.San.same_san ayane.San.to_general_name ayane.San.to_string
    ayane.Service.Plan.customize ayane.Service.Plan.sign_context ayane.Service.Sign.commit_sign
    ayane.Service.Sign.issue_params ayane.Service.Sign.sign_event ayane.Service.Sign.sign_record
    ayane.Service.certificate_response ayane.Service.check_window ayane.Service.claim_jti
    ayane.Service.claim_once ayane.Service.claim_once_scopes ayane.Service.clamp_not_after
    ayane.Service.on_conflict ayane.Service.system_time_from_epoch ayane.Service.token_scope
    ayane.Template.build_extensions ayane.Template.extended_key_usage_extension
    ayane.Template.finalize_key_identifiers ayane.Template.flag ayane.Template.general_names
    ayane.Template.key_usage_extension max_not_after ayane.Template.purpose
    ayane.Template.requested_duration ayane.Template.subject_alt_name_extension
    ayane.Template.upsert_all ayane.Template.upsert_extension ayane.Template.upsert_some
    ayane.X509.extension ayane.X509.key_identifier ayane.X509.name_with_common_name
    ayane.X509.non_renewable_extension ayane.X509.to_x509_time ayane.X509.validity
    ayane.Storage.Sqlite.sqlite ayane.Storage.Sqlite.claim_token ayane.Storage.Sqlite.claim_row
    ayane.Storage.Sqlite.transaction ayane.Storage.Sqlite.execute ayane.Storage.Sqlite.next_fault
    ayane.Storage.Sqlite.rolled_back ayane.Storage.Sqlite.unix_secs
    ayane.Storage.Sqlite.insert_or_ignore ayane.Storage.Sqlite.insert
    ayane.Storage.Sqlite.insert_token ayane.Storage.Sqlite.delete_expired_token
    ayane.Storage.Sqlite.record_certificate ayane.Storage.Sqlite.to_row try_revoke normalize_serial
    chars ayane.Service.Revoke.is_whitespace ayane.Service.Revoke.trim_start_matches
    ayane.Service.Revoke.trim ayane.Service.Revoke.strip_hex_prefix ayane.Service.Revoke.all_digits
    ayane.Service.Revoke.same_serial ayane.Service.Revoke.revoke_by_proof
    ayane.Service.Revoke.authorize_revocation ayane.Service.Revoke.revocation_record
    ayane.Service.Revoke.revocation_event ayane.Ca.verify_issued ayane.Storage.Sqlite.revoke
revoked_once = (_, refl)

revocation_stands_example :
    (serial : Text) × (normalize_serial no_hex (chars revoke_request.serial_number) ≡ ok serial)
    × MayRevoke service
        (sqlite_contract json)
        no_hex
        noon
        revoke_request.token
        (some "proof")
        revoke_request.certificate
        "url"
        serial
        (try_revoke service no_hex noon revoke_request (some "proof") "url" none state).1
    × ((service.storage.get_revocation serial (
          steps service.storage between
            (try_revoke service no_hex noon revoke_request (some "proof") "url" none state).1)).0
        ≢ ok none)
revocation_stands_example =
    revocation_stands service (sqlite_contract json)
      (sqlite_contract-IsConsistent json json-IsCodec) no_hex noon revoke_request (some "proof")
      "url" none state between revoked_once.0 revoked_once.1

abbrev scope : OnceClaim
scope = record { namespace = "prov:ci"; value = "instance-7"; expires_at = none }

scope_once_example :
    (try_sign service show (noon + from_secs 120) (66 ∷ []) request "other" none (
      steps service.storage between
        (try_sign service show noon (65 ∷ []) request "url" none state).1)).0
    ≢ ok signed.0
unfolding planned planned_again
scope_once_example =
    scope_once service (sqlite_contract json) show noon (noon + from_secs 120) (65 ∷ []) (66 ∷ [])
      request request "url" "other" none none state between planned.0 planned_again.0 scope signed.0
      signed.0 (omega arith) signed.1 planned.1 planned_again.1 (inl refl) (inl refl)
      (omega arith, (omega arith, tt)) (omega arith)
