-- ===== src/Tests/Proofs.antt =====
-- Proofs of possession at concrete requests.
use ayane.Base.{◌+◌, ◌≡◌, ◌≢◌, refl, pos, true, none, some, [], ◌∷◌, arith}
use ayane.Error.{ok}
use ayane.Time.{from_secs}
use ayane.San.{Bytes}
use ayane.Authorizer.{es256}
use ayane.Service.{Service, VerifiedProof, CertificateResponse}
use ayane.Service.Sign.{AuditEvent}
use ayane.Service.Renew.{try_renew_or_rekey}
use ayane.Storage.Replay.{steps}
use ayane.Storage.Sqlite.{SqliteStorage}
use ayane.Storage.Sqlite.Laws.{sqlite_contract}
use ayane.Dpop.{Proofs, verify, with_dpop}
use ayane.Dpop.Verified.{IsBound, verify-IsBound}
use ayane.Dpop.Once.{proof_once}
use ayane.Tests.Fixtures.{noon, json}
use ayane.Tests.Requests.{service, show, state, previous, between}

abbrev proofs : Proofs
proofs = record {
  decode_header = λ proof. some (record { typ = some "dpop+jwt"; alg = es256 });
  valid_signature = λ key alg proof. true;
  claims = λ proof.
      some (record { htm = "post"; htu = "url"; iat = pos 1_000_000; jti = "p1"; nonce = none });
  spki_to_der = λ key. some [];
  pem_encode = λ bytes. "pem";
  from_ec_pem = λ pem. some (4 ∷ []);
  from_rsa_pem = λ pem. none;
  oid_from_der = λ bytes. some "1.2.840.10045.3.1.7";
  ec_public_key = "1.2.840.10045.2.1";
  secp_256_r_1 = "1.2.840.10045.3.1.7";
  secp_384_r_1 = "1.3.132.0.34";
  rsa_encryption = "1.2.840.113549.1.1.1";
}

-- a renewal with a proof that is signed at noon
unfoldable proven :
    (out : CertificateResponse × AuditEvent) × ((try_renew_or_rekey
        (with_dpop proofs service)
        show
        (noon + from_secs 5)
        (noon + from_secs 20)
        (66 ∷ [])
        "pem"
        none
        (some "proof")
        "url"
        none
        state).0
      ≡ ok out)
unfolding verify ayane.Dpop.require ayane.Dpop.is_dpop_typ ayane.Dpop.decode ayane.Dpop.is_stale
    ayane.Dpop.ec_algorithm ayane.Dpop.ec_key ayane.Dpop.key_of ayane.Dpop.decoding_key_from_spki
    ayane.Dpop.eq_ignore_ascii_case ayane.Dpop.lower ayane.Dpop.iat_secs ayane.Dpop.algorithm_index
    ayane.Dpop.same_algorithm ayane.Service.Revoke.chars ayane.Action.◌>>=◌ ayane.Action.lift
    ayane.Error.◌>>=◌ ayane.Csr.from_pem ayane.Csr.verify_signature ayane.Service.check_binding
    ayane.Csr.requested_sans ayane.Csr.attribute_sans ayane.Service.authorized_sans
    ayane.Service.check_sans ayane.San.parse ayane.Service.resolve_template ayane.Service.parse_time
    ayane.Template.compute_validity ayane.Action.continue ayane.Action.pure
    ayane.Ca.Serial.serial_to_decimal ayane.Ca.issue ayane.Ca.seal ayane.Ca.set_non_renewable_marker
    ayane.Crypto.algorithm_identifier ayane.Crypto.is_rsa ayane.Hook.baseline ayane.Hook.run
    ayane.Hook.unauthorized_guard ayane.San.same_san ayane.San.to_general_name ayane.San.to_string
    ayane.Service.Plan.customize ayane.Service.Plan.sign_context ayane.Service.Sign.commit_sign
    ayane.Service.Sign.issue_params ayane.Service.Sign.sign_event ayane.Service.Sign.sign_record
    ayane.Service.certificate_response ayane.Service.check_window ayane.Service.claim_jti
    ayane.Service.claim_once ayane.Service.claim_once_scopes ayane.Service.clamp_not_after
    ayane.Service.on_conflict ayane.Service.system_time_from_epoch ayane.Service.token_scope
    ayane.Template.build_extensions ayane.Template.extended_key_usage_extension
    ayane.Template.finalize_key_identifiers ayane.Template.flag ayane.Template.general_names
    ayane.Template.key_usage_extension ayane.Template.purpose ayane.Template.requested_duration
    ayane.Template.subject_alt_name_extension ayane.Template.upsert_all
    ayane.Template.upsert_extension ayane.Template.upsert_some ayane.X509.extension
    ayane.X509.key_identifier ayane.X509.name_with_common_name ayane.X509.non_renewable_extension
    ayane.X509.to_x509_time ayane.X509.validity ayane.Storage.Sqlite.sqlite
    ayane.Storage.Sqlite.claim_token ayane.Storage.Sqlite.claim_row ayane.Storage.Sqlite.transaction
    ayane.Storage.Sqlite.execute ayane.Storage.Sqlite.next_fault ayane.Storage.Sqlite.rolled_back
    ayane.Storage.Sqlite.unix_secs ayane.Storage.Sqlite.insert_or_ignore ayane.Storage.Sqlite.insert
    ayane.Storage.Sqlite.insert_token ayane.Storage.Sqlite.delete_expired_token
    ayane.Storage.Sqlite.record_certificate ayane.Storage.Sqlite.to_row try_renew_or_rekey
    ayane.Service.Renew.commit_reissue ayane.Service.Renew.reissue_params
    ayane.Service.Renew.reissue_record ayane.Service.Renew.reissue_event
    ayane.Service.Renew.refuse_revoked ayane.Service.Reissue.reissue_plan
    ayane.Service.Reissue.refuse_marked ayane.Service.Reissue.refuse_expired
    ayane.Service.Reissue.cert_validity_window ayane.Service.Reissue.cert_sans
    ayane.Service.Reissue.subject_common_name ayane.Service.Reissue.reissue_key
    ayane.Service.Reissue.names_of ayane.Csr.push_names ayane.San.from_general_name
    ayane.Service.Reissue.reissue_context ayane.Service.Reissue.customize_reissue
    ayane.Storage.Sqlite.get_revocation ayane.Ca.verify_issued ayane.Ca.reissue
    ayane.Ca.kept_extensions ayane.Ca.override_usage ayane.Ca.reissue_subject
    ayane.X509.is_marked_non_renewable
proven = (_, refl)

proof_once_example :
    (try_renew_or_rekey
      (with_dpop proofs service)
      show
      (noon + from_secs 50)
      (noon + from_secs 70)
      (67 ∷ [])
      "other"
      none
      (some "proof")
      "url"
      none
      (steps service.storage between
        (try_renew_or_rekey
          (with_dpop proofs service)
          show
          (noon + from_secs 5)
          (noon + from_secs 20)
          (66 ∷ [])
          "pem"
          none
          (some "proof")
          "url"
          none
          state).1)).0
    ≢ ok proven.0
proof_once_example =
    proof_once proofs service (sqlite_contract json) show (noon + from_secs 5) (noon + from_secs 20)
      (noon + from_secs 50) (noon + from_secs 70) (66 ∷ []) (67 ∷ []) "pem" "other" none none
      "proof" "url" "url" none none state between proven.0 proven.0 (omega arith) (omega arith)
      (omega arith) proven.1 (omega arith, (omega arith, tt))

abbrev verified : VerifiedProof
verified = record { jti = "p1"; issued_at = noon }

verify-IsBound_example :
    IsBound proofs "proof" previous "POST" "url" (from_secs 60) (noon + from_secs 5) verified
unfolding verify ayane.Dpop.require ayane.Dpop.is_dpop_typ ayane.Dpop.decode ayane.Dpop.is_stale
    ayane.Dpop.ec_algorithm ayane.Dpop.ec_key ayane.Dpop.key_of ayane.Dpop.decoding_key_from_spki
    ayane.Dpop.eq_ignore_ascii_case ayane.Dpop.lower ayane.Dpop.iat_secs ayane.Dpop.algorithm_index
    ayane.Dpop.same_algorithm ayane.Service.Revoke.chars ayane.Error.◌>>=◌
verify-IsBound_example =
    verify-IsBound proofs "proof" previous "POST" "url" (from_secs 60) (noon + from_secs 5) verified
      refl
