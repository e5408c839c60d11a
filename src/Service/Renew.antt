-- ===== src/Service/Renew.antt =====
-- ayane/src/service.rs, `try_renew_or_rekey`: the look-up, the claims, the reissue and the record.
--
-- The clock is read once before the proof is checked, and again for the claims, after the hooks have
-- answered; what the claims and the storage's own statements read then is one instant here.
use ayane.Base.{String, Option, none, some, map, ◌+◌, ◌==◌, unwrap_or, is_some, if◌then◌else◌}
use ayane.Error.{Result, ok, err, ok_or, forbidden, unauthorized}
use ayane.Action.{Action, pure, lift, ◌>>=◌, ◌>>◌}
use ayane.Time.{SystemTime}
use ayane.San.{Bytes, IpAddr, to_string}
use ayane.X509.{Certificate}
use ayane.Ca.{ReissueParams, IssuedCertificate, reissue, verify_issued}
use ayane.Ca.Serial.{Text, serial_to_decimal}
use ayane.Storage.{CertificateRecord, RevocationRecord}
use ayane.Service.{
  Service, CertificateResponse, claim_jti, claim_once_scopes, certificate_response, replay_leeway,
}
use ayane.Service.Reissue.{ReissuePlan, reissue_plan}
use ayane.Service.Sign.{AuditEvent}

abbrev pub serial_of : Certificate → Text
serial_of cert = serial_to_decimal cert.tbs_certificate.serial_number

-- `if … .is_some() { return Err(Forbidden) }`
unfoldable pub refuse_revoked : Option RevocationRecord → Result (Unit {0})
refuse_revoked none = ok tt
refuse_revoked (some r) = err (forbidden "certificate is revoked")

module _ {S : Type 0} (self : Service S) (show_ip : IpAddr → String) (now claimed_at : SystemTime)
    (random : Bytes) where
  unfoldable pub reissue_params : Certificate → ReissuePlan → ReissueParams
  reissue_params cert p = record {
    old = cert;
    public_key = p.public_key;
    subject_common_name_override = p.custom.subject_common_name;
    sans = p.custom.sans;
    not_before = p.custom.not_before;
    not_after = p.custom.not_after;
    key_usage_override = p.custom.key_usage;
    extended_key_usage_override = p.custom.extended_key_usage;
    additional_extensions = p.custom.additional_extensions;
    renewable = p.custom.renewable;
  }

  abbrev pub subject_of : ReissuePlan → String
  subject_of p = unwrap_or p.custom.subject_common_name p.baseline_subject

  unfoldable pub reissue_record :
      Option String → ReissuePlan → IssuedCertificate → CertificateRecord
  reissue_record new_csr_pem p issued = record {
    serial_number = issued.serial_decimal;
    subject = subject_of p;
    sans = map (λ san. to_string show_ip san) p.custom.sans;
    not_before = self.signer.format_rfc3339 p.custom.not_before;
    not_after = issued.not_after_rfc3339;
    issued_at = self.signer.format_rfc3339 now;
    provisioner = none;
    operation = if is_some new_csr_pem then "rekey" else "renew";
    renewable = p.custom.renewable;
    pem = issued.pem;
  }

  unfoldable pub reissue_event :
      Option String → Option String → ReissuePlan → IssuedCertificate → AuditEvent
  reissue_event new_csr_pem request_id p issued = record {
    event_type = if is_some new_csr_pem then "certificate.rekeyed" else "certificate.renewed";
    outcome = "success";
    provisioner = none;
    subject = if subject_of p == "" then none else some (subject_of p);
    serial_number = some issued.serial_decimal;
    sans = map (λ san. to_string show_ip san) p.custom.sans;
    detail = none;
    request_id = request_id;
  }

  -- from the first claim on
  unfoldable pub commit_reissue :
      Certificate
      → Option String
      → Option String
      → ReissuePlan
      → Action S (CertificateResponse × AuditEvent)
  commit_reissue cert new_csr_pem request_id p = do
    claim_jti self claimed_at "dpop" p.proof.jti
        (p.proof.issued_at + self.dpop_max_age + replay_leeway)
    claim_once_scopes self claimed_at p.custom.once_claims p.custom.not_after
    issued ← lift (reissue self.formats self.signer self.ca random (reissue_params cert p))
    self.storage.record_certificate (reissue_record new_csr_pem p issued)
    pure (certificate_response self issued, reissue_event new_csr_pem request_id p issued)

  unfoldable pub try_renew_or_rekey :
      String
      → Option String
      → Option String
      → String
      → Option String
      → Action S (CertificateResponse × AuditEvent)
  try_renew_or_rekey certificate_pem new_csr_pem dpop request_url request_id = do
    proof ← lift (ok_or dpop (unauthorized "missing DPoP proof"))
    cert ← lift (self.certificate_from_pem certificate_pem)
    lift (verify_issued self.formats self.signer self.ca cert)
    revocation ← self.storage.get_revocation (serial_of cert)
    lift (refuse_revoked revocation)
    p ← lift (reissue_plan self now cert new_csr_pem proof request_url)
    commit_reissue cert new_csr_pem request_id p
