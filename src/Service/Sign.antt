-- ===== src/Service/Sign.antt =====
-- ayane/src/service.rs, `try_sign` and `sign`: claiming, issuing and recording.
use ayane.Base.{[], String, Option, none, some, List, map, ◌+◌, unwrap_or}
use ayane.Error.{Error, Result, ok, err, config, internal}
use ayane.Action.{Action, pure, lift, ◌>>=◌, ◌>>◌}
use ayane.Time.{SystemTime}
use ayane.San.{Bytes, IpAddr, to_string}
use ayane.Ca.{IssueParams, IssuedCertificate, issue}
use ayane.Ca.Serial.{Text}
use ayane.Storage.{CertificateRecord}
use ayane.Service.{
  Service, SignRequest, CertificateResponse, claim_jti, claim_once_scopes, certificate_response,
  system_time_from_epoch, replay_leeway,
}
use ayane.Service.Plan.{SignPlan, sign_plan}

-- The detail of an event: an error, in place of its text, or a revocation's reason.
pub data Detail : Type 0 where
  error_text : Error → Detail
  reason_text : String → Detail

-- event_sink/mod.rs
pub record AuditEvent : Type 0 where
  pub event_type : String
  pub outcome : String
  pub provisioner : Option String
  pub subject : Option String
  pub serial_number : Option Text
  pub sans : List String
  pub detail : Option Detail
  pub request_id : Option String

unfoldable pub denial : String → Option String → Error → AuditEvent
denial event_type request_id error = record {
  event_type = event_type;
  outcome = elim error [ internal d ↦ "error" | config d ↦ "error" | _ ↦ "denied" ];
  provisioner = none;
  subject = none;
  serial_number = none;
  sans = [];
  detail = some (error_text error);
  request_id = request_id;
}

module _ {S : Type 0} (self : Service S) (show_ip : IpAddr → String) (now : SystemTime)
    (random : Bytes) where
  abbrev pub common_name : SignPlan → String
  common_name p = unwrap_or p.custom.subject_common_name p.validated.claims.sub

  unfoldable pub issue_params : SignPlan → IssueParams
  issue_params p = record {
    common_name = common_name p;
    sans = p.custom.sans;
    public_key = p.csr.public_key;
    not_before = p.custom.not_before;
    not_after = p.custom.not_after;
    template = p.template;
    key_usage_override = p.custom.key_usage;
    extended_key_usage_override = p.custom.extended_key_usage;
    additional_extensions = p.custom.additional_extensions;
    renewable = p.custom.renewable;
  }

  unfoldable pub sign_record : SignPlan → IssuedCertificate → CertificateRecord
  sign_record p issued = record {
    serial_number = issued.serial_decimal;
    subject = common_name p;
    sans = map (λ san. to_string show_ip san) p.custom.sans;
    not_before = self.signer.format_rfc3339 p.custom.not_before;
    not_after = issued.not_after_rfc3339;
    issued_at = self.signer.format_rfc3339 now;
    provisioner = some p.validated.provisioner;
    operation = "sign";
    renewable = p.custom.renewable;
    pem = issued.pem;
  }

  unfoldable pub sign_event : Option String → SignPlan → IssuedCertificate → AuditEvent
  sign_event request_id p issued = record {
    event_type = "certificate.issued";
    outcome = "success";
    provisioner = some p.validated.provisioner;
    subject = some (common_name p);
    serial_number = some issued.serial_decimal;
    sans = map (λ san. to_string show_ip san) p.custom.sans;
    detail = none;
    request_id = request_id;
  }

  -- from the first claim on
  unfoldable pub commit_sign :
      Option String → SignPlan → Action S (CertificateResponse × AuditEvent)
  commit_sign request_id p = do
    claim_jti self now "ott" p.validated.replay_id
        (system_time_from_epoch p.validated.claims.exp + replay_leeway)
    claim_once_scopes self now p.once_scopes p.custom.not_after
    issued ← lift (issue self.formats self.signer self.ca random (issue_params p))
    self.storage.record_certificate (sign_record p issued)
    pure (certificate_response self issued, sign_event request_id p issued)

  unfoldable pub try_sign :
      SignRequest → String → Option String → Action S (CertificateResponse × AuditEvent)
  try_sign req request_url request_id = do
    p ← lift (sign_plan self now req request_url)
    commit_sign request_id p

  -- what `sign` answers and the event that it emits
  abbrev pub answer :
      Option String
      → Result (CertificateResponse × AuditEvent)
      → Result CertificateResponse × AuditEvent
  answer request_id (ok (resp, event)) = (ok resp, event)
  answer request_id (err e) = (err e, denial "certificate.issued" request_id e)

  unfoldable pub sign :
      SignRequest → String → Option String → S → (Result CertificateResponse × AuditEvent) × S
  sign req request_url request_id s =
      let (r, s') = try_sign req request_url request_id s in (answer request_id r, s')
