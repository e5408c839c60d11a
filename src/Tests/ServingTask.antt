-- ===== src/Tests/ServingTask.antt =====
-- The task that renews the server's certificate, after one failure.
use ayane.Base.{some, ◌+◌, ◌≡◌, ◌≤◌, refl, [], ◌∷◌, arith}
use ayane.Error.{ok, err, internal}
use ayane.Time.{from_secs}
use ayane.San.{dns}
use ayane.Ca.{Signer}
use ayane.Tls.Renewer.{
  Keys, SelfIssuer, Renewer, Round, Attempt, server_template, issue_serving, ServingCert, iteration,
  renewed, failed, retry_backoff,
}
use ayane.Tls.Kept.{begun, kept, IsServing, served_in_time}
use ayane.Tests.Fixtures.{noon, formats, formats-IsCoherent, signer, authority, leaf_key}

abbrev keys : Keys
keys = record {
  public_key_of = λ secret. ok leaf_key;
  parse_many = λ text. ok ((48 ∷ []) ∷ []);
  to_pkcs8_der = λ secret. ok secret;
  any_ecdsa_type = λ der. ok der;
}

abbrev issuer : SelfIssuer
issuer = record {
  sans = dns "ca.example" ∷ [];
  validity = from_secs 86_400;
  renew_before = from_secs 600;
  renew_jitter = 0;
  template = server_template;
}

abbrev round : Signer → Round
round s = record {
  draw = 0;
  late = from_secs 1;
  attempt = record { secret = 7 ∷ []; serial = 64 ∷ []; signer = s };
  took = from_secs 2;
  paused = from_secs 1;
}

abbrev unavailable : Signer
unavailable = record signer { sign = λ bytes. err (internal "key service") }

abbrev started : Renewer
started = record {
  now = noon;
  current = record { cert = (48 ∷ []) ∷ []; key = 7 ∷ [] };
  not_after = noon + from_secs 86_400;
}

abbrev waiting : Renewer
waiting = record started { now = noon + from_secs 85_864 }

abbrev served : Renewer
served = record {
  now = noon + from_secs 85_867;
  current = record { cert = (48 ∷ []) ∷ []; key = 7 ∷ [] };
  not_after = noon + from_secs 172_265;
}

abbrev first : ServingCert
first = record { certified_key = started.current; not_after = started.not_after }

rounds :
    (issue_serving formats keys authority issuer (round signer).attempt noon ≡ some (ok first))
    × (iteration formats keys authority issuer (round unavailable) started ≡ failed waiting)
    × (iteration formats keys authority issuer (round signer) waiting ≡ renewed served)
unfolding iteration ayane.Tls.Renewer.settle issue_serving ayane.Tls.Renewer.serving_window
    ayane.Tls.renew_delay ayane.Tls.jitter_of ayane.Tls.Renewer.serve ayane.Error.◌>>=◌
    ayane.Ca.issue ayane.X509.name_with_common_name ayane.Tls.Renewer.serving_common_name
    ayane.Template.build_extensions ayane.X509.extension ayane.Template.key_usage_extension
    ayane.Template.extended_key_usage_extension ayane.Template.subject_alt_name_extension
    ayane.Template.general_names ayane.San.to_general_name ayane.Ca.Serial.serial_to_decimal
    ayane.Ca.seal ayane.Ca.set_non_renewable_marker ayane.Crypto.algorithm_identifier
    ayane.Crypto.is_rsa ayane.Template.finalize_key_identifiers ayane.Template.flag
    ayane.Template.purpose ayane.Template.upsert_all ayane.Template.upsert_extension
    ayane.Template.upsert_some ayane.Tls.Renewer.parse_chain ayane.X509.key_identifier
    ayane.X509.non_renewable_extension ayane.X509.to_x509_time ayane.X509.validity
rounds = (refl, refl, refl)

served_in_time_example :
    (served.now ≤ waiting.not_after)
    × (served.now + issuer.renew_before ≤ served.not_after)
    × IsServing formats keys authority issuer waiting.not_after waiting.current
    × IsServing formats keys authority issuer served.not_after served.current
served_in_time_example =
    served_in_time formats keys authority issuer formats-IsCoherent (from_secs 10)
      (round signer).attempt noon noon first (omega arith) (omega arith) rounds.0 (omega arith)
      (omega arith) (kept (round unavailable) begun (record { within = omega arith }) rounds.1)
      (round signer) (record { within = omega arith }) rounds.2 (omega arith)
