-- ===== src/Service/Revoke.antt =====
-- ayane/src/service.rs, `normalize_serial` and `try_revoke`.
use ayane.Base.{
  ℕ, ℤ, pos, String, Bool, true, ◌+◌, ◌%◌, ◌&&◌, ◌||◌, not, Option, none, some, [], ◌∷◌, length,
  leb, nat_eq, is_empty, unwrap_or, if◌then◌else◌,
}
use mathlib.Core.List.{reverse}
use Prim.Native.Char.{code}
use ayane.Error.{Error, Result, ok, err, ok_or, forbidden, unauthorized, bad_request}
use ayane.Error
use ayane.Action.{Action, pure, lift, fail, ◌>>=◌, ◌>>◌}
use ayane.Time.{SystemTime}
use ayane.San.{Bytes, same_bytes}
use ayane.Ca.{verify_issued}
use ayane.Ca.Serial.{Text, serial_to_decimal}
use ayane.Storage.{RevocationRecord}
use ayane.Service.{Service, claim_jti, system_time_from_epoch, replay_leeway}
use ayane.Service.Renew.{serial_of}
use ayane.Service.Sign.{AuditEvent, reason_text}

-- ayane-protocol/src/api.rs
pub record RevokeRequest : Type 0 where
  pub serial_number : String
  pub reason : Option String
  pub reason_code : Option ℤ
  pub token : Option String
  pub certificate : Option String

-- the characters of a text
unfoldable pub chars : String → Text
chars String.[] = []
chars (String.◌∷◌ c s) = code c ∷ chars s

-- `char::is_whitespace`
unfoldable pub is_whitespace : ℕ → Bool
is_whitespace c =
    (leb 9 c && leb c 13)
    || nat_eq c 0x20
    || nat_eq c 0x85
    || nat_eq c 0xa0
    || nat_eq c 0x1680
    || (leb 0x2000 c && leb c 0x200a)
    || nat_eq c 0x2028
    || nat_eq c 0x2029
    || nat_eq c 0x202f
    || nat_eq c 0x205f
    || nat_eq c 0x3000

-- `trim_start_matches`
unfoldable pub trim_start_matches : (ℕ → Bool) → Text → Text
trim_start_matches p [] = []
trim_start_matches p (c ∷ cs) = let rest = trim_start_matches p cs in if p c then rest else c ∷ cs

unfoldable pub trim : Text → Text
trim s = reverse (trim_start_matches is_whitespace (reverse (trim_start_matches is_whitespace s)))

-- `strip_prefix("0x").or_else(|| strip_prefix("0X"))`
unfoldable pub strip_hex_prefix : Text → Option Text
strip_hex_prefix (z ∷ x ∷ rest) =
    if nat_eq z 48 && (nat_eq x 120 || nat_eq x 88) then some rest else none
strip_hex_prefix _ = none

unfoldable pub all_digits : Text → Bool
all_digits [] = true
all_digits (c ∷ cs) = leb 48 c && leb c 57 && all_digits cs

abbrev pub zero_if_empty : Text → Text
zero_if_empty [] = 48 ∷ []
zero_if_empty (c ∷ cs) = c ∷ cs

-- The decoder of hexadecimal digits, a third-party one, is an argument; it refuses a character that is
-- not ASCII, so the length in characters serves for the length in bytes.
unfoldable pub normalize_serial : (Text → Option Bytes) → Text → Result Text
normalize_serial hex_decode input =
    let trimmed = trim input in
    elim (strip_hex_prefix trimmed) [
      | some hex ↦
          let padded = if nat_eq (length hex % 2) 1 then 48 ∷ hex else hex in
          Error.◌>>=◌ (ok_or (hex_decode padded) (bad_request "invalid hex serial"))
            (λ bytes. ok (serial_to_decimal bytes))
      | none ↦
          if is_empty trimmed || not (all_digits trimmed)
          then err (bad_request "invalid serial number")
          else ok (zero_if_empty (trim_start_matches (λ c. nat_eq c 48) trimmed))
    ]

-- `if a != b { return Err(Forbidden(msg)) }`
unfoldable pub same_serial : Text → Text → String → Result (Unit {0})
same_serial a b msg = if same_bytes a b then ok tt else err (forbidden msg)

module _ {S : Type 0} (self : Service S) (hex_decode : Text → Option Bytes) (now : SystemTime) where
  unfoldable pub revoke_by_token : Text → String → String → Action S (Option String)
  revoke_by_token serial token request_url = do
    validated ← lift (self.validate now token request_url)
    token_serial ← lift (normalize_serial hex_decode (chars validated.claims.sub))
    lift (same_serial token_serial serial "token does not authorize this serial number")
    claim_jti self now "ott" validated.replay_id
        (system_time_from_epoch validated.claims.exp + replay_leeway)
    pure (some validated.provisioner)

  unfoldable pub revoke_by_proof : Text → String → String → String → Action S (Option String)
  revoke_by_proof serial proof cert_pem request_url = do
    cert ← lift (self.certificate_from_pem cert_pem)
    lift (verify_issued self.formats self.signer self.ca cert)
    lift (
        same_serial (serial_of cert) serial
          "DPoP certificate serial does not match the requested serial")
    verified ← lift (self.verify_proof now proof cert request_url self.dpop_max_age)
    claim_jti self now "dpop" verified.jti (verified.issued_at + self.dpop_max_age + replay_leeway)
    pure none

  -- the provisioner that authorizes, if any
  unfoldable pub authorize_revocation :
      Text → Option String → Option String → Option String → String → Action S (Option String)
  authorize_revocation serial (some token) dpop certificate url = revoke_by_token serial token url
  authorize_revocation serial none (some proof) (some cert_pem) url =
      revoke_by_proof serial proof cert_pem url
  authorize_revocation serial none dpop certificate url =
      fail (unauthorized "revocation requires a token, or a DPoP proof with the certificate")

  unfoldable pub revocation_record : RevokeRequest → Text → Option String → RevocationRecord
  revocation_record req serial provisioner = record {
    serial_number = serial;
    reason_code = unwrap_or req.reason_code (pos 0);
    reason = req.reason;
    revoked_at = self.signer.format_rfc3339 now;
    provisioner = provisioner;
  }

  unfoldable pub revocation_event :
      RevokeRequest → Option String → Text → Option String → AuditEvent
  revocation_event req request_id serial provisioner = record {
    event_type = "certificate.revoked";
    outcome = "success";
    provisioner = provisioner;
    subject = none;
    serial_number = some serial;
    sans = [];
    detail = elim req.reason [ some r ↦ some (reason_text r) | none ↦ none ];
    request_id = request_id;
  }

  -- the answer's status, and the event
  unfoldable pub try_revoke :
      RevokeRequest → Option String → String → Option String → Action S (String × AuditEvent)
  try_revoke req dpop request_url request_id = do
    serial ← lift (normalize_serial hex_decode (chars req.serial_number))
    provisioner ← authorize_revocation serial req.token dpop req.certificate request_url
    self.storage.revoke (revocation_record req serial provisioner)
    pure ("revoked", revocation_event req request_id serial provisioner)
