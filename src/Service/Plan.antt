-- ===== src/Service/Plan.antt =====
-- ayane/src/service.rs, `try_sign`: all that is checked and decided before anything is claimed.
use ayane.Base.{String, none, some, List, ◌++◌}
use ayane.Error.{Result, ok, ◌>>=◌, ◌>>◌}
use ayane.Time.{SystemTime}
use ayane.San.{San}
use ayane.Template.{CertificateTemplate, compute_validity, max_not_after}
use ayane.Hook.{Context, Customization, OnceClaim, sign}
use ayane.Hook
use ayane.Csr.{ParsedCsr, from_pem, verify_signature, requested_sans}
use ayane.Service.{
  Service, SignRequest, Validated, allowed_sans, authorized_sans, check_binding, clamp_not_after,
  check_window, parse_time, token_scope, resolve_template,
}

-- what an issuance goes on with
pub record SignPlan : Type 0 where
  pub csr : ParsedCsr
  pub validated : Validated
  pub template : CertificateTemplate
  pub context : Context
  pub custom : Customization
  pub once_scopes : List OnceClaim

module _ {S : Type 0} (self : Service S) (now : SystemTime) where
  -- the context of the hooks
  unfoldable pub sign_context : ParsedCsr → Validated → List San → SystemTime → SystemTime → Context
  sign_context csr validated sans not_before not_after = record {
    operation = sign;
    authorized = validated.authorized;
    provisioner = some validated.provisioner;
    subject = validated.claims.sub;
    sans = sans;
    not_before = not_before;
    not_after = not_after;
    csr_der = some csr.der;
    previous_certificate_der = none;
    renewable = validated.claims.renew;
  }

  -- the hooks' customization, with `notAfter` no later than the template allows
  unfoldable pub customize : CertificateTemplate → Context → Result Customization
  customize template context = do
    asked ← Hook.run self.parse_oid now self.hooks context
    let custom : Customization = record asked {
      not_after = clamp_not_after (max_not_after template asked.not_before) asked.not_after;
    }
    check_window custom.not_before custom.not_after
    ok custom

  unfoldable pub sign_plan : SignRequest → String → Result SignPlan
  sign_plan req request_url = do
    csr ← from_pem self.formats self.csr_formats req.csr
    verify_signature self.formats self.csr_formats csr
    validated ← self.validate now req.token request_url
    check_binding validated.claims (self.csr_formats.fingerprint_b64url csr.der)
    requested ← requested_sans self.formats self.csr_formats csr
    sans ←
        authorized_sans validated.authorized (allowed_sans self.parse_ip validated.claims) requested
    template ← resolve_template self validated.template
    from ← parse_time self.parse_rfc3339 req.not_before
    to ← parse_time self.parse_rfc3339 req.not_after
    window ← compute_validity template now from to
    let context = sign_context csr validated sans window.0 window.1
    custom ← customize template context
    ok (record {
      csr = csr;
      validated = validated;
      template = template;
      context = context;
      custom = custom;
      once_scopes = custom.once_claims ++ token_scope validated.provisioner validated.claims.once;
    })
