-- ===== src/Tests/Tls.antt =====
-- The server's own certificate at a concrete configuration.
use ayane.Base.{◌+◌, ◌≡◌, ◌≤◌, ◌<◌, refl, false, none, some, List, [], ◌∷◌, is_empty, arith}
use ayane.Error.{ok}
use ayane.Time.{from_secs}
use ayane.San.{San, v4}
use ayane.Tls.{
  Addresses, TlsConfig, validate, check_addresses, resolve_sans, renew_delay,
  effective_renew_before, effective_renew_jitter,
}
use ayane.Tls.Serving.{validate-serves}
use ayane.Tests.Fixtures.{noon}

abbrev addresses : Addresses
addresses = record { parse_ip = λ s. some (v4 (192 ∷ 0 ∷ 2 ∷ 1 ∷ [])); host_of = λ url. none }

abbrev tls : TlsConfig
tls = record {
  enabled = ayane.Base.true;
  dns_names = "ca.example" ∷ [];
  ip_addresses = "192.0.2.1" ∷ [];
  validity = from_secs 86_400;
  renew_before = none;
  renew_jitter = some (from_secs 60);
}

validate-serves_example :
    ((sans : List San) × (resolve_sans addresses tls none ≡ ok sans) × (is_empty sans ≡ false))
    × (renew_delay noon
            (noon + tls.validity)
            (effective_renew_before tls)
            (effective_renew_jitter tls)
            30_000
          + effective_renew_before tls
        ≤ tls.validity)
    × (tls.validity
        ≤ renew_delay noon
            (noon + tls.validity)
            (effective_renew_before tls)
            (effective_renew_jitter tls)
            30_000
          + effective_renew_before tls
          + effective_renew_jitter tls)
    × (0
        < renew_delay noon
            (noon + tls.validity)
            (effective_renew_before tls)
            (effective_renew_jitter tls)
            30_000
          + effective_renew_jitter tls)
unfolding validate check_addresses ayane.Error.◌>>=◌
validate-serves_example =
    validate-serves addresses tls none noon 30_000 refl (omega arith) (omega arith)
