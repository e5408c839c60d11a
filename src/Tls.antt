-- ===== src/Tls.antt =====
-- ayane/src/tls.rs and the TlsConfig of ayane/src/config.rs: the names of the server's own
-- certificate, and the time at which it is renewed. The parsers of addresses and of URLs are the
-- fields of `Addresses`.
pub mod Serving
pub mod Renewer
pub mod Kept
use ayane.Base.{
  ℕ, String, Bool, ◌+◌, ◌-◌, ◌*◌, ◌/◌, ◌%◌, ◌^◌, leb, nat_eq, not, ◌||◌, Option, none, some, List,
  [], ◌∷◌, ◌++◌, map, unwrap_or, is_empty, if◌then◌else◌,
}
use ayane.Error.{Result, ok, err, ok_or, config, ◌>>=◌, ◌>>◌}
use ayane.Time.{SystemTime, Duration, unix_epoch, checked_sub, duration_since}
use ayane.San.{San, IpAddr, Bytes, dns, ip, v4, v6}

-- the host of a URL
pub data Host : Type 0 where
  domain : String → Host
  ipv4 ipv6 : Bytes → Host

pub record Addresses : Type 0 where
  pub parse_ip : String → Option IpAddr
  -- `url::Url::parse(url).ok()`, then its host
  pub host_of : String → Option Host

pub record TlsConfig : Type 0 where
  pub enabled : Bool
  pub dns_names : List String
  pub ip_addresses : List String
  pub validity : Duration
  pub renew_before : Option Duration
  pub renew_jitter : Option Duration

abbrev pub effective_renew_before : TlsConfig → Duration
effective_renew_before tls = unwrap_or tls.renew_before (tls.validity / 3)

abbrev pub effective_renew_jitter : TlsConfig → Duration
effective_renew_jitter tls = unwrap_or tls.renew_jitter (tls.validity / 20)

unfoldable pub host_san : Host → San
host_san (domain d) = dns d
host_san (ipv4 a) = ip (v4 a)
host_san (ipv6 a) = ip (v6 a)

abbrev pub loopback_sans : List San
loopback_sans =
    dns "localhost"
    ∷ ip (v4 (127 ∷ 0 ∷ 0 ∷ 1 ∷ []))
    ∷ ip (v6 (0 ∷ 0 ∷ 0 ∷ 0 ∷ 0 ∷ 0 ∷ 0 ∷ 0 ∷ 0 ∷ 0 ∷ 0 ∷ 0 ∷ 0 ∷ 0 ∷ 0 ∷ 1 ∷ []))
    ∷ []

-- the host of the external URL, if there is one
unfoldable pub url_host : (String → Option Host) → Option String → Option Host
url_host host_of none = none
url_host host_of (some url) = host_of url

unfoldable pub fallback_sans : Option Host → List San
fallback_sans (some host) = host_san host ∷ []
fallback_sans none = loopback_sans

module _ (A : Addresses) where
  -- the loop over the addresses
  unfoldable pub ip_sans : List String → Result (List San)
  ip_sans [] = ok []
  ip_sans (s ∷ ss) = do
    a ← ok_or (A.parse_ip s) (config "server.tls.ip_addresses: invalid IP")
    sans ← ip_sans ss
    ok (ip a ∷ sans)

  unfoldable pub resolve_sans : TlsConfig → Option String → Result (List San)
  resolve_sans tls external_url =
      if not (is_empty tls.dns_names) || not (is_empty tls.ip_addresses)
      then ip_sans tls.ip_addresses >>= (λ ips. ok (map dns tls.dns_names ++ ips))
      else ok (fallback_sans (url_host A.host_of external_url))

  unfoldable pub check_addresses : List String → Result (Unit {0})
  check_addresses [] = ok tt
  check_addresses (s ∷ ss) = do
    ok_or (A.parse_ip s) (config "server.tls.ip_addresses: invalid IP")
    check_addresses ss

  unfoldable pub validate : TlsConfig → Result (Unit {0})
  validate tls = do
    check_addresses tls.ip_addresses
    if leb tls.validity (effective_renew_before tls)
        then err (config "server.tls.renew_before must be shorter than validity")
        else ok tt

-- `d.as_millis() as u64`
abbrev pub millis_u64 : Duration → ℕ
millis_u64 d = d / 1_000_000 % 2 ^ 64

-- `draw` is the number that `gen_range` gives
unfoldable pub jitter_of : Duration → ℕ → Duration
jitter_of renew_jitter draw = if nat_eq renew_jitter 0 then 0 else draw * 1_000_000

unfoldable pub renew_delay : SystemTime → SystemTime → Duration → Duration → ℕ → Duration
renew_delay now not_after renew_before renew_jitter draw =
    let renew_at =
      unwrap_or (checked_sub not_after (renew_before + jitter_of renew_jitter draw)) unix_epoch in
    unwrap_or (duration_since renew_at now) 0
