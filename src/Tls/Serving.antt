-- ===== src/Tls/Serving.antt =====
-- What a configuration that is accepted serves.
use ayane.Base.{
  ℕ, String, false, not, ◌||◌, ◌+◌, ◌≡◌, ◌≤◌, ◌<◌, refl, Option, none, some, List, [], ◌∷◌, ◌++◌,
  map, leb, arith, inl, inr, Bool-cases, Option-cases, is_empty, if◌then◌else◌,
}
use ayane.Error.{Result, ok, ◌>>=◌, Ensures, Ensures-bind, Ensures-ok, Ensures-err}
use ayane.Time.{SystemTime, Duration, unix_epoch}
use ayane.San.{San, dns, ip}
use ayane.Tls.{
  Addresses, TlsConfig, Host, validate, resolve_sans, check_addresses, ip_sans, url_host,
  fallback_sans, renew_delay, jitter_of, millis_u64, effective_renew_before, effective_renew_jitter,
}

module _ (A : Addresses) where
  -- The addresses that are checked are read, as many as there are.
  check_addresses-ip_sans :
      (ss : List String)
      → check_addresses A ss ≡ ok tt
      → (sans : List San) × (ip_sans A ss ≡ ok sans) × (is_empty sans ≡ is_empty ss)
  unfolding check_addresses ip_sans ◌>>=◌
  check_addresses-ip_sans [] h = ([], refl, refl)
  check_addresses-ip_sans (s ∷ ss) h = elim (Option-cases (A.parse_ip s)) [
    | inl e ↦ let h' = rw e at h in cc
    | inr (a, e) ↦
        let (sans, read, _) = check_addresses-ip_sans ss (rw e at h) in
        (ip a ∷ sans, rw (e, read) refl, refl)
  ]

jitter_of-le :
    (jitter : Duration) (draw : ℕ) → draw ≤ millis_u64 jitter → jitter_of jitter draw ≤ jitter
unfolding jitter_of
jitter_of-le jitter draw h = ground arith

-- A certificate that lasts longer than what is to be left of it is renewed when that is left, or up to
-- the jitter before.
renew_delay_bounds :
    (now validity before jitter : ℕ) (draw : ℕ)
    → unix_epoch ≤ now
    → draw ≤ millis_u64 jitter
    → before < validity
    → (renew_delay now (now + validity) before jitter draw + before ≤ validity)
      × (validity ≤ renew_delay now (now + validity) before jitter draw + before + jitter)
unfolding renew_delay
renew_delay_bounds now validity before jitter draw after drawn room =
    let le = jitter_of-le jitter draw drawn in (ground arith, ground arith)

fallback_sans-some : (host : Option Host) → is_empty (fallback_sans host) ≡ false
unfolding fallback_sans
fallback_sans-some none = refl
fallback_sans-some (some host) = refl

-- the names that are configured, or else the others
chosen :
    (names addresses : List String) (r : Result (List San)) (ips others : List San)
    → r ≡ ok ips
    → is_empty ips ≡ is_empty addresses
    → is_empty others ≡ false
    → (sans : List San) × ((if not (is_empty names) || not (is_empty addresses)
          then r >>= (λ ips'. ok (map dns names ++ ips'))
          else ok others)
        ≡ ok sans)
      × (is_empty sans ≡ false)
unfolding ◌>>=◌
chosen [] [] r ips others read same some' = (others, refl, some')
chosen [] (a ∷ as') r ips others read same some' = (ips, rw read refl, same)
chosen (n ∷ ns) as' r ips others read same some' = (map dns (n ∷ ns) ++ ips, rw read refl, refl)

module _ (A : Addresses) where
  ip_sans-resolve_sans :
      (tls : TlsConfig) (external_url : Option String) (ips : List San)
      → ip_sans A tls.ip_addresses ≡ ok ips
      → is_empty ips ≡ is_empty tls.ip_addresses
      → (sans : List San) × (resolve_sans A tls external_url ≡ ok sans) × (is_empty sans ≡ false)
  unfolding resolve_sans
  ip_sans-resolve_sans tls external_url ips read same =
      chosen tls.dns_names tls.ip_addresses (ip_sans A tls.ip_addresses) ips _ read same
        (fallback_sans-some (url_host A.host_of external_url))

  validate-parts :
      (tls : TlsConfig)
      → Ensures
          (λ _.
            (check_addresses A tls.ip_addresses ≡ ok tt)
            × (effective_renew_before tls < tls.validity))
          (validate A tls)
  unfolding validate
  validate-parts tls = Ensures-bind _ _ λ u h.
      elim (Bool-cases (leb tls.validity (effective_renew_before tls))) [
        | inl e ↦ rw e (Ensures-err _)
        | inr e ↦ rw e (Ensures-ok tt (h, ground arith))
      ]

-- With a configuration that is accepted, the names of the server's certificate are found, and are
-- not none; and the wait for the renewal of one that is issued now, from the Unix epoch on, ends when what is to be left of it is
-- left at the latest, and sooner than that by the jitter at most. So there is no wait only where the
-- jitter takes up all that is between the issuance and that time, which is not none.
pub validate-serves :
    (A : Addresses) (tls : TlsConfig) (external_url : Option String) (now : SystemTime) (draw : ℕ)
    → validate A tls ≡ ok tt
    → unix_epoch ≤ now
    → draw ≤ millis_u64 (effective_renew_jitter tls)
    → ((sans : List San) × (resolve_sans A tls external_url ≡ ok sans) × (is_empty sans ≡ false))
      × (renew_delay now
              (now + tls.validity)
              (effective_renew_before tls)
              (effective_renew_jitter tls)
              draw
            + effective_renew_before tls
          ≤ tls.validity)
      × (tls.validity
          ≤ renew_delay now
              (now + tls.validity)
              (effective_renew_before tls)
              (effective_renew_jitter tls)
              draw
            + effective_renew_before tls
            + effective_renew_jitter tls)
      × (0
          < renew_delay now
              (now + tls.validity)
              (effective_renew_before tls)
              (effective_renew_jitter tls)
              draw
            + effective_renew_jitter tls)
validate-serves A tls external_url now draw accepted after drawn =
    let (read, less) = (validate-parts A tls).at tt accepted in
    let (ips, e, same) = check_addresses-ip_sans A tls.ip_addresses read in
    let (latest, soonest) =
      renew_delay_bounds now tls.validity (effective_renew_before tls) (effective_renew_jitter tls)
        draw after drawn less in
    (ip_sans-resolve_sans A tls external_url ips e same, latest, soonest, omega arith)
