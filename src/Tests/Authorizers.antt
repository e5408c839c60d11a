-- ===== src/Tests/Authorizers.antt =====
-- The theorems on the authorizer, at a static key and a remote key set.
use ayane.Base.{
  ap, sym, ◌∙◌, ◌+◌, ◌≡◌, refl, String, true, Option, none, some, List, [], ◌∷◌, arith, Any, pos,
}
use ayane.Error.{ok, ◌>>=◌}
use ayane.Time.{SystemTime, unix_epoch, from_secs}
use ayane.Service.{OttClaims, Validated}
use ayane.Service.Revoke.{chars}
use ayane.Authorizer.{
  Jwt, Jwk, elliptic_curve, p256, es256, algorithm_from_jwk, signing_key_from_jwk, validate_signed,
  matches, unverified_issuer,
}
use ayane.Authorizer.Url.{is_secure_url, strip_prefix}
use ayane.Authorizer.Keyset.{
  Documents, JwksConfig, JwksSource, CachedKeyset, Exchange, direct, new_source, require_secure_url,
  resolve, select_key, to_signing_key, cached_key,
}
use ayane.Authorizer.Provisioners.{
  ProvisionerConfig, jwk, jwks, Provisioner, from_configs, build, new_verifier, new_jwk_verifier,
  new_jwks_verifier, expected_issuer, resolved_issuer, effective_authorized, validate, verify,
  validated,
}
use ayane.Authorizer.Rotation.{IsResolved, resolves, resolve-IsResolved, resolves_quiet}
use ayane.Authorizer.Routing.{IsRouted, IsDistinct, validates, validate_routes}

abbrev noon : SystemTime
noon = unix_epoch + from_secs 1000

abbrev key : Jwk
key = record {
  algorithm = elliptic_curve p256;
  key_algorithm = none;
  key_id = some "k1";
  material = 7 ∷ [];
}

abbrev claims : OttClaims
claims = record {
  sub = "a.example";
  sans = [];
  exp = pos 2000;
  x5t_s256 = none;
  renew = true;
  once = none;
}

-- Tokens whose text is the issuer.
abbrev jwt : Jwt
jwt = record {
  decoding_key = λ k. some k.material;
  decode_header = λ token. some (some "k1");
  decode = λ now token material v. some (claims, some "jti");
  payload = λ token. some token;
  base64url_decode = λ text. some (chars text);
  json_iss = λ bytes. some (some "ci");
  sha256_hex = λ text. text;
}

abbrev documents : Documents
documents = record {
  discovery_from_slice = λ bytes. none;
  set_from_slice = λ bytes. some (key ∷ []);
}

abbrev endpoint : JwksConfig
endpoint = record {
  jwks_url = some "https://id.example/keys";
  openid_configuration_url = none;
  issuer = some "https://id.example";
}

abbrev configs : List ProvisionerConfig
configs =
    record { name = "ci"; audiences = []; template = none; authorized = none; kind = jwk key }
    ∷ record {
      name = "id";
      audiences = "ca" ∷ [];
      template = none;
      authorized = none;
      kind = jwks endpoint;
    }
    ∷ []

abbrev no_replies : String → List Exchange
no_replies issuer = []

unfoldable built : (ps : List Provisioner) × (from_configs jwt no_replies configs ≡ ok ps)
unfolding from_configs build new_verifier new_jwk_verifier new_jwks_verifier new_source
    require_secure_url is_secure_url strip_prefix expected_issuer resolved_issuer
    effective_authorized signing_key_from_jwk algorithm_from_jwk ◌>>=◌ chars
built = (_, refl)

unfoldable routed :
    (v : Validated) × ((validate jwt documents noon "ci" "url"
        (validates jwt documents [] built.0)).0
      ≡ ok v)
unfolding built validate validates verify validated validate_signed matches unverified_issuer ◌>>=◌
routed = (_, refl)

validate_routes_example : Any (IsRouted jwt documents "ci" routed.0) configs × IsDistinct [] configs
validate_routes_example =
    validate_routes jwt documents no_replies configs built.0 [] noon "ci" "url" routed.0 built.1
      routed.1

abbrev cached : CachedKeyset
cached = record { keys = key ∷ []; fetched_at = noon; ttl = from_secs 3_600 }

abbrev source : JwksSource
source = record {
  issuer = "https://id.example";
  location = direct "https://id.example/keys";
  memo = some cached;
  min_refetch = from_secs 60;
  replies = [];
  fetched = [];
  redirected = [];
}

resolved :
    (resolve jwt documents noon (some "k1") source).0
    ≡ ok (record { decoding_key = 7 ∷ []; algorithm = es256 })
unfolding resolve cached_key select_key to_signing_key signing_key_from_jwk algorithm_from_jwk ◌>>=◌
resolved = refl

resolve-IsResolved_example :
    IsResolved jwt
      (some "k1")
      (resolve jwt documents noon (some "k1") source).1.memo
      (record { decoding_key = 7 ∷ []; algorithm = es256 })
resolve-IsResolved_example =
    resolve-IsResolved jwt documents noon (some "k1") source
      (record { decoding_key = 7 ∷ []; algorithm = es256 }) resolved

abbrev unknown : List (SystemTime × Option String)
unknown = (noon + from_secs 10, some "k2") ∷ (noon + from_secs 50, none) ∷ []

-- the first answer has the key, and went over another host
abbrev answers : List Exchange
answers =
    record {
      redirects = "http://mirror.example/keys" ∷ [];
      reply = some (record { success = true; cache_control = none; body = some [] });
    }
    ∷ []

abbrev started : JwksSource
started = record source { issuer = "id"; memo = none; replies = answers }

abbrev after_fetch : JwksSource
after_fetch = record {
  issuer = "id";
  location = direct "https://id.example/keys";
  memo = some (record { keys = key ∷ []; fetched_at = noon; ttl = from_secs 3_600 });
  min_refetch = from_secs 60;
  replies = [];
  fetched = "https://id.example/keys" ∷ [];
  redirected = "http://mirror.example/keys" ∷ [];
}

starts : new_source "id" endpoint answers ≡ ok started
unfolding new_source require_secure_url is_secure_url strip_prefix chars
starts = refl

-- the key is fetched, also where the client is redirected to a URL that is not https
fetches :
    resolve jwt documents noon (some "k1") started
    ≡ (ok (record { decoding_key = 7 ∷ []; algorithm = es256 }), after_fetch)
unfolding resolve cached_key ayane.Action.◌>>=◌ ayane.Action.continue
    ayane.Authorizer.Keyset.refresh ayane.Authorizer.Keyset.fetch ayane.Authorizer.Keyset.locate
    ayane.Action.pure ayane.Authorizer.Keyset.get ayane.Action.lift ayane.Authorizer.Keyset.body_of
    ayane.Authorizer.Keyset.keep ayane.Authorizer.Keyset.refreshed_key
    ayane.Authorizer.Url.cache_control_ttl select_key to_signing_key signing_key_from_jwk
    algorithm_from_jwk ◌>>=◌
fetches = refl

resolves_quiet_example :
    resolves jwt documents unknown
      (resolve jwt documents noon (some "k1") (resolves jwt documents [] started)).1
    ≡ (resolve jwt documents noon (some "k1") (resolves jwt documents [] started)).1
unfolding resolves
resolves_quiet_example =
    resolves_quiet jwt documents "id" endpoint answers started [] unknown noon (some "k1")
      (record { decoding_key = 7 ∷ []; algorithm = es256 }) starts (ap (λ o. o.0) fetches)
      (λ same.
        let e : after_fetch ≡ started = sym (ap (λ o. o.1) fetches) ∙ same in
        let emptied : "http://mirror.example/keys" ∷ [] ≡ [] =
          ap (λ (x : JwksSource). x.redirected) e in
        cc)
      (omega arith, (omega arith, tt))
