-- ===== src/Authorizer/Keyset.antt =====
-- ayane/src/authorizer/jwks.rs: a remote key set, and its cache.
use ayane.Base.{
  ◌-◌, String, Bool, true, false, Option, none, some, List, [], ◌∷◌, ◌++◌, ◌==◌, ltb, find,
  if◌then◌else◌,
}
use ayane.Error.{Result, ok, err, config, internal, unauthorized, ok_or, guard}
use ayane.Action.{Action, pure, lift, ◌>>=◌, ◌>>◌}
use ayane.Time.{SystemTime, Duration, from_secs}
use ayane.San.{Bytes}
use ayane.Ca.Serial.{Text}
use ayane.Service.Revoke.{chars}
use ayane.Authorizer.{Jwt, Jwk, SigningKey, signing_key_from_jwk}
use ayane.Authorizer.Url.{is_secure_url, cache_control_ttl}

pub data JwksLocation : Type 0 where
  direct oidc : String → JwksLocation

pub record CachedKeyset : Type 0 where
  pub keys : List Jwk
  pub fetched_at : SystemTime
  pub ttl : Duration

-- ayane/src/config.rs
pub record JwksConfig : Type 0 where
  pub jwks_url : Option String
  pub openid_configuration_url : Option String
  pub issuer : Option String

pub record OidcDiscovery : Type 0 where
  pub issuer : String
  pub jwks_uri : String

-- an answer to a GET: its status, the Cache-Control header, and the body where it does not break off
pub record Reply : Type 0 where
  pub success : Bool
  pub cache_control : Option Text
  pub body : Option Bytes

-- What comes of a GET: the redirects that the client follows, ten at most, and the reply at the end of
-- them (`none`: no answer arrives).
pub record Exchange : Type 0 where
  pub redirects : List String
  pub reply : Option Reply

-- The source, the exchanges to come (past the end, no answer arrives), the URLs that it asked for, and
-- those that the client then went to by redirects, which the source does not see.
pub record JwksSource : Type 0 where
  pub issuer : String
  pub location : JwksLocation
  pub memo : Option CachedKeyset
  pub min_refetch : Duration
  pub replies : List Exchange
  pub fetched : List String
  pub redirected : List String

-- serde_json on the two documents
pub record Documents : Type 0 where
  pub discovery_from_slice : Bytes → Option OidcDiscovery
  pub set_from_slice : Bytes → Option (List Jwk)

unfoldable pub require_secure_url : String → Result (Unit {0})
require_secure_url url = if is_secure_url (chars url) then ok tt else err (config "must be https")

-- the new source of a location, once it is known as secure
abbrev pub source_at : String → JwksLocation → List Exchange → JwksSource
source_at issuer location replies = record {
  issuer = issuer;
  location = location;
  memo = none;
  min_refetch = from_secs 60;
  replies = replies;
  fetched = [];
  redirected = [];
}

-- `JwksSource::new`
unfoldable pub new_source : String → JwksConfig → List Exchange → Result JwksSource
unfolding require_secure_url
new_source issuer jwks replies = elim jwks.jwks_url [
  | some url ↦ elim jwks.openid_configuration_url [
    | some other ↦ err (config "set only one of `jwks_url` / `openid_configuration_url`")
    | none ↦ elim (require_secure_url url) [
      | ok u ↦ ok (source_at issuer (direct url) replies)
      | err e ↦ err e
    ]
  ]
  | none ↦ elim jwks.openid_configuration_url [
    | some url ↦ elim (require_secure_url url) [
      | ok u ↦ ok (source_at issuer (oidc url) replies)
      | err e ↦ err e
    ]
    | none ↦ err (config "`jwks` requires `jwks_url` or `openid_configuration_url`")
  ]
]

abbrev pub next_reply : List Exchange → Exchange × List Exchange
next_reply [] = (record { redirects = []; reply = none }, [])
next_reply (r ∷ rs) = (r, rs)

-- `client.get(url).send()`; nothing is looked at on the way of the redirects
unfoldable pub get : String → Action JwksSource Reply
get url s =
    let (exchange, replies) = next_reply s.replies in
    (
      ok_or exchange.reply (internal "fetch"),
      record s {
        replies = replies;
        fetched = s.fetched ++ url ∷ [];
        redirected = s.redirected ++ exchange.redirects;
      },
    )

unfoldable pub body_of : Reply → Result Bytes
body_of reply = ok_or reply.body (internal "read")

unfoldable pub select_key : List Jwk → Option String → Option Jwk
select_key keys (some kid) = find (λ k. elim k.key_id [ none ↦ false | some id ↦ id == kid ]) keys
select_key (only ∷ []) none = some only
select_key _ none = none

abbrev pub is_fresh : SystemTime → CachedKeyset → Bool
is_fresh now c = ltb (now - c.fetched_at) c.ttl

module _ (J : Jwt) (D : Documents) where
  -- the discovery document's `jwks_uri`
  unfoldable pub discover : String → Action JwksSource String
  discover url s =
      (do
        reply ← get url
        lift (guard reply.success (internal "OIDC discovery returned HTTP"))
        bytes ← lift (body_of reply)
        doc ← lift (ok_or (D.discovery_from_slice bytes) (internal "parse OIDC discovery"))
        lift (guard (doc.issuer == s.issuer) (internal "OIDC issuer mismatch"))
        lift (guard (is_secure_url (chars doc.jwks_uri)) (internal "OIDC jwks_uri is not https"))
        pure doc.jwks_uri)
        s

  unfoldable pub locate : JwksLocation → Action JwksSource String
  locate (direct url) = pure url
  locate (oidc url) = discover url

  unfoldable pub fetch : Action JwksSource (List Jwk × Duration)
  fetch s =
      (do
        jwks_url ← locate s.location
        reply ← get jwks_url
        lift (guard reply.success (internal "JWKS returned HTTP"))
        bytes ← lift (body_of reply)
        keys ← lift (ok_or (D.set_from_slice bytes) (internal "parse JWKS"))
        pure (keys, cache_control_ttl reply.cache_control))
        s

  abbrev pub is_recent : SystemTime → JwksSource → Bool
  is_recent now s = elim s.memo [ none ↦ false | some c ↦ ltb (now - c.fetched_at) s.min_refetch ]

  unfoldable pub keep : SystemTime → List Jwk × Duration → Action JwksSource (Unit {0})
  keep now (keys, ttl) s =
      (ok tt, record s { memo = some (record { keys = keys; fetched_at = now; ttl = ttl }) })

  unfoldable pub refresh : SystemTime → Action JwksSource (Unit {0})
  refresh now s = elim (is_recent now s) [ true ↦ (ok tt, s) | false ↦ (fetch >>= keep now) s ]

  unfoldable pub to_signing_key : Jwk → Result SigningKey
  to_signing_key jwk = signing_key_from_jwk J unauthorized jwk

  -- the key from a cache that is fresh
  unfoldable pub cached_key : SystemTime → Option String → JwksSource → Option Jwk
  cached_key now kid s = elim s.memo [
    | none ↦ none
    | some c ↦ if is_fresh now c then select_key c.keys kid else none
  ]

  unfoldable pub refreshed_key : Option String → Option CachedKeyset → Result SigningKey
  refreshed_key kid none = err (internal "JWKS cache empty after refresh")
  refreshed_key kid (some c) = elim (select_key c.keys kid) [
    | none ↦ err (unauthorized "no verification key for kid")
    | some jwk ↦ to_signing_key jwk
  ]

  unfoldable pub resolve : SystemTime → Option String → Action JwksSource SigningKey
  resolve now kid s = elim (cached_key now kid s) [
    | some jwk ↦ (to_signing_key jwk, s)
    | none ↦ (refresh now >>= λ _ s'. (refreshed_key kid s'.memo, s')) s
  ]
