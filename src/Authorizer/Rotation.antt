-- ===== src/Authorizer/Rotation.antt =====
-- ayane/src/authorizer/jwks.rs: which keys a key set gives, when it is fetched, and from where.
use ayane.Base.{
  ◌-◌, ◌<◌, ◌≡◌, ◌≢◌, ◌==◌, ◌++◌, eq_iff, inl, inr, refl, sym, ap, subst, ◌∙◌, String, Bool, true,
  false, Option, none, some, List, [], ◌∷◌, arith, All, All-append, Bool-cases, Option-cases, find,
}
use ayane.Error.{Error, Result, ok, unauthorized, ok-injective, >>=-eq-ok, ok_or, guard-eq-ok}
use ayane.Action.{
  Action, Keeps, Keeps-bind, Keeps-pure, Keeps-lift, Keeps-lift-bind, Keeps-bind_given, pure, lift,
  ◌>>=◌, Yields, Yields-bind, Yields-pure, Yields-lift-bind,
}
use ayane.Action
use ayane.Time.{SystemTime, from_secs}
use ayane.Service.Revoke.{chars}
use ayane.Authorizer.{
  Jwt, Jwk, SigningKey, Algorithm, hs256, hs384, hs512, AlgorithmParameters, elliptic_curve,
  octet_key_pair, rsa, octet_key, p256, ed25519, algorithm_from_jwk, signing_key_from_jwk,
}
use ayane.Authorizer.Url.{is_secure_url}
use ayane.Authorizer.Keyset.{
  JwksSource, JwksLocation, JwksConfig, direct, oidc, CachedKeyset, Documents, Exchange,
  require_secure_url, new_source, source_at, get, select_key, is_fresh, discover, locate, fetch,
  is_recent, keep, refresh, to_signing_key, cached_key, refreshed_key, resolve,
}

-- the algorithms that sign and verify with one secret
abbrev pub is_symmetric : Algorithm → Bool
is_symmetric hs256 = true
is_symmetric hs384 = true
is_symmetric hs512 = true
is_symmetric _ = false

abbrev is_symmetric_if : Option Algorithm → Bool
is_symmetric_if none = false
is_symmetric_if (some a) = is_symmetric a

asymmetric : (jwk : Jwk) → is_symmetric_if (algorithm_from_jwk jwk) ≡ false
unfolding algorithm_from_jwk
asymmetric jwk = go jwk.algorithm jwk.key_algorithm
  where
    go :
        (p : AlgorithmParameters) (hint : Option Algorithm)
        → is_symmetric_if (algorithm_from_jwk (record jwk { algorithm = p; key_algorithm = hint }))
          ≡ false
    go (elliptic_curve p256) hint = refl
    go (elliptic_curve _) hint = refl
    go (octet_key_pair ed25519) hint = refl
    go (octet_key_pair _) hint = refl
    go octet_key hint = refl
    go rsa none = refl
    go rsa (some hs256) = refl
    go rsa (some _) = refl

module _ (J : Jwt) where
  -- A key's algorithm is pinned by the key, and is not that of a shared secret.
  signing_key-asymmetric :
      (wrap : String → Error) (jwk : Jwk) (key : SigningKey)
      → signing_key_from_jwk J wrap jwk ≡ ok key
      → is_symmetric key.algorithm ≡ false
  unfolding signing_key_from_jwk
  signing_key-asymmetric wrap jwk key h =
      let (material, hm, h1) = >>=-eq-ok (ok_or (J.decoding_key jwk) (wrap "invalid JWK")) _ h in
      let (a, ha, h2) = >>=-eq-ok (ok_or (algorithm_from_jwk jwk) _) _ h1 in
      elim (Option-cases (algorithm_from_jwk jwk)) [
        | inl e ↦ let ha' = rw e at ha in cc
        | inr (b, e) ↦
            let ha' = ok-injective (rw e at ha) in
            subst (λ (k : SigningKey). is_symmetric k.algorithm ≡ false) (ok-injective h2)
              (subst (λ x. is_symmetric x ≡ false) ha' (rw e at (asymmetric jwk)))
      ]

module _ (J : Jwt) (D : Documents) where
  refreshed-found :
      (kid : Option String) (memo : Option CachedKeyset) (key : SigningKey)
      → refreshed_key J D kid memo ≡ ok key
      → (c : CachedKeyset) × (jwk : Jwk) × (memo ≡ some c)
        × (select_key c.keys kid ≡ some jwk)
        × (to_signing_key J D jwk ≡ ok key)
  unfolding refreshed_key
  refreshed-found kid none key h = cc
  refreshed-found kid (some c) key h = elim (Option-cases (select_key c.keys kid)) [
    | inl e ↦ let h' = rw (refreshed_key, e) at h in cc
    | inr (jwk, e) ↦ (c, jwk, refl, e, rw (refreshed_key, e) at h)
  ]

  cached-found :
      (now : SystemTime) (kid : Option String) (s : JwksSource) (jwk : Jwk)
      → cached_key J D now kid s ≡ some jwk
      → (c : CachedKeyset) × (s.memo ≡ some c) × (select_key c.keys kid ≡ some jwk)
  unfolding cached_key
  cached-found now kid s jwk h = elim (Option-cases s.memo) [
    | inl e ↦ let h' = rw (cached_key, e) at h in cc
    | inr (c, e) ↦ elim (Bool-cases (is_fresh now c)) [
      | inl f ↦ (c, e, rw (cached_key, e, f) at h)
      | inr f ↦ let h' = rw (cached_key, e, f) at h in cc
    ]
  ]

-- The key that a token means: the first that has the token's key id, or the only one there is.
pub data Means (jwk : Jwk) : List Jwk → Option String → Type 0 where
  named :
      {kid : String} {keys : List Jwk}
      → (before after : List Jwk) → keys ≡ before ++ jwk ∷ after
      → jwk.key_id ≡ some kid
      → All (λ (k : Jwk). k.key_id ≢ some kid) before
      → Means jwk keys (some kid)
  only : {keys : List Jwk} → keys ≡ jwk ∷ [] → Means jwk keys none

-- What a key that is resolved is.
pub record IsResolved (J : Jwt) (kid : Option String) (memo : Option CachedKeyset)
    (key : SigningKey) : Type 0 where
  pub cached : CachedKeyset
  pub jwk : Jwk
  pub held : memo ≡ some cached
  pub meant : Means jwk cached.keys kid
  pub material : J.decoding_key jwk ≡ some key.decoding_key
  pub pinned : algorithm_from_jwk jwk ≡ some key.algorithm
  pub asymmetric : is_symmetric key.algorithm ≡ false

some-injective : {a b : String} → some a ≡ some b → a ≡ b
some-injective e = cc

abbrev has_id : String → Jwk → Bool
has_id kid k = elim k.key_id [ none ↦ false | some id ↦ id == kid ]

find_head : (p : Jwk → Bool) (k : Jwk) (ks : List Jwk) → p k ≡ true → find p (k ∷ ks) ≡ some k
find_head p k ks e = rw e refl

first_named :
    (kid : String) (keys : List Jwk) (jwk : Jwk)
    → select_key keys (some kid) ≡ some jwk
    → (before : List Jwk) × (after : List Jwk) × (keys ≡ before ++ jwk ∷ after)
      × (jwk.key_id ≡ some kid)
      × All (λ (k : Jwk). k.key_id ≢ some kid) before
unfolding select_key
first_named kid [] jwk h = cc
first_named kid (k ∷ ks) jwk h = elim (Option-cases k.key_id) [
  | inl e ↦
      let (before, after, split, is, others) = first_named kid ks jwk (rw (select_key, e) at h) in
      (k ∷ before, after, ap (λ l. k ∷ l) split, is, (λ q. (let q' = rw e at q in cc), others))
  | inr (id, e) ↦ elim (Bool-cases (id == kid)) [
    | inl t ↦
        let same : some k ≡ some jwk = sym (find_head (has_id kid) k ks (rw (e, t) refl)) ∙ h in
        let found : k ≡ jwk = cc in
        (
          [],
          ks,
          ap (λ x. x ∷ ks) found,
          ap (λ (x : Jwk). x.key_id) (sym found) ∙ e ∙ ap some ((eq_iff id kid).0 t),
          tt,
        )
    | inr f ↦
        let (before, after, split, is, others) =
          first_named kid ks jwk (rw (select_key, e, f) at h) in
        (
          k ∷ before,
          after,
          ap (λ l. k ∷ l) split,
          is,
          (
            λ q.
                (let t = (eq_iff id kid).1 (some-injective (sym e ∙ q)) in
                  let wrong : true ≡ false = sym t ∙ f in cc),
            others,
          ),
        )
  ]
]

select_key-Means :
    (keys : List Jwk) (kid : Option String) (jwk : Jwk)
    → select_key keys kid ≡ some jwk
    → Means jwk keys kid
unfolding select_key
select_key-Means keys (some kid) jwk h =
    let (before, after, split, is, others) = first_named kid keys jwk h in
    named before after split is others
select_key-Means [] none jwk h = cc
select_key-Means (k ∷ []) none jwk h = only (let e : k ≡ jwk = cc in ap (λ x. x ∷ []) e)
select_key-Means (k ∷ k' ∷ ks) none jwk h = cc

given {ℓ} : {A : Type ℓ} (o : Option A) (e : Error) (a : A) → ok_or o e ≡ ok a → o ≡ some a
given none e a h = cc
given (some x) e a h = ap some (ok-injective h)

signing_key-parts :
    (J : Jwt) (wrap : String → Error) (jwk : Jwk) (key : SigningKey)
    → signing_key_from_jwk J wrap jwk ≡ ok key
    → (J.decoding_key jwk ≡ some key.decoding_key) × (algorithm_from_jwk jwk ≡ some key.algorithm)
unfolding signing_key_from_jwk
signing_key-parts J wrap jwk key h =
    let (material, hm, h1) = >>=-eq-ok (ok_or (J.decoding_key jwk) (wrap "invalid JWK")) _ h in
    let (a, ha, h2) = >>=-eq-ok (ok_or (algorithm_from_jwk jwk) _) _ h1 in
    (
      given _ _ material hm ∙ ap (λ (k : SigningKey). some k.decoding_key) (ok-injective h2),
      given _ _ a ha ∙ ap (λ (k : SigningKey). some k.algorithm) (ok-injective h2),
    )

chosen :
    (J : Jwt) (D : Documents) (kid : Option String) (memo : Option CachedKeyset) (c : CachedKeyset)
    (jwk : Jwk) (key : SigningKey)
    → memo ≡ some c
    → select_key c.keys kid ≡ some jwk
    → to_signing_key J D jwk ≡ ok key
    → IsResolved J kid memo key
unfolding to_signing_key
chosen J D kid memo c jwk key held selected signing =
    let (material, pinned) = signing_key-parts J unauthorized jwk key signing in
    record {
      cached = c;
      jwk = jwk;
      held = held;
      meant = select_key-Means c.keys kid jwk selected;
      material = material;
      pinned = pinned;
      asymmetric = signing_key-asymmetric J unauthorized jwk key signing;
    }

-- A key that is resolved is that of the first cached key with the token's key id, or of the only one
-- there is where the token names none; its algorithm is the one that the key itself pins, and is not
-- that of a shared secret.
pub resolve-IsResolved :
    (J : Jwt) (D : Documents) (now : SystemTime) (kid : Option String) (s : JwksSource)
    (key : SigningKey)
    → (resolve J D now kid s).0 ≡ ok key
    → IsResolved J kid (resolve J D now kid s).1.memo key
unfolding resolve
resolve-IsResolved J D now kid s key h = elim (Option-cases (cached_key J D now kid s)) [
  | inr (jwk, e) ↦
      let (c, held, selected) = cached-found J D now kid s jwk e in
      rw (resolve, e) (chosen J D kid s.memo c jwk key held selected (rw (resolve, e) at h))
  | inl e ↦
      let answer : Unit {0} → Action JwksSource SigningKey =
        λ u s'. (refreshed_key J D kid s'.memo, s') in
      let (u, done, e') = Action.>>=-eq-ok (refresh J D now) answer s (rw (resolve, e) at h) in
      let (c, jwk, held, selected, signing) =
        refreshed-found J D kid (refresh J D now s).1.memo key
          (sym (ap (λ o. o.0) e') ∙ (rw (resolve, e) at h)) in
      rw (resolve, e, e')
        (chosen J D kid (refresh J D now s).1.memo c jwk key held selected signing)
]

-- Some look-ups of keys, one after another, at instants
unfoldable pub resolves :
    Jwt → Documents → List (SystemTime × Option String) → JwksSource → JwksSource
resolves J D [] s = s
resolves J D (call ∷ calls) s = resolves J D calls (resolve J D call.0 call.1 s).1

quiet :
    (J : Jwt) (D : Documents) (now : SystemTime) (kid : Option String) (s : JwksSource)
    (c : CachedKeyset)
    → s.memo ≡ some c
    → now - c.fetched_at < s.min_refetch
    → (resolve J D now kid s).1 ≡ s
unfolding resolve refresh ◌>>=◌ Action.continue
quiet J D now kid s c e lt = elim (Option-cases (cached_key J D now kid s)) [
  | inr (jwk, k) ↦ rw (resolve, k) refl
  | inl k ↦
      let recent : is_recent J D now s ≡ true = rw e (ground arith) in
      rw (resolve, k, refresh, recent) refl
]

all_quiet :
    (J : Jwt) (D : Documents) (calls : List (SystemTime × Option String)) (s : JwksSource)
    (c : CachedKeyset)
    → s.memo ≡ some c
    → All (λ (call : SystemTime × Option String). call.0 - c.fetched_at < s.min_refetch) calls
    → resolves J D calls s ≡ s
unfolding resolves
all_quiet J D [] s c e h = refl
all_quiet J D (call ∷ calls) s c e (h, hs) =
    ap (resolves J D calls) (quiet J D call.0 call.1 s c e h) ∙ all_quiet J D calls s c e hs

-- A look-up that gives a key and changes the source leaves a set that it fetched then.
fetched_then :
    (J : Jwt) (D : Documents) (now : SystemTime) (kid : Option String) (s : JwksSource)
    (key : SigningKey)
    → (resolve J D now kid s).0 ≡ ok key
    → (resolve J D now kid s).1 ≢ s
    → (c : CachedKeyset) × ((resolve J D now kid s).1.memo ≡ some c) × (c.fetched_at ≡ now)
unfolding resolve refresh keep
fetched_then J D now kid s key h moved = elim (Option-cases (cached_key J D now kid s)) [
  | inr (jwk, e) ↦ absurd (moved (rw (resolve, e) refl))
  | inl e ↦
      let answer : Unit {0} → Action JwksSource SigningKey =
        λ u s'. (refreshed_key J D kid s'.memo, s') in
      let (u, done, e') = Action.>>=-eq-ok (refresh J D now) answer s (rw (resolve, e) at h) in
      elim (Bool-cases (is_recent J D now s)) [
        | inl t ↦ absurd (moved (rw (resolve, e, e', refresh, t) refl))
        | inr f ↦
            let (found, got, e2) =
              Action.>>=-eq-ok (fetch J D) (keep J D now) s (rw (refresh, f) at done) in
            (
              record { keys = found.0; fetched_at = now; ttl = found.1 },
              rw (resolve, e, e', refresh, f, e2) refl,
              refl,
            )
      ]
]

-- Every URL that was asked for, and the source's own, is https or that of a loopback host; and the
-- bound between refetches is a minute.
abbrev IsSecureUrl : String → Type 0
IsSecureUrl url = is_secure_url (chars url) ≡ true

abbrev IsSecureAt : JwksLocation → Type 0
IsSecureAt (direct url) = IsSecureUrl url
IsSecureAt (oidc url) = IsSecureUrl url

abbrev IsSecure : JwksLocation → JwksSource → Type 0
IsSecure l s = (s.location ≡ l) × All IsSecureUrl s.fetched × (s.min_refetch ≡ from_secs 60)

get-Keeps : (l : JwksLocation) (url : String) → IsSecureUrl url → Keeps (IsSecure l) (get url)
unfolding get
get-Keeps l url h = record {
  after = λ s p. (p.0, All-append IsSecureUrl s.fetched (url ∷ []) p.1 (h, tt), p.2);
}

module _ (J : Jwt) (D : Documents) where
  discover-Yields :
      (l : JwksLocation) (url : String)
      → IsSecureUrl url
      → Keeps (IsSecure l) (discover J D url)
        × ((s : JwksSource) → Yields (λ uri s'. IsSecureUrl uri) (discover J D url) s)
  unfolding discover
  discover-Yields l url h = (
    record {
      after = λ s p.
          (Keeps-bind _ _ (get-Keeps l url h) λ reply. Keeps-bind _ _ (Keeps-lift _) λ _.
              Keeps-bind _ _ (Keeps-lift _) λ bytes. Keeps-bind _ _ (Keeps-lift _) λ doc.
                Keeps-bind _ _ (Keeps-lift _)
                  λ _. Keeps-bind _ _ (Keeps-lift _) λ _. Keeps-pure _).after
            s p;
    },
    λ s. record {
      at = λ uri q.
          (Yields-bind {P = λ uri s'. IsSecureUrl uri} _ _ s λ reply _.
              Yields-lift-bind _ _ _ λ _ _. Yields-lift-bind _ _ _ λ bytes _.
                Yields-lift-bind _ _ _ λ doc _.
                  Yields-lift-bind _ _ _
                    λ _ _. Yields-lift-bind _ _ _ λ u g. Yields-pure _ _ (guard-eq-ok _ _ g)).at
            uri q;
    },
  )

  locate-Keeps :
      (l : JwksLocation)
      → IsSecureAt l
      → Keeps (IsSecure l) (locate J D l)
        × ((s : JwksSource) → Yields (λ uri s'. IsSecureUrl uri) (locate J D l) s)
  unfolding locate
  locate-Keeps (direct url) h = (Keeps-pure _, λ s. Yields-pure _ _ h)
  locate-Keeps (oidc url) h = discover-Yields (oidc url) url h

  fetch-Keeps : (l : JwksLocation) → IsSecureAt l → Keeps (IsSecure l) (fetch J D)
  unfolding fetch
  fetch-Keeps l h = record {
    after = λ s p.
        let (keeps, yields) = locate-Keeps s.location (subst IsSecureAt (sym p.0) h) in
        let left : IsSecure s.location (fetch J D s).1 =
          (Keeps-bind_given IsSecureUrl _ _ keeps yields λ url secure.
              Keeps-bind _ _ (get-Keeps s.location url secure) λ reply.
                Keeps-bind _ _ (Keeps-lift _) λ _.
                  Keeps-bind _ _ (Keeps-lift _)
                    λ bytes. Keeps-bind _ _ (Keeps-lift _) λ keys. Keeps-pure _).after
            s (refl, p.1, p.2) in
        (left.0 ∙ p.0, left.1, left.2);
  }

  refresh-Keeps :
      (l : JwksLocation) (now : SystemTime) → IsSecureAt l → Keeps (IsSecure l) (refresh J D now)
  unfolding refresh keep
  refresh-Keeps l now h = record {
    after = λ s p. elim (Bool-cases (is_recent J D now s)) [
      | inl e ↦ rw (refresh, e) p
      | inr e ↦
          rw (refresh, e)
            ((Keeps-bind (fetch J D) (keep J D now) (fetch-Keeps l h)
                λ found. record { after = λ s' q. q }).after
              s p)
    ];
  }

  resolve-Keeps :
      (l : JwksLocation) (now : SystemTime) (kid : Option String)
      → IsSecureAt l
      → Keeps (IsSecure l) (resolve J D now kid)
  unfolding resolve refresh keep
  resolve-Keeps l now kid h = record {
    after = λ s p. elim (Option-cases (cached_key J D now kid s)) [
      | inr (jwk, e) ↦ rw (resolve, e) p
      | inl e ↦
          let answer : Unit {0} → Action JwksSource SigningKey =
            λ u s'. (refreshed_key J D kid s'.memo, s') in
          rw (resolve, e)
            ((Keeps-bind (refresh J D now) answer (refresh-Keeps l now h)
                λ u. record { after = λ s' q. q }).after
              s p)
    ];
  }

  resolves-IsSecure :
      (l : JwksLocation) (calls : List (SystemTime × Option String)) (s : JwksSource)
      → IsSecureAt l
      → IsSecure l s
      → IsSecure l (resolves J D calls s)
  unfolding resolves
  resolves-IsSecure l [] s h p = p
  resolves-IsSecure l (call ∷ calls) s h p =
      resolves-IsSecure l calls _ h ((resolve-Keeps l call.0 call.1 h).after s p)

new_source-IsSecure :
    (issuer : String) (jwks : JwksConfig) (replies : List Exchange) (s : JwksSource)
    → new_source issuer jwks replies ≡ ok s
    → IsSecureAt s.location × IsSecure s.location s
unfolding new_source require_secure_url
new_source-IsSecure issuer jwks replies s h = elim (Option-cases jwks.jwks_url) [
  | inr (url, e) ↦ elim (Option-cases jwks.openid_configuration_url) [
    | inr (other, e') ↦ let h' = rw (new_source, e, e') at h in cc
    | inl e' ↦ elim (Bool-cases (is_secure_url (chars url))) [
      | inr f ↦ let h' = rw (new_source, require_secure_url, e, e', f) at h in cc
      | inl t ↦ at_location (direct url) t (rw (new_source, require_secure_url, e, e', t) at h)
    ]
  ]
  | inl e ↦ elim (Option-cases jwks.openid_configuration_url) [
    | inl e' ↦ let h' = rw (new_source, e, e') at h in cc
    | inr (url, e') ↦ elim (Bool-cases (is_secure_url (chars url))) [
      | inr f ↦ let h' = rw (new_source, require_secure_url, e, e', f) at h in cc
      | inl t ↦ at_location (oidc url) t (rw (new_source, require_secure_url, e, e', t) at h)
    ]
  ]
]
  where
    at_location :
        (l : JwksLocation)
        → IsSecureAt l
        → (Result.ok (source_at issuer l replies)) ≡ ok s
        → IsSecureAt s.location × IsSecure s.location s
    at_location l t q =
        subst (λ (x : JwksSource). IsSecureAt x.location × IsSecure x.location x) (ok-injective q)
          (t, (refl, tt, refl))

-- After a configured source has given a key for which it fetched its keys, whatever came before, it
-- stays as it is until a minute has passed: no look-up in that time fetches anything, however many
-- tokens name keys that are not there.
pub resolves_quiet :
    (J : Jwt) (D : Documents) (issuer : String) (jwks : JwksConfig) (replies : List Exchange)
    (start : JwksSource) (past later : List (SystemTime × Option String)) (now : SystemTime)
    (kid : Option String) (key : SigningKey)
    → new_source issuer jwks replies ≡ ok start
    → (resolve J D now kid (resolves J D past start)).0 ≡ ok key
    → (resolve J D now kid (resolves J D past start)).1 ≢ resolves J D past start
    → All (λ (call : SystemTime × Option String). call.0 - now < from_secs 60) later
    → resolves J D later (resolve J D now kid (resolves J D past start)).1
      ≡ (resolve J D now kid (resolves J D past start)).1
resolves_quiet J D issuer jwks replies start past later now kid key h given_key moved soon =
    let (secure, begun) = new_source-IsSecure issuer jwks replies start h in
    let before = resolves J D past start in
    let kept =
      (resolve-Keeps J D start.location now kid secure).after before
        (resolves-IsSecure J D start.location past start secure begun) in
    let (c, held, at_now) = fetched_then J D now kid before key given_key moved in
    all_quiet J D later _ c held (
      subst
        (λ (d : SystemTime).
          All (λ (call : SystemTime × Option String). call.0 - c.fetched_at < d) later)
        (sym kept.2)
        (subst
          (λ (t : SystemTime).
            All (λ (call : SystemTime × Option String). call.0 - t < from_secs 60) later)
          (sym at_now) soon))
