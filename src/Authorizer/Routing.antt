-- ===== src/Authorizer/Routing.antt =====
-- ayane/src/authorizer/mod.rs: which provisioner a token goes to, and what that gives it.
use ayane.Base.{
  String, ◌≡◌, inl, inr, refl, sym, ap, subst, ◌∙◌, true, false, not, List, [], ◌∷◌, ◌==◌, eq_iff,
  arith, any, Any, is_empty, Bool-cases, Option-cases,
}
use ayane.Error.{Result, ok, err, config, >>=-eq-ok, Result-cases, ok-injective, guard, guard-eq-ok}
use ayane.Time.{SystemTime}
use ayane.Service.{Validated, OttClaims}
use ayane.Authorizer.{Jwt, Jwk, signing_key_from_jwk, unverified_issuer, matches}
use ayane.Authorizer.Keyset.{JwksConfig, Documents, Exchange, new_source}
use ayane.Authorizer.Provisioners.{
  ProvisionerConfig, ProvisionerKind, jwk, jwks, effective_authorized, expected_issuer,
  resolved_issuer, TokenVerifier, static, remote, issuer_of, Provisioner, new_jwk_verifier,
  new_jwks_verifier, new_verifier, build, from_configs, verify_remote, verify, validated, validate,
  JwkVerifier, JwksVerifier,
}

-- The provisioner is the one of the configuration.
record IsOf (cfg : ProvisionerConfig) (p : Provisioner) : Type 0 where
  name : p.name ≡ cfg.name
  template : p.template ≡ cfg.template
  authorized : p.authorized ≡ effective_authorized cfg
  issuer : issuer_of p.verifier ≡ expected_issuer cfg

abbrev AreOf : List ProvisionerConfig → List Provisioner → Type 0
AreOf [] [] = Unit
AreOf (cfg ∷ cfgs) (p ∷ ps) = IsOf cfg p × AreOf cfgs ps
AreOf _ _ = ⊥

-- No issuer is twice among those seen and those of the configurations.
abbrev pub IsDistinct : List String → List ProvisionerConfig → Type 0
IsDistinct seen [] = Unit
IsDistinct seen (cfg ∷ cfgs) =
    (any (λ i. i == expected_issuer cfg) seen ≡ false)
    × IsDistinct (expected_issuer cfg ∷ seen) cfgs

module _ (J : Jwt) where
  jwk-issuer :
      (cfg : ProvisionerConfig) (key : Jwk) (w : JwkVerifier)
      → new_jwk_verifier J cfg key ≡ ok w
      → w.issuer ≡ cfg.name
  unfolding new_jwk_verifier
  jwk-issuer cfg key w h =
      let (k, hk, h') = >>=-eq-ok (signing_key_from_jwk J config key) _ h in
      sym (ap (λ (x : JwkVerifier). x.issuer) (ok-injective h'))

  jwks-issuer :
      (cfg : ProvisionerConfig) (endpoint : JwksConfig) (replies : List Exchange) (w : JwksVerifier)
      → new_jwks_verifier J cfg endpoint replies ≡ ok w
      → w.issuer ≡ resolved_issuer endpoint cfg.name
  unfolding new_jwks_verifier
  jwks-issuer cfg endpoint replies w h =
      let (u, hu, h1) = >>=-eq-ok (guard (not (is_empty cfg.audiences)) _) _ h in
      let (s, hs, h2) =
        >>=-eq-ok (new_source (resolved_issuer endpoint cfg.name) endpoint replies) _ h1 in
      sym (ap (λ (x : JwksVerifier). x.issuer) (ok-injective h2))

  new_verifier-issuer :
      (cfg : ProvisionerConfig) (replies : List Exchange) (v : TokenVerifier)
      → new_verifier J cfg replies ≡ ok v
      → issuer_of v ≡ expected_issuer cfg
  unfolding new_verifier expected_issuer
  new_verifier-issuer cfg replies v h = go cfg.kind refl
    where
      go : (k : ProvisionerKind) → cfg.kind ≡ k → issuer_of v ≡ expected_issuer cfg
      go (jwk key) e = elim (Result-cases (new_jwk_verifier J cfg key)) [
        | inr (x, q) ↦ let h' = rw (new_verifier, e, q) at h in cc
        | inl (w, q) ↦
            let h' = ok-injective (rw (new_verifier, e, q) at h) in
            rw (expected_issuer, e) (sym (ap issuer_of h') ∙ jwk-issuer cfg key w q)
      ]
      go (jwks source) e = elim (Result-cases (new_jwks_verifier J cfg source replies)) [
        | inr (x, q) ↦ let h' = rw (new_verifier, e, q) at h in cc
        | inl (w, q) ↦
            let h' = ok-injective (rw (new_verifier, e, q) at h) in
            rw (expected_issuer, e) (sym (ap issuer_of h') ∙ jwks-issuer cfg source replies w q)
      ]

  build-AreOf :
      (replies : String → List Exchange) (seen : List String) (cfgs : List ProvisionerConfig)
      (ps : List Provisioner)
      → build J replies seen cfgs ≡ ok ps
      → IsDistinct seen cfgs × AreOf cfgs ps
  unfolding build
  build-AreOf replies seen [] ps h = (tt, subst (AreOf []) (ok-injective h) tt)
  build-AreOf replies seen (cfg ∷ cfgs) ps h =
      let (u, hu, h1) = >>=-eq-ok (guard (not (any (λ i. i == expected_issuer cfg) seen)) _) _ h in
      let (v, hv, h2) = >>=-eq-ok (new_verifier J cfg (replies (expected_issuer cfg))) _ h1 in
      let (rest, hr, h3) = >>=-eq-ok (build J replies (expected_issuer cfg ∷ seen) cfgs) _ h2 in
      let (distinct, are) = build-AreOf replies (expected_issuer cfg ∷ seen) cfgs rest hr in
      let new = guard-eq-ok (not (any (λ i. i == expected_issuer cfg) seen)) _ hu in
      (
        (ground arith, distinct),
        subst (AreOf (cfg ∷ cfgs)) (ok-injective h3) (
          record {
            name = refl;
            template = refl;
            authorized = refl;
            issuer = new_verifier-issuer cfg _ v hv;
          },
          are,
        ),
      )

  module _ (D : Documents) where
    verify-issuer :
        (now : SystemTime) (token audience : String) (v : TokenVerifier)
        → issuer_of (verify J D now token audience v).1 ≡ issuer_of v
    unfolding verify verify_remote
    verify-issuer now token audience (static v) = refl
    verify-issuer now token audience (remote v) = elim (Option-cases (J.decode_header token)) [
      | inl e ↦ rw (verify, verify_remote, e) refl
      | inr (kid, e) ↦ rw (verify, verify_remote, e) refl
    ]

    validate-AreOf :
        (now : SystemTime) (token audience : String) (cfgs : List ProvisionerConfig)
        (ps : List Provisioner)
        → AreOf cfgs ps
        → AreOf cfgs (validate J D now token audience ps).1
    unfolding validate
    validate-AreOf now token audience [] [] h = tt
    validate-AreOf now token audience [] (p ∷ ps) h = absurd h
    validate-AreOf now token audience (cfg ∷ cfgs) [] h = absurd h
    validate-AreOf now token audience (cfg ∷ cfgs) (p ∷ ps) (h, hs) =
        elim (Bool-cases (matches J (issuer_of p.verifier) token)) [
          | inl e ↦ rw e (
            record {
              name = h.name;
              template = h.template;
              authorized = h.authorized;
              issuer = verify-issuer now token audience p.verifier ∙ h.issuer;
            },
            hs,
          )
          | inr e ↦ rw e (h, validate-AreOf now token audience cfgs ps hs)
        ]

    -- What the configuration gives to a token of its issuer.
    pub record IsRouted (token : String) (v : Validated) (cfg : ProvisionerConfig) : Type 0 where
      pub issuer : unverified_issuer J token ≡ ok (expected_issuer cfg)
      pub name : v.provisioner ≡ cfg.name
      pub template : v.template ≡ cfg.template
      pub authorized : v.authorized ≡ effective_authorized cfg

    validated-IsRouted :
        (token : String) (v : Validated) (cfg : ProvisionerConfig) (p : Provisioner)
        (r : Result (OttClaims × String))
        → IsOf cfg p
        → matches J (issuer_of p.verifier) token ≡ true
        → validated J D p r ≡ ok v
        → IsRouted token v cfg
    unfolding validated matches
    validated-IsRouted token v cfg p (err e) h m q = cc
    validated-IsRouted token v cfg p (ok (claims, replay_id)) h m q =
        elim (Result-cases (unverified_issuer J token)) [
          | inr (x, e) ↦ let m' = rw (matches, e) at m in cc
          | inl (iss, e) ↦
              let same = (eq_iff iss (issuer_of p.verifier)).0 (rw (matches, e) at m) in
              let eq = ok-injective q in
              record {
                issuer = e ∙ ap ok (same ∙ h.issuer);
                name = sym (ap (λ (x : Validated). x.provisioner) eq) ∙ h.name;
                template = sym (ap (λ (x : Validated). x.template) eq) ∙ h.template;
                authorized = sym (ap (λ (x : Validated). x.authorized) eq) ∙ h.authorized;
              }
        ]

    validate-IsRouted :
        (now : SystemTime) (token audience : String) (cfgs : List ProvisionerConfig)
        (ps : List Provisioner) (v : Validated)
        → AreOf cfgs ps
        → (validate J D now token audience ps).0 ≡ ok v
        → Any (IsRouted token v) cfgs
    unfolding validate
    validate-IsRouted now token audience [] [] v h q = absurd (ground arith)
    validate-IsRouted now token audience [] (p ∷ ps) v h q = absurd h
    validate-IsRouted now token audience (cfg ∷ cfgs) [] v h q = absurd h
    validate-IsRouted now token audience (cfg ∷ cfgs) (p ∷ ps) v (h, hs) q =
        elim (Bool-cases (matches J (issuer_of p.verifier) token)) [
          | inl e ↦ inl (validated-IsRouted token v cfg p _ h e (rw (validate, e) at q))
          | inr e ↦ inr (validate-IsRouted now token audience cfgs ps v hs (rw (validate, e) at q))
        ]

    unfoldable pub validates :
        List (SystemTime × String × String) → List Provisioner → List Provisioner
    validates [] ps = ps
    validates (call ∷ calls) ps = validates calls (validate J D call.0 call.1 call.2 ps).1

    validates-AreOf :
        (calls : List (SystemTime × String × String)) (cfgs : List ProvisionerConfig)
        (ps : List Provisioner)
        → AreOf cfgs ps
        → AreOf cfgs (validates calls ps)
    unfolding validates
    validates-AreOf [] cfgs ps h = h
    validates-AreOf (call ∷ calls) cfgs ps h =
        validates-AreOf calls cfgs _ (validate-AreOf call.0 call.1 call.2 cfgs ps h)

-- Whatever tokens were validated before, a token that is validated has the name, the template and the
-- authorization of a configured provisioner whose issuer it names; and no two provisioners have one
-- issuer, so that this is the only one.
pub validate_routes :
    (J : Jwt) (D : Documents) (replies : String → List Exchange) (cfgs : List ProvisionerConfig)
    (ps : List Provisioner) (calls : List (SystemTime × String × String)) (now : SystemTime)
    (token audience : String) (v : Validated)
    → from_configs J replies cfgs ≡ ok ps
    → (validate J D now token audience (validates J D calls ps)).0 ≡ ok v
    → Any (IsRouted J D token v) cfgs × IsDistinct [] cfgs
unfolding from_configs
validate_routes J D replies cfgs ps calls now token audience v h q =
    let (distinct, are) = build-AreOf J replies [] cfgs ps h in
    (
      validate-IsRouted J D now token audience cfgs _ v (validates-AreOf J D calls cfgs ps are) q,
      distinct,
    )
