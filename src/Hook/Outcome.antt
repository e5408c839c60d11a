-- ===== src/Hook/Outcome.antt =====
-- What the hooks' answers make of an issuance that they let through: whether it stays renewable, and
-- the one-time claims it makes.
use ayane.Base.{
  String, ◌≡◌, ◌≢◌, ◌↔◌, inl, inr, refl, subst, sym, ap, ◌∙◌, Bool, true, false, Option, some, List,
  [], ◌∷◌, ◌++◌, arith, All, Bool-cases, map, if◌then◌else◌,
}
use Prim.Native.String
use mathlib.Core.List.{append-nil, append_assoc}
use ayane.Error.{ok, err, Ensures, Ensures-bind, Ensures-ok, Ensures-err, >>=-eq-ok, ok-injective}
use ayane.Time.{SystemTime}
use ayane.Hook.{
  HookProvider, HookRequest, HookResponse, OnceScope, OnceClaim, Context, Customization, applies_to,
  is_false, apply_response, push_claims, consult_one, consult, run, baseline, request_of,
}

-- the claim that a scope becomes
abbrev pub claim_of : String → OnceScope → OnceClaim
claim_of name scope = record {
  namespace = String.◌++◌ "hook:" name;
  value = scope.scope;
  expires_at = scope.expires_at;
}

push_claims-map :
    (name : String) (claims : List OnceClaim) (scopes : List OnceScope)
    → push_claims name claims scopes ≡ claims ++ map (claim_of name) scopes
unfolding push_claims
push_claims-map name claims [] = sym (append-nil claims)
push_claims-map name claims (s ∷ scopes) =
    push_claims-map name (claims ++ claim_of name s ∷ []) scopes
    ∙ append_assoc claims (claim_of name s ∷ []) (map (claim_of name) scopes)

not_revoked_iff :
    (o : Option Bool) (b : Bool)
    → ((if is_false o then false else b) ≡ true) ↔ ((b ≡ true) × (o ≢ some false))
not_revoked_iff o b = ((λ h. ground arith), (λ h. ground arith))

module _ (parse_oid : String → Option String) where
  apply_response-renewable :
      (c c' : Customization) (r : HookResponse)
      → apply_response parse_oid c r ≡ ok c'
      → ((c'.renewable ≡ true) ↔ ((c.renewable ≡ true) × (r.renew ≢ some false)))
        × (c'.once_claims ≡ c.once_claims)
  unfolding apply_response
  apply_response-renewable c c' r h =
      let (out, e, k) = >>=-eq-ok _ _ h in
      (
        subst (λ x. (x.renewable ≡ true) ↔ ((c.renewable ≡ true) × (r.renew ≢ some false)))
            (ok-injective k) (not_revoked_iff r.renew c.renewable),
        sym (ap (λ x. x.once_claims) (ok-injective k)),
      )

  module _ (ctx : Context) (request : HookRequest) where
    -- the hook does not apply, or its answer does not say `renew: false`
    abbrev pub KeepsRenewable : HookProvider → Type 0
    KeepsRenewable hook =
        applies_to hook ctx.provisioner ≡ true
        → (r : HookResponse) → hook.call request ≡ ok r
        → r.renew ≢ some false

    -- the claims that a hook's answer asks for
    abbrev pub claims_of : HookProvider → List OnceClaim
    claims_of hook =
        if applies_to hook ctx.provisioner
        then elim (hook.call request) [ ok r ↦ map (claim_of hook.name) r.once | err e ↦ [] ]
        else []

    abbrev pub all_claims : List HookProvider → List OnceClaim
    all_claims [] = []
    all_claims (hook ∷ hooks) = claims_of hook ++ all_claims hooks

    -- What a hook leaves of an issuance so far.
    record IsStep (hook : HookProvider) (c : Customization) (c' : Customization) : Type 0 where
      renewable : (c'.renewable ≡ true) ↔ ((c.renewable ≡ true) × KeepsRenewable hook)
      once_claims : c'.once_claims ≡ c.once_claims ++ claims_of hook

    consult_one-IsStep :
        (hook : HookProvider) (c : Customization) (allowed : Bool)
        → Ensures (λ out. IsStep hook c out.0) (consult_one parse_oid ctx request hook c allowed)
    unfolding consult_one
    consult_one-IsStep hook c allowed = elim (Bool-cases (applies_to hook ctx.provisioner)) [
      | inr no' ↦ rw no' (Ensures-ok _ (skipped no'))
      | inl yes' ↦ rw yes' (
          Ensures-bind _ _ λ r hr. elim (Bool-cases (is_false r.allow)) [
            | inl deny ↦ rw deny (Ensures-err _)
            | inr fine ↦ rw fine (Ensures-bind _ _ λ c' hc. Ensures-ok _ (asked r c' yes' hr hc))
          ])
    ]
      where
        skipped : applies_to hook ctx.provisioner ≡ false → IsStep hook c c
        skipped no' = record {
          renewable = ((λ h. (h, λ a. absurd (ground arith))), (λ (h, _). h));
          once_claims = rw no' (sym (append-nil c.once_claims));
        }

        asked :
            (r : HookResponse) (c' : Customization)
            → applies_to hook ctx.provisioner ≡ true
            → hook.call request ≡ ok r
            → apply_response parse_oid
                (record c { once_claims = push_claims hook.name c.once_claims r.once })
                r
              ≡ ok c'
            → IsStep hook c c'
        asked r c' yes' hr hc =
            let ((to, back), claims) = apply_response-renewable _ c' r hc in
            record {
              renewable = (
                (λ h.
                    let (was, kept) = to h in
                    (
                      was,
                      λ _ r' hr' e. kept (ap (λ x. x.renew) (ok-injective (sym hr ∙ hr')) ∙ e),
                    )),
                (λ (was, keeps). back (was, keeps yes' r hr)),
              );
              once_claims =
                  claims ∙ push_claims-map hook.name c.once_claims r.once ∙ rw (yes', hr) refl;
            }

    record IsOutcome (hooks : List HookProvider) (c : Customization) (c' : Customization)
        : Type 0 where
      renewable : (c'.renewable ≡ true) ↔ ((c.renewable ≡ true) × All KeepsRenewable hooks)
      once_claims : c'.once_claims ≡ c.once_claims ++ all_claims hooks

    consult-IsOutcome :
        (hooks : List HookProvider) (acc : Customization × Bool)
        → Ensures (λ out. IsOutcome hooks acc.0 out.0) (consult parse_oid ctx request hooks acc)
    unfolding consult
    consult-IsOutcome [] acc = Ensures-ok acc (record {
      renewable = ((λ h. (h, tt)), (λ (h, _). h));
      once_claims = sym (append-nil acc.0.once_claims);
    })
    consult-IsOutcome (hook ∷ hooks) acc = Ensures-bind _ _ λ next hn.
        let s = (consult_one-IsStep hook acc.0 acc.1).at next hn in
        record {
          at = λ out ho.
              let t = (consult-IsOutcome hooks next).at out ho in
              record {
                renewable = (
                  (λ h.
                      let (n, rest) = t.renewable.0 h in
                      let (was, k) = s.renewable.0 n in (was, (k, rest))),
                  (λ (was, (k, rest)). t.renewable.1 (s.renewable.1 (was, k), rest)),
                );
                once_claims =
                    t.once_claims
                    ∙ ap (λ x. x ++ all_claims hooks) s.once_claims
                    ∙ append_assoc acc.0.once_claims (claims_of hook) (all_claims hooks);
              };
        }

  run-IsOutcome :
      (now : SystemTime) (hooks : List HookProvider) (ctx : Context)
      → Ensures
          (IsOutcome ctx (request_of now ctx) hooks (baseline ctx))
          (run parse_oid now hooks ctx)
  unfolding run baseline
  run-IsOutcome now [] ctx = Ensures-bind _ _ λ _ _.
      Ensures-ok (baseline ctx)
        (record { renewable = ((λ h. (h, tt)), (λ (h, _). h)); once_claims = refl })
  run-IsOutcome now (hook ∷ hooks) ctx = Ensures-bind _ _ λ out ho. Ensures-bind _ _ λ _ _.
      Ensures-ok out.0 (
        (consult-IsOutcome ctx (request_of now ctx) (hook ∷ hooks) (baseline ctx, false)).at out ho)

  -- What the hooks let through is renewable exactly when the context is and no hook that applies
  -- answers `renew: false`: a hook can take renewability away, and none can grant it.
  run-renewable :
      (now : SystemTime) (hooks : List HookProvider) (ctx : Context) (c : Customization)
      → run parse_oid now hooks ctx ≡ ok c
      → (c.renewable ≡ true)
        ↔ ((ctx.renewable ≡ true) × All (KeepsRenewable ctx (request_of now ctx)) hooks)
  unfolding baseline
  run-renewable now hooks ctx c h = ((run-IsOutcome now hooks ctx).at c h).renewable

  -- The one-time claims of what the hooks let through are the scopes of the hooks that apply, in the
  -- order of the hooks and of each answer, each in the name space of the hook that asked for it.
  run-once_claims :
      (now : SystemTime) (hooks : List HookProvider) (ctx : Context) (c : Customization)
      → run parse_oid now hooks ctx ≡ ok c
      → c.once_claims ≡ all_claims ctx (request_of now ctx) hooks
  unfolding baseline
  run-once_claims now hooks ctx c h = ((run-IsOutcome now hooks ctx).at c h).once_claims

  -- What the hooks let through is renewable exactly when the context is and no hook that applies
  -- answers `renew: false`; and its one-time claims are the scopes of the hooks that apply, in the
  -- order of the hooks and of each answer, each in the name space of the hook that asked for it.
  pub run_outcome :
      (now : SystemTime) (hooks : List HookProvider) (ctx : Context) (c : Customization)
      → run parse_oid now hooks ctx ≡ ok c
      → ((c.renewable ≡ true)
          ↔ ((ctx.renewable ≡ true) × All (KeepsRenewable ctx (request_of now ctx)) hooks))
        × (c.once_claims ≡ all_claims ctx (request_of now ctx) hooks)
  run_outcome now hooks ctx c h =
      (run-renewable now hooks ctx c h, run-once_claims now hooks ctx c h)
