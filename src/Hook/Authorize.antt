-- ===== src/Hook/Authorize.antt =====
-- When issuance is granted: default-deny without a token that authorizes, default-allow with one.
use ayane.Base.{
  String, ◌≡◌, ◌≢◌, ◌⊎◌, ◌↔◌, inl, inr, refl, ◌∙◌, Bool, true, false, Option, none, some, List, [],
  ◌∷◌, ◌++◌, arith, All, Any, Bool-cases, Option-cases, if◌then◌else◌,
}
use ayane.Error.{ok, Ensures, Ensures-bind, Ensures-ok, Ensures-err, >>=-eq-ok, ◌>>=◌, ◌>>◌, >>=-ok}
use ayane.Time.{SystemTime}
use ayane.X509.{Extension}
use ayane.Hook.{
  HookProvider, HookRequest, HookResponse, RawExtension, Context, Customization, applies_to,
  is_false, is_true, push_extensions, to_extension, apply_response, push_claims, consult_one,
  consult, run, baseline, request_of, unauthorized_guard,
}

not_denied : (o : Option Bool) → is_false o ≡ false → o ≢ some false
not_denied o h e = ground arith

granted_by :
    {P : Type 0} {allowed : Bool} (o : Option Bool)
    → (o ≡ some true → P)
    → (if is_true o then true else allowed) ≡ true
    → (allowed ≡ true) ⊎ P
granted_by none f h = inl h
granted_by (some true) f h = inr (f refl)
granted_by (some false) f h = inl h

module _ (parse_oid : String → Option String) where
  -- The hook's extensions have identifiers that parse.
  abbrev pub Parses : List RawExtension → Type 0
  Parses = All (λ raw. (id : String) × (parse_oid raw.oid ≡ some id))

  push_extensions-Parses :
      (exts out : List Extension) (raws : List RawExtension)
      → push_extensions parse_oid exts raws ≡ ok out
      → Parses raws
  unfolding push_extensions to_extension ◌>>=◌
  push_extensions-Parses exts out [] h = tt
  push_extensions-Parses exts out (raw ∷ raws) h = elim (Option-cases (parse_oid raw.oid)) [
    | inl e ↦ absurd (ground arith)
    | inr (id, e) ↦ (
      (id, e),
      push_extensions-Parses
          (exts ++ record { extn_id = id; critical = raw.critical; extn_value = raw.value } ∷ [])
          out raws (ground arith),
    )
  ]

  Parses-push_extensions :
      (exts : List Extension) (raws : List RawExtension)
      → Parses raws
      → (out : List Extension) × (push_extensions parse_oid exts raws ≡ ok out)
  unfolding push_extensions to_extension ◌>>=◌
  Parses-push_extensions exts [] p = (exts, refl)
  Parses-push_extensions exts (raw ∷ raws) ((id, e), p) =
      let (out, q) =
        Parses-push_extensions
          (exts ++ record { extn_id = id; critical = raw.critical; extn_value = raw.value } ∷ [])
          raws p in
      (out, ground (arith, q))

  apply_response-Parses :
      (c c' : Customization) (r : HookResponse)
      → apply_response parse_oid c r ≡ ok c'
      → Parses r.additional_extensions
  unfolding apply_response
  apply_response-Parses c c' r h =
      let (out, e, _) =
        >>=-eq-ok (push_extensions parse_oid c.additional_extensions r.additional_extensions) _ h in
      push_extensions-Parses c.additional_extensions out r.additional_extensions e

  module _ (ctx : Context) (request : HookRequest) where
    -- The hook answers, does not deny, and its answer can be applied.
    abbrev pub Permits : HookProvider → Type 0
    Permits hook =
        (applies_to hook ctx.provisioner ≡ false)
        ⊎ ((r : HookResponse) × (hook.call request ≡ ok r)
            × (r.allow ≢ some false)
            × Parses r.additional_extensions)

    -- The hook applies, and explicitly allows.
    abbrev pub Grants : HookProvider → Type 0
    Grants hook =
        (applies_to hook ctx.provisioner ≡ true)
        × ((r : HookResponse) × (hook.call request ≡ ok r) × (r.allow ≡ some true))

    -- A step succeeds for a hook that permits, and records a grant.
    record IsStep (hook : HookProvider) (allowed : Bool) (out : Customization × Bool) : Type 0 where
      permits : Permits hook
      granted : out.1 ≡ true → (allowed ≡ true) ⊎ Grants hook
      kept : allowed ≡ true → out.1 ≡ true
      grants : Grants hook → out.1 ≡ true

    consult_one-IsStep :
        (hook : HookProvider) (c : Customization) (allowed : Bool)
        → Ensures (IsStep hook allowed) (consult_one parse_oid ctx request hook c allowed)
    unfolding consult_one
    consult_one-IsStep hook c allowed = elim (Bool-cases (applies_to hook ctx.provisioner)) [
      | inr no' ↦ rw no' (Ensures-ok _ (skipped no'))
      | inl yes' ↦ rw yes' (
          Ensures-bind _ _ λ r hr. elim (Bool-cases (is_false r.allow)) [
            | inl deny ↦ rw deny (Ensures-err _)
            | inr fine ↦
                rw fine (Ensures-bind _ _ λ c' hc. Ensures-ok _ (asked r c' yes' hr fine hc))
          ])
    ]
      where
        skipped : applies_to hook ctx.provisioner ≡ false → IsStep hook allowed (c, allowed)
        skipped no' = record {
          permits = inl no';
          granted = λ h. inl h;
          kept = λ h. h;
          grants = λ g. cc;
        }

        asked :
            (r : HookResponse) (c' : Customization)
            → applies_to hook ctx.provisioner ≡ true
            → hook.call request ≡ ok r
            → is_false r.allow ≡ false
            → apply_response parse_oid
                (record c { once_claims = push_claims hook.name c.once_claims r.once })
                r
              ≡ ok c'
            → IsStep hook allowed (c', if is_true r.allow then true else allowed)
        asked r c' yes' hr fine hc = record {
          permits = inr (r, hr, not_denied r.allow fine, apply_response-Parses _ c' r hc);
          granted = granted_by r.allow (λ e. (yes', (r, hr, e)));
          kept = λ h. ground arith;
          grants = λ g. ground arith;
        }

    consult-All :
        (hooks : List HookProvider) (acc : Customization × Bool)
        → Ensures
            (λ out.
              All Permits hooks
              × (out.1 ≡ true → (acc.1 ≡ true) ⊎ Any Grants hooks)
              × (acc.1 ≡ true → out.1 ≡ true)
              × (Any Grants hooks → out.1 ≡ true))
            (consult parse_oid ctx request hooks acc)
    unfolding consult
    consult-All [] acc = Ensures-ok acc (tt, (λ h. inl h), (λ h. h), (λ h. absurd h))
    consult-All (hook ∷ hooks) acc = Ensures-bind _ _ λ next hn.
        let s = (consult_one-IsStep hook acc.0 acc.1).at next hn in
        record {
          at = λ out ho.
              let (all, granted, kept, grants) = (consult-All hooks next).at out ho in
              (
                (s.permits, all),
                (λ h. elim (granted h) [
                  | inl n ↦ elim (s.granted n) [ inl a ↦ inl a | inr g ↦ inr (inl g) ]
                  | inr g ↦ inr (inr g)
                ]),
                (λ h. kept (s.kept h)),
                (λ h. elim h [ inl g ↦ kept (s.grants g) | inr g ↦ grants g ]),
              );
        }

    apply_response_total :
        (c : Customization) (r : HookResponse)
        → Parses r.additional_extensions
        → (c' : Customization) × (apply_response parse_oid c r ≡ ok c')
    unfolding apply_response
    apply_response_total c r p =
        let (exts, e) = Parses-push_extensions c.additional_extensions r.additional_extensions p in
        (_, >>=-ok _ e)

    consult_one_total :
        (hook : HookProvider) (c : Customization) (allowed : Bool)
        → Permits hook
        → (out : Customization × Bool) × (consult_one parse_oid ctx request hook c allowed ≡ ok out)
    unfolding consult_one
    consult_one_total hook c allowed (inl no') = ((c, allowed), rw no' refl)
    consult_one_total hook c allowed (inr (r, hr, nd, p)) =
        elim (Bool-cases (applies_to hook ctx.provisioner)) [
          | inr no' ↦ ((c, allowed), rw no' refl)
          | inl yes' ↦
              let (c', hc) =
                apply_response_total
                  (record c { once_claims = push_claims hook.name c.once_claims r.once }) r p in
              ((c', if is_true r.allow then true else allowed), unfold ◌>>=◌ in ground (arith, hc))
        ]

    consult_total :
        (hooks : List HookProvider) (acc : Customization × Bool)
        → All Permits hooks
        → (out : Customization × Bool) × (consult parse_oid ctx request hooks acc ≡ ok out)
    unfolding consult
    consult_total [] acc a = (acc, refl)
    consult_total (hook ∷ hooks) acc (p, a) =
        let (next, hn) = consult_one_total hook acc.0 acc.1 p in
        let (out, ho) = consult_total hooks next a in (out, >>=-ok _ hn ∙ ho)

  guard_allows :
      (authorized allowed : Bool) {A : Type 0} (a : A) (b : A)
      → (unauthorized_guard authorized allowed >> ok a) ≡ ok b
      → (authorized ≡ true) ⊎ (allowed ≡ true)
  unfolding unauthorized_guard ◌>>=◌
  guard_allows true allowed a b h = inl refl
  guard_allows false true a b h = inr refl
  guard_allows false false a b h = cc

  guard_passes :
      (authorized allowed : Bool) {A : Type 0} (a : A)
      → (authorized ≡ true) ⊎ (allowed ≡ true)
      → (unauthorized_guard authorized allowed >> ok a) ≡ ok a
  unfolding unauthorized_guard ◌>>=◌
  guard_passes true allowed a h = refl
  guard_passes false true a h = refl
  guard_passes false false a h = ground arith

  -- The hooks let a request through exactly when every hook that applies answers, does not deny and
  -- names identifiers that parse, and either the credential authorizes by itself or a hook that
  -- applies explicitly allows.
  pub run_iff :
      (now : SystemTime) (hooks : List HookProvider) (ctx : Context)
      → ((c : Customization) × (run parse_oid now hooks ctx ≡ ok c)) ↔ (
          All (Permits ctx (request_of now ctx)) hooks
          × ((ctx.authorized ≡ true) ⊎ Any (Grants ctx (request_of now ctx)) hooks))
  unfolding run
  run_iff now [] ctx = (
    (λ (c, h). (
      tt,
      elim (guard_allows ctx.authorized false _ c h) [
        | inl a ↦ inl a
        | inr e ↦ absurd (ground arith)
      ],
    )),
    (λ (_, h). (
      baseline ctx,
      guard_passes ctx.authorized false (baseline ctx)
          (elim h [ inl a ↦ inl a | inr e ↦ absurd e ]),
    )),
  )
  run_iff now (hook ∷ hooks) ctx = (
    (λ (c, h).
        let (out, e, k) = >>=-eq-ok _ _ h in
        let (all, granted, _, _) =
          (consult-All ctx (request_of now ctx) (hook ∷ hooks) (baseline ctx, false)).at out e in
        (
          all,
          elim (guard_allows ctx.authorized out.1 out.0 c k) [
            | inl a ↦ inl a
            | inr b ↦ elim (granted b) [ inl f ↦ absurd (ground arith) | inr g ↦ inr g ]
          ],
        )),
    (λ (all, h).
        let (out, e) =
          consult_total ctx (request_of now ctx) (hook ∷ hooks) (baseline ctx, false) all in
        let (_, _, _, grants) =
          (consult-All ctx (request_of now ctx) (hook ∷ hooks) (baseline ctx, false)).at out e in
        (
          out.0,
          >>=-ok _ e
              ∙ guard_passes ctx.authorized out.1 out.0
                  (elim h [ inl a ↦ inl a | inr g ↦ inr (grants g) ]),
        )),
  )
