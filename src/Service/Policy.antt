-- ===== src/Service/Policy.antt =====
-- What an issuance is allowed, before anything is claimed.
use ayane.Base.{
  String, ◌≡◌, ◌<◌, ◌≤◌, refl, subst, true, Option, none, some, List, [], ◌∷◌, All, arith, is_empty,
  leb, Bool-cases, inl, inr, if◌then◌else◌,
}
use ayane.Error.{ok, Ensures, Ensures-bind, Ensures-ok, Ensures-err}
use ayane.Time.{SystemTime}
use ayane.San.{San, contains}
use ayane.Template.{CertificateTemplate, max_not_after}
use ayane.Hook.{Context, Customization}
use ayane.Service.{
  Service, SignRequest, Validated, allowed_sans, authorized_sans, check_sans, clamp_not_after,
  check_window,
}
use ayane.Service.Plan.{SignPlan, sign_plan, sign_context, customize}

check_sans-All :
    (allowed sans : List San)
    → Ensures (λ _. All (λ san. contains allowed san ≡ true) sans) (check_sans allowed sans)
unfolding check_sans
check_sans-All allowed [] = Ensures-ok tt tt
check_sans-All allowed (san ∷ sans) = elim (Bool-cases (contains allowed san)) [
  | inl e ↦ rw e (record { at = λ u h. (refl, (check_sans-All allowed sans).at u h) })
  | inr e ↦ rw e (Ensures-err _)
]

authorized_sans-All :
    (allowed requested : List San)
    → Ensures
        (λ sans. All (λ san. contains allowed san ≡ true) sans)
        (authorized_sans true allowed requested)
unfolding authorized_sans
authorized_sans-All allowed requested =
    let effective = if is_empty requested then allowed else requested in
    Ensures-bind _ _ λ u h. Ensures-ok effective ((check_sans-All allowed effective).at u h)

pub check_window-lt : (nb na : SystemTime) → Ensures (λ _. nb < na) (check_window nb na)
unfolding check_window
check_window-lt nb na = elim (Bool-cases (leb na nb)) [
  | inl e ↦ rw e (Ensures-err _)
  | inr e ↦ rw e (Ensures-ok tt (ground arith))
]

pub clamp-le :
    (o : Option SystemTime) (t ceiling : SystemTime)
    → o ≡ some ceiling
    → clamp_not_after o t ≤ ceiling
unfolding clamp_not_after
clamp-le none t ceiling e = cc
clamp-le (some c) t ceiling e = ground arith

module _ {S : Type 0} (self : Service S) (now : SystemTime) where
  -- A window that is not empty and ends no later than the template allows from its start.
  record InWindow (template : CertificateTemplate) (custom : Customization) : Type 0 where
    nonempty : custom.not_before < custom.not_after
    bounded :
        (ceiling : SystemTime)
        → max_not_after template custom.not_before ≡ some ceiling
        → custom.not_after ≤ ceiling

  customize-InWindow :
      (template : CertificateTemplate) (context : Context)
      → Ensures (InWindow template) (customize self now template context)
  unfolding customize
  customize-InWindow template context = Ensures-bind _ _ λ asked _. Ensures-bind _ _ λ u h.
      Ensures-ok _ (record {
        nonempty = (check_window-lt _ _).at u h;
        bounded = λ ceiling e. clamp-le _ _ ceiling e;
      })

  record IsPermitted (p : SignPlan) : Type 0 where
    sans :
        p.validated.authorized ≡ true
        → All
            (λ san. contains (allowed_sans self.parse_ip p.validated.claims) san ≡ true)
            p.context.sans
    renew : p.context.renewable ≡ p.validated.claims.renew
    window : InWindow p.template p.custom

  sign_plan-IsPermitted :
      (req : SignRequest) (url : String) → Ensures IsPermitted (sign_plan self now req url)
  unfolding sign_plan sign_context
  sign_plan-IsPermitted req url = Ensures-bind _ _ λ csr _. Ensures-bind _ _ λ _ _.
      Ensures-bind _ _ λ validated _. Ensures-bind _ _ λ _ _. Ensures-bind _ _ λ requested _.
        Ensures-bind _ _ λ sans hs. Ensures-bind _ _ λ template _. Ensures-bind _ _ λ from _.
          Ensures-bind _ _ λ to _. Ensures-bind _ _ λ window _. Ensures-bind _ _ λ custom hc.
            Ensures-ok _ (record {
              sans = λ a. permitted validated requested sans a hs;
              renew = refl;
              window = (customize-InWindow template _).at custom hc;
            })
    where
      permitted :
          (v : Validated) (requested sans : List San)
          → v.authorized ≡ true
          → authorized_sans v.authorized (allowed_sans self.parse_ip v.claims) requested ≡ ok sans
          → All (λ san. contains (allowed_sans self.parse_ip v.claims) san ≡ true) sans
      permitted v requested sans a h =
          (authorized_sans-All (allowed_sans self.parse_ip v.claims) requested).at sans (
            subst (λ b. authorized_sans b (allowed_sans self.parse_ip v.claims) requested ≡ ok sans)
              a h)

-- An issuance that is planned asks the hooks for names that the token permits, if its provisioner
-- authorizes; and whatever the hooks answer, its window is not empty and ends no later than the
-- template allows from its start.
pub sign_plan-permits :
    {S : Type 0} (self : Service S) (now : SystemTime) (req : SignRequest) (url : String)
    (p : SignPlan)
    → sign_plan self now req url ≡ ok p
    → (p.validated.authorized ≡ true
        → All
            (λ san. contains (allowed_sans self.parse_ip p.validated.claims) san ≡ true)
            p.context.sans)
      × (p.custom.not_before < p.custom.not_after)
      × ((ceiling : SystemTime)
          → max_not_after p.template p.custom.not_before ≡ some ceiling
          → p.custom.not_after ≤ ceiling)
sign_plan-permits self now req url p h =
    let a = (sign_plan-IsPermitted self now req url).at p h in
    (a.sans, a.window.nonempty, a.window.bounded)
