-- ===== src/Service/Scopes.antt =====
-- A scope is issued for once.
use ayane.Base.{
  String, ℕ, ◌≡◌, ◌≢◌, ◌<◌, ◌≤◌, ◌∙◌, inl, inr, sym, subst, Option, List, [], ◌∷◌, All, Any,
  unwrap_or,
}
use ayane.Error.{ok, ok-injective}
use ayane.Action.{Yields, Yields-bind, Yields-lift-bind, Yields-pure}
use ayane.Time.{SystemTime, unix_epoch}
use ayane.San.{Bytes, IpAddr}
use ayane.Hook.{OnceClaim}
use ayane.Storage.{IsStorage, Fact, claimed, secs}
use ayane.Storage.Replay.{Call, steps, Within, steps-Holds}
use ayane.Service.{
  Service, SignRequest, CertificateResponse, scope_key, claim_once_scopes, claim_jti,
}
use ayane.Service.Plan.{SignPlan, sign_plan}
use ayane.Service.Sign.{AuditEvent, try_sign, commit_sign}
use ayane.Service.Claims.{
  held_until, claim_once-claimed, claim_once-refused, claim_once-Keeps, claim_once_scopes-Keeps,
}
use ayane.Service.Signed.{held_later}

-- the instant until which a scope's claim is held at least
abbrev pub scope_held : SystemTime → SystemTime → OnceClaim → SystemTime
scope_held now default_expiry scope = held_until now (unwrap_or scope.expires_at default_expiry)

member : {A : Type 0} (P : A → Type 0) (x : A) (xs : List A) → All P xs → Any (λ y. y ≡ x) xs → P x
member P x [] a h = absurd h
member P x (y ∷ xs) (p, a) (inl e) = subst P e p
member P x (y ∷ xs) (p, a) (inr h) = member P x xs a h

module _ {S : Type 0} (self : Service S) (I : IsStorage self.storage) (now : SystemTime) where
  abbrev scope_fact : SystemTime → OnceClaim → Fact
  scope_fact t scope = claimed (scope_key self scope) (secs (scope_held now t scope))

  -- Scopes that are claimed stay claimed together.
  claim_once_scopes-All :
      (scopes : List OnceClaim) (t : SystemTime) (s : S)
      → unix_epoch ≤ now
      → Yields
          (λ _ s'. All (λ scope. I.Holds (scope_fact t scope) s') scopes)
          (claim_once_scopes self now scopes t)
          s
  unfolding claim_once_scopes
  claim_once_scopes-All [] t s after = Yields-pure tt s tt
  claim_once_scopes-All (scope ∷ scopes) t s after = Yields-bind _ _ _ λ _ h1. record {
    at = λ u h. (
      (claim_once_scopes-Keeps self I (scope_fact t scope) now (held_later now _ after) scopes
            t).after
          _ (claim_once-claimed self I now _ _ _ s h1),
      (claim_once_scopes-All scopes t _ after).at u h,
    );
  }

  -- A list with a key that is claimed is refused.
  claim_once_scopes-refused :
      (scopes : List OnceClaim) (t : SystemTime) (key : String) (e : ℕ) (s : S)
      → Any (λ scope. scope_key self scope ≡ key) scopes
      → I.Holds (claimed key e) s
      → secs now < e
      → Yields (λ _ _. ⊥) (claim_once_scopes self now scopes t) s
  unfolding claim_once_scopes
  claim_once_scopes-refused [] t key e s m c lt = absurd m
  claim_once_scopes-refused (scope ∷ scopes) t key e s (inl q) c lt = Yields-bind _ _ _ λ _ h1.
      absurd (
        claim_once-refused self I now _ _ _ s (subst (λ k. I.Holds (claimed k e) s) (sym q) c) lt
          h1)
  claim_once_scopes-refused (scope ∷ scopes) t key e s (inr m) c lt = Yields-bind _ _ _ λ _ _.
      claim_once_scopes-refused scopes t key e _ m
        ((claim_once-Keeps self I (claimed key e) now lt (scope_key self scope)
            (unwrap_or scope.expires_at t) _).after
          s c)
        lt

  moved :
      (q p : SignPlan) (scope : OnceClaim) {s : S}
      → q ≡ p
      → I.Holds (scope_fact q.custom.not_after scope) s
      → I.Holds (scope_fact p.custom.not_after scope) s
  moved q p scope {s = s} e h = subst (λ x. I.Holds (scope_fact x.custom.not_after scope) s) e h

  module _ (show_ip : IpAddr → String) (random : Bytes) (req : SignRequest) (url : String)
      (id : Option String) where
    sign-claimed :
        (s : S) (p : SignPlan) (scope : OnceClaim)
        → unix_epoch ≤ now
        → sign_plan self now req url ≡ ok p
        → Any (λ y. y ≡ scope) p.once_scopes
        → Yields
            (λ _ s'. I.Holds (scope_fact p.custom.not_after scope) s')
            (try_sign self show_ip now random req url id)
            s
    unfolding try_sign commit_sign
    sign-claimed s p scope after hp m = Yields-lift-bind _ _ _ λ q hq. Yields-bind _ _ _ λ _ _.
        Yields-bind _ _ _ λ u h2. Yields-lift-bind _ _ _ λ issued _. Yields-bind _ _ _ λ _ _.
          Yields-pure _ _ (
            (I.keeps_record (scope_fact p.custom.not_after scope) _).after _ (
              moved q p scope (ok-injective (sym hq ∙ hp)) (
                member _ scope q.once_scopes
                  ((claim_once_scopes-All q.once_scopes q.custom.not_after _ after).at u h2)
                  (subst (λ x. Any (λ y. y ≡ scope) x.once_scopes) (ok-injective (sym hp ∙ hq))
                    m))))

    sign-refused :
        (s : S) (p : SignPlan) (key : String) (e : ℕ)
        → sign_plan self now req url ≡ ok p
        → Any (λ scope. scope_key self scope ≡ key) p.once_scopes
        → I.Holds (claimed key e) s
        → secs now < e
        → Yields (λ _ _. ⊥) (try_sign self show_ip now random req url id) s
    unfolding try_sign commit_sign claim_jti
    sign-refused s p key e hp m c lt = Yields-lift-bind _ _ _ λ q hq. Yields-bind _ _ _ λ _ _.
        Yields-bind _ _ _ λ u h2. absurd (
          (claim_once_scopes-refused q.once_scopes q.custom.not_after key e _
              (subst (λ x. Any (λ scope. scope_key self scope ≡ key) x.once_scopes)
                (ok-injective (sym hp ∙ hq)) m)
              ((claim_once-Keeps self I (claimed key e) now lt _ _ _).after s c) lt).at
            u h2)

-- Over any storage that keeps its contract, once a request is signed with a one-time scope, from the
-- Unix epoch on, a request that asks for a scope of the same key fails until the scope's expiry, or the
-- certificate's where it has none, whatever its token is and whatever calls of the storage come in
-- between and read the clock before then.
pub scope_once :
    {S : Type 0} (self : Service S) (I : IsStorage self.storage) (show_ip : IpAddr → String)
    (now later : SystemTime) (random random' : Bytes) (req req' : SignRequest) (url url' : String)
    (id id' : Option String) (s : S) (calls : List Call) (p p' : SignPlan) (scope : OnceClaim)
    (out out' : CertificateResponse × AuditEvent)
    → unix_epoch ≤ now
    → (try_sign self show_ip now random req url id s).0 ≡ ok out
    → sign_plan self now req url ≡ ok p
    → sign_plan self later req' url' ≡ ok p'
    → Any (λ y. y ≡ scope) p.once_scopes
    → Any (λ y. scope_key self y ≡ scope_key self scope) p'.once_scopes
    → All
        (Within (claimed (scope_key self scope) (secs (scope_held now p.custom.not_after scope))))
        calls
    → secs later < secs (scope_held now p.custom.not_after scope)
    → (try_sign self show_ip later random' req' url' id'
        (steps self.storage calls (try_sign self show_ip now random req url id s).1)).0
      ≢ ok out'
scope_once self I show_ip now later random random' req req' url url' id id' s calls p p' scope out
      out' after h hp hp' m m' within lt h' =
    let left = (try_sign self show_ip now random req url id s).1 in
    let held = (sign-claimed self I now show_ip random req url id s p scope after hp m).at out h in
    (sign-refused self I later show_ip random' req' url' id' (steps self.storage calls left) p'
        (scope_key self scope) (secs (scope_held now p.custom.not_after scope)) hp' m'
        (steps-Holds self.storage I _ calls left within held) lt).at
      out' h'
