-- ===== src/Service/Claims.antt =====
-- The service's claims, over any storage that keeps its contract.
use ayane.Base.{
  String, ◌+◌, ◌≡◌, ◌≢◌, ◌<◌, max, refl, ap, ◌∙◌, sym, subst, unwrap_or, List, [], ◌∷◌,
}
use ayane.Error.{
  Result, ok, err, config, bad_request, unauthorized, forbidden, not_found, conflict, internal,
}
use ayane.Action.{Keeps, Keeps-bind, Keeps-pure}
use ayane.Time.{SystemTime}
use ayane.Storage.{IsStorage, Fact, claimed, Outlives, secs}
use ayane.Hook.{OnceClaim}
use ayane.Service.{Service, on_conflict, claim_once, claim_once_scopes, scope_key, replay_leeway}

on_conflict-eq-ok :
    {S A : Type 0} (msg : String) (o : Result A × S) {a : A}
    → (on_conflict msg o).0 ≡ ok a
    → o.0 ≡ ok a
unfolding on_conflict
on_conflict-eq-ok msg (ok a, s) h = h
on_conflict-eq-ok msg (err (conflict d), s) h = cc
on_conflict-eq-ok msg (err (config d), s) h = cc
on_conflict-eq-ok msg (err (bad_request d), s) h = cc
on_conflict-eq-ok msg (err (unauthorized d), s) h = cc
on_conflict-eq-ok msg (err (forbidden d), s) h = cc
on_conflict-eq-ok msg (err (not_found d), s) h = cc
on_conflict-eq-ok msg (err (internal d), s) h = cc

on_conflict-state : {S A : Type 0} (msg : String) (o : Result A × S) → (on_conflict msg o).1 ≡ o.1
unfolding on_conflict
on_conflict-state msg (ok a, s) = refl
on_conflict-state msg (err (conflict d), s) = refl
on_conflict-state msg (err (config d), s) = refl
on_conflict-state msg (err (bad_request d), s) = refl
on_conflict-state msg (err (unauthorized d), s) = refl
on_conflict-state msg (err (forbidden d), s) = refl
on_conflict-state msg (err (not_found d), s) = refl
on_conflict-state msg (err (internal d), s) = refl

-- the second until which a claim is held at least
abbrev pub held_until : SystemTime → SystemTime → SystemTime
held_until now expires_at = max expires_at (now + replay_leeway)

module _ {S : Type 0} (self : Service S) (I : IsStorage self.storage) where
  pub claim_once-claimed :
      (now : SystemTime) (key : String) (t : SystemTime) (msg : String) (s : S)
      → (claim_once self now key t msg s).0 ≡ ok tt
      → I.Holds (claimed key (secs (held_until now t))) (claim_once self now key t msg s).1
  unfolding claim_once
  claim_once-claimed now key t msg s h =
      subst (I.Holds (claimed key (secs (held_until now t)))) (sym (on_conflict-state msg _))
        (I.claim-claimed now key (held_until now t) s (on_conflict-eq-ok msg _ h))

  pub claim_once-refused :
      (now : SystemTime) (key : String) (t : SystemTime) (msg : String) {e : ayane.Base.ℕ} (s : S)
      → I.Holds (claimed key e) s
      → secs now < e
      → (claim_once self now key t msg s).0 ≢ ok tt
  unfolding claim_once
  claim_once-refused now key t msg {e = e} s c lt h =
      I.claimed-claim now key e (held_until now t) s c lt (on_conflict-eq-ok msg _ h)

  module _ (f : Fact) (now : SystemTime) (lasts : Outlives f now) where
    pub claim_once-Keeps :
        (key : String) (t : SystemTime) (msg : String)
        → Keeps (I.Holds f) (claim_once self now key t msg)
    unfolding claim_once
    claim_once-Keeps key t msg = record {
      after = λ s h.
          subst (I.Holds f) (sym (on_conflict-state msg _))
            ((I.keeps_claim f now key (held_until now t) lasts).after s h);
    }

    pub claim_once_scopes-Keeps :
        (scopes : List OnceClaim) (t : SystemTime)
        → Keeps (I.Holds f) (claim_once_scopes self now scopes t)
    unfolding claim_once_scopes
    claim_once_scopes-Keeps [] t = Keeps-pure tt
    claim_once_scopes-Keeps (scope ∷ scopes) t =
        Keeps-bind _ _ (claim_once-Keeps (scope_key self scope) (unwrap_or scope.expires_at t) _)
          λ _. claim_once_scopes-Keeps scopes t
