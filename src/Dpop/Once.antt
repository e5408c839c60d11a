-- ===== src/Dpop/Once.antt =====
-- A proof is good for one request: the service's claim of it is held for longer than the proof is
-- fresh.
use ayane.Base.{
  ℕ, ◌+◌, String, ◌≡◌, ◌≢◌, ◌<◌, ◌≤◌, ◌∙◌, ap, sym, subst, Option, some, List, [], ◌∷◌, All, arith,
}
use Prim.Native.String
use ayane.Error.{ok, ok-injective, Ensures, Ensures-bind, Ensures-ok}
use ayane.Action.{Yields, Yields-bind, Yields-lift-bind, Yields-pure}
use ayane.Time.{SystemTime, Duration, from_secs, unix_epoch}
use ayane.San.{Bytes, IpAddr}
use ayane.X509.{Certificate}
use ayane.Storage.{IsStorage, Fact, claimed, secs}
use ayane.Storage.Replay.{
  Call, steps, Within, steps-Holds, record_certificate, get_certificate, revoke, get_revocation,
  list_revocations, claim_token, get_cache, set_cache, reap_expired,
}
use ayane.Service.{Service, VerifiedProof, CertificateResponse, claim_jti, replay_leeway}
use ayane.Service.Reissue.{reissue_plan}
use ayane.Service.Renew.{serial_of, commit_reissue, try_renew_or_rekey}
use ayane.Service.Sign.{AuditEvent}
use ayane.Service.Claims.{
  held_until, claim_once-claimed, claim_once-refused, claim_once_scopes-Keeps,
}
use ayane.Service.Signed.{held_later}
use ayane.Dpop.{Proofs, DpopClaims, iat_secs, with_dpop}
use ayane.Dpop.Verified.{IsBound, verify-IsBound}

-- the key that a proof's id is claimed under
abbrev pub proof_key : String → String
proof_key jti = String.◌++◌ "dpop" (String.◌++◌ "#" jti)

-- The instants at which the calls read the clock are not after this one.
abbrev pub Earlier : SystemTime → Call → Type 0
Earlier later (claim_token now j t) = now ≤ later
Earlier later (reap_expired now) = now ≤ later
Earlier later _ = Unit

Earlier-Within :
    (j : String) (e : ℕ) (later : SystemTime) (c : Call)
    → secs later < e
    → Earlier later c
    → Within (claimed j e) c
Earlier-Within j e later (record_certificate r) lt h = tt
Earlier-Within j e later (get_certificate n) lt h = tt
Earlier-Within j e later (revoke r) lt h = tt
Earlier-Within j e later (get_revocation n) lt h = tt
Earlier-Within j e later list_revocations lt h = tt
Earlier-Within j e later (claim_token now k t) lt h = omega arith
Earlier-Within j e later (get_cache now key) lt h = tt
Earlier-Within j e later (set_cache key v t) lt h = tt
Earlier-Within j e later (reap_expired now) lt h = omega arith

All-Within :
    (j : String) (e : ℕ) (later : SystemTime) (cs : List Call)
    → secs later < e
    → All (Earlier later) cs
    → All (Within (claimed j e)) cs
All-Within j e later [] lt h = tt
All-Within j e later (c ∷ cs) lt (h, hs) =
    (Earlier-Within j e later c lt h, All-Within j e later cs lt hs)

module _ {S : Type 0} (self : Service S) where
  -- the instant until which a proof's claim is held at least
  abbrev pub proof_held : SystemTime → VerifiedProof → SystemTime
  proof_held now v = held_until now (v.issued_at + self.dpop_max_age + replay_leeway)

  abbrev pub proof_fact : SystemTime → VerifiedProof → Fact
  proof_fact now v = claimed (proof_key v.jti) (secs (proof_held now v))

  reissue_plan-proof :
      (now : SystemTime) (cert : Certificate) (new_csr_pem : Option String) (dpop url : String)
      → Ensures
          (λ p. self.verify_proof now dpop cert url self.dpop_max_age ≡ ok p.proof)
          (reissue_plan self now cert new_csr_pem dpop url)
  unfolding reissue_plan
  reissue_plan-proof now cert new_csr_pem dpop url = Ensures-bind _ _ λ _ _. Ensures-bind _ _ λ _ _.
      Ensures-bind _ _ λ proof h. Ensures-bind _ _ λ _ _. Ensures-bind _ _ λ _ _.
        Ensures-bind _ _ λ _ _. Ensures-bind _ _ λ _ _. Ensures-bind _ _ λ _ _. Ensures-ok _ h

  module _ (I : IsStorage self.storage) (show_ip : IpAddr → String) (random : Bytes) where
    -- The proof behind an answer, with the claim of it that the store holds in the end.
    pub record IsProven (now claimed_at : SystemTime) (dpop url : String) (s' : S) : Type 0 where
      pub cert : Certificate
      pub verified : VerifiedProof
      pub accepted : self.verify_proof now dpop cert url self.dpop_max_age ≡ ok verified
      pub held : I.Holds (proof_fact claimed_at verified) s'

    Yields-IsProven :
        (now claimed_at : SystemTime) (pem : String) (new_csr_pem : Option String)
        (dpop url : String) (id : Option String) (s : S)
        → unix_epoch ≤ claimed_at
        → Yields
            (λ out s'. IsProven now claimed_at dpop url s')
            (try_renew_or_rekey self show_ip now claimed_at random pem new_csr_pem
              (some dpop)
              url
              id)
            s
    unfolding try_renew_or_rekey commit_reissue claim_jti
    Yields-IsProven now claimed_at pem new_csr_pem dpop url id s after =
        Yields-lift-bind _ _ _ λ proof hq. Yields-lift-bind _ _ _ λ cert _.
          Yields-lift-bind _ _ _ λ _ _. Yields-bind _ _ _ λ _ _. Yields-lift-bind _ _ _ λ _ _.
            Yields-lift-bind _ _ _ λ p hp. Yields-bind _ _ _ λ _ h1. Yields-bind _ _ _ λ _ _.
              Yields-lift-bind _ _ _ λ issued _. Yields-bind _ _ _ λ _ _. Yields-pure _ _ (record {
                cert = cert;
                verified = p.proof;
                accepted =
                    subst (λ d. self.verify_proof now d cert url self.dpop_max_age ≡ ok p.proof)
                      (ok-injective (sym hq))
                      ((reissue_plan-proof now cert new_csr_pem proof url).at p hp);
                held = (I.keeps_record (proof_fact claimed_at p.proof) _).after _ (
                    (claim_once_scopes-Keeps self I (proof_fact claimed_at p.proof) claimed_at
                        (held_later claimed_at _ after) p.custom.once_claims
                        p.custom.not_after).after
                      _ (claim_once-claimed self I claimed_at _ _ _ _ h1));
              })

    -- A request fails where its proof's id is claimed for longer than the proof is accepted.
    proof_refused :
        (later claimed_at : SystemTime) (pem : String) (new_csr_pem : Option String)
        (dpop url : String) (id : Option String) (s : S) (j : String) (e : ℕ)
        → I.Holds (claimed (proof_key j) e) s
        → secs claimed_at < e
        → ((cert : Certificate) (v : VerifiedProof)
            → self.verify_proof later dpop cert url self.dpop_max_age ≡ ok v
            → v.jti ≡ j)
        → Yields
            (λ out s'. ⊥)
            (try_renew_or_rekey self show_ip later claimed_at random pem new_csr_pem
              (some dpop)
              url
              id)
            s
    unfolding try_renew_or_rekey commit_reissue claim_jti
    proof_refused later claimed_at pem new_csr_pem dpop url id s j e c lt same =
        Yields-lift-bind _ _ _ λ proof hq. Yields-lift-bind _ _ _ λ cert _.
          Yields-lift-bind _ _ _ λ _ _. Yields-bind _ _ _ λ _ _. Yields-lift-bind _ _ _ λ _ _.
            Yields-lift-bind _ _ _ λ p hp. Yields-bind _ _ _ λ _ h1. absurd (
              claim_once-refused self I claimed_at _ _ _ _
                (subst
                  (λ k.
                    I.Holds (claimed (proof_key k) e)
                      (self.storage.get_revocation (serial_of cert) s).1)
                  (sym (
                    same cert p.proof (
                      subst (λ d. self.verify_proof later d cert url self.dpop_max_age ≡ ok p.proof)
                        (ok-injective (sym hq))
                        ((reissue_plan-proof later cert new_csr_pem proof url).at p hp))))
                  ((I.keeps_get_revocation (claimed (proof_key j) e) (serial_of cert)).after s c))
                lt h1)

same_claims : (c c' : DpopClaims) → some c ≡ some c' → c ≡ c'
same_claims c c' h = cc

module _ (D : Proofs) where
  same_proof :
      (proof : String) (cert cert' : Certificate) (method method' uri uri' : String)
      (age age' : Duration) (now later : SystemTime) (v v' : VerifiedProof)
      → IsBound D proof cert method uri age now v
      → IsBound D proof cert' method' uri' age' later v'
      → (v'.jti ≡ v.jti) × (v'.issued_at ≡ v.issued_at)
  same_proof proof cert cert' method method' uri uri' age age' now later v v' a b =
      let same = same_claims _ _ (sym b.read ∙ a.read) in
      (
        b.id ∙ ap (λ c. c.jti) same ∙ sym a.id,
        b.issued ∙ ap (λ c. unix_epoch + from_secs (iat_secs c.iat)) same ∙ sym a.issued,
      )

-- A claim ends after the last instant at which the proof is accepted, by nearly the leeway.
outlasts :
    (claimed_at later claimed_later issued : SystemTime) (age : Duration)
    → later ≤ issued + age
    → claimed_later ≤ later + from_secs 59
    → unix_epoch ≤ claimed_later
    → secs claimed_later < secs (held_until claimed_at (issued + age + replay_leeway))
outlasts claimed_at later claimed_later issued age h near after = omega arith

-- Over any storage that keeps its contract, once a renewal or a rekey with a proof succeeds, whose
-- claim is made from the Unix epoch on, no renewal and no rekey with the same proof succeeds at
-- any other time, whatever its certificate and its URL are, if it makes its claim from the Unix epoch
-- on and at most 59 seconds after it read the clock to check the proof, and whatever calls of the
-- storage come in between and read the clock no later than that claim.
pub proof_once :
    (D : Proofs) {S : Type 0} (self : Service S) (I : IsStorage self.storage)
    (show_ip : IpAddr → String) (now claimed_at later claimed_later : SystemTime)
    (random random' : Bytes) (pem pem' : String) (new_csr_pem new_csr_pem' : Option String)
    (dpop url url' : String) (id id' : Option String) (s : S) (calls : List Call)
    (out out' : CertificateResponse × AuditEvent)
    → unix_epoch ≤ claimed_at
    → unix_epoch ≤ claimed_later
    → claimed_later ≤ later + from_secs 59
    → (try_renew_or_rekey
        (with_dpop D self)
        show_ip
        now
        claimed_at
        random
        pem
        new_csr_pem
        (some dpop)
        url
        id
        s).0
      ≡ ok out
    → All (Earlier claimed_later) calls
    → (try_renew_or_rekey
        (with_dpop D self)
        show_ip
        later
        claimed_later
        random'
        pem'
        new_csr_pem'
        (some dpop)
        url'
        id'
        (steps self.storage calls
          (try_renew_or_rekey
            (with_dpop D self)
            show_ip
            now
            claimed_at
            random
            pem
            new_csr_pem
            (some dpop)
            url
            id
            s).1)).0
      ≢ ok out'
proof_once D self I show_ip now claimed_at later claimed_later random random' pem pem' new_csr_pem
      new_csr_pem' dpop url url' id id' s calls out out' after after' near h within h' =
    let secured = with_dpop D self in
    let left =
      (try_renew_or_rekey secured show_ip now claimed_at random pem new_csr_pem (some dpop) url id
        s).1 in
    let a =
      (Yields-IsProven secured I show_ip random now claimed_at pem new_csr_pem dpop url id s
          after).at
        out h in
    let b =
      (Yields-IsProven secured I show_ip random' later claimed_later pem' new_csr_pem' dpop url' id'
          (steps self.storage calls left) after').at
        out' h' in
    let bound =
      verify-IsBound D dpop a.cert "POST" url self.dpop_max_age now a.verified a.accepted in
    let again =
      verify-IsBound D dpop b.cert "POST" url' self.dpop_max_age later b.verified b.accepted in
    let age = self.dpop_max_age in
    let lt =
      outlasts claimed_at later claimed_later a.verified.issued_at age
        (subst (λ t. later ≤ t + age) ((same_proof D dpop _ _ _ _ _ _ _ _ _ _ _ _ bound again).1)
          again.fresh)
        near after' in
    let kept =
      steps-Holds self.storage I (proof_fact secured claimed_at a.verified) calls left
        (All-Within (proof_key a.verified.jti) (secs (proof_held secured claimed_at a.verified))
          claimed_later calls lt within)
        a.held in
    (proof_refused secured I show_ip random' later claimed_later pem' new_csr_pem' dpop url' id'
        (steps self.storage calls left) a.verified.jti
        (secs (proof_held secured claimed_at a.verified)) kept lt
        λ cert v accepted.
          (same_proof D dpop _ _ _ _ _ _ _ _ _ _ _ _ bound
            (verify-IsBound D dpop cert "POST" url' age later v accepted)).0).at
      out' h'
