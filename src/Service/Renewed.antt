-- ===== src/Service/Renewed.antt =====
-- When a certificate is renewed or rekeyed.
use ayane.Base.{
  String, ◌+◌, ◌-◌, ◌≡◌, ◌≢◌, ◌<◌, ◌≤◌, ◌∙◌, refl, ap, sym, subst, false, Option, none, some, List,
  All-of, arith, leb, Bool-cases, inl, inr, unwrap_or,
}
use ayane.Error.{Error, ok, ok_or, ok-injective, Ensures, Ensures-bind, Ensures-ok, Ensures-err}
use ayane.Action.{Yields, Yields-bind, Yields-lift-bind, Yields-pure}
use ayane.Time.{SystemTime, checked_add, duration_since}
use ayane.San.{Bytes, IpAddr}
use ayane.X509.{Certificate, Formats, validity, is_marked_non_renewable}
use ayane.Hook.{Context}
use ayane.Storage.{IsStorage, IsConsistent, RevocationRecord, revoked}
use ayane.Storage.Replay.{Call, steps, Within, steps-Holds, always}
use ayane.Ca.{IssuedCertificate, verify_issued}
use ayane.Ca.Issued.{reissue-window}
use ayane.Service.{Service, CertificateResponse, certificate_response}
use ayane.Service.Policy.{check_window-lt, clamp-le}
use ayane.Service.Reissue.{
  ReissuePlan, reissue_plan, refuse_marked, refuse_expired, cert_validity_window, customize_reissue,
}
use ayane.Service.Renew.{
  refuse_revoked, serial_of, commit_reissue, reissue_params, try_renew_or_rekey,
}
use ayane.Service.Sign.{AuditEvent}

refuse_marked-false :
    (F : Formats) (cert : Certificate)
    → Ensures (λ _. is_marked_non_renewable F cert ≡ false) (refuse_marked F cert)
unfolding refuse_marked
refuse_marked-false F cert = elim (Bool-cases (is_marked_non_renewable F cert)) [
  | inl e ↦ rw e (Ensures-err _)
  | inr e ↦ rw e (Ensures-ok tt refl)
]

refuse_expired-lt : (now na : SystemTime) → Ensures (λ _. now < na) (refuse_expired now na)
unfolding refuse_expired
refuse_expired-lt now na = elim (Bool-cases (leb na now)) [
  | inl e ↦ rw e (Ensures-err _)
  | inr e ↦ rw e (Ensures-ok tt (ground arith))
]

refuse_revoked-none : (o : Option RevocationRecord) → Ensures (λ _. o ≡ none) (refuse_revoked o)
unfolding refuse_revoked
refuse_revoked-none none = Ensures-ok tt refl
refuse_revoked-none (some r) = Ensures-err _

module _ {S : Type 0} (self : Service S) (now : SystemTime) where
  -- A certificate that may be renewed, and a window of its own length from now at most.
  pub record IsCurrent (cert : Certificate) (p : ReissuePlan) : Type 0 where
    pub unmarked : is_marked_non_renewable self.formats cert ≡ false
    pub unexpired : now < (cert_validity_window self.formats cert).1
    pub nonempty : p.custom.not_before < p.custom.not_after
    pub bounded :
        p.custom.not_after
        ≤ now
          + ((cert_validity_window self.formats cert).1
              - (cert_validity_window self.formats cert).0)

  customize_reissue-bounds :
      (not_after : SystemTime) (context : Context)
      → Ensures
          (λ c. (c.not_before < c.not_after) × (c.not_after ≤ not_after))
          (customize_reissue self now not_after context)
  unfolding customize_reissue
  customize_reissue-bounds not_after context = Ensures-bind _ _ λ asked _.
      Ensures-bind _ _ λ u h.
        Ensures-ok _ ((check_window-lt _ _).at u h, clamp-le _ asked.not_after not_after refl)

  end_of :
      (nb na not_after : SystemTime) (e : Error)
      → ok_or (checked_add now (unwrap_or (duration_since na nb) 0)) e ≡ ok not_after
      → not_after ≡ now + (na - nb)
  end_of nb na not_after e h = ground arith

  reissue_plan-IsCurrent :
      (cert : Certificate) (new_csr_pem : Option String) (dpop url : String)
      → Ensures (IsCurrent cert) (reissue_plan self now cert new_csr_pem dpop url)
  unfolding reissue_plan
  reissue_plan-IsCurrent cert new_csr_pem dpop url = Ensures-bind _ _ λ u1 h1.
      Ensures-bind _ _ λ u2 h2. Ensures-bind _ _ λ proof _. Ensures-bind _ _ λ key _.
        Ensures-bind _ _ λ sans _. Ensures-bind _ _ λ not_after hn. Ensures-bind _ _ λ previous _.
          Ensures-bind _ _ λ custom hc.
            let (nonempty, bounded) = (customize_reissue-bounds not_after _).at custom hc in
            Ensures-ok _ (record {
              unmarked = (refuse_marked-false self.formats cert).at u1 h1;
              unexpired = (refuse_expired-lt now _).at u2 h2;
              nonempty = nonempty;
              bounded = subst (λ t. custom.not_after ≤ t) (end_of _ _ not_after _ hn) bounded;
            })

  -- The certificate, the proof and the plan behind an answer, and what is answered: a certificate that
  -- has the plan's window.
  pub record IsRenewal (pem : String) (new_csr_pem dpop : Option String) (url : String) (s : S)
      (out : CertificateResponse) : Type 0 where
    pub cert : Certificate
    pub read : self.certificate_from_pem pem ≡ ok cert
    pub ours : verify_issued self.formats self.signer self.ca cert ≡ ok tt
    pub unrevoked : (self.storage.get_revocation (serial_of cert) s).0 ≡ ok none
    pub proof : String
    pub given : dpop ≡ some proof
    pub plan : ReissuePlan
    pub planned : reissue_plan self now cert new_csr_pem proof url ≡ ok plan
    pub current : IsCurrent cert plan
    pub issued : IssuedCertificate
    pub answered : certificate_response self issued ≡ out
    pub window :
        validity self.formats plan.custom.not_before plan.custom.not_after
        ≡ ok issued.certificate.tbs_certificate.validity
    pub encoded : self.signer.certificate_pem issued.certificate ≡ ok issued.pem
    pub ends : issued.not_after_rfc3339 ≡ self.signer.format_rfc3339 plan.custom.not_after

  given-some :
      (dpop : Option String) (e : Error) (proof : String)
      → ok_or dpop e ≡ ok proof
      → dpop ≡ some proof
  given-some none e proof h = cc
  given-some (some p) e proof h = ap some (ok-injective h)

  module _ (show_ip : IpAddr → String) (claimed_at : SystemTime) (random : Bytes) where
    Yields-IsRenewal :
        (pem : String) (new_csr_pem dpop : Option String) (url : String) (id : Option String)
        (s : S)
        → Yields
            (λ out s'. IsRenewal pem new_csr_pem dpop url s out.0)
            (try_renew_or_rekey self show_ip now claimed_at random pem new_csr_pem dpop url id)
            s
    unfolding try_renew_or_rekey commit_reissue reissue_params
    Yields-IsRenewal pem new_csr_pem dpop url id s = Yields-lift-bind _ _ _ λ proof hd.
        Yields-lift-bind _ _ _ λ cert read. Yields-lift-bind _ _ _ λ _ ours.
          Yields-bind _ _ _ λ o ho. Yields-lift-bind _ _ _ λ u hu. Yields-lift-bind _ _ _ λ p hp.
            Yields-bind _ _ _ λ _ _. Yields-bind _ _ _ λ _ _. Yields-lift-bind _ _ _ λ issued hi.
              Yields-bind _ _ _ λ _ _.
                let made =
                  (reissue-window self.formats self.signer self.ca random _).at issued hi in
                Yields-pure _ _ (record {
                  cert = cert;
                  read = read;
                  ours = ours;
                  unrevoked = ho ∙ ap ok ((refuse_revoked-none o).at u hu);
                  proof = proof;
                  given = given-some dpop _ proof hd;
                  plan = p;
                  planned = hp;
                  current = (reissue_plan-IsCurrent cert new_csr_pem proof url).at p hp;
                  issued = issued;
                  answered = refl;
                  window = made.0;
                  encoded = made.1;
                  ends = made.2;
                })

pub try_renew_or_rekey-IsRenewal :
    {S : Type 0} (self : Service S) (show_ip : IpAddr → String) (now claimed_at : SystemTime)
    (random : Bytes) (pem : String) (new_csr_pem dpop : Option String) (url : String)
    (id : Option String) (s : S) (out : CertificateResponse × AuditEvent)
    → (try_renew_or_rekey self show_ip now claimed_at random pem new_csr_pem dpop url id s).0
      ≡ ok out
    → IsRenewal self now pem new_csr_pem dpop url s out.0
try_renew_or_rekey-IsRenewal self show_ip now claimed_at random pem new_csr_pem dpop url id s out
      h =
    (Yields-IsRenewal self now show_ip claimed_at random pem new_csr_pem dpop url id s).at out h

-- Over any storage that keeps its contract and whose look-ups see what was written, after a revocation that succeeds, and any calls of the
-- storage, no renewal and no rekey of a certificate with the serial number succeeds.
pub revoked_never_renewed :
    {S : Type 0} (self : Service S) (I : IsStorage self.storage) (look : IsConsistent I)
    (show_ip : IpAddr → String) (now claimed_at : SystemTime) (random : Bytes) (pem : String)
    (new_csr_pem dpop : Option String) (url : String) (id : Option String) (cert : Certificate)
    (r : RevocationRecord) (s : S) (calls : List Call) (out : CertificateResponse × AuditEvent)
    → (self.storage.revoke r s).0 ≡ ok tt
    → self.certificate_from_pem pem ≡ ok cert
    → serial_of cert ≡ r.serial_number
    → (try_renew_or_rekey self show_ip now claimed_at random pem new_csr_pem dpop url id
        (steps self.storage calls (self.storage.revoke r s).1)).0
      ≢ ok out
revoked_never_renewed self I look show_ip now claimed_at random pem new_csr_pem dpop url id cert r s
      calls out done read same h =
    let left = steps self.storage calls (self.storage.revoke r s).1 in
    let a =
      try_renew_or_rekey-IsRenewal self show_ip now claimed_at random pem new_csr_pem dpop url id
        left out h in
    let kept =
      steps-Holds self.storage I (revoked r.serial_number) calls _
        (All-of (Within (revoked r.serial_number)) (always r.serial_number) calls)
        (I.revoke-revoked r s done) in
    look.revoked-get r.serial_number left kept (
      subst (λ n. (self.storage.get_revocation n left).0 ≡ ok none)
        (ap serial_of (ok-injective (sym a.read ∙ read)) ∙ same) a.unrevoked)
