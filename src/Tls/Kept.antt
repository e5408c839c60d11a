-- ===== src/Tls/Kept.antt =====
-- ayane/src/tls.rs: how long the task that renews the server's certificate serves each one.
use ayane.San.{Bytes}
use ayane.Base.{
  ℕ, suc, ◌+◌, ◌*◌, ◌≡◌, ◌≤◌, refl, sym, ap, subst, ◌∙◌, ◌∷◌, Option, none, some, true, arith,
  Option-cases, inl, inr,
}
use ayane.Error.{Result, ok, err, Result-cases, Ensures, Ensures-bind, Ensures-ok}
use ayane.Time.{SystemTime, Duration, unix_epoch}
use ayane.X509.{Formats, PublicKey}
use ayane.Ca.{CertificateAuthority, Signer, IssuedCertificate}
use ayane.Ca.Marker.{IsCoherent}
use ayane.Ca.Issued.{IsCertified, issue-IsCertified}
use ayane.Tls.{renew_delay}
use ayane.Tls.Renewer.{
  Keys, SelfIssuer, CertifiedKey, ServingCert, Attempt, Renewer, Round, renewed, failed,
  retry_backoff, parse_chain, serving_window, serve, issue_serving, settle, iteration,
}

-- A wait that begins after the epoch ends at the due time at the latest, or at once.
renew_delay_due :
    (now not_after : SystemTime) (before jitter : Duration) (draw : ℕ) (slack : Duration)
    → unix_epoch ≤ now
    → now + before ≤ not_after + slack
    → now + renew_delay now not_after before jitter draw + before ≤ not_after + slack
unfolding renew_delay
renew_delay_due now not_after before jitter draw slack after due = ground arith

-- A round's overheads, all together, are at most that much.
pub record IsTimely (overhead : Duration) (r : Round) : Type 0 where
  pub within : r.late + r.took + r.paused ≤ overhead

module _ (F : Formats) (T : Keys) (ca : CertificateAuthority) (issuer : SelfIssuer) where
  -- What the resolver gives, up to an instant: a key, and a chain that begins with the PEM of a
  -- renewable certificate of the CA, which is for that key and ends at that instant.
  pub record IsServing (end : SystemTime) (current : CertifiedKey) : Type 0 where
    pub secret : Bytes
    pub public_key : PublicKey
    pub public : T.public_key_of secret ≡ ok public_key
    pub key_der : Bytes
    pub private : T.to_pkcs8_der secret ≡ ok key_der
    pub loaded : T.any_ecdsa_type key_der ≡ ok current.key
    pub signer : Signer
    pub start : SystemTime
    pub issued : IssuedCertificate
    pub certified : IsCertified F signer ca public_key true start end issued
    pub parsed : parse_chain T (issued.pem ∷ ca.chain_pem) ≡ ok current.cert

  -- The states that the task reaches by rounds of at most that overhead, with the number of failures
  -- since the last certificate.
  pub data Runs (overhead : Duration) (first : Renewer) : ℕ → Renewer → Type 0 where
    begun : Runs overhead first 0 first
    swapped :
        {n : ℕ} {st st' : Renewer} (r : Round)
        → Runs overhead first n st
        → IsTimely overhead r
        → iteration F T ca issuer r st ≡ renewed st'
        → Runs overhead first 0 st'
    kept :
        {n : ℕ} {st st' : Renewer} (r : Round)
        → Runs overhead first n st
        → IsTimely overhead r
        → iteration F T ca issuer r st ≡ failed st'
        → Runs overhead first (suc n) st'

renewed-injective : {s t : Renewer} → renewed s ≡ renewed t → s ≡ t
renewed-injective e = cc

failed-injective : {s t : Renewer} → failed s ≡ failed t → s ≡ t
failed-injective e = cc

serving_window-end :
    (now : SystemTime) (validity : Duration) (window : SystemTime × SystemTime)
    → serving_window now validity ≡ some window
    → window.1 ≡ now + validity
unfolding serving_window
serving_window-end now validity window e = ground arith

module _ (F : Formats) (T : Keys) (ca : CertificateAuthority) (issuer : SelfIssuer) where
  module _ (r : Round) (done : SystemTime) (st st' : Renewer) where
    settle-renewed :
        (o : Option (Result ServingCert))
        → settle F T ca issuer r done st o ≡ renewed st'
        → (serving : ServingCert) × (o ≡ some (ok serving))
          × (st'.now ≡ done)
          × (st'.current ≡ serving.certified_key)
          × (st'.not_after ≡ serving.not_after)
    unfolding settle
    settle-renewed none e = cc
    settle-renewed (some (err e')) e = cc
    settle-renewed (some (ok serving)) e =
        let q = sym (renewed-injective e) in
        (serving, refl, ap (λ s. s.now) q, ap (λ s. s.current) q, ap (λ s. s.not_after) q)

    settle-failed :
        (o : Option (Result ServingCert))
        → settle F T ca issuer r done st o ≡ failed st'
        → (st'.now ≡ done + retry_backoff issuer + r.paused)
          × (st'.current ≡ st.current)
          × (st'.not_after ≡ st.not_after)
    unfolding settle
    settle-failed none e = cc
    settle-failed (some (ok serving)) e = cc
    settle-failed (some (err e')) e =
        let q = sym (failed-injective e) in
        (ap (λ s. s.now) q, ap (λ s. s.current) q, ap (λ s. s.not_after) q)

  -- Of what is issued to be served, from a clock's time on: its end, and that it is served.
  record Minted (now : SystemTime) (serving : ServingCert) : Type 0 where
    end : serving.not_after ≡ now + issuer.validity
    served : IsServing F T ca issuer serving.not_after serving.certified_key

  module _ (coherent : IsCoherent F) where
    serve-Minted :
        (a : Attempt) (now : SystemTime) (public_key : PublicKey) (window : SystemTime × SystemTime)
        → T.public_key_of a.secret ≡ ok public_key
        → window.1 ≡ now + issuer.validity
        → Ensures (Minted now) (serve F T ca issuer a public_key window)
    unfolding serve
    serve-Minted a now public_key window public end = Ensures-bind _ _ λ issued made.
        Ensures-bind _ _ λ certs parsed. Ensures-bind _ _ λ der private.
          Ensures-bind _ _ λ key loaded. Ensures-ok _ (record {
            end = end;
            served = record {
              secret = a.secret;
              public_key = public_key;
              public = public;
              key_der = der;
              private = private;
              loaded = loaded;
              signer = a.signer;
              start = window.0;
              issued = issued;
              certified = issue-IsCertified F a.signer ca coherent a.serial _ issued made;
              parsed = parsed;
            };
          })

    issue_serving-Minted :
        (a : Attempt) (now : SystemTime) (serving : ServingCert)
        → issue_serving F T ca issuer a now ≡ some (ok serving)
        → Minted now serving
    unfolding issue_serving
    issue_serving-Minted a now serving e = elim (Result-cases (T.public_key_of a.secret)) [
      | inr (e', failing) ↦ let e2 = rw (issue_serving, failing) at e in cc
      | inl (public_key, found) ↦
          let e2 = rw (issue_serving, found) at e in
          elim (Option-cases (serving_window now issuer.validity)) [
            | inl none_of ↦ let e3 = rw none_of at e2 in cc
            | inr (window, w) ↦
                (serve-Minted a now public_key window found
                    (serving_window-end now issuer.validity window w)).at
                  serving (let e3 = rw w at e2 in cc)
          ]
    ]

    -- What a round that swaps the certificate leads to.
    iteration-swaps :
        (r : Round) (st st' : Renewer)
        → iteration F T ca issuer r st ≡ renewed st'
        → (woken : SystemTime) × (woken
            ≡ st.now
              + renew_delay st.now st.not_after issuer.renew_before issuer.renew_jitter r.draw
              + r.late)
          × (st'.now ≡ woken + r.took)
          × (st'.not_after ≡ woken + issuer.validity)
          × IsServing F T ca issuer st'.not_after st'.current
    unfolding iteration
    iteration-swaps r st st' e =
        let (serving, made, at, is, end) = settle-renewed r _ st st' _ e in
        let minted = issue_serving-Minted r.attempt _ serving made in
        (
          _,
          refl,
          at,
          end ∙ minted.end,
          subst (λ t. IsServing F T ca issuer t st'.current) (sym end)
              (subst (IsServing F T ca issuer serving.not_after) (sym is) minted.served),
        )

  -- What a round that fails leads to.
  iteration-keeps :
      (r : Round) (st st' : Renewer)
      → iteration F T ca issuer r st ≡ failed st'
      → (st'.now
          ≡ st.now
            + renew_delay st.now st.not_after issuer.renew_before issuer.renew_jitter r.draw
            + r.late
            + r.took
            + retry_backoff issuer
            + r.paused)
        × (st'.current ≡ st.current)
        × (st'.not_after ≡ st.not_after)
  unfolding iteration
  iteration-keeps r st st' e = settle-failed r _ st st' _ e

  module _ (coherent : IsCoherent F) where
    Runs-IsServing :
        {overhead : Duration} {first : Renewer} {n : ℕ} {st : Renewer}
        → IsServing F T ca issuer first.not_after first.current
        → Runs F T ca issuer overhead first n st
        → IsServing F T ca issuer st.not_after st.current
    Runs-IsServing serving begun = serving
    Runs-IsServing serving (swapped {n} {st} {st'} r runs timely e) =
        (iteration-swaps coherent r st st' e).4
    Runs-IsServing serving (kept {n} {st} {st'} r runs timely e) =
        let (_, same, end) = iteration-keeps r st st' e in
        subst (λ t. IsServing F T ca issuer t st'.current) (sym end)
          (subst (IsServing F T ca issuer st.not_after) (sym same) (Runs-IsServing serving runs))

    module _ (overhead : Duration) (first : Renewer)
        (long : overhead + issuer.renew_before ≤ issuer.validity) (after : unix_epoch ≤ first.now)
        (early : first.now + issuer.renew_before ≤ first.not_after) where
      -- When a round begins, the due time is past by no more than the failures have taken.
      Runs-due :
          {n : ℕ} {st : Renewer}
          → Runs F T ca issuer overhead first n st
          → (unix_epoch ≤ st.now)
            × (st.now + issuer.renew_before ≤ st.not_after + n * (overhead + retry_backoff issuer))
      Runs-due begun = (after, omega arith)
      Runs-due (swapped {n} {st} {st'} r runs timely e) =
          let (past, due) = Runs-due runs in
          let (woken, is, now', end, _) = iteration-swaps coherent r st st' e in
          let w = timely.within in (omega arith, omega arith)
      Runs-due (kept {n} {st} {st'} r runs timely e) =
          let (past, due) = Runs-due runs in
          let (now', _, end) = iteration-keeps r st st' e in
          let woken =
            renew_delay_due st.now st.not_after issuer.renew_before issuer.renew_jitter r.draw _
              past due in
          let w = timely.within in (omega arith, omega arith)

-- With codecs that tell the extensions' identifiers apart and that read back a false, and where the
-- first certificate was issued from the Unix epoch on, the task begins after it, and the
-- overheads of that issuance and of each round stay below a bound that, with the time that is to be
-- left of a certificate, fits into its validity: if that bound, and the same with the pause for each
-- failure since the last certificate, fit into the time to be left, a round that brings a certificate
-- brings it before the one that was served ends, with that time left. Both are, with their keys,
-- renewable certificates of the CA for those keys that end just at the instants the task goes by.
pub served_in_time :
    (F : Formats) (T : Keys) (ca : CertificateAuthority) (issuer : SelfIssuer)
    (coherent : IsCoherent F) (overhead : Duration) (a : Attempt) (issued_at begun_at : SystemTime)
    (serving : ServingCert) {n : ℕ} {st st' : Renewer}
    → overhead + issuer.renew_before ≤ issuer.validity
    → unix_epoch ≤ issued_at
    → issue_serving F T ca issuer a issued_at ≡ some (ok serving)
    → issued_at ≤ begun_at
    → begun_at ≤ issued_at + overhead
    → Runs F T ca issuer overhead
        (record { now = begun_at; current = serving.certified_key; not_after = serving.not_after })
        n
        st
    → (r : Round) → IsTimely overhead r
    → iteration F T ca issuer r st ≡ renewed st'
    → n * (overhead + retry_backoff issuer) + overhead ≤ issuer.renew_before
    → (st'.now ≤ st.not_after)
      × (st'.now + issuer.renew_before ≤ st'.not_after)
      × IsServing F T ca issuer st.not_after st.current
      × IsServing F T ca issuer st'.not_after st'.current
served_in_time F T ca issuer coherent overhead a issued_at begun_at serving {n} {st} {st'} long
      after made later near runs r timely e room =
    let minted = issue_serving-Minted F T ca issuer coherent a issued_at serving made in
    let end = minted.end in
    let (past, due) =
      Runs-due F T ca issuer coherent overhead _ long (omega arith) (omega arith) runs in
    let (woken, is, now', end', next) = iteration-swaps F T ca issuer coherent r st st' e in
    let at_most =
      renew_delay_due st.now st.not_after issuer.renew_before issuer.renew_jitter r.draw _ past
        due in
    let w = timely.within in
    (omega arith, omega arith, Runs-IsServing F T ca issuer coherent minted.served runs, next)
