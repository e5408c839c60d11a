-- ===== src/Ca/Issued.antt =====
-- What an issued certificate is, whatever a template, a hook or the previous certificate says.
use ayane.Base.{String, ◌≡◌, refl, ◌∙◌, Bool, not, Option, none, some, List}
use ayane.Error.{Result, ok, Ensures, Ensures-bind, Ensures-ok}
use ayane.Time.{SystemTime}
use ayane.San.{Bytes}
use ayane.X509.{
  Extension, Formats, PublicKey, Name, is_marked_non_renewable, key_identifier, validity,
  subject_key_identifier, authority_key_identifier, non_renewable_oid,
}
use ayane.Crypto.{algorithm_identifier}
use ayane.Template.{upsert_all}
use ayane.Template.Extensions.{
  Unique, Holds, get, build_ok, finalize-Unique, finalize-Holds, get-finalize, upsert_some-Unique,
  upsert_all-Unique, Unique-retain,
}
use ayane.Ca.{
  CertificateAuthority, Signer, IssueParams, ReissueParams, IssuedCertificate, seal, issue, reissue,
  set_non_renewable_marker, kept_extensions, override_usage, replace_usage,
}
use ayane.Ca.Serial.{serial_to_decimal}
use ayane.Ca.Marker.{
  IsCoherent, marker_of, get-set_marker, get-set_marker_ne, set_marker-Unique, is_marked_of_get,
}

-- An extension list with the key identifiers of the key and of the CA, the marker as decided, and no
-- identifier twice.
pub record IsSound (F : Formats) (spki : PublicKey) (ca_key_id : Bytes) (renewable : Bool)
    (exts : List Extension) : Type 0 where
  pub unique : Unique exts
  pub subject_key : Holds F (subject_key_identifier (key_identifier F spki)) exts
  pub authority_key : Holds F (authority_key_identifier ca_key_id) exts
  pub marker : get non_renewable_oid exts ≡ marker_of F renewable

module _ (F : Formats) (K : Signer) (self : CertificateAuthority) where
  -- A certificate of this CA for a public key and a window: signed by the CA's key, with the CA's name,
  -- the key and the window as X.509 writes it, the serial number and the end in their texts, a sound
  -- extension list, and renewable exactly as decided. It may be a CA certificate.
  pub record IsCertified (spki : PublicKey) (renewable : Bool) (not_before not_after : SystemTime)
      (i : IssuedCertificate) : Type 0 where
    pub der : Bytes
    pub encoded : K.tbs_to_der i.certificate.tbs_certificate ≡ ok der
    pub signed : K.sign der ≡ ok i.certificate.signature
    pub algorithm :
        i.certificate.signature_algorithm ≡ algorithm_identifier K.algorithm_oid K.algorithm
    pub pem : K.certificate_pem i.certificate ≡ ok i.pem
    pub window : validity F not_before not_after ≡ ok i.certificate.tbs_certificate.validity
    pub ends : i.not_after_rfc3339 ≡ K.format_rfc3339 not_after
    pub issuer : i.certificate.tbs_certificate.issuer ≡ self.issuer_name
    pub public_key : i.certificate.tbs_certificate.subject_public_key_info ≡ spki
    pub serial : i.serial_decimal ≡ serial_to_decimal i.certificate.tbs_certificate.serial_number
    pub extensions : List Extension
    pub listed : i.certificate.tbs_certificate.extensions ≡ some extensions
    pub sound : IsSound F spki self.ca_key_id renewable extensions
    pub marked : is_marked_non_renewable F i.certificate ≡ not renewable

  module _ (coherent : IsCoherent F) where
    seal-IsCertified :
        (serial : Bytes) (subject : Name) (spki : PublicKey) (nb na : SystemTime)
        (exts : List Extension) (renewable : Bool)
        → IsSound F spki self.ca_key_id renewable exts
        → Ensures (IsCertified spki renewable nb na) (seal F K self serial subject spki nb na exts)
    unfolding seal is_marked_non_renewable
    seal-IsCertified serial subject spki nb na exts renewable s = Ensures-bind _ _ λ window w.
        Ensures-bind _ _ λ der encoded. Ensures-bind _ _ λ signature signed.
          Ensures-bind _ _ λ pem written. Ensures-ok _ (record {
            der = der;
            encoded = encoded;
            signed = signed;
            algorithm = refl;
            pem = written;
            window = w;
            ends = refl;
            issuer = refl;
            public_key = refl;
            serial = refl;
            extensions = exts;
            listed = refl;
            sound = s;
            marked = is_marked_of_get F coherent exts renewable s.marker;
          })

    issue-Certifies :
        (serial : Bytes) (p : IssueParams)
        → Ensures
            (IsCertified p.public_key p.renewable p.not_before p.not_after)
            (issue F K self serial p)
    unfolding issue
    issue-Certifies serial p = Ensures-bind _ _ λ subject _. Ensures-bind _ _ λ exts built.
        let (before, u, done) =
          (build_ok F p.template p.public_key p.sans self.ca_key_id _ _).at exts built in
        let holds =
          finalize-Holds F before exts p.public_key self.ca_key_id coherent.ski_aki done in
        seal-IsCertified serial subject p.public_key p.not_before p.not_after _ p.renewable
          (record {
            unique =
                set_marker-Unique F exts p.renewable
                  (finalize-Unique F before exts p.public_key self.ca_key_id done u);
            subject_key = (
              holds.0.0,
              holds.0.1,
              get-set_marker_ne F _ exts p.renewable coherent.marker_ski ∙ holds.0.2,
            );
            authority_key = (
              holds.1.0,
              holds.1.1,
              get-set_marker_ne F _ exts p.renewable coherent.marker_aki ∙ holds.1.2,
            );
            marker = get-set_marker F exts p.renewable;
          })

    -- The previous certificate, if it lists extensions, has no identifier twice.
    abbrev pub HasUnique : Option (List Extension) → Type 0
    HasUnique none = Unit
    HasUnique (some exts) = Unique exts

    kept-Unique : (o : Option (List Extension)) → HasUnique o → Unique (kept_extensions F o)
    unfolding kept_extensions
    kept-Unique none u = tt
    kept-Unique (some exts) u = Unique-retain _ exts u

    override-Unique :
        {A : Type 0} (build : List A → Result (Option Extension)) (oid : String)
        (o : Option (List A)) (exts : List Extension)
        → Unique exts
        → Ensures Unique (override_usage F K self build oid o exts)
    unfolding override_usage
    override-Unique build oid none exts u = Ensures-ok exts u
    override-Unique build oid (some names) exts u =
        Ensures-bind _ _ λ ext _. Ensures-ok _ (replaced ext)
      where
        replaced : (ext : Option Extension) → Unique (replace_usage exts oid ext)
        replaced none = unfold replace_usage in Unique-retain _ exts u
        replaced (some e) = unfold replace_usage in upsert_some-Unique exts (some e) u

    reissue-Certifies :
        (serial : Bytes) (p : ReissueParams)
        → HasUnique p.old.tbs_certificate.extensions
        → Ensures
            (IsCertified p.public_key p.renewable p.not_before p.not_after)
            (reissue F K self serial p)
    unfolding reissue
    reissue-Certifies serial p u = Ensures-bind _ _ λ subject _. Ensures-bind _ _ λ san _.
        Ensures-bind _ _ λ with_usage h1. Ensures-bind _ _ λ with_purposes h2.
          Ensures-bind _ _ λ exts done.
            let u1 =
              (override-Unique _ _ p.key_usage_override _
                  (upsert_some-Unique _ san (kept-Unique p.old.tbs_certificate.extensions u))).at
                with_usage h1 in
            let u2 =
              (override-Unique _ _ p.extended_key_usage_override with_usage u1).at with_purposes
                h2 in
            let added = upsert_all with_purposes p.additional_extensions in
            let marked = set_non_renewable_marker F added p.renewable in
            let u3 =
              set_marker-Unique F added p.renewable
                (upsert_all-Unique with_purposes p.additional_extensions u2) in
            let holds =
              finalize-Holds F marked exts p.public_key self.ca_key_id coherent.ski_aki done in
            seal-IsCertified serial subject p.public_key p.not_before p.not_after exts p.renewable
              (record {
                unique = finalize-Unique F marked exts p.public_key self.ca_key_id done u3;
                subject_key = holds.0;
                authority_key = holds.1;
                marker =
                    get-finalize F marked exts p.public_key self.ca_key_id non_renewable_oid
                      coherent.marker_ski coherent.marker_aki done
                    ∙ get-set_marker F added p.renewable;
              })

    -- With codecs that tell the identifiers of these extensions apart and that read back a false: a
    -- certificate that is issued is signed with the CA's key over its own contents, which have the
    -- CA's name, the given key, the given window as X.509 writes it, the key identifiers of that key
    -- and of the CA's, no extension twice, and the marker exactly where it is not to be renewed.
    pub issue-IsCertified :
        (serial : Bytes) (p : IssueParams) (i : IssuedCertificate)
        → issue F K self serial p ≡ ok i
        → IsCertified p.public_key p.renewable p.not_before p.not_after i
    issue-IsCertified serial p i h = (issue-Certifies serial p).at i h

    -- With codecs that tell the identifiers of these extensions apart and that read back a false: a
    -- certificate that is reissued from one with no extension twice is signed with the CA's key over
    -- its own contents, which have the CA's name, the given key, the given window as X.509 writes it,
    -- the key identifiers of that key and of the CA's, no extension twice, and the marker exactly where
    -- it is not to be renewed, whatever marker or key identifiers the previous one had.
    pub reissue-IsCertified :
        (serial : Bytes) (p : ReissueParams) (i : IssuedCertificate)
        → HasUnique p.old.tbs_certificate.extensions
        → reissue F K self serial p ≡ ok i
        → IsCertified p.public_key p.renewable p.not_before p.not_after i
    reissue-IsCertified serial p i u h = (reissue-Certifies serial p u).at i h

-- The window that a reissue is asked for is the certificate's, which is the one in the answer.
pub reissue-window :
    (F : Formats) (K : Signer) (self : CertificateAuthority) (serial : Bytes) (p : ReissueParams)
    → Ensures
        (λ i.
          (validity F p.not_before p.not_after ≡ ok i.certificate.tbs_certificate.validity)
          × (K.certificate_pem i.certificate ≡ ok i.pem)
          × (i.not_after_rfc3339 ≡ K.format_rfc3339 p.not_after))
        (reissue F K self serial p)
unfolding reissue seal
reissue-window F K self serial p = Ensures-bind _ _ λ _ _. Ensures-bind _ _ λ _ _.
    Ensures-bind _ _ λ _ _. Ensures-bind _ _ λ _ _. Ensures-bind _ _ λ _ _.
      Ensures-bind _ _ λ window w. Ensures-bind _ _ λ _ _.
        Ensures-bind _ _ λ _ _. Ensures-bind _ _ λ pem written. Ensures-ok _ (w, written, refl)
