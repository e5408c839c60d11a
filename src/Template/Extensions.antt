-- ===== src/Template/Extensions.antt =====
-- The extension list of a certificate as a map from object identifiers.
use ayane.Base.{
  String, ◌≡◌, ◌≢◌, refl, sym, ap, ◌∙◌, Bool, false, not, Option, none, some, List, [], ◌∷◌, ◌++◌,
  ◌==◌, eq_iff, arith, find, retain, All, All-append, All-retain, if◌then◌else◌, inl, inr,
}
use ayane.Error.{ok, Result-cases, Ensures, Ensures-bind}
use ayane.San.{San, Bytes}
use ayane.X509.{
  Extension, Formats, PublicKey, ExtensionValue, extension, key_identifier, subject_key_identifier,
  authority_key_identifier, oid_of,
}
use ayane.Template.{
  CertificateTemplate, ExtensionOverrides, upsert_extension, upsert_some, upsert_all,
  finalize_key_identifiers, build_extensions,
}

-- The extension with an identifier.
abbrev pub get : String → List Extension → Option Extension
get id exts = find (λ e. e.extn_id == id) exts

-- No two extensions share an identifier.
abbrev pub Unique : List Extension → Type 0
Unique [] = Unit
Unique (e ∷ exts) = All (λ x. x.extn_id ≢ e.extn_id) exts × Unique exts

pub get-append :
    (id : String) (xs ys : List Extension)
    → get id (xs ++ ys) ≡ elim (get id xs) [ none ↦ get id ys | some e ↦ some e ]
get-append id [] ys = refl
get-append id (x ∷ xs) ys = ground (arith, get-append id xs ys)

pub get-retain :
    (id k : String) (exts : List Extension)
    → get id (retain (λ e. not (e.extn_id == k)) exts) ≡ (if id == k then none else get id exts)
get-retain id k [] = ground arith
get-retain id k (x ∷ xs) =
    ground (arith, get-retain id k xs, eq_iff x.extn_id k, eq_iff x.extn_id id, eq_iff id k)

pub get-upsert :
    (id : String) (exts : List Extension) (ext : Extension)
    → get id (upsert_extension exts ext) ≡ (if ext.extn_id == id then some ext else get id exts)
unfolding upsert_extension
get-upsert id exts ext =
    rw
      (
        get-append id (retain (λ e. not (e.extn_id == ext.extn_id)) exts) (ext ∷ []),
        get-retain id ext.extn_id exts,
      )
      (ground (arith, eq_iff id ext.extn_id, eq_iff ext.extn_id id))

pub get-upsert_self :
    (id : String) (exts : List Extension) (ext : Extension)
    → ext.extn_id ≡ id
    → get id (upsert_extension exts ext) ≡ some ext
get-upsert_self id exts ext e = rw (get-upsert id exts ext, (eq_iff ext.extn_id id).1 e)

pub get-upsert_ne :
    (id : String) (exts : List Extension) (ext : Extension)
    → ext.extn_id ≢ id
    → get id (upsert_extension exts ext) ≡ get id exts
get-upsert_ne id exts ext n = rw (get-upsert id exts ext) (ground (arith, eq_iff ext.extn_id id))

pub Unique-retain :
    (p : Extension → Bool) (exts : List Extension) → Unique exts → Unique (retain p exts)
Unique-retain p [] u = tt
Unique-retain p (x ∷ xs) (a, u) =
    ground (arith, Unique-retain p xs u, All-retain (λ y. y.extn_id ≢ x.extn_id) p xs a)

pub Unique-snoc :
    (exts : List Extension) (ext : Extension)
    → All (λ x. x.extn_id ≢ ext.extn_id) exts
    → Unique exts
    → Unique (exts ++ ext ∷ [])
Unique-snoc [] ext a u = (tt, tt)
Unique-snoc (x ∷ xs) ext (n, a) (b, u) = (
  All-append (λ y. y.extn_id ≢ x.extn_id) xs (ext ∷ []) b ((λ e. n (sym e)), tt),
  Unique-snoc xs ext a u,
)

pub retain_ne :
    (k : String) (exts : List Extension)
    → All (λ x. x.extn_id ≢ k) (retain (λ e. not (e.extn_id == k)) exts)
retain_ne k [] = tt
retain_ne k (x ∷ xs) = ground (arith, retain_ne k xs, eq_iff x.extn_id k)

pub upsert-Unique :
    (exts : List Extension) (ext : Extension) → Unique exts → Unique (upsert_extension exts ext)
unfolding upsert_extension
upsert-Unique exts ext u = Unique-snoc _ ext (retain_ne ext.extn_id exts) (Unique-retain _ exts u)

pub upsert_some-Unique :
    (exts : List Extension) (o : Option Extension) → Unique exts → Unique (upsert_some exts o)
unfolding upsert_some
upsert_some-Unique exts none u = u
upsert_some-Unique exts (some e) u = upsert-Unique exts e u

pub upsert_all-Unique : (exts more : List Extension) → Unique exts → Unique (upsert_all exts more)
unfolding upsert_all
upsert_all-Unique exts [] u = u
upsert_all-Unique exts (e ∷ more) u =
    upsert_all-Unique (upsert_extension exts e) more (upsert-Unique exts e u)

-- A typed extension carries its type's identifier.
pub extension-oid :
    (F : Formats) (v : ExtensionValue) (critical : Bool) (e : Extension)
    → extension F v critical ≡ ok e
    → e.extn_id ≡ oid_of F v
unfolding extension
extension-oid F v critical e h = ground arith

module _ (F : Formats) where
  -- The extension with the identifier is the encoding of the value, not critical.
  abbrev pub Holds : ExtensionValue → List Extension → Type 0
  Holds v exts = (e : Extension) × (extension F v false ≡ ok e) × (get (oid_of F v) exts ≡ some e)

  module _ (exts out : List Extension) (spki : PublicKey) (ca_key_id : Bytes) where
    -- What a successful call has computed.
    pub finalize_ok :
        finalize_key_identifiers F exts spki ca_key_id ≡ ok out
        → (ski : Extension) × (aki : Extension) × (extension F
              (subject_key_identifier (key_identifier F spki))
              false
            ≡ ok ski)
          × (extension F (authority_key_identifier ca_key_id) false ≡ ok aki)
          × (out ≡ upsert_extension (upsert_extension exts ski) aki)
    unfolding finalize_key_identifiers
    finalize_ok h =
        elim (Result-cases (extension F (subject_key_identifier (key_identifier F spki)) false)) [
          | inl (ski, hs) ↦
              elim (Result-cases (extension F (authority_key_identifier ca_key_id) false)) [
                | inl (aki, ha) ↦ (ski, aki, hs, ha, ground arith)
                | inr (e, he) ↦ absurd (ground arith)
              ]
          | inr (e, he) ↦ absurd (ground arith)
        ]

    pub finalize-Unique :
        finalize_key_identifiers F exts spki ca_key_id ≡ ok out → Unique exts → Unique out
    finalize-Unique h u =
        let (ski, aki, hs, ha, e) = finalize_ok h in
        rw e (upsert-Unique (upsert_extension exts ski) aki (upsert-Unique exts ski u))

    -- Whatever stood in the list, both key identifiers are the computed ones.
    pub finalize-Holds :
        F.subject_key_identifier_oid ≢ F.authority_key_identifier_oid
        → finalize_key_identifiers F exts spki ca_key_id ≡ ok out
        → Holds (subject_key_identifier (key_identifier F spki)) out
          × Holds (authority_key_identifier ca_key_id) out
    finalize-Holds differ h =
        let (ski, aki, hs, ha, e) = finalize_ok h in
        let ski_oid =
          extension-oid F (subject_key_identifier (key_identifier F spki)) false ski hs in
        let aki_oid = extension-oid F (authority_key_identifier ca_key_id) false aki ha in
        let S = upsert_extension exts ski in
        let kept = get-upsert_ne _ S aki (λ p. differ (sym p ∙ aki_oid)) in
        (
          (
            ski,
            hs,
            ap (get F.subject_key_identifier_oid) e ∙ kept ∙ get-upsert_self _ exts ski ski_oid,
          ),
          (aki, ha, ap (get F.authority_key_identifier_oid) e ∙ get-upsert_self _ S aki aki_oid),
        )

    -- Every other extension is left as it was.
    pub get-finalize :
        (id : String)
        → id ≢ F.subject_key_identifier_oid
        → id ≢ F.authority_key_identifier_oid
        → finalize_key_identifiers F exts spki ca_key_id ≡ ok out
        → get id out ≡ get id exts
    get-finalize id n m h =
        let (ski, aki, hs, ha, e) = finalize_ok h in
        let ski_oid =
          extension-oid F (subject_key_identifier (key_identifier F spki)) false ski hs in
        let aki_oid = extension-oid F (authority_key_identifier ca_key_id) false aki ha in
        ap (get id) e
        ∙ get-upsert_ne id (upsert_extension exts ski) aki (λ p. m (sym p ∙ aki_oid))
        ∙ get-upsert_ne id exts ski (λ p. n (sym p ∙ ski_oid))

-- The list that the identifiers are added to, as a successful call computes it.
module _ (F : Formats) (self : CertificateTemplate) where
  module _ (spki : PublicKey) (sans : List San) (ca_key_id : Bytes) (empty : Bool)
      (o : ExtensionOverrides) where
    pub build_ok :
        Ensures
          (λ out.
            (exts : List Extension) × Unique exts
            × (finalize_key_identifiers F exts spki ca_key_id ≡ ok out))
          (build_extensions F self spki sans ca_key_id empty o)
    unfolding build_extensions
    build_ok = Ensures-bind _ _ λ bc _. Ensures-bind _ _ λ ku _. Ensures-bind _ _ λ eku _.
        Ensures-bind _ _ λ san _. record {
          at = λ out h. (
            upsert_all _ o.additional_extensions,
            upsert_all-Unique _ o.additional_extensions (
                upsert_some-Unique _ san
                  (upsert_some-Unique _ eku (upsert_some-Unique _ ku (upsert-Unique [] bc tt)))),
            h,
          );
        }
