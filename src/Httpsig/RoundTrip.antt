-- ===== src/Httpsig/RoundTrip.antt =====
-- The headers are read as they were written.
use ayane.Base.{
  ℕ, ◌≤◌, nat_eq, not, true, false, ◌≡◌, ◌∙◌, refl, sym, ap, Option, some, List, [], ◌∷◌, ◌++◌,
  All-append, arith, inr, length, retain, is_empty, drop,
}
use mathlib.Core.List.{append_assoc, append-nil}
use ayane.Error.{Result, ok, ok_or, ◌>>=◌, >>=-ok}
use ayane.San.{Bytes}
use ayane.Ca.Serial.{Text}
use ayane.Service.Revoke.{chars, trim, is_whitespace}
use ayane.Authorizer.Url.{strip_prefix}
use ayane.Httpsig.{
  Base64, RootsSigParams, Found, joined, colon, quote, semicolon, equals, between, split_on,
  strip_label, show_u64, roots_signature_label, sha_384, content_digest_header,
  parse_content_digest, signature_header_value, parse_signature_header, roots_sig_params_value,
  signature_input_value, parse_roots_sig_params, take_param, take_params, covered_components,
  created_key, expires_key, alg_key, nothing_found,
}
use ayane.Httpsig.Texts.{
  Free, Free-of_any, strip_prefix-append, between-append, split_once-append, split_on-append,
  split_on-last, trim-id, Free-show_digits, parse_u64-show_u64,
}

-- base64 reads what it writes.
pub record IsBase64 (B : Base64) : Type 0 where
  pub decode-encode : (b : Bytes) → B.decode (B.encode b) ≡ some b
  -- no quote is in its alphabet
  pub unquoted : (b : Bytes) → Free quote (B.encode_url b)

pub ok_or-some {ℓ} :
    {A : Type ℓ} {o : Option A} {a : A} (e : ayane.Error.Error) → o ≡ some a → ok_or o e ≡ ok a
ok_or-some e h = rw h refl

pub strip_label-append :
    (t : Text) (d : ℕ)
    → is_whitespace d ≡ false
    → strip_label (roots_signature_label ++ (equals ∷ t ++ (d ∷ []))) ≡ some (t ++ (d ∷ []))
unfolding strip_label roots_signature_label chars is_whitespace strip_prefix
strip_label-append t d h =
    let trimmed = trim-id 115 (105 ∷ 103 ∷ 61 ∷ t) d refl h in rw (strip_label, trimmed) refl

module _ (B : Base64) (I : IsBase64 B) where
  pub parse-content_digest_header :
      (b : Bytes)
      → nat_eq (length b) 48 ≡ true
      → parse_content_digest B (content_digest_header B b) ≡ ok b
  unfolding parse_content_digest content_digest_header sha_384 chars is_whitespace
  parse-content_digest_header b size =
      let trimmed =
        trim-id 115 (104 ∷ 97 ∷ 45 ∷ 51 ∷ 56 ∷ 52 ∷ 61 ∷ 58 ∷ B.encode b) 58 refl refl in
      let inner = between-append sha_384 colon (B.encode b) in
      >>=-ok _ (ok_or-some _ (ap (between sha_384 colon) trimmed ∙ inner))
      ∙ >>=-ok _ (ok_or-some _ (I.decode-encode b))
      ∙ rw size refl

  pub parse-signature_header_value :
      (s : Bytes) → parse_signature_header B (signature_header_value B s) ≡ ok s
  unfolding parse_signature_header signature_header_value is_whitespace roots_signature_label chars
  parse-signature_header_value s =
      let trimmed = trim-id 58 (B.encode s) 58 refl refl in
      let inner = between-append (colon ∷ []) colon (B.encode s) in
      >>=-ok _ (ok_or-some _ (strip_label-append (colon ∷ B.encode s) 58 refl))
      ∙ >>=-ok _ (ok_or-some _ (ap (between (colon ∷ []) colon) trimmed ∙ inner))
      ∙ ok_or-some _ (I.decode-encode s)

pub joined-snoc : (ts : List Text) (t : Text) → joined (ts ++ (t ∷ [])) ≡ joined ts ++ t
joined-snoc [] t = append-nil t
joined-snoc (u ∷ ts) t = ap (λ r. u ++ r) (joined-snoc ts t) ∙ sym (append_assoc u (joined ts) t)

pub is_whitespace-quote : is_whitespace quote ≡ false
unfolding is_whitespace
is_whitespace-quote = refl

-- a parameter as it is written
abbrev pair : Text → Text → Text
pair k v = k ++ (equals ∷ v)

take_param-created :
    (n : ℕ) (found : Found)
    → n ≤ 18_446_744_073_709_551_615
    → take_param found created_key (show_u64 n) ≡ ok (record found { created = some n })
unfolding take_param created_key chars
take_param-created n found le = >>=-ok _ (ok_or-some _ (parse_u64-show_u64 n le))

take_param-expires :
    (n : ℕ) (found : Found)
    → n ≤ 18_446_744_073_709_551_615
    → take_param found expires_key (show_u64 n) ≡ ok (record found { expires = some n })
unfolding take_param created_key expires_key chars
take_param-expires n found le = >>=-ok _ (ok_or-some _ (parse_u64-show_u64 n le))

take_param-alg :
    (a : Text) (found : Found)
    → take_param found alg_key (quote ∷ a ++ (quote ∷ [])) ≡ ok (record found { alg = some a })
unfolding take_param created_key expires_key alg_key chars
take_param-alg a found = >>=-ok _ (ok_or-some _ (between-append (quote ∷ []) quote a))

take_params-nil : (found : Found) → take_params found [] ≡ ok found
unfolding take_params
take_params-nil found = refl

take_params-cons :
    (found found' : Found) (k v : Text) (params : List Text)
    → Free equals k
    → take_param found k v ≡ ok found'
    → take_params found (pair k v ∷ params) ≡ take_params found' params
unfolding take_params
take_params-cons found found' k v params free taken =
    >>=-ok _ (ok_or-some _ (split_once-append equals k v free)) ∙ >>=-ok _ taken

module _ (p : RootsSigParams) where
  abbrev parts : List Text
  parts =
      pair created_key (show_u64 p.created)
      ∷ pair expires_key (show_u64 p.expires)
      ∷ pair alg_key (quote ∷ p.alg ++ (quote ∷ []))
      ∷ []

  -- what follows the covered components
  abbrev params_text : Text
  params_text =
      (semicolon ∷ pair created_key (show_u64 p.created))
      ++ ((semicolon ∷ pair expires_key (show_u64 p.expires))
          ++ (semicolon ∷ pair alg_key (quote ∷ p.alg ++ (quote ∷ []))))

  split_params :
      Free semicolon p.alg → retain (λ s. not (is_empty s)) (split_on semicolon params_text) ≡ parts
  unfolding split_on created_key expires_key alg_key chars
  split_params free =
      let free_pair = λ (k v : Text) (fk : Free semicolon k) (fv : Free semicolon v).
        All-append (λ c. nat_eq c semicolon ≡ false) k (equals ∷ v) fk (refl, fv) in
      let digits = λ (n : ℕ). Free-show_digits semicolon 20 n (inr (omega arith)) in
      let created =
        free_pair created_key (show_u64 p.created) (Free-of_any semicolon created_key refl)
          (digits p.created) in
      let expires =
        free_pair expires_key (show_u64 p.expires) (Free-of_any semicolon expires_key refl)
          (digits p.expires) in
      let alg =
        free_pair alg_key (quote ∷ p.alg ++ (quote ∷ [])) (Free-of_any semicolon alg_key refl)
          (refl, All-append (λ c. nat_eq c semicolon ≡ false) p.alg (quote ∷ []) free (refl, tt)) in
      ap (λ ts. retain (λ s. not (is_empty s)) ([] ∷ ts))
        (split_on-append semicolon (pair created_key (show_u64 p.created)) _ created
          ∙ ap (λ ts. pair created_key (show_u64 p.created) ∷ ts)
              (split_on-append semicolon (pair expires_key (show_u64 p.expires)) _ expires
                ∙ ap (λ ts. pair expires_key (show_u64 p.expires) ∷ ts)
                    (split_on-last semicolon (pair alg_key (quote ∷ p.alg ++ (quote ∷ []))) alg)))

  take_params-parts :
      p.created ≤ 18_446_744_073_709_551_615
      → p.expires ≤ 18_446_744_073_709_551_615
      → take_params nothing_found parts
        ≡ ok (record { created = some p.created; expires = some p.expires; alg = some p.alg })
  unfolding created_key expires_key alg_key chars
  take_params-parts hc he =
      take_params-cons nothing_found _ created_key _ _ (Free-of_any equals created_key refl)
        (take_param-created p.created nothing_found hc)
      ∙ take_params-cons _ _ expires_key _ _ (Free-of_any equals expires_key refl)
          (take_param-expires p.expires _ he)
      ∙ take_params-cons _ _ alg_key _ _ (Free-of_any equals alg_key refl) (take_param-alg p.alg _)
      ∙ take_params-nil _

  roots_sig_params_value-eq : roots_sig_params_value p ≡ covered_components ++ params_text
  unfolding roots_sig_params_value covered_components created_key expires_key alg_key chars
  roots_sig_params_value-eq = refl

  -- the pieces of the value without its last quote, from a first one on
  abbrev pieces : Text → List Text
  pieces start =
      start
      ∷ (semicolon ∷ [])
      ∷ created_key
      ∷ (equals ∷ [])
      ∷ show_u64 p.created
      ∷ (semicolon ∷ [])
      ∷ expires_key
      ∷ (equals ∷ [])
      ∷ show_u64 p.expires
      ∷ (semicolon ∷ [])
      ∷ alg_key
      ∷ (equals ∷ quote ∷ [])
      ∷ p.alg
      ∷ []

  abbrev front : Text → Text
  front start = joined (pieces start)

  roots_sig_params_value-front : roots_sig_params_value p ≡ front covered_components ++ (quote ∷ [])
  unfolding roots_sig_params_value
  roots_sig_params_value-front = joined-snoc (pieces covered_components) (quote ∷ [])

  trim-front :
      trim (front covered_components ++ (quote ∷ [])) ≡ front covered_components ++ (quote ∷ [])
  unfolding covered_components chars is_whitespace
  trim-front = trim-id 40 (front (drop 1 covered_components)) quote refl refl

  -- The parameters of a signature are read from the Signature-Input header as they were written,
  -- where the times have 64 bits and the algorithm has no semicolon.
  pub parse-signature_input_value :
      p.created ≤ 18_446_744_073_709_551_615
      → p.expires ≤ 18_446_744_073_709_551_615
      → Free semicolon p.alg
      → parse_roots_sig_params (signature_input_value p) ≡ ok p
  unfolding parse_roots_sig_params signature_input_value ◌>>=◌
  parse-signature_input_value hc he free =
      >>=-ok _ (
        ok_or-some _ (
          ap (λ v. strip_label (roots_signature_label ++ (equals ∷ v))) roots_sig_params_value-front
          ∙ strip_label-append (front covered_components) quote is_whitespace-quote))
      ∙ >>=-ok _ (
          ok_or-some _ (
            ap (strip_prefix covered_components)
              (trim-front ∙ sym roots_sig_params_value-front ∙ roots_sig_params_value-eq)
            ∙ strip_prefix-append covered_components params_text))
      ∙ >>=-ok _ (ap (take_params nothing_found) (split_params free) ∙ take_params-parts hc he)
      ∙ refl
