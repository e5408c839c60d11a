-- ===== src/Httpsig/KeyHeader.antt =====
-- The Signature-Key header is read as it was written, for the URL of the signer's chain.
use ayane.Base.{
  ℕ, nat_eq, true, false, ◌≡◌, ◌∙◌, refl, sym, ap, none, some, List, [], ◌∷◌, ◌++◌, All-append,
  arith,
}
use mathlib.Core.List.{append_assoc}
use ayane.Error.{ok, ◌>>=◌, >>=-ok}
use ayane.Ca.Serial.{Text}
use ayane.Service.Revoke.{chars, trim_start_matches, is_whitespace}
use ayane.Authorizer.Url.{strip_prefix}
use ayane.Httpsig.{
  joined, quote, semicolon, equals, after, strip_label, quoted_param, roots_signature_label,
  signer_chain_path, signature_key_x509, parse_signature_key_x509, is_x509, x509_params, x509, x5u,
  x5t,
}
use ayane.Httpsig.Texts.{Free, Free-of_any, split_once-append}
use ayane.Httpsig.RoundTrip.{ok_or-some, strip_label-append, joined-snoc, is_whitespace-quote}

-- "x5t=" and a quote, where the fifth character is none
strip_prefix-none :
    (a b c d e : ℕ) (t : Text)
    → nat_eq e quote ≡ false
    → strip_prefix (120 ∷ 53 ∷ 116 ∷ 61 ∷ 34 ∷ []) (a ∷ b ∷ c ∷ d ∷ e ∷ t) ≡ none
unfolding strip_prefix
strip_prefix-none a b c d e t h = ground arith

after-none :
    (needle : Text) (c : ℕ) (t : Text)
    → strip_prefix needle (c ∷ t) ≡ none
    → after needle (c ∷ t) ≡ after needle t
unfolding after
after-none needle c t h = rw (after, h) refl

-- No quote of the URL ends what is looked for.
after-skip :
    (base w : Text)
    → Free quote base
    → after (120 ∷ 53 ∷ 116 ∷ 61 ∷ 34 ∷ []) (base ++ (signer_chain_path ++ w))
      ≡ after (120 ∷ 53 ∷ 116 ∷ 61 ∷ 34 ∷ []) (signer_chain_path ++ w)
unfolding signer_chain_path chars
after-skip [] w h = refl
after-skip (a ∷ []) w h = after-none _ a _ (strip_prefix-none a 47 118 49 47 _ refl)
after-skip (a ∷ b ∷ []) w (ha, h) =
    after-none _ a _ (strip_prefix-none a b 47 118 49 _ refl) ∙ after-skip (b ∷ []) w h
after-skip (a ∷ b ∷ c ∷ []) w (ha, h) =
    after-none _ a _ (strip_prefix-none a b c 47 118 _ refl) ∙ after-skip (b ∷ c ∷ []) w h
after-skip (a ∷ b ∷ c ∷ d ∷ []) w (ha, h) =
    after-none _ a _ (strip_prefix-none a b c d 47 _ refl) ∙ after-skip (b ∷ c ∷ d ∷ []) w h
after-skip (a ∷ b ∷ c ∷ d ∷ e ∷ base) w (ha, (hb, (hc, (hd, (he, h))))) =
    after-none _ a _ (strip_prefix-none a b c d e _ he)
    ∙ after-skip (b ∷ c ∷ d ∷ e ∷ base) w (hb, (hc, (hd, (he, h))))

module _ (base thumbprint : Text) where
  abbrev url : Text
  url = base ++ signer_chain_path

  -- the header's value without its label, from a first text on
  abbrev pieces : Text → List Text
  pieces start =
      start
      ∷ (semicolon ∷ [])
      ∷ x5u
      ∷ (equals ∷ quote ∷ [])
      ∷ url
      ∷ (quote ∷ semicolon ∷ [])
      ∷ x5t
      ∷ (equals ∷ quote ∷ [])
      ∷ thumbprint
      ∷ []

  -- what follows the URL
  abbrev rest : Text
  rest = quote ∷ semicolon ∷ 120 ∷ 53 ∷ 116 ∷ equals ∷ quote ∷ thumbprint ++ (quote ∷ [])

  abbrev body : Text
  body = joined (pieces x509 ++ ((quote ∷ []) ∷ []))

  abbrev needle : Text
  needle = 120 ∷ 53 ∷ 116 ∷ 61 ∷ 34 ∷ []

  module _ (free : Free quote base) where
    Free-url : Free quote url
    unfolding signer_chain_path chars
    Free-url =
        All-append (λ c. nat_eq c quote ≡ false) base signer_chain_path free
          (Free-of_any quote signer_chain_path refl)

    quoted_param-x5u : quoted_param body x5u ≡ some url
    unfolding quoted_param x5u x5t x509 chars after strip_prefix
    quoted_param-x5u =
        rw
          (
            quoted_param,
            split_once-append quote url
                (semicolon ∷ 120 ∷ 53 ∷ 116 ∷ equals ∷ quote ∷ thumbprint ++ (quote ∷ [])) Free-url,
          )
          refl

    after-path : after needle (signer_chain_path ++ rest) ≡ some (thumbprint ++ (quote ∷ []))
    unfolding signer_chain_path chars after strip_prefix
    after-path = refl

    after-body : after (x5t ++ (equals ∷ quote ∷ [])) body ≡ after needle (url ++ rest)
    unfolding x5u x5t x509 chars after strip_prefix
    after-body = refl

    quoted_param-x5t : Free quote thumbprint → quoted_param body x5t ≡ some thumbprint
    unfolding quoted_param
    quoted_param-x5t thumb =
        let found =
          after-body
          ∙ ap (after needle) (append_assoc base signer_chain_path rest)
          ∙ after-skip base rest free
          ∙ after-path in
        rw (quoted_param, found) (rw (split_once-append quote thumbprint [] thumb) refl)

    is_x509-body : is_x509 body ≡ true
    unfolding is_x509 x509 chars trim_start_matches is_whitespace strip_prefix
    is_x509-body = refl

    x509_params-body : Free quote thumbprint → x509_params body ≡ ok (url, thumbprint)
    unfolding x509_params
    x509_params-body thumb =
        >>=-ok _ (ok_or-some _ quoted_param-x5u) ∙ >>=-ok _ (ok_or-some _ (quoted_param-x5t thumb))

    -- The header is read as it was written.
    pub parse-signature_key_x509 :
        Free quote thumbprint
        → parse_signature_key_x509 (signature_key_x509 url thumbprint) ≡ ok (url, thumbprint)
    unfolding parse_signature_key_x509 signature_key_x509 ◌>>=◌
    parse-signature_key_x509 thumb =
        let last = joined-snoc (pieces x509) (quote ∷ []) in
        let labelled =
          ap (λ v. strip_label (roots_signature_label ++ (equals ∷ v))) last
          ∙ strip_label-append (joined (pieces x509)) quote is_whitespace-quote
          ∙ ap some (sym last) in
        >>=-ok _ (ok_or-some _ labelled) ∙ rw is_x509-body (x509_params-body thumb)
