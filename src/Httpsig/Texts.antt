-- ===== src/Httpsig/Texts.antt =====
-- The text operations on what was put together from parts.
use mathlib.Core.List.{reverse, reverse-append, reverse-reverse}
use ayane.Base.{
  ℕ, zero, suc, ◌+◌, ◌*◌, ◌/◌, ◌%◌, ◌<◌, ◌≤◌, ◌-◌, ◌&&◌, ltb, leb, nat_eq, true, false, ◌≡◌, ◌∙◌,
  refl, ap, some, [], ◌∷◌, ◌++◌, All, arith, any, All-append, ◌⊎◌, inl, inr, Bool-cases,
}
use ayane.Ca.Serial.{Text}
use ayane.Service.Revoke.{trim, trim_start_matches, is_whitespace}
use ayane.Authorizer.Url.{strip_prefix, digits_u64, parse_u64}
use ayane.Httpsig.{strip_last, between, split_on, split_once, show_digits, show_u64}

-- no character of the text is this one
abbrev pub Free : ℕ → Text → Type 0
Free d = All (λ c. nat_eq c d ≡ false)

pub Free-of_any : (d : ℕ) (t : Text) → any (λ c. nat_eq c d) t ≡ false → Free d t
Free-of_any d [] h = tt
Free-of_any d (c ∷ t) h = elim (Bool-cases (nat_eq c d)) [
  | inl e ↦ let h' = rw e at h in cc
  | inr e ↦ (e, Free-of_any d t (rw e at h))
]

pub strip_prefix-append : (p t : Text) → strip_prefix p (p ++ t) ≡ some t
unfolding strip_prefix
strip_prefix-append [] t = refl
strip_prefix-append (c ∷ p) t = ground (arith, strip_prefix-append p t)

pub strip_last-append : (c : ℕ) (t : Text) → strip_last c (t ++ (c ∷ [])) ≡ some t
unfolding strip_last
strip_last-append c [] = ground arith
strip_last-append c (d ∷ []) = ground arith
strip_last-append c (d ∷ e ∷ t) = rw (strip_last-append c (e ∷ t)) refl

pub between-append : (p : Text) (c : ℕ) (t : Text) → between p c (p ++ (t ++ (c ∷ []))) ≡ some t
unfolding between
between-append p c t = rw (between, strip_prefix-append p (t ++ (c ∷ []))) (strip_last-append c t)

pub split_once-append : (d : ℕ) (u w : Text) → Free d u → split_once d (u ++ (d ∷ w)) ≡ some (u, w)
unfolding split_once
split_once-append d [] w h = ground arith
split_once-append d (c ∷ u) w (k, h) = rw (k, split_once-append d u w h) refl

pub split_on-append : (d : ℕ) (u w : Text) → Free d u → split_on d (u ++ (d ∷ w)) ≡ u ∷ split_on d w
unfolding split_on
split_on-append d [] w h = ground arith
split_on-append d (c ∷ u) w (k, h) = rw (k, split_on-append d u w h) refl

pub split_on-last : (d : ℕ) (u : Text) → Free d u → split_on d u ≡ u ∷ []
unfolding split_on
split_on-last d [] h = refl
split_on-last d (c ∷ u) (k, h) = rw (k, split_on-last d u h) refl

-- A text that begins and ends with no white space is trimmed.
pub trim-id :
    (c : ℕ) (t : Text) (d : ℕ)
    → is_whitespace c ≡ false
    → is_whitespace d ≡ false
    → trim (c ∷ t ++ (d ∷ [])) ≡ c ∷ t ++ (d ∷ [])
unfolding trim trim_start_matches
trim-id c t d hc hd =
    let u : Text = c ∷ t ++ (d ∷ []) in
    let first : trim_start_matches is_whitespace u ≡ u = rw hc refl in
    let back : reverse u ≡ d ∷ reverse (c ∷ t) = reverse-append (c ∷ t) (d ∷ []) in
    let second : trim_start_matches is_whitespace (reverse u) ≡ reverse u = rw back (rw hd refl) in
    rw first (rw second (reverse-reverse u))

-- the digits of a number in decimal, at most so many
pub Free-show_digits : (d places n : ℕ) → (d < 48) ⊎ (57 < d) → Free d (show_digits places n)
unfolding show_digits
Free-show_digits d zero n h = tt
Free-show_digits d (suc places) n h = elim (Bool-cases (ltb n 10)) [
  | inl e ↦ rw e (ground arith, tt)
  | inr e ↦ rw e (
      All-append (λ c. nat_eq c d ≡ false) (show_digits places (n / 10)) ((48 + n % 10) ∷ [])
        (Free-show_digits d places (n / 10) h) (ground arith, tt))
]

digits_u64-snoc :
    (acc : ℕ) (t : Text) (m d : ℕ)
    → digits_u64 acc t ≡ some m
    → d < 10
    → m * 10 + d ≤ 18_446_744_073_709_551_615
    → digits_u64 acc (t ++ ((48 + d) ∷ [])) ≡ some (m * 10 + d)
unfolding digits_u64
digits_u64-snoc acc [] m d h lt le = ground arith
digits_u64-snoc acc (c ∷ t) m d h lt le =
    elim (Bool-cases
      (leb 48 c && leb c 57 && leb (acc * 10 + (c - 48)) 18_446_744_073_709_551_615)) [
        | inl e ↦ rw e (digits_u64-snoc (acc * 10 + (c - 48)) t m d (rw e at h) lt le)
        | inr e ↦ let h' = rw e at h in cc
      ]

digits_u64-one : (n : ℕ) → n < 10 → digits_u64 0 ((48 + n) ∷ []) ≡ some n
unfolding digits_u64
digits_u64-one n lt = ground arith

-- how many numbers have at most so many digits
abbrev limit : ℕ → ℕ
limit zero = 1
limit (suc places) = limit places * 10

digits_u64-show_digits :
    (places n : ℕ)
    → 0 < places
    → n < limit places
    → n ≤ 18_446_744_073_709_551_615
    → digits_u64 0 (show_digits places n) ≡ some n
unfolding show_digits
digits_u64-show_digits zero n pos lt le = absurd (omega arith)
digits_u64-show_digits (suc zero) n pos lt le =
    let e : ltb n 10 ≡ true = ground arith in rw e (digits_u64-one n lt)
digits_u64-show_digits (suc (suc places)) n pos lt le = elim (Bool-cases (ltb n 10)) [
  | inl e ↦ rw e (digits_u64-one n (ground arith))
  | inr e ↦
      let front =
        digits_u64-show_digits (suc places) (n / 10) (omega arith) (omega arith) (omega arith) in
      let whole : n / 10 * 10 + n % 10 ≡ n = omega arith in
      rw e (
        digits_u64-snoc 0 (show_digits (suc places) (n / 10)) (n / 10) (n % 10) front (omega arith)
          (omega arith)
        ∙ ap some whole)
]

parse_u64-digits : (t : Text) → Free 43 t → (t ≡ [] → ⊥) → parse_u64 t ≡ digits_u64 0 t
unfolding parse_u64
parse_u64-digits [] h k = absurd (k refl)
parse_u64-digits (c ∷ []) h k = refl
parse_u64-digits (c ∷ d ∷ t) (hc, h) k = rw hc refl

snoc-some : (t : Text) (c : ℕ) → t ++ (c ∷ []) ≡ [] → ⊥
snoc-some [] c h = cc
snoc-some (d ∷ t) c h = cc

show_digits-some : (places n : ℕ) → show_digits (suc places) n ≡ [] → ⊥
unfolding show_digits
show_digits-some places n h = elim (Bool-cases (ltb n 10)) [
  | inl e ↦ let h' = rw e at h in cc
  | inr e ↦ snoc-some (show_digits places (n / 10)) (48 + n % 10) (rw e at h)
]

-- A number of 64 bits is read as it was written.
pub parse_u64-show_u64 : (n : ℕ) → n ≤ 18_446_744_073_709_551_615 → parse_u64 (show_u64 n) ≡ some n
parse_u64-show_u64 n le =
    parse_u64-digits (show_u64 n) (Free-show_digits 43 20 n (inl (omega arith)))
      (show_digits-some 19 n)
    ∙ digits_u64-show_digits 20 n (omega arith) (omega arith) le
