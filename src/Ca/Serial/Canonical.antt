-- ===== src/Ca/Serial/Canonical.antt =====
-- A serial number has one decimal text: no leading zero, and the number read back.
use mathlib.Core.List.{reverse, reverse-cons, map-append}
use ayane.Base.{
  ℕ, zero, suc, ◌+◌, ◌-◌, ◌*◌, ◌/◌, ◌%◌, ◌<◌, ◌≡◌, ◌⊎◌, ◌↔◌, inl, inr, refl, sym, List, [], ◌∷◌,
  ◌++◌, map, arith, ap, ◌∙◌,
}
use ayane.San.{Bytes}
use ayane.Ca.Serial.{Text, mul_add, push_carry, add_byte, add_bytes, zero_digits, serial_to_decimal}
use ayane.Ca.Serial.Value.{
  value, bytes_from, AreDigits, AreBytes, Fits, add_byte-AreDigits, add_bytes-value, carry-Fits,
}

-- The most significant digit, which stands last, is not zero.
abbrev pub Leads : List ℕ → Type 0
Leads [] = ⊥
Leads (d ∷ []) = 0 < d
Leads (d ∷ e ∷ ds) = Leads (e ∷ ds)

abbrev pub IsCanonical : List ℕ → Type 0
IsCanonical ds = (ds ≡ zero_digits) ⊎ Leads ds

Leads-cons : (d : ℕ) (ds : List ℕ) → Leads ds → Leads (d ∷ ds)
Leads-cons d [] h = absurd h
Leads-cons d (e ∷ ds) h = h

Leads-append : (xs ys : List ℕ) → Leads ys → Leads (xs ++ ys)
Leads-append [] ys h = h
Leads-append (x ∷ xs) ys h = Leads-cons x (xs ++ ys) (Leads-append xs ys h)

push_carry_zero : (rounds c : ℕ) → c ≡ 0 → push_carry rounds c ≡ []
unfolding push_carry
push_carry_zero zero c e = refl
push_carry_zero (suc rounds) c e = ground arith

pos_or_zero : (n : ℕ) → (n ≡ 0) ⊎ (0 < n)
pos_or_zero n = ground arith

push_carry-Leads : (rounds c : ℕ) → Fits rounds c → 0 < c → Leads (push_carry rounds c)
unfolding push_carry
push_carry-Leads zero c f h = absurd (omega arith)
push_carry-Leads (suc rounds) c f h = elim (pos_or_zero (c / 10)) [
  | inl z ↦ ground (arith, push_carry_zero rounds (c / 10) z)
  | inr p ↦ ground (
    arith,
    Leads-cons (c % 10) (push_carry rounds (c / 10)) (push_carry-Leads rounds (c / 10) f p),
  )
]

-- A number that is not zero leaves a carry when it is multiplied.
mul_add_leaves : (ds : List ℕ) (c : ℕ) → AreDigits ds → c < 256 → Leads ds → 0 < (mul_add ds c).1
unfolding mul_add
mul_add_leaves [] c a h l = absurd l
mul_add_leaves (d ∷ []) c (b, a) h l = omega arith
mul_add_leaves (d ∷ e ∷ ds) c (b, a) h l =
    mul_add_leaves (e ∷ ds) ((d * 256 + c) % 65536 / 10) a (omega arith) l

Leads-pos : (ds : List ℕ) → Leads ds → 0 < value ds
Leads-pos [] l = absurd l
Leads-pos (d ∷ []) l = omega arith
Leads-pos (d ∷ e ∷ ds) l = omega (arith, Leads-pos (e ∷ ds) l)

lone-Leads : (v c : ℕ) → 0 < v → c ≡ 0 → Leads (v ∷ push_carry 5 c)
lone-Leads v c h z = rw (push_carry_zero 5 c z) h

module _ (b : ℕ) (small : b < 256) where
  add_byte_first : IsCanonical (add_byte zero_digits b)
  unfolding add_byte mul_add push_carry
  add_byte_first = elim (pos_or_zero b) [
    | inl z ↦ inl (rw z refl)
    | inr p ↦ elim (pos_or_zero (b / 10)) [
      | inl z ↦
          inr (lone-Leads ((0 + b) % 65536 % 10) ((0 + b) % 65536 / 10) (omega arith) (omega arith))
      | inr q ↦ inr (
          Leads-cons ((0 + b) % 65536 % 10) (push_carry 5 ((0 + b) % 65536 / 10))
            (push_carry-Leads 5 ((0 + b) % 65536 / 10) (omega arith) (omega arith)))
    ]
  ]

  pub add_byte-IsCanonical :
      (ds : List ℕ) → AreDigits ds → IsCanonical ds → IsCanonical (add_byte ds b)
  add_byte-IsCanonical ds a (inl e) = rw e add_byte_first
  add_byte-IsCanonical ds a (inr l) = inr (
      unfold add_byte in
      Leads-append (mul_add ds b).0 _ (
        push_carry-Leads 5 (mul_add ds b).1 (carry-Fits ds b a small)
          (mul_add_leaves ds b a small l)))

pub add_bytes-IsCanonical :
    (ds : List ℕ) (bs : Bytes)
    → AreDigits ds
    → AreBytes bs
    → IsCanonical ds
    → IsCanonical (add_bytes ds bs)
unfolding add_bytes
add_bytes-IsCanonical ds [] a h c = c
add_bytes-IsCanonical ds (b ∷ bs) a (hb, h) c =
    add_bytes-IsCanonical (add_byte ds b) bs (add_byte-AreDigits ds b a hb) h
      (add_byte-IsCanonical b hb ds a c)

Leads-unique :
    (ds es : List ℕ)
    → AreDigits ds
    → AreDigits es
    → Leads ds
    → Leads es
    → value ds ≡ value es
    → ds ≡ es
Leads-unique [] es a b l m v = absurd l
Leads-unique (d ∷ ds) [] a b l m v = absurd m
Leads-unique (d ∷ []) (e ∷ []) a b l m v = ap (λ x. x ∷ []) (omega arith)
Leads-unique (d ∷ []) (e ∷ e' ∷ es) (ad, a) (ae, b) l m v =
    absurd (omega (arith, Leads-pos (e' ∷ es) m))
Leads-unique (d ∷ d' ∷ ds) (e ∷ []) (ad, a) (ae, b) l m v =
    absurd (omega (arith, Leads-pos (d' ∷ ds) l))
Leads-unique (d ∷ d' ∷ ds) (e ∷ e' ∷ es) (ad, a) (ae, b) l m v =
    let same : d ≡ e = omega arith in
    let rest : value (d' ∷ ds) ≡ value (e' ∷ es) = omega arith in
    rw same (ap (λ x. e ∷ x) (Leads-unique (d' ∷ ds) (e' ∷ es) a b l m rest))

pub IsCanonical-unique :
    (ds es : List ℕ)
    → AreDigits ds
    → AreDigits es
    → IsCanonical ds
    → IsCanonical es
    → value ds ≡ value es
    → ds ≡ es
IsCanonical-unique ds es a b (inl e) (inl f) v = e ∙ sym f
IsCanonical-unique ds es a b (inl e) (inr l) v = absurd (omega (arith, Leads-pos es l, ap value e))
IsCanonical-unique ds es a b (inr l) (inl f) v = absurd (omega (arith, Leads-pos ds l, ap value f))
IsCanonical-unique ds es a b (inr l) (inr m) v = Leads-unique ds es a b l m v

-- The number that a text of decimal digits denotes, continuing from `n`.
abbrev pub from_decimal : ℕ → Text → ℕ
from_decimal n [] = n
from_decimal n (c ∷ cs) = from_decimal (n * 10 + (c - 48)) cs

from_decimal-snoc :
    (n : ℕ) (cs : Text) (c : ℕ) → from_decimal n (cs ++ c ∷ []) ≡ from_decimal n cs * 10 + (c - 48)
from_decimal-snoc n [] c = refl
from_decimal-snoc n (x ∷ cs) c = from_decimal-snoc (n * 10 + (x - 48)) cs c

from_decimal-digits : (ds : List ℕ) → from_decimal 0 (map (λ d. 48 + d) (reverse ds)) ≡ value ds
from_decimal-digits [] = refl
from_decimal-digits (d ∷ ds) =
    rw (reverse-cons, map-append)
      (omega (
        arith,
        from_decimal-snoc 0 (map (λ d. 48 + d) (reverse ds)) (48 + d),
        from_decimal-digits ds,
      ))

-- The text reads back, in decimal, as the number that the bytes stand for, most significant first.
serial_to_decimal-value :
    (bs : Bytes) → AreBytes bs → from_decimal 0 (serial_to_decimal bs) ≡ bytes_from 0 bs
unfolding serial_to_decimal
serial_to_decimal-value bs h =
    from_decimal-digits (add_bytes zero_digits bs)
    ∙ (add_bytes-value zero_digits bs (omega arith) h).0

-- Two serial numbers have the same text exactly when they are the same number, however many zero
-- bytes they begin with.
pub serial_to_decimal-eq_iff :
    (xs ys : Bytes)
    → AreBytes xs
    → AreBytes ys
    → (serial_to_decimal xs ≡ serial_to_decimal ys) ↔ (bytes_from 0 xs ≡ bytes_from 0 ys)
serial_to_decimal-eq_iff xs ys hx hy = (
  λ e. sym (serial_to_decimal-value xs hx) ∙ ap (from_decimal 0) e ∙ serial_to_decimal-value ys hy,
  λ v.
      unfold serial_to_decimal in
      ap (λ ds. map (λ d. 48 + d) (reverse ds))
        (IsCanonical-unique (add_bytes zero_digits xs) (add_bytes zero_digits ys) (digits xs hx).1
          (digits ys hy).1 (canonical xs hx) (canonical ys hy)
          ((digits xs hx).0 ∙ v ∙ sym (digits ys hy).0)),
)
  where
    digits :
        (bs : Bytes)
        → AreBytes bs
        → (value (add_bytes zero_digits bs) ≡ bytes_from 0 bs)
          × AreDigits (add_bytes zero_digits bs)
    digits bs h = add_bytes-value zero_digits bs (omega arith) h

    canonical : (bs : Bytes) → AreBytes bs → IsCanonical (add_bytes zero_digits bs)
    canonical bs h = add_bytes-IsCanonical zero_digits bs (omega arith) h (inl refl)
