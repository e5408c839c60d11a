-- ===== src/Ca/Serial/Value.antt =====
-- The decimal digits stand for the number that the bytes stand for.
use ayane.Base.{
  ℕ, zero, suc, ◌+◌, ◌*◌, ◌/◌, ◌%◌, ◌≤◌, ◌<◌, ◌≡◌, refl, List, [], ◌∷◌, ◌++◌, arith, All,
  All-append, ap, ◌∙◌,
}
use ayane.San.{Bytes}
use ayane.Ca.Serial.{mul_add, push_carry, add_byte, add_bytes}

-- The number of some digits, least significant first.
abbrev pub value : List ℕ → ℕ
value [] = 0
value (d ∷ ds) = d + 10 * value ds

-- The number of some bytes after a number, most significant first.
abbrev pub bytes_from : ℕ → Bytes → ℕ
bytes_from n [] = n
bytes_from n (b ∷ bs) = bytes_from (n * 256 + b) bs

abbrev pub AreDigits : List ℕ → Type 0
AreDigits = All (λ d. d ≤ 9)

abbrev pub AreBytes : Bytes → Type 0
AreBytes = All (λ b. b < 256)

-- The number has at most so many digits.
abbrev pub Fits : ℕ → ℕ → Type 0
Fits zero c = c ≡ 0
Fits (suc rounds) c = Fits rounds (c / 10)

pub push_carry-value :
    (rounds c : ℕ)
    → Fits rounds c
    → (value (push_carry rounds c) ≡ c) × AreDigits (push_carry rounds c)
unfolding push_carry
push_carry-value zero c h = (omega arith, tt)
push_carry-value (suc rounds) c h = ground (arith, push_carry-value rounds (c / 10) h)

pub mul_add-carry : (ds : List ℕ) (c : ℕ) → AreDigits ds → c < 256 → (mul_add ds c).1 < 256
unfolding mul_add
mul_add-carry [] c a h = h
mul_add-carry (d ∷ ds) c (b, a) h = mul_add-carry ds ((d * 256 + c) % 65536 / 10) a (omega arith)

mul_add-AreDigits : (ds : List ℕ) (c : ℕ) → AreDigits (mul_add ds c).0
unfolding mul_add
mul_add-AreDigits [] c = tt
mul_add-AreDigits (d ∷ ds) c = (omega arith, mul_add-AreDigits ds ((d * 256 + c) % 65536 / 10))

-- The carry's digits complete the product; no 16-bit sum wraps.
mul_add-value :
    (ds : List ℕ) (c : ℕ) (ys : List ℕ)
    → AreDigits ds
    → c < 256
    → value ys ≡ (mul_add ds c).1
    → value ((mul_add ds c).0 ++ ys) ≡ value ds * 256 + c
unfolding mul_add
mul_add-value [] c ys a h e = omega arith
mul_add-value (d ∷ ds) c ys (b, a) h e =
    omega (arith, mul_add-value ds ((d * 256 + c) % 65536 / 10) ys a (omega arith) e)

module _ (ds : List ℕ) (b : ℕ) (a : AreDigits ds) (h : b < 256) where
  small : (mul_add ds b).1 < 256
  small = mul_add-carry ds b a h

  pub carry-Fits : Fits 5 (mul_add ds b).1
  carry-Fits = omega (arith, small)

  pub add_byte-value : value (add_byte ds b) ≡ value ds * 256 + b
  unfolding add_byte
  add_byte-value =
      mul_add-value ds b (push_carry 5 (mul_add ds b).1) a h
        (push_carry-value 5 (mul_add ds b).1 carry-Fits).0

  pub add_byte-AreDigits : AreDigits (add_byte ds b)
  unfolding add_byte
  add_byte-AreDigits =
      All-append (λ d. d ≤ 9) (mul_add ds b).0 _ (mul_add-AreDigits ds b)
        (push_carry-value 5 (mul_add ds b).1 carry-Fits).1

pub add_bytes-value :
    (ds : List ℕ) (bs : Bytes)
    → AreDigits ds
    → AreBytes bs
    → (value (add_bytes ds bs) ≡ bytes_from (value ds) bs) × AreDigits (add_bytes ds bs)
unfolding add_bytes
add_bytes-value ds [] a h = (refl, a)
add_bytes-value ds (b ∷ bs) a (hb, h) =
    let (e, d) = add_bytes-value (add_byte ds b) bs (add_byte-AreDigits ds b a hb) h in
    (e ∙ ap (λ n. bytes_from n bs) (add_byte-value ds b a hb), d)
