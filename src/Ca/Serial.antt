-- ===== src/Ca/Serial.antt =====
-- ayane/src/ca.rs, `serial_to_decimal`, and ayane/src/x509.rs, `random_serial_number`. A text of
-- digits is the list of its character codes.
pub mod Value
pub mod Canonical
use Prim.Native.Nat.{bit_and, bit_or}
use mathlib.Core.List.{reverse}
use ayane.Base.{ℕ, zero, suc, ◌+◌, ◌*◌, ◌/◌, ◌%◌, List, [], ◌∷◌, ◌++◌, map, nat_eq, if◌then◌else◌}
use ayane.San.{Bytes}

abbrev pub Text : Type 0
Text = List ℕ

-- `for d in digits.iter_mut()`: the digits, least significant first, times 256 plus the carry, in
-- 16-bit arithmetic, and the carry that is left.
pub mul_add : List ℕ → ℕ → List ℕ × ℕ
mul_add [] carry = ([], carry)
mul_add (d ∷ ds) carry =
    let v = (d * 256 + carry) % 65536 in
    let (rest, out) = mul_add ds (v / 10) in (v % 10 ∷ rest, out)

-- `while carry > 0`; a 16-bit carry has five digits at most.
pub push_carry : ℕ → ℕ → List ℕ
push_carry zero carry = []
push_carry (suc rounds) carry =
    let rest = push_carry rounds (carry / 10) in if nat_eq carry 0 then [] else carry % 10 ∷ rest

pub add_byte : List ℕ → ℕ → List ℕ
unfolding mul_add push_carry
add_byte digits byte = let (ds, carry) = mul_add digits byte in ds ++ push_carry 5 carry

pub add_bytes : List ℕ → Bytes → List ℕ
unfolding add_byte
add_bytes digits [] = digits
add_bytes digits (byte ∷ bytes) = add_bytes (add_byte digits byte) bytes

abbrev pub zero_digits : List ℕ
zero_digits = 0 ∷ []

unfoldable pub serial_to_decimal : Bytes → Text
unfolding add_bytes
serial_to_decimal bytes = map (λ d. 48 + d) (reverse (add_bytes zero_digits bytes))

-- The 19 random bytes are an argument: the first, and the 18 that follow it.
unfoldable pub random_serial_number : ℕ → Bytes → Bytes
random_serial_number first more = bit_or (bit_and first 0x7f) 0x40 ∷ more
