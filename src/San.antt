-- ===== src/San.antt =====
-- ayane/src/san.rs: subject alternative names. The parser of IP literals and the check that a text
-- is an IA5String are arguments.
pub mod RoundTrip
use text.Mathlib.Text.{find?}
use ayane.Base.{
  ℕ, String, ◌≡◌, Bool, true, false, ◌&&◌, Option, none, some, List, [], ◌∷◌, ◌↔◌, arith, ◌==◌,
  eq_iff, nat_eq, is_some, length, any, if◌then◌else◌, refl, ap,
}
use ayane.Error.{Result, ok, err, bad_request}

abbrev pub Bytes : Type 0
Bytes = List ℕ

-- An address by its octets.
pub data IpAddr : Type 0 where
  v4 v6 : Bytes → IpAddr

pub data San : Type 0 where
  dns : String → San
  ip : IpAddr → San
  email : String → San
  uri : String → San

-- x509_cert's GeneralName; `other` stands for the variants that the code does not read.
pub data GeneralName : Type 0 where
  dns_name rfc822_name uniform_resource_identifier : String → GeneralName
  ip_address : Bytes → GeneralName
  other : GeneralName

unfoldable pub parse : (String → Option IpAddr) → String → San
parse parse_ip s = elim (parse_ip s) [
  | some a ↦ ip a
  | none ↦
      if is_some (find? s "://") then uri s else if is_some (find? s "@") then email s else dns s
]

abbrev pub octets : IpAddr → Bytes
octets (v4 b) = b
octets (v6 b) = b

unfoldable pub to_general_name : (String → Bool) → San → Result GeneralName
to_general_name is_ia5 (dns d) =
    if is_ia5 d then ok (dns_name d) else err (bad_request "invalid DNS SAN")
to_general_name is_ia5 (email m) =
    if is_ia5 m then ok (rfc822_name m) else err (bad_request "invalid email SAN")
to_general_name is_ia5 (uri u) =
    if is_ia5 u then ok (uniform_resource_identifier u) else err (bad_request "invalid URI SAN")
to_general_name is_ia5 (ip a) = ok (ip_address (octets a))

unfoldable pub from_general_name : GeneralName → Option San
from_general_name (dns_name d) = some (dns d)
from_general_name (rfc822_name m) = some (email m)
from_general_name (uniform_resource_identifier u) = some (uri u)
from_general_name (ip_address b) =
    if nat_eq (length b) 4
    then some (ip (v4 b))
    else if nat_eq (length b) 16
    then some (ip (v6 b))
    else none
from_general_name other = none

-- `Display`; the text of an address is an argument.
unfoldable pub to_string : (IpAddr → String) → San → String
to_string show_ip (dns d) = d
to_string show_ip (email m) = m
to_string show_ip (uri u) = u
to_string show_ip (ip a) = show_ip a

-- `==` on `San`
abbrev pub same_bytes : Bytes → Bytes → Bool
same_bytes [] [] = true
same_bytes (x ∷ xs) (y ∷ ys) = nat_eq x y && same_bytes xs ys
same_bytes _ _ = false

abbrev pub same_ip : IpAddr → IpAddr → Bool
same_ip (v4 a) (v4 b) = same_bytes a b
same_ip (v6 a) (v6 b) = same_bytes a b
same_ip _ _ = false

unfoldable pub same_san : San → San → Bool
same_san (dns a) (dns b) = a == b
same_san (email a) (email b) = a == b
same_san (uri a) (uri b) = a == b
same_san (ip a) (ip b) = same_ip a b
same_san _ _ = false

-- `sans.contains(san)`
unfoldable pub contains : List San → San → Bool
unfolding same_san
contains sans san = any (λ s. same_san s san) sans

pub same_bytes→eq : (a b : Bytes) → same_bytes a b ≡ true → a ≡ b
same_bytes→eq [] [] h = refl
same_bytes→eq (x ∷ xs) (y ∷ ys) h = ground (arith, same_bytes→eq xs ys)
same_bytes→eq [] (y ∷ ys) h = cc
same_bytes→eq (x ∷ xs) [] h = cc

pub same_bytes_self : (a : Bytes) → same_bytes a a ≡ true
same_bytes_self [] = refl
same_bytes_self (x ∷ xs) = ground (arith, same_bytes_self xs)

same_ip→eq : (a b : IpAddr) → same_ip a b ≡ true → a ≡ b
same_ip→eq (v4 a) (v4 b) h = ap v4 (same_bytes→eq a b h)
same_ip→eq (v6 a) (v6 b) h = ap v6 (same_bytes→eq a b h)
same_ip→eq (v4 a) (v6 b) h = cc
same_ip→eq (v6 a) (v4 b) h = cc

pub same_san→eq : (a b : San) → same_san a b ≡ true → a ≡ b
unfolding same_san
same_san→eq (dns a) (dns b) h = ap dns ((eq_iff a b).0 h)
same_san→eq (email a) (email b) h = ap email ((eq_iff a b).0 h)
same_san→eq (uri a) (uri b) h = ap uri ((eq_iff a b).0 h)
same_san→eq (ip a) (ip b) h = ap ip (same_ip→eq a b h)
same_san→eq _ _ h = cc
