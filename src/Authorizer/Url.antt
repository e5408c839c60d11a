-- ===== src/Authorizer/Url.antt =====
-- ayane/src/authorizer/jwks.rs: the texts that it reads, a URL and a Cache-Control header.
use ayane.Base.{
  ℕ, ◌+◌, ◌*◌, ◌-◌, min, max, Bool, true, false, ◌&&◌, ◌||◌, Option, none, some, List, [], ◌∷◌, leb,
  nat_eq, if◌then◌else◌, any,
}
use ayane.Ca.Serial.{Text}
use ayane.Service.Revoke.{trim}
use ayane.Time.{Duration, from_secs}

unfoldable pub strip_prefix : Text → Text → Option Text
strip_prefix [] text = some text
strip_prefix (p ∷ prefix) [] = none
strip_prefix (p ∷ prefix) (c ∷ text) =
    let rest = strip_prefix prefix text in if nat_eq p c then rest else none

-- empty, or begins with ':' or '/'
unfoldable pub ends_host : Text → Bool
ends_host [] = true
ends_host (c ∷ rest) = nat_eq c 58 || nat_eq c 47

abbrev pub is_host : Text → Text → Bool
is_host url prefix = elim (strip_prefix prefix url) [ none ↦ false | some rest ↦ ends_host rest ]

abbrev pub https : Text
https = 104 ∷ 116 ∷ 116 ∷ 112 ∷ 115 ∷ 58 ∷ 47 ∷ 47 ∷ []

-- "http://127.0.0.1", "http://localhost", "http://[::1]"
abbrev pub loopbacks : List Text
loopbacks =
    (104 ∷ 116 ∷ 116 ∷ 112 ∷ 58 ∷ 47 ∷ 47 ∷ 49 ∷ 50 ∷ 55 ∷ 46 ∷ 48 ∷ 46 ∷ 48 ∷ 46 ∷ 49 ∷ [])
    ∷ (104 ∷ 116 ∷ 116 ∷ 112 ∷ 58 ∷ 47 ∷ 47 ∷ 108 ∷ 111 ∷ 99 ∷ 97 ∷ 108 ∷ 104 ∷ 111 ∷ 115 ∷ 116
        ∷ [])
    ∷ (104 ∷ 116 ∷ 116 ∷ 112 ∷ 58 ∷ 47 ∷ 47 ∷ 91 ∷ 58 ∷ 58 ∷ 49 ∷ 93 ∷ [])
    ∷ []

unfoldable pub is_secure_url : Text → Bool
is_secure_url url = elim (strip_prefix https url) [
  | some rest ↦ true
  | none ↦ any (is_host url) loopbacks
]

-- `split(',')`
unfoldable pub split_commas : Text → List Text
split_commas [] = [] ∷ []
split_commas (c ∷ text) =
    let rest = split_commas text in
    if nat_eq c 44
    then [] ∷ rest
    else elim rest [ [] ↦ (c ∷ []) ∷ [] | part ∷ parts ↦ (c ∷ part) ∷ parts ]

-- digits after `acc`, in 64 bits
unfoldable pub digits_u64 : ℕ → Text → Option ℕ
digits_u64 acc [] = some acc
digits_u64 acc (c ∷ text) =
    let rest = digits_u64 (acc * 10 + (c - 48)) text in
    if leb 48 c && leb c 57 && leb (acc * 10 + (c - 48)) 18_446_744_073_709_551_615
    then rest
    else none

-- `parse::<u64>`, which takes a sign `+`
unfoldable pub parse_u64 : Text → Option ℕ
parse_u64 [] = none
parse_u64 (c ∷ []) = digits_u64 0 (c ∷ [])
parse_u64 (c ∷ d ∷ text) =
    if nat_eq c 43 then digits_u64 0 (d ∷ text) else digits_u64 0 (c ∷ d ∷ text)

abbrev pub default_ttl : Duration
default_ttl = from_secs 3_600

abbrev min_ttl : Duration
min_ttl = from_secs 300

abbrev max_ttl : Duration
max_ttl = from_secs 86_400

-- "max-age="
abbrev pub max_age : Text
max_age = 109 ∷ 97 ∷ 120 ∷ 45 ∷ 97 ∷ 103 ∷ 101 ∷ 61 ∷ []

unfoldable pub directive_secs : Text → Option ℕ
unfolding strip_prefix parse_u64
directive_secs directive = elim (strip_prefix max_age (trim directive)) [
  | none ↦ none
  | some seconds ↦ parse_u64 seconds
]

unfoldable pub first_ttl : List Text → Duration
first_ttl [] = default_ttl
first_ttl (directive ∷ directives) = elim (directive_secs directive) [
  | some seconds ↦ min (max (from_secs seconds) min_ttl) max_ttl
  | none ↦ first_ttl directives
]

-- a header that is no text is missing
unfoldable pub cache_control_ttl : Option Text → Duration
cache_control_ttl none = default_ttl
cache_control_ttl (some value) = first_ttl (split_commas value)
