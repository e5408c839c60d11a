-- ===== src/San/RoundTrip.antt =====
-- Encoding a name into a certificate and reading it back.
use ayane.Base.{String, ◌≡◌, Bool, true, some, arith, length}
use ayane.Error.{ok}
use ayane.San.{San, dns, ip, email, uri, v4, v6, GeneralName, to_general_name, from_general_name}

-- An address has as many octets as its version says.
abbrev pub WellFormed : San → Type 0
WellFormed (ip (v4 b)) = length b ≡ 4
WellFormed (ip (v6 b)) = length b ≡ 16
WellFormed _ = Unit

-- A name that was encoded decodes to itself.
pub from-to_general_name :
    (is_ia5 : String → Bool) (san : San) (gn : GeneralName)
    → WellFormed san
    → to_general_name is_ia5 san ≡ ok gn
    → from_general_name gn ≡ some san
unfolding to_general_name from_general_name
from-to_general_name is_ia5 (dns d) gn w h = ground arith
from-to_general_name is_ia5 (email d) gn w h = ground arith
from-to_general_name is_ia5 (uri d) gn w h = ground arith
from-to_general_name is_ia5 (ip (v4 b)) gn w h = ground arith
from-to_general_name is_ia5 (ip (v6 b)) gn w h = ground arith

-- The text that a name is made of, which has to be an IA5String to be encoded.
abbrev pub Encodable : (String → Bool) → San → Type 0
Encodable is_ia5 (ip a) = Unit
Encodable is_ia5 (dns d) = is_ia5 d ≡ true
Encodable is_ia5 (email d) = is_ia5 d ≡ true
Encodable is_ia5 (uri d) = is_ia5 d ≡ true
