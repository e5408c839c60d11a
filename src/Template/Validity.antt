-- ===== src/Template/Validity.antt =====
-- The validity window of a certificate issued under a template.
use ayane.Base.{min, ◌+◌, ◌≤◌, ◌≡◌, Option, some, arith, unwrap_or}
use ayane.Error.{ok}
use ayane.Time.{SystemTime, checked_sub}
use ayane.Template.{CertificateTemplate, compute_validity}

-- The start of the window: the requested or present instant, less the backdate.
abbrev pub start_of : CertificateTemplate → SystemTime → Option SystemTime → SystemTime
start_of t now requested =
    unwrap_or (checked_sub (unwrap_or requested now) t.backdate) (unwrap_or requested now)

-- A granted window starts at the backdated start, and lasts at most the maximum and the backdate
-- together; it lasts at least the minimum, or those two together where they are less than the
-- minimum; and it ends no later than requested.
pub compute_validity_bounds :
    (t : CertificateTemplate) (now : SystemTime) (from to : Option SystemTime) (nb na : SystemTime)
    → compute_validity t now from to ≡ ok (nb, na)
    → (nb ≡ start_of t now from)
      × (nb + min t.min_validity (t.max_validity + t.backdate) ≤ na)
      × (na ≤ nb + (t.max_validity + t.backdate))
      × ((wanted : SystemTime) → to ≡ some wanted → na ≤ wanted)
unfolding compute_validity
compute_validity_bounds t now from to nb na h =
    (ground arith, ground arith, ground arith, λ wanted e. ground arith)
