-- ===== src/Error.antt =====
-- ayane/src/error.rs: the error type of the core, and results.
use ayane.Base.{
  ℕ, String, Option, none, some, ◌≡◌, ◌⊎◌, inl, inr, refl, subst, Bool, true, false, if◌then◌else◌,
}

pub data Error : Type 0 where
  config bad_request unauthorized forbidden not_found conflict internal : String → Error

pub data Result {ℓ} (A : Type ℓ) : Type ℓ where
  ok : A → Result A
  err : Error → Result A

-- `e?` and the rest of the block
infixl 5 ◌>>=◌ ◌>>◌
unfoldable pub ◌>>=◌ {ℓ κ} : {A : Type ℓ} {B : Type κ} → Result A → (A → Result B) → Result B
err e >>= rest = err e
ok value >>= rest = rest value

abbrev pub ◌>>◌ {ℓ κ} : {A : Type ℓ} {B : Type κ} → Result A → Result B → Result B
m >> k = m >>= λ _. k

-- `o.ok_or(e)`
abbrev pub ok_or {ℓ} : {A : Type ℓ} → Option A → Error → Result A
ok_or none e = err e
ok_or (some a) e = ok a

-- `if !b { return Err(e) }`
abbrev pub guard : Bool → Error → Result (Unit {0})
guard true e = ok tt
guard false e = err e

-- The HTTP status of an error.
unfoldable pub status : Error → ℕ
status (config d) = 500
status (internal d) = 500
status (bad_request d) = 400
status (unauthorized d) = 401
status (forbidden d) = 403
status (not_found d) = 404
status (conflict d) = 409

-- ayane-protocol/src/problem.rs
pub record ProblemDetails : Type 0 where
  pub kind : String
  pub title : String
  pub status_code : ℕ
  pub detail : Option String
  pub instance_uri : Option String

unfoldable title_detail : Error → String × Option String
title_detail (config d) = ("Internal Server Error", none)
title_detail (internal d) = ("Internal Server Error", none)
title_detail (bad_request d) = ("Bad Request", some d)
title_detail (unauthorized d) = ("Unauthorized", some d)
title_detail (forbidden d) = ("Forbidden", some d)
title_detail (not_found d) = ("Not Found", some d)
title_detail (conflict d) = ("Conflict", some d)

unfoldable pub to_problem : Error → ProblemDetails
unfolding status title_detail
to_problem e =
    let (title, detail) = title_detail e in
    record {
      kind = "about:blank";
      title = title;
      status_code = status e;
      detail = detail;
      instance_uri = none;
    }

-- A successful block has a successful head.
pub >>=-eq-ok {ℓ κ} :
    {A : Type ℓ} {B : Type κ} {out : B} (head : Result A) (rest : A → Result B)
    → (head >>= rest) ≡ ok out
    → (value : A) × (head ≡ ok value) × (rest value ≡ ok out)
unfolding ◌>>=◌
>>=-eq-ok (ok value) rest e = (value, refl, e)
>>=-eq-ok (err e) rest q = cc

-- A block whose head succeeds goes on with the value.
pub >>=-ok {ℓ κ} :
    {A : Type ℓ} {B : Type κ} {m : Result A} (f : A → Result B) {a : A} → m ≡ ok a → (m >>= f) ≡ f a
unfolding ◌>>=◌
>>=-ok f e = rw e refl

pub guard-eq-ok : (b : Bool) (e : Error) {u : Unit {0}} → guard b e ≡ ok u → b ≡ true
guard-eq-ok true e h = refl
guard-eq-ok false e h = cc

pub Result-cases {ℓ} :
    {A : Type ℓ} (r : Result A) → ((a : A) × (r ≡ ok a)) ⊎ ((e : Error) × (r ≡ err e))
Result-cases (ok a) = inl (a, refl)
Result-cases (err e) = inr (e, refl)

pub ok-injective {ℓ} : {A : Type ℓ} {a b : A} → ok a ≡ ok b → a ≡ b
ok-injective e = cc

-- What holds of the value that a block returns.
pub record Ensures {ℓ κ} {A : Type ℓ} (P : A → Type κ) (r : Result A) : Type (ℓ ⊔ κ) where
  pub at : (a : A) → r ≡ ok a → P a

module _ {ℓ ℓ' κ} {A : Type ℓ} {B : Type ℓ'} {P : B → Type κ} where
  pub Ensures-bind :
      (m : Result A) (f : A → Result B)
      → ((a : A) → m ≡ ok a → Ensures P (f a))
      → Ensures P (m >>= f)
  unfolding ◌>>=◌
  Ensures-bind (ok a) f h = h a refl
  Ensures-bind (err e) f h = record { at = λ b q. cc }

module _ {ℓ κ} {A : Type ℓ} {P : A → Type κ} where
  pub Ensures-ok : (a : A) → P a → Ensures P (ok a)
  Ensures-ok a p = record { at = λ b q. subst P (ok-injective q) p }

  pub Ensures-err : (e : Error) → Ensures P (err e)
  Ensures-err e = record { at = λ b q. cc }

  pub Ensures-if :
      (b : Bool) (m n : Result A)
      → (b ≡ true → Ensures P m)
      → (b ≡ false → Ensures P n)
      → Ensures P (if b then m else n)
  Ensures-if true m n h k = h refl
  Ensures-if false m n h k = k refl
