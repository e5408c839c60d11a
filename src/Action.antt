-- ===== src/Action.antt =====
-- Fallible code on a mutable state: an action gives its result and the state that it leaves, also
-- where it fails.
use ayane.Base.{◌≡◌, refl, sym, ap, subst, ◌∙◌}
use ayane.Error.{Result, ok, err, Error, ok-injective}

abbrev pub Action : Type 0 → Type 0 → Type 0
Action S A = S → Result A × S

unfoldable pub pure : {S A : Type 0} → A → Action S A
pure a s = (ok a, s)

unfoldable pub fail : {S A : Type 0} → Error → Action S A
fail e s = (err e, s)

-- a result that does not depend on the state
unfoldable pub lift : {S A : Type 0} → Result A → Action S A
lift r s = (r, s)

-- the rest of a block, after its head has given its result and state
unfoldable pub continue : {S A B : Type 0} → Result A × S → (A → Action S B) → Result B × S
continue (ok a, s) f = f a s
continue (err e, s) f = (err e, s)

-- `m?` and the rest of the block
infixl 5 ◌>>=◌ ◌>>◌
unfoldable pub ◌>>=◌ : {S A B : Type 0} → Action S A → (A → Action S B) → Action S B
unfolding continue
(m >>= f) s = continue (m s) f

abbrev pub ◌>>◌ : {S A B : Type 0} → Action S A → Action S B → Action S B
m >> k = m >>= λ _. k

-- An action keeps a property of the state, whether it succeeds or fails.
pub record Keeps {S A : Type 0} (P : S → Type 0) (m : Action S A) : Type 0 where
  pub after : (s : S) → P s → P (m s).1

module _ {S A : Type 0} {P : S → Type 0} where
  pub Keeps-pure : (a : A) → Keeps P (pure a)
  unfolding pure
  Keeps-pure a = record { after = λ s p. p }

  pub Keeps-fail : (e : Error) → Keeps {A = A} P (fail e)
  unfolding fail
  Keeps-fail e = record { after = λ s p. p }

  pub Keeps-lift : (r : Result A) → Keeps P (lift r)
  unfolding lift
  Keeps-lift r = record { after = λ s p. p }

module _ {S A B : Type 0} {P : S → Type 0} where
  pub Keeps-bind :
      (m : Action S A) (f : A → Action S B)
      → Keeps P m
      → ((a : A) → Keeps P (f a))
      → Keeps P (m >>= f)
  unfolding ◌>>=◌ continue
  Keeps-bind m f h k = record { after = λ s p. go (m s) (h.after s p) }
    where
      go : (o : Result A × S) → P o.1 → P (continue o f).1
      go (ok a, s) r = (k a).after s r
      go (err e, s) r = r

module _ {S A B : Type 0} where
  pub Keeps-lift-bind :
      {P : S → Type 0} (r : Result A) (f : A → Action S B)
      → ((a : A) → r ≡ ok a → Keeps P (f a))
      → Keeps P (lift r >>= f)
  unfolding ◌>>=◌ continue lift
  Keeps-lift-bind (ok a) f h = record { after = λ s p. (h a refl).after s p }
  Keeps-lift-bind (err e) f h = record { after = λ s p. p }

  pub lift-eq-ok :
      (r : Result A) (f : A → Action S B) (s : S) {b : B}
      → ((lift r >>= f) s).0 ≡ ok b
      → (a : A) × (r ≡ ok a) × ((lift r >>= f) s ≡ f a s)
  unfolding ◌>>=◌ continue lift
  lift-eq-ok (ok a) f s h = (a, refl, refl)
  lift-eq-ok (err e) f s h = cc

  -- A successful block has a successful head.
  pub >>=-eq-ok :
      (m : Action S A) (f : A → Action S B) (s : S) {b : B}
      → ((m >>= f) s).0 ≡ ok b
      → (a : A) × ((m s).0 ≡ ok a) × ((m >>= f) s ≡ f a (m s).1)
  unfolding ◌>>=◌ continue
  >>=-eq-ok m f s h = go (m s) h
    where
      go :
          (o : Result A × S) {b : B}
          → (continue o f).0 ≡ ok b
          → (a : A) × (o.0 ≡ ok a) × (continue o f ≡ f a o.1)
      go (ok a, s) h = (a, refl, refl)
      go (err e, s) h = cc

  -- A block whose head succeeds goes on with the value, and one whose head fails is over.
  pub >>=-ok :
      (m : Action S A) (f : A → Action S B) (s : S) {a : A}
      → (m s).0 ≡ ok a
      → (m >>= f) s ≡ f a (m s).1
  unfolding ◌>>=◌ continue
  >>=-ok m f s h = go (m s) h
    where
      go : (o : Result A × S) {a : A} → o.0 ≡ ok a → continue o f ≡ f a o.1
      go (ok b, s) h = rw (ok-injective h) refl
      go (err e, s) h = cc

  pub >>=-err :
      (m : Action S A) (f : A → Action S B) (s : S) {e : Error}
      → (m s).0 ≡ err e
      → ((m >>= f) s).0 ≡ err e
  unfolding ◌>>=◌ continue
  >>=-err m f s h = go (m s) h
    where
      go : (o : Result A × S) {e : Error} → o.0 ≡ err e → (continue o f).0 ≡ err e
      go (ok b, s) h = cc
      go (err x, s) h = cc

-- What holds of the value that an action returns from a state, and of the state it leaves then.
pub record Yields {S A : Type 0} (P : A → S → Type 0) (m : Action S A) (s : S) : Type 0 where
  pub at : (a : A) → (m s).0 ≡ ok a → P a (m s).1

module _ {S A B : Type 0} {P : B → S → Type 0} where
  pub Yields-bind :
      (m : Action S A) (f : A → Action S B) (s : S)
      → ((a : A) → (m s).0 ≡ ok a → Yields P (f a) (m s).1)
      → Yields P (m >>= f) s
  Yields-bind m f s k = record {
    at = λ b h.
        let (a, ha, e) = >>=-eq-ok m f s h in
        subst (λ o. P b o.1) (sym e) ((k a ha).at b (sym (ap (λ o. o.0) e) ∙ h));
  }

  pub Yields-lift-bind :
      (r : Result A) (f : A → Action S B) (s : S)
      → ((a : A) → r ≡ ok a → Yields P (f a) s)
      → Yields P (lift r >>= f) s
  Yields-lift-bind r f s k = record {
    at = λ b h.
        let (a, ha, e) = lift-eq-ok r f s h in
        subst (λ o. P b o.1) (sym e) ((k a ha).at b (sym (ap (λ o. o.0) e) ∙ h));
  }

module _ {S A : Type 0} {P : A → S → Type 0} where
  pub Yields-pure : (a : A) (s : S) → P a s → Yields P (pure a) s
  unfolding pure
  Yields-pure a s p = record { at = λ b h. subst (λ x. P x s) (ok-injective h) p }

  pub Yields-fail : (e : Error) (s : S) → Yields P (fail e) s
  unfolding fail
  Yields-fail e s = record { at = λ b h. cc }

module _ {S A B : Type 0} {P : S → Type 0} where
  -- The rest of a block keeps a property where the value is as the head yields it.
  pub Keeps-bind_given :
      (Q : A → Type 0) (m : Action S A) (f : A → Action S B)
      → Keeps P m
      → ((s : S) → Yields (λ a s'. Q a) m s)
      → ((a : A) → Q a → Keeps P (f a))
      → Keeps P (m >>= f)
  unfolding ◌>>=◌ continue
  Keeps-bind_given Q m f h y k = record { after = λ s p. go (m s) (h.after s p) (y s).at }
    where
      go : (o : Result A × S) → P o.1 → ((a : A) → o.0 ≡ ok a → Q a) → P (continue o f).1
      go (ok a, s) r q = (k a (q a refl)).after s r
      go (err e, s) r q = r
