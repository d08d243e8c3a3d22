-- ===== src/Result/Success.antt =====
-- What a method that returned `Ok` went through.
use computermoney.Prelude.{◌≡◌, refl, ◌⊎◌, inl, inr}
use computermoney.Result.{Error, Result, ok, err, Exec, continue, ◌>>=◌, try_then}

module _ {S A B : Type 0} where
  continue-eq-ok :
      (r : Result A) (f : A → Exec S B) (s : S) {b : B}
      → (continue r f s).0 ≡ ok b
      → (a : A) × (r ≡ ok a) × ((f a s).0 ≡ ok b) × ((continue r f s).1 ≡ (f a s).1)
  continue-eq-ok (ok a) f s h = (a, refl, h, refl)
  continue-eq-ok (err e) f s h = absurd (cc)

  continue_cases :
      (P : S → Type 0) (r : Result A) (f : A → Exec S B) (s : S)
      → ((a : A) → r ≡ ok a → P (f a s).1)
      → ((e : Error) → r ≡ err e → P s)
      → P (continue r f s).1
  continue_cases P (ok a) f s k l = k a refl
  continue_cases P (err e) f s k l = l e refl

  -- After both parts the state is what the second leaves, or what the first left with its error.
  pub bind_cases :
      (P : S → Type 0) (m : Exec S A) (f : A → Exec S B) (s : S)
      → ((a : A) → (m s).0 ≡ ok a → P (f a (m s).1).1)
      → ((e : Error) → (m s).0 ≡ err e → P (m s).1)
      → P ((m >>= f) s).1
  bind_cases P m f s k l = continue_cases P (m s).0 f (m s).1 k l

  -- Both parts returned `Ok`, the second from the state that the first left.
  pub bind-eq-ok :
      (m : Exec S A) (f : A → Exec S B) (s : S) {b : B}
      → ((m >>= f) s).0 ≡ ok b
      → (a : A) × ((m s).0 ≡ ok a) × ((f a (m s).1).0 ≡ ok b) × (((m >>= f) s).1 ≡ (f a (m s).1).1)
  bind-eq-ok m f s h = continue-eq-ok (m s).0 f (m s).1 h

pub try_then-eq-ok :
    {A B : Type 0} (r : Result A) (f : A → Result B) {b : B}
    → try_then r f ≡ ok b
    → (a : A) × (r ≡ ok a) × (f a ≡ ok b)
try_then-eq-ok (ok a) f h = (a, refl, h)
try_then-eq-ok (err e) f h = absurd (cc)

module _ {A : Type 0} where
  pub ok_inj : (a b : A) → ok a ≡ ok b → a ≡ b
  ok_inj a b e = cc

  pub ok_ne_err : (x : Error) (a : A) → ¬ (err x ≡ ok a)
  ok_ne_err x a e = cc

pub Result-cases :
    {A : Type 0} (r : Result A) → ((a : A) × (r ≡ ok a)) ⊎ ((e : Error) × (r ≡ err e))
Result-cases (ok a) = inl (a, refl)
Result-cases (err e) = inr (e, refl)
