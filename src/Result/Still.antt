-- ===== src/Result/Still.antt =====
-- Methods that leave the state as it is, however they end.
use computermoney.Prelude.{Bool, true, false, if◌then◌else◌, ◌≡◌, refl, ◌∙◌, subst⁻¹}
use computermoney.Result.{Error, Result, ok, err, Exec, pure, raise, lift, gate, continue, ◌>>=◌}
use computermoney.Policy.{Verdict, pass, refuse}

pub record Still {S A : Type 0} (m : Exec S A) : Type 0 where
  pub run : (s : S) → (m s).1 ≡ s

module _ {S A : Type 0} where
  pub Still-pure : (a : A) → Still {S = S} (pure a)
  Still-pure a = record { run = λ s. refl }

  pub Still-raise : (e : Error) → Still {S = S} (raise {A = A} e)
  Still-raise e = record { run = λ s. refl }

  pub Still-lift : (r : Result A) → Still {S = S} (lift r)
  Still-lift r = record { run = λ s. refl }

  pub Still-if : (b : Bool) (m n : Exec S A) → Still m → Still n → Still (if b then m else n)
  Still-if true m n km kn = km
  Still-if false m n km kn = kn

pub Still-gate : {S : Type 0} (v : Verdict) → Still {S = S} (gate v)
Still-gate pass = record { run = λ s. refl }
Still-gate (refuse e) = record { run = λ s. refl }

module _ {S A B : Type 0} where
  continue-Still :
      (r : Result A) (f : A → Exec S B) → ((a : A) → Still (f a)) → (s : S) → (continue r f s).1 ≡ s
  continue-Still (ok a) f kf s = (kf a).run s
  continue-Still (err e) f kf s = refl

  pub Still-bind :
      (m : Exec S A) (f : A → Exec S B) → Still m → ((a : A) → Still (f a)) → Still (m >>= f)
  Still-bind m f km kf = record { run = λ s. continue-Still (m s).0 f kf (m s).1 ∙ km.run s }

  continue_cases :
      (P : S → Type 0) (r : Result A) (f : A → Exec S B) (s : S)
      → P s
      → ((a : A) → P (f a s).1)
      → P (continue r f s).1
  continue_cases P (ok a) f s h k = k a
  continue_cases P (err e) f s h k = h

  -- What holds at the start, and after the rest from there, holds after both.
  pub after_still :
      (P : S → Type 0) (m : Exec S A) (f : A → Exec S B) (s : S)
      → Still m
      → P s
      → ((a : A) → P (f a s).1)
      → P ((m >>= f) s).1
  after_still P m f s still h k =
      continue_cases P (m s).0 f (m s).1 (subst⁻¹ P (still.run s) h)
        (λ a. subst⁻¹ (λ t. P (f a t).1) (still.run s) (k a))
