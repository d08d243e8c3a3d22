-- ===== src/Result/Preserves.antt =====
-- Invariants of methods that mutate and may fail, by one rule for each way to build a method.
use computermoney.Prelude.{Bool, true, false, if◌then◌else◌, ◌≡◌, refl}
use computermoney.Result.{Error, Result, ok, err, Exec, pure, raise, lift, gets, continue, ◌>>=◌}

-- However `m` ends, it leaves a state with `P` if it began in one.
pub record Preserves {S A : Type 0} (P : S → Type 0) (m : Exec S A) : Type 0 where
  pub run : (s : S) → P s → P (m s).1

module _ {S A : Type 0} {P : S → Type 0} where
  pub Preserves-pure : (a : A) → Preserves P (pure a)
  Preserves-pure a = record { run = λ s h. h }

  pub Preserves-raise : (e : Error) → Preserves P (raise {A = A} e)
  Preserves-raise e = record { run = λ s h. h }

  pub Preserves-lift : (r : Result A) → Preserves P (lift r)
  Preserves-lift r = record { run = λ s h. h }

  pub Preserves-gets : (f : S → A) → Preserves P (gets f)
  Preserves-gets f = record { run = λ s h. h }

  pub Preserves-if :
      (b : Bool) (m n : Exec S A) → Preserves P m → Preserves P n → Preserves P (if b then m else n)
  Preserves-if true m n km kn = km
  Preserves-if false m n km kn = kn

module _ {S A B : Type 0} {P : S → Type 0} where
  run-continue :
      (r : Result A) (f : A → Exec S B)
      → ((a : A) → Preserves P (f a))
      → (s : S) → P s
      → P (continue r f s).1
  run-continue (ok a) f kf s h = (kf a).run s h
  run-continue (err e) f kf s h = h

  pub Preserves-bind :
      (m : Exec S A) (f : A → Exec S B)
      → Preserves P m
      → ((a : A) → Preserves P (f a))
      → Preserves P (m >>= f)
  Preserves-bind m f km kf = record { run = λ s h. run-continue (m s).0 f kf (m s).1 (km.run s h) }

module _ {S A B : Type 0} where
  state-continue : (r : Result A) (b : B) (s : S) → (continue r (λ _. pure b) s).1 ≡ s
  state-continue (ok a) b s = refl
  state-continue (err e) b s = refl

  -- Returning another value leaves the state.
  pub state-bind_pure : (m : Exec S A) (b : B) (s : S) → ((m >>= λ _. pure b) s).1 ≡ (m s).1
  state-bind_pure m b s = state-continue (m s).0 b (m s).1

pub ruleset preserves_rules =
    (Preserves-pure, Preserves-raise, Preserves-lift, Preserves-gets, Preserves-if, Preserves-bind)
