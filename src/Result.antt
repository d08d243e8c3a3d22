-- ===== src/Result.antt =====
-- Rust's `Result` with the errors that the program tells apart, and methods that mutate: what a
-- method wrote before `?` returned an error stays written, so the state comes back beside it.
pub mod Preserves
pub mod Still
pub mod Success
use computermoney.Prelude.{ℕ, Text}
use computermoney.Policy.{PolicyError, Verdict, pass, refuse}

-- `io` is `std::io::Error`, `invalid_data` a line that does not parse, `bad_signature` a line whose
-- signature fails at a sequence number, `refused` a `PolicyError`, `network` a failed request, and
-- `other` an error that only has a message. `panicked` stands for a panic, which no `match` on an
-- error catches.
pub data Error : Type 0 where
  io invalid_data panicked : Error
  bad_signature : ℕ → Error
  refused : PolicyError → Error
  network : Text → Error
  other : Text → Error

pub data Result {ℓ} (A : Type ℓ) : Type ℓ where
  ok : A → Result A
  err : Error → Result A

-- `?` where nothing mutates.
abbrev pub try_then {ℓ} : {A B : Type ℓ} → Result A → (A → Result B) → Result B
try_then (ok a) f = f a
try_then (err e) f = err e

abbrev pub Exec : Type 0 → Type 0 → Type 0
Exec S A = S → Result A × S

module _ {S A : Type 0} where
  abbrev pub pure : A → Exec S A
  pure a s = (ok a, s)

  abbrev pub raise : Error → Exec S A
  raise e s = (err e, s)

  abbrev pub lift : Result A → Exec S A
  lift r s = (r, s)

  abbrev pub gets : (S → A) → Exec S A
  gets f s = (ok (f s), s)

  -- A `match` on a result: its error is a value here.
  unfoldable pub attempt : Exec S A → Exec S (Result A)
  attempt m s = (ok (m s).0, (m s).1)

module _ {S : Type 0} where
  abbrev pub modify : (S → S) → Exec S (Unit {0})
  modify f s = (ok tt, f s)

  -- `?` on a gate of policy.rs.
  abbrev pub gate : Verdict → Exec S (Unit {0})
  gate pass s = (ok tt, s)
  gate (refuse e) s = (err (refused e), s)

module _ {S A B : Type 0} where
  abbrev pub continue : Result A → (A → Exec S B) → Exec S B
  continue (ok a) f s = f a s
  continue (err e) f s = (err e, s)

  infixl 5 ◌>>=◌ ◌>>◌
  abbrev pub ◌>>=◌ : Exec S A → (A → Exec S B) → Exec S B
  ◌>>=◌ m f s = continue (m s).0 f (m s).1

  abbrev pub ◌>>◌ : Exec S A → Exec S B → Exec S B
  m >> k = m >>= λ _. k
