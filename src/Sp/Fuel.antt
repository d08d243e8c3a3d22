-- ===== src/Sp/Fuel.antt =====
-- The receive loop of sp.rs ends with its outputs: as many turns as there are outputs are enough.
use computermoney.Prelude.{
  ℕ, zero, suc, ◌≤◌, Text, text_eq, length, some, List, [], ◌∷◌, ◌≡◌, refl, arith, Option-cases,
  Bool-cases, inl, inr, add_u32,
}
use computermoney.Result.{try_then}
use computermoney.Result.Success.{Result-cases}
use computermoney.Matching.{SpFound}
use computermoney.Sp.{Curve, Output, output_at, take_output, receive_from}

length-take_output :
    (x : Text) (outs : List Output) (o : Output) (others : List Output)
    → take_output x outs ≡ some (o, others)
    → length outs ≡ suc (length others)
unfolding take_output
length-take_output x [] o others h = absurd (cc)
length-take_output x ((vout, (key, sats)) ∷ outs) o others h = elim (Bool-cases (text_eq key x)) [
  | inl hit ↦ ground arith
  | inr miss ↦ elim (Option-cases (take_output x outs)) [
    | inl none_left ↦ absurd (ground arith)
    | inr (t, taken) ↦ ground (arith, length-take_output x outs t.0 t.1 taken)
  ]
]

module _ ⦃c : Curve⦄ where
  -- Beyond the number of outputs, more fuel changes nothing.
  pub receive_from_enough :
      (n : ℕ) (ecdh spend : Text) (k : ℕ) (outs : List Output) (found : List SpFound)
      → length outs ≤ n
      → receive_from (suc n) ecdh spend k outs found ≡ receive_from n ecdh spend k outs found
  unfolding receive_from
  receive_from_enough n ecdh spend k [] found h = refl
  receive_from_enough zero ecdh spend k (o ∷ outs) found h = absurd (omega arith)
  receive_from_enough (suc n) ecdh spend k (o ∷ outs) found h =
      elim (Result-cases (output_at ecdh spend k)) [
        | inr (e, failed) ↦ rw (failed, receive_from) refl
        | inl (at_k, at) ↦
            rw (at, receive_from)
              (elim (Option-cases (take_output at_k.0 (o ∷ outs))) [
                | inl none_left ↦ rw (none_left, try_then) refl
                | inr (t, taken) ↦
                    rw (taken, try_then)
                      (receive_from_enough n ecdh spend (add_u32 k 1) t.1 _
                        (omega (arith, length-take_output at_k.0 (o ∷ outs) t.0 t.1 taken, h)))
              ])
      ]
