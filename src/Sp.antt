-- ===== src/Sp.antt =====
-- sp.rs: BIP-352, the sender's one-time key and the receiver's check. The curve and SHA-256 are
-- parameters; keys, points and scalars stand as text.
pub mod Agreement
pub mod Fuel
pub mod Codes
use computermoney.Prelude.{
  ℕ, zero, suc, ◌+◌, Text, codes, text_eq, length, Option, none, some, List, [], ◌∷◌, ◌++◌, map,
  add_u32, if◌then◌else◌,
}
use computermoney.Result.{other, Result, ok, err, try_then}
use computermoney.Protocol.{be_bytes}
use computermoney.Build.{OutPoint, SpInput}
use computermoney.Matching.{ScanHost, SpFound, smallest_outpoint}

-- secp256k1: a secret plus or times a scalar, a point times a scalar, the sum of points; the bytes of
-- a hash as a scalar or a secret.
pub record Curve : Type 0 where
  pub public_key : Text → Text
  pub add_tweak : Text → Text → Result Text
  pub mul_secret : Text → Text → Result Text
  pub mul_point : Text → Text → Result Text
  pub combine : Text → Text → Result Text
  pub x_only : Text → Text
  pub serialize : Text → Text
  pub scalar : Text → Result Text
  pub secret_from_slice : Text → Result Text
  pub sha256 : Text → Text

abbrev pub no_inputs : {A : Type 0} → Result A
no_inputs = err (other (codes "silent payment needs at least one input"))

-- An output of a transaction: position, key and value.
abbrev pub Output : Type 0
Output = ℕ × (Text × ℕ)

-- The first output with that key, and the others.
unfoldable pub take_output : Text → List Output → Option (Output × List Output)
take_output x [] = none
take_output x ((vout, (key, sats)) ∷ outs) =
    let rest = take_output x outs in
    if text_eq key x
    then some ((vout, (key, sats)), outs)
    else elim rest [ none ↦ none | some (o, others) ↦ some (o, (vout, (key, sats)) ∷ others) ]

module _ ⦃c : Curve⦄ where
  unfoldable pub tagged_hash : Text → Text → Text
  tagged_hash tag msg = c.sha256 (c.sha256 tag ++ (c.sha256 tag ++ msg))

  -- The output's key at an index, and its tweak.
  unfoldable pub output_at : Text → Text → ℕ → Result (Text × Text)
  output_at ecdh spend k =
      let t_k = tagged_hash (codes "BIP0352/SharedSecret") (c.serialize ecdh ++ be_bytes k []) in
      try_then (c.secret_from_slice t_k)
        λ t_sk. try_then (c.combine spend (c.public_key t_sk)) λ p_k. ok (c.x_only p_k, t_k)

  -- The sum of the inputs' secret keys, and of their public keys.
  unfoldable pub sum_secrets : Text → List Text → Result Text
  sum_secrets a [] = ok a
  sum_secrets a (k ∷ ks) =
      try_then (c.scalar k) λ s. try_then (c.add_tweak a s) λ b. sum_secrets b ks

  unfoldable pub sum_points : Text → List Text → Result Text
  sum_points a [] = ok a
  sum_points a (k ∷ ks) = try_then (c.combine a k) λ b. sum_points b ks

  -- A secret times a hash, and a point times that.
  unfoldable pub exchange : Text → Text → Text → Result Text
  exchange secret hash point = try_then (c.scalar hash) λ h.
      try_then (c.mul_secret secret h)
        λ partial. try_then (c.scalar partial) λ s. c.mul_point point s

  -- The loop over the outputs that remain; each turn but the last takes one, so that their number
  -- bounds the turns.
  unfoldable pub receive_from :
      ℕ → Text → Text → ℕ → List Output → List SpFound → Result (List SpFound)
  receive_from n ecdh spend k [] found = ok found
  receive_from zero ecdh spend k (o ∷ outs) found = ok found
  receive_from (suc n) ecdh spend k (o ∷ outs) found = try_then (output_at ecdh spend k) λ at_k.
      elim (take_output at_k.0 (o ∷ outs)) [
        | none ↦ ok found
        | some ((vout, (key, sats)), others) ↦
            receive_from n ecdh spend (add_u32 k 1) others
              (found ++ (record { vout = vout; sats = sats; tweak = at_k.1 } ∷ []))
      ]

module _ ⦃c : Curve⦄ ⦃s : ScanHost⦄ where
  unfoldable pub input_hash : OutPoint → Text → Text
  input_hash smallest a_sum =
      tagged_hash (codes "BIP0352/Inputs") (s.serialize_outpoint smallest ++ c.serialize a_sum)

  unfoldable pub with_smallest : Text → Option OutPoint → Result (Text × Text)
  with_smallest a_sum none = no_inputs
  with_smallest a_sum (some o) = ok (a_sum, input_hash o (c.public_key a_sum))

  unfoldable pub sender_context : List SpInput → Result (Text × Text)
  sender_context [] = no_inputs
  sender_context (i ∷ is) =
      try_then (sum_secrets i.1 (map (λ j. j.1) is))
        λ a_sum. with_smallest a_sum (smallest_outpoint (map (λ j. j.0) (i ∷ is)))

  -- The one-time key that `send_address` makes an address of.
  unfoldable pub send_key : List SpInput → Text → Text → Result Text
  send_key inputs scan spend = try_then (sender_context inputs) λ ctx.
      try_then (exchange ctx.0 ctx.1 scan) λ ecdh. try_then (output_at ecdh spend 0) λ o. ok o.0

  unfoldable pub receive_inner :
      List Text → OutPoint → List Output → Text → Text → Result (List SpFound)
  receive_inner [] smallest outputs scan_sk spend = no_inputs
  receive_inner (k ∷ ks) smallest outputs scan_sk spend = try_then (sum_points k ks) λ a_sum.
      try_then (exchange scan_sk (input_hash smallest a_sum) a_sum)
        λ ecdh. receive_from (length outputs) ecdh spend 0 outputs []

  abbrev unwrap_or_default : Result (List SpFound) → List SpFound
  unwrap_or_default (ok found) = found
  unwrap_or_default (err e) = []

  unfoldable pub receive_check : List Text → OutPoint → List Output → Text → Text → List SpFound
  receive_check pubkeys smallest outputs scan_sk spend =
      unwrap_or_default (receive_inner pubkeys smallest outputs scan_sk spend)
