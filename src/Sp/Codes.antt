-- ===== src/Sp/Codes.antt =====
-- sp.rs: the codes that name a payee, the address of a one-time key, and the keys that spend one.
-- bech32m, the parse of a point and the parity of a key are parameters.
pub mod Networks
use computermoney.Prelude.{
  ℕ, ◌+◌, Text, codes, text_eq, trim, length, take, drop, Bool, Option, none, some, List, ◌++◌,
  ◌==◌, if◌then◌else◌,
}
use computermoney.Policy.{Network, bitcoin, signet, is_mainnet}
use computermoney.Result.{other, Result, ok, err, try_then}
use computermoney.Build.{SpInput}
use computermoney.Matching.{ScanHost}
use computermoney.Sp.{Curve, send_key}

-- The characters of a prefix, a version and bytes; of a text whose checksum holds, the prefix in small
-- letters, and, if there are any, the first element and the bytes of the others. Compressed points.
-- The parity of a secret's point, the negation, and the Taproot address of a key as it is.
pub record Encoding : Type 0 where
  pub chars : Text → ℕ → Text → Text
  pub checked : Text → Option (Text × Option (ℕ × Text))
  pub from_slice : Text → Result Text
  pub is_odd : Text → Bool
  pub negate : Text → Text
  pub p2tr_tweaked : Text → Bool → Text

unfoldable pub hrp_str : Network → Text
unfolding is_mainnet
hrp_str network = if is_mainnet network then codes "sp" else codes "tsp"

-- `KnownHrp::Mainnet`, or that of all testnets.
unfoldable pub known_hrp : Network → Bool
unfolding is_mainnet
known_hrp network = is_mainnet network

unfoldable pub network_of_hrp : Text → Result Network
network_of_hrp hrp =
    if text_eq hrp (codes "sp")
    then ok bitcoin
    else if text_eq hrp (codes "tsp")
    then ok signet
    else err (other (codes "unknown sp hrp"))

-- The payload behind its version.
unfoldable pub payload_of : Option (ℕ × Text) → Result Text
payload_of none = err (other (codes "empty sp payload"))
payload_of (some (version, bytes)) =
    if version == 0
    then (if length bytes == 66 then ok bytes else err (other (codes "sp payload is not 66 bytes")))
    else err (other (codes "unsupported sp version"))

module _ ⦃c : Curve⦄ ⦃e : Encoding⦄ where
  unfoldable pub encode : Text → Text → Network → Text
  unfolding hrp_str
  encode scan spend network = e.chars (hrp_str network) 0 (c.serialize scan ++ c.serialize spend)

  unfoldable pub points_of : Text → Network → Result (Text × (Text × Network))
  points_of bytes network =
      try_then (e.from_slice (take 33 bytes))
        λ scan. try_then (e.from_slice (drop 33 bytes)) λ spend. ok (scan, (spend, network))

  unfoldable pub decode : Text → Result (Text × (Text × Network))
  decode code = elim (e.checked (trim code)) [
    | none ↦ err (other (codes "bad bech32m"))
    | some (hrp, payload) ↦
        try_then (network_of_hrp hrp)
          λ network. try_then (payload_of payload) λ bytes. points_of bytes network
  ]

  -- BIP-352 wants the secret whose point has even parity.
  unfoldable pub taproot_input_key : Text → Text
  taproot_input_key sk = if e.is_odd (c.public_key sk) then e.negate sk else sk

  unfoldable pub spend_keypair : Text → Text → Result Text
  spend_keypair spend_sk tweak = try_then (c.scalar tweak) λ t. c.add_tweak spend_sk t

  unfoldable pub send_address : ⦃s : ScanHost⦄ → List SpInput → Text → Text → Network → Result Text
  send_address inputs scan spend network =
      try_then (send_key inputs scan spend) λ x. ok (e.p2tr_tweaked x (known_hrp network))
