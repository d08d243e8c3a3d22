-- ===== src/Build.antt =====
-- chain.rs: building and signing a payment. bdk's wallet and builder, secp256k1 and the silent
-- payment cryptography of sp.rs are parameters; the steps, their order and their guards are here.
pub mod Selection
pub mod Balance
pub mod Mixed
pub mod Guards
pub mod Still
use computermoney.Prelude.{
  ℕ, Text, codes, starts_with, drop, Bool, true, false, Option, none, some, List, [], ◌∷◌, ltb,
  ◌==◌, if◌then◌else◌, arith,
}
use computermoney.Policy.{Network, bitcoin, Policy, is_mainnet, ensure_mainnet_capped}
use computermoney.Result.{other, Result, ok, err, Exec, pure, raise, lift, gate, ◌>>=◌, ◌>>◌}
use computermoney.Chain.{clamp_feerate}
use computermoney.Storage.{Host, network}

abbrev pub OutPoint : Type 0
OutPoint = Text × ℕ

pub data KeychainKind : Type 0 where
  external internal : KeychainKind

-- A row of `list_unspent`: outpoint, value, keychain and index.
pub record Utxo : Type 0 where
  pub outpoint : OutPoint
  pub value : ℕ
  pub keychain : KeychainKind
  pub index : ℕ

-- What was asked of bdk's builder before `finish`: a foreign output has a value and a script.
pub record Draft : Type 0 where
  pub manually_selected_only : Bool
  pub feerate : ℕ
  pub recipients : List (Text × ℕ)
  pub utxos : List OutPoint
  pub foreign : List (OutPoint × (ℕ × Text))

pub record SignOptions : Type 0 where
  pub try_finalize : Bool
  pub trust_witness_utxo : Bool

abbrev pub default_options : SignOptions
default_options = record { try_finalize = true; trust_witness_utxo = false }

pub record PsbtInput : Type 0 where
  pub previous_output : OutPoint
  pub has_witness_utxo : Bool
  pub tap_key_sig : Option Text

-- An input of a silent payment: its outpoint and its key.
abbrev pub SpInput : Type 0
SpInput = OutPoint × Text

pub record Bdk : Type 1 where
  -- bdk: a wallet of two descriptors, synced against the server, and its builder
  pub Wallet : Type 0
  pub Psbt : Type 0
  pub create_wallet : Text → Text → Network → Result Wallet
  pub full_scan : Wallet → Result Wallet
  pub balances : Wallet → ℕ × (ℕ × ℕ)
  pub list_unspent : Wallet → List Utxo
  pub add_utxo : Wallet → OutPoint → Result (Unit {0})
  pub add_foreign_utxo : Wallet → OutPoint → Result (Unit {0})
  pub finish : Wallet → Draft → Result Psbt
  pub fee : Psbt → Result ℕ
  pub sign : Wallet → SignOptions → Psbt → Result (Psbt × Bool)
  pub inputs : Psbt → List PsbtInput
  pub with_witnesses : List Text → Psbt → Psbt
  pub extract_tx : Psbt → Result Text
  -- the parse of an address on a network to its script, of a txid, and the server's estimates of
  -- the fee for a number of blocks, rounded up
  pub script_of : Network → Text → Result Text
  pub txid_from_str : Text → Result Text
  pub get_fee_estimates : ℕ → Option ℕ
  -- keys: derivation along a path of numbers and hardenings, with the output tweak and the parity of
  -- sp.rs; the key of a received output; its script; and a signature over an input's hash
  pub xpriv_from_str : Text → Result Text
  pub output_key : Text → List (ℕ × Bool) → Result Text
  pub spend_keypair : Text → Text → Result Text
  pub taproot_input_key : Text → Text
  pub script_of_keypair : Text → Text
  pub sign_input : Psbt → ℕ → Text → Result Text
  pub send_address : List SpInput → Text → Text → Network → Result Text

unfoldable pub or_estimate : Option ℕ → Option ℕ → Option ℕ
or_estimate none o = o
or_estimate (some n) o = some n

unfoldable pub unwrap_or : Option ℕ → ℕ → ℕ
unwrap_or none d = d
unwrap_or (some n) d = n

-- The fee cap, checked before signing.
unfoldable pub fee_gate : {S : Type 0} → Option ℕ → ℕ → Exec S (Unit {0})
fee_gate none fee = pure tt
fee_gate (some cap) fee =
    if ltb cap fee
    then raise (other (codes "fee exceeds policy cap; not broadcasting"))
    else pure tt

unfoldable pub finalized_gate : {S : Type 0} → Bool → Exec S (Unit {0})
finalized_gate true = pure tt
finalized_gate false = raise (other (codes "psbt did not fully sign"))

unfoldable pub until_slash : Text → Text
until_slash [] = []
until_slash (c ∷ cs) = let rest = until_slash cs in if c == b'/' then [] else c ∷ rest

unfoldable pub keychain_branch : KeychainKind → ℕ
keychain_branch external = 0
keychain_branch internal = 1

module _ ⦃h : Host⦄ ⦃b : Bdk⦄ where
  unfoldable pub coin_type : ℕ
  coin_type = if is_mainnet network then 0 else 1

  unfoldable pub recommended_feerate : Result ℕ
  recommended_feerate =
      let est = or_estimate (b.get_fee_estimates 6) (
        or_estimate (b.get_fee_estimates 3)
          (or_estimate (b.get_fee_estimates 2) (b.get_fee_estimates 1))) in
      ok (clamp_feerate (unwrap_or est (if is_mainnet network then 6 else 1)))

  unfoldable pub master_xprv_from_descriptor : Text → Result Text
  master_xprv_from_descriptor desc =
      if starts_with desc (codes "tr(")
      then b.xpriv_from_str (until_slash (drop 3 desc))
      else err (other (codes "descriptor is not a tr() descriptor"))

  unfoldable pub taproot_input_secret : Text → ℕ → ℕ → ℕ → Result Text
  taproot_input_secret master coin branch index =
      b.output_key master
        ((86, true) ∷ (coin, true) ∷ (0, true) ∷ (branch, false) ∷ (index, false) ∷ [])

  module _ {S : Type 0} where
    -- `ensure_mainnet_capped` on the policy that is loaded, ahead of all else.
    unfoldable pub mainnet_guard : Exec S (Unit {0})
    mainnet_guard = do policy ← lift h.load_policy; gate (ensure_mainnet_capped network policy)

    unfoldable pub build_wallet : Text → Text → Exec S b.Wallet
    build_wallet ext int = lift (b.create_wallet ext int network)

    unfoldable pub synced_wallet : Text → Text → Exec S b.Wallet
    synced_wallet ext int = do wallet ← build_wallet ext int; lift (b.full_scan wallet)

    -- `finish`, and the fee under its cap.
    unfoldable pub finish_capped : b.Wallet → Draft → Option ℕ → Exec S (b.Psbt × ℕ)
    finish_capped wallet draft max_fee_sats = do
      psbt ← lift (b.finish wallet draft)
      fee ← lift (b.fee psbt)
      fee_gate max_fee_sats fee
      pure (psbt, fee)

    unfoldable pub build_signed : Text → Text → Text → ℕ → Option ℕ → Exec S (Text × ℕ)
    build_signed ext int to_addr sats max_fee_sats = do
      mainnet_guard
      wallet ← synced_wallet ext int
      recipient ← lift (b.script_of network to_addr)
      feerate ← lift recommended_feerate
      (psbt, fee) ←
          finish_capped wallet
            (record {
              manually_selected_only = false;
              feerate = feerate;
              recipients = (recipient, sats) ∷ [];
              utxos = [];
              foreign = [];
            })
            max_fee_sats
      (signed, finalized) ← lift (b.sign wallet default_options psbt)
      finalized_gate finalized
      tx ← lift (b.extract_tx signed)
      pure (tx, fee)
