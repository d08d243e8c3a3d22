-- ===== src/Build/Mixed.antt =====
-- chain.rs: payments that spend received silent payment outputs beside the wallet's own.
use computermoney.Prelude.{
  ℕ, ◌+◌, ◌-◌, ◌*◌, Text, codes, text_eq, length, leb, add_u64, Bool, true, false, ◌&&◌, Option,
  none, some, List, [], ◌∷◌, ◌++◌, map, ◌==◌, if◌then◌else◌,
}
use computermoney.Result.{other, Result, ok, err, try_then, Exec, pure, lift, ◌>>=◌, ◌>>◌}
use computermoney.Storage.{Host, network}
use computermoney.Ledger.Balances.{SpUtxo}
use computermoney.Build.{
  OutPoint, Utxo, PsbtInput, SpInput, Bdk, keychain_branch, coin_type, recommended_feerate,
  master_xprv_from_descriptor, taproot_input_secret, mainnet_guard, synced_wallet, finish_capped,
  build_signed,
}
use computermoney.Build.Selection.{select_largest_first}

unfoldable pub hex_digit : ℕ → Option ℕ
hex_digit c =
    if leb b'0' c && leb c b'9'
    then some (c - b'0')
    else if leb b'a' c && leb c b'f'
    then some (c - b'a' + 10)
    else if leb b'A' c && leb c b'F'
    then some (c - b'A' + 10)
    else none

unfoldable pub two_digits : Option ℕ → Option ℕ → Option ℕ
two_digits (some a) (some b) = some (a * 16 + b)
two_digits _ _ = none

-- `u8::from_str_radix` of two characters, which takes a plus sign.
unfoldable pub from_str_radix : ℕ → ℕ → Option ℕ
unfolding hex_digit two_digits
from_str_radix a b = if a == b'+' then hex_digit b else two_digits (hex_digit a) (hex_digit b)

unfoldable pub cons_byte : Option ℕ → Result Text → Result Text
cons_byte none rest = err (other (codes "invalid digit"))
cons_byte (some b) (ok bytes) = ok (b ∷ bytes)
cons_byte (some b) (err e) = err e

unfoldable pub decode_pairs : Text → Result Text
unfolding from_str_radix cons_byte
decode_pairs [] = ok []
decode_pairs (a ∷ []) = ok []
decode_pairs (a ∷ b ∷ cs) = cons_byte (from_str_radix a b) (decode_pairs cs)

unfoldable pub decode_hex32 : Text → Result Text
unfolding decode_pairs
decode_hex32 s =
    if length s == 64 then decode_pairs s else err (other (codes "tweak must be 64 hex chars"))

abbrev pub outpoint_eq : OutPoint → OutPoint → Bool
outpoint_eq (t, v) (t', v') = text_eq t t' && v == v'

-- The first tweak that stands for an outpoint.
unfoldable pub find_tweak : OutPoint → List (OutPoint × Text) → Option Text
find_tweak op [] = none
find_tweak op ((o, tweak) ∷ rest) = if outpoint_eq o op then some tweak else find_tweak op rest

unfoldable pub all_witness_utxo : List PsbtInput → Bool
all_witness_utxo [] = true
all_witness_utxo (i ∷ rest) = i.has_witness_utxo && all_witness_utxo rest

unfoldable pub bdk_signature : Option Text → Result Text
bdk_signature none = err (other (codes "descriptor input was not signed"))
bdk_signature (some sig) = ok sig

module _ ⦃b : Bdk⦄ where
  -- The witness of the input at a position: our own signature for a received output, bdk's else.
  unfoldable pub witness_of : b.Psbt → List (OutPoint × Text) → Text → ℕ → PsbtInput → Result Text
  witness_of psbt sp_by_outpoint spend_sk i input =
      elim (find_tweak input.previous_output sp_by_outpoint) [
        | some tweak ↦ try_then (b.spend_keypair spend_sk tweak) (b.sign_input psbt i)
        | none ↦ bdk_signature input.tap_key_sig
      ]

  unfoldable pub witnesses_from :
      b.Psbt → List (OutPoint × Text) → Text → ℕ → List PsbtInput → Result (List Text)
  witnesses_from psbt sp_by_outpoint spend_sk i [] = ok []
  witnesses_from psbt sp_by_outpoint spend_sk i (input ∷ rest) =
      try_then (witness_of psbt sp_by_outpoint spend_sk i input)
        λ w. try_then (witnesses_from psbt sp_by_outpoint spend_sk (i + 1) rest) λ ws. ok (w ∷ ws)

  unfoldable pub finalize_mixed_psbt : b.Psbt → List (OutPoint × Text) → Text → Result b.Psbt
  finalize_mixed_psbt psbt sp_by_outpoint spend_sk =
      if all_witness_utxo (b.inputs psbt)
      then (try_then (witnesses_from psbt sp_by_outpoint spend_sk 0 (b.inputs psbt))
          λ ws. ok (b.with_witnesses ws psbt))
      else err (other (codes "psbt input missing witness_utxo"))

  module _ {S : Type 0} where
    -- A received output as an input: outpoint, tweak and keypair.
    unfoldable pub sp_input : Text → SpUtxo → Exec S (OutPoint × (Text × Text))
    sp_input spend_sk u = do
      txid ← lift (b.txid_from_str u.txid)
      tweak ← lift (decode_hex32 u.tweak)
      keypair ← lift (b.spend_keypair spend_sk tweak)
      pure ((txid, u.vout), (tweak, keypair))

    -- The received outputs as foreign inputs of the builder, each with its value and script.
    unfoldable pub add_foreign :
        b.Wallet → Text → List SpUtxo → Exec S (List (OutPoint × (ℕ × Text)))
    add_foreign wallet spend_sk [] = pure []
    add_foreign wallet spend_sk (u ∷ us) = do
      (outpoint, (tweak, keypair)) ← sp_input spend_sk u
      lift (b.add_foreign_utxo wallet outpoint)
      rest ← add_foreign wallet spend_sk us
      pure ((outpoint, (u.sats, b.script_of_keypair keypair)) ∷ rest)

    -- `sp_by_outpoint`: the outpoints of the received outputs with their tweaks.
    unfoldable pub tweaks_of : Text → List SpUtxo → Exec S (List (OutPoint × Text))
    tweaks_of spend_sk [] = pure []
    tweaks_of spend_sk (u ∷ us) = do
      (outpoint, (tweak, keypair)) ← sp_input spend_sk u
      rest ← tweaks_of spend_sk us
      pure ((outpoint, tweak) ∷ rest)

    -- The received outputs as inputs of the silent payment's key sum.
    unfoldable pub sp_inputs_of : Text → List SpUtxo → Exec S (List SpInput)
    sp_inputs_of spend_sk [] = pure []
    sp_inputs_of spend_sk (u ∷ us) = do
      (outpoint, (tweak, keypair)) ← sp_input spend_sk u
      rest ← sp_inputs_of spend_sk us
      pure ((outpoint, b.taproot_input_key keypair) ∷ rest)

    unfoldable pub add_own : b.Wallet → List Utxo → Exec S (List OutPoint)
    add_own wallet [] = pure []
    add_own wallet (u ∷ us) = do
      lift (b.add_utxo wallet u.outpoint)
      rest ← add_own wallet us
      pure (u.outpoint ∷ rest)

    -- Signed by bdk, then finished by hand.
    unfoldable pub sign_mixed : b.Wallet → b.Psbt → List (OutPoint × Text) → Text → Exec S Text
    sign_mixed wallet psbt sp_by_outpoint spend_sk = do
      (signed, finalized) ←
          lift (b.sign wallet (record { try_finalize = false; trust_witness_utxo = true }) psbt)
      done ← lift (finalize_mixed_psbt signed sp_by_outpoint spend_sk)
      lift (b.extract_tx done)

abbrev pub sp_total : List SpUtxo → ℕ → ℕ
sp_total [] acc = acc
sp_total (u ∷ us) acc = sp_total us (add_u64 acc u.sats)

abbrev pub selection : Option (List Utxo) → Result (List Utxo)
selection none = err (other (codes "insufficient funds for silent payment"))
selection (some us) = ok us

module _ ⦃h : Host⦄ ⦃b : Bdk⦄ {S : Type 0} where
  -- The wallet's own chosen outputs as inputs of the key sum.
  unfoldable pub own_inputs_of : Text → List Utxo → Exec S (List SpInput)
  own_inputs_of master [] = pure []
  own_inputs_of master (u ∷ us) = do
    key ← lift (taproot_input_secret master coin_type (keychain_branch u.keychain) u.index)
    rest ← own_inputs_of master us
    pure ((u.outpoint, key) ∷ rest)

  -- `(scan, spend)` are the receiver's keys.
  unfoldable pub build_signed_to_sp :
      Text
      → Text
      → Text
      → Text
      → ℕ
      → Option ℕ
      → List SpUtxo
      → Text
      → Exec S (Text × (ℕ × (Text × List OutPoint)))
  build_signed_to_sp ext int scan spend sats max_fee_sats sp_utxos spend_sk = do
    mainnet_guard
    wallet ← synced_wallet ext int
    feerate ← lift recommended_feerate
    sp_by_outpoint ← tweaks_of spend_sk sp_utxos
    sp_inputs ← sp_inputs_of spend_sk sp_utxos
    selected ← lift (
        selection (
          select_largest_first (b.list_unspent wallet) sats feerate (sp_total sp_utxos 0)
            (length sp_utxos)))
    master ← lift (master_xprv_from_descriptor ext)
    own_inputs ← own_inputs_of master selected
    recipient ← lift (b.send_address (sp_inputs ++ own_inputs) scan spend network)
    utxos ← add_own wallet selected
    foreign ← add_foreign wallet spend_sk sp_utxos
    (psbt, fee) ←
        finish_capped wallet
          (record {
            manually_selected_only = true;
            feerate = feerate;
            recipients = (recipient, sats) ∷ [];
            utxos = utxos;
            foreign = foreign;
          })
          max_fee_sats
    tx ← sign_mixed wallet psbt sp_by_outpoint spend_sk
    pure (tx, (fee, (recipient, map (λ s. s.0) sp_by_outpoint)))

  -- Where there are received outputs. A loop of the source that fills two lists is two here, which
  -- make the same calls.
  unfoldable pub build_with_sp :
      Text → Text → Text → ℕ → Option ℕ → List SpUtxo → Text → Exec S (Text × (ℕ × List OutPoint))
  build_with_sp ext int to_addr sats max_fee_sats sp_utxos spend_sk = do
    mainnet_guard
    wallet ← synced_wallet ext int
    recipient ← lift (b.script_of network to_addr)
    feerate ← lift recommended_feerate
    foreign ← add_foreign wallet spend_sk sp_utxos
    sp_by_outpoint ← tweaks_of spend_sk sp_utxos
    (psbt, fee) ←
        finish_capped wallet
          (record {
            manually_selected_only = false;
            feerate = feerate;
            recipients = (recipient, sats) ∷ [];
            utxos = [];
            foreign = foreign;
          })
          max_fee_sats
    tx ← sign_mixed wallet psbt sp_by_outpoint spend_sk
    pure (tx, (fee, map (λ s. s.0) sp_by_outpoint))

  unfoldable pub build_signed_spending_sp :
      Text → Text → Text → ℕ → Option ℕ → List SpUtxo → Text → Exec S (Text × (ℕ × List OutPoint))
  build_signed_spending_sp ext int to_addr sats max_fee_sats [] spend_sk = do
    (tx, fee) ← build_signed ext int to_addr sats max_fee_sats
    pure (tx, (fee, []))
  build_signed_spending_sp ext int to_addr sats max_fee_sats (u ∷ us) spend_sk =
      build_with_sp ext int to_addr sats max_fee_sats (u ∷ us) spend_sk
