-- ===== src/Matching.antt =====
-- scan.rs: which outputs of a transaction pay the wallet. The server's JSON, the keys and the check of
-- sp.rs are parameters.
use mathlib.Core.List.{filter_map}
use computermoney.Prelude.{
  ℕ, ◌+◌, ◌-◌, Text, codes, starts_with, length, take, drop, Bool, true, false, ◌&&◌, ◌||◌, Option,
  none, some, List, [], ◌∷◌, map, leb, ◌==◌, if◌then◌else◌,
}
use computermoney.Result.{Result, ok, try_then}
use computermoney.Storage.{text_leb}
use computermoney.Ledger.Store.{Fault}
use computermoney.Ledger.Folds.{sum_from}
use computermoney.Build.{OutPoint}

pub record Vin : Type 0 where
  pub txid : Text
  pub vout : ℕ
  pub is_coinbase : Bool
  pub prevout : Option Text
  pub witness : List Text

-- An output has a script and a value.
pub record EsploraTx : Type 0 where
  pub txid : Text
  pub vin : List Vin
  pub vout : List (Text × ℕ)

pub record SpFound : Type 0 where
  pub vout : ℕ
  pub sats : ℕ
  pub tweak : Text

-- The server's pages; the parse of keys and txids; the outpoint's bytes; the wallet's keys; the check
-- of sp.rs under them; the checkpoint's JSON, and what becomes of the write of its file.
pub record ScanHost : Type 0 where
  pub tip_height : Result ℕ
  pub block_hash : ℕ → Result Text
  pub block_txs : Text → ℕ → Result (List EsploraTx)
  pub get_tx : Text → Result EsploraTx
  pub outspend : Text → ℕ → Result Bool
  pub even_key : Text → Option Text
  pub public_key : Text → Option Text
  pub txid_from_str : Text → Option Text
  pub serialize_outpoint : OutPoint → Text
  pub sp_keys : Result (Text × Text)
  pub receive_check : Text × Text → List Text → OutPoint → List (ℕ × (Text × ℕ)) → List SpFound
  pub parse_checkpoint : Text → Result ℕ
  pub checkpoint_json : ℕ → Text
  pub write : Fault

-- `split_last` of a witness.
unfoldable pub last_item : List Text → Option Text
last_item [] = none
last_item (w ∷ []) = some w
last_item (w ∷ v ∷ ws) = last_item (v ∷ ws)

unfoldable pub starts_50 : Option Text → Bool
starts_50 none = false
starts_50 (some w) = starts_with w (codes "50")

-- Without an annex: a last item, of two or more, that begins with 0x50.
unfoldable pub drop_annex : List Text → List Text
drop_annex ws =
    if leb 2 (length ws) && starts_50 (last_item ws) then take (length ws - 1) ws else ws

module _ ⦃s : ScanHost⦄ where
  unfoldable pub taproot_key : Text → List Text → Option Text
  taproot_key key_hex witness =
      if length key_hex == 64 && length (drop_annex witness) == 1 then s.even_key key_hex else none

  unfoldable pub wpkh_key : Option Text → Option Text
  wpkh_key none = none
  wpkh_key (some w) = s.public_key w

  unfoldable pub spk_key : Text → List Text → Option Text
  spk_key spk witness =
      if starts_with spk (codes "5120")
      then taproot_key (drop 4 spk) witness
      else if starts_with spk (codes "0014") && length spk == 44
      then wpkh_key (last_item witness)
      else none

  unfoldable pub input_pubkey : Vin → Option Text
  input_pubkey vin =
      if vin.is_coinbase
      then none
      else elim vin.prevout [ none ↦ none | some spk ↦ spk_key spk vin.witness ]

  unfoldable pub taproot_output_key : Text → Option Text
  taproot_output_key spk =
      if starts_with spk (codes "5120") && length (drop 4 spk) == 64
      then s.even_key (drop 4 spk)
      else none

  unfoldable pub input_outpoint : Vin → Option OutPoint
  input_outpoint vin = elim (s.txid_from_str vin.txid) [
    | none ↦ none
    | some txid ↦ some (txid, vin.vout)
  ]

  -- The first of the smallest by their bytes.
  unfoldable pub smaller : OutPoint → Option OutPoint → OutPoint
  smaller o none = o
  smaller o (some m) = if text_leb (s.serialize_outpoint o) (s.serialize_outpoint m) then o else m

  unfoldable pub smallest_outpoint : List OutPoint → Option OutPoint
  smallest_outpoint [] = none
  smallest_outpoint (o ∷ os) = some (smaller o (smallest_outpoint os))

  -- The taproot outputs with their positions from `i` on.
  unfoldable pub taproot_outputs : ℕ → List (Text × ℕ) → List (ℕ × (Text × ℕ))
  taproot_outputs i [] = []
  taproot_outputs i ((spk, value) ∷ outs) =
      let rest = taproot_outputs (i + 1) outs in
      elim (taproot_output_key spk) [ none ↦ rest | some key ↦ (i, (key, value)) ∷ rest ]

unfoldable pub any_coinbase : List Vin → Bool
any_coinbase [] = false
any_coinbase (v ∷ vs) = v.is_coinbase || any_coinbase vs

unfoldable pub is_empty : {A : Type 0} → List A → Bool
is_empty [] = true
is_empty (a ∷ rest) = false

module _ ⦃s : ScanHost⦄ where
  unfoldable pub check_inputs :
      Text × Text → List Text → Option OutPoint → List (ℕ × (Text × ℕ)) → List SpFound
  check_inputs keys pubkeys none outputs = []
  check_inputs keys pubkeys (some smallest) outputs =
      if is_empty outputs then [] else s.receive_check keys pubkeys smallest outputs

  unfoldable pub tx_matches : Text × Text → EsploraTx → List SpFound
  tx_matches keys tx =
      if any_coinbase tx.vin || is_empty (filter_map input_pubkey tx.vin)
      then []
      else check_inputs keys (filter_map input_pubkey tx.vin)
          (smallest_outpoint (filter_map input_outpoint tx.vin)) (taproot_outputs 0 tx.vout)

  unfoldable pub tx_pays_me : Text → Result ℕ
  tx_pays_me txid = try_then s.sp_keys λ keys.
      try_then (s.get_tx txid)
        λ tx. ok (sum_from 0 (map (λ (f : SpFound). f.sats) (tx_matches keys tx)))
