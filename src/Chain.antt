-- ===== src/Chain.antt =====
-- chain.rs: what the ledger and the payments ask of the chain. The Esplora server and the parsers
-- of transactions are parameters.
use computermoney.Prelude.{
  ℕ, ◌-◌, Text, codes, Bool, ◌||◌, Option, none, some, [], ◌∷◌, ◌++◌, map, ltb, to_lower,
  contains_text, add_u32, if◌then◌else◌,
}
use computermoney.Result.{network, other, Result, ok, err, Exec}
use computermoney.Ledger.Store.{World}

pub record TxStatus : Type 0 where
  pub confirmed : Bool
  pub block_height : Option ℕ

-- One reading of the server. `send_tx` answers an error's message if it refuses a transaction.
pub record Esplora : Type 0 where
  pub get_tx_status : Text → Result TxStatus
  pub get_height : Result ℕ
  pub send_tx : Text → Option Text
  pub deserialize_hex : Text → Option Text
  pub compute_txid : Text → Text

unfoldable pub is_hard_rejection : Text → Bool
unfolding contains_text to_lower
is_hard_rejection msg =
    let m = map to_lower msg in
    contains_text m (codes "missingorspent")
    || contains_text m (codes "bad-txns-inputs")
    || contains_text m (codes "missing inputs")
    || contains_text m (codes "missing-inputs")
    || contains_text m (codes "txn-mempool-conflict")
    || contains_text m (codes "conflict")

abbrev pub max_feerate_sat_per_vb : ℕ
max_feerate_sat_per_vb = 200

unfoldable pub clamp_feerate : ℕ → ℕ
clamp_feerate n =
    if ltb n 1 then 1 else if ltb max_feerate_sat_per_vb n then max_feerate_sat_per_vb else n

pub data Rebroadcast : Type 0 where
  accepted : Rebroadcast
  rejected : Text → Rebroadcast

-- Depth of a block under the tip, 1 for the tip itself; an unknown height counts 0.
unfoldable pub depth : Option ℕ → ℕ → ℕ
depth none tip = 0
depth (some h) tip = add_u32 (tip - h) 1

module _ ⦃c : Esplora⦄ where
  confirmations_of : TxStatus → Result ℕ → Result ℕ
  confirmations_of status (err e) = if status.confirmed then err e else ok 0
  confirmations_of status (ok tip) =
      if status.confirmed then ok (depth status.block_height tip) else ok 0

  confirmations_at : Result TxStatus → Result ℕ
  unfolding confirmations_of
  confirmations_at (err e) = err e
  confirmations_at (ok status) = confirmations_of status c.get_height

  unfoldable pub confirmations : Text → Result ℕ
  unfolding confirmations_at
  confirmations txid = confirmations_at (c.get_tx_status txid)

  abbrev pub send_reply : Text → Option Text → Result Text
  send_reply tx none = ok (c.compute_txid tx)
  send_reply tx (some msg) = err (network msg)

  -- The transaction reaches the network before its answer comes back.
  unfoldable pub broadcast : Text → Exec World Text
  broadcast tx w =
      (send_reply tx (c.send_tx tx), record w { broadcasts = w.broadcasts ++ (tx ∷ []) })

  abbrev pub classify : Option Text → Rebroadcast
  classify none = accepted
  classify (some msg) = if is_hard_rejection msg then rejected msg else accepted

  unfoldable pub rebroadcast_hex : Text → Exec World Rebroadcast
  rebroadcast_hex hex w = elim (c.deserialize_hex hex) [
    | none ↦ (err (other (codes "deserialize")), w)
    | some tx ↦ (ok (classify (c.send_tx tx)), (broadcast tx w).1)
  ]
