-- ===== src/Deposits.antt =====
-- chain.rs: `deposits_to`, what the chain reports as paid to an address.
use computermoney.Prelude.{ℕ, Text, text_eq, List, [], ◌∷◌, ◌==◌, if◌then◌else◌}
use computermoney.Result.{Result, ok, try_then}
use computermoney.Storage.{Host, network}
use computermoney.Chain.{Esplora, TxStatus, depth}
use computermoney.Ledger.Folds.{sum_from}
use computermoney.Build.{Bdk}

-- A transaction as the server's JSON gives it: each output has a script and a value.
pub record ChainTx : Type 0 where
  pub txid : Text
  pub status : TxStatus
  pub vout : List (Text × ℕ)

pub record AddressTxs : Type 0 where
  pub get_address_txs : Text → Result (List ChainTx)

pub record Deposit : Type 0 where
  pub txid : Text
  pub sats : ℕ
  pub confirmations : ℕ

-- The values of the outputs with that script.
unfoldable pub paying : Text → List (Text × ℕ) → List ℕ
paying spk [] = []
paying spk ((script, value) ∷ outs) =
    let rest = paying spk outs in if text_eq script spk then value ∷ rest else rest

unfoldable pub deposit_depth : TxStatus → ℕ → ℕ
deposit_depth status tip = if status.confirmed then depth status.block_height tip else 0

unfoldable pub deposits_in : Text → ℕ → List ChainTx → List Deposit
deposits_in spk tip [] = []
deposits_in spk tip (tx ∷ txs) =
    let rest = deposits_in spk tip txs in
    let sats = sum_from 0 (paying spk tx.vout) in
    if sats == 0
    then rest
    else (record { txid = tx.txid; sats = sats; confirmations = deposit_depth tx.status tip })
      ∷ rest

module _ ⦃h : Host⦄ ⦃b : Bdk⦄ ⦃c : Esplora⦄ ⦃x : AddressTxs⦄ where
  unfoldable pub deposits_to : Text → Result (List Deposit)
  unfolding deposits_in
  deposits_to addr = try_then (b.script_of network addr) λ spk.
      try_then (x.get_address_txs addr)
        λ txs. try_then c.get_height λ tip. ok (deposits_in spk tip txs)
