-- ===== src/Pay.antt =====
-- pay.rs: the three send paths. Each builds and signs, keeps the signed transaction as a sidecar, books
-- the payment, and only then broadcasts.
pub mod Paths
pub mod Ahead
pub mod Crash
use computermoney.Prelude.{
  ℕ, Text, codes, Bool, true, false, List, [], ◌∷◌, Option, ltb, if◌then◌else◌,
}
use computermoney.Policy.{Network, bitcoin, testnet, signet, check_address}
use computermoney.Result.{other, Result, ok, err, Exec, pure, raise, lift, gets, gate, ◌>>=◌, ◌>>◌}
use computermoney.Storage.{Host, network}
use computermoney.Chain.{Esplora, broadcast}
use computermoney.Ledger.Entry.{Status, sent}
use computermoney.Ledger.Folds.{next_seq}
use computermoney.Ledger.Balances.{sp_utxos}
use computermoney.Ledger.Platform.{Platform}
use computermoney.Ledger.Store.{World, on_disk, append}
use computermoney.Ledger.Methods.{entries_of, write_sidecar, record_sp_spent}
use computermoney.Build.{OutPoint, Bdk, build_signed}
use computermoney.Build.Mixed.{build_signed_to_sp, build_signed_spending_sp}

-- `serialize_hex` of a transaction, the decoding of a silent payment code to its keys and network by
-- sp.rs, the wallet's key to spend received outputs, and an address as text.
pub record Payer : Type 0 where
  pub serialize_hex : Text → Text
  pub decode : Text → Result (Text × (Text × Network))
  pub sp_spend_keypair : Result Text
  pub address_text : Text → Text

abbrev pub sp_min_sats : ℕ
sp_min_sats = 330

unfoldable pub network_eq : Network → Network → Bool
network_eq bitcoin bitcoin = true
network_eq testnet testnet = true
network_eq signet signet = true
network_eq _ _ = false

unfoldable pub min_gate : {S : Type 0} → ℕ → Exec S (Unit {0})
min_gate sats =
    if ltb sats sp_min_sats
    then raise (other (codes "silent-payment sends need at least 330 sats"))
    else pure tt

module _ ⦃h : Host⦄ where
  unfoldable pub network_gate : {S : Type 0} → Network → Exec S (Unit {0})
  network_gate net =
      if network_eq net network
      then pure tt
      else raise (other (codes "silent-payment code is for another network"))

  unfoldable pub address_gate : {S : Type 0} → Text → Exec S (Unit {0})
  address_gate address = do policy ← lift h.load_policy; gate (check_address policy address)

module _ ⦃h : Host⦄ ⦃p : Platform⦄ ⦃c : Esplora⦄ ⦃b : Bdk⦄ ⦃y : Payer⦄ where
  -- The steps that the three paths share: sidecar, entry, broadcast.
  unfoldable pub book_and_broadcast : Text → ℕ → Text → Exec World Text
  book_and_broadcast to sats tx = do
    on_disk (write_sidecar (c.compute_txid tx) (y.serialize_hex tx))
    es ← gets entries_of
    append (sent (next_seq es) (c.compute_txid tx) sats to Status.pending h.now_unix)
    broadcast tx
    pure (c.compute_txid tx)

  unfoldable pub mark_spent : List OutPoint → Exec World (Unit {0})
  mark_spent [] = pure tt
  mark_spent ((txid, vout) ∷ rest) = do record_sp_spent txid vout; mark_spent rest

  unfoldable pub book_and_mark : Text → ℕ → Text → List OutPoint → Exec World Text
  book_and_mark to sats tx consumed = do
    txid ← book_and_broadcast to sats tx
    mark_spent consumed
    pure txid

  unfoldable pub send : Text → Text → Text → ℕ → Option ℕ → Exec World Text
  send ext int to sats max_fee_sats = do
    (tx, fee) ← build_signed ext int to sats max_fee_sats
    book_and_broadcast to sats tx

  unfoldable pub sp_send : Text → Text → Text → ℕ → Option ℕ → Exec World Text
  sp_send ext int code sats max_fee_sats = do
    min_gate sats
    (scan, (spend, net)) ← lift (y.decode code)
    network_gate net
    es ← gets entries_of
    spend_sk ← lift y.sp_spend_keypair
    (tx, (fee, (address, consumed))) ←
        build_signed_to_sp ext int scan spend sats max_fee_sats (sp_utxos es) spend_sk
    address_gate (y.address_text address)
    book_and_mark code sats tx consumed

  unfoldable pub send_spending_sp : Text → Text → Text → ℕ → Option ℕ → Exec World Text
  send_spending_sp ext int to sats max_fee_sats = do
    es ← gets entries_of
    spend_sk ← lift y.sp_spend_keypair
    (tx, (fee, consumed)) ←
        build_signed_spending_sp ext int to sats max_fee_sats (sp_utxos es) spend_sk
    book_and_mark to sats tx consumed
