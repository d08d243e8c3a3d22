-- ===== src/Server.antt =====
-- mcp.rs: the payments that the tool server makes. Its tools are in Calls, its loop
-- in Rpc and its reports in Reports. Each call opens the ledger anew from its file.
pub mod Capped
pub mod Twice
pub mod Reports
pub mod Calls
pub mod Rpc
use computermoney.Prelude.{
  ℕ, ◌-◌, Text, codes, trim, starts_with, Bool, true, false, ◌||◌, Option, none, some, List, [],
  ◌∷◌, ◌++◌, ◌==◌, if◌then◌else◌,
}
use computermoney.Policy.{check_address}
use computermoney.Result.{
  Error, other, panicked, Result, ok, err, Exec, pure, raise, lift, gets, gate, attempt, ◌>>=◌,
  ◌>>◌,
}
use computermoney.Storage.{Host, explorer_tx_url}
use computermoney.Chain.{Esplora}
use computermoney.Ledger.Entry.{Entry}
use computermoney.Ledger.Reconcile.{sent_txid}
use computermoney.Ledger.Platform.{Platform}
use computermoney.Ledger.Store.{World}
use computermoney.Ledger.Methods.{entries_of}
use computermoney.Build.{Bdk}
use computermoney.Pay.{Payer, sp_send, send_spending_sp}
use computermoney.Protocol.{Json}
use computermoney.Net.{amount_gate}
use computermoney.Wallet.{Account}
use computermoney.Keys.{parse_card_key}
use computermoney.Discover.{Card, Dht, resolve}
use computermoney.Tunnel.{Tunn, Socket}
use computermoney.Tunnel.Session.{Internet, key_of, open_ledger, open_own_ledger, pay}

-- `split_once`
unfoldable pub split_once : ℕ → Text → Option (Text × Text)
split_once c [] = none
split_once c (x ∷ xs) =
    let rest = split_once c xs in
    if x == c then some ([], xs) else elim rest [ none ↦ none | some (a, b) ↦ some (x ∷ a, b) ]

unfoldable pub is_sp_code : Text → Bool
is_sp_code peer = starts_with peer (codes "sp1") || starts_with peer (codes "tsp1")

-- The search for the newest `Sent` entry from the end.
unfoldable pub newest_sent : List Entry → Option Text
unfolding sent_txid
newest_sent [] = none
newest_sent (e ∷ es) = elim (newest_sent es) [ none ↦ sent_txid e | some txid ↦ some txid ]

unfoldable pub or_error : {A : Type 0} → Text → Option A → Result A
or_error why none = err (other why)
or_error why (some a) = ok a

-- What is said of a payment that was made.
unfoldable pub receipt : ⦃h : Host⦄ → Text → Text
receipt txid = codes "txid: " ++ (txid ++ (10 ∷ explorer_tx_url txid))

module _ ⦃h : Host⦄ ⦃p : Platform⦄ ⦃c : Esplora⦄ ⦃b : Bdk⦄ ⦃y : Payer⦄ ⦃a : Account⦄ where
  unfoldable pub send_payment : Text → ℕ → Exec World Text
  send_payment to sats = do
    open_own_ledger
    policy ← lift h.load_policy
    amount_gate policy sats
    gate (check_address policy to)
    txid ← send_spending_sp (a.descriptors.0) (a.descriptors.1) to sats policy.max_fee_sats
    pure (receipt txid)

  unfoldable pub sp_pay : Text → ℕ → Exec World Text
  sp_pay code sats = do
    open_own_ledger
    policy ← lift h.load_policy
    amount_gate policy sats
    gate (check_address policy code)
    sp_send (a.descriptors.0) (a.descriptors.1) code sats policy.max_fee_sats

  unfoldable pub newest_receipt : Exec World Text
  newest_receipt = do
    open_ledger
    es ← gets entries_of
    txid ←
        lift
          (or_error (codes "payment sent but no Sent entry found in the ledger") (newest_sent es))
    pure (receipt txid)

-- The session at one endpoint ended: well, and no other is dialed; by a panic; or by an error, which
-- `next` keeps in case it is the last.
unfoldable pub on_dial :
    {S : Type 0} → Result (Unit {0}) → (Option Error → Exec S (Unit {0})) → Exec S (Unit {0})
on_dial (ok u) next = pure tt
on_dial (err panicked) next = raise panicked
on_dial (err e) next = next (some e)

unfoldable pub last_error : {S : Type 0} → Option Error → Exec S (Unit {0})
last_error none = pure tt
last_error (some e) = raise e

module _ ⦃h : Host⦄ ⦃p : Platform⦄ ⦃c : Esplora⦄ ⦃b : Bdk⦄ ⦃y : Payer⦄ ⦃a : Account⦄ ⦃t : Tunn⦄
    ⦃k : Socket⦄ ⦃j : Json⦄ ⦃n : Internet⦄ where
  unfoldable pub dial_each : List Text → Text → ℕ → Option Error → Exec World (Unit {0})
  dial_each [] wg sats last = last_error last
  dial_each (addr ∷ addrs) wg sats last = do
    outcome ← attempt (pay addr wg sats)
    on_dial outcome (dial_each addrs wg sats)

  -- The endpoints of a card that carries no silent payment code.
  unfoldable pub dial_card : Card → ℕ → Exec World (Unit {0})
  dial_card card sats = elim card.ep [
    | [] ↦ raise (other (codes "peer published no endpoint (not accepting inbound sessions)"))
    | addr ∷ addrs ↦ dial_each (addr ∷ addrs) card.wg sats none
  ]

module _ ⦃h : Host⦄ ⦃p : Platform⦄ ⦃c : Esplora⦄ ⦃b : Bdk⦄ ⦃y : Payer⦄ ⦃a : Account⦄ ⦃t : Tunn⦄
    ⦃k : Socket⦄ ⦃j : Json⦄ ⦃n : Internet⦄ ⦃d : Dht⦄ where
  unfoldable pub found_card : Text → Result Card
  found_card peer = elim (key_of (parse_card_key peer)) [
    | err e ↦ err e
    | ok key ↦ elim (resolve key) [
      | err e ↦ err e
      | ok card ↦ or_error (codes "no card on the DHT for that key") card
    ]
  ]

  unfoldable pub pay_card : Card → ℕ → Exec World Text
  pay_card card sats = elim card.sp [
    | some code ↦ (do txid ← sp_pay code sats; pure (receipt txid))
    | none ↦ (do dial_card card sats; newest_receipt)
  ]

  -- A direct link is dialed straight; all else is a card key.
  unfoldable pub pay_link : Option (Text × Text) → Text → ℕ → Exec World Text
  pay_link (some (peer_pub, peer_addr)) peer sats = do pay peer_addr peer_pub sats; newest_receipt
  pay_link none peer sats = do card ← lift (found_card peer); pay_card card sats

  -- `peer` is trimmed.
  unfoldable pub pay_trimmed : Text → ℕ → Exec World Text
  pay_trimmed peer sats =
      if is_sp_code peer
      then (do txid ← sp_pay peer sats; pure (receipt txid))
      else pay_link (split_once b'@' peer) peer sats

  -- The directory of the ledger is named by the identity.
  unfoldable pub pay_peer : Text → ℕ → Exec World Text
  pay_peer peer sats = do id ← lift a.id_hex; pay_trimmed (trim peer) sats
