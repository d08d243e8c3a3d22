-- ===== src/Net.antt =====
-- net.rs: the two sides of a payment over a wire. The messages that arrive are a list, each a message
-- or an error, at whose end the peer has gone; a send may fail.
pub mod Adds
pub mod Credits
pub mod Gated
use computermoney.Prelude.{
  ℕ, ◌-◌, Text, codes, text_eq, Option, none, some, List, [], ◌∷◌, ◌++◌, if◌then◌else◌,
}
use computermoney.Policy.{daily_window_secs, check_amount, check_address, Policy}
use computermoney.Result.{
  other, Result, ok, err, Exec, pure, raise, lift, gets, modify, gate, ◌>>=◌, ◌>>◌,
}
use computermoney.Storage.{Host}
use computermoney.Chain.{Esplora}
use computermoney.Deposits.{AddressTxs, Deposit, deposits_to}
use computermoney.Ledger.Entry.{address_issued}
use computermoney.Ledger.Folds.{next_seq}
use computermoney.Ledger.Balances.{spent_since}
use computermoney.Ledger.Platform.{Platform}
use computermoney.Ledger.Store.{World, append}
use computermoney.Ledger.Methods.{entries_of, record_received}
use computermoney.Ledger.Reconcile.{reconcile}
use computermoney.Build.{Bdk}
use computermoney.Pay.{Payer, send}
use computermoney.Protocol.{
  Message, addr_request, addr_response, notify, chat, Addresses, Receiver, handle,
}

pub record Wire : Type 0 where
  pub send : Message → Result (Unit {0})

-- The ledger and its disk, the receiver's counter, and what was sent.
pub record Session : Type 0 where
  pub world : World
  pub receiver : Receiver
  pub outbox : List Message

unfoldable pub on_world : {A : Type 0} → Exec World A → Exec Session A
on_world m s = ((m s.world).0, record s { world = (m s.world).1 })

unfoldable pub on_receiver : {A : Type 0} → Exec Receiver A → Exec Session A
on_receiver m s = ((m s.receiver).0, record s { receiver = (m s.receiver).1 })

-- `let _ =`: the result is dropped, an error too.
unfoldable pub ignore : {S A : Type 0} → Exec S A → Exec S (Unit {0})
ignore m s = (ok tt, (m s).1)

unfoldable pub find_deposit : Text → List Deposit → Option Deposit
find_deposit txid [] = none
find_deposit txid (d ∷ ds) = if text_eq d.txid txid then some d else find_deposit txid ds

-- A new issue takes the place of the old.
abbrev pub keep : Option (ℕ × Text) → Option (ℕ × Text) → Option (ℕ × Text)
keep old none = old
keep old (some i) = some i

module _ ⦃wire : Wire⦄ where
  unfoldable pub send_message : Message → Exec Session (Unit {0})
  send_message m s = (wire.send m, record s { outbox = s.outbox ++ (m ∷ []) })

module _ ⦃h : Host⦄ ⦃p : Platform⦄ ⦃c : Esplora⦄ ⦃b : Bdk⦄ ⦃x : AddressTxs⦄ ⦃a : Addresses⦄
    ⦃wire : Wire⦄ where
  -- The deposit that a `Notify` names, if the chain has it.
  unfoldable pub book_deposit : ℕ → Option Deposit → Exec World (Unit {0})
  book_deposit index none = pure tt
  book_deposit index (some d) = do record_received d.txid d.sats index; ignore reconcile; pure tt

  unfoldable pub book_found : ℕ → Text → Result (List Deposit) → Exec World (Unit {0})
  book_found index txid (err e) = pure tt
  book_found index txid (ok ds) = book_deposit index (find_deposit txid ds)

  -- `issued` is the index and the address that this session issued last.
  unfoldable pub on_notify : Option (ℕ × Text) → Text → Exec World (Unit {0})
  on_notify none txid = pure tt
  on_notify (some (index, address)) txid = book_found index txid (deposits_to address)

  unfoldable pub issue : Option Message → Exec Session (Option (ℕ × Text))
  issue (some (addr_response address index)) = do
    es ← gets (λ s. entries_of s.world)
    on_world (append (address_issued (next_seq es) index))
    send_message (addr_response address index)
    pure (some (index, address))
  issue _ = pure none

  unfoldable pub run_receiver : Option (ℕ × Text) → List (Result Message) → Exec Session (Unit {0})
  run_receiver issued [] = pure tt
  run_receiver issued (err e ∷ inbox) = raise e
  run_receiver issued (ok (addr_request sats) ∷ inbox) = do
    reply ← on_receiver (handle (addr_request sats))
    now ← issue reply
    run_receiver (keep issued now) inbox
  run_receiver issued (ok (notify txid claimed) ∷ inbox) = on_world (on_notify issued txid)
  run_receiver issued (ok (chat text) ∷ inbox) = run_receiver issued inbox
  run_receiver issued (ok (addr_response address index) ∷ inbox) = run_receiver issued inbox

-- The first address among the messages that arrive.
unfoldable pub await_address : List (Result Message) → Result (Text × ℕ)
await_address [] = err (other (codes "peer closed before sending an address"))
await_address (err e ∷ inbox) = err e
await_address (ok (addr_response address index) ∷ inbox) = ok (address, index)
await_address (ok _ ∷ inbox) = await_address inbox

module _ ⦃h : Host⦄ where
  unfoldable pub amount_gate : Policy → ℕ → Exec World (Unit {0})
  amount_gate policy sats = do
    es ← gets entries_of
    gate (check_amount policy sats (spent_since (h.now_unix - daily_window_secs) es))

module _ ⦃h : Host⦄ ⦃p : Platform⦄ ⦃c : Esplora⦄ ⦃b : Bdk⦄ ⦃y : Payer⦄ ⦃wire : Wire⦄ where
  unfoldable pub run_payer : Text → Text → List (Result Message) → ℕ → Exec Session (Unit {0})
  run_payer ext int inbox sats = do
    policy ← lift h.load_policy
    on_world (amount_gate policy sats)
    send_message (addr_request sats)
    (address, index) ← lift (await_address inbox)
    gate (check_address policy address)
    txid ← on_world (send ext int address sats policy.max_fee_sats)
    send_message (notify txid sats)
