-- ===== src/Ledger/Balances.antt =====
-- ledger.rs: the folds of `Ledger` that answer in satoshis, the work queue and the receipts.
use mathlib.Core.List.{filter_map}
use computermoney.Prelude.{
  ℕ, ◌+◌, ◌-◌, ◌%◌, ◌^◌, Text, contains, Bool, true, false, not, ◌&&◌, Option, none, some, List, [],
  ◌∷◌, ◌++◌, leb, ltb, ◌==◌, if◌then◌else◌, u64_mod,
}
use computermoney.Ledger.Entry.{Status, Entry, sent, received, sp_received}
use computermoney.Ledger.Folds.{
  status_is, latest_status, issued_index, payment_txid, sp_spent_set, contains_outpoint, sum_from,
}

-- `latest_status(txid) == Some(Final) && !spent.contains(outpoint)`
unfoldable pub is_spendable : List Entry → List (Text × ℕ) → Text → ℕ → Bool
is_spendable es spent txid vout =
    status_is (latest_status txid es) Status.final && not (contains_outpoint txid vout spent)

unfoldable pub is_incoming : List Entry → List (Text × ℕ) → Text → ℕ → Bool
is_incoming es spent txid vout =
    not (status_is (latest_status txid es) Status.final) && not (contains_outpoint txid vout spent)

unfoldable pub spendable_sats : List Entry → List (Text × ℕ) → Entry → Option ℕ
spendable_sats es spent (sp_received _ txid vout sats _ _) =
    if is_spendable es spent txid vout then some sats else none
spendable_sats es spent _ = none

unfoldable pub sp_balance : List Entry → ℕ
sp_balance es = sum_from 0 (filter_map (spendable_sats es (sp_spent_set es)) es)

unfoldable pub incoming_sats : List Entry → List (Text × ℕ) → Entry → Option ℕ
incoming_sats es spent (sp_received _ txid vout sats _ _) =
    if is_incoming es spent txid vout then some sats else none
incoming_sats es spent _ = none

unfoldable pub sp_incoming : List Entry → ℕ
sp_incoming es = sum_from 0 (filter_map (incoming_sats es (sp_spent_set es)) es)

pub record SpUtxo : Type 0 where
  pub txid : Text
  pub vout : ℕ
  pub sats : ℕ
  pub tweak : Text

unfoldable pub spendable_utxo : List Entry → List (Text × ℕ) → Entry → Option SpUtxo
spendable_utxo es spent (sp_received _ txid vout sats tweak _) =
    if is_spendable es spent txid vout
    then some (record { txid = txid; vout = vout; sats = sats; tweak = tweak })
    else none
spendable_utxo es spent _ = none

unfoldable pub sp_utxos : List Entry → List SpUtxo
sp_utxos es = filter_map (spendable_utxo es (sp_spent_set es)) es

-- `bal` is an `i64` as its bits: a credit adds and a debit subtracts modulo 2^64.
unfoldable pub apply_balance : List Entry → ℕ → Entry → ℕ
apply_balance es bal (received _ txid sats _ _) =
    if status_is (latest_status txid es) Status.final then (bal + sats) % u64_mod else bal
apply_balance es bal (sent _ txid sats _ _ _) =
    if status_is (latest_status txid es) Status.failed
    then bal
    else (bal + (u64_mod - sats)) % u64_mod
apply_balance es bal _ = bal

unfoldable pub balance_from : List Entry → ℕ → List Entry → ℕ
balance_from es bal [] = bal
balance_from es bal (e ∷ rest) = balance_from es (apply_balance es bal e) rest

-- `bal.max(0) as u64`: the bits of a negative number are 2^63 or more.
unfoldable pub balance : List Entry → ℕ
balance es = let bal = balance_from es 0 es in if ltb bal (2 ^ 63) then bal else 0

-- Neither final nor failed.
unfoldable pub in_flight : Option Status → Bool
in_flight s = not (status_is s Status.final) && not (status_is s Status.failed)

-- `seen` is the set of the txids that the loop has met.
unfoldable pub pending_from : List Entry → List Text → List Entry → List Text
pending_from es seen [] = []
pending_from es seen (e ∷ rest) = elim (payment_txid e) [
  | none ↦ pending_from es seen rest
  | some txid ↦
      let more = pending_from es (txid ∷ seen) rest in
      if not (contains txid seen) && in_flight (latest_status txid es) then txid ∷ more else more
]

unfoldable pub pending : List Entry → List Text
pending es = pending_from es [] es

unfoldable pub sent_since : ℕ → Entry → Option ℕ
sent_since cutoff (sent _ _ sats _ _ at) = if leb cutoff at then some sats else none
sent_since cutoff _ = none

unfoldable pub spent_since : ℕ → List Entry → ℕ
spent_since cutoff es = sum_from 0 (filter_map (sent_since cutoff) es)

pub record Collection : Type 0 where
  pub index : ℕ
  pub txid : Option Text
  pub sats : ℕ
  pub sp : Bool

abbrev pub unpaid_row : ℕ → Collection
unpaid_row index = record { index = index; txid = none; sats = 0; sp = false }

-- The row of an issued index: its first `Received`, or no payment.
unfoldable pub row_of : ℕ → List Entry → Collection
row_of index [] = unpaid_row index
row_of index (received _ txid sats i _ ∷ es) =
    if i == index
    then record { index = index; txid = some txid; sats = sats; sp = false }
    else row_of index es
row_of index (e ∷ es) = row_of index es

unfoldable pub issued_row : List Entry → Entry → Option Collection
issued_row es e = elim (issued_index e) [ none ↦ none | some index ↦ some (row_of index es) ]

unfoldable pub sp_row : Entry → Option Collection
sp_row (sp_received _ txid vout sats _ _) =
    some (record { index = vout; txid = some txid; sats = sats; sp = true })
sp_row _ = none

unfoldable pub collections : List Entry → List Collection
collections es = filter_map (issued_row es) es ++ filter_map sp_row es
