-- ===== src/Ledger/Folds.antt =====
-- ledger.rs: the folds of `Ledger` over its entries. Each takes `self.entries`.
use mathlib.Core.List.{filter_map}
use computermoney.Prelude.{
  ℕ, Text, text_eq, Bool, false, ◌&&◌, ◌||◌, Option, none, some, List, [], ◌∷◌, leb, ◌==◌,
  if◌then◌else◌, add_u32, add_u64,
}
use computermoney.Ledger.Entry.{
  Status, Entry, address_issued, sent, received, status_update, sp_received, sp_spent, seq,
  status_eq,
}

-- `Option<Status> == Some(status)`.
unfoldable pub status_is : Option Status → Status → Bool
status_is none t = false
status_is (some s) t = status_eq s t

-- `entries.last().map(|e| e.seq() + 1).unwrap_or(0)`
unfoldable pub next_seq : List Entry → ℕ
next_seq [] = 0
next_seq (e ∷ []) = add_u64 (seq e) 1
next_seq (e ∷ d ∷ es) = next_seq (d ∷ es)

-- The status that an entry states for a txid.
unfoldable pub stated : Text → Entry → Option Status
stated txid (sent _ t _ _ status _) = if text_eq t txid then some status else none
stated txid (received _ t _ _ status) = if text_eq t txid then some status else none
stated txid (sp_received _ t _ _ _ status) = if text_eq t txid then some status else none
stated txid (status_update _ t status) = if text_eq t txid then some status else none
stated txid (address_issued _ _) = none
stated txid (sp_spent _ _ _) = none

-- An entry that states nothing leaves the status.
unfoldable pub overwrite : Option Status → Option Status → Option Status
overwrite old none = old
overwrite old (some s) = some s

-- `latest_status`, from the status `s` that the loop has so far.
unfoldable pub latest_from : Option Status → Text → List Entry → Option Status
latest_from s txid [] = s
latest_from s txid (e ∷ es) = latest_from (overwrite s (stated txid e)) txid es

unfoldable pub latest_status : Text → List Entry → Option Status
latest_status txid es = latest_from none txid es

unfoldable pub issued_index : Entry → Option ℕ
issued_index (address_issued _ index) = some index
issued_index _ = none

-- `filter_map(index + 1).max().unwrap_or(0)`
unfoldable pub next_address_index : List Entry → ℕ
next_address_index [] = 0
next_address_index (e ∷ es) =
    let rest = next_address_index es in
    elim (issued_index e) [
      | none ↦ rest
      | some index ↦ if leb rest (add_u32 index 1) then add_u32 index 1 else rest
    ]

unfoldable pub paid_index : Entry → Option ℕ
paid_index (received _ _ _ index _) = some index
paid_index _ = none

unfoldable pub contains_index : ℕ → List ℕ → Bool
contains_index n [] = false
contains_index n (m ∷ ms) = m == n || contains_index n ms

-- The issued indexes of `es` that are not in `paid`.
unfoldable pub unpaid_of : List ℕ → List Entry → List ℕ
unpaid_of paid [] = []
unpaid_of paid (e ∷ es) =
    let rest = unpaid_of paid es in
    elim (issued_index e) [
      | none ↦ rest
      | some index ↦ if contains_index index paid then rest else index ∷ rest
    ]

unfoldable pub issued_unpaid : List Entry → List ℕ
issued_unpaid es = unpaid_of (filter_map paid_index es) es

-- The txid of a `Sent`, `Received` or `SpReceived`.
unfoldable pub payment_txid : Entry → Option Text
payment_txid (sent _ txid _ _ _ _) = some txid
payment_txid (received _ txid _ _ _) = some txid
payment_txid (sp_received _ txid _ _ _ _) = some txid
payment_txid (address_issued _ _) = none
payment_txid (status_update _ _ _) = none
payment_txid (sp_spent _ _ _) = none

unfoldable pub is_payment_of : Text → Entry → Bool
unfolding payment_txid
is_payment_of txid e = elim (payment_txid e) [ none ↦ false | some t ↦ text_eq t txid ]

unfoldable pub has_txid : Text → List Entry → Bool
has_txid txid [] = false
has_txid txid (e ∷ es) = is_payment_of txid e || has_txid txid es

unfoldable pub is_output : Text → ℕ → Entry → Bool
is_output txid vout (sp_received _ t v _ _ _) = text_eq t txid && v == vout
is_output txid vout _ = false

unfoldable pub has_sp_output : Text → ℕ → List Entry → Bool
has_sp_output txid vout [] = false
has_sp_output txid vout (e ∷ es) = is_output txid vout e || has_sp_output txid vout es

unfoldable pub is_spend : Text → ℕ → Entry → Bool
is_spend txid vout (sp_spent _ t v) = text_eq t txid && v == vout
is_spend txid vout _ = false

unfoldable pub is_sp_spent : Text → ℕ → List Entry → Bool
is_sp_spent txid vout [] = false
is_sp_spent txid vout (e ∷ es) = is_spend txid vout e || is_sp_spent txid vout es

unfoldable pub spent_outpoint : Entry → Option (Text × ℕ)
spent_outpoint (sp_spent _ txid vout) = some (txid, vout)
spent_outpoint _ = none

unfoldable pub sp_spent_set : List Entry → List (Text × ℕ)
sp_spent_set es = filter_map spent_outpoint es

unfoldable pub contains_outpoint : Text → ℕ → List (Text × ℕ) → Bool
contains_outpoint txid vout [] = false
contains_outpoint txid vout ((t, v) ∷ ops) =
    (text_eq t txid && v == vout) || contains_outpoint txid vout ops

-- A `u64` sum from the left.
unfoldable pub sum_from : ℕ → List ℕ → ℕ
sum_from acc [] = acc
sum_from acc (n ∷ ns) = sum_from (add_u64 acc n) ns
