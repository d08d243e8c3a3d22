-- ===== src/Ledger/Entry.antt =====
-- ledger.rs: `Status` and `Entry`.
use computermoney.Prelude.{ℕ, zero, suc, Text, Bool, true, false}

pub data Status : Type 0 where
  pending soft final failed : Status

unfoldable pub from_confirmations : ℕ → Status
from_confirmations zero = pending
from_confirmations (suc zero) = soft
from_confirmations (suc (suc zero)) = soft
from_confirmations (suc (suc (suc n))) = final

unfoldable pub status_eq : Status → Status → Bool
status_eq pending pending = true
status_eq soft soft = true
status_eq final final = true
status_eq failed failed = true
status_eq _ _ = false

-- The fields stand in the source's order.
pub data Entry : Type 0 where
  -- seq, index
  address_issued : ℕ → ℕ → Entry
  -- seq, txid, sats, to, status, at
  sent : ℕ → Text → ℕ → Text → Status → ℕ → Entry
  -- seq, txid, sats, index, status
  received : ℕ → Text → ℕ → ℕ → Status → Entry
  -- seq, txid, status
  status_update : ℕ → Text → Status → Entry
  -- seq, txid, vout, sats, tweak, status
  sp_received : ℕ → Text → ℕ → ℕ → Text → Status → Entry
  -- seq, txid, vout
  sp_spent : ℕ → Text → ℕ → Entry

unfoldable pub seq : Entry → ℕ
seq (address_issued s _) = s
seq (sent s _ _ _ _ _) = s
seq (received s _ _ _ _) = s
seq (status_update s _ _) = s
seq (sp_received s _ _ _ _ _) = s
seq (sp_spent s _ _) = s
