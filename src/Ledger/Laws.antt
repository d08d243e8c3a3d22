-- ===== src/Ledger/Laws.antt =====
-- How the folds of ledger.rs answer after one more entry.
use computermoney.Prelude.{ℕ, Text, ◌||◌, Option, List, [], ◌∷◌, ◌++◌, ◌≡◌, refl, arith, add_u64}
use computermoney.Ledger.Entry.{Status, Entry, seq}
use computermoney.Ledger.Folds.{
  next_seq, stated, overwrite, latest_from, latest_status, has_txid, is_payment_of, has_sp_output,
  is_output, is_sp_spent, is_spend,
}

pub latest_from-snoc :
    (s : Option Status) (txid : Text) (es : List Entry) (e : Entry)
    → latest_from s txid (es ++ (e ∷ [])) ≡ overwrite (latest_from s txid es) (stated txid e)
unfolding latest_from
latest_from-snoc s txid [] e = refl
latest_from-snoc s txid (d ∷ es) e = latest_from-snoc (overwrite s (stated txid d)) txid es e

-- A new entry overwrites the status of the txid that it names.
pub latest_status-snoc :
    (txid : Text) (es : List Entry) (e : Entry)
    → latest_status txid (es ++ (e ∷ [])) ≡ overwrite (latest_status txid es) (stated txid e)
unfolding latest_status
latest_status-snoc txid es e = latest_from-snoc _ txid es e

pub next_seq-snoc : (es : List Entry) (e : Entry) → next_seq (es ++ (e ∷ [])) ≡ add_u64 (seq e) 1
unfolding next_seq
next_seq-snoc [] e = refl
next_seq-snoc (d ∷ []) e = refl
next_seq-snoc (d ∷ f ∷ es) e = next_seq-snoc (f ∷ es) e

pub has_txid-snoc :
    (txid : Text) (es : List Entry) (e : Entry)
    → has_txid txid (es ++ (e ∷ [])) ≡ (has_txid txid es || is_payment_of txid e)
unfolding has_txid
has_txid-snoc txid [] e = ground arith
has_txid-snoc txid (d ∷ es) e = ground (arith, has_txid-snoc txid es e)

pub has_sp_output-snoc :
    (txid : Text) (vout : ℕ) (es : List Entry) (e : Entry)
    → has_sp_output txid vout (es ++ (e ∷ []))
      ≡ (has_sp_output txid vout es || is_output txid vout e)
unfolding has_sp_output
has_sp_output-snoc txid vout [] e = ground arith
has_sp_output-snoc txid vout (d ∷ es) e = ground (arith, has_sp_output-snoc txid vout es e)

pub is_sp_spent-snoc :
    (txid : Text) (vout : ℕ) (es : List Entry) (e : Entry)
    → is_sp_spent txid vout (es ++ (e ∷ [])) ≡ (is_sp_spent txid vout es || is_spend txid vout e)
unfolding is_sp_spent
is_sp_spent-snoc txid vout [] e = ground arith
is_sp_spent-snoc txid vout (d ∷ es) e = ground (arith, is_sp_spent-snoc txid vout es e)
