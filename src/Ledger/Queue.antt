-- ===== src/Ledger/Queue.antt =====
-- The work queue of ledger.rs: which payments `pending` lists, and how often.
use computermoney.Prelude.{
  Text, text_eq, text_eq_iff, text_eq_refl, contains, Bool, true, false, not, ◌&&◌, List, [], ◌∷◌,
  ◌≡◌, refl, arith, if◌then◌else◌, Option-cases, inl, inr, ◌∙◌,
}
use computermoney.Ledger.Entry.{Entry}
use computermoney.Ledger.Folds.{latest_status, has_txid, is_payment_of, payment_txid}
use computermoney.Ledger.Balances.{in_flight, pending_from, pending}

-- No txid is listed twice.
abbrev pub Distinct : List Text → Type 0
Distinct [] = Unit
Distinct (t ∷ ts) = (contains t ts ≡ false) × Distinct ts

contains_congr : (s t : Text) (ts : List Text) → text_eq s t ≡ true → contains s ts ≡ contains t ts
contains_congr s t ts h = ground (arith, text_eq_iff s t)

Distinct-if :
    (b : Bool) (t : Text) (ts : List Text)
    → contains t ts ≡ false
    → Distinct ts
    → Distinct (if b then t ∷ ts else ts)
Distinct-if true t ts new h = (new, h)
Distinct-if false t ts new h = h

module _ (es : List Entry) where
  -- `t` is a payment of `rest` that the loop has not met, and is in flight.
  abbrev waits : Text → List Text → List Entry → Bool
  waits t seen rest = (not (contains t seen) && has_txid t rest) && in_flight (latest_status t es)

  contains-pending_from :
      (t : Text) (seen : List Text) (rest : List Entry)
      → contains t (pending_from es seen rest) ≡ waits t seen rest
  unfolding pending_from has_txid contains is_payment_of
  contains-pending_from t seen [] = ground arith
  contains-pending_from t seen (e ∷ rest) = elim (Option-cases (payment_txid e)) [
    | inl other ↦ rw (other, pending_from) (ground (arith, contains-pending_from t seen rest))
    | inr (u, pays) ↦
        rw (pays, pending_from)
          (ground (arith, contains-pending_from t (u ∷ seen) rest, text_eq_iff u t))
  ]

  pending_from-Distinct :
      (seen : List Text) (rest : List Entry) → Distinct (pending_from es seen rest)
  unfolding pending_from
  pending_from-Distinct seen [] = tt
  pending_from-Distinct seen (e ∷ rest) = elim (Option-cases (payment_txid e)) [
    | inl other ↦ rw (other, pending_from) (pending_from-Distinct seen rest)
    | inr (u, pays) ↦
        rw (pays, pending_from)
          (Distinct-if _ u _
            (contains-pending_from u (u ∷ seen) rest ∙ unfold contains in rw text_eq_refl refl)
            (pending_from-Distinct (u ∷ seen) rest))
  ]

-- The work queue lists exactly the payments that are neither final nor failed, each once.
pub pending_exact :
    (es : List Entry)
    → Distinct (pending es)
      × ((t : Text) → contains t (pending es) ≡ (has_txid t es && in_flight (latest_status t es)))
unfolding pending contains
pending_exact es = (pending_from-Distinct es [] es, λ t. contains-pending_from es t [] es)
