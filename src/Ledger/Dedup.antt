-- ===== src/Ledger/Dedup.antt =====
-- Booking in ledger.rs is idempotent: what was booked is found, and is not booked again.
use mathlib.Core.List.{filter_map}
use computermoney.Prelude.{
  ℕ, Text, text_eq_refl, Bool, true, false, some, List, [], ◌∷◌, ◌++◌, ◌≡◌, refl, sym, ap, ◌∙◌,
  arith, Bool-cases, inl, inr,
}
use computermoney.Result.{ok, pure, ◌>>◌}
use computermoney.Result.Success.{bind-eq-ok}
use computermoney.Ledger.Entry.{Status, Entry, received, sp_received, sp_spent}
use computermoney.Ledger.Folds.{
  next_seq, has_txid, is_payment_of, has_sp_output, is_sp_spent, is_spend, latest_status,
  payment_txid, contains_outpoint, sp_spent_set, spent_outpoint, stated, overwrite,
}
use computermoney.Ledger.Platform.{Platform}
use computermoney.Ledger.Store.{World, append}
use computermoney.Ledger.Methods.{record_received, record_sp_received, record_sp_spent}
use computermoney.Ledger.Laws.{has_txid-snoc, is_sp_spent-snoc, latest_status-snoc}
use computermoney.Ledger.Books.{append-books}

-- The loop over the entries and the set that `sp_spent_set` collects answer alike.
is_sp_spent-set :
    (txid : Text) (vout : ℕ) (es : List Entry)
    → is_sp_spent txid vout es ≡ contains_outpoint txid vout (sp_spent_set es)
unfolding is_sp_spent is_spend contains_outpoint sp_spent_set spent_outpoint filter_map
is_sp_spent-set txid vout [] = refl
is_sp_spent-set txid vout (sp_spent _ t v ∷ es) = ground (arith, is_sp_spent-set txid vout es)
is_sp_spent-set txid vout (_ ∷ es) = is_sp_spent-set txid vout es

pub has_txid-middle :
    (txid : Text) (e : Entry) (before after : List Entry)
    → is_payment_of txid e ≡ true
    → has_txid txid (before ++ (e ∷ after)) ≡ true
unfolding has_txid
has_txid-middle txid e [] after h = ground arith
has_txid-middle txid e (d ∷ before) after h = ground (arith, has_txid-middle txid e before after)

module _ ⦃p : Platform⦄ where
  -- A method that appended, whatever it returned, left the entry last.
  append_then-entries :
      {B : Type 0} (e : Entry) (b : B) (w : World) {r : B}
      → ((append e >> pure b) w).0 ≡ ok r
      → (r ≡ b) × (((append e >> pure b) w).1.ledger.entries ≡ w.ledger.entries ++ (e ∷ []))
  append_then-entries e b w h =
      let (a, done, more, same) = bind-eq-ok (append e) (λ _. pure b) w h in
      elim (append-books e w) [
        | inl (_, led) ↦ (ground arith, ap (λ v. v.ledger.entries) same ∙ ap (λ l. l.entries) led)
        | inr (failed, _) ↦ absurd (ground arith)
      ]

  has_txid-record_received :
      (txid : Text) (sats index : ℕ) (w : World) (b : Bool)
      → (record_received txid sats index w).0 ≡ ok b
      → has_txid txid (record_received txid sats index w).1.ledger.entries ≡ true
  unfolding record_received is_payment_of payment_txid
  has_txid-record_received txid sats index w b h =
      elim (Bool-cases (has_txid txid w.ledger.entries)) [
        | inl old ↦ rw old old
        | inr new ↦
            let e : Entry = received (next_seq w.ledger.entries) txid sats index Status.pending in
            let (_, es) = append_then-entries e true w (rw new at h) in
            rw new (
              ap (has_txid txid) es
              ∙ has_txid-snoc txid w.ledger.entries e
              ∙ ground (arith, text_eq_refl txid))
      ]

  -- After a deposit was booked, or found to be booked before, its txid is in the ledger, and
  -- booking the txid again, under any amount and index, answers `false` and changes nothing.
  pub record_received_once :
      (txid : Text) (sats index : ℕ) (w : World) (b : Bool)
      → (record_received txid sats index w).0 ≡ ok b
      → (sats' index' : ℕ)
      → let w' = (record_received txid sats index w).1 in
        (has_txid txid w'.ledger.entries ≡ true)
        × (record_received txid sats' index' w' ≡ (ok false, w'))
  record_received_once txid sats index w b h sats' index' =
      let booked = has_txid-record_received txid sats index w b h in
      (booked, unfold record_received in rw booked refl)

  is_sp_spent-record_sp_spent :
      (txid : Text) (vout : ℕ) (w : World) (b : Bool)
      → (record_sp_spent txid vout w).0 ≡ ok b
      → is_sp_spent txid vout (record_sp_spent txid vout w).1.ledger.entries ≡ true
  unfolding record_sp_spent is_spend
  is_sp_spent-record_sp_spent txid vout w b h =
      elim (Bool-cases (is_sp_spent txid vout w.ledger.entries)) [
        | inl old ↦ rw old old
        | inr new ↦
            let e : Entry = sp_spent (next_seq w.ledger.entries) txid vout in
            let (_, es) = append_then-entries e true w (rw new at h) in
            rw new (
              ap (is_sp_spent txid vout) es
              ∙ is_sp_spent-snoc txid vout w.ledger.entries e
              ∙ ground (arith, text_eq_refl txid))
      ]

  -- After an output was marked spent it is in the set of the spent outputs, and marking it again
  -- answers `false` and changes nothing.
  pub record_sp_spent_once :
      (txid : Text) (vout : ℕ) (w : World) (b : Bool)
      → (record_sp_spent txid vout w).0 ≡ ok b
      → let w' = (record_sp_spent txid vout w).1 in
        (contains_outpoint txid vout (sp_spent_set w'.ledger.entries) ≡ true)
        × (record_sp_spent txid vout w' ≡ (ok false, w'))
  record_sp_spent_once txid vout w b h =
      let marked = is_sp_spent-record_sp_spent txid vout w b h in
      (sym (is_sp_spent-set txid vout _) ∙ marked, unfold record_sp_spent in rw marked refl)

-- A deposit that shares its transaction with a silent payment that was booked first is not booked:
-- the test for the txid finds the silent payment.
pub deposit_masked :
    ⦃p : Platform⦄ (txid : Text) (n vout sats : ℕ) (tweak : Text) (s : Status) (w : World)
    (before after : List Entry)
    → w.ledger.entries ≡ before ++ (sp_received n txid vout sats tweak s ∷ after)
    → (sats' index : ℕ) → record_received txid sats' index w ≡ (ok false, w)
unfolding record_received
deposit_masked txid n vout sats tweak s w before after e sats' index =
    let masked : has_txid txid w.ledger.entries ≡ true =
      ap (has_txid txid) e
      ∙ has_txid-middle txid (sp_received n txid vout sats tweak s) before after
          (unfold is_payment_of payment_txid in text_eq_refl txid) in
    rw masked refl

-- An output of a transaction that is final, booked late, takes the transaction back to pending.
pub late_output_unsettles :
    ⦃p : Platform⦄ (txid : Text) (vout sats : ℕ) (tweak : Text) (w : World)
    → latest_status txid w.ledger.entries ≡ some Status.final
    → has_sp_output txid vout w.ledger.entries ≡ false
    → (record_sp_received txid vout sats tweak w).0 ≡ ok true
    → latest_status txid (record_sp_received txid vout sats tweak w).1.ledger.entries
      ≡ some Status.pending
unfolding record_sp_received
late_output_unsettles txid vout sats tweak w final new h =
    let e : Entry = sp_received (next_seq w.ledger.entries) txid vout sats tweak Status.pending in
    let (_, es) = append_then-entries e true w (rw new at h) in
    rw new (
      ap (latest_status txid) es
      ∙ latest_status-snoc txid w.ledger.entries e
      ∙ (unfold stated overwrite in ground (arith, text_eq_refl txid)))
