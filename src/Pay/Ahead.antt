-- ===== src/Pay/Ahead.antt =====
-- pay.rs records a payment before it moves money, on every path and however it ends.
use mathlib.Core.List.{append_assoc}
use computermoney.Prelude.{
  ℕ, Text, text_eq_refl, true, Option, some, List, [], ◌∷◌, ◌++◌, ◌≡◌, refl, ap, ◌∙◌, ◌⊎◌, inl, inr,
  arith, Bool-cases, subst⁻¹, All, All-append,
}
use computermoney.Result.{ok}
use computermoney.Result.Preserves.{Preserves, Preserves-bind, state-bind_pure}
use computermoney.Result.Success.{bind_cases}
use computermoney.Storage.{Host}
use computermoney.Chain.{Esplora, broadcast}
use computermoney.Ledger.Entry.{Status, Entry, sent, sp_spent}
use computermoney.Ledger.Folds.{next_seq, is_sp_spent}
use computermoney.Ledger.Platform.{Platform}
use computermoney.Ledger.Store.{World, on_disk, append}
use computermoney.Ledger.Methods.{write_sidecar, find_sidecar, record_sp_spent}
use computermoney.Ledger.Books.{append-books}
use computermoney.Build.{OutPoint, Bdk}
use computermoney.Pay.Paths.{send_from, sp_send_from, send_spending_sp_from}
use computermoney.Pay.{
  Payer, book_and_broadcast, mark_spent, book_and_mark, send, sp_send, send_spending_sp,
}

-- A mark of a spent output.
abbrev pub IsMark : Entry → Type 0
IsMark (sp_spent _ _ _) = Unit
IsMark _ = ⊥

module _ ⦃h : Host⦄ ⦃p : Platform⦄ ⦃c : Esplora⦄ ⦃b : Bdk⦄ ⦃y : Payer⦄ where
  -- The entry of a payment made from `w`.
  abbrev pub sent_entry : World → Text → ℕ → Text → Entry
  sent_entry w to sats tx =
      sent (next_seq w.ledger.entries) (c.compute_txid tx) sats to Status.pending h.now_unix

  -- `tx` went out after its sidecar was kept and its entry was booked, which still stand.
  abbrev pub WentOut : World → Text → ℕ → Text → World → Type 0
  WentOut w to sats tx w' =
      (w'.broadcasts ≡ w.broadcasts ++ (tx ∷ []))
      × ((more : List Entry) × All IsMark more
          × (w'.ledger.entries ≡ w.ledger.entries ++ (sent_entry w to sats tx ∷ more)))
      × (find_sidecar (c.compute_txid tx) w'.disk.sidecars ≡ some (y.serialize_hex tx))

  -- Since `w` nothing went out, or one transaction did that was recorded first.
  abbrev pub IsAhead : World → Text → ℕ → World → Type 0
  IsAhead w to sats w' = (w'.broadcasts ≡ w.broadcasts) ⊎ ((tx : Text) × WentOut w to sats tx w')

  append-keeps :
      (e : Entry) (w : World)
      → ((append e w).1.broadcasts ≡ w.broadcasts)
        × ((append e w).1.disk.sidecars ≡ w.disk.sidecars)
  unfolding append
  append-keeps e w = (ground arith, ground arith)

  append_longer :
      (to : Text) (sats : ℕ) (w : World) (tx : Text) (v : World) (e : Entry) (more : List Entry)
      → All IsMark more
      → IsMark e
      → v.ledger.entries ≡ w.ledger.entries ++ (sent_entry w to sats tx ∷ more)
      → (more' : List Entry) × All IsMark more'
        × ((append e v).1.ledger.entries ≡ w.ledger.entries ++ (sent_entry w to sats tx ∷ more'))
  append_longer to sats w tx v e more marks mark entries = elim (append-books e v) [
    | inl (done, led) ↦ (
      more ++ (e ∷ []),
      All-append IsMark more (e ∷ []) marks (mark, tt),
      ap (λ l. l.entries) led
          ∙ ap (λ t. t ++ (e ∷ [])) entries
          ∙ append_assoc w.ledger.entries _ (e ∷ []),
    )
    | inr (failed, led) ↦ (more, marks, ap (λ l. l.entries) led ∙ entries)
  ]

  append-eq-ok :
      (e : Entry) (w : World) (a : Unit {0})
      → (append e w).0 ≡ ok a
      → (append e w).1.ledger.entries ≡ w.ledger.entries ++ (e ∷ [])
  append-eq-ok e w a h = elim (append-books e w) [
    | inl (done, led) ↦ ap (λ l. l.entries) led
    | inr (failed, led) ↦ absurd (ground arith)
  ]

  find-write_sidecar :
      (t hex : Text) (w : World) (a : Unit {0})
      → (on_disk (write_sidecar t hex) w).0 ≡ ok a
      → find_sidecar t (on_disk (write_sidecar t hex) w).1.disk.sidecars ≡ some hex
  unfolding on_disk write_sidecar find_sidecar
  find-write_sidecar t hex w a h = ground (arith, text_eq_refl t)

  book_and_broadcast-IsAhead :
      (to : Text) (sats : ℕ) (tx : Text) (w : World)
      → IsAhead w to sats (book_and_broadcast to sats tx w).1
  unfolding book_and_broadcast broadcast on_disk
  book_and_broadcast-IsAhead to sats tx w =
      let e : Entry = sent_entry w to sats tx in
      let txid : Text = c.compute_txid tx in
      let w₁ : World = (on_disk (write_sidecar txid (y.serialize_hex tx)) w).1 in
      let w₂ : World = (append e w₁).1 in
      bind_cases (IsAhead w to sats) (on_disk (write_sidecar txid (y.serialize_hex tx))) _ w
        (λ a kept.
          bind_cases (IsAhead w to sats) (append e) _ w₁
            (λ a' booked. subst⁻¹ (IsAhead w to sats) (state-bind_pure (broadcast tx) txid w₂) (
              inr (
                tx,
                (
                  ap (λ t. t ++ (tx ∷ [])) (append-keeps e w₁).0,
                  ([], tt, append-eq-ok e w₁ a' booked),
                  ap (find_sidecar txid) (append-keeps e w₁).1
                      ∙ find-write_sidecar txid (y.serialize_hex tx) w a kept,
                ),
              )))
            (λ x failed. inl (append-keeps e w₁).0))
        (λ x failed. inl refl)

  append_more-IsAhead :
      (to : Text) (sats : ℕ) (w : World) (e : Entry)
      → IsMark e
      → Preserves (IsAhead w to sats) (append e)
  append_more-IsAhead to sats w e mark = record {
    run = λ v ahead. elim ahead [
      | inl none_out ↦ inl ((append-keeps e v).0 ∙ none_out)
      | inr (tx, (out, (more, marks, entries), kept)) ↦ inr (
        tx,
        (
          (append-keeps e v).0 ∙ out,
          append_longer to sats w tx v e more marks mark entries,
          ap (find_sidecar (c.compute_txid tx)) (append-keeps e v).1 ∙ kept,
        ),
      )
    ];
  }

  record_sp_spent-IsAhead :
      (to : Text) (sats : ℕ) (w : World) (txid : Text) (vout : ℕ)
      → Preserves (IsAhead w to sats) (record_sp_spent txid vout)
  unfolding record_sp_spent
  record_sp_spent-IsAhead to sats w txid vout = record {
    run = λ v ahead. elim (Bool-cases (is_sp_spent txid vout v.ledger.entries)) [
      | inl old ↦ rw old ahead
      | inr new ↦ rw new (
          subst⁻¹ (IsAhead w to sats) (state-bind_pure (append _) true v) (
            (append_more-IsAhead to sats w (sp_spent (next_seq v.ledger.entries) txid vout) tt).run
              v ahead))
    ];
  }

  mark_spent-IsAhead :
      (to : Text) (sats : ℕ) (w : World) (ops : List OutPoint)
      → Preserves (IsAhead w to sats) (mark_spent ops)
  unfolding mark_spent
  mark_spent-IsAhead to sats w [] = record { run = λ v ahead. ahead }
  mark_spent-IsAhead to sats w ((txid, vout) ∷ rest) =
      Preserves-bind (record_sp_spent txid vout) _ (record_sp_spent-IsAhead to sats w txid vout)
        (λ _. mark_spent-IsAhead to sats w rest)

  book_and_mark-IsAhead :
      (to : Text) (sats : ℕ) (tx : Text) (ops : List OutPoint) (w : World)
      → IsAhead w to sats (book_and_mark to sats tx ops w).1
  unfolding book_and_mark
  book_and_mark-IsAhead to sats tx ops w =
      let booked = book_and_broadcast-IsAhead to sats tx w in
      bind_cases (IsAhead w to sats) (book_and_broadcast to sats tx) _ w
        (λ txid _.
          subst⁻¹ (IsAhead w to sats) (state-bind_pure (mark_spent ops) txid _)
            ((mark_spent-IsAhead to sats w ops).run _ booked))
        (λ x failed. booked)

  -- On every send path, however it ends, either no transaction went out, or one did whose signed
  -- form was kept as a sidecar and whose payment was booked as pending before that, behind the
  -- entries that were there; both still stand, and only marks of spent outputs follow them.
  pub sends-IsAhead :
      (ext int to : Text) (sats : ℕ) (max_fee : Option ℕ) (w : World)
      → IsAhead w to sats (send ext int to sats max_fee w).1
        × IsAhead w to sats (sp_send ext int to sats max_fee w).1
        × IsAhead w to sats (send_spending_sp ext int to sats max_fee w).1
  sends-IsAhead ext int to sats max_fee w = (
    send_from (IsAhead w to sats) ext int to sats max_fee w (inl refl)
        (λ tx. book_and_broadcast-IsAhead to sats tx w),
    sp_send_from (IsAhead w to sats) ext int to sats max_fee w (inl refl)
        (λ tx ops. book_and_mark-IsAhead to sats tx ops w),
    send_spending_sp_from (IsAhead w to sats) ext int to sats max_fee w (inl refl)
        (λ tx ops. book_and_mark-IsAhead to sats tx ops w),
  )
