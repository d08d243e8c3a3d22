-- ===== src/Pay/Crash.antt =====
-- What a process that dies leaves of a payment of pay.rs, and what the next one makes of it.
use computermoney.Prelude.{
  ℕ, Text, text_eq_refl, contains, true, Option, some, List, [], ◌∷◌, ◌++◌, ◌≡◌, refl, ap, ◌∙◌,
  arith, All, Bool-cases, ◌⊎◌, inl, inr, sym, subst, subst⁻¹,
}
use computermoney.Result.{ok}
use computermoney.Result.Preserves.{Preserves, Preserves-bind, state-bind_pure}
use computermoney.Result.Success.{bind_cases, ok_inj}
use computermoney.Storage.{Host}
use computermoney.Chain.{Esplora, broadcast}
use computermoney.Ledger.Entry.{
  Status, Entry, address_issued, sent, received, status_update, sp_received, sp_spent, status_eq,
}
use computermoney.Ledger.Folds.{
  next_seq, has_txid, is_payment_of, payment_txid, is_sp_spent, latest_from, latest_status, stated,
  overwrite, status_is,
}
use computermoney.Ledger.Balances.{pending, in_flight}
use computermoney.Ledger.Platform.{Platform, IsSound}
use computermoney.Ledger.Store.{World, on_disk, append, parse_ledger}
use computermoney.Ledger.Methods.{write_sidecar, find_sidecar, record_sp_spent}
use computermoney.Ledger.Queue.{pending_exact}
use computermoney.Ledger.Reconcile.{reconcile}
use computermoney.Ledger.Recovery.{status_of, sidecar_of, Verdict}
use computermoney.Ledger.Recovery.Settled.{reconcile_settles}
use computermoney.Ledger.Dedup.{has_txid-middle}
use computermoney.Ledger.Durability.{IsSynced, append-IsSynced, reopen}
use computermoney.Build.{OutPoint, Bdk}
use computermoney.Pay.{
  Payer, book_and_broadcast, mark_spent, book_and_mark, send, sp_send, send_spending_sp,
}
use computermoney.Pay.Ahead.{IsMark, WentOut, IsAhead, sends-IsAhead}
use computermoney.Pay.Paths.{send_from, sp_send_from, send_spending_sp_from}

latest_from-append :
    (s : Option Status) (t : Text) (es ds : List Entry)
    → latest_from s t (es ++ ds) ≡ latest_from (latest_from s t es) t ds
unfolding latest_from
latest_from-append s t [] ds = refl
latest_from-append s t (e ∷ es) ds = latest_from-append (overwrite s (stated t e)) t es ds

latest_from-marks :
    (s : Option Status) (t : Text) (more : List Entry) → All IsMark more → latest_from s t more ≡ s
unfolding latest_from stated overwrite
latest_from-marks s t [] h = refl
latest_from-marks s t (sp_spent _ _ _ ∷ more) h = latest_from-marks s t more h.1
latest_from-marks s t (address_issued _ _ ∷ more) h = absurd h.0
latest_from-marks s t (sent _ _ _ _ _ _ ∷ more) h = absurd h.0
latest_from-marks s t (received _ _ _ _ _ ∷ more) h = absurd h.0
latest_from-marks s t (status_update _ _ _ ∷ more) h = absurd h.0
latest_from-marks s t (sp_received _ _ _ _ _ _ ∷ more) h = absurd h.0

-- A payment booked as pending, with nothing but marks behind it, is in the work queue.
sent_is_pending :
    (es more : List Entry) (n sats at : ℕ) (txid to : Text)
    → All IsMark more
    → contains txid (pending (es ++ (sent n txid sats to Status.pending at ∷ more))) ≡ true
unfolding latest_status latest_from is_payment_of payment_txid stated overwrite in_flight status_is
    status_eq
sent_is_pending es more n sats at txid to marks =
    let e : Entry = sent n txid sats to Status.pending at in
    let booked : has_txid txid (es ++ (e ∷ more)) ≡ true =
      has_txid-middle txid e es more (text_eq_refl txid) in
    let status : latest_status txid (es ++ (e ∷ more)) ≡ some Status.pending =
      latest_from-append _ txid es (e ∷ more)
      ∙ latest_from-marks _ txid more marks
      ∙ ground (arith, text_eq_refl txid) in
    (pending_exact (es ++ (e ∷ more))).1 txid ∙ rw (booked, status) refl

module _ ⦃p : Platform⦄ where
  write_sidecar-IsSynced : (t hex : Text) → Preserves IsSynced (on_disk (write_sidecar t hex))
  unfolding on_disk write_sidecar
  write_sidecar-IsSynced t hex = record { run = λ w h. ground arith }

  pub record_sp_spent-IsSynced :
      (txid : Text) (vout : ℕ) → Preserves IsSynced (record_sp_spent txid vout)
  unfolding record_sp_spent
  record_sp_spent-IsSynced txid vout = record {
    run = λ w h. elim (Bool-cases (is_sp_spent txid vout w.ledger.entries)) [
      | inl old ↦ rw old h
      | inr new ↦
          rw new
            (subst⁻¹ IsSynced (state-bind_pure (append _) true w) ((append-IsSynced _).run w h))
    ];
  }

module _ ⦃h : Host⦄ ⦃p : Platform⦄ ⦃c : Esplora⦄ ⦃b : Bdk⦄ ⦃y : Payer⦄ where
  broadcast-IsSynced : (tx : Text) → Preserves IsSynced (broadcast tx)
  unfolding broadcast
  broadcast-IsSynced tx = record { run = λ w h. record { written = h.written; untorn = h.untorn } }

  book_and_broadcast-IsSynced :
      (to : Text) (sats : ℕ) (tx : Text) (w : World)
      → IsSynced w
      → IsSynced (book_and_broadcast to sats tx w).1
  unfolding book_and_broadcast
  book_and_broadcast-IsSynced to sats tx w synced =
      let txid : Text = c.compute_txid tx in
      let w₁ : World = (on_disk (write_sidecar txid (y.serialize_hex tx)) w).1 in
      let s₁ : IsSynced w₁ = (write_sidecar-IsSynced txid (y.serialize_hex tx)).run w synced in
      let e : Entry = sent (next_seq w₁.ledger.entries) txid sats to Status.pending h.now_unix in
      let s₂ : IsSynced (append e w₁).1 = (append-IsSynced e).run w₁ s₁ in
      bind_cases IsSynced (on_disk (write_sidecar txid (y.serialize_hex tx))) _ w
        (λ a kept.
          bind_cases IsSynced (append e) _ w₁
            (λ a' booked.
              subst⁻¹ IsSynced (state-bind_pure (broadcast tx) txid (append e w₁).1)
                ((broadcast-IsSynced tx).run (append e w₁).1 s₂))
            (λ x failed. s₂))
        (λ x failed. s₁)

  mark_spent-IsSynced : (ops : List OutPoint) → Preserves IsSynced (mark_spent ops)
  unfolding mark_spent
  mark_spent-IsSynced [] = record { run = λ w h. h }
  mark_spent-IsSynced ((txid, vout) ∷ rest) =
      Preserves-bind (record_sp_spent txid vout) _ (record_sp_spent-IsSynced txid vout)
        (λ _. mark_spent-IsSynced rest)

  book_and_mark-IsSynced :
      (to : Text) (sats : ℕ) (tx : Text) (ops : List OutPoint) (w : World)
      → IsSynced w
      → IsSynced (book_and_mark to sats tx ops w).1
  unfolding book_and_mark
  book_and_mark-IsSynced to sats tx ops w synced =
      let booked = book_and_broadcast-IsSynced to sats tx w synced in
      bind_cases IsSynced (book_and_broadcast to sats tx) _ w
        (λ txid _.
          subst⁻¹ IsSynced (state-bind_pure (mark_spent ops) txid _)
            ((mark_spent-IsSynced ops).run _ booked))
        (λ x failed. booked)

  -- However a send ends, on each of the three paths, a ledger whose file holds its entries, with no
  -- torn write to come, stays so.
  pub sends-IsSynced :
      (ext int to : Text) (sats : ℕ) (max_fee : Option ℕ) (w : World)
      → IsSynced w
      → IsSynced (send ext int to sats max_fee w).1
        × IsSynced (sp_send ext int to sats max_fee w).1
        × IsSynced (send_spending_sp ext int to sats max_fee w).1
  sends-IsSynced ext int to sats max_fee w synced = (
    send_from IsSynced ext int to sats max_fee w synced
        (λ tx. book_and_broadcast-IsSynced to sats tx w synced),
    sp_send_from IsSynced ext int to sats max_fee w synced
        (λ tx ops. book_and_mark-IsSynced to sats tx ops w synced),
    send_spending_sp_from IsSynced ext int to sats max_fee w synced
        (λ tx ops. book_and_mark-IsSynced to sats tx ops w synced),
  )

  -- `w'` is what one of the three send paths leaves of `w`, however it ends.
  pub data IsSend (ext int to : Text) (sats : ℕ) (max_fee : Option ℕ) (w : World)
      : World → Type 0 where
    by_send : IsSend ext int to sats max_fee w (send ext int to sats max_fee w).1
    by_sp_send : IsSend ext int to sats max_fee w (sp_send ext int to sats max_fee w).1
    by_spending_sp : IsSend ext int to sats max_fee w (send_spending_sp ext int to sats max_fee w).1

  IsSend-IsAhead :
      (ext int to : Text) (sats : ℕ) (max_fee : Option ℕ) (w w' : World)
      → IsSend ext int to sats max_fee w w'
      → IsAhead w to sats w'
  IsSend-IsAhead ext int to sats max_fee w _ by_send = (sends-IsAhead ext int to sats max_fee w).0
  IsSend-IsAhead ext int to sats max_fee w _ by_sp_send =
      (sends-IsAhead ext int to sats max_fee w).1
  IsSend-IsAhead ext int to sats max_fee w _ by_spending_sp =
      (sends-IsAhead ext int to sats max_fee w).2

  IsSend-IsSynced :
      (ext int to : Text) (sats : ℕ) (max_fee : Option ℕ) (w w' : World)
      → IsSend ext int to sats max_fee w w'
      → IsSynced w
      → IsSynced w'
  IsSend-IsSynced ext int to sats max_fee w _ by_send synced =
      (sends-IsSynced ext int to sats max_fee w synced).0
  IsSend-IsSynced ext int to sats max_fee w _ by_sp_send synced =
      (sends-IsSynced ext int to sats max_fee w synced).1
  IsSend-IsSynced ext int to sats max_fee w _ by_spending_sp synced =
      (sends-IsSynced ext int to sats max_fee w synced).2

  -- The payment of `tx` is in the work queue of `w`, with its signed transaction kept.
  IsQueued : Text → World → Type 0
  IsQueued tx w =
      (contains (c.compute_txid tx) (pending w.ledger.entries) ≡ true)
      × (sidecar_of (c.compute_txid tx) w ≡ some (y.serialize_hex tx))

  WentOut-IsQueued :
      (to : Text) (sats : ℕ) (tx : Text) (w w' : World) → WentOut w to sats tx w' → IsQueued tx w'
  unfolding IsQueued
  WentOut-IsQueued to sats tx w w' (out, (more, marks, entries), kept) = (
    ap (λ es. contains (c.compute_txid tx) (pending es)) entries
        ∙ sent_is_pending w.ledger.entries more _ sats _ (c.compute_txid tx) to marks,
    kept,
  )

  -- The queue and the sidecars are those of the files, whatever process reads them.
  restarted-IsQueued :
      (tx : Text) (w' v : World)
      → w'.ledger ≡ v.ledger
      → v.disk.sidecars ≡ w'.disk.sidecars
      → IsQueued tx w'
      → IsQueued tx v
  unfolding IsQueued
  restarted-IsQueued tx w' v led sidecars (queued, kept) = (
    ap (λ l. contains (c.compute_txid tx) (pending l.entries)) (sym led) ∙ queued,
    ap (find_sidecar (c.compute_txid tx)) sidecars ∙ kept,
  )

  pub sent_payment_recovers :
      IsSound p
      → (ext int to : Text) (sats : ℕ) (max_fee : Option ℕ) (w w' v : World) (n : ℕ) → IsSynced w
      → IsSend ext int to sats max_fee w w'
      → parse_ledger w'.ledger.identity w'.disk.file ≡ ok v.ledger
      → v.disk.sidecars ≡ w'.disk.sidecars
      → (reconcile v).0 ≡ ok n
      → (parse_ledger w'.ledger.identity w'.disk.file ≡ ok w'.ledger)
        × ((w'.broadcasts ≡ w.broadcasts)
            ⊎ ((tx : Text) × (w'.broadcasts ≡ w.broadcasts ++ (tx ∷ []))
                × (s : Status) × Verdict (c.compute_txid tx) (some (y.serialize_hex tx)) s
                × (status_of (c.compute_txid tx) (reconcile v).1 ≡ some s)))
  unfolding IsQueued
  sent_payment_recovers sound ext int to sats max_fee w w' v n synced sends opened sidecars healed =
      let reopened = reopen sound w' (IsSend-IsSynced ext int to sats max_fee w w' sends synced) in
      (
        reopened,
        elim (IsSend-IsAhead ext int to sats max_fee w w' sends) [
          | inl none_sent ↦ inl none_sent
          | inr (tx, went) ↦
              let (queued, kept) =
                restarted-IsQueued tx w' v (ok_inj _ _ (sym reopened ∙ opened)) sidecars
                  (WentOut-IsQueued to sats tx w w' went) in
              let (s, verdict, now) = (reconcile_settles v n healed).0 (c.compute_txid tx) queued in
              inr (tx, went.0, s, subst (λ o. Verdict (c.compute_txid tx) o s) kept verdict, now)
        ],
      )
