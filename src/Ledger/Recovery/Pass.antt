-- ===== src/Ledger/Recovery/Pass.antt =====
-- One round of `reconcile` in ledger.rs.
use computermoney.Prelude.{
  ℕ, zero, suc, Text, Bool, true, false, Option, none, some, ◌≡◌, refl, ap, subst, subst⁻¹, ◌∙◌,
  sym, ◌⊎◌, inl, inr, arith, if◌then◌else◌, Option-cases, ◌==◌,
}
use computermoney.Result.{ok, pure, lift}
use computermoney.Result.Success.{bind-eq-ok}
use computermoney.Chain.{
  Esplora, Rebroadcast, accepted, rejected, confirmations, rebroadcast_hex, broadcast,
  is_hard_rejection, classify,
}
use computermoney.Ledger.Entry.{Status, from_confirmations}
use computermoney.Ledger.Platform.{Platform}
use computermoney.Ledger.Store.{World, on_disk}
use computermoney.Ledger.Methods.{update_status, read_sidecar, remove_sidecar}
use computermoney.Ledger.Reconcile.{settle, retry, recover, advance, reconcile_one}
use computermoney.Ledger.Recovery.{
  sidecar_of, Sets, Quiet, Quiet-Sets, Sets-Quiet, Dead, Doomed, Verdict, remove_sidecar-Quiet,
  read_sidecar-Quiet, read_sidecar-eq-ok, update_status-Sets, advance-Sets,
}

not_zero : (k : ℕ) → (suc k == 0) ≡ false
not_zero k = ground arith

module _ ⦃p : Platform⦄ ⦃c : Esplora⦄ where
  rebroadcast_hex-quiet :
      (hex : Text) (w : World)
      → ((rebroadcast_hex hex w).1.ledger ≡ w.ledger) × ((rebroadcast_hex hex w).1.disk ≡ w.disk)
  unfolding rebroadcast_hex broadcast
  rebroadcast_hex-quiet hex w = ground arith

  rebroadcast_hex-Quiet : (txid hex : Text) (w : World) → Quiet txid w (rebroadcast_hex hex w).1
  rebroadcast_hex-Quiet txid hex w =
      let (led, disk) = rebroadcast_hex-quiet hex w in (λ t. rw led refl, λ t other. rw disk refl)

  classify-rejected :
      (o : Option Text) (reason : Text)
      → classify o ≡ rejected reason
      → (msg : Text) × (o ≡ some msg) × (is_hard_rejection msg ≡ true)
  classify-rejected none reason h = absurd (cc)
  classify-rejected (some msg) reason h = (msg, refl, ground arith)

  -- What the answer to a rebroadcast says of the transaction.
  abbrev Told : Text → Rebroadcast → Type 0
  Told hex accepted = ¬ Dead hex
  Told hex (rejected reason) = Dead hex

  classify-not_hard :
      (o : Option Text) (msg : Text)
      → classify o ≡ accepted
      → o ≡ some msg
      → is_hard_rejection msg ≡ true
      → ⊥
  classify-not_hard none msg h sent hard = absurd (cc)
  classify-not_hard (some m) msg h sent hard = absurd (ground arith)

  rebroadcast_hex-Told :
      (hex : Text) (r : Rebroadcast) (w : World) → (rebroadcast_hex hex w).0 ≡ ok r → Told hex r
  unfolding rebroadcast_hex
  rebroadcast_hex-Told hex accepted w h = elim (Option-cases (c.deserialize_hex hex)) [
    | inl bad ↦ absurd (ground arith)
    | inr (tx, good) ↦ λ dead.
        let (tx', msg, good', sent, hard) = dead in
        let same : tx' ≡ tx = ground arith in
        classify-not_hard (c.send_tx tx) msg (ground arith) (ap c.send_tx (sym same) ∙ sent) hard
  ]
  rebroadcast_hex-Told hex (rejected reason) w h = elim (Option-cases (c.deserialize_hex hex)) [
    | inl bad ↦ absurd (ground arith)
    | inr (tx, good) ↦
        let (msg, sent, hard) = classify-rejected (c.send_tx tx) reason (ground arith) in
        (tx, msg, good, sent, hard)
  ]

  settle-rejected :
      (txid reason : Text) (w : World) (b : Bool)
      → (settle txid (rejected reason) w).0 ≡ ok b
      → (b ≡ true) × Sets txid Status.failed w (settle txid (rejected reason) w).1
  unfolding settle
  settle-rejected txid reason w b h =
      let w₁ : World = (update_status txid Status.failed w).1 in
      let (a, set, more, same) = bind-eq-ok (update_status txid Status.failed) _ w h in
      let (a', _, done, same') = bind-eq-ok (on_disk (remove_sidecar txid)) _ w₁ more in
      (
        ground arith,
        subst⁻¹ (λ v. Sets txid Status.failed w v) (same ∙ same')
            (Sets-Quiet txid Status.failed w w₁ (on_disk (remove_sidecar txid) w₁).1
              (update_status-Sets txid Status.failed w a set) (remove_sidecar-Quiet txid w₁)),
      )

  -- What a recovery that answered `dead` leaves, for a payment with `k` confirmations.
  abbrev Recovered : Text → ℕ → Option Text → Bool → World → World → Type 0
  Recovered txid k kept false w w' = Quiet txid w w' × ((¬ (k ≡ 0)) ⊎ (¬ Doomed kept))
  Recovered txid k kept true w w' = (k ≡ 0) × Doomed kept × Sets txid Status.failed w w'

  Told-not_Doomed : (hex : Text) → ¬ Dead hex → ¬ Doomed (some hex)
  Told-not_Doomed hex alive = λ doomed.
      let (hex', same, dead) = doomed in
      let back : hex' ≡ hex = ground arith in alive (subst (λ x. Dead x) back dead)

  settle-Recovered :
      (txid hex : Text) (r : Rebroadcast) (w : World) (b : Bool)
      → Told hex r
      → (settle txid r w).0 ≡ ok b
      → Recovered txid 0 (some hex) b w (settle txid r w).1
  unfolding settle
  settle-Recovered txid hex accepted w true told h = absurd (ground arith)
  settle-Recovered txid hex accepted w false told h =
      ((λ t. refl, λ t other. refl), inr (Told-not_Doomed hex told))
  settle-Recovered txid hex (rejected reason) w false told h =
      absurd (ground (arith, settle-rejected txid reason w false h))
  settle-Recovered txid hex (rejected reason) w true told h =
      (refl, (hex, refl, told), (settle-rejected txid reason w true h).1)

  Quiet-Recovered :
      (txid : Text) (k : ℕ) (kept : Option Text) (b : Bool) (u v w : World)
      → Quiet txid u v
      → Recovered txid k kept b v w
      → Recovered txid k kept b u w
  Quiet-Recovered txid k kept false u v w q (r, spares) =
      ((λ t. r.0 t ∙ q.0 t, λ t other. r.1 t other ∙ q.1 t other), spares)
  Quiet-Recovered txid k kept true u v w q (none_yet, doomed, sets) =
      (none_yet, doomed, Quiet-Sets txid Status.failed u v w q sets)

  retry-Recovered :
      (txid : Text) (kept : Option Text) (w : World) (b : Bool)
      → (retry txid kept w).0 ≡ ok b
      → Recovered txid 0 kept b w (retry txid kept w).1
  unfolding retry
  retry-Recovered txid none w true h = absurd (ground arith)
  retry-Recovered txid none w false h =
      ((λ t. refl, λ t other. refl), inr λ doomed. let (hex, same, dead) = doomed in absurd (cc))
  retry-Recovered txid (some hex) w b h =
      let w₁ : World = (rebroadcast_hex hex w).1 in
      let (r, sent, more, same) = bind-eq-ok (rebroadcast_hex hex) (settle txid) w h in
      subst⁻¹ (λ v. Recovered txid 0 (some hex) b w v) same
        (Quiet-Recovered txid 0 (some hex) b w w₁ (settle txid r w₁).1
          (rebroadcast_hex-Quiet txid hex w)
          (settle-Recovered txid hex r w₁ b (rebroadcast_hex-Told hex r w sent) more))

  recover-Recovered :
      (txid : Text) (k : ℕ) (w : World) (b : Bool)
      → (recover txid k w).0 ≡ ok b
      → Recovered txid k (sidecar_of txid w) b w (recover txid k w).1
  unfolding recover
  recover-Recovered txid zero w b h =
      let w₁ : World = (on_disk (read_sidecar txid) w).1 in
      let (o, found, more, same) = bind-eq-ok (on_disk (read_sidecar txid)) (retry txid) w h in
      subst⁻¹ (λ v. Recovered txid 0 (sidecar_of txid w) b w v) same
        (Quiet-Recovered txid 0 (sidecar_of txid w) b w w₁ (retry txid o w₁).1
          (read_sidecar-Quiet txid w)
          (subst (λ kept. Recovered txid 0 kept b w₁ (retry txid o w₁).1)
            (read_sidecar-eq-ok txid w o found) (retry-Recovered txid o w₁ b more)))
  recover-Recovered txid (suc k) w true h = absurd (ground arith)
  recover-Recovered txid (suc k) w false h =
      rw (not_zero k) ((λ t. refl, λ t other. refl), inl λ e. absurd (ground arith))

  after_recovery :
      (txid : Text) (k : ℕ) (dead : Bool) (u w : World) (n : ℕ)
      → confirmations txid ≡ ok k
      → Recovered txid k (sidecar_of txid u) dead u w
      → ((if dead then pure 1 else advance txid k) w).0 ≡ ok n
      → (s : Status) × Verdict txid (sidecar_of txid u) s
        × Sets txid s u ((if dead then pure 1 else advance txid k) w).1
  after_recovery txid k true u w n asked (none_yet, doomed, sets) h =
      (Status.failed, (k, asked, inr (none_yet, refl, doomed)), sets)
  after_recovery txid k false u w n asked (quiet, spares) h = (
    from_confirmations k,
    (k, asked, inl (refl, spares)),
    Quiet-Sets txid (from_confirmations k) u w (advance txid k w).1 quiet
        (advance-Sets txid k w n h),
  )

  -- One round of the loop gives the payment the status that the chain says, and no other payment
  -- another status.
  pub reconcile_one-Sets :
      (txid : Text) (w : World) (n : ℕ)
      → (reconcile_one txid w).0 ≡ ok n
      → (s : Status) × Verdict txid (sidecar_of txid w) s × Sets txid s w (reconcile_one txid w).1
  unfolding reconcile_one
  reconcile_one-Sets txid w n h =
      let (k, asked, more, same) = bind-eq-ok (lift (confirmations txid)) _ w h in
      let (b, tried, rest, same') = bind-eq-ok (recover txid k) _ w more in
      let (s, verdict, sets) =
        after_recovery txid k b w (recover txid k w).1 n asked (recover-Recovered txid k w b tried)
          rest in
      (s, verdict, subst⁻¹ (λ v. Sets txid s w v) (same ∙ same') sets)
