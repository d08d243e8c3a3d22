-- ===== src/Ledger/Recovery/Settled.antt =====
-- A whole pass of `reconcile` in ledger.rs.
use computermoney.Prelude.{
  ℕ, ◌+◌, Text, text_eq, text_eq_iff, contains, true, false, some, List, [], ◌∷◌, ◌≡◌, refl, ap,
  subst, subst⁻¹, ◌∙◌, inl, inr, arith, Bool-cases,
}
use computermoney.Result.{ok, Exec}
use computermoney.Result.Success.{bind-eq-ok}
use computermoney.Chain.{Esplora}
use computermoney.Ledger.Entry.{Status}
use computermoney.Ledger.Folds.{latest_status}
use computermoney.Ledger.Balances.{pending}
use computermoney.Ledger.Platform.{Platform}
use computermoney.Ledger.Store.{Disk, Ledger, World, on_disk}
use computermoney.Ledger.Queue.{Distinct, pending_exact}
use computermoney.Ledger.Reconcile.{reconcile_one, reconcile_each, sweep_orphans, reconcile}
use computermoney.Result.Preserves.{Preserves}
use computermoney.Ledger.Methods.{remove_sidecar, list_sidecars}
use computermoney.Ledger.Recovery.Keeps.{sweep_orphans-Preserves}
use computermoney.Ledger.Recovery.Pass.{reconcile_one-Sets}
use computermoney.Ledger.Recovery.{status_of, sidecar_of, Sets, Verdict}

module _ ⦃p : Platform⦄ ⦃c : Esplora⦄ where
  -- `w'` gives every payment of `queue` the status that the chain says, and leaves the others.
  pub record IsSettled (queue : List Text) (w w' : World) : Type 0 where
    pub listed :
        (t : Text)
        → contains t queue ≡ true
        → (s : Status) × Verdict t (sidecar_of t w) s × (status_of t w' ≡ some s)
    pub unlisted :
        (t : Text)
        → contains t queue ≡ false
        → (status_of t w' ≡ status_of t w) × (sidecar_of t w' ≡ sidecar_of t w)

  module _ (txid : Text) (rest : List Text) (u v w : World) (s : Status)
      (new : contains txid rest ≡ false) (verdict : Verdict txid (sidecar_of txid u) s)
      (sets : Sets txid s u v) (ih : IsSettled rest v w) where
    IsSettled_head :
        (t : Text)
        → txid ≡ t
        → (s' : Status) × Verdict t (sidecar_of t u) s' × (status_of t w ≡ some s')
    IsSettled_head t e = (
      s,
      subst (λ x. Verdict x (sidecar_of x u) s) e verdict,
      (ih.unlisted t (subst (λ x. contains x rest ≡ false) e new)).0
          ∙ ground (arith, sets.0 t, text_eq_iff txid t),
    )

    IsSettled_rest :
        (t : Text)
        → text_eq txid t ≡ false
        → contains t rest ≡ true
        → (s' : Status) × Verdict t (sidecar_of t u) s' × (status_of t w ≡ some s')
    IsSettled_rest t other found =
        let (s', of_chain, now) = ih.listed t found in
        (s', subst (λ kept. Verdict t kept s') (sets.1 t other) of_chain, now)

    IsSettled-cons : IsSettled (txid ∷ rest) u w
    unfolding contains
    IsSettled-cons = record {
      listed = λ t found. elim (Bool-cases (text_eq txid t)) [
        | inl same ↦ IsSettled_head t ((text_eq_iff txid t).0 same)
        | inr other ↦ IsSettled_rest t other (ground arith)
      ];
      unlisted = λ t absent.
          let other : text_eq txid t ≡ false = ground arith in
          let (status, sidecar) = ih.unlisted t (ground arith) in
          (status ∙ rw other at (sets.0 t), sidecar ∙ sets.1 t other);
    }

  reconcile_each-IsSettled :
      (queue : List Text) (changed : ℕ) (w : World) (n : ℕ)
      → Distinct queue
      → (reconcile_each queue changed w).0 ≡ ok n
      → IsSettled queue w (reconcile_each queue changed w).1
  unfolding reconcile_each
  reconcile_each-IsSettled [] changed w n d h = record {
    listed = λ t found. absurd (unfold contains in cc);
    unlisted = λ t new. (refl, refl);
  }
  reconcile_each-IsSettled (txid ∷ rest) changed w n (new, d) h =
      let w₁ : World = (reconcile_one txid w).1 in
      let (m, done, more, same) = bind-eq-ok (reconcile_one txid) _ w h in
      let (s, verdict, sets) = reconcile_one-Sets txid w m done in
      let ih = reconcile_each-IsSettled rest (changed + m) w₁ n d more in
      subst⁻¹ (λ v. IsSettled (txid ∷ rest) w v) same
        (IsSettled-cons txid rest w w₁ (reconcile_each rest (changed + m) w₁).1 s new verdict sets
          ih)

abbrev HasLedger : Ledger → World → Type 0
HasLedger led w = w.ledger ≡ led

on_disk-HasLedger :
    {A : Type 0} (led : Ledger) (m : Exec Disk A) → Preserves (HasLedger led) (on_disk m)
unfolding on_disk
on_disk-HasLedger led m = record { run = λ w h. h }

module _ ⦃p : Platform⦄ ⦃c : Esplora⦄ where
  -- A pass of `reconcile` that ends well gives every payment of the work queue the status that the
  -- chain says (failed where it has no confirmation and the transaction kept for it is refused for
  -- good, and its confirmations' status in every other case), and leaves the status of every other
  -- payment.
  pub reconcile_settles :
      (w : World) (n : ℕ)
      → (reconcile w).0 ≡ ok n
      → ((t : Text)
          → contains t (pending w.ledger.entries) ≡ true
          → (s : Status) × Verdict t (sidecar_of t w) s × (status_of t (reconcile w).1 ≡ some s))
        × ((t : Text)
            → contains t (pending w.ledger.entries) ≡ false
            → status_of t (reconcile w).1 ≡ status_of t w)
  unfolding reconcile
  reconcile_settles w n h =
      let queue : List Text = pending w.ledger.entries in
      let w₁ : World = (reconcile_each queue 0 w).1 in
      let (m, done, more, same) = bind-eq-ok (reconcile_each queue 0) _ w h in
      let (a, swept, _, same') = bind-eq-ok sweep_orphans _ w₁ more in
      let settled = reconcile_each-IsSettled queue 0 w m (pending_exact w.ledger.entries).0 done in
      let final : (sweep_orphans w₁).1.ledger ≡ w₁.ledger =
        (sweep_orphans-Preserves (λ t. on_disk-HasLedger _ (remove_sidecar t))
            (on_disk-HasLedger w₁.ledger list_sidecars)).run
          w₁ refl in
      let ends : (reconcile w).1.ledger ≡ w₁.ledger = ap (λ v. v.ledger) (same ∙ same') ∙ final in
      let status : (t : Text) → status_of t (reconcile w).1 ≡ status_of t w₁ =
        λ t. ap (λ led. latest_status t led.entries) ends in
      (
        λ t waits. let (s, verdict, now) = settled.listed t waits in (s, verdict, status t ∙ now),
        λ t other. status t ∙ (settled.unlisted t other).0,
      )
