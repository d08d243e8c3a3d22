-- ===== src/Ledger/Recovery/Keeps.antt =====
-- What the steps of `reconcile` in ledger.rs keep, the whole pass keeps.
use mathlib.Core.List.{filter_map}
use computermoney.Prelude.{ℕ, ◌+◌, Text, true, false, Option, none, some, List, [], ◌∷◌, leb, ◌==◌}
use computermoney.Result.{pure, lift, gets}
use computermoney.Result.Preserves.{
  Preserves, Preserves-pure, Preserves-lift, Preserves-gets, Preserves-if, Preserves-bind,
}
use computermoney.Chain.{Esplora, Rebroadcast, accepted, rejected, confirmations, rebroadcast_hex}
use computermoney.Ledger.Entry.{Status, from_confirmations}
use computermoney.Ledger.Folds.{status_is, latest_status}
use computermoney.Ledger.Balances.{pending}
use computermoney.Ledger.Platform.{Platform}
use computermoney.Ledger.Store.{World, on_disk}
use computermoney.Ledger.Methods.{
  entries_of, update_status, read_sidecar, remove_sidecar, list_sidecars,
}
use computermoney.Ledger.Reconcile.{
  sent_txid, orphans, settle, retry, recover, set_status, drop_settled, advance, reconcile_one,
  reconcile_each, remove_all, sweep_orphans, reconcile,
}

module _ ⦃p : Platform⦄ ⦃c : Esplora⦄ {P : World → Type 0}
    (removes : (t : Text) → Preserves P (on_disk (remove_sidecar t)))
    (lists : Preserves P (on_disk list_sidecars)) where
  remove_all-Preserves : (files : List Text) → Preserves P (remove_all files)
  unfolding remove_all
  remove_all-Preserves [] = Preserves-pure tt
  remove_all-Preserves (t ∷ files) =
      Preserves-bind (on_disk (remove_sidecar t)) (λ _. remove_all files) (removes t)
        (λ _. remove_all-Preserves files)

  pub sweep_orphans-Preserves : Preserves P sweep_orphans
  unfolding sweep_orphans
  sweep_orphans-Preserves = Preserves-bind (gets entries_of) _ (Preserves-gets entries_of) λ es.
      Preserves-bind (on_disk list_sidecars) _ lists
        λ files. remove_all-Preserves (orphans (filter_map sent_txid es) files)

  module _ (reads : (t : Text) → Preserves P (on_disk (read_sidecar t)))
      (updates : (t : Text) (s : Status) → Preserves P (update_status t s))
      (resends : (hex : Text) → Preserves P (rebroadcast_hex hex)) where
    settle-Preserves : (t : Text) (r : Rebroadcast) → Preserves P (settle t r)
    unfolding settle
    settle-Preserves t accepted = Preserves-pure false
    settle-Preserves t (rejected reason) =
        Preserves-bind (update_status t Status.failed) _ (updates t Status.failed)
          λ _. Preserves-bind (on_disk (remove_sidecar t)) _ (removes t) λ _. Preserves-pure true

    retry-Preserves : (t : Text) (kept : Option Text) → Preserves P (retry t kept)
    unfolding retry
    retry-Preserves t none = Preserves-pure false
    retry-Preserves t (some hex) =
        Preserves-bind (rebroadcast_hex hex) (settle t) (resends hex) (settle-Preserves t)

    recover-Preserves : (t : Text) (k : ℕ) → Preserves P (recover t k)
    unfolding recover
    recover-Preserves t k =
        Preserves-if (k == 0) _ _
          (Preserves-bind (on_disk (read_sidecar t)) (retry t) (reads t) (retry-Preserves t))
          (Preserves-pure false)

    set_status-Preserves : (t : Text) (s : Status) → Preserves P (set_status t s)
    unfolding set_status
    set_status-Preserves t s = Preserves-bind (gets entries_of) _ (Preserves-gets entries_of) λ es.
        Preserves-if (status_is (latest_status t es) s) _ _ (Preserves-pure 0)
          (Preserves-bind (update_status t s) _ (updates t s) (λ _. Preserves-pure 1))

    advance-Preserves : (t : Text) (k : ℕ) → Preserves P (advance t k)
    unfolding advance drop_settled
    advance-Preserves t k =
        Preserves-bind (set_status t (from_confirmations k)) _ (set_status-Preserves t _) λ n.
          Preserves-bind (drop_settled t k) _
            (Preserves-if (leb 1 k) (on_disk (remove_sidecar t)) (pure tt) (removes t)
              (Preserves-pure tt))
            λ _. Preserves-pure n

    reconcile_one-Preserves : (t : Text) → Preserves P (reconcile_one t)
    unfolding reconcile_one
    reconcile_one-Preserves t =
        Preserves-bind (lift (confirmations t)) _ (Preserves-lift (confirmations t)) λ k.
          Preserves-bind (recover t k) _ (recover-Preserves t k) λ dead.
            Preserves-if dead (pure 1) (advance t k) (Preserves-pure 1) (advance-Preserves t k)

    reconcile_each-Preserves :
        (queue : List Text) (changed : ℕ) → Preserves P (reconcile_each queue changed)
    unfolding reconcile_each
    reconcile_each-Preserves [] changed = Preserves-pure changed
    reconcile_each-Preserves (t ∷ rest) changed =
        Preserves-bind (reconcile_one t) _ (reconcile_one-Preserves t)
          λ n. reconcile_each-Preserves rest (changed + n)

    pub reconcile-Preserves : Preserves P reconcile
    unfolding reconcile
    reconcile-Preserves =
        Preserves-bind (gets (λ w. pending w.ledger.entries)) _ (Preserves-gets _) λ queue.
          Preserves-bind (reconcile_each queue 0) _ (reconcile_each-Preserves queue 0) λ changed.
            Preserves-bind sweep_orphans _ sweep_orphans-Preserves λ _. Preserves-pure changed
