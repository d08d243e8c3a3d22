-- ===== src/Ledger/Reconcile.antt =====
-- ledger.rs: `reconcile`, which advances the work queue against the chain.
use mathlib.Core.List.{filter_map}
use computermoney.Prelude.{
  ℕ, ◌+◌, Text, contains, Bool, true, false, Option, none, some, List, [], ◌∷◌, leb, ◌==◌,
  if◌then◌else◌,
}
use computermoney.Result.{Exec, pure, lift, gets, ◌>>=◌, ◌>>◌}
use computermoney.Chain.{Esplora, Rebroadcast, accepted, rejected, confirmations, rebroadcast_hex}
use computermoney.Ledger.Entry.{Status, Entry, sent, from_confirmations}
use computermoney.Ledger.Folds.{status_is, latest_status}
use computermoney.Ledger.Balances.{pending}
use computermoney.Ledger.Platform.{Platform}
use computermoney.Ledger.Store.{World, on_disk}
use computermoney.Ledger.Methods.{
  entries_of, update_status, read_sidecar, remove_sidecar, list_sidecars,
}

unfoldable pub sent_txid : Entry → Option Text
sent_txid (sent _ txid _ _ _ _) = some txid
sent_txid _ = none

-- The sidecars with no `Sent` entry.
unfoldable pub orphans : List Text → List Text → List Text
orphans recorded [] = []
orphans recorded (txid ∷ rest) =
    let more = orphans recorded rest in if contains txid recorded then more else txid ∷ more

module _ ⦃p : Platform⦄ ⦃c : Esplora⦄ where
  -- A hard rejection proves the payment dead; the answer says whether it was.
  unfoldable pub settle : Text → Rebroadcast → Exec World Bool
  settle txid accepted = pure false
  settle txid (rejected reason) = do
    update_status txid Status.failed
    on_disk (remove_sidecar txid)
    pure true

  unfoldable pub retry : Text → Option Text → Exec World Bool
  retry txid none = pure false
  retry txid (some hex) = do outcome ← rebroadcast_hex hex; settle txid outcome

  unfoldable pub recover : Text → ℕ → Exec World Bool
  recover txid confs =
      if confs == 0
      then (do sidecar ← on_disk (read_sidecar txid); retry txid sidecar)
      else pure false

  unfoldable pub set_status : Text → Status → Exec World ℕ
  set_status txid status = do
    es ← gets entries_of
    if status_is (latest_status txid es) status
        then pure 0
        else do update_status txid status; pure 1

  unfoldable pub drop_settled : Text → ℕ → Exec World (Unit {0})
  drop_settled txid confs = if leb 1 confs then on_disk (remove_sidecar txid) else pure tt

  unfoldable pub advance : Text → ℕ → Exec World ℕ
  advance txid confs = do
    n ← set_status txid (from_confirmations confs)
    drop_settled txid confs
    pure n

  -- The body of the loop, with how many statuses it changed.
  unfoldable pub reconcile_one : Text → Exec World ℕ
  reconcile_one txid = do
    confs ← lift (confirmations txid)
    dead ← recover txid confs
    if dead then pure 1 else advance txid confs

  unfoldable pub reconcile_each : List Text → ℕ → Exec World ℕ
  reconcile_each [] changed = pure changed
  reconcile_each (txid ∷ rest) changed = do
    n ← reconcile_one txid
    reconcile_each rest (changed + n)

  unfoldable pub remove_all : List Text → Exec World (Unit {0})
  remove_all [] = pure tt
  remove_all (txid ∷ rest) = do on_disk (remove_sidecar txid); remove_all rest

  unfoldable pub sweep_orphans : Exec World (Unit {0})
  sweep_orphans = do
    es ← gets entries_of
    files ← on_disk list_sidecars
    remove_all (orphans (filter_map sent_txid es) files)

  unfoldable pub reconcile : Exec World ℕ
  reconcile = do
    queue ← gets (λ w. pending w.ledger.entries)
    changed ← reconcile_each queue 0
    sweep_orphans
    pure changed
