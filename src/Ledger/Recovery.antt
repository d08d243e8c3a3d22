-- ===== src/Ledger/Recovery.antt =====
-- What `reconcile` of ledger.rs does to the status of each payment.
pub mod Keeps
pub mod Invariants
pub mod Pass
pub mod Settled
use computermoney.Prelude.{
  ℕ, zero, ◌+◌, Text, text_eq, text_eq_iff, text_eq_refl, contains, Bool, true, false, Option, none,
  some, List, [], ◌∷◌, ◌++◌, ◌≡◌, refl, sym, ap, subst⁻¹, ◌∙◌, ◌⊎◌, inl, inr, arith, if◌then◌else◌,
  Bool-cases, Option-cases, ◌==◌, leb, All, subst,
}
use computermoney.Result.{io, Result, ok, err, Exec, pure, gets, lift, ◌>>=◌, ◌>>◌}
use computermoney.Result.Success.{bind-eq-ok}
use computermoney.Chain.{
  Esplora, Rebroadcast, accepted, rejected, confirmations, rebroadcast_hex, broadcast,
  is_hard_rejection,
}
use computermoney.Ledger.Entry.{Status, Entry, status_update, from_confirmations, status_eq}
use computermoney.Ledger.Folds.{status_is, stated, overwrite, latest_status, next_seq}
use computermoney.Ledger.Balances.{pending}
use computermoney.Ledger.Platform.{Platform}
use computermoney.Ledger.Store.{Disk, World, on_disk, append}
use computermoney.Ledger.Methods.{
  entries_of, update_status, Sidecars, find_sidecar, drop_sidecar, read_sidecar, remove_sidecar,
  list_sidecars,
}
use computermoney.Ledger.Laws.{latest_status-snoc}
use computermoney.Ledger.Queue.{Distinct}
use computermoney.Ledger.Reconcile.{
  settle, retry, recover, set_status, drop_settled, advance, reconcile_one, reconcile_each,
  remove_all, sweep_orphans, reconcile,
}

abbrev pub status_of : Text → World → Option Status
status_of txid w = latest_status txid w.ledger.entries

abbrev pub sidecar_of : Text → World → Option Text
sidecar_of txid w = find_sidecar txid w.disk.sidecars

-- The sidecars of other payments are as they were.
abbrev pub OthersKept : Text → World → World → Type 0
OthersKept txid w w' = (t : Text) → text_eq txid t ≡ false → sidecar_of t w' ≡ sidecar_of t w

-- `w'` has the statuses of `w`.
abbrev pub Quiet : Text → World → World → Type 0
Quiet txid w w' = ((t : Text) → status_of t w' ≡ status_of t w) × OthersKept txid w w'

-- `w'` differs from `w` in the status of `txid` at most, which is `s` in it.
abbrev pub Sets : Text → Status → World → World → Type 0
Sets txid s w w' =
    ((t : Text) → status_of t w' ≡ (if text_eq txid t then some s else status_of t w))
    × OthersKept txid w w'

pub Quiet-Sets :
    (txid : Text) (s : Status) (u v w : World) → Quiet txid u v → Sets txid s v w → Sets txid s u w
Quiet-Sets txid s u v w q e =
    (λ t. ground (arith, q.0 t, e.0 t), λ t other. e.1 t other ∙ q.1 t other)

pub Sets-Quiet :
    (txid : Text) (s : Status) (u v w : World) → Sets txid s u v → Quiet txid v w → Sets txid s u w
Sets-Quiet txid s u v w e q = (λ t. q.0 t ∙ e.0 t, λ t other. q.1 t other ∙ e.1 t other)

status_is-eq : (o : Option Status) (s : Status) → status_is o s ≡ true → o ≡ some s
unfolding status_is status_eq
status_is-eq o s h = ground arith

find-drop_sidecar :
    (t u : Text) (l : Sidecars)
    → find_sidecar t (drop_sidecar u l) ≡ (if text_eq u t then none else find_sidecar t l)
unfolding find_sidecar drop_sidecar
find-drop_sidecar t u [] = ground arith
find-drop_sidecar t u ((v, hex) ∷ l) =
    ground (arith, find-drop_sidecar t u l, text_eq_iff v t, text_eq_iff v u, text_eq_iff u t)

pub remove_sidecar-Quiet :
    (txid : Text) (w : World) → Quiet txid w (on_disk (remove_sidecar txid) w).1
unfolding on_disk remove_sidecar
remove_sidecar-Quiet txid w =
    (λ t. ground arith, λ t other. ground (arith, find-drop_sidecar t txid w.disk.sidecars))

pub read_sidecar-Quiet : (txid : Text) (w : World) → Quiet txid w (on_disk (read_sidecar txid) w).1
unfolding on_disk read_sidecar
read_sidecar-Quiet txid w = (λ t. ground arith, λ t other. ground arith)

pub read_sidecar-eq-ok :
    (txid : Text) (w : World) (o : Option Text)
    → (on_disk (read_sidecar txid) w).0 ≡ ok o
    → o ≡ sidecar_of txid w
unfolding on_disk read_sidecar
read_sidecar-eq-ok txid w o h = ground arith

module _ ⦃p : Platform⦄ where
  pub update_status-Sets :
      (txid : Text) (s : Status) (w : World) (a : Unit {0})
      → (update_status txid s w).0 ≡ ok a
      → Sets txid s w (update_status txid s w).1
  unfolding update_status append stated overwrite
  update_status-Sets txid s w a h = (
    λ t. ground (
      arith,
      latest_status-snoc t w.ledger.entries (status_update (next_seq w.ledger.entries) txid s),
    ),
    λ t other. ground arith,
  )

  update_then-Sets :
      {B : Type 0} (txid : Text) (s : Status) (w : World) (b : B) {n : B}
      → ((update_status txid s >> pure b) w).0 ≡ ok n
      → Sets txid s w ((update_status txid s >> pure b) w).1
  update_then-Sets txid s w b h =
      let (a, done, _, same) = bind-eq-ok (update_status txid s) (λ _. pure b) w h in
      subst⁻¹ (λ v. Sets txid s w v) same (update_status-Sets txid s w a done)

-- A payment that cannot confirm: its signed transaction is refused for good.
abbrev pub Dead : ⦃c : Esplora⦄ → Text → Type 0
Dead ⦃c⦄ hex =
    (tx : Text) × (msg : Text) × (c.deserialize_hex hex ≡ some tx)
    × (c.send_tx tx ≡ some msg)
    × (is_hard_rejection msg ≡ true)

-- The signed transaction that was kept for a payment is dead.
abbrev pub Doomed : ⦃c : Esplora⦄ → Option Text → Type 0
Doomed kept = (hex : Text) × (kept ≡ some hex) × Dead hex

-- `s` is what the chain says of a payment: `failed` where it has no confirmation and the signed
-- transaction that was kept for it is dead, and the status of its confirmations in every other case.
abbrev pub Verdict : ⦃c : Esplora⦄ → Text → Option Text → Status → Type 0
Verdict txid kept s =
    (k : ℕ) × (confirmations txid ≡ ok k)
    × (((s ≡ from_confirmations k) × ((¬ (k ≡ 0)) ⊎ (¬ Doomed kept)))
        ⊎ ((k ≡ 0) × (s ≡ Status.failed) × Doomed kept))

module _ ⦃p : Platform⦄ ⦃c : Esplora⦄ where
  set_status-Sets :
      (txid : Text) (s : Status) (w : World) (n : ℕ)
      → (set_status txid s w).0 ≡ ok n
      → Sets txid s w (set_status txid s w).1
  unfolding set_status
  set_status-Sets txid s w n h = elim (Bool-cases (status_is (status_of txid w) s)) [
    | inl same ↦ rw same (
      λ t. ground (arith, text_eq_iff txid t, status_is-eq (status_of txid w) s),
      λ t other. refl,
    )
    | inr other ↦ rw other (update_then-Sets txid s w 1 (rw other at h))
  ]

  drop_settled-Quiet : (txid : Text) (k : ℕ) (w : World) → Quiet txid w (drop_settled txid k w).1
  unfolding drop_settled
  drop_settled-Quiet txid k w = elim (Bool-cases (leb 1 k)) [
    | inl settled ↦ rw settled (remove_sidecar-Quiet txid w)
    | inr waits ↦ rw waits (λ t. refl, λ t other. refl)
  ]

  pub advance-Sets :
      (txid : Text) (k : ℕ) (w : World) (n : ℕ)
      → (advance txid k w).0 ≡ ok n
      → Sets txid (from_confirmations k) w (advance txid k w).1
  unfolding advance
  advance-Sets txid k w n h =
      let w₁ : World = (set_status txid (from_confirmations k) w).1 in
      let (m, set, more, same) = bind-eq-ok (set_status txid (from_confirmations k)) _ w h in
      let (a, _, _, same') = bind-eq-ok (drop_settled txid k) _ w₁ more in
      subst⁻¹ (λ v. Sets txid (from_confirmations k) w v) (same ∙ same')
        (Sets-Quiet txid (from_confirmations k) w w₁ (drop_settled txid k w₁).1
          (set_status-Sets txid (from_confirmations k) w m set) (drop_settled-Quiet txid k w₁))
