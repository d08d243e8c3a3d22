-- ===== src/Net/Adds.antt =====
-- What methods of the ledger may add to it, by one rule for each.
use mathlib.Core.List.{append_assoc}
use computermoney.Prelude.{
  ℕ, Text, true, List, [], ◌∷◌, ◌++◌, All, All-append, ◌≡◌, ap, ◌∙◌, inl, inr, Bool-cases, subst⁻¹,
}
use computermoney.Result.{Exec}
use computermoney.Result.Preserves.{Preserves, state-bind_pure}
use computermoney.Chain.{Esplora}
use computermoney.Ledger.Entry.{Status, Entry, received, status_update}
use computermoney.Ledger.Folds.{next_seq, has_txid}
use computermoney.Ledger.Platform.{Platform}
use computermoney.Ledger.Store.{Disk, World, on_disk, append}
use computermoney.Ledger.Methods.{
  record_received, update_status, read_sidecar, remove_sidecar, list_sidecars,
}
use computermoney.Ledger.Reconcile.{reconcile}
use computermoney.Ledger.Books.{append-books}
use computermoney.Ledger.Recovery.Keeps.{reconcile-Preserves}
use computermoney.Ledger.Recovery.Invariants.{resends_quietly}

-- `w` has the entries `es` and behind them only entries with `Q`.
abbrev pub Adds : (Entry → Type 0) → List Entry → World → Type 0
Adds Q es w = (more : List Entry) × All Q more × (w.ledger.entries ≡ es ++ more)

pub append-Adds :
    ⦃p : Platform⦄ (Q : Entry → Type 0) (es : List Entry) (e : Entry)
    → Q e
    → Preserves (Adds Q es) (append e)
append-Adds Q es e q = record {
  run = λ w (more, all, same). elim (append-books e w) [
    | inl (_, led) ↦ (
      more ++ (e ∷ []),
      All-append Q more (e ∷ []) all (q, tt),
      ap (λ l. l.entries) led ∙ ap (λ t. t ++ (e ∷ [])) same ∙ append_assoc es more (e ∷ []),
    )
    | inr (_, led) ↦ (more, all, ap (λ l. l.entries) led ∙ same)
  ];
}

on_disk-Adds :
    {A : Type 0} (Q : Entry → Type 0) (es : List Entry) (m : Exec Disk A)
    → Preserves (Adds Q es) (on_disk m)
unfolding on_disk
on_disk-Adds Q es m = record { run = λ w h. h }

module _ ⦃p : Platform⦄ (Q : Entry → Type 0) (es : List Entry)
    (statuses : (n : ℕ) (t : Text) (s : Status) → Q (status_update n t s)) where
  update_status-Adds : (t : Text) (s : Status) → Preserves (Adds Q es) (update_status t s)
  unfolding update_status
  update_status-Adds t s = record { run = λ w h. (append-Adds Q es _ (statuses _ t s)).run w h }

  pub reconcile-Adds : ⦃c : Esplora⦄ → Preserves (Adds Q es) reconcile
  reconcile-Adds =
      reconcile-Preserves (λ t. on_disk-Adds Q es (remove_sidecar t))
        (on_disk-Adds Q es list_sidecars) (λ t. on_disk-Adds Q es (read_sidecar t))
        update_status-Adds (resends_quietly (Adds Q es) (λ w sent h. h))

  pub record_received-Adds :
      (txid : Text) (sats index : ℕ)
      → ((n : ℕ) → Q (received n txid sats index Status.pending))
      → Preserves (Adds Q es) (record_received txid sats index)
  unfolding record_received
  record_received-Adds txid sats index q = record {
    run = λ w h. elim (Bool-cases (has_txid txid w.ledger.entries)) [
      | inl old ↦ rw old h
      | inr new ↦ rw new (
          subst⁻¹ (Adds Q es) (state-bind_pure (append _) true w) (
            (append-Adds Q es (received (next_seq w.ledger.entries) txid sats index Status.pending)
                (q _)).run
              w h))
    ];
  }
