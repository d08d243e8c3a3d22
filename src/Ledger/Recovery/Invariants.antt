-- ===== src/Ledger/Recovery/Invariants.antt =====
-- `reconcile` of ledger.rs keeps the books in order, the file in step, and what was written before.
use mathlib.Core.List.{append-nil, append_assoc}
use computermoney.Prelude.{
  Text, List, [], ◌∷◌, ◌++◌, ◌≡◌, sym, ap, ◌∙◌, arith, inl, inr, Option-cases,
}
use computermoney.Result.{Exec}
use computermoney.Result.Preserves.{Preserves}
use computermoney.Chain.{Esplora, rebroadcast_hex, broadcast}
use computermoney.Ledger.Entry.{Status, Entry}
use computermoney.Ledger.Platform.{Platform}
use computermoney.Ledger.Store.{Disk, World, on_disk, append}
use computermoney.Ledger.Methods.{update_status, read_sidecar, remove_sidecar, list_sidecars}
use computermoney.Ledger.Reconcile.{reconcile}
use computermoney.Ledger.Books.{Books, append-books, update_status-Books}
use computermoney.Ledger.Durability.{IsSynced, append-IsSynced}
use computermoney.Ledger.Recovery.Keeps.{reconcile-Preserves}

-- Nothing of `es` was changed or taken back.
abbrev pub Extends : List Entry → World → Type 0
Extends es w = (more : List Entry) × (w.ledger.entries ≡ es ++ more)

module _ ⦃p : Platform⦄ where
  pub append-Extends : (es : List Entry) (e : Entry) → Preserves (Extends es) (append e)
  append-Extends es e = record {
    run = λ w (more, same). elim (append-books e w) [
      | inl (_, led) ↦ (
        more ++ (e ∷ []),
        ap (λ l. l.entries) led ∙ ap (λ t. t ++ (e ∷ [])) same ∙ append_assoc es more (e ∷ []),
      )
      | inr (_, led) ↦ (more, ap (λ l. l.entries) led ∙ same)
    ];
  }

  update_status-Extends :
      (es : List Entry) (t : Text) (s : Status) → Preserves (Extends es) (update_status t s)
  unfolding update_status
  update_status-Extends es t s = record { run = λ w h. (append-Extends es _).run w h }

  update_status-IsSynced : (t : Text) (s : Status) → Preserves IsSynced (update_status t s)
  unfolding update_status
  update_status-IsSynced t s = record { run = λ w h. (append-IsSynced _).run w h }

read_sidecar-IsSynced : ⦃p : Platform⦄ (t : Text) → Preserves IsSynced (on_disk (read_sidecar t))
unfolding on_disk read_sidecar
read_sidecar-IsSynced t = record { run = λ w h. ground arith }

remove_sidecar-IsSynced :
    ⦃p : Platform⦄ (t : Text) → Preserves IsSynced (on_disk (remove_sidecar t))
unfolding on_disk remove_sidecar
remove_sidecar-IsSynced t = record { run = λ w h. ground arith }

list_sidecars-IsSynced : ⦃p : Platform⦄ → Preserves IsSynced (on_disk list_sidecars)
unfolding on_disk list_sidecars
list_sidecars-IsSynced = record { run = λ w h. ground arith }

on_disk-Books : {A : Type 0} (m : Exec Disk A) → Preserves Books (on_disk m)
unfolding on_disk
on_disk-Books m = record { run = λ w h. h }

on_disk-Extends :
    {A : Type 0} (es : List Entry) (m : Exec Disk A) → Preserves (Extends es) (on_disk m)
unfolding on_disk
on_disk-Extends es m = record { run = λ w h. h }

module _ ⦃p : Platform⦄ ⦃c : Esplora⦄ where
  pub resends_quietly :
      (P : World → Type 0)
      → ((w : World) (sent : List Text) → P w → P (record w { broadcasts = sent }))
      → (hex : Text) → Preserves P (rebroadcast_hex hex)
  unfolding rebroadcast_hex broadcast
  resends_quietly P same hex = record {
    run = λ w h. elim (Option-cases (c.deserialize_hex hex)) [
      | inl bad ↦ rw (bad, rebroadcast_hex) h
      | inr (tx, good) ↦ rw (good, rebroadcast_hex) (same w (w.broadcasts ++ (tx ∷ [])) h)
    ];
  }

  reconcile-Extends : (es : List Entry) → Preserves (Extends es) reconcile
  reconcile-Extends es =
      reconcile-Preserves (λ t. on_disk-Extends es (remove_sidecar t))
        (on_disk-Extends es list_sidecars) (λ t. on_disk-Extends es (read_sidecar t))
        (update_status-Extends es) (resends_quietly (Extends es) (λ w sent h. h))

  -- However a pass of `reconcile` ends, the entries that it found are still there, unchanged and in
  -- their order, before those that it added, and the books are in order if they were.
  pub reconcile-Books :
      (w : World) → Books w → Books (reconcile w).1 × Extends w.ledger.entries (reconcile w).1
  reconcile-Books w h =
      let books : Preserves Books reconcile =
        reconcile-Preserves (λ t. on_disk-Books (remove_sidecar t)) (on_disk-Books list_sidecars)
          (λ t. on_disk-Books (read_sidecar t)) update_status-Books
          (resends_quietly Books (λ v sent b. b)) in
      (books.run w h, (reconcile-Extends w.ledger.entries).run w ([], sym (append-nil _)))

  -- However a pass of `reconcile` ends, a ledger whose file holds its entries, with no torn write
  -- to come, stays so.
  pub reconcile-IsSynced : Preserves IsSynced reconcile
  reconcile-IsSynced =
      reconcile-Preserves remove_sidecar-IsSynced list_sidecars-IsSynced read_sidecar-IsSynced
        update_status-IsSynced
        (resends_quietly IsSynced (λ w sent h. record { written = h.written; untorn = h.untorn }))
