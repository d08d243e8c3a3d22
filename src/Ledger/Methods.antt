-- ===== src/Ledger/Methods.antt =====
-- ledger.rs: the methods that book entries, and the sidecar files.
use computermoney.Prelude.{
  ℕ, Text, text_eq, Bool, true, false, Option, none, some, List, [], ◌∷◌, map, take, if◌then◌else◌,
}
use computermoney.Result.{io, ok, err, Exec, pure, gets, ◌>>=◌, ◌>>◌}
use computermoney.Ledger.Entry.{Status, Entry, received, status_update, sp_received, sp_spent}
use computermoney.Ledger.Folds.{next_seq, has_txid, has_sp_output, is_sp_spent}
use computermoney.Ledger.Platform.{Platform}
use computermoney.Ledger.Store.{works, fails, tears, Disk, World, head_fault, rest_faults, append}

abbrev pub entries_of : World → List Entry
entries_of w = w.ledger.entries

module _ ⦃p : Platform⦄ where
  unfoldable pub record_received : Text → ℕ → ℕ → Exec World Bool
  record_received txid sats index = do
    es ← gets entries_of
    if has_txid txid es
        then pure false
        else do append (received (next_seq es) txid sats index Status.pending); pure true

  unfoldable pub record_sp_received : Text → ℕ → ℕ → Text → Exec World Bool
  record_sp_received txid vout sats tweak = do
    es ← gets entries_of
    if has_sp_output txid vout es
        then pure false
        else do append (sp_received (next_seq es) txid vout sats tweak Status.pending); pure true

  unfoldable pub record_sp_spent : Text → ℕ → Exec World Bool
  record_sp_spent txid vout = do
    es ← gets entries_of
    if is_sp_spent txid vout es
        then pure false
        else do append (sp_spent (next_seq es) txid vout); pure true

  unfoldable pub update_status : Text → Status → Exec World (Unit {0})
  update_status txid status = do
    es ← gets entries_of
    append (status_update (next_seq es) txid status)

abbrev pub Sidecars : Type 0
Sidecars = List (Text × Text)

unfoldable pub find_sidecar : Text → Sidecars → Option Text
find_sidecar txid [] = none
find_sidecar txid ((t, hex) ∷ rest) = if text_eq t txid then some hex else find_sidecar txid rest

unfoldable pub drop_sidecar : Text → Sidecars → Sidecars
drop_sidecar txid [] = []
drop_sidecar txid ((t, hex) ∷ rest) =
    let more = drop_sidecar txid rest in if text_eq t txid then more else (t, hex) ∷ more

-- Opened with `truncate`: an old file of that name is gone, whatever is written after.
unfoldable pub write_sidecar : Text → Text → Exec Disk (Unit {0})
write_sidecar txid tx_hex d = elim (head_fault d.faults) [
  | works ↦ (
    ok tt,
    record d {
      sidecars = (txid, tx_hex) ∷ drop_sidecar txid d.sidecars;
      faults = rest_faults d.faults;
    },
  )
  | fails ↦ (err io, record d { faults = rest_faults d.faults })
  | tears n ↦ (
    err io,
    record d {
      sidecars = (txid, take n tx_hex) ∷ drop_sidecar txid d.sidecars;
      faults = rest_faults d.faults;
    },
  )
]

unfoldable pub read_sidecar : Text → Exec Disk (Option Text)
read_sidecar txid d = elim (head_fault d.faults) [
  | works ↦ (ok (find_sidecar txid d.sidecars), record d { faults = rest_faults d.faults })
  | _ ↦ (err io, record d { faults = rest_faults d.faults })
]

unfoldable pub remove_sidecar : Text → Exec Disk (Unit {0})
remove_sidecar txid d = elim (head_fault d.faults) [
  | works ↦
      (ok tt, record d { sidecars = drop_sidecar txid d.sidecars; faults = rest_faults d.faults })
  | _ ↦ (err io, record d { faults = rest_faults d.faults })
]

unfoldable pub list_sidecars : Exec Disk (List Text)
list_sidecars d = elim (head_fault d.faults) [
  | works ↦ (ok (map (λ s. s.0) d.sidecars), record d { faults = rest_faults d.faults })
  | _ ↦ (err io, record d { faults = rest_faults d.faults })
]
