-- ===== src/Scan/Finds.antt =====
-- What a scan of scan.rs keeps, however it ends.
use computermoney.Prelude.{
  ℕ, zero, suc, ◌+◌, ◌-◌, Text, length, Bool, true, false, List, [], ◌∷◌, ltb, add_u32,
}
use computermoney.Result.{Exec, lift, gets}
use computermoney.Result.Preserves.{Preserves, Preserves-bind, Preserves-if}
use computermoney.Ledger.Balances.{SpUtxo, sp_utxos}
use computermoney.Ledger.Platform.{Platform}
use computermoney.Ledger.Store.{Fault, works, fails, tears, World}
use computermoney.Ledger.Methods.{record_sp_received, record_sp_spent}
use computermoney.Ledger.Books.{Books, record_sp_received-Books, record_sp_spent-Books}
use computermoney.Matching.{EsploraTx, SpFound, ScanHost, tx_matches}
use computermoney.Scan.{
  hex_lower, page, Scanner, on_ledger, write_checkpoint, save_checkpoint, scan_to_tip,
  load_checkpoint, first_height, Found, dust_floor, note, book_found, book_txs, scan_pages,
  scan_blocks, mark_if_spent, track_each, track_spends,
}

module _ ⦃p : Platform⦄ ⦃s : ScanHost⦄ (P : World → Type 0)
    (receives : (txid : Text) (vout sats : ℕ) (tweak : Text)
      → Preserves P (record_sp_received txid vout sats tweak))
    (spends : (txid : Text) (vout : ℕ) → Preserves P (record_sp_spent txid vout)) where
  book_found-Preserves :
      (txid : Text) (fs : List SpFound) (found : List Found)
      → Preserves P (book_found txid fs found)
  unfolding book_found
  book_found-Preserves txid [] found = record { run = λ w h. h }
  book_found-Preserves txid (f ∷ fs) found =
      Preserves-if (ltb f.sats dust_floor) _ _ (book_found-Preserves txid fs found) (
        Preserves-bind (record_sp_received txid f.vout f.sats (hex_lower f.tweak)) _
          (receives txid f.vout f.sats (hex_lower f.tweak))
          (λ fresh. book_found-Preserves txid fs (note txid f fresh found)))

  book_txs-Preserves :
      (keys : Text × Text) (txs : List EsploraTx) (found : List Found)
      → Preserves P (book_txs keys txs found)
  unfolding book_txs
  book_txs-Preserves keys [] found = record { run = λ w h. h }
  book_txs-Preserves keys (tx ∷ txs) found =
      Preserves-bind (book_found tx.txid (tx_matches keys tx) found) _
        (book_found-Preserves tx.txid (tx_matches keys tx) found)
        (λ f. book_txs-Preserves keys txs f)

  scan_pages-Preserves :
      (fuel : ℕ) (keys : Text × Text) (hash : Text) (start : ℕ) (found : List Found)
      → Preserves P (scan_pages fuel keys hash start found)
  unfolding scan_pages
  scan_pages-Preserves zero keys hash start found = record { run = λ w h. h }
  scan_pages-Preserves (suc fuel) keys hash start found =
      Preserves-bind (lift (s.block_txs hash start)) _ (record { run = λ w h. h })
        λ txs.
          Preserves-bind (book_txs keys txs found) _ (book_txs-Preserves keys txs found) λ found'.
            Preserves-if (ltb (length txs) page) _ _ (record { run = λ w h. h })
              (scan_pages-Preserves fuel keys hash (add_u32 start (length txs)) found')

  scan_blocks-Preserves :
      (fuel n : ℕ) (keys : Text × Text) (height : ℕ) (found : List Found)
      → Preserves P (scan_blocks fuel n keys height found)
  unfolding scan_blocks
  scan_blocks-Preserves fuel zero keys height found = record { run = λ w h. h }
  scan_blocks-Preserves fuel (suc n) keys height found =
      Preserves-bind (lift (s.block_hash height)) _ (record { run = λ w h. h })
        λ hash.
          Preserves-bind (scan_pages fuel keys hash 0 found) _
            (scan_pages-Preserves fuel keys hash 0 found)
            λ found'. scan_blocks-Preserves fuel n keys (height + 1) found'

  mark_if_spent-Preserves : (u : SpUtxo) (b : Bool) → Preserves P (mark_if_spent u b)
  unfolding mark_if_spent
  mark_if_spent-Preserves u false = record { run = λ w h. h }
  mark_if_spent-Preserves u true =
      Preserves-bind (record_sp_spent u.txid u.vout) _ (spends u.txid u.vout)
        (λ b. record { run = λ w h. h })

  track_each-Preserves : (us : List SpUtxo) → Preserves P (track_each us)
  unfolding track_each
  track_each-Preserves [] = record { run = λ w h. h }
  track_each-Preserves (u ∷ us) =
      Preserves-bind (lift (s.outspend u.txid u.vout)) _ (record { run = λ w h. h })
        λ spent.
          Preserves-bind (mark_if_spent u spent) _ (mark_if_spent-Preserves u spent)
            λ _. track_each-Preserves us

  on_ledger-Preserves :
      {A : Type 0} (m : Exec World A)
      → Preserves P m
      → Preserves (λ (c : Scanner). P c.world) (on_ledger m)
  unfolding on_ledger
  on_ledger-Preserves m k = record { run = λ c h. k.run c.world h }

  track_spends-Preserves : Preserves P track_spends
  unfolding track_spends
  track_spends-Preserves = record {
    run = λ w h. (track_each-Preserves (sp_utxos w.ledger.entries)).run w h;
  }

  write_checkpoint-Preserves :
      (f : Fault) (text : Text) → Preserves (λ (c : Scanner). P c.world) (write_checkpoint f text)
  unfolding write_checkpoint
  write_checkpoint-Preserves works text = record { run = λ c h. h }
  write_checkpoint-Preserves fails text = record { run = λ c h. h }
  write_checkpoint-Preserves (tears n) text = record { run = λ c h. h }

  save_checkpoint-Preserves :
      (tip : ℕ) → Preserves (λ (c : Scanner). P c.world) (save_checkpoint tip)
  unfolding save_checkpoint
  save_checkpoint-Preserves tip = write_checkpoint-Preserves s.write (s.checkpoint_json tip)

  -- What every booking of a silent payment keeps, a pass of the scan keeps.
  pub scan_to_tip-Preserves : (fuel : ℕ) → Preserves (λ (c : Scanner). P c.world) (scan_to_tip fuel)
  unfolding scan_to_tip
  scan_to_tip-Preserves fuel =
      Preserves-bind (lift s.sp_keys) _ (record { run = λ c h. h })
        λ keys.
          Preserves-bind (lift s.tip_height) _ (record { run = λ c h. h })
            λ tip.
              Preserves-bind (gets (λ (c : Scanner). c.checkpoint)) _ (record { run = λ c h. h })
                λ text.
                  Preserves-bind (lift (load_checkpoint text)) _ (record { run = λ c h. h })
                    λ saved.
                      Preserves-bind
                        (on_ledger (
                          scan_blocks fuel (tip + 1 - first_height saved tip) keys
                            (first_height saved tip) []))
                        _
                        (on_ledger-Preserves _ (
                          scan_blocks-Preserves fuel (tip + 1 - first_height saved tip) keys
                            (first_height saved tip) []))
                        λ found.
                          Preserves-bind (save_checkpoint tip) _ (save_checkpoint-Preserves tip)
                            λ _.
                              Preserves-bind (on_ledger track_spends) _
                                (on_ledger-Preserves track_spends track_spends-Preserves)
                                λ _. record { run = λ c h. h }

module _ ⦃p : Platform⦄ ⦃s : ScanHost⦄ where
  -- However a pass of the scan ends, books in order stay in order: no output is booked twice, none is
  -- marked spent twice, and the entries are numbered on.
  pub scan_to_tip-Books : (fuel : ℕ) → Preserves (λ (c : Scanner). Books c.world) (scan_to_tip fuel)
  scan_to_tip-Books = scan_to_tip-Preserves Books record_sp_received-Books record_sp_spent-Books
