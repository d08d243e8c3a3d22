-- ===== src/Scan.antt =====
-- scan.rs: the scan of the chain for silent payments. `SCAN_LOCK` makes passes follow each other, as they do here.
pub mod Pages
pub mod Finds
pub mod Tweaks
use mathlib.Core.List.{filter_map}
use computermoney.Prelude.{
  ℕ, zero, suc, ◌+◌, ◌-◌, ◌/◌, ◌%◌, Text, codes, starts_with, length, take, drop, Bool, true, false,
  ◌&&◌, ◌||◌, Option, none, some, List, [], ◌∷◌, ◌++◌, map, leb, ltb, ◌==◌, add_u32, if◌then◌else◌,
}
use computermoney.Result.{
  io, other, Result, ok, err, try_then, Exec, pure, lift, gets, modify, ◌>>=◌, ◌>>◌,
}
use computermoney.Storage.{text_leb}
use computermoney.Ledger.Folds.{sum_from}
use computermoney.Ledger.Balances.{SpUtxo, sp_utxos}
use computermoney.Ledger.Platform.{Platform}
use computermoney.Ledger.Store.{Fault, works, fails, tears, World}
use computermoney.Ledger.Methods.{entries_of, record_sp_received, record_sp_spent}
use computermoney.Build.{OutPoint}
use computermoney.Matching.{
  Vin, EsploraTx, SpFound, ScanHost, last_item, starts_50, drop_annex, taproot_key, wpkh_key,
  spk_key, input_pubkey, taproot_output_key, input_outpoint, smaller, smallest_outpoint,
  taproot_outputs, any_coinbase, is_empty, check_inputs, tx_matches, tx_pays_me,
}

abbrev pub dust_floor : ℕ
dust_floor = 330

abbrev pub start_lookback : ℕ
start_lookback = 144

abbrev pub page : ℕ
page = 25

pub record Found : Type 0 where
  pub txid : Text
  pub vout : ℕ
  pub sats : ℕ

pub record ScanReport : Type 0 where
  pub from_height : ℕ
  pub to_height : ℕ
  pub found : List Found

-- The ledger and its disk, and the bytes of `scan.json`, if it is there.
pub record Scanner : Type 0 where
  pub world : World
  pub checkpoint : Option Text

unfoldable pub hex_char : ℕ → ℕ
hex_char n = if ltb n 10 then n + b'0' else n + (b'a' - 10)

-- Two digits for each byte.
unfoldable pub hex_lower : Text → Text
hex_lower [] = []
hex_lower (b ∷ bytes) = hex_char (b / 16) ∷ hex_char (b % 16) ∷ hex_lower bytes

unfoldable pub on_ledger : {A : Type 0} → Exec World A → Exec Scanner A
on_ledger m c = ((m c.world).0, record c { world = (m c.world).1 })

unfoldable pub note : Text → SpFound → Bool → List Found → List Found
note txid f false found = found
note txid f true found = found ++ (record { txid = txid; vout = f.vout; sats = f.sats } ∷ [])

module _ ⦃p : Platform⦄ ⦃s : ScanHost⦄ where
  -- The payments of a transaction, booked unless they are dust; `found` are those booked so far.
  unfoldable pub book_found : Text → List SpFound → List Found → Exec World (List Found)
  book_found txid [] found = pure found
  book_found txid (f ∷ fs) found = if ltb f.sats dust_floor then book_found txid fs found else (do
    fresh ← record_sp_received txid f.vout f.sats (hex_lower f.tweak)
    book_found txid fs (note txid f fresh found))

  unfoldable pub book_txs : Text × Text → List EsploraTx → List Found → Exec World (List Found)
  book_txs keys [] found = pure found
  book_txs keys (tx ∷ txs) found = do
    found' ← book_found tx.txid (tx_matches keys tx) found
    book_txs keys txs found'

  -- The pages of a block from `page_start` on. The source's loop ends at a page that is not full; the
  -- fuel is what it may read.
  unfoldable pub scan_pages : ℕ → Text × Text → Text → ℕ → List Found → Exec World (List Found)
  scan_pages zero keys hash page_start found = lift (err (other (codes "out of fuel")))
  scan_pages (suc fuel) keys hash page_start found = do
    txs ← lift (s.block_txs hash page_start)
    found' ← book_txs keys txs found
    if ltb (length txs) page
        then pure found'
        else scan_pages fuel keys hash (add_u32 page_start (length txs)) found'

  -- The blocks from `height` on, `n` of them.
  unfoldable pub scan_blocks : ℕ → ℕ → Text × Text → ℕ → List Found → Exec World (List Found)
  scan_blocks fuel zero keys height found = pure found
  scan_blocks fuel (suc n) keys height found = do
    hash ← lift (s.block_hash height)
    found' ← scan_pages fuel keys hash 0 found
    scan_blocks fuel n keys (height + 1) found'

  unfoldable pub mark_if_spent : SpUtxo → Bool → Exec World (Unit {0})
  mark_if_spent u false = pure tt
  mark_if_spent u true = do record_sp_spent u.txid u.vout; pure tt

  unfoldable pub track_each : List SpUtxo → Exec World (Unit {0})
  track_each [] = pure tt
  track_each (u ∷ us) = do
    spent ← lift (s.outspend u.txid u.vout)
    mark_if_spent u spent
    track_each us

  unfoldable pub track_spends : Exec World (Unit {0})
  track_spends = do es ← gets entries_of; track_each (sp_utxos es)

  unfoldable pub load_checkpoint : Option Text → Result (Option ℕ)
  load_checkpoint none = ok none
  load_checkpoint (some text) = try_then (s.parse_checkpoint text) λ h. ok (some h)

  -- The write of the file: it works, fails before it began, or stops after `n` bytes of the new text.
  unfoldable pub write_checkpoint : Fault → Text → Scanner → Result (Unit {0}) × Scanner
  write_checkpoint works text c = (ok tt, record c { checkpoint = some text })
  write_checkpoint fails text c = (err io, c)
  write_checkpoint (tears n) text c = (err io, record c { checkpoint = some (take n text) })

  unfoldable pub save_checkpoint : ℕ → Exec Scanner (Unit {0})
  unfolding write_checkpoint
  save_checkpoint height = write_checkpoint s.write (s.checkpoint_json height)

  unfoldable pub first_height : Option ℕ → ℕ → ℕ
  first_height (some h) tip = add_u32 h 1
  first_height none tip = tip - start_lookback

  unfoldable pub scan_to_tip : ℕ → Exec Scanner ScanReport
  scan_to_tip fuel = do
    keys ← lift s.sp_keys
    tip ← lift s.tip_height
    text ← gets (λ c. c.checkpoint)
    saved ← lift (load_checkpoint text)
    found ←
        on_ledger
          (scan_blocks fuel (tip + 1 - first_height saved tip) keys (first_height saved tip) [])
    save_checkpoint tip
    on_ledger track_spends
    pure (record { from_height = first_height saved tip; to_height = tip; found = found })

  unfoldable pub try_anchor_birth : Exec Scanner (Unit {0})
  try_anchor_birth = do
    text ← gets (λ c. c.checkpoint)
    elim text [ some t ↦ pure tt | none ↦ (do tip ← lift s.tip_height; save_checkpoint tip) ]
