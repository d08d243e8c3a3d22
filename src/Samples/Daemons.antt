-- ===== src/Samples/Daemons.antt =====
-- The theorems on the daemon at work.
use mathlib.Core.List.{append-nil, filter_map}
use computermoney.Prelude.{codes, none, some, [], ◌∷◌, ◌≡◌, refl, sym, text_eq, starts_with}
use computermoney.Result.{ok}
use computermoney.Ledger.Entry.{Status, status_eq, Entry, sp_received, address_issued, seq}
use computermoney.Ledger.Store.{
  World, append, append_bytes, on_disk, open_inner, parse_ledger, read_entries, lines, split_lines,
}
use computermoney.Ledger.Folds.{
  has_sp_output, is_output, next_seq, sp_spent_set, status_is, latest_status, latest_from,
  overwrite, stated, spent_outpoint, contains_outpoint,
}
use computermoney.Ledger.Balances.{sp_utxos, spendable_utxo, is_spendable}
use computermoney.Ledger.Methods.{record_sp_received}
use computermoney.Ledger.Durability.{render}
use computermoney.Matching.{
  tx_matches, any_coinbase, is_empty, input_pubkey, spk_key, wpkh_key, last_item, input_outpoint,
  smallest_outpoint, smaller, taproot_outputs, taproot_output_key, check_inputs,
}
use computermoney.Scan.{
  on_ledger, scan_to_tip, scan_blocks, scan_pages, book_txs, book_found, note, hex_lower, hex_char,
  first_height, load_checkpoint, write_checkpoint, save_checkpoint, track_spends, track_each,
  mark_if_spent,
}
use computermoney.Protocol.{addr_request, notify}
use computermoney.Tunnel.Session.{open_ledger}
use computermoney.Daemon.{
  Daemon, Visit, republish, scan_fresh, chain_watch, visit_each, turn, turns, watch_interval,
  republish_interval,
}
use computermoney.Daemon.Cadence.{Duty, turn_cadence}
use computermoney.Daemon.Honest.{Grown, turns-Grown}
use computermoney.Daemon.Stale.{scanned, IsKept, scan_reuses_number}
use computermoney.Samples.Codec.{plain_codec, plain_codec-IsSound}
use computermoney.Samples.Shop.{key, shop, server}
use computermoney.Samples.Bank.{bank_host, bank_bdk, bank_addresses, bank_txs, bank_wire, bank_scan}
use computermoney.Samples.Network.{bank_account, slow_dht, finding_scan}

abbrev visitor : Visit
visitor = record {
  messages = ok (addr_request 50) ∷ ok (notify (codes "dep") 999) ∷ [];
  wire = bank_wire;
}

-- It watched 20 seconds ago.
abbrev daemon : Daemon
daemon = record {
  world = shop;
  checkpoint = none;
  last_publish = none;
  last_watch = some 100;
  endpoints = codes "1.2.3.4:5" ∷ [];
  published = [];
}

turn_cadence_example :
    let after = turn 9 (120, visitor ∷ []) daemon in
    Duty watch_interval 120
      (some 100)
      after.last_watch
      ((after.world ≡ visit_each 9 (visitor ∷ []) (chain_watch 9 daemon).world)
        × (after.checkpoint ≡ (chain_watch 9 daemon).checkpoint))
      ((after.world ≡ visit_each 9 (visitor ∷ []) shop) × (after.checkpoint ≡ none))
    × Duty republish_interval 120 none after.last_publish
        (after.published ≡ (120, republish (codes "1.2.3.4:5" ∷ [])) ∷ [])
        (after.published ≡ [])
turn_cadence_example = turn_cadence 9 120 (visitor ∷ []) daemon

turns-Grown_example :
    Grown shop.ledger.entries
      (turns 9 ((120, visitor ∷ []) ∷ (170, visitor ∷ visitor ∷ []) ∷ []) daemon).world
turns-Grown_example =
    turns-Grown shop.ledger.entries 9 ((120, visitor ∷ []) ∷ (170, visitor ∷ visitor ∷ []) ∷ [])
      daemon ([], tt, sym (append-nil _))

-- A new wallet's daemon, which has not scanned yet.
abbrev fresh : Daemon
fresh = record {
  world = record {
    ledger = record { entries = []; identity = some key };
    disk = record { file = render (some key) []; sidecars = []; faults = [] };
    broadcasts = [];
  };
  checkpoint = some (codes "at 100");
  last_publish = none;
  last_watch = none;
  endpoints = [];
  published = [];
}

fresh-IsKept : IsKept ⦃s = finding_scan⦄ 9 plain_codec-IsSound key refl fresh.world
fresh-IsKept = record {
  synced = record { written = refl; untorn = tt };
  books = record { numbered = tt; fresh = tt };
  signed = refl;
}

abbrev booked : Entry
booked = sp_received 0 (codes "pay") 0 400 (codes "7477") Status.pending

scan_books :
    ((scanned ⦃s = finding_scan⦄ 9 fresh).ledger.entries ≡ booked ∷ [])
    × ((scanned ⦃s = finding_scan⦄ 9 fresh).disk.faults ≡ [])
unfolding write_checkpoint on_ledger scan_to_tip scan_blocks scan_pages book_txs book_found note
    hex_lower hex_char first_height load_checkpoint save_checkpoint track_spends track_each
    mark_if_spent open_ledger on_disk open_inner parse_ledger read_entries lines split_lines
    record_sp_received has_sp_output is_output next_seq append append_bytes sp_utxos sp_spent_set
    spent_outpoint contains_outpoint tx_matches any_coinbase is_empty input_pubkey spk_key wpkh_key
    last_item input_outpoint smallest_outpoint smaller taproot_outputs taproot_output_key
    check_inputs text_eq starts_with filter_map spendable_utxo is_spendable status_is latest_status
    latest_from overwrite stated status_eq render
scan_books = (refl, refl)

appends : (e : Entry) (w : World) → w.disk.faults ≡ [] → (append e w).0 ≡ ok tt
unfolding append append_bytes on_disk
appends e w h = rw h refl

scan_reuses_number_example :
    (seq (address_issued 0 0) ≡ seq booked)
    × ((append (address_issued 0 0) (scan_fresh ⦃s = finding_scan⦄ 9 fresh).world).1.disk.file
        ≡ render (some key) (booked ∷ address_issued 0 0 ∷ []))
unfolding scan_fresh seq next_seq
scan_reuses_number_example =
    scan_reuses_number ⦃s = finding_scan⦄ 9 plain_codec-IsSound key refl fresh booked []
      (address_issued 0 0) tt fresh-IsKept scan_books.0 refl
      (appends (address_issued 0 0) _ scan_books.1)
