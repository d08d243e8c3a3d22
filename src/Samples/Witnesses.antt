-- ===== src/Samples/Witnesses.antt =====
-- The theorems at work on `shop`.
use mathlib.Core.List.{filter_map}
use computermoney.Prelude.{
  contains_text, starts_with, to_lower, ◌-◌, Text, codes, text_eq, contains, true, false, some,
  ◌++◌, ◌≡◌, refl, arith, ◌&&◌, take, drop, is_blank, is_whitespace,
}
use computermoney.Result.{ok, err, invalid_data}
use computermoney.Chain.{confirmations, rebroadcast_hex, depth, is_hard_rejection, broadcast}
use computermoney.Ledger.Entry.{Status, address_issued, from_confirmations, status_eq}
use computermoney.Ledger.Folds.{
  latest_status, latest_from, overwrite, stated, status_is, payment_txid, has_txid, is_payment_of,
  has_sp_output, is_output, is_sp_spent, is_spend,
}
use computermoney.Ledger.Balances.{pending, pending_from, in_flight, balance}
use computermoney.Ledger.Store.{on_disk, append, append_bytes, parse_ledger, lines}
use computermoney.Ledger.Methods.{
  update_status, read_sidecar, remove_sidecar, list_sidecars, find_sidecar, drop_sidecar,
  record_received, record_sp_received, record_sp_spent,
}
use computermoney.Ledger.Reconcile.{
  reconcile, reconcile_each, reconcile_one, recover, retry, settle, advance, set_status,
  drop_settled, sweep_orphans, remove_all, orphans, sent_txid,
}
use computermoney.Ledger.Queue.{Distinct, pending_exact}
use computermoney.Ledger.Sums.{total, credited, debited, balance_exact}
use computermoney.Ledger.Books.{Books}
use computermoney.Ledger.Durability.{render, IsSynced, append-IsSynced, reopen}
use computermoney.Ledger.Tampering.{Attested, opened-Attested, torn_tail_refused}
use computermoney.Ledger.Dedup.{deposit_masked, late_output_unsettles}
use computermoney.Ledger.Recovery.{status_of, sidecar_of, Verdict}
use computermoney.Ledger.Recovery.Settled.{reconcile_settles}
use computermoney.Ledger.Recovery.Invariants.{Extends, reconcile-Books}
use computermoney.Samples.Codec.{plain_codec, plain_codec-IsSound, get_record, get_entry, get_num}
use computermoney.Samples.Shop.{
  shop-Books, shop-IsSynced, key, shop_ledger, shop, failing_shop, server,
}

reconcile_runs : (reconcile shop).0 ≡ ok 3
unfolding reconcile reconcile_each reconcile_one recover retry settle advance set_status
    drop_settled sweep_orphans remove_all orphans sent_txid pending pending_from in_flight
    latest_status latest_from overwrite stated status_is status_eq payment_txid contains text_eq
    confirmations depth rebroadcast_hex is_hard_rejection contains_text starts_with to_lower
    broadcast from_confirmations read_sidecar remove_sidecar list_sidecars find_sidecar drop_sidecar
    update_status append append_bytes on_disk filter_map
reconcile_runs = refl

reconcile_settles_example :
    ((t : Text)
      → contains t (pending shop_ledger.entries) ≡ true
      → (s : Status) × Verdict t (sidecar_of t shop) s × (status_of t (reconcile shop).1 ≡ some s))
    × ((t : Text)
        → contains t (pending shop_ledger.entries) ≡ false
        → status_of t (reconcile shop).1 ≡ status_of t shop)
reconcile_settles_example = reconcile_settles shop 3 reconcile_runs

failing_shop-IsSynced : IsSynced failing_shop
failing_shop-IsSynced = record { written = refl; untorn = (tt, (tt, tt)) }

reopen_example : parse_ledger (some key) (render (some key) shop_ledger.entries) ≡ ok shop_ledger
reopen_example = reopen plain_codec-IsSound shop shop-IsSynced

opened-Attested_example :
    Attested key (lines (render (some key) shop_ledger.entries)) shop_ledger.entries
    × (shop_ledger.identity ≡ some key)
opened-Attested_example =
    opened-Attested key shop.disk.file shop_ledger (reopen plain_codec-IsSound shop shop-IsSynced)

reconcile-Books_example : Books (reconcile shop).1 × Extends shop_ledger.entries (reconcile shop).1
reconcile-Books_example = reconcile-Books shop shop-Books

append-IsSynced_example : IsSynced (append (address_issued 7 1) failing_shop).1
append-IsSynced_example =
    (append-IsSynced (address_issued 7 1)).run failing_shop failing_shop-IsSynced

pending_exact_example :
    Distinct (pending shop_ledger.entries)
    × ((t : Text)
        → contains t (pending shop_ledger.entries)
          ≡ (has_txid t shop_ledger.entries && in_flight (latest_status t shop_ledger.entries)))
pending_exact_example = pending_exact shop_ledger.entries

balance_exact_example :
    balance shop_ledger.entries
    ≡ total (filter_map (credited shop_ledger.entries) shop_ledger.entries)
      - total (filter_map (debited shop_ledger.entries) shop_ledger.entries)
unfolding total credited debited filter_map latest_status latest_from overwrite stated status_is
    status_eq text_eq
balance_exact_example = balance_exact shop_ledger.entries (omega arith) (omega arith)

received_runs : (record_received (codes "ee") 10 1 shop).0 ≡ ok true
unfolding record_received has_txid is_payment_of payment_txid text_eq append append_bytes on_disk
received_runs = refl

spent_runs : (record_sp_spent (codes "bb") 1 shop).0 ≡ ok true
unfolding record_sp_spent is_sp_spent is_spend text_eq append append_bytes on_disk
spent_runs = refl

deposit_masked_example : record_received (codes "bb") 300 0 shop ≡ (ok false, shop)
deposit_masked_example =
    deposit_masked (codes "bb") 2 1 500 (codes "t1") Status.pending shop
      (take 2 shop_ledger.entries) (drop 3 shop_ledger.entries) refl 300 0

bb_is_final : latest_status (codes "bb") shop_ledger.entries ≡ some Status.final
unfolding latest_status latest_from overwrite stated text_eq
bb_is_final = refl

bb_has_no_output_2 : has_sp_output (codes "bb") 2 shop_ledger.entries ≡ false
unfolding has_sp_output is_output text_eq
bb_has_no_output_2 = refl

output_runs : (record_sp_received (codes "bb") 2 40 (codes "t3") shop).0 ≡ ok true
unfolding record_sp_received has_sp_output is_output text_eq append append_bytes on_disk
output_runs = refl

late_output_unsettles_example :
    latest_status
      (codes "bb")
      (record_sp_received (codes "bb") 2 40 (codes "t3") shop).1.ledger.entries
    ≡ some Status.pending
late_output_unsettles_example =
    late_output_unsettles (codes "bb") 2 40 (codes "t3") shop bb_is_final bb_has_no_output_2
      output_runs

torn_tail_refused_example :
    parse_ledger (some key) (render (some key) shop_ledger.entries ++ codes "{") ≡ err invalid_data
unfolding is_blank is_whitespace get_record get_entry get_num
torn_tail_refused_example =
    torn_tail_refused plain_codec-IsSound (some key) shop_ledger.entries (codes "{")
      ((omega arith, omega arith), tt) refl refl
