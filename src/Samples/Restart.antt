-- ===== src/Samples/Restart.antt =====
-- A process that dies after a payment, and the one that opens its ledger again.
use mathlib.Core.List.{filter_map}
use computermoney.Prelude.{
  Text, codes, text_eq, contains, contains_text, starts_with, to_lower, some, [], ◌∷◌, ◌++◌, ◌≡◌,
  ◌⊎◌, refl, trim, trim_start, trim_end, is_blank, is_whitespace,
}
use computermoney.Policy.{ensure_mainnet_capped}
use computermoney.Result.{ok}
use computermoney.Storage.{network, network_of, unwrap_or_default}
use computermoney.Chain.{
  confirmations, rebroadcast_hex, depth, is_hard_rejection, broadcast, clamp_feerate,
}
use computermoney.Ledger.Entry.{Status, from_confirmations, status_eq}
use computermoney.Ledger.Folds.{
  latest_status, latest_from, overwrite, stated, status_is, payment_txid, next_seq,
}
use computermoney.Ledger.Balances.{pending, pending_from, in_flight}
use computermoney.Ledger.Store.{World, on_disk, append, append_bytes, parse_ledger}
use computermoney.Ledger.Methods.{
  update_status, read_sidecar, remove_sidecar, list_sidecars, find_sidecar, drop_sidecar,
  write_sidecar,
}
use computermoney.Ledger.Reconcile.{
  reconcile, reconcile_each, reconcile_one, recover, retry, settle, advance, set_status,
  drop_settled, sweep_orphans, remove_all, orphans, sent_txid,
}
use computermoney.Ledger.Durability.{reopen}
use computermoney.Ledger.Recovery.{status_of, Verdict}
use computermoney.Build.{
  build_signed, mainnet_guard, build_wallet, synced_wallet, finish_capped, fee_gate, finalized_gate,
  recommended_feerate, or_estimate, unwrap_or,
}
use computermoney.Pay.{book_and_broadcast, send}
use computermoney.Pay.Crash.{by_send, sends-IsSynced, sent_payment_recovers}
use computermoney.Samples.Codec.{plain_codec, plain_codec-IsSound}
use computermoney.Samples.Shop.{shop, shop-IsSynced, server}
use computermoney.Samples.Bank.{bank_host, bank_bdk, bank_payer}

abbrev after_send : World
after_send = (send (codes "ext") (codes "int") (codes "shop") 300 (some 50) shop).1

-- What the next process has: the files, and nothing else.
abbrev restarted : World
restarted = record {
  ledger = after_send.ledger;
  disk = record { file = after_send.disk.file; sidecars = after_send.disk.sidecars; faults = [] };
  broadcasts = [];
}

restarted_heals : (reconcile restarted).0 ≡ ok 4
unfolding send build_signed mainnet_guard ensure_mainnet_capped network network_of unwrap_or_default
    trim trim_start trim_end is_blank is_whitespace synced_wallet build_wallet recommended_feerate
    or_estimate unwrap_or clamp_feerate finish_capped fee_gate finalized_gate book_and_broadcast
    write_sidecar next_seq reconcile reconcile_each reconcile_one recover retry settle advance
    set_status drop_settled sweep_orphans remove_all orphans sent_txid pending pending_from
    in_flight latest_status latest_from overwrite stated status_is status_eq payment_txid contains
    text_eq confirmations depth rebroadcast_hex is_hard_rejection contains_text starts_with to_lower
    broadcast from_confirmations read_sidecar remove_sidecar list_sidecars find_sidecar drop_sidecar
    update_status append append_bytes on_disk filter_map
restarted_heals = refl

sent_payment_recovers_example :
    (parse_ledger after_send.ledger.identity after_send.disk.file ≡ ok after_send.ledger)
    × ((after_send.broadcasts ≡ shop.broadcasts)
        ⊎ ((tx : Text) × (after_send.broadcasts ≡ shop.broadcasts ++ (tx ∷ []))
            × (s : Status) × Verdict (server.compute_txid tx) (some (bank_payer.serialize_hex tx)) s
            × (status_of (server.compute_txid tx) (reconcile restarted).1 ≡ some s)))
sent_payment_recovers_example =
    sent_payment_recovers plain_codec-IsSound (codes "ext") (codes "int") (codes "shop") 300
      (some 50) shop after_send restarted 4 shop-IsSynced by_send
      (reopen plain_codec-IsSound after_send
        (sends-IsSynced (codes "ext") (codes "int") (codes "shop") 300 (some 50) shop
          shop-IsSynced).0)
      refl restarted_heals
