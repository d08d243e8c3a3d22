-- ===== src/Samples/Shop.antt =====
-- A small shop for the witnesses: a key, a ledger with entries of every kind, and a server.
use computermoney.Prelude.{
  refl, arith, Text, codes, text_eq, true, false, none, some, [], ◌∷◌, if◌then◌else◌,
}
use computermoney.Result.{ok}
use computermoney.Chain.{Esplora}
use computermoney.Ledger.Entry.{
  Status, address_issued, sent, received, status_update, sp_received, sp_spent, seq,
}
use computermoney.Ledger.Store.{works, fails, Ledger, World}
use computermoney.Ledger.Folds.{
  has_txid, has_sp_output, is_sp_spent, is_payment_of, payment_txid, is_output, is_spend,
}
use computermoney.Ledger.Books.{Books}
use computermoney.Ledger.Durability.{render, IsSynced}
use computermoney.Samples.Codec.{plain_codec}

abbrev pub key : Text
key = codes "key"

-- Two deposits, two outputs of which one is spent, and a payment with a sidecar.
abbrev pub shop_ledger : Ledger
shop_ledger = record {
  entries =
      address_issued 0 0
      ∷ received 1 (codes "aa") 700 0 Status.pending
      ∷ sp_received 2 (codes "bb") 1 500 (codes "t1") Status.pending
      ∷ status_update 3 (codes "bb") Status.final
      ∷ sp_received 4 (codes "dd") 0 90 (codes "t2") Status.pending
      ∷ sp_spent 5 (codes "dd") 0
      ∷ sent 6 (codes "cc") 250 (codes "to") Status.pending 1000
      ∷ [];
  identity = some key;
}

abbrev pub shop : World
shop = record {
  ledger = shop_ledger;
  disk = record {
    file = render (some key) shop_ledger.entries;
    sidecars = (codes "cc", codes "raw") ∷ (codes "zz", codes "old") ∷ [];
    faults = [];
  };
  broadcasts = [];
}

pub shop-IsSynced : IsSynced shop
shop-IsSynced = record { written = refl; untorn = tt }

-- `shop`, whose second call of the file system fails.
abbrev pub failing_shop : World
failing_shop = record shop { disk = record (shop.disk) { faults = works ∷ fails ∷ [] } }

-- Everything but `cc` is six blocks deep, and `cc` is refused for a spent input.
instance abbrev pub server : Esplora
server = record {
  get_tx_status = λ txid.
      if text_eq txid (codes "cc")
      then ok (record { confirmed = false; block_height = none })
      else ok (record { confirmed = true; block_height = some 100 });
  get_height = ok 105;
  send_tx = λ tx. some (codes "txn-mempool-conflict");
  deserialize_hex = some;
  compute_txid = λ tx. tx;
}

pub shop-Books : Books shop
unfolding has_txid has_sp_output is_sp_spent is_payment_of payment_txid is_output is_spend text_eq
    seq
shop-Books = record { numbered = ground arith; fresh = ground arith }
