-- ===== src/Samples/Payments.antt =====
-- The theorems on payments, storage and the builders at work on the stand-ins.
use mathlib.Core.List.{Perm}
use computermoney.Prelude.{
  Text, codes, text_eq, trim, contains, true, some, none, List, [], ◌∷◌, ◌≡◌, refl, sym,
  starts_with, is_whitespace, is_blank, trim_start, trim_end, to_lower,
}
use computermoney.Policy.{bitcoin}
use computermoney.Result.{ok}
use computermoney.Storage.{
  network, network_of, unwrap_or_default, pick_identity, pick_default, sole, hits, selects,
  wallet_ids, insert_id, text_leb, all_hex,
}
use computermoney.Storage.Seed.{
  save_encrypted, load_encrypted, from_utf8, utf8_from, lead, derive_key, ok_or, open_seed,
}
use computermoney.Storage.Create.{
  save_new_wallet, wallet_dir, create_dir, store_seed, write_file, call_files, mark,
}
use computermoney.Storage.Create.Loads.{load-save_new_wallet}
use computermoney.Storage.Load.{
  load_wallet, unlock, unlock_sealed, check_id, load_wallet_on_mainnet,
}
use computermoney.Ledger.Durability.{IsSynced}
use computermoney.Ledger.Store.{World}
use computermoney.Build.{build_signed}
use computermoney.Ledger.Balances.{SpUtxo}
use computermoney.Build.Mixed.{build_signed_to_sp, build_signed_spending_sp}
use computermoney.Build.Guards.{OnOk, Guarded, builders-Guarded}
use computermoney.Build.Selection.{
  Selects, IsDescending, sort_utxos, select_largest_first, select_largest_first_shortest,
}
use computermoney.Pay.{send, sp_send, send_spending_sp}
use computermoney.Pay.Ahead.{IsAhead, sends-IsAhead}
use computermoney.Pay.Crash.{sends-IsSynced}
use computermoney.Setup.{Machine, setup_report}
use computermoney.Setup.Sealed.{setup_report-KeepsAll}
use computermoney.Samples.Network.{bank_account, slow_dht, bare_home, bank_fresh}
use computermoney.Samples.Codec.{plain_codec}
use computermoney.Samples.Shop.{shop, shop-IsSynced, server}
use computermoney.Samples.Bank.{
  bank_host, bank_bdk, bank_scan, bank_payer, bank_cipher, bank_wallets, bank_files, utxo,
}

some_back : (m c : Text) → some m ≡ some c → some c ≡ some m
some_back m c e = sym e

sends-IsAhead_example :
    IsAhead shop
      (codes "tsp1x")
      400
      (send (codes "ext") (codes "int") (codes "tsp1x") 400 (some 50) shop).1
    × IsAhead shop
        (codes "tsp1x")
        400
        (sp_send (codes "ext") (codes "int") (codes "tsp1x") 400 (some 50) shop).1
    × IsAhead shop
        (codes "tsp1x")
        400
        (send_spending_sp (codes "ext") (codes "int") (codes "tsp1x") 400 (some 50) shop).1
sends-IsAhead_example = sends-IsAhead (codes "ext") (codes "int") (codes "tsp1x") 400 (some 50) shop

sends-IsSynced_example :
    IsSynced (send (codes "ext") (codes "int") (codes "shop") 300 (some 50) shop).1
    × IsSynced (sp_send (codes "ext") (codes "int") (codes "shop") 300 (some 50) shop).1
    × IsSynced (send_spending_sp (codes "ext") (codes "int") (codes "shop") 300 (some 50) shop).1
sends-IsSynced_example =
    sends-IsSynced (codes "ext") (codes "int") (codes "shop") 300 (some 50) shop shop-IsSynced

-- The builders of addresses and of silent payments, with one received output to spend.
abbrev received : List SpUtxo
received =
    record {
      txid = codes "t";
      vout = 0;
      sats = 500;
      tweak = codes "0000000000000000000000000000000000000000000000000000000000000000";
    }
    ∷ []

builders-Guarded_example :
    OnOk
      (λ r. Guarded (some 50) r.1)
      (build_signed {S = World} (codes "ext") (codes "int") (codes "shop") 300 (some 50) shop).0
    × OnOk
        (λ r. Guarded (some 50) r.1.0)
        (build_signed_spending_sp {S = World}
          (codes "ext")
          (codes "int")
          (codes "shop")
          300
          (some 50)
          received
          (codes "sk")
          shop).0
    × OnOk
        (λ r. Guarded (some 50) r.1.0)
        (build_signed_to_sp {S = World}
          (codes "ext")
          (codes "int")
          (codes "scan")
          (codes "spend")
          300
          (some 50)
          received
          (codes "sk")
          shop).0
builders-Guarded_example =
    builders-Guarded (codes "ext") (codes "int") (codes "shop") (codes "scan") (codes "spend") 300
      (some 50) received (codes "sk") shop

select_largest_first_shortest_example :
    Selects 300 2 1 0
      (sort_utxos (utxo (codes "u1") 400 ∷ utxo (codes "u2") 9000 ∷ []))
      (select_largest_first (utxo (codes "u1") 400 ∷ utxo (codes "u2") 9000 ∷ []) 300 2 0 1)
    × IsDescending (sort_utxos (utxo (codes "u1") 400 ∷ utxo (codes "u2") 9000 ∷ []))
    × Perm
        (sort_utxos (utxo (codes "u1") 400 ∷ utxo (codes "u2") 9000 ∷ []))
        (utxo (codes "u1") 400 ∷ utxo (codes "u2") 9000 ∷ [])
select_largest_first_shortest_example =
    select_largest_first_shortest (utxo (codes "u1") 400 ∷ utxo (codes "u2") 9000 ∷ []) 300 2 0 1

abbrev stored : List Text
stored = codes "01234567" ∷ codes "89abcdef" ∷ []

picked_by_prefix : pick_identity stored (some (codes "89a")) none ≡ ok (codes "89abcdef")
unfolding pick_identity hits selects sole trim trim_start trim_end is_blank is_whitespace
    starts_with
picked_by_prefix = refl

picked_by_marker : pick_identity stored none (some (codes "01234567 ")) ≡ ok (codes "01234567")
unfolding pick_identity pick_default contains text_eq trim trim_start trim_end is_blank
    is_whitespace
picked_by_marker = refl

words_are_utf8 : from_utf8 (codes "words") ≡ ok (codes "words")
unfolding from_utf8 utf8_from lead
words_are_utf8 = refl

first_saved :
    (save_new_wallet
      (codes "saltsaltsaltsalt")
      (codes "noncenonceno")
      (codes "words")
      (codes "words")
      (some (codes "pass"))
      bare_home).0
    ≡ ok (codes "01234567")
unfolding save_new_wallet wallet_dir create_dir store_seed write_file call_files mark save_encrypted
    derive_key ok_or
first_saved = refl

load-save_new_wallet_example :
    load_wallet
      (save_new_wallet
        (codes "saltsaltsaltsalt")
        (codes "noncenonceno")
        (codes "words")
        (codes "words")
        (some (codes "pass"))
        bare_home).1.files
    ≡ ok (codes "words")
unfolding text_eq all_hex
load-save_new_wallet_example =
    load-save_new_wallet (λ key nonce m c e. some_back m c e) (codes "saltsaltsaltsalt")
      (codes "noncenonceno") (codes "words") (codes "words") (codes "pass") (codes "01234567ff")
      (codes "01234567") bare_home refl refl words_are_utf8 refl refl refl refl refl refl refl refl
      first_saved

bank_is_mainnet : network ≡ bitcoin
unfolding network network_of unwrap_or_default text_eq trim trim_start trim_end is_blank
    is_whitespace to_lower
bank_is_mainnet = refl

wallet_loads : load_wallet bank_files ≡ ok (codes "words")
unfolding load_wallet pick_identity pick_default contains wallet_ids insert_id text_leb all_hex
    unlock unlock_sealed check_id load_encrypted open_seed derive_key ok_or from_utf8 utf8_from lead
    text_eq trim trim_start trim_end is_blank is_whitespace starts_with
wallet_loads = refl

load_wallet_on_mainnet_example :
    (id : Text) × (sealed : Text) × (pass : Text) × (phrase : Text) × (actual : Text)
    × (pick_identity (wallet_ids bank_files.dirs) none bank_files.default ≡ ok id)
    × (bank_files.seed_enc id ≡ some sealed)
    × (bank_host.var (codes "CM_PASSPHRASE") ≡ some pass)
    × (load_encrypted pass (some sealed) ≡ ok phrase)
    × (bank_wallets.from_mnemonic phrase ≡ ok (codes "words"))
    × (bank_wallets.id_hex (codes "words") ≡ ok actual)
    × (starts_with actual id ≡ true)
unfolding text_eq
load_wallet_on_mainnet_example =
    load_wallet_on_mainnet bank_files (codes "words") bank_is_mainnet refl wallet_loads

abbrev bare_machine : Machine
bare_machine = record { home = bare_home; scanner = record { world = shop; checkpoint = none } }

setup_report-KeepsAll_example :
    (setup_report
      (codes "saltsaltsaltsalt")
      (codes "noncenonceno")
      bare_machine).1.home.files.mnemonic
    ≡ (λ id. none)
setup_report-KeepsAll_example =
    (setup_report-KeepsAll (λ id. none) (codes "saltsaltsaltsalt") (codes "noncenonceno")
        bank_is_mainnet).run
      bare_machine refl
