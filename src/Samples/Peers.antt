-- ===== src/Samples/Peers.antt =====
-- The theorems on peers, the scan and the seller at work on the stand-ins.
use mathlib.Core.List.{append-nil, filter_map}
use computermoney.Prelude.{
  ◌⊎◌, ℕ, ◌≤◌, Text, codes, text_eq, trim, contains, true, false, some, none, List, [], ◌∷◌, ◌++◌,
  ◌≡◌, refl, sym, arith, starts_with, is_whitespace, is_blank, trim_start, trim_end, to_lower,
}
use computermoney.Result.{ok}
use computermoney.Ledger.Folds.{sum_from}
use computermoney.Ledger.Books.{Books}
use computermoney.Protocol.{addr_request, addr_response, notify, chat, ReadsBack}
use computermoney.Net.{Session, run_receiver, run_payer}
use computermoney.Net.Gated.{IsGated, run_payer-IsGated}
use computermoney.Fetch.{fetch}
use computermoney.Fetch.Guarded.{IsAllowed, fetch-IsAllowed}
use computermoney.Net.Adds.{Adds}
use computermoney.Net.Credits.{IsHonest, run_receiver-Adds}
use computermoney.Matching.{
  tx_pays_me, tx_matches, any_coinbase, is_empty, input_pubkey, spk_key, wpkh_key, last_item,
  input_outpoint, smallest_outpoint, smaller, taproot_outputs, taproot_output_key, check_inputs,
}
use computermoney.Scan.{Scanner, book_txs, scan_pages, scan_to_tip}
use computermoney.Scan.Pages.{scan_pages_complete}
use computermoney.Scan.Finds.{scan_to_tip-Books}
use computermoney.Paywall.{
  Offer, paid, parse_request, split_crlf, cons_first, of_lines, first_word, until_space,
  find_payment, payment_in, split_colon, keep_name, is_txid, all_hexdigit, is_hexdigit, check_paid,
  judge, respond, verify_payment, handle, run,
}
use computermoney.Paywall.Redeem.{paid_once, spellings_redeemed_each}
use computermoney.Samples.Codec.{plain_codec}
use computermoney.Samples.Shop.{shop, server, shop-Books}
use computermoney.Samples.Bank.{
  bank_payer, bank_web, bank_host, bank_bdk, bank_json, put_message, get_message, bank_addresses,
  bank_txs, bank_wire, bank_scan, block,
}

pub bank_json-ReadsBack : ReadsBack bank_json
unfolding put_message get_message
bank_json-ReadsBack (addr_request n) = refl
bank_json-ReadsBack (addr_response t n) = refl
bank_json-ReadsBack (notify t n) = refl
bank_json-ReadsBack (chat t) = refl

abbrev session : Session
session = record { world = shop; receiver = record { next_index = 3 }; outbox = [] }

run_receiver-Adds_example :
    Adds IsHonest shop.ledger.entries
      (run_receiver none
        (ok (addr_request 50) ∷ ok (chat (codes "hi")) ∷ ok (notify (codes "dep") 999) ∷ [])
        session).1.world
run_receiver-Adds_example =
    (run_receiver-Adds shop.ledger.entries none
        (ok (addr_request 50) ∷ ok (chat (codes "hi")) ∷ ok (notify (codes "dep") 999) ∷ []) tt).run
      session ([], tt, sym (append-nil _))

scan_pages_complete_example :
    scan_pages 1 (codes "scan", codes "spend") (codes "hash") 0 [] shop
    ≡ book_txs (codes "scan", codes "spend") block [] shop
scan_pages_complete_example =
    scan_pages_complete (codes "hash") block (λ start. refl) (omega arith) 1
      (codes "scan", codes "spend") 0 [] shop (omega arith) (omega arith)

abbrev scanner : Scanner
scanner = record { world = shop; checkpoint = none }

scan_to_tip-Books_example : Books (scan_to_tip 9 scanner).1.world
scan_to_tip-Books_example = (scan_to_tip-Books 9).run scanner shop-Books

abbrev offer : Offer
offer = record {
  price_sats = 300;
  body = codes "goods";
  sp_code = codes "tsp1x";
  network = codes "signet";
}

abbrev small : Text
small = codes "aaaaaaaaaaaaaaaaaaaaaaaaaaaaaaaaaaaaaaaaaaaaaaaaaaaaaaaaaaaaaaaa"

abbrev capital : Text
capital = codes "Aaaaaaaaaaaaaaaaaaaaaaaaaaaaaaaaaaaaaaaaaaaaaaaaaaaaaaaaaaaaaaaa"

abbrev crlf : Text
crlf = 13 ∷ 10 ∷ []

abbrev buyer : Text
buyer = codes "GET / HTTP/1.1" ++ (crlf ++ (codes "X-Payment: " ++ (small ++ (crlf ++ crlf))))

small_pays : tx_pays_me small ≡ ok 400
unfolding tx_pays_me tx_matches any_coinbase is_empty input_pubkey spk_key wpkh_key last_item
    starts_with input_outpoint smallest_outpoint smaller taproot_outputs taproot_output_key
    check_inputs filter_map sum_from
small_pays = refl

buyer_gets : (handle offer buyer []).0 ≡ paid (codes "goods")
unfolding handle parse_request split_crlf cons_first of_lines first_word until_space find_payment
    payment_in split_colon keep_name is_txid all_hexdigit is_hexdigit check_paid verify_payment
    judge respond contains text_eq trim trim_start trim_end is_blank is_whitespace to_lower
    tx_pays_me tx_matches any_coinbase is_empty input_pubkey spk_key wpkh_key last_item starts_with
    input_outpoint smallest_outpoint smaller taproot_outputs taproot_output_key check_inputs
    filter_map sum_from
buyer_gets = refl

paid_once_example :
    (text_eq (parse_request buyer).method (codes "GET") ≡ true)
    × (txid : Text) × (sats : ℕ) × ((parse_request buyer).payment ≡ some txid)
    × (is_txid txid ≡ true)
    × (tx_pays_me txid ≡ ok sats)
    × (300 ≤ sats)
    × (contains txid [] ≡ false)
    × ((raws : List Text)
        → let used' = (run offer raws (handle offer buyer []).1).1 in
          verify_payment 300 txid used' ≡ (false, used'))
paid_once_example = paid_once offer buyer [] buyer_gets

-- The same transaction, named with a capital digit.
abbrev again : Text
again = codes "GET / HTTP/1.1" ++ (crlf ++ (codes "X-Payment: " ++ (capital ++ (crlf ++ crlf))))

spellings_redeemed_each_example :
    handle offer again (handle offer buyer []).1 ≡ (paid (codes "goods"), capital ∷ small ∷ [])
unfolding parse_request split_crlf cons_first of_lines first_word until_space find_payment
    payment_in split_colon keep_name contains text_eq trim trim_start trim_end is_blank
    is_whitespace to_lower
spellings_redeemed_each_example =
    spellings_redeemed_each offer buyer again small capital [] (λ t t' e. refl) buyer_gets refl refl
      refl refl refl refl

run_payer-IsGated_example :
    ((run_payer
        (codes "ext")
        (codes "int")
        (ok (addr_response (codes "shop") 4) ∷ [])
        300
        session).1.world
      ≡ shop)
    ⊎ IsGated (ok (addr_response (codes "shop") 4) ∷ []) 300 shop
run_payer-IsGated_example =
    run_payer-IsGated (codes "ext") (codes "int") (ok (addr_response (codes "shop") 4) ∷ []) 300
      session

fetch-IsAllowed_example :
    ((fetch (codes "ext") (codes "int") (codes "http://shop") 500 shop).1 ≡ shop)
    ⊎ IsAllowed (codes "http://shop") 500 shop
fetch-IsAllowed_example = fetch-IsAllowed (codes "ext") (codes "int") (codes "http://shop") 500 shop
