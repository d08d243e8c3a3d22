-- ===== src/Samples/Silent.antt =====
-- A silent payment from one input, found by its receiver.
use computermoney.Prelude.{
  if◌then◌else◌, none, trim, trim_start, trim_end, is_blank, is_whitespace, to_lower, Text, codes,
  List, [], ◌∷◌, ◌≡◌, refl, text_eq, ◌++◌, some, false, arith,
}
use computermoney.Policy.{testnet}
use computermoney.Result.{Error, ok, err}
use computermoney.Storage.{Host, network, network_of, unwrap_or_default}
use computermoney.Pay.{Payer, sp_send}
use computermoney.Build.{SpInput}
use computermoney.Matching.{SpFound, smallest_outpoint, smaller}
use computermoney.Sp.{
  Output, tagged_hash, output_at, sum_secrets, sum_points, exchange, take_output, receive_from,
  input_hash, with_smallest, sender_context, send_key, receive_inner,
}
use computermoney.Sp.Fuel.{receive_from_enough}
use computermoney.Sp.Agreement.{IsGroup, sent_output_found}
use computermoney.Sp.Codes.{Encoding, decode}
use computermoney.Sp.Codes.Networks.{sp_send_on_testnet}
use computermoney.Samples.Codec.{plain_codec}
use computermoney.Samples.Shop.{shop, server}
use computermoney.Samples.Bank.{bank_curve, bank_scan, bank_host, bank_bdk, bank_payer}

bank_curve-IsGroup : IsGroup bank_curve
bank_curve-IsGroup = record {
  sums = λ a k s b scaled added. cc;
  exchanges = λ a b h x y mine theirs. refl;
}

abbrev coin : SpInput
coin = ((codes "in", 0), codes "k")

abbrev other_output : Output
other_output = (0, (codes "other", 5))

sent : send_key (coin ∷ []) (codes "scan") (codes "spend") ≡ ok (codes "spend" ++ (9 ∷ []))
unfolding send_key sender_context with_smallest input_hash tagged_hash sum_secrets exchange
    output_at smallest_outpoint smaller
sent = refl

least : smallest_outpoint ((codes "in", 0) ∷ []) ≡ some (codes "in", 0)
unfolding smallest_outpoint smaller
least = refl

abbrev found : List SpFound
found = record { vout = 1; sats = 400; tweak = 9 ∷ [] } ∷ []

received :
    receive_inner
      (codes "k" ∷ [])
      (codes "in", 0)
      (other_output ∷ (1, (codes "spend" ++ (9 ∷ []), 400)) ∷ [])
      (codes "scan")
      (codes "spend")
    ≡ ok found
unfolding receive_inner sum_points exchange input_hash tagged_hash receive_from output_at
    take_output text_eq
received = refl

other_misses : text_eq (codes "other") (codes "spend" ++ (9 ∷ [])) ≡ false
unfolding text_eq
other_misses = refl

sent_output_found_example :
    (tweak : Text) × (rest : List SpFound) × (found
      ≡ record { vout = 1; sats = 400; tweak = tweak } ∷ rest)
sent_output_found_example =
    sent_output_found bank_curve-IsGroup coin [] (codes "in", 0) (codes "scan") (codes "spend")
      (codes "spend" ++ (9 ∷ [])) least sent (other_output ∷ []) [] 1 400 found (other_misses, tt)
      received

receive_from_enough_example :
    receive_from 2 (codes "e") (codes "spend") 0 (other_output ∷ []) []
    ≡ receive_from 1 (codes "e") (codes "spend") 0 (other_output ∷ []) []
receive_from_enough_example =
    receive_from_enough 1 (codes "e") (codes "spend") 0 (other_output ∷ []) [] (omega arith)

-- A wallet on testnet.
abbrev test_host : Host
test_host = record bank_host {
  var = λ key. if text_eq key (codes "CM_NETWORK") then some (codes "testnet") else none;
}

instance abbrev any_encoding : Encoding
any_encoding = record {
  chars = λ hrp v bytes. hrp ++ (0 ∷ bytes);
  checked = λ t. some (codes "tsp", some (0, t));
  from_slice = ok;
  is_odd = λ p. false;
  negate = λ k. k;
  p2tr_tweaked = λ k b. k;
}

abbrev decoding_payer : Payer
decoding_payer = record bank_payer { decode = decode }

on_testnet : network ⦃h = test_host⦄ ≡ testnet
unfolding network network_of unwrap_or_default text_eq trim trim_start trim_end is_blank
    is_whitespace to_lower
on_testnet = refl

sp_send_on_testnet_example :
    (why : Error) × (sp_send ⦃h = test_host⦄ ⦃y = decoding_payer⦄
        (codes "ext")
        (codes "int")
        (codes "tsp1x")
        400
        none
        shop
      ≡ (err why, shop))
sp_send_on_testnet_example =
    sp_send_on_testnet ⦃h = test_host⦄ ⦃y = decoding_payer⦄ on_testnet (λ code. refl) (codes "ext")
      (codes "int") (codes "tsp1x") 400 none shop
