-- ===== src/Samples/Sessions.antt =====
-- The theorems on the tunnel, the tool server, the command line and the keys at work.
use mathlib.Core.List.{filter_map}
use computermoney.Prelude.{
  ℕ, ◌≤◌, Text, codes, trim, take, true, none, some, List, [], ◌∷◌, ◌++◌, map, All, ◌≡◌, ◌⊎◌, false,
  refl, arith, is_blank, is_whitespace, trim_start, trim_end, text_eq,
}
use computermoney.Result.{ok}
use computermoney.Protocol.{Message, chat, notify, encode}
use computermoney.Keys.{key, panics, utf8, utf8_char, hex32, parse_card_key, parse_public_key}
use computermoney.Keys.Digits.{parse-hex32, cut_key_panics}
use computermoney.Discover.{resolve, resolve_from}
use computermoney.Tunnel.{Arrival, FramedTunnel, drain}
use computermoney.Tunnel.Carries.{Carries, send_each, drain-send_each}
use computermoney.Server.{send_payment, pay_peer}
use computermoney.Server.Capped.{Untouched, over_cap_unpaid}
use computermoney.Server.Calls.{
  Server, invalid_params, protocol, str_at, value_at, tool_of, find_tool,
}
use computermoney.Server.Rpc.{tools_call, serve_lines, named_call}
use computermoney.Server.Rpc.Refusals.{tools_call_refused}
use computermoney.Server.Rpc.Replies.{reply_to, Dies, IsCalm, serve_lines-replies}
use computermoney.Cli.{cli_pay}
use computermoney.Cli.Paths.{cli_pay-pay_peer}
use computermoney.Scan.Tweaks.{IsByte}
use computermoney.Scan.{hex_lower, hex_char}
use computermoney.Samples.Codec.{plain_codec}
use computermoney.Samples.Shop.{shop, server}
use computermoney.Samples.Bank.{
  bank_policy, bank_payer, bank_web, bank_host, bank_bdk, bank_json, put_message, bank_scan,
}
use computermoney.Samples.Peers.{bank_json-ReadsBack}
use computermoney.Samples.Network.{
  bare_home, plain_tunn, plain_tunn-IsTunnel, plain_socket, quiet_internet, bank_account, slow_dht,
  card, doc_value, field_of, text_of, unknown_params, open_ports,
}

abbrev tunnel : FramedTunnel
tunnel = record { core = tt; peer = codes "peer"; inbox = []; sent = [] }

abbrev said : List Message
said = chat (codes "hi") ∷ notify (codes "tx") 5 ∷ []

drain-send_each_example :
    (ds : List Text) × ((send_each said tunnel).0 ≡ ok tt)
    × ((send_each said tunnel).1.sent ≡ [] ++ map (λ d. (codes "peer", d)) ds)
    × ((inbox : List Arrival) (n : ℕ)
        → Carries ds inbox
        → 2 ≤ n
        → drain n (record tunnel { inbox = inbox }) ≡ map ok said)
unfolding encode put_message plain_tunn-IsTunnel
drain-send_each_example =
    drain-send_each plain_tunn-IsTunnel bank_json-ReadsBack (λ bytes to. refl) said tunnel tunnel tt
      (omega arith, (omega arith, tt))

over_cap_unpaid_example :
    Untouched shop (send_payment (codes "to") 6000 shop).1
    × Untouched shop (pay_peer (codes "sp1x") 6000 shop).1
over_cap_unpaid_example =
    over_cap_unpaid bank_policy 5000 6000 refl (omega arith) refl shop (codes "to") (codes "sp1x")

cli_pay-pay_peer_example :
    Untouched (cli_pay (trim (codes " sp1x ")) 300 shop).1 (pay_peer (codes " sp1x ") 300 shop).1
cli_pay-pay_peer_example = cli_pay-pay_peer (codes " sp1x ") 300 shop

abbrev ready : Server
ready = record {
  home = bare_home;
  world = shop;
  checkpoint = none;
  unlocked = true;
  unlocks = [];
  serving = true;
  selling = true;
}

no_such_tool :
    (tools_call 9 (some unknown_params) ready).0
    ≡ protocol invalid_params (codes "unknown tool: cm_mint")
unfolding tools_call str_at value_at named_call tool_of find_tool field_of text_of text_eq
no_such_tool = refl

tools_call_refused_example : (tools_call 9 (some unknown_params) ready).1 ≡ ready
tools_call_refused_example =
    tools_call_refused 9 (some unknown_params) ready invalid_params (codes "unknown tool: cm_mint")
      refl no_such_tool

abbrev lines : List Text
lines = codes "call" ∷ codes " " ∷ codes "note" ∷ codes "{" ∷ []

serve_lines-replies_example :
    ((((serve_lines 9 lines ready).1.0 ≡ true)
        × (map (λ f. f.0) (serve_lines 9 lines ready).0 ≡ filter_map reply_to lines))
      ⊎ (((serve_lines 9 lines ready).1.0 ≡ false) × Dies 9 lines ready))
    × All (IsCalm 9) (serve_lines 9 lines ready).0
serve_lines-replies_example = serve_lines-replies 9 lines ready

abbrev key32 : Text
key32 = codes "0123456789abcdef0123456789abcdef"

key32-IsByte : All IsByte key32
key32-IsByte = ground arith

parse-hex32_example :
    (parse_card_key (hex32 key32) ≡ key key32) × (parse_public_key (hex32 key32) ≡ key key32)
parse-hex32_example = parse-hex32 key32 refl key32-IsByte

-- The first two lookups of `slow_dht` find nothing.
found_third : resolve (codes "pk") ≡ ok (some card)
unfolding resolve resolve_from
found_third = refl

-- 61 digits and a character of three bytes.
abbrev zeros30 : Text
zeros30 = take 30 (
    0 ∷ 0 ∷ 0 ∷ 0 ∷ 0 ∷ 0 ∷ 0 ∷ 0 ∷ 0 ∷ 0 ∷ 0 ∷ 0 ∷ 0 ∷ 0 ∷ 0 ∷ 0 ∷ 0 ∷ 0 ∷ 0 ∷ 0 ∷ 0 ∷ 0 ∷ 0 ∷ 0
    ∷ 0 ∷ 0 ∷ 0 ∷ 0 ∷ 0 ∷ 0 ∷ [])

abbrev euro_key : Text
euro_key = codes "0000000000000000000000000000000000000000000000000000000000000" ++ (0x20ac ∷ [])

euro_bytes : utf8 (trim euro_key) ≡ hex_lower zeros30 ++ (b'0' ∷ 0xe2 ∷ 0x82 ∷ 0xac ∷ [])
unfolding utf8 utf8_char trim trim_start trim_end is_blank is_whitespace hex_lower hex_char
euro_bytes = refl

cut_key_panics_example : (parse_card_key euro_key ≡ panics) × (parse_public_key euro_key ≡ panics)
unfolding utf8 utf8_char trim trim_start trim_end is_blank is_whitespace
cut_key_panics_example =
    cut_key_panics euro_key zeros30 b'0' 0xe2 0x82 (0xac ∷ []) refl euro_bytes (ground arith)
      (omega arith, omega arith)
