-- ===== src/Samples/Network.antt =====
-- Stand-ins for what the tunnel, the card lookup, the tool server and the daemon stand on.
use computermoney.Prelude.{
  zero, suc, ltb, Text, codes, text_eq, take, Option, none, some, [], ◌∷◌, refl, arith,
  if◌then◌else◌,
}
use computermoney.Result.{ok}
use computermoney.Matching.{ScanHost}
use computermoney.Wallet.{Account}
use computermoney.Discover.{Card, Dht}
use computermoney.Tunnel.{TunnResult, write_to_network, write_to_tunnel_v4, failed, Tunn, Socket}
use computermoney.Tunnel.Packets.{total_length}
use computermoney.Tunnel.Carries.{IsTunnel, IsJunk}
use computermoney.Tunnel.Session.{Internet}
use computermoney.Server.Calls.{JsonValue, Ports}
use computermoney.Storage.Create.{Home}
use computermoney.Setup.{Fresh}
use computermoney.Samples.Shop.{key}
use computermoney.Samples.Bank.{bank_scan, paying_tx, bank_cipher, bank_wallets}

-- A datagram is the packet behind a 1, or a 2 that answers a handshake; what starts otherwise is not
-- authenticated.
unfoldable pub open_datagram : Text → TunnResult
open_datagram (suc zero ∷ ip) = write_to_tunnel_v4 (take (total_length ip) ip)
open_datagram (suc (suc zero) ∷ rest) = write_to_network (3 ∷ [])
open_datagram _ = failed (codes "not authenticated")

instance abbrev pub plain_tunn : Tunn
plain_tunn = record {
  State = Unit {0};
  public_key = λ k. k;
  new = λ secret peer. tt;
  format_handshake_initiation = λ s. (write_to_network (2 ∷ []), s);
  decapsulate = λ s d. (open_datagram d, s);
  encapsulate = λ s ip. (write_to_network (1 ∷ ip), s);
  parse_incoming_packet = some;
  parse_handshake_anon = λ secret public init. some init;
}

unfoldable pub plain_tunn-IsTunnel : IsTunnel ⦃t = plain_tunn⦄
unfolding open_datagram
plain_tunn-IsTunnel = record {
  Linked = λ s r. Unit {0};
  datagram_of = λ s ip. 1 ∷ ip;
  sender_after = λ s ip. s;
  receiver_after = λ s d. s;
  encrypted = λ s r ip l k. refl;
  decrypted = λ s r ip l k. refl;
  linked = λ s r ip l k. l;
  short = λ s r ip l k. omega arith;
}

pub stray-IsJunk : IsJunk ⦃t = plain_tunn⦄ (7 ∷ [])
unfolding open_datagram
stray-IsJunk = record { why = codes "not authenticated"; dropped = λ s. refl }

instance abbrev pub plain_socket : Socket
plain_socket = record { send_to = λ bytes to. ok tt }

-- Nobody answers.
instance abbrev pub quiet_internet : Internet
quiet_internet = record { parse_addr = some; bind = ok tt; polls = λ a. []; inbox = λ a. [] }

instance abbrev pub bank_account : Account
bank_account = record {
  id_hex = ok (codes "0123");
  signing_keypair = ok key;
  wg_secret_bytes = ok (codes "secret");
  descriptors = (codes "ext", codes "int");
  sp_code = ok (codes "sp1x");
  address = λ n. ok (n ∷ []);
}

abbrev pub card : Card
card = record { wg = codes "wg"; ep = codes "host:1" ∷ []; sp = none; at = 7 }

-- The first two lookups find nothing.
instance abbrev pub slow_dht : Dht
slow_dht = record {
  client = ok tt;
  get_mutable = λ attempt k. if ltb attempt 2 then none else some (codes "card");
  put_mutable = λ secret value at. ok tt;
  to_vec = λ c. c.wg;
  from_slice = λ t. ok card;
  card_pubkey = λ t. t;
}

-- A value is a text, null, or an object, which is its fields in turn.
pub data Doc : Type 0 where
  str : Text → Doc
  nil empty : Doc
  field : Text → Doc → Doc → Doc

unfoldable pub field_of : Doc → Text → Option Doc
field_of (field k v rest) name =
    let more = field_of rest name in if text_eq k name then some v else more
field_of _ name = none

unfoldable pub text_of : Doc → Option Text
text_of (str t) = some t
text_of _ = none

-- The parameters of a call of a tool that there is not.
abbrev pub unknown_params : Doc
unknown_params = field (codes "name") (str (codes "cm_mint")) empty

-- The line `call` is a call of that tool, `note` a notification, and all else is no JSON.
unfoldable pub parse_doc : Text → Option Doc
parse_doc t =
    if text_eq t (codes "call")
    then some (
        field (codes "id") (str (codes "1")) (
          field (codes "method") (str (codes "tools/call"))
            (field (codes "params") unknown_params empty)))
    else if text_eq t (codes "note")
    then some (field (codes "method") (str (codes "ping")) empty)
    else none

instance abbrev pub doc_value : JsonValue
doc_value = record {
  Value = Doc;
  null = nil;
  from_str = parse_doc;
  get = field_of;
  as_str = text_of;
  as_u64 = λ v. none;
}

-- A machine without a wallet.
abbrev pub bare_home : Home
bare_home = record {
  files = record {
    dirs = codes "notes" ∷ [];
    default = none;
    seed_enc = λ id. none;
    mnemonic = λ id. none;
  };
  locked = [];
  faults = [];
}

instance abbrev pub bank_fresh : Fresh ⦃ws = bank_wallets⦄
bank_fresh = record { generate = ok (codes "words", codes "words"); account = λ w. bank_account }

instance abbrev pub open_ports : Ports
open_ports = record {
  listen = λ port. ok tt;
  cipher = bank_cipher;
  wallets = bank_wallets;
  fresh = bank_fresh;
  salt = codes "saltsaltsaltsalt";
  nonce = codes "noncenonceno";
}

-- `bank_scan`, whose blocks hold one payment to the wallet.
abbrev pub finding_scan : ScanHost
finding_scan = record bank_scan {
  block_txs = λ hash start. ok (paying_tx ∷ []);
  tip_height = ok 101;
}
