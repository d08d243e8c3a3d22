-- ===== src/Samples/Bank.antt =====
-- Stand-ins for the environment and the libraries of the payments, the storage and the peers.
use computermoney.Prelude.{
  ◌++◌, ◌==◌, ℕ, zero, suc, Text, codes, text_eq, true, false, Option, none, some, List, [], ◌∷◌,
  take, drop, if◌then◌else◌,
}
use computermoney.Policy.{bitcoin, Policy}
use computermoney.Result.{ok}
use computermoney.Storage.{Host}
use computermoney.Storage.Seed.{Cipher}
use computermoney.Storage.Load.{Wallets, Files}
use computermoney.Build.{Bdk, Utxo, external}
use computermoney.Pay.{Payer}
use computermoney.Protocol.{Message, addr_request, addr_response, notify, chat, Json, Addresses}
use computermoney.Deposits.{AddressTxs}
use computermoney.Net.{Wire}
use computermoney.Fetch.{Web}
use computermoney.Sp.{Curve}
use computermoney.Ledger.Store.{works}
use computermoney.Matching.{EsploraTx, ScanHost}

abbrev pub bank_policy : Policy
bank_policy = record {
  max_payment_sats = some 5000;
  daily_limit_sats = none;
  max_fee_sats = some 50;
  blocked_addresses = [];
}

-- Mainnet, and a passphrase in the environment.
instance abbrev pub bank_host : Host
bank_host = record {
  var = λ key. if text_eq key (codes "CM_PASSPHRASE") then some (codes "pass") else none;
  now_unix = 2000;
  load_policy = ok bank_policy;
}

abbrev pub utxo : Text → ℕ → Utxo
utxo txid value = record { outpoint = (txid, 0); value = value; keychain = external; index = 0 }

-- Every build costs 9 satoshis and gives the transaction `raw2`.
instance abbrev pub bank_bdk : Bdk
bank_bdk = record {
  Wallet = Unit {0};
  Psbt = Unit {0};
  create_wallet = λ e i n. ok tt;
  full_scan = λ w. ok tt;
  balances = λ w. (0, (0, 0));
  list_unspent = λ w. utxo (codes "u1") 400 ∷ utxo (codes "u2") 9000 ∷ [];
  add_utxo = λ w o. ok tt;
  add_foreign_utxo = λ w o. ok tt;
  finish = λ w d. ok tt;
  fee = λ p. ok 9;
  sign = λ w o p. ok (tt, true);
  inputs = λ p. [];
  with_witnesses = λ ws p. tt;
  extract_tx = λ p. ok (codes "raw2");
  script_of = λ n a. ok a;
  txid_from_str = ok;
  get_fee_estimates = λ n. none;
  xpriv_from_str = ok;
  output_key = λ m path. ok m;
  spend_keypair = λ k t. ok k;
  taproot_input_key = λ k. k;
  script_of_keypair = λ k. k;
  sign_input = λ p i k. ok k;
  send_address = λ ins a b n. ok a;
}

instance abbrev pub bank_payer : Payer
bank_payer = record {
  serialize_hex = λ tx. tx;
  decode = λ code. ok (code, (code, bitcoin));
  sp_spend_keypair = ok (codes "spend");
  address_text = λ a. a;
}

-- The key is the passphrase and the salt; the cipher puts the key in front and takes it off again.
instance abbrev pub bank_cipher : Cipher
bank_cipher = record {
  hash_password_into = λ pass salt. some (take 4 pass);
  encrypt = λ key nonce m. some m;
  decrypt = λ key nonce c. some c;
}

instance abbrev pub bank_wallets : Wallets
bank_wallets = record { Wallet = Text; from_mnemonic = ok; id_hex = λ w. ok (codes "01234567ff") }

abbrev pub sealed : Text
sealed = codes "saltsaltsaltsaltnoncenoncenowords"

abbrev pub bank_files : Files
bank_files = record {
  dirs = codes "01234567" ∷ codes "notes" ∷ codes "89abcdef" ∷ [];
  default = some (codes "01234567");
  seed_enc = λ id. some sealed;
  mnemonic = λ id. none;
}

-- A message is its tag before its fields, for short texts.
unfoldable pub put_message : Message → Text
put_message (addr_request n) = 0 ∷ n ∷ []
put_message (addr_response t n) = 1 ∷ n ∷ t
put_message (notify t n) = 2 ∷ n ∷ t
put_message (chat t) = 3 ∷ t

unfoldable pub get_message : Text → Option Message
get_message (zero ∷ n ∷ t) = some (addr_request n)
get_message (suc zero ∷ n ∷ t) = some (addr_response t n)
get_message (suc (suc zero) ∷ n ∷ t) = some (notify t n)
get_message (suc (suc (suc zero)) ∷ t) = some (chat t)
get_message _ = none

instance abbrev pub bank_json : Json
bank_json = record { to_vec = put_message; from_slice = get_message }

instance abbrev pub bank_addresses : Addresses
bank_addresses = record { address = λ n. ok (n ∷ []) }

-- The chain has one payment of 77 satoshis to the address of index 3.
instance abbrev pub bank_txs : AddressTxs
bank_txs = record {
  get_address_txs = λ a. ok (
      record {
        txid = codes "dep";
        status = record { confirmed = true; block_height = some 101 };
        vout = (3 ∷ [], 77) ∷ [];
      }
      ∷ []);
}

instance abbrev pub bank_wire : Wire
bank_wire = record { send = λ m. ok tt }

abbrev pub block : List EsploraTx
block =
    record { txid = codes "b1"; vin = []; vout = [] }
    ∷ record { txid = codes "b2"; vin = []; vout = [] }
    ∷ []

abbrev pub paying_tx : EsploraTx
paying_tx = record {
  txid = codes "pay";
  vin =
      record {
        txid = codes "in";
        vout = 0;
        is_coinbase = false;
        prevout = some (codes "00140123456789012345678901234567890123456789");
        witness = codes "key" ∷ [];
      }
      ∷ [];
  vout = (codes "51200123456789012345678901234567890123456789012345678901234567890123", 400) ∷ [];
}

-- Blocks of two transactions, and any txid names one that pays 400 satoshis.
instance abbrev pub bank_scan : ScanHost
bank_scan = record {
  tip_height = ok 105;
  block_hash = λ h. ok (codes "hash");
  block_txs = λ hash start. ok (take 25 (drop start block));
  get_tx = λ t. ok paying_tx;
  outspend = λ t v. ok false;
  even_key = some;
  public_key = some;
  txid_from_str = some;
  serialize_outpoint = λ o. o.0;
  sp_keys = ok (codes "scan", codes "spend");
  receive_check = λ keys pubkeys o outs. record { vout = 0; sats = 400; tweak = codes "tw" } ∷ [];
  parse_checkpoint = λ t. ok 100;
  checkpoint_json = λ h. h ∷ [];
  write = works;
}

-- The first request is answered 402 with the terms, and the others with the goods.
instance abbrev pub bank_web : Web
bank_web = record {
  http_get = λ attempt url payment.
      if attempt == 0
      then ok (record { status = 402; body = codes "terms" })
      else ok (record { status = 200; body = codes "goods" });
  parse_terms = λ body.
      ok (record { cm402 = 1; sats = 400; pay_to = codes "sp1x"; network = codes "mainnet" });
}

-- A group so small that every exchange meets at one point.
instance abbrev pub bank_curve : Curve
bank_curve = record {
  public_key = λ k. k;
  add_tweak = λ a s. ok (a ++ s);
  mul_secret = λ a h. ok a;
  mul_point = λ a s. ok (7 ∷ []);
  combine = λ a b. ok (a ++ b);
  x_only = λ a. a;
  serialize = λ a. a;
  scalar = ok;
  secret_from_slice = ok;
  sha256 = λ m. 9 ∷ [];
}
