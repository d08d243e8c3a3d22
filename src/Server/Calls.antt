-- ===== src/Server/Calls.antt =====
-- mcp.rs: the tools, what they ask of their arguments, and how each is answered. JSON is a parameter.
use computermoney.Prelude.{
  ℕ, ◌%◌, ◌^◌, Text, codes, text_eq, Bool, true, false, Option, none, some, List, [], ◌∷◌, ◌++◌,
  leb, if◌then◌else◌,
}
use computermoney.Result.{Error, Result, ok, err, Exec, pure, lift, ◌>>=◌}
use computermoney.Storage.{Host}
use computermoney.Chain.{Esplora}
use computermoney.Ledger.Platform.{Platform}
use computermoney.Ledger.Store.{World}
use computermoney.Build.{Bdk}
use computermoney.Pay.{Payer}
use computermoney.Protocol.{Json}
use computermoney.Fetch.{Web}
use computermoney.Scan.{Scanner}
use computermoney.Wallet.{Account}
use computermoney.Discover.{Dht}
use computermoney.Tunnel.{Tunn, Socket}
use computermoney.Tunnel.Session.{Internet}
use computermoney.Server.{send_payment, pay_peer}
use computermoney.Storage.Seed.{Cipher}
use computermoney.Storage.Load.{Wallets}
use computermoney.Storage.Create.{Home}
use computermoney.Matching.{ScanHost}
use computermoney.Setup.{Fresh, SetupReport, setup_report}
use computermoney.Server.Reports.{Report, said, set_up, confs_report, fetch_report}

-- `serde_json::Value`: the parse of a line, `null`, and what is read from a value.
pub record JsonValue : Type 1 where
  pub Value : Type 0
  pub null : Value
  pub from_str : Text → Option Value
  pub get : Value → Text → Option Value
  pub as_str : Value → Option Text
  pub as_u64 : Value → Option ℕ

pub data Tool : Type 0 where
  cm_setup cm_id cm_address cm_serve cm_send cm_pay cm_fetch cm_paywall cm_balance cm_confs : Tool
  cm_collections : Tool

abbrev tool_names : List (Text × Tool)
tool_names =
    (codes "cm_setup", cm_setup)
    ∷ (codes "cm_id", cm_id)
    ∷ (codes "cm_address", cm_address)
    ∷ (codes "cm_serve", cm_serve)
    ∷ (codes "cm_send", cm_send)
    ∷ (codes "cm_pay", cm_pay)
    ∷ (codes "cm_fetch", cm_fetch)
    ∷ (codes "cm_paywall", cm_paywall)
    ∷ (codes "cm_balance", cm_balance)
    ∷ (codes "cm_confs", cm_confs)
    ∷ (codes "cm_collections", cm_collections)
    ∷ []

unfoldable pub find_tool : Text → List (Text × Tool) → Option Tool
find_tool name [] = none
find_tool name ((t, tool) ∷ rest) = if text_eq t name then some tool else find_tool name rest

unfoldable pub tool_of : Text → Option Tool
unfolding find_tool
tool_of name = find_tool name tool_names

-- The codes of JSON-RPC: -32700, -32601 and -32602.
pub data Code : Type 0 where
  parse_error method_not_found invalid_params : Code

-- How a request is answered: by a protocol error, by a result, by a tool that worked, or by one that
-- did not.
pub data Reply : Type 0 where
  protocol : Code → Text → Reply
  initialized : Text → Reply
  pong tools : Reply
  tool_ok : Report → Reply
  tool_err : Error → Reply

-- The ledger and its disk, the scan's checkpoint, whether the wallet is unlocked, how the next loads
-- of a wallet will end (those after them work), and whether a daemon and a paywall run.
pub record Server : Type 0 where
  pub home : Home
  pub world : World
  pub checkpoint : Option Text
  pub unlocked : Bool
  pub unlocks : List (Result (Unit {0}))
  pub serving : Bool
  pub selling : Bool

abbrev pub Call : Type 0
Call = Server → Reply × Server

-- What a tool returned, and the state it left.
unfoldable pub reply_of : Result Report → Reply
reply_of (ok report) = tool_ok report
reply_of (err e) = tool_err e

unfoldable pub on_world : Exec World Report → Call
on_world m s = (reply_of (m s.world).0, record s { world = (m s.world).1 })

unfoldable pub on_scanner : Exec Scanner Report → Call
on_scanner m s =
    let r = m (record { world = s.world; checkpoint = s.checkpoint }) in
    (reply_of r.0, record s { world = r.1.world; checkpoint = r.1.checkpoint })

abbrev pub refuse : Text → Call
refuse why s = (protocol invalid_params why, s)

-- `storage::load_wallet`
unfoldable pub load_wallet : Server → Result (Unit {0}) × Server
load_wallet s = elim s.unlocks [ [] ↦ (ok tt, s) | r ∷ rest ↦ (r, record s { unlocks = rest }) ]

abbrev pub default_max_sats : ℕ
default_max_sats = 10000

-- What the tools take from the system and the libraries: `TcpListener::bind`, and, for the setup, the
-- cipher, the wallets and what is drawn at random.
pub record Ports : Type 1 where
  pub listen : ℕ → Result (Unit {0})
  pub cipher : Cipher
  pub wallets : Wallets
  pub fresh : Fresh ⦃ws = wallets⦄
  pub salt : Text
  pub nonce : Text

module _ ⦃v : JsonValue⦄ where
  unfoldable pub str_at : Text → Option v.Value → Option Text
  str_at key none = none
  str_at key (some o) = elim (v.get o key) [ none ↦ none | some x ↦ v.as_str x ]

  unfoldable pub u64_at : Text → Option v.Value → Option ℕ
  u64_at key none = none
  u64_at key (some o) = elim (v.get o key) [ none ↦ none | some x ↦ v.as_u64 x ]

  unfoldable pub value_at : Text → Option v.Value → Option v.Value
  value_at key none = none
  value_at key (some o) = v.get o key

  -- An argument that must be there.
  unfoldable pub with_args : Text → Option v.Value → (Option v.Value → Call) → Call
  with_args why none k = refuse why
  with_args why (some args) k = k (some args)

unfoldable pub with_str : Text → Option Text → (Text → Call) → Call
with_str why none k = refuse why
with_str why (some t) k = k t

unfoldable pub with_u64 : Text → Option ℕ → (ℕ → Call) → Call
with_u64 why none k = refuse why
with_u64 why (some n) k = k n

unfoldable pub at_least_one : Text → ℕ → Call → Call
at_least_one why n k = if leb 1 n then k else refuse why

module _ ⦃h : Host⦄ ⦃p : Platform⦄ ⦃c : Esplora⦄ ⦃b : Bdk⦄ ⦃y : Payer⦄ ⦃a : Account⦄
    ⦃v : JsonValue⦄ where
  unfoldable pub call_send : Option v.Value → Call
  call_send args = with_args (codes "cm_send requires arguments { address, sats }") args λ o.
      with_str (codes "cm_send: 'address' must be a string") (str_at (codes "address") o) λ to.
        with_u64 (codes "cm_send: 'sats' must be a positive integer") (u64_at (codes "sats") o)
          λ sats.
            at_least_one (codes "cm_send: 'sats' must be >= 1") sats
              (on_world (do text ← send_payment to sats; pure (said text)))

  unfoldable pub call_confs : Option v.Value → Call
  call_confs args = with_args (codes "cm_confs requires arguments { txid }") args λ o.
      with_str (codes "cm_confs: 'txid' must be a string") (str_at (codes "txid") o)
        λ txid. on_world (confs_report txid)

  module _ ⦃web : Web⦄ where
    unfoldable pub call_fetch : Option v.Value → Call
    call_fetch args = with_args (codes "cm_fetch requires arguments { url, max_sats? }") args λ o.
        with_str (codes "cm_fetch: 'url' must be a string") (str_at (codes "url") o) λ url.
          elim (u64_at (codes "max_sats") o) [
            | none ↦ on_world (fetch_report url default_max_sats)
            | some max_sats ↦ on_world (fetch_report url max_sats)
          ]

  module _ ⦃t : Tunn⦄ ⦃k : Socket⦄ ⦃j : Json⦄ ⦃n : Internet⦄ ⦃d : Dht⦄ where
    unfoldable pub call_pay : Option v.Value → Call
    call_pay args = with_args (codes "cm_pay requires arguments { peer, sats }") args λ o.
        with_str (codes "cm_pay: 'peer' must be a string") (str_at (codes "peer") o) λ peer.
          with_u64 (codes "cm_pay: 'sats' must be a positive integer") (u64_at (codes "sats") o)
            λ sats.
              at_least_one (codes "cm_pay: 'sats' must be >= 1") sats
                (on_world (do text ← pay_peer peer sats; pure (said text)))

module _ ⦃a : Account⦄ ⦃d : Dht⦄ where
  unfoldable pub id_report : {S : Type 0} → Exec S Report
  id_report = do
    secret ← lift a.wg_secret_bytes
    code ← lift a.sp_code
    pure (said (d.card_pubkey secret ++ (10 ∷ code)))

  unfoldable pub address_report : {S : Type 0} → Exec S Report
  address_report = do address ← lift (a.address 0); pure (said address)

abbrev serve_preflight : ⦃a : Account⦄ → Result (Unit {0}) → Result Text
serve_preflight ⦃a⦄ (err e) = err e
serve_preflight ⦃a⦄ (ok u) = elim (a.wg_secret_bytes) [ err e ↦ err e | ok secret ↦ a.id_hex ]

abbrev paywall_preflight : ⦃a : Account⦄ ⦃o : Ports⦄ → ℕ → Result (Unit {0}) → Result Text
paywall_preflight ⦃a⦄ ⦃o⦄ port (err e) = err e
paywall_preflight ⦃a⦄ ⦃o⦄ port (ok u) = elim (a.sp_code) [
  | err e ↦ err e
  | ok code ↦ elim (o.listen port) [ err e ↦ err e | ok u ↦ ok code ]
]

-- The thread runs on, and its flag stays set until it dies.
unfoldable pub call_serve : ⦃a : Account⦄ → Call
call_serve s =
    if s.serving
    then (tool_ok (said (codes "already serving in this session")), s)
    else (let r = load_wallet s in
        elim (serve_preflight r.0) [
          | err e ↦ (tool_err e, record (r.1) { serving = false })
          | ok id ↦ (tool_ok (said id), record (r.1) { serving = true })
        ])

unfoldable pub start_paywall : ⦃a : Account⦄ ⦃o : Ports⦄ → ℕ → Call
start_paywall port s =
    if s.selling
    then (tool_ok (said (codes "already running a paywall in this session")), s)
    else (let r = load_wallet s in
        elim (paywall_preflight port r.0) [
          | err e ↦ (tool_err e, record (r.1) { selling = false })
          | ok code ↦ (tool_ok (said code), record (r.1) { selling = true })
        ])

unfoldable pub port_of : Option ℕ → ℕ
port_of none = 8402
port_of (some n) = n % 2 ^ 16

unfoldable pub call_paywall : ⦃a : Account⦄ ⦃o : Ports⦄ ⦃v : JsonValue⦄ → Option v.Value → Call
call_paywall args =
    let why = codes "cm_paywall: 'price_sats' must be a positive integer" in
    with_u64 why (u64_at (codes "price_sats") args)
      λ price. at_least_one why price (start_paywall (port_of (u64_at (codes "port") args)))

abbrev pub setup_reply : Result SetupReport → Reply
setup_reply (err e) = tool_err e
setup_reply (ok report) = tool_ok (set_up report)

unfoldable pub call_setup :
    ⦃h : Host⦄ ⦃p : Platform⦄ ⦃b : Bdk⦄ ⦃d : Dht⦄ ⦃s : ScanHost⦄ ⦃o : Ports⦄ → Call
call_setup ⦃h⦄ ⦃p⦄ ⦃b⦄ ⦃d⦄ ⦃s⦄ ⦃o⦄ x =
    let r =
      setup_report ⦃c = o.cipher⦄ ⦃ws = o.wallets⦄ ⦃fr = o.fresh⦄ o.salt o.nonce (record {
        home = x.home;
        scanner = record { world = x.world; checkpoint = x.checkpoint };
      }) in
    (
      setup_reply r.0,
      record x { home = r.1.home; world = r.1.scanner.world; checkpoint = r.1.scanner.checkpoint },
    )
