-- ===== src/Server/Rpc.antt =====
-- mcp.rs: the loop of the tool server, from a line that is read to the frame that answers it. A
-- frame is its identifier and what it says. A panic ends the process with no frame.
pub mod Replies
pub mod Refusals
use computermoney.Prelude.{
  ℕ, ◌%◌, ◌^◌, Text, codes, text_eq, is_blank, trim, Bool, true, false, Option, none, some, List,
  [], ◌∷◌, ◌++◌, leb, ◌==◌, if◌then◌else◌,
}
use computermoney.Result.{Error, panicked, Result, ok, err, Exec, pure, lift, ◌>>=◌, ◌>>◌}
use computermoney.Storage.{Host}
use computermoney.Chain.{Esplora}
use computermoney.Ledger.Platform.{Platform}
use computermoney.Ledger.Store.{World}
use computermoney.Build.{Bdk}
use computermoney.Matching.{ScanHost}
use computermoney.Pay.{Payer}
use computermoney.Protocol.{Json}
use computermoney.Fetch.{Web}
use computermoney.Scan.{Scanner}
use computermoney.Wallet.{Account}
use computermoney.Discover.{Dht}
use computermoney.Tunnel.{Tunn, Socket}
use computermoney.Tunnel.Session.{Internet}
use computermoney.Server.{send_payment, pay_peer}
use computermoney.Server.Reports.{
  Report, said, balance_report, collections_report, reconcile_ledger, confs_report, fetch_report,
}
use computermoney.Server.Calls.{
  JsonValue, Tool, cm_setup, cm_id, cm_address, cm_serve, cm_send, cm_pay, cm_fetch, cm_paywall,
  cm_balance, cm_confs, cm_collections, tool_of, Code, parse_error, method_not_found,
  invalid_params, Reply, protocol, initialized, pong, tools, tool_ok, tool_err, Server, Call,
  reply_of, on_world, on_scanner, refuse, load_wallet, Ports, str_at, u64_at, value_at, with_args,
  with_str, with_u64, at_least_one, call_send, call_confs, call_fetch, call_pay, id_report,
  address_report, call_serve, start_paywall, port_of, call_paywall, call_setup, find_tool,
}

module _ ⦃h : Host⦄ ⦃p : Platform⦄ ⦃c : Esplora⦄ ⦃b : Bdk⦄ ⦃y : Payer⦄ ⦃a : Account⦄ ⦃v : JsonValue⦄
    ⦃web : Web⦄ ⦃t : Tunn⦄ ⦃k : Socket⦄ ⦃j : Json⦄ ⦃n : Internet⦄ ⦃d : Dht⦄ ⦃s : ScanHost⦄
    ⦃o : Ports⦄ (fuel : ℕ) where
  -- A tool that needs the wallet, with the wallet unlocked.
  unfoldable pub unlocked_call : Tool → Option v.Value → Call
  unlocked_call cm_send args = call_send args
  unlocked_call cm_pay args = call_pay args
  unlocked_call cm_fetch args = call_fetch args
  unlocked_call cm_confs args = call_confs args
  unlocked_call cm_collections args = on_scanner (collections_report fuel)
  unlocked_call cm_id args = on_world id_report
  unlocked_call cm_address args = on_world address_report
  unlocked_call _ args = on_scanner (balance_report fuel)

  -- The first unlock heals the ledger, as far as that works.
  unfoldable pub heal : Server → Server
  heal x = record x { world = (reconcile_ledger x.world).1; unlocked = true }

  unfoldable pub wallet_call : Tool → Option v.Value → Call
  wallet_call tool args x =
      if x.unlocked then unlocked_call tool args x else elim ((load_wallet x).0) [
        | err e ↦ (tool_err e, (load_wallet x).1)
        | ok u ↦ unlocked_call tool args (heal (load_wallet x).1)
      ]

  unfoldable pub call_tool : Tool → Option v.Value → Call
  call_tool cm_setup args = call_setup
  call_tool cm_serve args = call_serve
  call_tool cm_paywall args = call_paywall args
  call_tool tool args = wallet_call tool args

  unfoldable pub named_call : Text → Option v.Value → Call
  named_call name args = elim (tool_of name) [
    | none ↦ refuse (codes "unknown tool: " ++ name)
    | some tool ↦ call_tool tool args
  ]

  unfoldable pub tools_call : Option v.Value → Call
  tools_call params = elim (str_at (codes "name") params) [
    | none ↦ refuse (codes "missing tool name")
    | some name ↦ named_call name (value_at (codes "arguments") params)
  ]

  unfoldable pub initialize : Option v.Value → Reply
  initialize params = elim (str_at (codes "protocolVersion") params) [
    | none ↦ initialized (codes "2025-06-18")
    | some version ↦ initialized version
  ]

  unfoldable pub method_of : v.Value → Text
  method_of msg = elim (str_at (codes "method") (some msg)) [ none ↦ codes "(none)" | some m ↦ m ]

  unfoldable pub dispatch : v.Value → Call
  dispatch msg x =
      let method = method_of msg in
      let params = v.get msg (codes "params") in
      if text_eq method (codes "initialize")
      then (initialize params, x)
      else if text_eq method (codes "ping")
      then (pong, x)
      else if text_eq method (codes "tools/list")
      then (tools, x)
      else if text_eq method (codes "tools/call")
      then tools_call params x
      else (protocol method_not_found (codes "method not found: " ++ method), x)

  -- A frame: the identifier that it answers, and the answer.
  abbrev pub Frame : Type 0
  Frame = v.Value × Reply

  -- What became of a line: it was skipped, answered, or the process died over it.
  pub data Outcome : Type 0 where
    skipped died : Outcome
    answered : Frame → Outcome

  unfoldable pub outcome : v.Value → Reply → Outcome
  outcome id (tool_err panicked) = died
  outcome id reply = answered (id, reply)

  unfoldable pub on_message : v.Value → Server → Outcome × Server
  on_message msg x = elim (v.get msg (codes "id")) [
    | none ↦ (skipped, x)
    | some id ↦ (outcome id (dispatch msg x).0, (dispatch msg x).1)
  ]

  unfoldable pub on_line : Text → Server → Outcome × Server
  on_line line x = if is_blank line then (skipped, x) else elim (v.from_str (trim line)) [
    | none ↦ (answered (v.null, protocol parse_error (codes "parse error")), x)
    | some msg ↦ on_message msg x
  ]

  -- The loop: the frames that were written, and whether it came to the end of the lines.
  unfoldable pub serve_lines : List Text → Server → List Frame × (Bool × Server)
  serve_lines [] x = ([], (true, x))
  serve_lines (line ∷ lines) x =
      let r = on_line line x in
      let rest = serve_lines lines r.1 in
      elim (r.0) [
        | died ↦ ([], (false, r.1))
        | skipped ↦ rest
        | answered frame ↦ (frame ∷ rest.0, rest.1)
      ]

  -- `run`: the unlock at the start, and the loop.
  unfoldable pub run : List Text → Server → List Frame × (Bool × Server)
  run lines x = elim ((load_wallet x).0) [
    | err e ↦ serve_lines lines (load_wallet x).1
    | ok u ↦ serve_lines lines (heal (load_wallet x).1)
  ]
