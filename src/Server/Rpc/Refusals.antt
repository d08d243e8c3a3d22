-- ===== src/Server/Rpc/Refusals.antt =====
-- A call of mcp.rs that is refused by a protocol error has done nothing.
use computermoney.Prelude.{
  ℕ, Text, codes, true, Option, none, some, ◌≡◌, refl, sym, ap, ◌∙◌, arith, Bool-cases,
  Option-cases, inl, inr, leb,
}
use computermoney.Result.{Result, ok, err, Exec}
use computermoney.Storage.{Host}
use computermoney.Chain.{Esplora}
use computermoney.Ledger.Platform.{Platform}
use computermoney.Ledger.Store.{World}
use computermoney.Build.{Bdk}
use computermoney.Matching.{ScanHost}
use computermoney.Pay.{Payer}
use computermoney.Protocol.{Json}
use computermoney.Fetch.{Web}
use computermoney.Scan.{Scanner}
use computermoney.Wallet.{Account}
use computermoney.Discover.{Dht}
use computermoney.Tunnel.{Tunn, Socket}
use computermoney.Tunnel.Session.{Internet}
use computermoney.Server.Reports.{Report}
use computermoney.Setup.{SetupReport}
use computermoney.Server.Calls.{
  JsonValue, Tool, cm_setup, cm_id, cm_address, cm_serve, cm_send, cm_pay, cm_fetch, cm_paywall,
  cm_confs, cm_collections, Code, protocol, Server, Call, reply_of, on_world, on_scanner, refuse,
  Ports, str_at, u64_at, with_args, with_str, with_u64, at_least_one, call_send, call_confs,
  call_fetch, call_pay, call_serve, start_paywall, call_paywall, setup_reply, call_setup, tool_of,
}
use computermoney.Server.Rpc.{unlocked_call, wallet_call, call_tool, named_call, tools_call}

-- Where the wallet is unlocked and the answer is a protocol error, the state is as it was.
pub record IsClean (call : Call) : Type 0 where
  pub run :
      (x : Server) (code : Code) (why : Text)
      → x.unlocked ≡ true
      → (call x).0 ≡ protocol code why
      → (call x).1 ≡ x

reply_of-ne-protocol :
    (r : Result Report) (code : Code) (why : Text) → ¬ (reply_of r ≡ protocol code why)
unfolding reply_of
reply_of-ne-protocol (ok report) code why e = cc
reply_of-ne-protocol (err x) code why e = cc

on_world-IsClean : (m : Exec World Report) → IsClean (on_world m)
unfolding on_world
on_world-IsClean m = record {
  run = λ x code why ready e. absurd (reply_of-ne-protocol _ code why e);
}

on_scanner-IsClean : (m : Exec Scanner Report) → IsClean (on_scanner m)
unfolding on_scanner
on_scanner-IsClean m = record {
  run = λ x code why ready e. absurd (reply_of-ne-protocol _ code why e);
}

refuse-IsClean : (why : Text) → IsClean (refuse why)
refuse-IsClean why = record { run = λ x code why' ready e. refl }

with_str-IsClean :
    (why : Text) (o : Option Text) (k : Text → Call)
    → ((t : Text) → IsClean (k t))
    → IsClean (with_str why o k)
unfolding with_str
with_str-IsClean why none k kk = refuse-IsClean why
with_str-IsClean why (some t) k kk = kk t

with_u64-IsClean :
    (why : Text) (o : Option ℕ) (k : ℕ → Call)
    → ((n : ℕ) → IsClean (k n))
    → IsClean (with_u64 why o k)
unfolding with_u64
with_u64-IsClean why none k kk = refuse-IsClean why
with_u64-IsClean why (some n) k kk = kk n

at_least_one-IsClean : (why : Text) (n : ℕ) (k : Call) → IsClean k → IsClean (at_least_one why n k)
unfolding at_least_one
at_least_one-IsClean why n k kk = elim (Bool-cases (leb 1 n)) [
  | inl enough ↦ rw enough kk
  | inr nothing ↦ rw nothing (refuse-IsClean why)
]

module _ ⦃v : JsonValue⦄ where
  with_args-IsClean :
      (why : Text) (o : Option v.Value) (k : Option v.Value → Call)
      → ((q : Option v.Value) → IsClean (k q))
      → IsClean (with_args why o k)
  unfolding with_args
  with_args-IsClean why none k kk = refuse-IsClean why
  with_args-IsClean why (some args) k kk = kk (some args)

setup_reply-refuses_not :
    (r : Result SetupReport) (code : Code) (why : Text) → ¬ (setup_reply r ≡ protocol code why)
setup_reply-refuses_not (ok report) code why = λ e. absurd (cc)
setup_reply-refuses_not (err x) code why = λ e. absurd (cc)

call_setup-IsClean :
    ⦃h : Host⦄ ⦃p : Platform⦄ ⦃b : Bdk⦄ ⦃d : Dht⦄ ⦃s : ScanHost⦄ ⦃o : Ports⦄ → IsClean call_setup
unfolding call_setup
call_setup-IsClean = record {
  run = λ x code why ready e. absurd (setup_reply-refuses_not _ code why e);
}

call_serve-IsClean : ⦃a : Account⦄ → IsClean call_serve
unfolding call_serve
call_serve-IsClean ⦃a⦄ = record { run = λ x code why ready e. ground arith }

start_paywall-IsClean : ⦃a : Account⦄ ⦃o : Ports⦄ → (n : ℕ) → IsClean (start_paywall n)
unfolding start_paywall
start_paywall-IsClean ⦃a⦄ ⦃o⦄ n = record { run = λ x code why ready e. ground arith }

module _ ⦃h : Host⦄ ⦃p : Platform⦄ ⦃c : Esplora⦄ ⦃b : Bdk⦄ ⦃y : Payer⦄ ⦃a : Account⦄ ⦃v : JsonValue⦄
    ⦃web : Web⦄ ⦃t : Tunn⦄ ⦃k : Socket⦄ ⦃j : Json⦄ ⦃n : Internet⦄ ⦃d : Dht⦄ ⦃s : ScanHost⦄
    ⦃o : Ports⦄ (fuel : ℕ) where
  call_send-IsClean : (args : Option v.Value) → IsClean (call_send args)
  unfolding call_send
  call_send-IsClean args = with_args-IsClean _ args _ λ q.
      with_str-IsClean _ _ _
        λ to. with_u64-IsClean _ _ _ λ sats. at_least_one-IsClean _ sats _ (on_world-IsClean _)

  call_pay-IsClean : (args : Option v.Value) → IsClean (call_pay args)
  unfolding call_pay
  call_pay-IsClean args = with_args-IsClean _ args _ λ q.
      with_str-IsClean _ _ _
        λ peer. with_u64-IsClean _ _ _ λ sats. at_least_one-IsClean _ sats _ (on_world-IsClean _)

  call_confs-IsClean : (args : Option v.Value) → IsClean (call_confs args)
  unfolding call_confs
  call_confs-IsClean args =
      with_args-IsClean _ args _ λ q. with_str-IsClean _ _ _ λ txid. on_world-IsClean _

  call_fetch-IsClean : (args : Option v.Value) → IsClean (call_fetch args)
  unfolding call_fetch
  call_fetch-IsClean args = with_args-IsClean _ args _ λ q. with_str-IsClean _ _ _ λ url.
      elim (Option-cases (u64_at (codes "max_sats") q)) [
        | inl default ↦ rw default (on_world-IsClean _)
        | inr (n, given) ↦ rw given (on_world-IsClean _)
      ]

  call_paywall-IsClean : (args : Option v.Value) → IsClean (call_paywall args)
  unfolding call_paywall
  call_paywall-IsClean args =
      with_u64-IsClean _ _ _ λ price. at_least_one-IsClean _ price _ (start_paywall-IsClean _)

  unlocked_call-IsClean :
      (tool : Tool) (args : Option v.Value) → IsClean (unlocked_call fuel tool args)
  unfolding unlocked_call
  unlocked_call-IsClean cm_send args = call_send-IsClean args
  unlocked_call-IsClean cm_pay args = call_pay-IsClean args
  unlocked_call-IsClean cm_fetch args = call_fetch-IsClean args
  unlocked_call-IsClean cm_confs args = call_confs-IsClean args
  unlocked_call-IsClean cm_collections args = on_scanner-IsClean _
  unlocked_call-IsClean cm_id args = on_world-IsClean _
  unlocked_call-IsClean cm_address args = on_world-IsClean _
  unlocked_call-IsClean _ args = on_scanner-IsClean _

  wallet_call-IsClean : (tool : Tool) (args : Option v.Value) → IsClean (wallet_call fuel tool args)
  unfolding wallet_call
  wallet_call-IsClean tool args = record {
    run = λ x code why ready e.
        let same : wallet_call fuel tool args x ≡ unlocked_call fuel tool args x = rw ready refl in
        ap (λ r. r.1) same
        ∙ (unlocked_call-IsClean tool args).run x code why ready (sym (ap (λ r. r.0) same) ∙ e);
  }

  call_tool-IsClean : (tool : Tool) (args : Option v.Value) → IsClean (call_tool fuel tool args)
  unfolding call_tool
  call_tool-IsClean cm_setup args = call_setup-IsClean
  call_tool-IsClean cm_serve args = call_serve-IsClean
  call_tool-IsClean cm_paywall args = call_paywall-IsClean args
  call_tool-IsClean tool args = wallet_call-IsClean tool args

  named_call-IsClean : (name : Text) (args : Option v.Value) → IsClean (named_call fuel name args)
  unfolding named_call
  named_call-IsClean name args = elim (Option-cases (tool_of name)) [
    | inl unknown ↦ rw (unknown, named_call) (refuse-IsClean _)
    | inr (tool, known) ↦ rw (known, named_call) (call_tool-IsClean tool args)
  ]

  -- Of a server whose wallet is unlocked, a `tools/call` that is answered by a protocol error, for an
  -- unknown tool or for arguments that are missing or wrong, has done nothing: no payment, no entry, no
  -- thread.
  pub tools_call_refused :
      (params : Option v.Value) (x : Server) (code : Code) (why : Text)
      → x.unlocked ≡ true
      → (tools_call fuel params x).0 ≡ protocol code why
      → (tools_call fuel params x).1 ≡ x
  unfolding tools_call
  tools_call_refused params = clean.run
    where
      clean : IsClean (tools_call fuel params)
      clean = elim (Option-cases (str_at (codes "name") params)) [
        | inl missing ↦ rw (missing, tools_call) (refuse-IsClean _)
        | inr (name, given) ↦ rw (given, tools_call) (named_call-IsClean name _)
      ]
