-- ===== src/Cli.antt =====
-- main.rs: the arms of the command line that move money or read it, and the parse of their arguments.
pub mod Paths
use computermoney.Prelude.{
  ℕ, ◌+◌, ◌-◌, ◌*◌, ◌^◌, Text, codes, trim, text_eq, drop, Bool, true, false, ◌&&◌, Option, none,
  some, List, [], ◌∷◌, ◌++◌, leb, ltb, ◌==◌, u64_mod, if◌then◌else◌,
}
use computermoney.Policy.{check_address}
use computermoney.Result.{
  Error, other, panicked, Result, ok, err, Exec, pure, raise, lift, gate, attempt, try_then, ◌>>=◌,
  ◌>>◌,
}
use computermoney.Storage.{Host}
use computermoney.Chain.{Esplora, confirmations}
use computermoney.Ledger.Entry.{Status, from_confirmations}
use computermoney.Ledger.Platform.{Platform}
use computermoney.Ledger.Store.{World}
use computermoney.Build.{Bdk}
use computermoney.Build.Balance.{chain_balance}
use computermoney.Matching.{ScanHost}
use computermoney.Pay.{Payer, sp_send}
use computermoney.Protocol.{Json}
use computermoney.Net.{amount_gate}
use computermoney.Scan.{Scanner, on_ledger}
use computermoney.Wallet.{Account}
use computermoney.Discover.{Card, Dht, publish}
use computermoney.Tunnel.{Tunn, Socket}
use computermoney.Tunnel.Session.{Internet, open_ledger, open_own_ledger, pay}
use computermoney.Server.{split_once, is_sp_code, found_card, last_error}
use computermoney.Server.Reports.{Report, funds, depth, income}

-- `u64::from_str`: digits, behind a plus sign or not, with no overflow on the way.
unfoldable pub digits_from : ℕ → Text → Option ℕ
digits_from n [] = some n
digits_from n (c ∷ cs) =
    let next = n * 10 + (c - b'0') in
    let rest = digits_from next cs in
    if leb b'0' c && leb c b'9' && ltb next u64_mod then rest else none

unfoldable pub parse_u64 : Text → Option ℕ
unfolding digits_from
parse_u64 [] = none
parse_u64 (c ∷ []) = if c == b'+' then none else digits_from 0 (c ∷ [])
parse_u64 (c ∷ d ∷ cs) = if c == b'+' then digits_from 0 (d ∷ cs) else digits_from 0 (c ∷ d ∷ cs)

-- `u16::from_str` goes the same way; a number that fits passes each step.
unfoldable pub parse_u16 : Text → Option ℕ
parse_u16 t = elim (parse_u64 t) [ none ↦ none | some n ↦ if ltb n (2 ^ 16) then some n else none ]

unfoldable pub number : {A : Type 0} → Option ℕ → (ℕ → Result A) → Result A
number none k = err (other (codes "invalid digit found in string"))
number (some n) k = k n

-- The flags of `serve`: the address to bind, and the endpoints to publish.
unfoldable pub serve_args : Text → List Text → List Text → Result (Text × List Text)
serve_args bind eps [] = ok (bind, eps)
serve_args bind eps (flag ∷ []) =
    if text_eq flag (codes "--bind")
    then err (other (codes "--bind needs an address"))
    else if text_eq flag (codes "--ep")
    then err (other (codes "--ep needs a host:port"))
    else err (other (codes "unknown serve argument: " ++ flag))
serve_args bind eps (flag ∷ value ∷ rest) =
    let bound = serve_args value eps rest in
    let more = serve_args bind (eps ++ (value ∷ [])) rest in
    if text_eq flag (codes "--bind")
    then bound
    else if text_eq flag (codes "--ep")
    then more
    else err (other (codes "unknown serve argument: " ++ flag))

-- The flags of `fetch`: the cap.
unfoldable pub fetch_args : ℕ → List Text → Result ℕ
fetch_args max_sats [] = ok max_sats
fetch_args max_sats (flag ∷ []) =
    if text_eq flag (codes "--max-sats")
    then err (other (codes "--max-sats needs a number"))
    else err (other (codes "unknown fetch argument: " ++ flag))
fetch_args max_sats (flag ∷ value ∷ rest) =
    let capped = number (parse_u64 value) (λ n. fetch_args n rest) in
    if text_eq flag (codes "--max-sats")
    then capped
    else err (other (codes "unknown fetch argument: " ++ flag))

-- The flags of `paywall`: the port and the body.
unfoldable pub paywall_args : ℕ → Text → List Text → Result (ℕ × Text)
paywall_args port body [] = ok (port, body)
paywall_args port body (flag ∷ []) =
    if text_eq flag (codes "--port")
    then err (other (codes "--port needs a number"))
    else if text_eq flag (codes "--body")
    then err (other (codes "--body needs a string"))
    else err (other (codes "unknown paywall argument: " ++ flag))
paywall_args port body (flag ∷ value ∷ rest) =
    let ported = number (parse_u16 value) (λ n. paywall_args n body rest) in
    let filled = paywall_args port value rest in
    if text_eq flag (codes "--port")
    then ported
    else if text_eq flag (codes "--body")
    then filled
    else err (other (codes "unknown paywall argument: " ++ flag))

module _ ⦃h : Host⦄ ⦃p : Platform⦄ ⦃c : Esplora⦄ ⦃b : Bdk⦄ ⦃y : Payer⦄ ⦃a : Account⦄ where
  unfoldable pub cli_sp_pay : Text → ℕ → Exec World Text
  cli_sp_pay code sats = do
    open_own_ledger
    pol ← lift h.load_policy
    amount_gate pol sats
    gate (check_address pol code)
    sp_send (a.descriptors.0) (a.descriptors.1) code sats pol.max_fee_sats

-- One turn of the loop over the endpoints.
unfoldable pub next_endpoint :
    {S : Type 0} → Result (Unit {0}) → (Option Error → Exec S (Unit {0})) → Exec S (Unit {0})
next_endpoint (ok u) next = pure tt
next_endpoint (err panicked) next = raise panicked
next_endpoint (err e) next = next (some e)

module _ ⦃h : Host⦄ ⦃p : Platform⦄ ⦃c : Esplora⦄ ⦃b : Bdk⦄ ⦃y : Payer⦄ ⦃a : Account⦄ ⦃t : Tunn⦄
    ⦃k : Socket⦄ ⦃j : Json⦄ ⦃n : Internet⦄ where
  unfoldable pub try_endpoints : List Text → Text → ℕ → Option Error → Exec World (Unit {0})
  try_endpoints [] wg sats last = last_error last
  try_endpoints (addr ∷ addrs) wg sats last = do
    outcome ← attempt (pay addr wg sats)
    next_endpoint outcome (try_endpoints addrs wg sats)

  unfoldable pub dial_endpoints : Card → ℕ → Exec World (Unit {0})
  dial_endpoints card sats = elim card.ep [
    | [] ↦ raise (other (codes "peer published no endpoint (not accepting inbound sessions)"))
    | addr ∷ addrs ↦ (do id ← lift a.id_hex; try_endpoints (addr ∷ addrs) card.wg sats none)
  ]

  unfoldable pub cli_pay_card : Card → ℕ → Exec World (Unit {0})
  cli_pay_card card sats = elim card.sp [
    | some code ↦ (do txid ← cli_sp_pay code sats; pure tt)
    | none ↦ dial_endpoints card sats
  ]

  module _ ⦃d : Dht⦄ where
    unfoldable pub cli_pay_link : Option (Text × Text) → Text → ℕ → Exec World (Unit {0})
    cli_pay_link (some (peer_pub, peer_addr)) peer sats = do
      id ← lift a.id_hex
      pay peer_addr peer_pub sats
    cli_pay_link none peer sats = do card ← lift (found_card peer); cli_pay_card card sats

    -- The arm `pay`, whose peer is trimmed; what it prints is left out.
    unfoldable pub cli_pay : Text → ℕ → Exec World (Unit {0})
    cli_pay peer sats =
        if is_sp_code peer
        then (do txid ← cli_sp_pay peer sats; pure tt)
        else cli_pay_link (split_once b'@' peer) peer sats

    -- The arm with its arguments, those behind `pay`.
    unfoldable pub pay_arm : List Text → Exec World (Unit {0})
    pay_arm (peer ∷ sats ∷ rest) = elim (parse_u64 sats) [
      | none ↦ raise (other (codes "invalid digit found in string"))
      | some n ↦ cli_pay (trim peer) n
    ]
    pay_arm _ = raise (other (codes "usage: pay <sp-code | card-key | pubkey@host:port> <sats>"))

module _ ⦃h : Host⦄ ⦃p : Platform⦄ ⦃c : Esplora⦄ ⦃b : Bdk⦄ ⦃a : Account⦄ ⦃s : ScanHost⦄
    (fuel : ℕ) where
  -- The arm `balance`: a ledger that cannot be opened counts for nothing.
  unfoldable pub cli_balance : Exec Scanner Report
  cli_balance = do
    b ← chain_balance (a.descriptors.0) (a.descriptors.1)
    id ← lift a.id_hex
    keypair ← lift a.signing_keypair
    opened ← attempt (on_ledger open_ledger)
    (spendable, incoming) ← income fuel opened
    pure (funds b.confirmed b.pending spendable incoming)

-- The arm `confs`, which needs no wallet.
unfoldable pub cli_confs : ⦃c : Esplora⦄ → List Text → Result (ℕ × Status)
cli_confs [] = err (other (codes "usage: confs <txid>"))
cli_confs (txid ∷ rest) =
    try_then (confirmations txid) λ confs. ok (confs, from_confirmations confs)

-- The arm `publish`: the card with the endpoints given, and the key under which it is found.
unfoldable pub cli_publish : ⦃h : Host⦄ ⦃a : Account⦄ ⦃d : Dht⦄ → List Text → Result Text
cli_publish ⦃h⦄ ⦃a⦄ ⦃d⦄ ep = try_then a.id_hex λ wg. try_then a.sp_code λ code.
    try_then a.wg_secret_bytes λ secret.
      try_then (publish secret (record { wg = wg; ep = ep; sp = some code; at = h.now_unix }))
        λ u. ok (d.card_pubkey secret)

-- The arm `id`: the card key and the code.
unfoldable pub cli_id : ⦃a : Account⦄ ⦃d : Dht⦄ → Result (Text × Text)
cli_id ⦃a⦄ ⦃d⦄ =
    try_then a.wg_secret_bytes λ secret. try_then a.sp_code λ code. ok (d.card_pubkey secret, code)
