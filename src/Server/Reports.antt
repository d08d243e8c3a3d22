-- ===== src/Server/Reports.antt =====
-- mcp.rs: the reports of the tool server, as data. A report draws on the chain as far as it can be
-- reached: a scan or a reconcile that fails is left out.
use computermoney.Prelude.{ℕ, Text, Bool, Option, none, some, List, [], ◌∷◌, if◌then◌else◌}
use computermoney.Result.{Result, ok, err, Exec, pure, lift, gets, attempt, ◌>>=◌, ◌>>◌}
use computermoney.Storage.{Host}
use computermoney.Chain.{Esplora, confirmations}
use computermoney.Ledger.Entry.{Status, from_confirmations}
use computermoney.Ledger.Balances.{Collection, collections, sp_balance, sp_incoming}
use computermoney.Ledger.Platform.{Platform}
use computermoney.Ledger.Store.{World}
use computermoney.Ledger.Methods.{entries_of}
use computermoney.Ledger.Reconcile.{reconcile}
use computermoney.Build.{Bdk}
use computermoney.Build.Balance.{chain_balance}
use computermoney.Matching.{ScanHost}
use computermoney.Pay.{Payer}
use computermoney.Fetch.{Web, FetchOut, fetch}
use computermoney.Scan.{Scanner, ScanReport, on_ledger, scan_to_tip}
use computermoney.Wallet.{Account}
use computermoney.Tunnel.Session.{open_own_ledger}
use computermoney.Setup.{SetupReport}

-- A row of the collections: an issued index with its address, or an output of a silent payment; it is
-- paid where it has a txid.
pub data Row : Type 0 where
  receive : ℕ → Text → Bool → ℕ → Option Text → Row
  sp : Text → ℕ → Bool → ℕ → Option Text → Row

pub data Report : Type 0 where
  said : Text → Report
  -- confirmed, pending, income that can be spent, income that cannot yet
  funds : ℕ → ℕ → ℕ → ℕ → Report
  depth : Text → ℕ → Status → Report
  rows : Result ScanReport → List Row → Report
  fetched : FetchOut → Report
  set_up : SetupReport → Report

unfoldable pub is_some : Option Text → Bool
is_some none = Bool.false
is_some (some t) = Bool.true

abbrev pub or_empty : Option Text → Text
or_empty none = []
or_empty (some t) = t

module _ ⦃a : Account⦄ where
  unfoldable pub row : {S : Type 0} → Collection → Exec S Row
  row c = if c.sp then pure (sp (or_empty c.txid) c.index (is_some c.txid) c.sats c.txid) else (do
    address ← lift (a.address c.index)
    pure (receive c.index address (is_some c.txid) c.sats c.txid))

  unfoldable pub row_each : {S : Type 0} → List Collection → Exec S (List Row)
  row_each [] = pure []
  row_each (c ∷ cs) = do r ← row c; rs ← row_each cs; pure (r ∷ rs)

module _ ⦃h : Host⦄ ⦃p : Platform⦄ ⦃c : Esplora⦄ ⦃b : Bdk⦄ ⦃a : Account⦄ ⦃s : ScanHost⦄
    (fuel : ℕ) where
  -- The silent payments of a ledger that could be opened, after a scan and a pass of `reconcile`.
  unfoldable pub income : Result (Unit {0}) → Exec Scanner (ℕ × ℕ)
  income (err e) = pure (0, 0)
  income (ok u) = do
    scanned ← attempt (scan_to_tip fuel)
    healed ← attempt (on_ledger reconcile)
    es ← gets (λ x. entries_of x.world)
    pure (sp_balance es, sp_incoming es)

  unfoldable pub balance_report : Exec Scanner Report
  balance_report = do
    b ← chain_balance (a.descriptors.0) (a.descriptors.1)
    opened ← attempt (on_ledger open_own_ledger)
    (spendable, incoming) ← income opened
    pure (funds b.confirmed b.pending spendable incoming)

  unfoldable pub collections_report : Exec Scanner Report
  collections_report = do
    on_ledger open_own_ledger
    scanned ← attempt (scan_to_tip fuel)
    es ← gets (λ x. entries_of x.world)
    rs ← row_each (collections es)
    pure (rows scanned rs)

module _ ⦃h : Host⦄ ⦃p : Platform⦄ ⦃c : Esplora⦄ ⦃a : Account⦄ where
  unfoldable pub reconcile_ledger : Exec World ℕ
  reconcile_ledger = do open_own_ledger; reconcile

  unfoldable pub confs_report : Text → Exec World Report
  confs_report txid = do
    confs ← lift (confirmations txid)
    healed ← attempt reconcile_ledger
    pure (depth txid confs (from_confirmations confs))

module _ ⦃h : Host⦄ ⦃p : Platform⦄ ⦃c : Esplora⦄ ⦃b : Bdk⦄ ⦃y : Payer⦄ ⦃a : Account⦄
    ⦃web : Web⦄ where
  unfoldable pub fetch_report : Text → ℕ → Exec World Report
  fetch_report url max_sats = do
    open_own_ledger
    out ← fetch (a.descriptors.0) (a.descriptors.1) url max_sats
    pure (fetched out)
