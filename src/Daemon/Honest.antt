-- ===== src/Daemon/Honest.antt =====
-- Whatever its buyers send, serve.rs books what the chain reports.
use mathlib.Core.List.{mem-cons, mem-cons_of_mem}
use mathlib.Core.Logic.Or
use computermoney.Prelude.{
  ℕ, Text, none, List, [], ◌∷◌, Mem, ◌≡◌, refl, inl, inr, Bool-cases, arith,
}
use computermoney.Result.{ok, Exec, gets}
use computermoney.Result.Success.{Result-cases}
use computermoney.Result.Preserves.{Preserves, Preserves-pure, Preserves-gets, Preserves-bind}
use computermoney.Storage.{Host}
use computermoney.Chain.{Esplora}
use computermoney.Deposits.{AddressTxs, Deposit, deposits_to}
use computermoney.Ledger.Entry.{Entry}
use computermoney.Ledger.Folds.{issued_unpaid}
use computermoney.Ledger.Platform.{Platform}
use computermoney.Ledger.Store.{World}
use computermoney.Ledger.Methods.{entries_of, record_received}
use computermoney.Ledger.Reconcile.{reconcile}
use computermoney.Build.{Bdk}
use computermoney.Matching.{ScanHost}
use computermoney.Protocol.{Addresses}
use computermoney.Net.{Wire, ignore}
use computermoney.Net.Adds.{Adds, reconcile-Adds, record_received-Adds}
use computermoney.Net.Credits.{IsHonest, run_receiver-Adds}
use computermoney.Wallet.{Account}
use computermoney.Discover.{Dht}
use computermoney.Daemon.{
  watch_interval, due, Daemon, Visit, on_daemon, publish_turn, record_each, watch_deposits,
  watch_address, watch_each, watch_ledger, scan_fresh, chain_watch, watch_turn, visit, visit_each,
  turn, turns,
}

ignore-Preserves :
    {S A : Type 0} (P : S → Type 0) (m : Exec S A) → Preserves P m → Preserves P (ignore m)
unfolding ignore
ignore-Preserves P m k = record { run = k.run }

-- The wire plays no part in what is honest.
abbrev mute : Wire
mute = record { send = λ m. ok tt }

module _ ⦃h : Host⦄ ⦃p : Platform⦄ ⦃c : Esplora⦄ ⦃b : Bdk⦄ ⦃t : AddressTxs⦄ ⦃a : Addresses⦄
    (es : List Entry) where
  abbrev pub Grown : World → Type 0
  Grown = Adds (IsHonest ⦃wire = mute⦄) es

  record_each-Grown :
      (index : ℕ) (addr : Text) (all ds : List Deposit)
      → a.address index ≡ ok addr
      → deposits_to addr ≡ ok all
      → ((d : Deposit) → Mem d ds → Mem d all)
      → Preserves Grown (record_each index ds)
  unfolding record_each
  record_each-Grown index addr all [] ours reported sub = Preserves-pure tt
  record_each-Grown index addr all (d ∷ ds) ours reported sub =
      Preserves-bind (ignore (record_received d.txid d.sats index)) _
        (ignore-Preserves Grown _ (
          record_received-Adds (IsHonest ⦃wire = mute⦄) es (λ n x s. tt) d.txid d.sats index
            (λ n. (addr, all, d, ours, reported, sub d (mem-cons.1 (Or.inl refl)), refl, refl))))
        λ u. record_each-Grown index addr all ds ours reported (λ e m. sub e (mem-cons_of_mem d m))

  watch_address-Grown : (index : ℕ) → Preserves Grown (watch_address index (a.address index))
  unfolding watch_address
  watch_address-Grown index = elim (Result-cases (a.address index)) [
    | inr (e, failed) ↦ rw failed (Preserves-pure tt)
    | inl (addr, ours) ↦ elim (Result-cases (deposits_to addr)) [
      | inr (e, failed) ↦ rw ours (unfold watch_deposits in rw failed (Preserves-pure tt))
      | inl (ds, reported) ↦ rw ours (
          unfold watch_deposits in
          rw reported (record_each-Grown index addr ds ds ours reported (λ d m. m)))
    ]
  ]

  watch_each-Grown : (indices : List ℕ) → Preserves Grown (watch_each indices)
  unfolding watch_each
  watch_each-Grown [] = Preserves-pure tt
  watch_each-Grown (i ∷ indices) =
      Preserves-bind (watch_address i (a.address i)) _ (watch_address-Grown i)
        λ u. watch_each-Grown indices

  watch_ledger-Grown : Preserves Grown watch_ledger
  unfolding watch_ledger
  watch_ledger-Grown =
      Preserves-bind (ignore reconcile) _
        (ignore-Preserves Grown reconcile
          (reconcile-Adds (IsHonest ⦃wire = mute⦄) es (λ n x s. tt)))
        λ u.
          Preserves-bind (gets entries_of) _ (Preserves-gets entries_of)
            λ now. watch_each-Grown (issued_unpaid now)

  module _ ⦃w : Account⦄ ⦃s : ScanHost⦄ (fuel : ℕ) where
    chain_watch-Grown : (x : Daemon) → Grown x.world → Grown (chain_watch fuel x).world
    unfolding chain_watch scan_fresh on_daemon
    chain_watch-Grown x g = watch_ledger-Grown.run x.world g

    watch_turn-Grown : (now : ℕ) (x : Daemon) → Grown x.world → Grown (watch_turn fuel now x).world
    unfolding watch_turn
    watch_turn-Grown now x g = elim (Bool-cases (due x.last_watch watch_interval now)) [
      | inl fires ↦ rw fires (chain_watch-Grown x g)
      | inr rests ↦ rw rests g
    ]

    visit_each-Grown :
        (vs : List Visit) (world : World) → Grown world → Grown (visit_each fuel vs world)
    unfolding visit_each visit
    visit_each-Grown [] world g = g
    visit_each-Grown (v ∷ vs) world g =
        visit_each-Grown vs _ ((run_receiver-Adds ⦃wire = v.wire⦄ es none v.messages tt).run _ g)

    module _ ⦃d : Dht⦄ where
      publish_turn-world : (now : ℕ) (x : Daemon) → (publish_turn now x).world ≡ x.world
      unfolding publish_turn
      publish_turn-world now x = ground arith

      turn-Grown :
          (now : ℕ × List Visit) (x : Daemon) → Grown x.world → Grown (turn fuel now x).world
      unfolding turn
      turn-Grown (now, visits) x g =
          visit_each-Grown visits _
            (watch_turn-Grown now (publish_turn now x) (rw (publish_turn-world now x) g))

      -- However many turns the daemon takes, when they come and whatever its visitors send, its ledger
      -- only grows, and by addresses issued, statuses, and receipts of deposits that the chain reports
      -- for the wallet's address at that index, with their amounts.
      pub turns-Grown :
          (ts : List (ℕ × List Visit)) (x : Daemon) → Grown x.world → Grown (turns fuel ts x).world
      unfolding turns
      turns-Grown [] x g = g
      turns-Grown (t ∷ ts) x g = turns-Grown ts (turn fuel t x) (turn-Grown t x g)
