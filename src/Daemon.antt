-- ===== src/Daemon.antt =====
-- serve.rs: the seller's daemon, turn by turn. The loop never ends by itself; a run is the turns that
-- it takes, each at a time and with the sessions that tunnel.rs accepts in it.
pub mod Cadence
pub mod Honest
pub mod Stale
use computermoney.Prelude.{
  ℕ, ◌-◌, ◌*◌, Text, Bool, true, false, Option, none, some, List, [], ◌∷◌, ◌++◌, leb, if◌then◌else◌,
}
use computermoney.Result.{Error, Result, ok, err, Exec, pure, lift, gets, attempt, ◌>>=◌, ◌>>◌}
use computermoney.Storage.{Host}
use computermoney.Chain.{Esplora}
use computermoney.Deposits.{AddressTxs, Deposit, deposits_to}
use computermoney.Ledger.Folds.{next_address_index, issued_unpaid}
use computermoney.Ledger.Platform.{Platform}
use computermoney.Ledger.Store.{World}
use computermoney.Ledger.Methods.{entries_of, record_received}
use computermoney.Ledger.Reconcile.{reconcile}
use computermoney.Build.{Bdk}
use computermoney.Matching.{ScanHost}
use computermoney.Protocol.{Message, Addresses, Receiver}
use computermoney.Net.{Wire, Session, ignore, run_receiver}
use computermoney.Scan.{Scanner, scan_to_tip, on_ledger}
use computermoney.Wallet.{Account}
use computermoney.Discover.{Card, Dht, publish}
use computermoney.Tunnel.Session.{open_ledger}

abbrev pub republish_interval : ℕ
republish_interval = 45 * 60

abbrev pub watch_interval : ℕ
watch_interval = 60

-- `duration_since` is 0 for a time that lies ahead.
unfoldable pub due : Option ℕ → ℕ → ℕ → Bool
due none interval now = true
due (some t) interval now = leb interval (now - t)

-- The long-lived ledger over its disk, the scan's checkpoint, when each duty was last done, the
-- endpoints that are published, and how each publishing ended.
pub record Daemon : Type 0 where
  pub world : World
  pub checkpoint : Option Text
  pub last_publish : Option ℕ
  pub last_watch : Option ℕ
  pub endpoints : List Text
  pub published : List (ℕ × Result (Result (Unit {0})))

-- A session that was accepted: what its tunnel reads, and its sending side.
pub record Visit : Type 0 where
  pub messages : List (Result Message)
  pub wire : Wire

unfoldable pub on_daemon : {A : Type 0} → Exec World A → Exec Daemon A
on_daemon m x = ((m x.world).0, record x { world = (m x.world).1 })

module _ ⦃h : Host⦄ ⦃a : Account⦄ ⦃d : Dht⦄ where
  -- A failure to publish is a warning.
  unfoldable pub republish : List Text → Result (Result (Unit {0}))
  republish eps = elim a.id_hex [
    | err e ↦ err e
    | ok wg ↦ elim a.sp_code [
      | err e ↦ err e
      | ok code ↦ elim a.wg_secret_bytes [
        | err e ↦ err e
        | ok secret ↦
            ok (publish secret (record { wg = wg; ep = eps; sp = some code; at = h.now_unix }))
      ]
    ]
  ]

  -- Its effect is on the DHT; here, its result. The time is set however it ended.
  unfoldable pub publish_turn : ℕ → Daemon → Daemon
  publish_turn now x =
      if due x.last_publish republish_interval now
      then (record x {
        published = x.published ++ ((now, republish x.endpoints) ∷ []);
        last_publish = some now;
      })
      else x

module _ ⦃h : Host⦄ ⦃p : Platform⦄ ⦃c : Esplora⦄ ⦃b : Bdk⦄ ⦃t : AddressTxs⦄ ⦃a : Addresses⦄ where
  -- A deposit that was booked before is no news, and an error is a warning.
  unfoldable pub record_each : ℕ → List Deposit → Exec World (Unit {0})
  record_each index [] = pure tt
  record_each index (d ∷ ds) = do ignore (record_received d.txid d.sats index); record_each index ds

  unfoldable pub watch_deposits : ℕ → Result (List Deposit) → Exec World (Unit {0})
  watch_deposits index (err e) = pure tt
  watch_deposits index (ok ds) = record_each index ds

  unfoldable pub watch_address : ℕ → Result Text → Exec World (Unit {0})
  watch_address index (err e) = pure tt
  watch_address index (ok addr) = watch_deposits index (deposits_to addr)

  unfoldable pub watch_each : List ℕ → Exec World (Unit {0})
  watch_each [] = pure tt
  watch_each (index ∷ indices) = do watch_address index (a.address index); watch_each indices

  unfoldable pub watch_ledger : Exec World (Unit {0})
  watch_ledger = do ignore reconcile; es ← gets entries_of; watch_each (issued_unpaid es)

module _ ⦃p : Platform⦄ ⦃w : Account⦄ ⦃s : ScanHost⦄ (fuel : ℕ) where
  -- The scan works on a ledger of its own, opened from the file; the daemon's is left as it is.
  unfoldable pub scan_fresh : Daemon → Daemon
  scan_fresh x =
      let (scanned, after) =
        (do on_ledger open_ledger; scan_to_tip fuel)
          (record { world = x.world; checkpoint = x.checkpoint }) in
      record x {
        world = record (after.world) { ledger = x.world.ledger };
        checkpoint = after.checkpoint;
      }

module _ ⦃h : Host⦄ ⦃p : Platform⦄ ⦃c : Esplora⦄ ⦃b : Bdk⦄ ⦃t : AddressTxs⦄ ⦃a : Addresses⦄
    ⦃w : Account⦄ ⦃s : ScanHost⦄ (fuel : ℕ) where
  unfoldable pub chain_watch : Daemon → Daemon
  chain_watch x = scan_fresh fuel (on_daemon watch_ledger x).1

  unfoldable pub watch_turn : ℕ → Daemon → Daemon
  watch_turn now x =
      if due x.last_watch watch_interval now
      then record (chain_watch x) { last_watch = some now }
      else x

  -- A session, however it ends.
  unfoldable pub visit : Visit → World → World
  visit v world =
      (run_receiver ⦃wire = v.wire⦄ none v.messages (record {
        world = world;
        receiver = record { next_index = next_address_index world.ledger.entries };
        outbox = [];
      })).1.world

  unfoldable pub visit_each : List Visit → World → World
  visit_each [] world = world
  visit_each (v ∷ vs) world = visit_each vs (visit v world)

  module _ ⦃d : Dht⦄ where
    unfoldable pub turn : ℕ × List Visit → Daemon → Daemon
    turn (now, visits) x =
        let y = watch_turn now (publish_turn now x) in
        record y { world = visit_each visits y.world }

    -- The turns of the loop.
    unfoldable pub turns : List (ℕ × List Visit) → Daemon → Daemon
    turns [] x = x
    turns (t ∷ ts) x = turns ts (turn t x)
