-- ===== src/Daemon/Cadence.antt =====
-- When serve.rs does its duties.
use computermoney.Prelude.{
  ℕ, ◌-◌, ◌≤◌, ◌<◌, Option, none, some, List, [], ◌∷◌, ◌++◌, ◌≡◌, refl, ◌⊎◌, inl, inr, arith,
  Bool-cases, leb, ap, ◌∙◌, true, false,
}
use computermoney.Result.{Result}
use computermoney.Storage.{Host}
use computermoney.Chain.{Esplora}
use computermoney.Deposits.{AddressTxs}
use computermoney.Ledger.Platform.{Platform}
use computermoney.Build.{Bdk}
use computermoney.Matching.{ScanHost}
use computermoney.Protocol.{Addresses}
use computermoney.Wallet.{Account}
use computermoney.Discover.{Dht}
use computermoney.Daemon.{
  watch_interval, republish_interval, due, Daemon, Visit, on_daemon, republish, publish_turn,
  scan_fresh, chain_watch, watch_turn, visit_each, turn,
}

-- What a turn at `now` does of a duty: it acts, where the duty was never done or its interval has
-- passed, and sets the time; or it rests, where the interval has not passed, and leaves the time.
abbrev pub Duty : ℕ → ℕ → Option ℕ → Option ℕ → Type 0 → Type 0 → Type 0
Duty interval now before after Acts Rests =
    ((after ≡ some now)
      × ((before ≡ none) ⊎ ((last : ℕ) × (before ≡ some last) × (interval ≤ now - last)))
      × Acts)
    ⊎ ((last : ℕ) × (before ≡ some last) × (after ≡ some last) × (now - last < interval) × Rests)

Duty_of_due :
    (interval now : ℕ) (before after : Option ℕ) {Acts Rests : Type 0}
    → (due before interval now ≡ true → (after ≡ some now) × Acts)
    → (due before interval now ≡ false → (after ≡ before) × Rests)
    → Duty interval now before after Acts Rests
unfolding due
Duty_of_due interval now none after fired rested =
    let (set, acts) = fired refl in inl (set, inl refl, acts)
Duty_of_due interval now (some t) after fired rested = elim (Bool-cases (leb interval (now - t))) [
  | inl fires ↦ let (set, acts) = fired fires in inl (set, inr (t, refl, ground arith), acts)
  | inr rests ↦ let (kept, rest) = rested rests in inr (t, refl, kept, ground arith, rest)
]

module _ ⦃h : Host⦄ ⦃p : Platform⦄ ⦃c : Esplora⦄ ⦃b : Bdk⦄ ⦃t : AddressTxs⦄ ⦃a : Addresses⦄
    ⦃w : Account⦄ ⦃s : ScanHost⦄ (fuel : ℕ) where
  -- The watch sees nothing of the publishing.
  chain_watch-published :
      (x : Daemon) (last : Option ℕ) (log : List (ℕ × Result (Result (Unit {0}))))
      → let y = record x { published = log; last_publish = last } in
        ((chain_watch fuel y).world ≡ (chain_watch fuel x).world)
        × ((chain_watch fuel y).checkpoint ≡ (chain_watch fuel x).checkpoint)
  unfolding chain_watch scan_fresh on_daemon
  chain_watch-published x last log = (refl, refl)

  chain_watch-keeps :
      (x : Daemon)
      → ((chain_watch fuel x).last_publish ≡ x.last_publish)
        × ((chain_watch fuel x).published ≡ x.published)
  unfolding chain_watch scan_fresh on_daemon
  chain_watch-keeps x = (refl, refl)

  watch_turn-keeps :
      (now : ℕ) (x : Daemon)
      → ((watch_turn fuel now x).last_publish ≡ x.last_publish)
        × ((watch_turn fuel now x).published ≡ x.published)
  unfolding watch_turn
  watch_turn-keeps now x = elim (Bool-cases (due x.last_watch watch_interval now)) [
    | inl fires ↦ rw fires (chain_watch-keeps x)
    | inr rests ↦ rw rests (refl, refl)
  ]

  -- What the watch needs is as it was before the publishing.
  abbrev Unseen : Daemon → Daemon → Type 0
  Unseen x y =
      (y.last_watch ≡ x.last_watch)
      × (y.world ≡ x.world)
      × (y.checkpoint ≡ x.checkpoint)
      × ((chain_watch fuel y).world ≡ (chain_watch fuel x).world)
      × ((chain_watch fuel y).checkpoint ≡ (chain_watch fuel x).checkpoint)

  publish_turn-Unseen : ⦃d : Dht⦄ (now : ℕ) (x : Daemon) → Unseen x (publish_turn now x)
  unfolding publish_turn
  publish_turn-Unseen now x = elim (Bool-cases (due x.last_publish republish_interval now)) [
    | inl fires ↦
        let (world, checkpoint) = chain_watch-published x (some now) _ in
        rw fires (refl, refl, refl, world, checkpoint)
    | inr rests ↦ rw rests (refl, refl, refl, refl, refl)
  ]

  -- At every turn, each duty is done where it was never done or its interval has passed, 60 seconds
  -- for the watch and 45 minutes for the card, and rests otherwise. A watch that is done is
  -- `chain_watch`, before the visitors are served; a publishing is `republish` of the endpoints, and
  -- its time is set however it ended.
  pub turn_cadence :
      ⦃d : Dht⦄ (now : ℕ) (visits : List Visit) (x : Daemon)
      → let after = turn fuel (now, visits) x in
        Duty watch_interval now x.last_watch after.last_watch
          ((after.world ≡ visit_each fuel visits (chain_watch fuel x).world)
            × (after.checkpoint ≡ (chain_watch fuel x).checkpoint))
          ((after.world ≡ visit_each fuel visits x.world) × (after.checkpoint ≡ x.checkpoint))
        × Duty republish_interval now x.last_publish after.last_publish
            (after.published ≡ x.published ++ ((now, republish x.endpoints) ∷ []))
            (after.published ≡ x.published)
  unfolding turn watch_turn publish_turn
  turn_cadence now visits x =
      let y = publish_turn now x in
      let (clock, world, checkpoint, watched, scanned) = publish_turn-Unseen now x in
      let (last, log) = watch_turn-keeps now y in
      let due_y : due y.last_watch watch_interval now ≡ due x.last_watch watch_interval now =
        ap (λ l. due l watch_interval now) clock in
      (
        Duty_of_due watch_interval now x.last_watch _
            (λ fires. rw (due_y ∙ fires) (refl, (ap (visit_each fuel visits) watched, scanned)))
            (λ rests. rw (due_y ∙ rests) (clock, (ap (visit_each fuel visits) world, checkpoint))),
        Duty_of_due republish_interval now x.last_publish _
            (λ fires. (last ∙ rw fires refl, log ∙ rw fires refl))
            (λ rests. (last ∙ rw rests refl, log ∙ rw rests refl)),
      )
