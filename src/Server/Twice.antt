-- ===== src/Server/Twice.antt =====
-- What a card of several endpoints costs where a session pays and then fails.
use computermoney.Prelude.{
  ℕ, suc, Text, length, Option, none, some, List, [], ◌∷◌, ◌++◌, ◌≡◌, refl, sym, ap, ◌∙◌,
}
use mathlib.Core.List.{append-nil, append_assoc}
use computermoney.Result.{
  Error, panicked, io, invalid_data, bad_signature, refused, network, other, err, Exec, attempt,
}
use computermoney.Storage.{Host}
use computermoney.Chain.{Esplora}
use computermoney.Ledger.Platform.{Platform}
use computermoney.Ledger.Store.{World}
use computermoney.Build.{Bdk}
use computermoney.Pay.{Payer}
use computermoney.Protocol.{Json}
use computermoney.Wallet.{Account}
use computermoney.Discover.{Card}
use computermoney.Tunnel.{Tunn, Socket}
use computermoney.Tunnel.Session.{Internet, pay}
use computermoney.Server.{on_dial, last_error, dial_each, dial_card}

-- An error that is no panic is kept, and the next endpoint is dialed.
on_dial-next :
    (e : Error) (next : Option Error → Exec World (Unit {0}))
    → ¬ (e ≡ panicked)
    → on_dial (err e) next ≡ next (some e)
unfolding on_dial
on_dial-next panicked next caught = absurd (caught refl)
on_dial-next io next caught = refl
on_dial-next invalid_data next caught = refl
on_dial-next (bad_signature n) next caught = refl
on_dial-next (refused r) next caught = refl
on_dial-next (network t) next caught = refl
on_dial-next (other t) next caught = refl

module _ ⦃h : Host⦄ ⦃p : Platform⦄ ⦃c : Esplora⦄ ⦃b : Bdk⦄ ⦃y : Payer⦄ ⦃a : Account⦄ ⦃t : Tunn⦄
    ⦃k : Socket⦄ ⦃j : Json⦄ ⦃n : Internet⦄ (wg : Text) (sats : ℕ) where
  -- A session that broadcasts a transaction and then ends in an error, as one does whose notice to the
  -- payee cannot be sent.
  pub record PaysAndFails (addr : Text) (w v : World) : Type 0 where
    pub why : Error
    pub ended : pay addr wg sats w ≡ (err why, v)
    pub caught : ¬ (why ≡ panicked)
    pub tx : Text
    pub paid : v.broadcasts ≡ w.broadcasts ++ (tx ∷ [])

  -- Each of the endpoints in turn is one.
  pub data AllPayAndFail : List Text → World → World → Type 0 where
    no_more : {w : World} → AllPayAndFail [] w w
    then_next :
        {addrs : List Text} {w u v : World} (addr : Text)
        → PaysAndFails addr w u
        → AllPayAndFail addrs u v
        → AllPayAndFail (addr ∷ addrs) w v

  dial_each-step :
      (addr : Text) (addrs : List Text) (last : Option Error) {w u : World}
      (f : PaysAndFails addr w u)
      → dial_each (addr ∷ addrs) wg sats last w ≡ dial_each addrs wg sats (some f.why) u
  unfolding dial_each attempt
  dial_each-step addr addrs last {w} {u} f =
      rw f.ended (ap (λ m. m u) (on_dial-next f.why (dial_each addrs wg sats) f.caught))

  dial_each-pays_each :
      {addrs : List Text} {w v : World}
      → AllPayAndFail addrs w v
      → (last : Error)
      → (why : Error) × (dial_each addrs wg sats (some last) w ≡ (err why, v))
        × (txs : List Text) × (length txs ≡ length addrs)
        × (v.broadcasts ≡ w.broadcasts ++ txs)
  unfolding dial_each last_error
  dial_each-pays_each no_more last = (last, refl, [], refl, sym (append-nil _))
  dial_each-pays_each (then_next {addrs} {w} addr f rest) last =
      let (why, ends, txs, count, went) = dial_each-pays_each rest f.why in
      (
        why,
        dial_each-step addr addrs (some last) f ∙ ends,
        f.tx ∷ txs,
        ap suc count,
        went ∙ ap (λ x. x ++ txs) f.paid ∙ append_assoc w.broadcasts (f.tx ∷ []) txs,
      )

  -- For whatever error was kept before.
  dial_each-any :
      {addrs : List Text} {w v : World} (addr : Text)
      → AllPayAndFail (addr ∷ addrs) w v
      → (why : Error) × (dial_each (addr ∷ addrs) wg sats none w ≡ (err why, v))
        × (txs : List Text) × (length txs ≡ suc (length addrs))
        × (v.broadcasts ≡ w.broadcasts ++ txs)
  dial_each-any {addrs} addr (then_next same f rest) =
      let (why, ends, txs, count, went) = dial_each-pays_each (then_next same f rest) (other []) in
      (
        why,
        dial_each-step addr addrs none f
            ∙ sym (dial_each-step addr addrs (some (other [])) f)
            ∙ ends,
        txs,
        count,
        went,
      )

module _ ⦃h : Host⦄ ⦃p : Platform⦄ ⦃c : Esplora⦄ ⦃b : Bdk⦄ ⦃y : Payer⦄ ⦃a : Account⦄ ⦃t : Tunn⦄
    ⦃k : Socket⦄ ⦃j : Json⦄ ⦃n : Internet⦄ where
  -- For a card without a silent payment code, at each of whose endpoints a session broadcasts a
  -- transaction and then ends in an error, a transaction is broadcast for each endpoint, though one
  -- payment was asked for, and the call ends in an error.
  pub dial_card-pays_each :
      (card : Card) (sats : ℕ) (addr : Text) (addrs : List Text) (w v : World)
      → card.ep ≡ addr ∷ addrs
      → AllPayAndFail card.wg sats (addr ∷ addrs) w v
      → (why : Error) × (dial_card card sats w ≡ (err why, v))
        × (txs : List Text) × (length txs ≡ suc (length addrs))
        × (v.broadcasts ≡ w.broadcasts ++ txs)
  unfolding dial_card
  dial_card-pays_each card sats addr addrs w v e all =
      rw (e, dial_card) (dial_each-any card.wg sats addr all)
