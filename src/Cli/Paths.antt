-- ===== src/Cli/Paths.antt =====
-- `cm pay` of main.rs and cm_pay of mcp.rs are two texts of one procedure.
use computermoney.Prelude.{
  ℕ, Text, trim, Option, none, some, List, [], ◌∷◌, ◌≡◌, refl, sym, ap, ◌∙◌, inl, inr, subst,
  subst⁻¹, Bool-cases,
}
use computermoney.Result.{
  Error, Result, ok, err, panicked, Exec, pure, lift, attempt, continue, ◌>>=◌, ◌>>◌,
}
use computermoney.Result.Success.{Result-cases, bind_cases}
use computermoney.Storage.{Host}
use computermoney.Chain.{Esplora}
use computermoney.Ledger.Platform.{Platform}
use computermoney.Ledger.Store.{World}
use computermoney.Build.{Bdk}
use computermoney.Pay.{Payer}
use computermoney.Protocol.{Json}
use computermoney.Wallet.{Account}
use computermoney.Discover.{Card, Dht}
use computermoney.Tunnel.{Tunn, Socket}
use computermoney.Tunnel.Session.{Internet, open_ledger, open_own_ledger, pay}
use computermoney.Server.{
  split_once, is_sp_code, receipt, sp_pay, newest_receipt, on_dial, dial_each, dial_card,
  found_card, pay_card, pay_link, pay_trimmed, pay_peer,
}
use computermoney.Server.Capped.{Untouched, newest_receipt-Untouched}
use computermoney.Cli.{
  cli_sp_pay, next_endpoint, try_endpoints, dial_endpoints, cli_pay_card, cli_pay_link, cli_pay,
}

-- Shaping the result leaves the state.
state-bind_map :
    {S A B : Type 0} (m : Exec S A) (f : A → B) (s : S) → ((m >>= λ a. pure (f a)) s).1 ≡ (m s).1
state-bind_map {S} {A} {B} m f s = by_result (m s).0
  where
    by_result : (r : Result A) → (continue r (λ a. pure (f a)) (m s).1).1 ≡ (m s).1
    by_result (ok a) = refl
    by_result (err e) = refl

on_dial-next_endpoint :
    {S : Type 0} (r : Result (Unit {0})) (f g : Option Error → Exec S (Unit {0})) (s : S)
    → ((e : Option Error) → f e s ≡ g e s)
    → on_dial r f s ≡ next_endpoint r g s
unfolding on_dial next_endpoint
on_dial-next_endpoint (ok u) f g s same = refl
on_dial-next_endpoint (err panicked) f g s same = refl
on_dial-next_endpoint (err e) f g s same = same (some e)

module _ ⦃h : Host⦄ ⦃p : Platform⦄ ⦃c : Esplora⦄ ⦃b : Bdk⦄ ⦃y : Payer⦄ ⦃a : Account⦄ where
  sp_pay-cli_sp_pay : (code : Text) (sats : ℕ) → sp_pay code sats ≡ cli_sp_pay code sats
  unfolding sp_pay cli_sp_pay
  sp_pay-cli_sp_pay code sats = refl

  all_kept : (w : World) → Untouched w w
  all_kept w = record { file = refl; sidecars = refl; broadcasts = refl }

  all_kept_of : (w v : World) → v ≡ w → Untouched w v
  all_kept_of w v e = subst⁻¹ (Untouched w) e (all_kept w)

  receipt_same :
      (code : Text) (sats : ℕ) (w : World)
      → Untouched
          ((cli_sp_pay code sats >>= λ txid. pure tt) w).1
          ((sp_pay code sats >>= λ txid. pure (receipt txid)) w).1
  receipt_same code sats w = all_kept_of _ _ (
      state-bind_map (sp_pay code sats) receipt w
      ∙ ap (λ m. (m w).1) (sp_pay-cli_sp_pay code sats)
      ∙ sym (state-bind_map (cli_sp_pay code sats) (λ t. tt) w))

  -- What a payment left, the report on it leaves.
  reported : (m : Exec World (Unit {0})) (w : World) → Untouched (m w).1 ((m >> newest_receipt) w).1
  reported m w =
      bind_cases (Untouched (m w).1) m (λ u. newest_receipt) w
        (λ u done. (newest_receipt-Untouched (m w).1).run (m w).1 (all_kept _))
        (λ e failed. all_kept _)

  module _ ⦃t : Tunn⦄ ⦃k : Socket⦄ ⦃j : Json⦄ ⦃n : Internet⦄ where
    dial_each-try_endpoints :
        (addrs : List Text) (wg : Text) (sats : ℕ) (e : Option Error) (w : World)
        → dial_each addrs wg sats e w ≡ try_endpoints addrs wg sats e w
    unfolding dial_each try_endpoints attempt
    dial_each-try_endpoints [] wg sats e w = refl
    dial_each-try_endpoints (addr ∷ addrs) wg sats e w =
        on_dial-next_endpoint _ _ _ _ λ e'. dial_each-try_endpoints addrs wg sats e' _

    module _ ⦃d : Dht⦄ (id : Text) (known : a.id_hex ≡ ok id) where
      known_id :
          {A : Type 0} (f : Text → Exec World A) (w : World) → (lift a.id_hex >>= f) w ≡ f id w
      known_id f w = ap (λ r. continue r f w) known

      dial_card-dial_endpoints :
          (card : Card) (sats : ℕ) (w : World) → dial_card card sats w ≡ dial_endpoints card sats w
      unfolding dial_card dial_endpoints
      dial_card-dial_endpoints card sats w = by_endpoints card.ep refl
        where
          by_endpoints :
              (ep : List Text) → card.ep ≡ ep → dial_card card sats w ≡ dial_endpoints card sats w
          by_endpoints [] e = rw (e, dial_card, dial_endpoints) refl
          by_endpoints (addr ∷ addrs) e =
              rw (e, dial_card, dial_endpoints)
                (dial_each-try_endpoints (addr ∷ addrs) card.wg sats none w
                  ∙ sym (known_id (λ x. try_endpoints (addr ∷ addrs) card.wg sats none) w))

      cards_same :
          (card : Card) (sats : ℕ) (w : World)
          → Untouched (cli_pay_card card sats w).1 (pay_card card sats w).1
      unfolding cli_pay_card pay_card dial_card dial_endpoints
      cards_same card sats w = by_code card.sp refl
        where
          by_code :
              (o : Option Text)
              → card.sp ≡ o
              → Untouched (cli_pay_card card sats w).1 (pay_card card sats w).1
          by_code none e =
              rw (e, cli_pay_card, pay_card)
                (subst (λ r. Untouched r.1 ((dial_card card sats >> newest_receipt) w).1)
                  (dial_card-dial_endpoints card sats w) (reported (dial_card card sats) w))
          by_code (some code) e = rw (e, cli_pay_card, pay_card) (receipt_same code sats w)

      by_card :
          (r : Result Card) (sats : ℕ) (w : World)
          → Untouched
              ((lift r >>= λ card. cli_pay_card card sats) w).1
              ((lift r >>= λ card. pay_card card sats) w).1
      by_card (ok card) sats w = cards_same card sats w
      by_card (err e) sats w = all_kept w

      link_same :
          (o : Option (Text × Text)) (peer : Text) (sats : ℕ) (w : World)
          → Untouched (cli_pay_link o peer sats w).1 (pay_link o peer sats w).1
      unfolding cli_pay_link pay_link
      link_same none peer sats w = by_card (found_card peer) sats w
      link_same (some (pub_hex, addr)) peer sats w =
          subst⁻¹ (λ r. Untouched r.1 ((pay addr pub_hex sats >> newest_receipt) w).1)
            (known_id (λ x. pay addr pub_hex sats) w) (reported (pay addr pub_hex sats) w)

      trimmed_same :
          (peer : Text) (sats : ℕ) (w : World)
          → Untouched (cli_pay peer sats w).1 (pay_trimmed peer sats w).1
      unfolding cli_pay pay_trimmed
      trimmed_same peer sats w = elim (Bool-cases (is_sp_code peer)) [
        | inl code ↦ rw code (receipt_same peer sats w)
        | inr plain ↦ rw plain (link_same (split_once b'@' peer) peer sats w)
      ]

    module _ ⦃d : Dht⦄ (e : Error) (unknown : a.id_hex ≡ err e) where
      fails_on :
          {A B : Type 0} (m : Exec World A) (g : A → Exec World B) (w : World)
          → m w ≡ (err e, w)
          → (m >>= g) w ≡ (err e, w)
      fails_on m g w failed = ap (λ r. continue r.0 g r.1) failed

      unknown_ledger : (w : World) → open_own_ledger w ≡ (err e, w)
      unfolding open_own_ledger
      unknown_ledger w = ap (λ r. continue r (λ id. open_ledger) w) unknown

      unknown_sp_pay :
          {A : Type 0} (code : Text) (sats : ℕ) (g : Text → Exec World A) (w : World)
          → ((cli_sp_pay code sats >>= g) w).1 ≡ w
      unfolding cli_sp_pay
      unknown_sp_pay code sats g w =
          ap (λ r. r.1)
            (fails_on (cli_sp_pay code sats) g w (fails_on open_own_ledger _ w (unknown_ledger w)))

      unknown_card : (card : Card) (sats : ℕ) (w : World) → (cli_pay_card card sats w).1 ≡ w
      unfolding cli_pay_card dial_endpoints
      unknown_card card sats w = by_code card.sp refl
        where
          by_ep : (ep : List Text) → card.ep ≡ ep → (dial_endpoints card sats w).1 ≡ w
          by_ep [] q = rw (q, dial_endpoints) refl
          by_ep (addr ∷ addrs) q =
              rw (q, dial_endpoints)
                (ap (λ r. (continue r (λ x. try_endpoints (addr ∷ addrs) card.wg sats none) w).1)
                  unknown)

          by_code : (o : Option Text) → card.sp ≡ o → (cli_pay_card card sats w).1 ≡ w
          by_code none q = rw (q, cli_pay_card) (by_ep card.ep refl)
          by_code (some code) q = rw (q, cli_pay_card) (unknown_sp_pay code sats (λ t. pure tt) w)

      unknown_link :
          (o : Option (Text × Text)) (peer : Text) (sats : ℕ) (w : World)
          → (cli_pay_link o peer sats w).1 ≡ w
      unfolding cli_pay_link
      unknown_link (some (pub_hex, addr)) peer sats w =
          ap (λ r. (continue r (λ x. pay addr pub_hex sats) w).1) unknown
      unknown_link none peer sats w = by_result (found_card peer)
        where
          by_result : (r : Result Card) → ((lift r >>= λ card. cli_pay_card card sats) w).1 ≡ w
          by_result (ok card) = unknown_card card sats w
          by_result (err x) = refl

      unknown_still : (peer : Text) (sats : ℕ) (w : World) → (cli_pay peer sats w).1 ≡ w
      unfolding cli_pay
      unknown_still peer sats w = elim (Bool-cases (is_sp_code peer)) [
        | inl code ↦ rw code (unknown_sp_pay peer sats (λ t. pure tt) w)
        | inr plain ↦ rw plain (unknown_link (split_once b'@' peer) peer sats w)
      ]

    -- The command line and the tool server pay alike: whatever the peer, the amount and the state, `cm
    -- pay` and cm_pay leave the same ledger file, kept transactions and broadcasts.
    pub cli_pay-pay_peer :
        ⦃d : Dht⦄ (peer : Text) (sats : ℕ) (w : World)
        → Untouched (cli_pay (trim peer) sats w).1 (pay_peer peer sats w).1
    unfolding pay_peer
    cli_pay-pay_peer peer sats w = elim (Result-cases a.id_hex) [
      | inl (id, known) ↦
          subst⁻¹ (λ r. Untouched (cli_pay (trim peer) sats w).1 r.1)
            (known_id id known (λ x. pay_trimmed (trim peer) sats) w)
            (trimmed_same id known (trim peer) sats w)
      | inr (e, unknown) ↦ all_kept_of _ _ (
          ap (λ r. (continue r (λ x. pay_trimmed (trim peer) sats) w).1) unknown
          ∙ sym (unknown_still e unknown (trim peer) sats w))
    ]
