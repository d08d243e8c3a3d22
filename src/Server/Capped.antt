-- ===== src/Server/Capped.antt =====
-- No tool of mcp.rs sends a payment over the cap of the policy.
use computermoney.Prelude.{
  ℕ, ◌-◌, ◌<◌, Text, trim, Option, none, some, List, [], ◌∷◌, ◌≡◌, refl, sym, ap, ◌∙◌, inl, inr,
  arith, subst⁻¹, Bool-cases, Option-cases,
}
use computermoney.Policy.{
  Policy, pass, refuse, payment_too_large, check_amount, check_address, daily_window_secs,
}
use computermoney.Result.{
  Error, panicked, Result, ok, err, Exec, pure, lift, gets, gate, attempt, ◌>>=◌, ◌>>◌,
}
use computermoney.Result.Preserves.{
  Preserves, Preserves-pure, Preserves-raise, Preserves-lift, Preserves-gets, Preserves-bind,
}
use computermoney.Result.Success.{bind_cases, ok_inj}
use computermoney.Storage.{Host}
use computermoney.Chain.{Esplora}
use computermoney.Ledger.Balances.{spent_since}
use computermoney.Ledger.Platform.{Platform}
use computermoney.Ledger.Store.{World, open_inner, on_disk}
use computermoney.Ledger.Methods.{entries_of}
use computermoney.Build.{Bdk}
use computermoney.Pay.{Payer, sp_send, send_spending_sp}
use computermoney.Protocol.{Json}
use computermoney.Net.{amount_gate}
use computermoney.Net.Gated.{run_payer-IsGated}
use computermoney.Wallet.{Account}
use computermoney.Discover.{Card, Dht}
use computermoney.Tunnel.{Tunn, Socket, FramedTunnel, connect}
use computermoney.Keys.{parse_public_key}
use computermoney.Tunnel.Session.{
  Internet, key_of, socket_addr, open_ledger, open_own_ledger, wire_of, messages, session_on,
  pay_over, pay,
}
use computermoney.Server.{
  is_sp_code, or_error, newest_sent, receipt, send_payment, sp_pay, newest_receipt, on_dial,
  last_error, dial_each, dial_card, found_card, pay_card, pay_link, pay_trimmed, pay_peer,
}

-- The ledger's file, the signed transactions kept and what was broadcast are those of `w`.
pub record Untouched (w v : World) : Type 0 where
  pub file : v.disk.file ≡ w.disk.file
  pub sidecars : v.disk.sidecars ≡ w.disk.sidecars
  pub broadcasts : v.broadcasts ≡ w.broadcasts

module _ ⦃p : Platform⦄ ⦃a : Account⦄ (w : World) where
  pub open_ledger-Untouched : Preserves (Untouched w) open_ledger
  unfolding open_ledger on_disk open_inner
  open_ledger-Untouched = record { run = λ s h. ground arith }

  open_own_ledger-Untouched : Preserves (Untouched w) open_own_ledger
  unfolding open_own_ledger
  open_own_ledger-Untouched =
      Preserves-bind (lift a.id_hex) _ (Preserves-lift _) λ id. open_ledger-Untouched

module _ ⦃h : Host⦄ ⦃p : Platform⦄ ⦃c : Esplora⦄ ⦃b : Bdk⦄ ⦃y : Payer⦄ ⦃a : Account⦄
    (w : World) where
  pub newest_receipt-Untouched : Preserves (Untouched w) newest_receipt
  unfolding newest_receipt
  newest_receipt-Untouched = Preserves-bind open_ledger _ (open_ledger-Untouched w) λ u.
      Preserves-bind (gets entries_of) _ (Preserves-gets entries_of) λ es.
        Preserves-bind (lift (or_error _ (newest_sent es))) _ (Preserves-lift _)
          λ txid. Preserves-pure (receipt txid)

module _ ⦃h : Host⦄ (policy : Policy) (cap sats : ℕ) (capped : policy.max_payment_sats ≡ some cap)
    (over : cap < sats) where
  amount_refused :
      (spent : ℕ) → check_amount policy sats spent ≡ refuse (payment_too_large sats cap)
  unfolding check_amount
  amount_refused spent = ground arith

  -- What stands behind the amount gate is not reached.
  amount_gate_stops :
      {A : Type 0} (f : Unit {0} → Exec World A) (s : World)
      → ((amount_gate policy sats >>= f) s).1 ≡ s
  unfolding amount_gate
  amount_gate_stops f s =
      rw (amount_refused (spent_since (h.now_unix - daily_window_secs) s.ledger.entries)) refl

  module _ (loaded : h.load_policy ≡ ok policy) (w : World) where
    -- A payment that loads the policy and passes its amount gate first.
    gated-Untouched :
        {A : Type 0} (f : Policy → Unit {0} → Exec World A)
        → Preserves (Untouched w) (lift h.load_policy >>= λ pol. amount_gate pol sats >>= f pol)
    gated-Untouched {A} f = record {
      run = λ s hs.
          bind_cases (Untouched w) (lift h.load_policy) _ s
            (λ pol got.
              let same : policy ≡ pol = ok_inj policy pol (sym loaded ∙ got) in
              subst⁻¹ (λ q. Untouched w ((amount_gate q sats >>= f q) s).1) (sym same)
                (subst⁻¹ (Untouched w) (amount_gate_stops (f policy) s) hs))
            (λ e failed. hs);
    }

    module _ ⦃p : Platform⦄ ⦃c : Esplora⦄ ⦃b : Bdk⦄ ⦃y : Payer⦄ ⦃a : Account⦄ where
      send_payment-Untouched : (to : Text) → Preserves (Untouched w) (send_payment to sats)
      unfolding send_payment
      send_payment-Untouched to =
          Preserves-bind open_own_ledger _ (open_own_ledger-Untouched w) λ u.
            gated-Untouched (λ pol _. do
              gate (check_address pol to)
              txid ← send_spending_sp (a.descriptors.0) (a.descriptors.1) to sats pol.max_fee_sats
              pure (receipt txid))

      sp_pay-Untouched : (code : Text) → Preserves (Untouched w) (sp_pay code sats)
      unfolding sp_pay
      sp_pay-Untouched code = Preserves-bind open_own_ledger _ (open_own_ledger-Untouched w) λ u.
          gated-Untouched (λ pol _. do
            gate (check_address pol code)
            sp_send (a.descriptors.0) (a.descriptors.1) code sats pol.max_fee_sats)

      module _ ⦃t : Tunn⦄ ⦃k : Socket⦄ ⦃j : Json⦄ ⦃n : Internet⦄ where
        pay_over-Untouched : (f : FramedTunnel) → Preserves (Untouched w) (pay_over f sats)
        unfolding pay_over session_on
        pay_over-Untouched f = record {
          run = λ s hs.
              elim (run_payer-IsGated ⦃wire = wire_of f⦄ (a.descriptors.0) (a.descriptors.1)
                (messages f) sats (session_on s)) [
                  | inl same ↦ subst⁻¹ (Untouched w) same hs
                  | inr gated ↦
                      let same : gated.policy ≡ policy =
                        ok_inj gated.policy policy (sym gated.loaded ∙ loaded) in
                      let spent : ℕ =
                        spent_since (h.now_unix - daily_window_secs) s.ledger.entries in
                      let shut : refuse (payment_too_large sats cap) ≡ pass =
                        sym (amount_refused spent)
                        ∙ ap (λ q. check_amount q sats spent) (sym same)
                        ∙ gated.amount in
                      absurd (cc)
                ];
        }

        pay-Untouched : (addr pub_hex : Text) → Preserves (Untouched w) (pay addr pub_hex sats)
        unfolding pay
        pay-Untouched addr pub_hex =
            Preserves-bind (lift a.wg_secret_bytes) _ (Preserves-lift _) λ secret.
              Preserves-bind (lift (key_of (parse_public_key pub_hex))) _ (Preserves-lift _)
                λ peer_pub.
                  Preserves-bind (lift (socket_addr (n.parse_addr addr))) _ (Preserves-lift _)
                    λ peer. Preserves-bind open_ledger _ (open_ledger-Untouched w) λ u.
                      Preserves-bind (lift n.bind) _ (Preserves-lift _) λ v.
                        Preserves-bind
                          (lift (connect (n.polls peer) (n.inbox peer) peer secret peer_pub)) _
                          (Preserves-lift _) pay_over-Untouched

        on_dial-Untouched :
            (r : Result (Unit {0})) (next : Option Error → Exec World (Unit {0}))
            → ((e : Option Error) → Preserves (Untouched w) (next e))
            → Preserves (Untouched w) (on_dial r next)
        unfolding on_dial
        on_dial-Untouched (ok u) next k = Preserves-pure tt
        on_dial-Untouched (err panicked) next k = Preserves-raise panicked
        on_dial-Untouched (err e) next k = k (some e)

        last_error-Untouched : (e : Option Error) → Preserves (Untouched w) (last_error e)
        unfolding last_error
        last_error-Untouched none = Preserves-pure tt
        last_error-Untouched (some e) = Preserves-raise e

        attempt-Untouched :
            {A : Type 0} (m : Exec World A)
            → Preserves (Untouched w) m
            → Preserves (Untouched w) (attempt m)
        unfolding attempt
        attempt-Untouched m km = record { run = km.run }

        dial_each-Untouched :
            (addrs : List Text) (wg : Text) (e : Option Error)
            → Preserves (Untouched w) (dial_each addrs wg sats e)
        unfolding dial_each
        dial_each-Untouched [] wg e = last_error-Untouched e
        dial_each-Untouched (addr ∷ addrs) wg e =
            Preserves-bind (attempt (pay addr wg sats)) _
              (attempt-Untouched (pay addr wg sats) (pay-Untouched addr wg))
              λ r. on_dial-Untouched r _ (dial_each-Untouched addrs wg)

        dial_card-Untouched : (card : Card) → Preserves (Untouched w) (dial_card card sats)
        unfolding dial_card
        dial_card-Untouched card = by_endpoints card.ep refl
          where
            by_endpoints :
                (ep : List Text) → card.ep ≡ ep → Preserves (Untouched w) (dial_card card sats)
            by_endpoints [] e = rw (e, dial_card) (Preserves-raise _)
            by_endpoints (addr ∷ addrs) e =
                rw (e, dial_card) (dial_each-Untouched (addr ∷ addrs) card.wg none)

        module _ ⦃d : Dht⦄ where
          pay_card-Untouched : (card : Card) → Preserves (Untouched w) (pay_card card sats)
          unfolding pay_card
          pay_card-Untouched card = elim (Option-cases card.sp) [
            | inl none_published ↦
                rw (none_published, pay_card)
                  (Preserves-bind (dial_card card sats) _ (dial_card-Untouched card)
                    λ u. newest_receipt-Untouched w)
            | inr (code, published) ↦
                rw (published, pay_card)
                  (Preserves-bind (sp_pay code sats) _ (sp_pay-Untouched code)
                    λ txid. Preserves-pure (receipt txid))
          ]

          pay_link-Untouched :
              (o : Option (Text × Text)) (peer : Text)
              → Preserves (Untouched w) (pay_link o peer sats)
          unfolding pay_link
          pay_link-Untouched none peer =
              Preserves-bind (lift (found_card peer)) _ (Preserves-lift _) pay_card-Untouched
          pay_link-Untouched (some (pub_hex, addr)) peer =
              Preserves-bind (pay addr pub_hex sats) _ (pay-Untouched addr pub_hex)
                λ u. newest_receipt-Untouched w

          pay_trimmed-Untouched : (peer : Text) → Preserves (Untouched w) (pay_trimmed peer sats)
          unfolding pay_trimmed
          pay_trimmed-Untouched peer = elim (Bool-cases (is_sp_code peer)) [
            | inl code ↦ rw code (
                Preserves-bind (sp_pay peer sats) _ (sp_pay-Untouched peer)
                  λ txid. Preserves-pure (receipt txid))
            | inr other ↦ rw other (pay_link-Untouched _ peer)
          ]

          -- Under a policy whose payment cap is below the amount, neither cm_send nor cm_pay, whatever
          -- its payee, and however the call ends, sends anything: the ledger's file, the kept
          -- transactions and what was broadcast stay as they are.
          pub over_cap_unpaid :
              (to peer : Text)
              → Untouched w (send_payment to sats w).1 × Untouched w (pay_peer peer sats w).1
          unfolding pay_peer
          over_cap_unpaid to peer =
              let here : Untouched w w = record {
                file = refl;
                sidecars = refl;
                broadcasts = refl;
              } in
              (
                (send_payment-Untouched to).run w here,
                (Preserves-bind (lift a.id_hex) _ (Preserves-lift _)
                      λ id. pay_trimmed-Untouched (trim peer)).run
                    w here,
              )
