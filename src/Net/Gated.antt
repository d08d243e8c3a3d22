-- ===== src/Net/Gated.antt =====
-- When the payer of net.rs moves money.
use computermoney.Prelude.{ℕ, ◌-◌, Text, List, ◌≡◌, refl, ap, ◌∙◌, ◌⊎◌, inl, inr, arith}
use computermoney.Policy.{Policy, pass, daily_window_secs, check_amount, check_address}
use computermoney.Result.{Result, ok, lift, gate}
use computermoney.Result.Success.{bind_cases}
use computermoney.Result.Still.{Still-gate}
use computermoney.Storage.{Host}
use computermoney.Chain.{Esplora}
use computermoney.Ledger.Balances.{spent_since}
use computermoney.Ledger.Platform.{Platform}
use computermoney.Ledger.Store.{World}
use computermoney.Build.{Bdk}
use computermoney.Build.Guards.{gate-eq-ok}
use computermoney.Pay.{Payer}
use computermoney.Protocol.{Message, addr_request}
use computermoney.Net.{Wire, Session, on_world, send_message, await_address, amount_gate, run_payer}

module _ ⦃h : Host⦄ where
  -- The policy passes the amount as the ledger stands, and the address that the peer sent.
  pub record IsGated (inbox : List (Result Message)) (sats : ℕ) (w : World) : Type 0 where
    pub policy : Policy
    pub address : Text
    pub index : ℕ
    pub loaded : h.load_policy ≡ ok policy
    pub amount :
        check_amount policy sats (spent_since (h.now_unix - daily_window_secs) w.ledger.entries)
        ≡ pass
    pub answered : await_address inbox ≡ ok (address, index)
    pub listed : check_address policy address ≡ pass

  amount_gate-eq-ok :
      (policy : Policy) (sats : ℕ) (s : Session) (u : Unit {0})
      → (on_world (amount_gate policy sats) s).0 ≡ ok u
      → check_amount policy sats
          (spent_since (h.now_unix - daily_window_secs) s.world.ledger.entries)
        ≡ pass
  unfolding on_world amount_gate
  amount_gate-eq-ok policy sats s u e = gate-eq-ok _ s.world e

  amount_gate-world :
      (policy : Policy) (sats : ℕ) (s : Session)
      → (on_world (amount_gate policy sats) s).1.world ≡ s.world
  unfolding on_world amount_gate check_amount
  amount_gate-world policy sats s = ground arith

module _ ⦃h : Host⦄ ⦃p : Platform⦄ ⦃c : Esplora⦄ ⦃b : Bdk⦄ ⦃y : Payer⦄ ⦃wire : Wire⦄ where
  -- A payer's session that changes the ledger, its disk or what was broadcast, however it ends, had
  -- an amount that the policy passes as the ledger stood, and an address from the peer that is not on
  -- the blocklist.
  pub run_payer-IsGated :
      (ext int : Text) (inbox : List (Result Message)) (sats : ℕ) (s : Session)
      → ((run_payer ext int inbox sats s).1.world ≡ s.world) ⊎ IsGated inbox sats s.world
  unfolding run_payer send_message
  run_payer-IsGated ext int inbox sats s =
      let Q : Session → Type 0 = λ t. (t.world ≡ s.world) ⊎ IsGated inbox sats s.world in
      bind_cases Q (lift h.load_policy) _ s
        (λ policy loaded.
          let s₁ : Session = (on_world (amount_gate policy sats) s).1 in
          let same : s₁.world ≡ s.world = amount_gate-world policy sats s in
          bind_cases Q (on_world (amount_gate policy sats)) _ s
            (λ u passed.
              bind_cases Q (send_message (addr_request sats)) _ s₁
                (λ v asked.
                  let s₂ : Session = (send_message (addr_request sats) s₁).1 in
                  bind_cases Q (lift (await_address inbox)) _ s₂
                    (λ a answered.
                      bind_cases Q (gate (check_address policy a.0)) _ s₂
                        (λ x listed. inr (record {
                          policy = policy;
                          address = a.0;
                          index = a.1;
                          loaded = loaded;
                          amount = amount_gate-eq-ok policy sats s u passed;
                          answered = answered;
                          listed = gate-eq-ok (check_address policy a.0) s₂ listed;
                        }))
                        (λ e refused. inl (
                          ap (λ t. t.world) ((Still-gate (check_address policy a.0)).run s₂)
                          ∙ same)))
                    (λ e gone. inl same))
                (λ e failed. inl same))
            (λ e refused. inl same))
        (λ e failed. inl refl)
