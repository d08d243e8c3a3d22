-- ===== src/Fetch/Guarded.antt =====
-- When fetch.rs moves money.
use computermoney.Prelude.{
  ℕ, ◌-◌, ◌≤◌, Text, text_eq, starts_with, Bool, true, none, ◌≡◌, refl, ap, ◌∙◌, ◌⊎◌, inl, inr,
  arith, Bool-cases, ◌==◌,
}
use computermoney.Policy.{daily_window_secs, is_mainnet, check_amount, check_address, Policy, pass}
use computermoney.Result.{ok, lift, gate}
use computermoney.Result.Success.{bind_cases, bind-eq-ok}
use computermoney.Storage.{Host, network, network_label}
use computermoney.Chain.{Esplora}
use computermoney.Ledger.Balances.{spent_since}
use computermoney.Ledger.Platform.{Platform}
use computermoney.Ledger.Store.{World}
use computermoney.Build.{Bdk}
use computermoney.Build.Guards.{gate-eq-ok}
use computermoney.Pay.{Payer}
use computermoney.Paywall.{Terms}
use computermoney.Fetch.{
  Resp, Web, want_hrp, check_terms, standing_gates, pay_and_retry, on_first, fetch, is_web_url,
}

check_terms-eq-ok :
    (terms : Terms) (max_sats : ℕ) (label : Text) (mainnet : Bool) (u : Unit {0})
    → check_terms terms max_sats label mainnet ≡ ok u
    → (text_eq terms.network label ≡ true)
      × (starts_with terms.pay_to (want_hrp mainnet) ≡ true)
      × (terms.sats ≤ max_sats)
unfolding check_terms
check_terms-eq-ok terms max_sats label mainnet u e = ground arith

module _ ⦃h : Host⦄ ⦃p : Platform⦄ ⦃c : Esplora⦄ ⦃b : Bdk⦄ ⦃y : Payer⦄ ⦃web : Web⦄ where
  -- The terms of a 402 that the caller's cap and the wallet's policy let pass.
  pub record IsAllowed (url : Text) (max_sats : ℕ) (w : World) : Type 0 where
    pub body : Text
    pub terms : Terms
    pub policy : Policy
    pub asked : web.http_get 0 url none ≡ ok (record { status = 402; body = body })
    pub parsed : web.parse_terms body ≡ ok terms
    pub ours : text_eq terms.network network_label ≡ true
    pub code : starts_with terms.pay_to (want_hrp (is_mainnet network)) ≡ true
    pub capped : terms.sats ≤ max_sats
    pub loaded : h.load_policy ≡ ok policy
    pub amount :
        check_amount policy terms.sats
          (spent_since (h.now_unix - daily_window_secs) w.ledger.entries)
        ≡ pass
    pub listed : check_address policy terms.pay_to ≡ pass

  standing_gates-eq-ok :
      (policy : Policy) (terms : Terms) (w : World) (u : Unit {0})
      → (standing_gates policy terms w).0 ≡ ok u
      → (check_amount policy terms.sats
            (spent_since (h.now_unix - daily_window_secs) w.ledger.entries)
          ≡ pass)
        × (check_address policy terms.pay_to ≡ pass)
  unfolding standing_gates
  standing_gates-eq-ok policy terms w u e =
      let v =
        check_amount policy terms.sats
          (spent_since (h.now_unix - daily_window_secs) w.ledger.entries) in
      let (_, amount, rest, _) =
        bind-eq-ok (gate v) (λ _. gate (check_address policy terms.pay_to)) w e in
      (gate-eq-ok v w amount, gate-eq-ok (check_address policy terms.pay_to) _ rest)

  -- Nothing happened, or the terms were allowed.
  abbrev Outcome : Text → ℕ → World → World → Type 0
  Outcome url max_sats w w' = (w' ≡ w) ⊎ IsAllowed url max_sats w

  standing_gates-Still :
      (policy : Policy) (terms : Terms) (w : World) → (standing_gates policy terms w).1 ≡ w
  unfolding standing_gates check_address check_amount
  standing_gates-Still policy terms w = ground arith

  pay_and_retry-Outcome :
      (ext int url : Text) (max_sats : ℕ) (body : Text) (w : World)
      → web.http_get 0 url none ≡ ok (record { status = 402; body = body })
      → Outcome url max_sats w (pay_and_retry ext int url max_sats body w).1
  unfolding pay_and_retry
  pay_and_retry-Outcome ext int url max_sats body w asked =
      let Q = Outcome url max_sats w in
      bind_cases Q (lift (web.parse_terms body)) _ w
        (λ terms parsed.
          bind_cases Q (lift (check_terms terms max_sats network_label (is_mainnet network))) _ w
            (λ u checked.
              bind_cases Q (lift h.load_policy) _ w
                (λ policy loaded.
                  bind_cases Q (standing_gates policy terms) _ w
                    (λ v gated.
                      let (ours, code, capped) =
                        check_terms-eq-ok terms max_sats network_label (is_mainnet network) u
                          checked in
                      let (amount, listed) = standing_gates-eq-ok policy terms w v gated in
                      inr (record {
                        body = body;
                        terms = terms;
                        policy = policy;
                        asked = asked;
                        parsed = parsed;
                        ours = ours;
                        code = code;
                        capped = capped;
                        loaded = loaded;
                        amount = amount;
                        listed = listed;
                      }))
                    (λ e refused. inl (standing_gates-Still policy terms w)))
                (λ e failed. inl refl))
            (λ e failed. inl refl))
        (λ e failed. inl refl)

  on_first-Outcome :
      (ext int url : Text) (max_sats : ℕ) (first : Resp) (w : World)
      → web.http_get 0 url none ≡ ok first
      → Outcome url max_sats w (on_first ext int url max_sats first w).1
  unfolding on_first
  on_first-Outcome ext int url max_sats first w asked = elim (Bool-cases (first.status == 200)) [
    | inl free ↦ rw free (inl refl)
    | inr other ↦ rw other (elim (Bool-cases (first.status == 402)) [
      | inl unpaid ↦
          let e : first.status ≡ 402 = ground arith in
          rw unpaid (
            pay_and_retry-Outcome ext int url max_sats first.body w
              (asked ∙ ap (λ n. ok (record { status = n; body = first.body })) e))
      | inr failed ↦ rw failed (inl refl)
    ])
  ]

  -- A fetch that changes the ledger, its disk or what was broadcast, whatever it returns, met a 402
  -- whose terms are for our network, name a silent payment code, are within the caller's cap, and
  -- pass the amount gate and the blocklist of the policy as the ledger stood.
  pub fetch-IsAllowed :
      (ext int url : Text) (max_sats : ℕ) (w : World)
      → ((fetch ext int url max_sats w).1 ≡ w) ⊎ IsAllowed url max_sats w
  unfolding fetch
  fetch-IsAllowed ext int url max_sats w = elim (Bool-cases (is_web_url url)) [
    | inl web_url ↦ rw web_url (
        bind_cases (Outcome url max_sats w) (lift (web.http_get 0 url none)) _ w
          (λ first asked. on_first-Outcome ext int url max_sats first w asked)
          (λ e failed. inl refl))
    | inr strange ↦ rw strange (inl refl)
  ]
