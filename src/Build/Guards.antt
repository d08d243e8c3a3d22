-- ===== src/Build/Guards.antt =====
-- The guards of the builders of chain.rs.
use computermoney.Prelude.{
  ℕ, Text, Option, none, some, List, map, length, ◌++◌, [], ◌∷◌, ◌≡◌, refl, subst, arith,
}
use computermoney.Policy.{Policy, pass, Verdict, refuse, ensure_mainnet_capped}
use computermoney.Policy.Gates.{Within}
use computermoney.Result.{Result, ok, err, Exec, pure, lift, gate, ◌>>=◌}
use computermoney.Result.Success.{bind-eq-ok}
use computermoney.Storage.{Host, network}
use computermoney.Ledger.Balances.{SpUtxo}
use computermoney.Build.{
  Bdk, Draft, fee_gate, finalized_gate, recommended_feerate, master_xprv_from_descriptor,
  mainnet_guard, synced_wallet, finish_capped, build_signed, default_options,
}
use computermoney.Build.Mixed.{
  add_foreign, tweaks_of, sp_inputs_of, add_own, own_inputs_of, sign_mixed, build_signed_to_sp,
  build_with_sp, build_signed_spending_sp, selection, sp_total,
}
use computermoney.Build.Selection.{select_largest_first}

-- What holds of a result, if it is one.
abbrev pub OnOk : {A : Type 0} → (A → Type 0) → Result A → Type 0
OnOk P (ok a) = P a
OnOk P (err e) = Unit

OnOk_of_eq : {A : Type 0} (P : A → Type 0) (r : Result A) → ((a : A) → r ≡ ok a → P a) → OnOk P r
OnOk_of_eq P (ok a) f = f a refl
OnOk_of_eq P (err e) f = tt

-- The policy that was loaded lets a build pass, and the fee respects its cap.
abbrev pub Guarded : ⦃h : Host⦄ → Option ℕ → ℕ → Type 0
Guarded ⦃h⦄ max_fee fee =
    ((p : Policy) × (h.load_policy ≡ ok p) × (ensure_mainnet_capped network p ≡ pass))
    × Within max_fee fee

pub gate-eq-ok : {S : Type 0} (v : Verdict) (s : S) {a : Unit {0}} → (gate v s).0 ≡ ok a → v ≡ pass
gate-eq-ok pass s e = refl
gate-eq-ok (refuse x) s e = absurd (cc)

module _ ⦃h : Host⦄ ⦃b : Bdk⦄ {S : Type 0} where
  mainnet_guard-eq-ok :
      (s : S) (a : Unit {0})
      → (mainnet_guard s).0 ≡ ok a
      → (p : Policy) × (h.load_policy ≡ ok p) × (ensure_mainnet_capped network p ≡ pass)
  unfolding mainnet_guard
  mainnet_guard-eq-ok s a e =
      let (p, loaded, gated, _) =
        bind-eq-ok (lift h.load_policy) (λ policy. gate (ensure_mainnet_capped network policy)) s
          e in
      (p, loaded, gate-eq-ok (ensure_mainnet_capped network p) s gated)

  finish_capped-eq-ok :
      (w : b.Wallet) (d : Draft) (o : Option ℕ) (s : S) (r : b.Psbt × ℕ)
      → (finish_capped w d o s).0 ≡ ok r
      → Within o r.1
  unfolding finish_capped fee_gate
  finish_capped-eq-ok w d none s r e = tt
  finish_capped-eq-ok w d (some cap) s r e = ground arith

  -- What holds of each result of an action.
  record Ends {A : Type 0} (P : A → Type 0) (m : Exec S A) : Type 0 where
    pub run : (s : S) → OnOk P (m s).0

  Ends-pure : {A : Type 0} {P : A → Type 0} (a : A) → P a → Ends P (pure a)
  Ends-pure a h = record { run = λ s. h }

  Ends-bind :
      {A B : Type 0} {P : B → Type 0} (m : Exec S A) (f : A → Exec S B)
      → ((s : S) (a : A) → (m s).0 ≡ ok a → Ends P (f a))
      → Ends P (m >>= f)
  Ends-bind {P = P} m f k = record {
    run = λ s. OnOk_of_eq P _ λ r e.
        let (a, done, more, _) = bind-eq-ok m f s e in
        subst (λ o. OnOk P o) more ((k s a done).run (m s).1);
  }

  build_signed-Ends :
      (ext int to : Text) (sats : ℕ) (o : Option ℕ)
      → Ends (λ r. Guarded o r.1) (build_signed ext int to sats o)
  unfolding build_signed
  build_signed-Ends ext int to sats o = Ends-bind mainnet_guard _ λ s a guard.
      Ends-bind (synced_wallet ext int) _ λ _ w _.
        Ends-bind (lift (b.script_of network to)) _ λ _ recipient _.
          Ends-bind (lift recommended_feerate) _ λ _ feerate _.
            Ends-bind (finish_capped w _ o) _ λ s' f capped.
              Ends-bind (lift (b.sign w default_options f.0)) _ λ _ signed _.
                Ends-bind (finalized_gate signed.1) _ λ _ _ _.
                  Ends-bind (lift (b.extract_tx signed.0)) _ λ _ tx _.
                    Ends-pure (tx, f.1)
                      (mainnet_guard-eq-ok s a guard, finish_capped-eq-ok w _ o s' f capped)

  build_with_sp-Ends :
      (ext int to : Text) (sats : ℕ) (o : Option ℕ) (us : List SpUtxo) (sk : Text)
      → Ends (λ r. Guarded o r.1.0) (build_with_sp ext int to sats o us sk)
  unfolding build_with_sp
  build_with_sp-Ends ext int to sats o us sk = Ends-bind mainnet_guard _ λ s a guard.
      Ends-bind (synced_wallet ext int) _ λ _ w _.
        Ends-bind (lift (b.script_of network to)) _ λ _ recipient _.
          Ends-bind (lift recommended_feerate) _ λ _ feerate _.
            Ends-bind (add_foreign w sk us) _ λ _ foreign _.
              Ends-bind (tweaks_of sk us) _ λ _ ops _.
                Ends-bind (finish_capped w _ o) _ λ s' f capped.
                  Ends-bind (sign_mixed w f.0 ops sk) _ λ _ tx _.
                    Ends-pure (tx, (f.1, map (λ i. i.0) ops))
                      (mainnet_guard-eq-ok s a guard, finish_capped-eq-ok w _ o s' f capped)

  build_signed_spending_sp-Ends :
      (ext int to : Text) (sats : ℕ) (o : Option ℕ) (us : List SpUtxo) (sk : Text)
      → Ends (λ r. Guarded o r.1.0) (build_signed_spending_sp ext int to sats o us sk)
  unfolding build_signed_spending_sp
  build_signed_spending_sp-Ends ext int to sats o [] sk =
      Ends-bind (build_signed ext int to sats o) _ λ s t built.
        Ends-pure (t.0, (t.1, []))
          (subst (λ r. OnOk (λ q. Guarded o q.1) r) built
            ((build_signed-Ends ext int to sats o).run s))
  build_signed_spending_sp-Ends ext int to sats o (u ∷ us) sk =
      build_with_sp-Ends ext int to sats o (u ∷ us) sk

  build_signed_to_sp-Ends :
      (ext int scan spend : Text) (sats : ℕ) (o : Option ℕ) (us : List SpUtxo) (sk : Text)
      → Ends (λ r. Guarded o r.1.0) (build_signed_to_sp ext int scan spend sats o us sk)
  unfolding build_signed_to_sp
  build_signed_to_sp-Ends ext int scan spend sats o us sk = Ends-bind mainnet_guard _ λ s a guard.
      Ends-bind (synced_wallet ext int) _ λ _ w _.
        Ends-bind (lift recommended_feerate) _ λ _ feerate _.
          Ends-bind (tweaks_of sk us) _ λ _ ops _. Ends-bind (sp_inputs_of sk us) _ λ _ ins _.
            Ends-bind
              (lift (
                selection (
                  select_largest_first (b.list_unspent w) sats feerate (sp_total us 0)
                    (length us))))
              _
              λ _ own _. Ends-bind (lift (master_xprv_from_descriptor ext)) _ λ _ m _.
                Ends-bind (own_inputs_of m own) _ λ _ mine _.
                  Ends-bind (lift (b.send_address (ins ++ mine) scan spend network)) _ λ _ r _.
                    Ends-bind (add_own w own) _ λ _ utxos _.
                      Ends-bind (add_foreign w sk us) _ λ _ foreign _.
                        Ends-bind (finish_capped w _ o) _ λ s' f capped.
                          Ends-bind (sign_mixed w f.0 ops sk) _ λ _ tx _.
                            Ends-pure (tx, (f.1, (r, map (λ i. i.0) ops)))
                              (mainnet_guard-eq-ok s a guard, finish_capped-eq-ok w _ o s' f capped)

  -- Each of the three builders (a payment to an address, one that also spends received silent
  -- payments, and a silent payment) gives a transaction only under a policy that was loaded and
  -- passes the mainnet guard, and only with a fee within the cap that the caller set.
  pub builders-Guarded :
      (ext int to scan spend : Text) (sats : ℕ) (max_fee : Option ℕ) (us : List SpUtxo) (sk : Text)
      (s : S)
      → OnOk (λ r. Guarded max_fee r.1) (build_signed ext int to sats max_fee s).0
        × OnOk
            (λ r. Guarded max_fee r.1.0)
            (build_signed_spending_sp ext int to sats max_fee us sk s).0
        × OnOk
            (λ r. Guarded max_fee r.1.0)
            (build_signed_to_sp ext int scan spend sats max_fee us sk s).0
  builders-Guarded ext int to scan spend sats max_fee us sk s = (
    (build_signed-Ends ext int to sats max_fee).run s,
    (build_signed_spending_sp-Ends ext int to sats max_fee us sk).run s,
    (build_signed_to_sp-Ends ext int scan spend sats max_fee us sk).run s,
  )
