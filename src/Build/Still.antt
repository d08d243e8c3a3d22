-- ===== src/Build/Still.antt =====
-- The state that the builders of chain.rs run on.
use computermoney.Prelude.{ℕ, Text, Option, List, map, length, ◌++◌, [], ◌∷◌, refl, arith}
use computermoney.Policy.{ensure_mainnet_capped}
use computermoney.Result.{lift}
use computermoney.Result.Still.{Still, Still-pure, Still-lift, Still-bind}
use computermoney.Storage.{Host, network}
use computermoney.Ledger.Balances.{SpUtxo}
use computermoney.Build.{
  Bdk, Draft, Utxo, OutPoint, fee_gate, finalized_gate, recommended_feerate,
  master_xprv_from_descriptor, mainnet_guard, build_wallet, synced_wallet, finish_capped,
  build_signed,
}
use computermoney.Build.Mixed.{
  sp_input, add_foreign, tweaks_of, sp_inputs_of, add_own, own_inputs_of, sign_mixed,
  build_signed_to_sp, build_with_sp, build_signed_spending_sp, selection, sp_total,
}
use computermoney.Build.Selection.{select_largest_first}

module _ ⦃h : Host⦄ ⦃b : Bdk⦄ {S : Type 0} where
  mainnet_guard-Still : Still {S = S} mainnet_guard
  unfolding mainnet_guard ensure_mainnet_capped
  mainnet_guard-Still = record { run = λ s. ground arith }

  synced_wallet-Still : (ext int : Text) → Still {S = S} (synced_wallet ext int)
  unfolding synced_wallet build_wallet
  synced_wallet-Still ext int = record { run = λ s. ground arith }

  finish_capped-Still :
      (w : b.Wallet) (d : Draft) (o : Option ℕ) → Still {S = S} (finish_capped w d o)
  unfolding finish_capped fee_gate
  finish_capped-Still w d o = record { run = λ s. ground arith }

  pub build_signed-Still :
      (ext int to : Text) (sats : ℕ) (o : Option ℕ) → Still {S = S} (build_signed ext int to sats o)
  unfolding build_signed finalized_gate mainnet_guard synced_wallet build_wallet finish_capped
      fee_gate
  build_signed-Still ext int to sats o = record { run = λ s. ground arith }

  sp_input-Still : (sk : Text) (u : SpUtxo) → Still {S = S} (sp_input sk u)
  unfolding sp_input
  sp_input-Still sk u = record { run = λ s. ground arith }

  add_foreign-Still :
      (w : b.Wallet) (sk : Text) (us : List SpUtxo) → Still {S = S} (add_foreign w sk us)
  unfolding add_foreign sp_input
  add_foreign-Still w sk [] = record { run = λ s. refl }
  add_foreign-Still w sk (u ∷ us) = record {
    run = λ s. ground (arith, (add_foreign-Still w sk us).run s);
  }

  tweaks_of-Still : (sk : Text) (us : List SpUtxo) → Still {S = S} (tweaks_of sk us)
  unfolding tweaks_of sp_input
  tweaks_of-Still sk [] = record { run = λ s. refl }
  tweaks_of-Still sk (u ∷ us) = record { run = λ s. ground (arith, (tweaks_of-Still sk us).run s) }

  sp_inputs_of-Still : (sk : Text) (us : List SpUtxo) → Still {S = S} (sp_inputs_of sk us)
  unfolding sp_inputs_of sp_input
  sp_inputs_of-Still sk [] = record { run = λ s. refl }
  sp_inputs_of-Still sk (u ∷ us) = record {
    run = λ s. ground (arith, (sp_inputs_of-Still sk us).run s);
  }

  add_own-Still : (w : b.Wallet) (us : List Utxo) → Still {S = S} (add_own w us)
  unfolding add_own
  add_own-Still w [] = record { run = λ s. refl }
  add_own-Still w (u ∷ us) = record { run = λ s. ground (arith, (add_own-Still w us).run s) }

  own_inputs_of-Still : (m : Text) (us : List Utxo) → Still {S = S} (own_inputs_of m us)
  unfolding own_inputs_of
  own_inputs_of-Still m [] = record { run = λ s. refl }
  own_inputs_of-Still m (u ∷ us) = record {
    run = λ s. ground (arith, (own_inputs_of-Still m us).run s);
  }

  sign_mixed-Still :
      (w : b.Wallet) (psbt : b.Psbt) (ops : List (OutPoint × Text)) (sk : Text)
      → Still {S = S} (sign_mixed w psbt ops sk)
  unfolding sign_mixed
  sign_mixed-Still w psbt ops sk = record { run = λ s. ground arith }

  pub build_with_sp-Still :
      (ext int to : Text) (sats : ℕ) (o : Option ℕ) (us : List SpUtxo) (sk : Text)
      → Still {S = S} (build_with_sp ext int to sats o us sk)
  unfolding build_with_sp
  build_with_sp-Still ext int to sats o us sk = Still-bind mainnet_guard _ mainnet_guard-Still λ _.
      Still-bind (synced_wallet ext int) _ (synced_wallet-Still ext int) λ w.
        Still-bind (lift (b.script_of network to)) _ (Still-lift _) λ recipient.
          Still-bind (lift recommended_feerate) _ (Still-lift _) λ feerate.
            Still-bind (add_foreign w sk us) _ (add_foreign-Still w sk us) λ foreign.
              Still-bind (tweaks_of sk us) _ (tweaks_of-Still sk us) λ ops.
                Still-bind (finish_capped w _ o) _ (finish_capped-Still w _ o) λ f.
                  Still-bind (sign_mixed w f.0 ops sk) _ (sign_mixed-Still w f.0 ops sk)
                    λ tx. Still-pure (tx, (f.1, map (λ i. i.0) ops))

  pub build_signed_spending_sp-Still :
      (ext int to : Text) (sats : ℕ) (o : Option ℕ) (us : List SpUtxo) (sk : Text)
      → Still {S = S} (build_signed_spending_sp ext int to sats o us sk)
  unfolding build_signed_spending_sp
  build_signed_spending_sp-Still ext int to sats o [] sk =
      Still-bind (build_signed ext int to sats o) _ (build_signed-Still ext int to sats o)
        λ t. Still-pure (t.0, (t.1, []))
  build_signed_spending_sp-Still ext int to sats o (u ∷ us) sk =
      build_with_sp-Still ext int to sats o (u ∷ us) sk

  pub build_signed_to_sp-Still :
      (ext int scan spend : Text) (sats : ℕ) (o : Option ℕ) (us : List SpUtxo) (sk : Text)
      → Still {S = S} (build_signed_to_sp ext int scan spend sats o us sk)
  unfolding build_signed_to_sp
  build_signed_to_sp-Still ext int scan spend sats o us sk =
      Still-bind mainnet_guard _ mainnet_guard-Still λ _.
        Still-bind (synced_wallet ext int) _ (synced_wallet-Still ext int) λ w.
          Still-bind (lift recommended_feerate) _ (Still-lift _) λ feerate.
            Still-bind (tweaks_of sk us) _ (tweaks_of-Still sk us) λ ops.
              Still-bind (sp_inputs_of sk us) _ (sp_inputs_of-Still sk us) λ ins.
                Still-bind
                  (lift (
                    selection (
                      select_largest_first (b.list_unspent w) sats feerate (sp_total us 0)
                        (length us))))
                  _ (Still-lift _)
                  λ own. Still-bind (lift (master_xprv_from_descriptor ext)) _ (Still-lift _) λ m.
                    Still-bind (own_inputs_of m own) _ (own_inputs_of-Still m own) λ mine.
                      Still-bind (lift (b.send_address (ins ++ mine) scan spend network)) _
                        (Still-lift _)
                        λ r. Still-bind (add_own w own) _ (add_own-Still w own) λ utxos.
                          Still-bind (add_foreign w sk us) _ (add_foreign-Still w sk us) λ foreign.
                            Still-bind (finish_capped w _ o) _ (finish_capped-Still w _ o) λ f.
                              Still-bind (sign_mixed w f.0 ops sk) _ (sign_mixed-Still w f.0 ops sk)
                                λ tx. Still-pure (tx, (f.1, (r, map (λ i. i.0) ops)))
