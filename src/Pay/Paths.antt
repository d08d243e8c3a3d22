-- ===== src/Pay/Paths.antt =====
-- What the three send paths of pay.rs have in common: nothing changes before the booking.
use computermoney.Prelude.{ℕ, Text, Option, List, arith}
use computermoney.Result.{lift}
use computermoney.Result.Still.{Still, Still-lift, after_still}
use computermoney.Policy.{Network, check_address}
use computermoney.Storage.{Host}
use computermoney.Chain.{Esplora}
use computermoney.Ledger.Platform.{Platform}
use computermoney.Ledger.Store.{World}
use computermoney.Ledger.Balances.{SpUtxo, sp_utxos}
use computermoney.Build.{OutPoint, Bdk, build_signed}
use computermoney.Build.Mixed.{build_signed_to_sp, build_signed_spending_sp}
use computermoney.Build.Still.{
  build_signed-Still, build_signed_to_sp-Still, build_signed_spending_sp-Still,
}
use computermoney.Pay.{
  Payer, min_gate, network_gate, address_gate, book_and_broadcast, book_and_mark, send, sp_send,
  send_spending_sp,
}

min_gate-Still : {S : Type 0} (n : ℕ) → Still {S = S} (min_gate n)
unfolding min_gate
min_gate-Still n = record { run = λ s. ground arith }

network_gate-Still : ⦃h : Host⦄ {S : Type 0} (n : Network) → Still {S = S} (network_gate n)
unfolding network_gate
network_gate-Still n = record { run = λ s. ground arith }

address_gate-Still : ⦃h : Host⦄ {S : Type 0} (t : Text) → Still {S = S} (address_gate t)
unfolding address_gate check_address
address_gate-Still t = record { run = λ s. ground arith }

module _ ⦃h : Host⦄ ⦃p : Platform⦄ ⦃c : Esplora⦄ ⦃b : Bdk⦄ ⦃y : Payer⦄ where
  -- What holds before a send, and after the booking that it comes to, holds after it.
  pub send_from :
      (Q : World → Type 0) (ext int to : Text) (sats : ℕ) (max_fee : Option ℕ) (w : World)
      → Q w
      → ((tx : Text) → Q (book_and_broadcast to sats tx w).1)
      → Q (send ext int to sats max_fee w).1
  unfolding send
  send_from Q ext int to sats max_fee w start booked =
      after_still Q (build_signed ext int to sats max_fee) _ w
        (build_signed-Still ext int to sats max_fee) start λ t. booked t.0

  pub send_spending_sp_from :
      (Q : World → Type 0) (ext int to : Text) (sats : ℕ) (max_fee : Option ℕ) (w : World)
      → Q w
      → ((tx : Text) (ops : List OutPoint) → Q (book_and_mark to sats tx ops w).1)
      → Q (send_spending_sp ext int to sats max_fee w).1
  unfolding send_spending_sp
  send_spending_sp_from Q ext int to sats max_fee w start booked =
      let us : List SpUtxo = sp_utxos w.ledger.entries in
      after_still Q (lift y.sp_spend_keypair) _ w (Still-lift _) start λ sk.
        after_still Q (build_signed_spending_sp ext int to sats max_fee us sk) _ w
          (build_signed_spending_sp-Still ext int to sats max_fee us sk) start λ t. booked t.0 t.1.1

  pub sp_send_from :
      (Q : World → Type 0) (ext int code : Text) (sats : ℕ) (max_fee : Option ℕ) (w : World)
      → Q w
      → ((tx : Text) (ops : List OutPoint) → Q (book_and_mark code sats tx ops w).1)
      → Q (sp_send ext int code sats max_fee w).1
  unfolding sp_send
  sp_send_from Q ext int code sats max_fee w start booked =
      let us : List SpUtxo = sp_utxos w.ledger.entries in
      after_still Q (min_gate sats) _ w (min_gate-Still sats) start λ _.
        after_still Q (lift (y.decode code)) _ w (Still-lift _) start λ keys.
          after_still Q (network_gate keys.1.1) _ w (network_gate-Still keys.1.1) start λ _.
            after_still Q (lift y.sp_spend_keypair) _ w (Still-lift _) start λ sk.
              after_still Q (build_signed_to_sp ext int keys.0 keys.1.0 sats max_fee us sk) _ w
                (build_signed_to_sp-Still ext int keys.0 keys.1.0 sats max_fee us sk) start
                λ t.
                  after_still Q (address_gate (y.address_text t.1.1.0)) _ w (address_gate-Still _)
                    start λ _. booked t.0 t.1.1.1
