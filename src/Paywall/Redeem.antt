-- ===== src/Paywall/Redeem.antt =====
-- What a payment buys at the endpoint of paywall.rs.
use computermoney.Prelude.{
  ℕ, ◌≤◌, Text, codes, text_eq, text_eq_refl, contains, true, false, Option, none, some, List, [],
  ◌∷◌, ◌≡◌, refl, sym, ap, ◌∙◌, inl, inr, arith, Bool-cases, map, length, to_lower,
}
use computermoney.Result.{Result, ok, err}
use computermoney.Matching.{ScanHost, tx_pays_me}
use computermoney.Paywall.{
  Offer, paid, parse_request, is_hexdigit, all_hexdigit, is_txid, judge, verify_payment, check_paid,
  respond, handle, run,
}

true_ne_false : ¬ (true ≡ false)
true_ne_false e = ground arith

some_inj : {A : Type 0} {x y : A} → some x ≡ some y → x ≡ y
some_inj e = cc

length-map-to_lower : (s : Text) → length (map to_lower s) ≡ length s
length-map-to_lower [] = refl
length-map-to_lower (c ∷ cs) = omega (arith, length-map-to_lower cs)

is_hexdigit-to_lower : (c : ℕ) → is_hexdigit (to_lower c) ≡ is_hexdigit c
unfolding is_hexdigit to_lower
is_hexdigit-to_lower c = ground arith

all_hexdigit-map-to_lower : (s : Text) → all_hexdigit (map to_lower s) ≡ all_hexdigit s
unfolding all_hexdigit
all_hexdigit-map-to_lower [] = refl
all_hexdigit-map-to_lower (c ∷ cs) = rw (is_hexdigit-to_lower c, all_hexdigit-map-to_lower cs) refl

is_txid-map-to_lower : (s : Text) → is_txid (map to_lower s) ≡ is_txid s
unfolding is_txid
is_txid-map-to_lower s = rw (length-map-to_lower s, all_hexdigit-map-to_lower s) refl

is_txid-caseless : (t t' : Text) → map to_lower t ≡ map to_lower t' → is_txid t ≡ is_txid t'
is_txid-caseless t t' e = sym (is_txid-map-to_lower t) ∙ ap is_txid e ∙ is_txid-map-to_lower t'

module _ ⦃s : ScanHost⦄ where
  marked :
      (price sats : ℕ) (txid : Text) (used : List Text)
      → price ≤ sats
      → contains txid (judge price txid used (ok sats)).1 ≡ true
  unfolding judge contains
  marked price sats txid used enough = ground (arith, text_eq_refl txid)

  redeemed :
      (price : ℕ) (txid : Text) (used : List Text)
      → contains txid used ≡ true
      → verify_payment price txid used ≡ (false, used)
  unfolding verify_payment
  redeemed price txid used h = rw h refl

  judge-true :
      (price : ℕ) (txid : Text) (used : List Text) (r : Result ℕ)
      → (judge price txid used r).0 ≡ true
      → (sats : ℕ) × (r ≡ ok sats) × (price ≤ sats)
  unfolding judge
  judge-true price txid used (err e) h = absurd (cc)
  judge-true price txid used (ok sats) h = (sats, refl, ground arith)

  verify_payment-keeps :
      (price : ℕ) (txid : Text) (used : List Text) (t : Text)
      → contains t used ≡ true
      → contains t (verify_payment price txid used).1 ≡ true
  unfolding verify_payment judge contains
  verify_payment-keeps price txid used t h = ground arith

  check_paid-keeps :
      (price : ℕ) (payment : Option Text) (used : List Text) (t : Text)
      → contains t used ≡ true
      → contains t (check_paid price payment used).1 ≡ true
  unfolding check_paid
  check_paid-keeps price none used t h = h
  check_paid-keeps price (some txid) used t h =
      ground (arith, verify_payment-keeps price txid used t h)

  handle-keeps :
      (offer : Offer) (raw : Text) (used : List Text) (t : Text)
      → contains t used ≡ true
      → contains t (handle offer raw used).1 ≡ true
  unfolding handle
  handle-keeps offer raw used t h =
      ground (arith, check_paid-keeps offer.price_sats (parse_request raw).payment used t h)

  run-keeps :
      (offer : Offer) (raws used : List Text) (t : Text)
      → contains t used ≡ true
      → contains t (run offer raws used).1 ≡ true
  unfolding run
  run-keeps offer [] used t h = h
  run-keeps offer (raw ∷ raws) used t h =
      run-keeps offer raws (handle offer raw used).1 t (handle-keeps offer raw used t h)

  verify_payment-true :
      (price : ℕ) (txid : Text) (used : List Text)
      → (verify_payment price txid used).0 ≡ true
      → (sats : ℕ) × (tx_pays_me txid ≡ ok sats)
        × (price ≤ sats)
        × (contains txid used ≡ false)
        × (contains txid (verify_payment price txid used).1 ≡ true)
  unfolding verify_payment
  verify_payment-true price txid used h = elim (Bool-cases (contains txid used)) [
    | inl old ↦ absurd (true_ne_false (sym h ∙ rw (old, verify_payment) refl))
    | inr new ↦
        let (sats, pays, enough) =
          judge-true price txid used (tx_pays_me txid) (rw (new, verify_payment) at h) in
        (
          sats,
          pays,
          enough,
          new,
          rw (new, verify_payment) (rw pays (marked price sats txid used enough)),
        )
  ]

  check_paid-true :
      (price : ℕ) (payment : Option Text) (used : List Text)
      → (check_paid price payment used).0 ≡ true
      → (txid : Text) × (payment ≡ some txid)
        × (is_txid txid ≡ true)
        × ((verify_payment price txid used).0 ≡ true)
        × (check_paid price payment used ≡ verify_payment price txid used)
  unfolding check_paid
  check_paid-true price none used h = absurd (true_ne_false (sym h))
  check_paid-true price (some txid) used h = elim (Bool-cases (is_txid txid)) [
    | inl good ↦ (txid, refl, good, rw good at h, rw good refl)
    | inr bad ↦ absurd (true_ne_false (sym h ∙ rw bad refl))
  ]

  handle-paid :
      (offer : Offer) (raw : Text) (used : List Text)
      → (handle offer raw used).0 ≡ paid offer.body
      → (text_eq (parse_request raw).method (codes "GET") ≡ true)
        × ((check_paid offer.price_sats (parse_request raw).payment used).0 ≡ true)
        × ((handle offer raw used).1
            ≡ (check_paid offer.price_sats (parse_request raw).payment used).1)
  unfolding handle respond
  handle-paid offer raw used h = (ground arith, ground arith, ground arith)

  -- A request is answered with the body only if it is a GET whose payment is a txid, not redeemed
  -- before, of a transaction that pays the price or more; from then on, whatever requests come,
  -- that txid, spelt so, buys nothing.
  pub paid_once :
      (offer : Offer) (raw : Text) (used : List Text)
      → (handle offer raw used).0 ≡ paid offer.body
      → (text_eq (parse_request raw).method (codes "GET") ≡ true)
        × (txid : Text) × (sats : ℕ) × ((parse_request raw).payment ≡ some txid)
        × (is_txid txid ≡ true)
        × (tx_pays_me txid ≡ ok sats)
        × (offer.price_sats ≤ sats)
        × (contains txid used ≡ false)
        × ((raws : List Text)
            → let used' = (run offer raws (handle offer raw used).1).1 in
              verify_payment offer.price_sats txid used' ≡ (false, used'))
  paid_once offer raw used h =
      let price : ℕ = offer.price_sats in
      let (get, accepted, next) = handle-paid offer raw used h in
      let (txid, names, good, verified, same) =
        check_paid-true price (parse_request raw).payment used accepted in
      let (sats, pays, enough, new, marked) = verify_payment-true price txid used verified in
      let now : contains txid (handle offer raw used).1 ≡ true =
        ap (contains txid) (next ∙ ap (λ v. v.1) same) ∙ marked in
      (
        get,
        txid,
        sats,
        names,
        good,
        pays,
        enough,
        new,
        λ raws.
            redeemed price txid (run offer raws (handle offer raw used).1).1
              (run-keeps offer raws (handle offer raw used).1 txid now),
      )

  -- The server finds a transaction whichever digits of its txid are capital.
  abbrev pub IsCaseless : Type 0
  IsCaseless = (t t' : Text) → map to_lower t ≡ map to_lower t' → s.get_tx t ≡ s.get_tx t'

  tx_pays_me-caseless : (t t' : Text) → s.get_tx t' ≡ s.get_tx t → tx_pays_me t' ≡ tx_pays_me t
  unfolding tx_pays_me
  tx_pays_me-caseless t t' same = rw same refl

  verify_payment-new :
      (price sats : ℕ) (txid : Text) (used : List Text)
      → contains txid used ≡ false
      → tx_pays_me txid ≡ ok sats
      → price ≤ sats
      → verify_payment price txid used ≡ (true, txid ∷ used)
  unfolding verify_payment judge
  verify_payment-new price sats txid used new pays enough = ground arith

  handle-get :
      (offer : Offer) (raw txid : Text) (used used' : List Text)
      → text_eq (parse_request raw).method (codes "GET") ≡ true
      → (parse_request raw).payment ≡ some txid
      → is_txid txid ≡ true
      → verify_payment offer.price_sats txid used ≡ (true, used')
      → handle offer raw used ≡ (paid offer.body, used')
  unfolding handle respond check_paid
  handle-get offer raw txid used used' get names good verified =
      rw (get, names, good, verified) refl

  -- The set of redeemed txids goes by their text. Where the server finds a transaction whichever
  -- digits of its txid are capital, a request that was answered with the body may be followed by one
  -- that names the same txid in another spelling, not redeemed so far, and that one is answered with
  -- the body as well.
  pub spellings_redeemed_each :
      (offer : Offer) (raw raw' t t' : Text) (used : List Text)
      → IsCaseless
      → (handle offer raw used).0 ≡ paid offer.body
      → (parse_request raw).payment ≡ some t
      → text_eq (parse_request raw').method (codes "GET") ≡ true
      → (parse_request raw').payment ≡ some t'
      → map to_lower t' ≡ map to_lower t
      → text_eq t t' ≡ false
      → contains t' used ≡ false
      → handle offer raw' (handle offer raw used).1 ≡ (paid offer.body, t' ∷ t ∷ used)
  spellings_redeemed_each offer raw raw' t t' used caseless first names get names' spelt differ
        new =
      let price : ℕ = offer.price_sats in
      let (_, accepted, next) = handle-paid offer raw used first in
      let (txid, named, good, verified, same) =
        check_paid-true price (parse_request raw).payment used accepted in
      let (sats, pays, enough, fresh, _) = verify_payment-true price txid used verified in
      let alike : txid ≡ t = some_inj (sym named ∙ names) in
      let left : (handle offer raw used).1 ≡ t ∷ used =
        next
        ∙ ap (λ v. v.1) (same ∙ verify_payment-new price sats txid used fresh pays enough)
        ∙ ap (λ x. x ∷ used) alike in
      let pays' : tx_pays_me t' ≡ ok sats =
        tx_pays_me-caseless t t' (caseless t' t spelt) ∙ ap tx_pays_me (sym alike) ∙ pays in
      let good' : is_txid t' ≡ true = is_txid-caseless t' t spelt ∙ ap is_txid (sym alike) ∙ good in
      let unused : contains t' (t ∷ used) ≡ false = unfold contains in rw (differ, new) refl in
      rw left (
        handle-get offer raw' t' (t ∷ used) (t' ∷ t ∷ used) get names' good'
          (verify_payment-new price sats t' (t ∷ used) unused pays' enough))
