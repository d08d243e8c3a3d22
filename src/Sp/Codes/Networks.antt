-- ===== src/Sp/Codes/Networks.antt =====
-- Which network a code of sp.rs names, and what pay.rs makes of it.
use computermoney.Prelude.{
  ℕ, Text, codes, trim, length, length-append, take, drop, take-length-append, drop-length-append,
  true, false, Option, some, ◌++◌, ◌==◌, ◌≡◌, refl, sym, ap, ◌∙◌, subst, inl, inr, arith,
  if◌then◌else◌, text_eq, ltb, ◌⊎◌, Option-cases, Bool-cases,
}
use computermoney.Policy.{Network, bitcoin, testnet, signet, is_mainnet}
use computermoney.Result.{Error, other, ok, err}
use computermoney.Result.Success.{try_then-eq-ok, Result-cases, ok_inj, ok_ne_err}
use computermoney.Storage.{Host, network}
use computermoney.Chain.{Esplora}
use computermoney.Ledger.Platform.{Platform}
use computermoney.Ledger.Store.{World}
use computermoney.Build.{Bdk}
use computermoney.Pay.{Payer, network_eq, network_gate, min_gate, sp_min_sats, sp_send}
use computermoney.Sp.{Curve}
use computermoney.Sp.Codes.{
  Encoding, hrp_str, network_of_hrp, payload_of, encode, points_of, decode,
}

-- A code of mainnet is read as one of mainnet, and any other as one of signet.
unfoldable pub named : Network → Network
unfolding is_mainnet
named net = if is_mainnet net then bitcoin else signet

-- What bech32 and secp256k1 document: a text that was made is read back, and is trimmed already; a
-- point, compressed, has 33 bytes and is read back.
pub record IsEncoding ⦃c : Curve⦄ ⦃e : Encoding⦄ : Type 1 where
  pub IsPoint : Text → Type 0
  pub read_back :
      (hrp bytes : Text) → e.checked (trim (e.chars hrp 0 bytes)) ≡ some (hrp, some (0, bytes))
  pub size : (p : Text) → IsPoint p → length (c.serialize p) ≡ 33
  pub point_back : (p : Text) → IsPoint p → e.from_slice (c.serialize p) ≡ ok p

module _ ⦃c : Curve⦄ ⦃e : Encoding⦄ where
  network_of_hrp-hrp_str : (net : Network) → network_of_hrp (hrp_str net) ≡ ok (named net)
  unfolding network_of_hrp hrp_str named is_mainnet text_eq
  network_of_hrp-hrp_str bitcoin = refl
  network_of_hrp-hrp_str testnet = refl
  network_of_hrp-hrp_str signet = refl

  -- A code gives back the two points that it was made of; and the network mainnet for one of mainnet, and
  -- signet for any other.
  pub decode-encode_named :
      (laws : IsEncoding) (scan spend : Text) (net : Network)
      → laws.IsPoint scan
      → laws.IsPoint spend
      → decode (encode scan spend net) ≡ ok (scan, (spend, named net))
  unfolding decode encode payload_of points_of
  decode-encode_named laws scan spend net hs hp =
      let a = c.serialize scan in
      let b = c.serialize spend in
      let whole : (length (a ++ b) == 66) ≡ true =
        ground (arith, length-append a b, laws.size scan hs, laws.size spend hp) in
      let first : take 33 (a ++ b) ≡ a =
        subst (λ n. take n (a ++ b) ≡ a) (laws.size scan hs) (take-length-append a b) in
      let second : drop 33 (a ++ b) ≡ b =
        subst (λ n. drop n (a ++ b) ≡ b) (laws.size scan hs) (drop-length-append a b) in
      rw (laws.read_back (hrp_str net) (a ++ b), decode)
        (rw (network_of_hrp-hrp_str net) (
          rw whole
            (rw (first, second) (rw (laws.point_back scan hs, laws.point_back spend hp) refl))))

  network_of_hrp-not_testnet :
      (hrp : Text) (net : Network) → network_of_hrp hrp ≡ ok net → network_eq net testnet ≡ false
  unfolding network_of_hrp network_eq
  network_of_hrp-not_testnet hrp net h = elim (Bool-cases (text_eq hrp (codes "sp"))) [
    | inl mainnet ↦ ground arith
    | inr neither ↦ ground arith
  ]

  points_of-network :
      (bytes : Text) (net : Network) (r : Text × (Text × Network))
      → points_of bytes net ≡ ok r
      → net ≡ r.1.1
  unfolding points_of
  points_of-network bytes net r h =
      let (scan, _, rest) = try_then-eq-ok (e.from_slice (take 33 bytes)) _ h in
      let (spend, _, same) = try_then-eq-ok (e.from_slice (drop 33 bytes)) _ rest in
      ap (λ x. x.1.1) (ok_inj _ _ same)

  decode-not_testnet :
      (code : Text) (r : Text × (Text × Network))
      → decode code ≡ ok r
      → network_eq r.1.1 testnet ≡ false
  unfolding decode
  decode-not_testnet code r h = elim (Option-cases (e.checked (trim code))) [
    | inl bad ↦ absurd (ok_ne_err _ _ (rw (bad, decode) at h))
    | inr ((hrp, payload), good) ↦
        let (net, known, rest) = try_then-eq-ok (network_of_hrp hrp) _ (rw (good, decode) at h) in
        let (bytes, _, points) = try_then-eq-ok (payload_of payload) _ rest in
        subst (λ n. network_eq n testnet ≡ false) (points_of-network bytes net r points)
          (network_of_hrp-not_testnet hrp net known)
  ]

  min_gate-cases :
      (sats : ℕ) (w : World)
      → (min_gate sats w ≡ (ok tt, w)) ⊎ ((why : Error) × (min_gate sats w ≡ (err why, w)))
  unfolding min_gate
  min_gate-cases sats w = elim (Bool-cases (ltb sats sp_min_sats)) [
    | inl small ↦ inr (other (codes "silent-payment sends need at least 330 sats"), rw small refl)
    | inr enough ↦ inl (rw enough refl)
  ]

  network_gate_shut :
      ⦃h : Host⦄
      → network ≡ testnet
      → (net : Network) (w : World) → network_eq net testnet ≡ false
      → (why : Error) × (network_gate net w ≡ (err why, w))
  unfolding network_gate
  network_gate_shut on_testnet net w apart = (
    other (codes "silent-payment code is for another network"),
    rw (ap (network_eq net) on_testnet ∙ apart) refl,
  )

  module _ ⦃h : Host⦄ ⦃p : Platform⦄ ⦃x : Esplora⦄ ⦃b : Bdk⦄ ⦃y : Payer⦄ where
    -- A wallet on testnet can pay no silent payment code, its own included: whatever the code, sp_send
    -- ends in an error and changes nothing.
    pub sp_send_on_testnet :
        network ≡ testnet
        → ((code : Text) → y.decode code ≡ decode code)
        → (ext int code : Text) (sats : ℕ) (max_fee_sats : Option ℕ) (w : World)
        → (why : Error) × (sp_send ext int code sats max_fee_sats w ≡ (err why, w))
    unfolding sp_send
    sp_send_on_testnet on_testnet same ext int code sats max_fee_sats w =
        elim (min_gate-cases sats w) [
          | inr (why, small) ↦ (why, rw (small, sp_send) refl)
          | inl enough ↦ elim (Result-cases (y.decode code)) [
            | inr (why, bad) ↦ (why, rw (enough, sp_send) (rw bad refl))
            | inl (r, read) ↦
                let (why, shut) =
                  network_gate_shut on_testnet r.1.1 w
                    (decode-not_testnet code r (sym (same code) ∙ read)) in
                (why, rw (enough, sp_send) (rw read (rw shut refl)))
          ]
        ]
