-- ===== src/Discover.antt =====
-- discover.rs: the signed card by which a peer is found. The DHT and the card's JSON are parameters.
use computermoney.Prelude.{
  ℕ, zero, suc, ◌+◌, Text, codes, length, Option, none, some, List, ltb, if◌then◌else◌, ◌≡◌, refl,
  ◌<◌, arith, sym, ap, ◌∙◌,
}
use computermoney.Result.{other, Result, ok, err, try_then}

pub record Card : Type 0 where
  pub wg : Text
  pub ep : List Text
  pub sp : Option Text
  pub at : ℕ

abbrev pub max_card_bytes : ℕ
max_card_bytes = 1000

abbrev pub resolve_attempts : ℕ
resolve_attempts = 5

-- The client of the DHT, which checks signatures: what its lookups of a key find, by attempt, and its
-- put of a signed item under the secret's key, with the card's time as its number.
pub record Dht : Type 0 where
  pub client : Result (Unit {0})
  pub get_mutable : ℕ → Text → Option Text
  pub put_mutable : Text → Text → ℕ → Result (Unit {0})
  pub to_vec : Card → Text
  pub from_slice : Text → Result Card
  pub card_pubkey : Text → Text

module _ ⦃d : Dht⦄ where
  unfoldable pub publish : Text → Card → Result (Unit {0})
  publish card_secret card =
      if ltb max_card_bytes (length (d.to_vec card))
      then err (other (codes "card is over the BEP-44 limit"))
      else try_then d.client λ u. d.put_mutable card_secret (d.to_vec card) card.at

  -- The lookups that are left, from an attempt on.
  unfoldable pub resolve_from : ℕ → ℕ → Text → Result (Option Card)
  resolve_from zero attempt pubkey = ok none
  resolve_from (suc n) attempt pubkey = elim (d.get_mutable attempt pubkey) [
    | some value ↦ try_then (d.from_slice value) λ card. ok (some card)
    | none ↦ resolve_from n (attempt + 1) pubkey
  ]

  unfoldable pub resolve : Text → Result (Option Card)
  resolve pubkey = try_then d.client λ u. resolve_from resolve_attempts 0 pubkey

  resolve_from-found :
      (n attempt k : ℕ) (pubkey value : Text)
      → k < n
      → ((i : ℕ) → i < k → d.get_mutable (attempt + i) pubkey ≡ none)
      → d.get_mutable (attempt + k) pubkey ≡ some value
      → resolve_from n attempt pubkey ≡ try_then (d.from_slice value) λ card. ok (some card)
  unfolding resolve_from
  resolve_from-found zero attempt k pubkey value h missed found = absurd (omega arith)
  resolve_from-found (suc n) attempt zero pubkey value h missed found =
      let e : attempt + 0 ≡ attempt = omega arith in
      rw (ap (λ i. d.get_mutable i pubkey) (sym e) ∙ found, resolve_from) refl
  resolve_from-found (suc n) attempt (suc k) pubkey value h missed found =
      let e : attempt + 0 ≡ attempt = omega arith in
      rw (ap (λ i. d.get_mutable i pubkey) (sym e) ∙ missed 0 (omega arith), resolve_from)
        (resolve_from-found n (attempt + 1) k pubkey value (omega arith)
          (λ i hi. ap (λ x. d.get_mutable x pubkey) (omega arith) ∙ missed (suc i) (omega arith))
          (ap (λ x. d.get_mutable x pubkey) (omega arith) ∙ found))

  resolve_from-missed :
      (n attempt : ℕ) (pubkey : Text)
      → ((i : ℕ) → i < n → d.get_mutable (attempt + i) pubkey ≡ none)
      → resolve_from n attempt pubkey ≡ ok none
  unfolding resolve_from
  resolve_from-missed zero attempt pubkey missed = refl
  resolve_from-missed (suc n) attempt pubkey missed =
      let e : attempt + 0 ≡ attempt = omega arith in
      rw (ap (λ i. d.get_mutable i pubkey) (sym e) ∙ missed 0 (omega arith), resolve_from)
        (resolve_from-missed n (attempt + 1) pubkey
          (λ i hi. ap (λ x. d.get_mutable x pubkey) (omega arith) ∙ missed (suc i) (omega arith)))

  -- With a working client, a card is resolved from the first of five lookups that finds a record, and
  -- there is none only if all five find nothing.
  pub resolve_retries :
      (pubkey : Text) (u : Unit {0})
      → d.client ≡ ok u
      → ((k : ℕ) (value : Text)
          → k < 5
          → ((i : ℕ) → i < k → d.get_mutable i pubkey ≡ none)
          → d.get_mutable k pubkey ≡ some value
          → resolve pubkey ≡ try_then (d.from_slice value) λ card. ok (some card))
        × (((i : ℕ) → i < 5 → d.get_mutable i pubkey ≡ none) → resolve pubkey ≡ ok none)
  unfolding resolve
  resolve_retries pubkey u works =
      let e : resolve pubkey ≡ resolve_from 5 0 pubkey =
        ap (λ r. try_then r λ u. resolve_from resolve_attempts 0 pubkey) works in
      (
        λ k value h missed found.
            e
            ∙ resolve_from-found 5 0 k pubkey value h
                (λ i hi. ap (λ x. d.get_mutable x pubkey) (omega arith) ∙ missed i hi)
                (ap (λ x. d.get_mutable x pubkey) (omega arith) ∙ found),
        λ missed.
            e
            ∙ resolve_from-missed 5 0 pubkey
                (λ i hi. ap (λ x. d.get_mutable x pubkey) (omega arith) ∙ missed i hi),
      )
