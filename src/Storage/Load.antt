-- ===== src/Storage/Load.antt =====
-- storage.rs: `load_wallet`. wallet.rs derives keys with the libraries: a wallet, its parse from a
-- mnemonic and its identity in hex are parameters.
use computermoney.Prelude.{
  Text, codes, starts_with, true, Option, none, some, List, ◌≡◌, refl, sym, ap, ◌∙◌, Bool-cases,
  Option-cases, inl, inr, if◌then◌else◌,
}
use computermoney.Policy.{bitcoin, is_mainnet}
use computermoney.Result.{other, Result, ok, err, try_then}
use computermoney.Result.Success.{try_then-eq-ok, ok_inj, ok_ne_err}
use computermoney.Storage.{Host, network, pick_identity, wallet_ids}
use computermoney.Storage.Seed.{Cipher, load_encrypted}

pub record Wallets : Type 1 where
  pub Wallet : Type 0
  pub from_mnemonic : Text → Result Wallet
  pub id_hex : Wallet → Result Text

-- The directories under the root, the marker, and each identity's two files.
pub record Files : Type 0 where
  pub dirs : List Text
  pub default : Option Text
  pub seed_enc : Text → Option Text
  pub mnemonic : Text → Option Text

module _ ⦃h : Host⦄ ⦃c : Cipher⦄ ⦃ws : Wallets⦄ where
  unfoldable pub unlock_sealed : Text → Option Text → Result ws.Wallet
  unlock_sealed bytes none = err (other (codes "set CM_PASSPHRASE to unlock"))
  unlock_sealed bytes (some pass) = try_then (load_encrypted pass (some bytes)) ws.from_mnemonic

  unfoldable pub unlock_plain : Option Text → Result ws.Wallet
  unlock_plain none = err (other (codes "no seed.enc or mnemonic file"))
  unlock_plain (some phrase) =
      if is_mainnet network
      then err (other (codes "plaintext mnemonic file found, refused on mainnet"))
      else ws.from_mnemonic phrase

  unfoldable pub unlock : Files → Text → Result ws.Wallet
  unlock files id = elim (files.seed_enc id) [
    | none ↦ unlock_plain (files.mnemonic id)
    | some bytes ↦ unlock_sealed bytes (h.var (codes "CM_PASSPHRASE"))
  ]

  unfoldable pub check_id : Text → ws.Wallet → Result ws.Wallet
  check_id id w = try_then (ws.id_hex w) λ actual.
      if starts_with actual id
      then ok w
      else err (other (codes "this wallet belongs to a different network"))

  unfoldable pub load_wallet : Files → Result ws.Wallet
  load_wallet files = elim (h.var (codes "CM_MNEMONIC")) [
    | some phrase ↦ ws.from_mnemonic phrase
    | none ↦
        try_then (pick_identity (wallet_ids files.dirs) (h.var (codes "CM_ID")) files.default)
          λ id. try_then (unlock files id) (check_id id)
  ]

  unlock_plain_refused :
      (o : Option Text) (w : ws.Wallet) → network ≡ bitcoin → ¬ (unlock_plain o ≡ ok w)
  unfolding unlock_plain is_mainnet
  unlock_plain_refused none w mainnet = λ e. absurd (cc)
  unlock_plain_refused (some phrase) w mainnet =
      λ e. absurd (ok_ne_err _ _ (rw (mainnet, unlock_plain) at e))

  unlock_sealed-eq-ok :
      (sealed : Text) (o : Option Text) (w : ws.Wallet)
      → unlock_sealed sealed o ≡ ok w
      → (pass : Text) × (phrase : Text) × (o ≡ some pass)
        × (load_encrypted pass (some sealed) ≡ ok phrase)
        × (ws.from_mnemonic phrase ≡ ok w)
  unfolding unlock_sealed
  unlock_sealed-eq-ok sealed none w e = absurd (cc)
  unlock_sealed-eq-ok sealed (some pass) w e =
      let (phrase, opened, parsed) = try_then-eq-ok (load_encrypted pass (some sealed)) _ e in
      (pass, phrase, refl, opened, parsed)

  unlock_on_mainnet :
      (files : Files) (id : Text) (w : ws.Wallet)
      → network ≡ bitcoin
      → unlock files id ≡ ok w
      → (sealed : Text) × (pass : Text) × (phrase : Text) × (files.seed_enc id ≡ some sealed)
        × (h.var (codes "CM_PASSPHRASE") ≡ some pass)
        × (load_encrypted pass (some sealed) ≡ ok phrase)
        × (ws.from_mnemonic phrase ≡ ok w)
  unfolding unlock unlock_plain unlock_sealed
  unlock_on_mainnet files id w mainnet unlocked = elim (Option-cases (files.seed_enc id)) [
    | inl absent ↦
        absurd
          (unlock_plain_refused (files.mnemonic id) w mainnet (rw (absent, unlock) at unlocked))
    | inr (sealed, stored) ↦
        let (pass, phrase, given, opened, parsed) =
          unlock_sealed-eq-ok sealed (h.var (codes "CM_PASSPHRASE")) w
            (rw (stored, unlock) at unlocked) in
        (sealed, pass, phrase, stored, given, opened, parsed)
  ]

  check_id-eq-ok :
      (id : Text) (w w' : ws.Wallet)
      → check_id id w ≡ ok w'
      → (actual : Text) × (ws.id_hex w ≡ ok actual) × (starts_with actual id ≡ true) × (w ≡ w')
  unfolding check_id
  check_id-eq-ok id w w' h =
      let (actual, named, same) = try_then-eq-ok (ws.id_hex w) _ h in
      elim (Bool-cases (starts_with actual id)) [
        | inl starts ↦ (actual, named, starts, ok_inj _ _ (rw starts at same))
        | inr differs ↦ absurd (ok_ne_err _ _ (rw differs at same))
      ]

  -- On mainnet, without a mnemonic in the environment, a wallet that loads comes from a sealed seed
  -- that the passphrase of `CM_PASSPHRASE` opened, under the identity that was picked, and has that
  -- identity.
  pub load_wallet_on_mainnet :
      (files : Files) (w : ws.Wallet)
      → network ≡ bitcoin
      → h.var (codes "CM_MNEMONIC") ≡ none
      → load_wallet files ≡ ok w
      → (id : Text) × (sealed : Text) × (pass : Text) × (phrase : Text) × (actual : Text)
        × (pick_identity (wallet_ids files.dirs) (h.var (codes "CM_ID")) files.default ≡ ok id)
        × (files.seed_enc id ≡ some sealed)
        × (h.var (codes "CM_PASSPHRASE") ≡ some pass)
        × (load_encrypted pass (some sealed) ≡ ok phrase)
        × (ws.from_mnemonic phrase ≡ ok w)
        × (ws.id_hex w ≡ ok actual)
        × (starts_with actual id ≡ true)
  unfolding load_wallet
  load_wallet_on_mainnet files w mainnet bare loaded =
      let (id, picked, rest) =
        try_then-eq-ok (pick_identity (wallet_ids files.dirs) (h.var (codes "CM_ID")) files.default)
          _ (rw (bare, load_wallet) at loaded) in
      let (w', unlocked, checked) = try_then-eq-ok (unlock files id) (check_id id) rest in
      let (actual, named, starts, same) = check_id-eq-ok id w' w checked in
      let (sealed, pass, phrase, stored, given, opened, parsed) =
        unlock_on_mainnet files id w' mainnet unlocked in
      (
        id,
        sealed,
        pass,
        phrase,
        actual,
        picked,
        stored,
        given,
        opened,
        parsed ∙ ap ok same,
        ap ws.id_hex (sym same) ∙ named,
        starts,
      )
