-- ===== src/Wallet.antt =====
-- wallet.rs: the keys of one mnemonic, by role. BIP-39, BIP-32 and the curves are parameters.
use computermoney.Prelude.{
  ℕ, Text, codes, trim, Bool, true, false, List, [], ◌∷◌, ◌++◌, ◌==◌, if◌then◌else◌, ◌≡◌, arith,
}
use computermoney.Policy.{Network, is_mainnet}
use computermoney.Result.{Result, ok, try_then}
use computermoney.Storage.{Host, network}
use computermoney.Keys.{hex32}

-- A step of a derivation path: its number, and whether it is hardened.
abbrev pub DerivationPath : Type 0
DerivationPath = List (ℕ × Bool)

pub record Wallet : Type 0 where
  pub root : Text
  pub network : Network

-- A mnemonic of 12 words, its seed, the master key of a seed, and the child of a key at a path; the
-- halves of a key, the Taproot address of one, the text of a key in a descriptor, the X25519 public
-- key of a secret, and sp.rs `encode`.
pub record Bip : Type 0 where
  pub generate : Result Text
  pub to_seed : Text → Result Text
  pub new_master : Network → Text → Result Text
  pub derive_priv : Text → DerivationPath → Result Text
  pub x_only_public_key : Text → Text
  pub public_key : Text → Text
  pub p2tr : Text → Bool → Text
  pub root_text : Text → Text
  pub x25519_public : Text → Text
  pub encode : Text → Text → Network → Text

unfoldable pub coin_type : Wallet → ℕ
unfolding is_mainnet
coin_type w = if is_mainnet w.network then 0 else 1

-- `KnownHrp::Mainnet`, or that of all testnets.
unfoldable pub hrp : Wallet → Bool
unfolding is_mainnet
hrp w = is_mainnet w.network

-- `{coin}` in a descriptor.
abbrev coin_text : Wallet → Text
coin_text w = if coin_type w == 0 then codes "0" else codes "1"

-- What a key is for.
pub data Role : Type 0 where
  receive : ℕ → Role
  signing network_identity sp_scan sp_spend : Role

unfoldable pub path_of : ℕ → Role → DerivationPath
path_of coin (receive index) =
    (86, true) ∷ (coin, true) ∷ (0, true) ∷ (0, false) ∷ (index, false) ∷ []
path_of coin signing = (86, true) ∷ (coin, true) ∷ (0, true) ∷ (2, false) ∷ (0, false) ∷ []
path_of coin network_identity = (86, true) ∷ (coin, true) ∷ (0, true) ∷ (3, false) ∷ (0, false) ∷ []
path_of coin sp_scan = (352, true) ∷ (coin, true) ∷ (0, true) ∷ (1, true) ∷ (0, false) ∷ []
path_of coin sp_spend = (352, true) ∷ (coin, true) ∷ (0, true) ∷ (0, true) ∷ (0, false) ∷ []

module _ ⦃b : Bip⦄ where
  unfoldable pub from_mnemonic_on : Network → Text → Result Wallet
  from_mnemonic_on network phrase = try_then (b.to_seed (trim phrase)) λ seed.
      try_then (b.new_master network seed) λ root. ok (record { root = root; network = network })

  unfoldable pub key_for : Wallet → Role → Result Text
  unfolding coin_type
  key_for w role = b.derive_priv w.root (path_of (coin_type w) role)

  unfoldable pub address : Wallet → ℕ → Result Text
  unfolding hrp
  address w index =
      try_then (key_for w (receive index)) λ key. ok (b.p2tr (b.x_only_public_key key) (hrp w))

  unfoldable pub descriptors : Wallet → Text × Text
  unfolding coin_type
  descriptors w =
      let start = codes "tr(" ++ (b.root_text w.root ++ (codes "/86h/" ++ coin_text w)) in
      (start ++ codes "h/0h/0/*)", start ++ codes "h/0h/1/*)")

  unfoldable pub signing_keypair : Wallet → Result Text
  signing_keypair w = key_for w signing

  unfoldable pub sp_scan_keypair : Wallet → Result Text
  sp_scan_keypair w = key_for w sp_scan

  unfoldable pub sp_spend_keypair : Wallet → Result Text
  sp_spend_keypair w = key_for w sp_spend

  unfoldable pub wg_secret_bytes : Wallet → Result Text
  wg_secret_bytes w = key_for w network_identity

  unfoldable pub sp_code : Wallet → Result Text
  sp_code w = try_then (sp_scan_keypair w) λ scan.
      try_then (sp_spend_keypair w)
        λ spend. ok (b.encode (b.public_key scan) (b.public_key spend) w.network)

  unfoldable pub id_hex : Wallet → Result Text
  id_hex w = try_then (wg_secret_bytes w) λ secret. ok (hex32 (b.x25519_public secret))

module _ ⦃h : Host⦄ ⦃b : Bip⦄ where
  unfoldable pub from_mnemonic : Text → Result Wallet
  from_mnemonic phrase = from_mnemonic_on network phrase

  unfoldable pub generate : Result (Wallet × Text)
  generate =
      try_then b.generate λ phrase. try_then (from_mnemonic_on network phrase) λ w. ok (w, phrase)

-- Keys are derived at the same path only for the same role and the same coin.
pub path_of_apart :
    (coin coin' : ℕ) (role role' : Role)
    → path_of coin role ≡ path_of coin' role'
    → (coin ≡ coin') × (role ≡ role')
unfolding path_of
path_of_apart coin coin' (receive i) role' e = ground arith
path_of_apart coin coin' signing role' e = ground arith
path_of_apart coin coin' network_identity role' e = ground arith
path_of_apart coin coin' sp_scan role' e = ground arith
path_of_apart coin coin' sp_spend role' e = ground arith

-- What the other parts take from the wallet they hold: its identity, its keys and its code. The file
-- of its ledger is `ledger.jsonl` in the directory named by its identity.
pub record Account : Type 0 where
  pub id_hex : Result Text
  pub signing_keypair : Result Text
  pub wg_secret_bytes : Result Text
  pub descriptors : Text × Text
  pub sp_code : Result Text
  pub address : ℕ → Result Text

unfoldable pub account_of : ⦃b : Bip⦄ → Wallet → Account
account_of w = record {
  id_hex = id_hex w;
  signing_keypair = signing_keypair w;
  wg_secret_bytes = wg_secret_bytes w;
  descriptors = descriptors w;
  sp_code = sp_code w;
  address = address w;
}
