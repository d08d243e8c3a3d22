-- ===== src/Setup.antt =====
-- `cm setup` and cm_setup: the arm of main.rs and `setup_report` of mcp.rs, as the data they report. A
-- wallet that is loaded is an Account to the rest of the program.
pub mod Sealed
use computermoney.Prelude.{
  ℕ, Text, codes, Bool, true, false, ◌&&◌, Option, none, some, List, [], ◌∷◌, if◌then◌else◌,
}
use computermoney.Policy.{is_mainnet}
use computermoney.Result.{
  other, Result, ok, err, Exec, pure, raise, lift, gets, attempt, ◌>>=◌, ◌>>◌,
}
use computermoney.Storage.{Host, network, wallet_ids}
use computermoney.Storage.Seed.{Cipher}
use computermoney.Storage.Load.{Wallets, Files, load_wallet}
use computermoney.Storage.Create.{Home, save_new_wallet}
use computermoney.Ledger.Platform.{Platform}
use computermoney.Build.{Bdk}
use computermoney.Build.Balance.{ChainBalance, chain_balance}
use computermoney.Matching.{ScanHost}
use computermoney.Scan.{Scanner, try_anchor_birth}
use computermoney.Wallet.{Account}
use computermoney.Discover.{Card, Dht, publish}

-- A new wallet with its phrase, and what the other parts take from a wallet.
pub record Fresh ⦃ws : Wallets⦄ : Type 0 where
  pub generate : Result (ws.Wallet × Text)
  pub account : ws.Wallet → Account

-- The files under the root, and the checkpoint of the wallet's scan.
pub record Machine : Type 0 where
  pub home : Home
  pub scanner : Scanner

pub record SetupReport : Type 0 where
  pub backup : Option Text
  pub card : Text
  pub sp_code : Text
  pub address : Text
  pub balance : Result ChainBalance
  pub published : Result (Unit {0})

unfoldable pub on_home : {A : Type 0} → Exec Home A → Exec Machine A
on_home m x = ((m x.home).0, record x { home = (m x.home).1 })

unfoldable pub on_scan : {A : Type 0} → Exec Scanner A → Exec Machine A
on_scan m x = ((m x.scanner).0, record x { scanner = (m x.scanner).1 })

unfoldable pub is_absent : Option Text → Bool
is_absent none = true
is_absent (some t) = false

-- The card without an endpoint.
unfoldable pub publish_card_best_effort : ⦃h : Host⦄ ⦃d : Dht⦄ → Account → Result (Unit {0})
publish_card_best_effort ⦃h⦄ ⦃d⦄ a = elim a.id_hex [
  | err e ↦ err e
  | ok wg ↦ elim a.sp_code [
    | err e ↦ err e
    | ok code ↦ elim a.wg_secret_bytes [
      | err e ↦ err e
      | ok secret ↦ publish secret (record { wg = wg; ep = []; sp = some code; at = h.now_unix })
    ]
  ]
]

module _ ⦃h : Host⦄ ⦃c : Cipher⦄ ⦃ws : Wallets⦄ ⦃fr : Fresh⦄ ⦃p : Platform⦄ ⦃s : ScanHost⦄
    (salt nonce : Text) where
  -- A first wallet, sealed where there is a passphrase, which mainnet insists on. The scan's birth is
  -- anchored as far as that works.
  unfoldable pub create_first : Option Text → Exec Machine (Option Text)
  create_first pass =
      if is_absent pass && is_mainnet network
      then raise (other (codes "mainnet seals the seed: CM_PASSPHRASE"))
      else (do
        (w, phrase) ← lift fr.generate
        on_home (save_new_wallet salt nonce w phrase pass)
        anchored ← attempt (on_scan try_anchor_birth)
        pure (some phrase))

  -- The wallet of this machine, and the words of one that was created.
  unfoldable pub ready_wallet : List Text → Exec Machine (Option Text)
  ready_wallet [] = create_first (h.var (codes "CM_PASSPHRASE"))
  ready_wallet (id ∷ ids) = pure none

  module _ ⦃b : Bdk⦄ ⦃d : Dht⦄ where
    unfoldable pub setup_report : Exec Machine SetupReport
    setup_report = do
      dirs ← gets (λ x. x.home.files.dirs)
      backup ← ready_wallet (wallet_ids dirs)
      files ← gets (λ x. x.home.files)
      w ← lift (load_wallet files)
      secret ← lift ((fr.account w).wg_secret_bytes)
      code ← lift ((fr.account w).sp_code)
      address ← lift ((fr.account w).address 0)
      balance ←
          attempt (chain_balance ((fr.account w).descriptors.0) ((fr.account w).descriptors.1))
      pure (record {
        backup = backup;
        card = d.card_pubkey secret;
        sp_code = code;
        address = address;
        balance = balance;
        published = publish_card_best_effort (fr.account w);
      })
