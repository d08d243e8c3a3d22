-- ===== src/Setup/Sealed.antt =====
-- A setup on mainnet writes no plain mnemonic.
use computermoney.Prelude.{ℕ, Text, take, Option, none, some, List, [], ◌∷◌, ◌≡◌, refl, ◌∙◌}
use computermoney.Policy.{bitcoin, is_mainnet}
use computermoney.Result.{Exec, lift, gets, attempt}
use computermoney.Result.Preserves.{
  Preserves, Preserves-pure, Preserves-raise, Preserves-lift, Preserves-gets, Preserves-bind,
  preserves_rules,
}
use computermoney.Storage.{Host, network, wallet_ids}
use computermoney.Storage.Seed.{Cipher, save_encrypted}
use computermoney.Storage.Load.{Wallets, Files}
use computermoney.Storage.Create.{
  Home, call_files, create_dir, write_file, put_seed, mark, store_seed, wallet_dir, save_new_wallet,
}
use computermoney.Ledger.Store.{Fault, works, fails, tears, head_fault}
use computermoney.Ledger.Platform.{Platform}
use computermoney.Build.{Bdk, synced_wallet, build_wallet}
use computermoney.Build.Balance.{chain_balance}
use computermoney.Matching.{ScanHost}
use computermoney.Scan.{Scanner, try_anchor_birth}
use computermoney.Discover.{Dht}
use computermoney.Setup.{
  Fresh, Machine, on_home, on_scan, is_absent, create_first, ready_wallet, setup_report,
}

module _ (plain : Text → Option Text) where
  -- The plain mnemonics on this machine are those.
  abbrev pub Keeps : Home → Type 0
  Keeps x = x.files.mnemonic ≡ plain

  abbrev pub KeepsAll : Machine → Type 0
  KeepsAll x = Keeps x.home

  call_files-Keeps :
      (done : Files → Files) (torn : ℕ → Files → Files)
      → ((f : Files) → (done f).mnemonic ≡ f.mnemonic)
      → ((n : ℕ) (f : Files) → (torn n f).mnemonic ≡ f.mnemonic)
      → Preserves Keeps (call_files done torn)
  unfolding call_files
  call_files-Keeps done torn kd kt = record { run = λ x k. by_fault x k (head_fault x.faults) refl }
    where
      by_fault :
          (x : Home)
          → Keeps x
          → (f : Fault) → head_fault x.faults ≡ f
          → Keeps (call_files done torn x).1
      by_fault x k works e = rw (e, call_files) (kd x.files ∙ k)
      by_fault x k fails e = rw (e, call_files) k
      by_fault x k (tears n) e = rw (e, call_files) (kt n x.files ∙ k)

  create_dir-Keeps : (id : Text) → Preserves Keeps (create_dir id)
  unfolding create_dir
  create_dir-Keeps id = call_files-Keeps _ _ (λ f. refl) (λ n f. refl)

  mark-Keeps : (id : Text) (default : Option Text) → Preserves Keeps (mark id default)
  unfolding mark write_file
  mark-Keeps id (some d) = Preserves-pure tt
  mark-Keeps id none = call_files-Keeps _ _ (λ f. refl) (λ n f. refl)

  on_home-KeepsAll :
      {A : Type 0} (m : Exec Home A) → Preserves Keeps m → Preserves KeepsAll (on_home m)
  unfolding on_home
  on_home-KeepsAll m k = record { run = λ x h. k.run x.home h }

  on_scan-KeepsAll : {A : Type 0} (m : Exec Scanner A) → Preserves KeepsAll (attempt (on_scan m))
  unfolding on_scan attempt
  on_scan-KeepsAll m = record { run = λ x h. h }

  chain_balance-KeepsAll :
      ⦃h : Host⦄ ⦃b : Bdk⦄ (ext int : Text) → Preserves KeepsAll (chain_balance ext int)
  unfolding chain_balance synced_wallet build_wallet
  chain_balance-KeepsAll ext int = search preserves_rules depth 12

  attempt-chain_balance-KeepsAll :
      ⦃h : Host⦄ ⦃b : Bdk⦄ (ext int : Text) → Preserves KeepsAll (attempt (chain_balance ext int))
  unfolding chain_balance synced_wallet build_wallet attempt
  attempt-chain_balance-KeepsAll ext int = record {
    run = λ x h. (chain_balance-KeepsAll ext int).run x h;
  }

  module _ ⦃c : Cipher⦄ ⦃ws : Wallets⦄ (salt nonce : Text) where
    save_new_wallet-Keeps :
        (w : ws.Wallet) (phrase pass : Text)
        → Preserves Keeps (save_new_wallet salt nonce w phrase (some pass))
    unfolding save_new_wallet wallet_dir store_seed write_file
    save_new_wallet-Keeps w phrase pass =
        Preserves-bind (wallet_dir w) _
          (Preserves-bind (lift (ws.id_hex w)) _ (Preserves-lift _)
            λ full. Preserves-pure (take 8 full))
          λ id. Preserves-bind (create_dir id) _ (create_dir-Keeps id) λ u.
            Preserves-bind (store_seed salt nonce id phrase (some pass)) _
              (Preserves-bind (lift (save_encrypted phrase pass salt nonce)) _ (Preserves-lift _)
                λ bytes.
                  call_files-Keeps (put_seed id bytes) (λ n. put_seed id (take n bytes)) (λ f. refl)
                    (λ n f. refl))
              λ v. Preserves-bind (gets (λ x. x.files.default)) _ (Preserves-gets _) λ default.
                Preserves-bind (mark id default) _ (mark-Keeps id default) λ t. Preserves-pure id

    module _ ⦃h : Host⦄ ⦃fr : Fresh⦄ ⦃p : Platform⦄ ⦃s : ScanHost⦄
        (on_mainnet : network ≡ bitcoin) where
      create_first-KeepsAll :
          (pass : Option Text) → Preserves KeepsAll (create_first salt nonce pass)
      unfolding create_first is_absent is_mainnet
      create_first-KeepsAll none = rw on_mainnet (Preserves-raise _)
      create_first-KeepsAll (some pass) =
          Preserves-bind (lift fr.generate) _ (Preserves-lift _) λ r.
            Preserves-bind (on_home (save_new_wallet salt nonce r.0 r.1 (some pass))) _
              (on_home-KeepsAll _ (save_new_wallet-Keeps r.0 r.1 pass))
              λ id.
                Preserves-bind (attempt (on_scan try_anchor_birth)) _ (on_scan-KeepsAll _)
                  λ a. Preserves-pure (some r.1)

      ready_wallet-KeepsAll : (ids : List Text) → Preserves KeepsAll (ready_wallet salt nonce ids)
      unfolding ready_wallet
      ready_wallet-KeepsAll [] = create_first-KeepsAll _
      ready_wallet-KeepsAll (id ∷ ids) = Preserves-pure none

      -- On mainnet a setup leaves the plain mnemonics of the machine as they are, none where there were
      -- none, whatever wallets there are, with or without a passphrase, and wherever a call of the file
      -- system fails or tears a write.
      pub setup_report-KeepsAll : ⦃b : Bdk⦄ ⦃d : Dht⦄ → Preserves KeepsAll (setup_report salt nonce)
      unfolding setup_report
      setup_report-KeepsAll =
          Preserves-bind (gets (λ x. x.home.files.dirs)) _ (Preserves-gets _) λ dirs.
            Preserves-bind (ready_wallet salt nonce (wallet_ids dirs)) _ (ready_wallet-KeepsAll _)
              λ backup. search (preserves_rules, attempt-chain_balance-KeepsAll) depth 14
