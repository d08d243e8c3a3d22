-- ===== src/Storage/Create.antt =====
-- storage.rs: `save_new_wallet` and `lock_dir`. Every call of the file system may fail; the salt and the
-- nonce, drawn at random by the source, are arguments.
pub mod Loads
use computermoney.Prelude.{
  ℕ, Text, codes, text_eq, contains, take, Bool, true, false, Option, none, some, List, [], ◌∷◌,
  ◌++◌, if◌then◌else◌,
}
use computermoney.Result.{
  io, other, Result, ok, err, Exec, pure, raise, lift, gets, modify, ◌>>=◌, ◌>>◌,
}
use computermoney.Ledger.Store.{Fault, works, fails, tears, head_fault, rest_faults}
use computermoney.Storage.Seed.{Cipher, save_encrypted}
use computermoney.Storage.Load.{Wallets, Files}

-- The files under the root, the directories whose lock is held, and how the next calls of the file
-- system will end.
pub record Home : Type 0 where
  pub files : Files
  pub locked : List Text
  pub faults : List Fault

-- A call that changes the files by `done`, or by `torn` of what was written when it failed.
unfoldable pub call_files : (Files → Files) → (ℕ → Files → Files) → Exec Home (Unit {0})
call_files done torn x = elim (head_fault x.faults) [
  | works ↦ (ok tt, record x { files = done x.files; faults = rest_faults x.faults })
  | fails ↦ (err io, record x { faults = rest_faults x.faults })
  | tears n ↦ (err io, record x { files = torn n x.files; faults = rest_faults x.faults })
]

-- `create_dir_all`
unfoldable pub add_dir : Text → List Text → List Text
add_dir name dirs = if contains name dirs then dirs else dirs ++ (name ∷ [])

unfoldable pub create_dir : Text → Exec Home (Unit {0})
unfolding call_files
create_dir name = call_files (λ f. record f { dirs = add_dir name f.dirs }) (λ n f. f)

-- `fs::write`, to the file that `put` names.
unfoldable pub write_file : (Text → Files → Files) → Text → Exec Home (Unit {0})
unfolding call_files
write_file put bytes = call_files (put bytes) (λ n. put (take n bytes))

-- The contents of a file, of those there were.
unfoldable pub replaced : Text → Text → (Text → Option Text) → Text → Option Text
replaced name bytes old other_name = if text_eq name other_name then some bytes else old other_name

abbrev pub put_seed : Text → Text → Files → Files
put_seed id bytes f = record f { seed_enc = replaced id bytes f.seed_enc }

abbrev pub put_mnemonic : Text → Text → Files → Files
put_mnemonic id bytes f = record f { mnemonic = replaced id bytes f.mnemonic }

abbrev pub put_default : Text → Files → Files
put_default bytes f = record f { default = some bytes }

-- The marker is written where there is none.
unfoldable pub mark : Text → Option Text → Exec Home (Unit {0})
mark id (some d) = pure tt
mark id none = write_file put_default (id ++ (10 ∷ []))

-- The lock is held from here on, until its file is dropped.
unfoldable pub lock_dir : Text → Exec Home (Unit {0})
lock_dir id = do
  create_dir id
  call_files (λ f. f) (λ n f. f)
  locked ← gets (λ x. x.locked)
  if contains id locked
      then raise (other (codes "another cm process holds this wallet"))
      else modify (λ x. record x { locked = id ∷ x.locked })

module _ ⦃c : Cipher⦄ where
  -- A plain mnemonic is written and then made its owner's only.
  unfoldable pub store_seed : Text → Text → Text → Text → Option Text → Exec Home (Unit {0})
  store_seed salt nonce id phrase (some pass) = do
    bytes ← lift (save_encrypted phrase pass salt nonce)
    write_file (put_seed id) bytes
  store_seed salt nonce id phrase none = do
    write_file (put_mnemonic id) (phrase ++ (10 ∷ []))
    call_files (λ f. f) (λ n f. f)

  module _ ⦃ws : Wallets⦄ where
    -- The name of the wallet's directory: 8 digits of its identity.
    unfoldable pub wallet_dir : ws.Wallet → Exec Home Text
    wallet_dir w = do full ← lift (ws.id_hex w); pure (take 8 full)

    unfoldable pub save_new_wallet : Text → Text → ws.Wallet → Text → Option Text → Exec Home Text
    save_new_wallet salt nonce w phrase passphrase = do
      id ← wallet_dir w
      create_dir id
      store_seed salt nonce id phrase passphrase
      default ← gets (λ x. x.files.default)
      mark id default
      pure id
