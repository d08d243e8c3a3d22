-- ===== src/Storage/Create/Loads.antt =====
-- A wallet that storage.rs saved is the one that it loads.
use computermoney.Prelude.{
  ℕ, zero, suc, Text, codes, text_eq, text_eq_iff, text_eq_refl, contains, trim, trim_start,
  trim_end, is_blank, is_whitespace, starts_with, take, length, true, Option, none, some, List, [],
  ◌∷◌, ◌++◌, ◌==◌, ◌||◌, ◌≡◌, refl, sym, ap, ◌∙◌, inl, inr, Bool-cases, arith,
}
use computermoney.Result.{ok, Exec, pure, lift, gets, ◌>>=◌, ◌>>◌}
use computermoney.Result.Success.{bind-eq-ok}
use computermoney.Storage.{Host, wallet_ids, insert_id, all_hex, pick_identity, pick_default}
use computermoney.Storage.Seed.{
  Cipher, Decrypts, salt_len, nonce_len, from_utf8, save_encrypted, load_encrypted,
  load-save_encrypted,
}
use computermoney.Storage.Load.{Wallets, Files, unlock, unlock_sealed, check_id, load_wallet}
use computermoney.Storage.Create.{
  Home, call_files, add_dir, create_dir, write_file, replaced, put_seed, put_default, mark,
  store_seed, wallet_dir, save_new_wallet,
}

starts_with-take : (n : ℕ) (s : Text) → starts_with s (take n s) ≡ true
unfolding starts_with
starts_with-take zero s = ground arith
starts_with-take (suc n) [] = refl
starts_with-take (suc n) (c ∷ s) = ground (arith, starts_with-take n s)

contains-insert_id :
    (id n : Text) (ids : List Text)
    → contains id (insert_id n ids) ≡ (text_eq n id || contains id ids)
unfolding contains insert_id
contains-insert_id id n [] = refl
contains-insert_id id n (i ∷ ids) = ground (arith, contains-insert_id id n ids)

-- A directory with the name of an identity is listed.
contains-wallet_ids :
    (id : Text) (ns : List Text)
    → (length id == 8) ≡ true
    → all_hex id ≡ true
    → contains id ns ≡ true
    → contains id (wallet_ids ns) ≡ true
unfolding contains wallet_ids
contains-wallet_ids id [] size hex h = absurd (cc)
contains-wallet_ids id (n ∷ ns) size hex h = elim (Bool-cases (text_eq n id)) [
  | inl same ↦
      let e : n ≡ id = (text_eq_iff n id).0 same in
      let one : (length n == 8) ≡ true = ap (λ t. length t == 8) e ∙ size in
      let two : all_hex n ≡ true = ap all_hex e ∙ hex in
      rw (one, two)
        (contains-insert_id id n (wallet_ids ns) ∙ ap (λ b. b || contains id (wallet_ids ns)) same)
  | inr differs ↦ ground (
    arith,
    contains-wallet_ids id ns size hex (ground arith),
    contains-insert_id id n (wallet_ids ns),
  )
]

contains-append :
    (id : Text) (ns ms : List Text) → contains id (ns ++ ms) ≡ (contains id ns || contains id ms)
unfolding contains
contains-append id [] ms = refl
contains-append id (n ∷ ns) ms = ground (arith, contains-append id ns ms)

contains-add_dir : (id : Text) (ns : List Text) → contains id (add_dir id ns) ≡ true
unfolding add_dir contains
contains-add_dir id ns = ground (arith, contains-append id ns (id ∷ []), text_eq_refl id)

trim_end-line : (s : Text) → all_hex s ≡ true → trim_end (s ++ (10 ∷ [])) ≡ s
unfolding trim_end is_blank is_whitespace all_hex
trim_end-line [] h = refl
trim_end-line (c ∷ s) h = ground (arith, trim_end-line s (ground arith))

trim-line : (s : Text) → all_hex s ≡ true → trim (s ++ (10 ∷ [])) ≡ s
unfolding trim trim_start is_whitespace all_hex
trim-line [] h = unfold trim_end is_blank in refl
trim-line (c ∷ s) h = ground (arith, trim_end-line (c ∷ s) h)

-- A call that worked has done what it does.
call_files-eq-ok :
    (done : Files → Files) (torn : ℕ → Files → Files) (x : Home) (u : Unit {0})
    → (call_files done torn x).0 ≡ ok u
    → (call_files done torn x).1.files ≡ done x.files
unfolding call_files
call_files-eq-ok done torn x u e = ground arith

abbrev with_dir : Text → Files → Files
with_dir id f = record f { dirs = add_dir id f.dirs }

create_dir-eq-ok :
    (id : Text) (x : Home) (u : Unit {0})
    → (create_dir id x).0 ≡ ok u
    → (create_dir id x).1.files ≡ with_dir id x.files
unfolding create_dir
create_dir-eq-ok id x u e = call_files-eq-ok (with_dir id) (λ n f. f) x u e

write_file-eq-ok :
    (put : Text → Files → Files) (bytes : Text) (x : Home) (u : Unit {0})
    → (write_file put bytes x).0 ≡ ok u
    → (write_file put bytes x).1.files ≡ put bytes x.files
unfolding write_file
write_file-eq-ok put bytes x u e = call_files-eq-ok (put bytes) (λ n. put (take n bytes)) x u e

mark-eq-ok :
    (id : Text) (default : Option Text) (x : Home) (u : Unit {0})
    → default ≡ none
    → (mark id default x).0 ≡ ok u
    → (mark id default x).1.files ≡ put_default (id ++ (10 ∷ [])) x.files
unfolding mark
mark-eq-ok id (some d) x u unmarked e = absurd (cc)
mark-eq-ok id none x u unmarked e = write_file-eq-ok put_default (id ++ (10 ∷ [])) x u e

module _ ⦃c : Cipher⦄ where
  store_seed-eq-ok :
      (salt nonce id phrase pass : Text) (x : Home) (u : Unit {0})
      → (store_seed salt nonce id phrase (some pass) x).0 ≡ ok u
      → (bytes : Text) × (save_encrypted phrase pass salt nonce ≡ ok bytes)
        × ((store_seed salt nonce id phrase (some pass) x).1.files ≡ put_seed id bytes x.files)
  unfolding store_seed
  store_seed-eq-ok salt nonce id phrase pass x u e =
      let (bytes, sealed, written, state) =
        bind-eq-ok (lift (save_encrypted phrase pass salt nonce)) _ x e in
      (bytes, sealed, ap (λ y. y.files) state ∙ write_file-eq-ok (put_seed id) bytes x u written)

  module _ ⦃ws : Wallets⦄ where
    -- The files of the first wallet, sealed into its directory and marked.
    abbrev first_files : Text → Text → Files → Files
    first_files id bytes f = put_default (id ++ (10 ∷ [])) (put_seed id bytes (with_dir id f))

    save_new_wallet-eq-ok :
        (salt nonce : Text) (w : ws.Wallet) (phrase pass full id : Text) (x : Home)
        → ws.id_hex w ≡ ok full
        → x.files.default ≡ none
        → (save_new_wallet salt nonce w phrase (some pass) x).0 ≡ ok id
        → (bytes : Text) × (save_encrypted phrase pass salt nonce ≡ ok bytes)
          × ((save_new_wallet salt nonce w phrase (some pass) x).1.files
              ≡ first_files (take 8 full) bytes x.files)
    unfolding save_new_wallet wallet_dir
    save_new_wallet-eq-ok salt nonce w phrase pass full id x named unmarked saved =
        let name = take 8 full in
        let rest : Exec Home Text = (do
          create_dir name
          store_seed salt nonce name phrase (some pass)
          default ← gets (λ y. y.files.default)
          mark name default
          pure name) in
        let start : save_new_wallet salt nonce w phrase (some pass) x ≡ rest x = rw named refl in
        let (u1, made, e1, s1) =
          bind-eq-ok (create_dir name) _ x (ap (λ r. r.0) (sym start) ∙ saved) in
        let x1 = (create_dir name x).1 in
        let dir = create_dir-eq-ok name x u1 made in
        let (u2, stored, e2, s2) =
          bind-eq-ok (store_seed salt nonce name phrase (some pass)) _ x1 e1 in
        let x2 = (store_seed salt nonce name phrase (some pass) x1).1 in
        let (bytes, sealed, seed) = store_seed-eq-ok salt nonce name phrase pass x1 u2 stored in
        let (u3, marked, e3, s3) = bind-eq-ok (mark name x2.files.default) _ x2 e2 in
        let still : x2.files.default ≡ none =
          ap (λ f. f.default) seed ∙ ap (λ f. f.default) dir ∙ unmarked in
        (
          bytes,
          sealed,
          ap (λ r. r.1.files) start
              ∙ ap (λ y. y.files) s1
              ∙ ap (λ y. y.files) s2
              ∙ ap (λ y. y.files) s3
              ∙ mark-eq-ok name x2.files.default x2 u3 still marked
              ∙ ap (put_default _) (seed ∙ ap (put_seed name bytes) dir),
        )

module _ ⦃h : Host⦄ ⦃c : Cipher⦄ ⦃ws : Wallets⦄ where
  load_wallet-sealed :
      (g : Files) (w : ws.Wallet) (phrase pass full id bytes : Text)
      → h.var (codes "CM_MNEMONIC") ≡ none
      → h.var (codes "CM_PASSPHRASE") ≡ some pass
      → pick_identity (wallet_ids g.dirs) (h.var (codes "CM_ID")) g.default ≡ ok id
      → g.seed_enc id ≡ some bytes
      → load_encrypted pass (some bytes) ≡ ok phrase
      → ws.from_mnemonic phrase ≡ ok w
      → ws.id_hex w ≡ ok full
      → starts_with full id ≡ true
      → load_wallet g ≡ ok w
  unfolding load_wallet
  load_wallet-sealed g w phrase pass full id bytes bare set picked found opened parsed named
        starts =
      let unlocked : unlock g id ≡ ok w =
        unfold unlock in rw (found, unlock) (rw set (unfold unlock_sealed in rw opened parsed)) in
      let checked : check_id id w ≡ ok w = unfold check_id in rw named (rw starts refl) in
      rw (bare, load_wallet) (rw picked (rw unlocked checked))

  first_files-loads :
      (w : ws.Wallet) (phrase pass full bytes : Text) (f : Files)
      → h.var (codes "CM_MNEMONIC") ≡ none
      → h.var (codes "CM_ID") ≡ none
      → h.var (codes "CM_PASSPHRASE") ≡ some pass
      → ws.id_hex w ≡ ok full
      → ws.from_mnemonic phrase ≡ ok w
      → (length (take 8 full) == 8) ≡ true
      → all_hex (take 8 full) ≡ true
      → load_encrypted pass (some bytes) ≡ ok phrase
      → load_wallet (first_files (take 8 full) bytes f) ≡ ok w
  unfolding pick_identity
  first_files-loads w phrase pass full bytes f bare unset set named parsed size hex opened =
      let name = take 8 full in
      let g = first_files name bytes f in
      let listed : contains (trim (name ++ (10 ∷ []))) (wallet_ids g.dirs) ≡ true =
        ap (λ t. contains t (wallet_ids g.dirs)) (trim-line name hex)
        ∙ contains-wallet_ids name g.dirs size hex (contains-add_dir name f.dirs) in
      let chosen : pick_default (wallet_ids g.dirs) g.default ≡ ok name =
        unfold pick_default in rw listed (ap ok (trim-line name hex)) in
      let found : g.seed_enc name ≡ some bytes = unfold replaced in rw (text_eq_refl name) refl in
      let picked : pick_identity (wallet_ids g.dirs) (h.var (codes "CM_ID")) g.default ≡ ok name =
        ap (λ o. pick_identity (wallet_ids g.dirs) o g.default) unset ∙ chosen in
      load_wallet-sealed g w phrase pass full name bytes bare set picked found opened parsed named
        (starts_with-take 8 full)

  -- The first wallet of a machine, saved under the passphrase that is in the environment, is the wallet
  -- that loads: where the wallet is that of its phrase, its identity starts with eight hex digits, the
  -- salt and the nonce have 16 and 12 bytes, the phrase is UTF-8, the cipher decrypts what it encrypted,
  -- neither CM_MNEMONIC nor CM_ID is set, and the save reported no error.
  pub load-save_new_wallet :
      Decrypts c
      → (salt nonce : Text) (w : ws.Wallet) (phrase pass full id : Text) (x : Home)
      → length salt ≡ salt_len
      → length nonce ≡ nonce_len
      → from_utf8 phrase ≡ ok phrase
      → h.var (codes "CM_MNEMONIC") ≡ none
      → h.var (codes "CM_ID") ≡ none
      → h.var (codes "CM_PASSPHRASE") ≡ some pass
      → ws.id_hex w ≡ ok full
      → ws.from_mnemonic phrase ≡ ok w
      → (length (take 8 full) == 8) ≡ true
      → all_hex (take 8 full) ≡ true
      → x.files.default ≡ none
      → (save_new_wallet salt nonce w phrase (some pass) x).0 ≡ ok id
      → load_wallet (save_new_wallet salt nonce w phrase (some pass) x).1.files ≡ ok w
  load-save_new_wallet decrypts salt nonce w phrase pass full id x hs hn utf8 bare unset set named
        parsed size hex unmarked saved =
      let (bytes, sealed, files) =
        save_new_wallet-eq-ok salt nonce w phrase pass full id x named unmarked saved in
      ap load_wallet files
      ∙ first_files-loads w phrase pass full bytes x.files bare unset set named parsed size hex
          (load-save_encrypted decrypts phrase pass salt nonce bytes hs hn utf8 sealed)
