-- ===== src/Storage/Seed.antt =====
-- storage.rs: the seed sealed under a passphrase. Argon2id and ChaCha20-Poly1305 are parameters; the
-- salt and the nonce are arguments, drawn at random by the source; text stands as its UTF-8 bytes.
use computermoney.Prelude.{
  ℕ, zero, suc, ◌+◌, Text, codes, length, take, drop, length-append, take-length-append,
  drop-length-append, leb, ltb, ◌==◌, subst, Bool, true, false, ◌&&◌, Option, none, some, [], ◌∷◌,
  ◌++◌, ◌≡◌, refl, ap, ◌∙◌, arith, if◌then◌else◌,
}
use computermoney.Result.{io, other, Result, ok, err, try_then}
use computermoney.Result.Success.{try_then-eq-ok}

abbrev pub salt_len : ℕ
salt_len = 16

abbrev pub nonce_len : ℕ
nonce_len = 12

-- `hash_password_into` takes a password and a salt; the cipher takes a key, a nonce and a message.
pub record Cipher : Type 0 where
  pub hash_password_into : Text → Text → Option Text
  pub encrypt : Text → Text → Text → Option Text
  pub decrypt : Text → Text → Text → Option Text

-- What was encrypted under a key and a nonce decrypts under them.
abbrev pub Decrypts : Cipher → Type 0
Decrypts c =
    (key nonce m sealed : Text)
    → c.encrypt key nonce m ≡ some sealed
    → c.decrypt key nonce sealed ≡ some m

-- The bytes that must follow a leading byte, and the bounds of the first of them.
unfoldable pub lead : ℕ → Option (ℕ × (ℕ × ℕ))
lead c =
    if ltb c 0x80
    then some (0, (0x80, 0xbf))
    else if ltb c 0xc2
    then none
    else if leb c 0xdf
    then some (1, (0x80, 0xbf))
    else if c == 0xe0
    then some (2, (0xa0, 0xbf))
    else if c == 0xed
    then some (2, (0x80, 0x9f))
    else if leb c 0xef
    then some (2, (0x80, 0xbf))
    else if c == 0xf0
    then some (3, (0x90, 0xbf))
    else if leb c 0xf3
    then some (3, (0x80, 0xbf))
    else if c == 0xf4
    then some (3, (0x80, 0x8f))
    else none

unfoldable pub utf8_from : ℕ → ℕ → ℕ → Text → Bool
utf8_from zero lo hi [] = true
utf8_from (suc n) lo hi [] = false
utf8_from zero lo hi (c ∷ cs) = elim (lead c) [
  | none ↦ false
  | some (n, (l, h)) ↦ utf8_from n l h cs
]
utf8_from (suc n) lo hi (c ∷ cs) = (leb lo c && leb c hi) && utf8_from n 0x80 0xbf cs

-- `String::from_utf8`
unfoldable pub from_utf8 : Text → Result Text
unfolding utf8_from lead
from_utf8 bytes =
    if utf8_from 0 0x80 0xbf bytes then ok bytes else err (other (codes "invalid utf-8"))

unfoldable pub ok_or : Text → Option Text → Result Text
ok_or msg none = err (other msg)
ok_or msg (some t) = ok t

module _ ⦃c : Cipher⦄ where
  unfoldable pub derive_key : Text → Text → Result Text
  derive_key passphrase salt =
      ok_or (codes "key derivation failed") (c.hash_password_into passphrase salt)

  -- The bytes that are written to the file.
  unfoldable pub save_encrypted : Text → Text → Text → Text → Result Text
  save_encrypted mnemonic passphrase salt nonce = try_then (derive_key passphrase salt) λ key.
      try_then (ok_or (codes "encryption failed") (c.encrypt key nonce mnemonic))
        λ ciphertext. ok (salt ++ (nonce ++ ciphertext))

  unfoldable pub open_seed : Text → Text → Text → Text → Result Text
  open_seed passphrase salt nonce ciphertext =
      try_then (derive_key passphrase salt) λ key.
        try_then (ok_or (codes "decryption failed") (c.decrypt key nonce ciphertext)) from_utf8

  -- Of the bytes of the file, if it can be read.
  unfoldable pub load_encrypted : Text → Option Text → Result Text
  load_encrypted passphrase none = err io
  load_encrypted passphrase (some file) =
      if ltb (length file) (salt_len + nonce_len)
      then err (other (codes "seed file is truncated"))
      else open_seed passphrase (take salt_len file) (take nonce_len (drop salt_len file))
          (drop nonce_len (drop salt_len file))

  ok_or-eq-ok : (msg : Text) (o : Option Text) (t : Text) → ok_or msg o ≡ ok t → o ≡ some t
  unfolding ok_or
  ok_or-eq-ok msg o t h = ground arith

  load_encrypted-parts :
      (passphrase salt nonce sealed : Text)
      → length salt ≡ salt_len
      → length nonce ≡ nonce_len
      → load_encrypted passphrase (some (salt ++ (nonce ++ sealed)))
        ≡ open_seed passphrase salt nonce sealed
  unfolding load_encrypted
  load_encrypted-parts passphrase salt nonce sealed hs hn =
      let long : ltb (length (salt ++ (nonce ++ sealed))) (salt_len + nonce_len) ≡ false =
        ground (arith, length-append salt (nonce ++ sealed), length-append nonce sealed, hs, hn) in
      let first : take salt_len (salt ++ (nonce ++ sealed)) ≡ salt =
        subst (λ n. take n (salt ++ (nonce ++ sealed)) ≡ salt) hs
          (take-length-append salt (nonce ++ sealed)) in
      let rest : drop salt_len (salt ++ (nonce ++ sealed)) ≡ nonce ++ sealed =
        subst (λ n. drop n (salt ++ (nonce ++ sealed)) ≡ nonce ++ sealed) hs
          (drop-length-append salt (nonce ++ sealed)) in
      let second : take nonce_len (nonce ++ sealed) ≡ nonce =
        subst (λ n. take n (nonce ++ sealed) ≡ nonce) hn (take-length-append nonce sealed) in
      let third : drop nonce_len (nonce ++ sealed) ≡ sealed =
        subst (λ n. drop n (nonce ++ sealed) ≡ sealed) hn (drop-length-append nonce sealed) in
      rw long (rw first (rw rest (rw (second, third) refl)))

  open_seed-eq-ok :
      (m passphrase salt nonce sealed key : Text)
      → derive_key passphrase salt ≡ ok key
      → c.decrypt key nonce sealed ≡ some m
      → from_utf8 m ≡ ok m
      → open_seed passphrase salt nonce sealed ≡ ok m
  unfolding open_seed ok_or
  open_seed-eq-ok m passphrase salt nonce sealed key derived opened utf8 = rw (derived, opened) utf8

  -- Saving a seed and loading it back under the same passphrase gives the seed, for a salt of 16
  -- and a nonce of 12 bytes, where the seed is UTF-8 and the cipher decrypts what it encrypted.
  pub load-save_encrypted :
      Decrypts c
      → (m passphrase salt nonce file : Text) → length salt ≡ salt_len
      → length nonce ≡ nonce_len
      → from_utf8 m ≡ ok m
      → save_encrypted m passphrase salt nonce ≡ ok file
      → load_encrypted passphrase (some file) ≡ ok m
  unfolding save_encrypted load_encrypted
  load-save_encrypted decrypts m passphrase salt nonce file hs hn utf8 h =
      let (key, derived, rest) = try_then-eq-ok (derive_key passphrase salt) _ h in
      let (sealed, encrypted, same) = try_then-eq-ok (ok_or _ (c.encrypt key nonce m)) _ rest in
      subst (λ o. load_encrypted passphrase o ≡ ok m) (ap some (ground arith))
        (load_encrypted-parts passphrase salt nonce sealed hs hn
          ∙ open_seed-eq-ok m passphrase salt nonce sealed key derived
              (decrypts key nonce m sealed (ok_or-eq-ok _ _ sealed encrypted)) utf8)
