-- ===== src/Ledger/Platform.antt =====
-- What ledger.rs takes from its libraries: `serde_json`, SHA-256 and BIP-340 signatures. Keys,
-- messages and signatures stand as their bytes, and JSON and signatures in hex as text.
use computermoney.Prelude.{ℕ, Text, Option, some, ◌∷◌, All, ◌≡◌, ◌≢◌, Bool, true}
use computermoney.Ledger.Entry.{Entry}

-- The envelope of a line. `sig` is empty in an unsigned ledger.
pub record Record : Type 0 where
  pub entry : Entry
  pub sig : Text

pub record Platform : Type 0 where
  -- `serde_json::to_vec` of an entry, `to_string` and `from_str` of an envelope
  pub to_vec : Entry → Text
  pub to_string : Record → Text
  pub from_str : Text → Option Record
  pub sha256 : Text → Text
  -- the public half of a keypair, signing, the signature's text and its parse, and the check
  pub x_only_public_key : Text → Text
  pub sign_schnorr : Text → Text → Text
  pub to_hex : Text → Text
  pub from_hex : Text → Option Text
  pub verify_schnorr : Text → Text → Text → Bool

abbrev pub IsPlain : ℕ → Type 0
IsPlain c = (c ≢ 10) × (c ≢ 13)

-- The documented behaviour: JSON is read back as it was written, on one line that holds more than
-- white space, and a key's signature passes the check with its public half.
pub record IsSound (p : Platform) : Type 0 where
  pub read_back : (r : Record) → p.from_str (p.to_string r) ≡ some r
  pub one_line : (r : Record) → All IsPlain (p.to_string r)
  pub starts : (r : Record) → (rest : Text) × (p.to_string r ≡ b'{' ∷ rest)
  pub hex_back : (s : Text) → p.from_hex (p.to_hex s) ≡ some s
  pub signed : (k m : Text) → p.verify_schnorr (p.x_only_public_key k) m (p.sign_schnorr k m) ≡ true
