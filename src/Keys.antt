-- ===== src/Keys.antt =====
-- The 64 hex digits that name a peer: discover.rs `parse_card_key`, tunnel.rs `parse_public_key` and
-- `hex32`. Slicing a `str` inside a character panics, so their text is read here as its bytes.
pub mod Digits
use computermoney.Prelude.{
  ℕ, ◌+◌, ◌/◌, ◌%◌, Text, codes, trim, length, Bool, true, not, ◌&&◌, none, some, [], ◌∷◌, ◌++◌,
  leb, ltb, ◌==◌, if◌then◌else◌,
}
use computermoney.Build.Mixed.{from_str_radix}
use computermoney.Scan.{hex_lower}

-- How the parse of a key ends.
pub data Parsed : Type 0 where
  key : Text → Parsed
  refused : Text → Parsed
  panics : Parsed

-- The UTF-8 bytes of a character, in front of `rest`.
unfoldable pub utf8_char : ℕ → Text → Text
utf8_char c rest =
    if ltb c 0x80
    then c ∷ rest
    else if ltb c 0x800
    then (0xc0 + c / 64) ∷ (0x80 + c % 64) ∷ rest
    else if ltb c 0x10000
    then (0xe0 + c / 4096) ∷ (0x80 + c / 64 % 64) ∷ (0x80 + c % 64) ∷ rest
    else (0xf0 + c / 262144)
      ∷ (0x80 + c / 4096 % 64)
      ∷ (0x80 + c / 64 % 64)
      ∷ (0x80 + c % 64)
      ∷ rest

unfoldable pub utf8 : Text → Text
unfolding utf8_char
utf8 [] = []
utf8 (c ∷ cs) = utf8_char c (utf8 cs)

-- `is_char_boundary`, by the bytes that follow.
unfoldable pub is_boundary : Text → Bool
is_boundary [] = true
is_boundary (c ∷ cs) = not (leb 0x80 c && ltb c 0xc0)

abbrev pub key_byte : ℕ → Parsed → Parsed
key_byte b (key bytes) = key (b ∷ bytes)
key_byte b (refused why) = refused why
key_byte b panics = panics

-- The loop over the 32 slots, each from a slice of two bytes.
unfoldable pub parse_pairs : Text → Text → Parsed
unfolding is_boundary
parse_pairs bad (a ∷ b ∷ rest) =
    let more = parse_pairs bad rest in
    if is_boundary (a ∷ b ∷ rest) && is_boundary rest
    then elim (from_str_radix a b) [ none ↦ refused bad | some byte ↦ key_byte byte more ]
    else panics
parse_pairs bad _ = key []

abbrev pub parse_key : Text → Text → Text → Parsed
parse_key short bad hex =
    if length (utf8 (trim hex)) == 64 then parse_pairs bad (utf8 (trim hex)) else refused short

unfoldable pub parse_card_key : Text → Parsed
parse_card_key =
    parse_key (codes "card key must be 64 hex chars") (codes "card key is not valid hex")

unfoldable pub parse_public_key : Text → Parsed
parse_public_key =
    parse_key (codes "WireGuard public key must be 64 hex chars (32 bytes)")
      (codes "public key is not valid hex")

-- `hex32`, `card_pubkey_hex` and `id_hex` write two digits for each byte.
unfoldable pub hex32 : Text → Text
hex32 = hex_lower
