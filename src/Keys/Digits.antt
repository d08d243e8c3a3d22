-- ===== src/Keys/Digits.antt =====
-- Keys are read as they were written, and a text that is cut inside a character is not survived.
use computermoney.Prelude.{
  ℕ, ◌/◌, ◌%◌, ◌<◌, ◌≤◌, Text, trim, trim_start, trim_end, is_blank, is_whitespace, length, ◌==◌,
  true, false, [], ◌∷◌, ◌++◌, All, ◌≡◌, refl, ap, ◌∙◌, arith, Bool-cases, inl, inr,
}
use computermoney.Scan.{hex_char, hex_lower}
use computermoney.Scan.Tweaks.{IsByte, from_str_radix-hex_char, length-hex_lower}
use computermoney.Keys.{
  key, panics, utf8, is_boundary, key_byte, parse_pairs, parse_key, parse_card_key,
  parse_public_key, hex32,
}

-- A character of hex: ASCII, and no white space.
abbrev IsDigit : ℕ → Type 0
IsDigit c = (32 < c) × (c < 0x80)

hex_char-IsDigit : (n : ℕ) → n < 16 → IsDigit (hex_char n)
unfolding hex_char
hex_char-IsDigit n h = ground arith

hex_lower-IsDigit : (bs : Text) → All IsByte bs → All IsDigit (hex_lower bs)
unfolding hex_lower
hex_lower-IsDigit [] h = tt
hex_lower-IsDigit (b ∷ bs) h = (
  hex_char-IsDigit (b / 16) (omega (arith, h.0)),
  (hex_char-IsDigit (b % 16) (omega arith), hex_lower-IsDigit bs h.1),
)

not_white : (c : ℕ) → IsDigit c → is_whitespace c ≡ false
unfolding is_whitespace
not_white c h = ground arith

trim_end-IsDigit : (s : Text) → All IsDigit s → trim_end s ≡ s
unfolding trim_end is_blank
trim_end-IsDigit [] h = refl
trim_end-IsDigit (c ∷ s) h = rw (not_white c h.0) (ap (λ t. c ∷ t) (trim_end-IsDigit s h.1))

trim-IsDigit : (s : Text) → All IsDigit s → trim s ≡ s
unfolding trim trim_start
trim-IsDigit [] h = trim_end-IsDigit [] h
trim-IsDigit (c ∷ s) h = rw (not_white c h.0) (trim_end-IsDigit (c ∷ s) h)

utf8-IsDigit : (s : Text) → All IsDigit s → utf8 s ≡ s
unfolding utf8
utf8-IsDigit [] h = refl
utf8-IsDigit (c ∷ s) h = ground (arith, utf8-IsDigit s h.1)

is_boundary-hex : (n : ℕ) (s : Text) → n < 16 → is_boundary (hex_char n ∷ s) ≡ true
unfolding is_boundary
is_boundary-hex n s h = ground (arith, hex_char-IsDigit n h)

-- Pairs of digits in front of a character are read one after another.
parse_pairs-hex :
    (bad : Text) (b : ℕ) (rest : Text)
    → IsByte b
    → is_boundary rest ≡ true
    → parse_pairs bad (hex_char (b / 16) ∷ hex_char (b % 16) ∷ rest)
      ≡ key_byte b (parse_pairs bad rest)
unfolding parse_pairs
parse_pairs-hex bad b rest byte edge =
    rw (is_boundary-hex (b / 16) (hex_char (b % 16) ∷ rest) (omega (arith, byte)))
      (rw edge (rw (from_str_radix-hex_char b byte) refl))

boundary-hex_lower :
    (bs rest : Text)
    → All IsByte bs
    → is_boundary rest ≡ true
    → is_boundary (hex_lower bs ++ rest) ≡ true
unfolding hex_lower
boundary-hex_lower [] rest h edge = edge
boundary-hex_lower (b ∷ bs) rest h edge = is_boundary-hex (b / 16) _ (omega (arith, h.0))

parse_pairs-hex_lower : (bad bs : Text) → All IsByte bs → parse_pairs bad (hex_lower bs) ≡ key bs
unfolding hex_lower
parse_pairs-hex_lower bad [] h = unfold parse_pairs in refl
parse_pairs-hex_lower bad (b ∷ bs) h =
    parse_pairs-hex bad b (hex_lower bs) h.0 (edge bs h.1)
    ∙ ap (key_byte b) (parse_pairs-hex_lower bad bs h.1)
  where
    edge : (cs : Text) → All IsByte cs → is_boundary (hex_lower cs) ≡ true
    edge [] k = unfold is_boundary in refl
    edge (c ∷ cs) k = is_boundary-hex (c / 16) _ (omega (arith, k.0))

-- A key of 32 bytes, written in hex, is read back as a card key and as a public key.
pub parse-hex32 :
    (bs : Text)
    → length bs ≡ 32
    → All IsByte bs
    → (parse_card_key (hex32 bs) ≡ key bs) × (parse_public_key (hex32 bs) ≡ key bs)
unfolding parse_card_key parse_public_key hex32
parse-hex32 bs size h =
    let digits = hex_lower-IsDigit bs h in
    let whole : (length (hex_lower bs) == 64) ≡ true = ground (arith, length-hex_lower bs) in
    let same : (short bad : Text) → parse_key short bad (hex_lower bs) ≡ key bs = λ short bad.
      rw (trim-IsDigit (hex_lower bs) digits)
        (rw (utf8-IsDigit (hex_lower bs) digits) (rw whole (parse_pairs-hex_lower bad bs h))) in
    (same _ _, same _ _)

-- The text is cut behind `b`, inside a character whose bytes go on with `c`.
abbrev pub IsContinuation : ℕ → Type 0
IsContinuation c = (0x80 ≤ c) × (c < 0xc0)

parse_pairs_cut :
    (bad bs : Text) (a b c : ℕ) (rest : Text)
    → All IsByte bs
    → IsContinuation c
    → parse_pairs bad (hex_lower bs ++ (a ∷ b ∷ c ∷ rest)) ≡ panics
unfolding hex_lower
parse_pairs_cut bad [] a b c rest h k = unfold parse_pairs in ground arith
parse_pairs_cut bad (d ∷ bs) a b c rest h k =
    let more = hex_lower bs ++ (a ∷ b ∷ c ∷ rest) in
    elim (Bool-cases (is_boundary more)) [
      | inl edge ↦
          parse_pairs-hex bad d more h.0 edge
          ∙ ap (key_byte d) (parse_pairs_cut bad bs a b c rest h.1 k)
      | inr inside ↦ unfold parse_pairs in ground arith
    ]

-- A text of 64 bytes in which digits for whole bytes are followed by a slice that ends inside a
-- character is no error of either parser: both panic.
pub cut_key_panics :
    (hex bs : Text) (a b c : ℕ) (rest : Text)
    → length (utf8 (trim hex)) ≡ 64
    → utf8 (trim hex) ≡ hex_lower bs ++ (a ∷ b ∷ c ∷ rest)
    → All IsByte bs
    → IsContinuation c
    → (parse_card_key hex ≡ panics) × (parse_public_key hex ≡ panics)
unfolding parse_card_key parse_public_key
cut_key_panics hex bs a b c rest size e h k =
    let whole : (length (utf8 (trim hex)) == 64) ≡ true = ground arith in
    let same : (short bad : Text) → parse_key short bad hex ≡ panics =
      λ short bad. rw whole (rw e (parse_pairs_cut bad bs a b c rest h k)) in
    (same _ _, same _ _)
