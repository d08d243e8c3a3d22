-- ===== src/Scan/Tweaks.antt =====
-- The tweaks that scan.rs writes as hex are those that chain.rs reads.
use computermoney.Prelude.{
  ℕ, ◌+◌, ◌*◌, ◌/◌, ◌%◌, ◌<◌, Text, length, ◌==◌, true, false, some, [], ◌∷◌, All, ◌≡◌, refl, ap,
  arith,
}
use computermoney.Result.{ok}
use computermoney.Build.Mixed.{
  hex_digit, two_digits, from_str_radix, cons_byte, decode_pairs, decode_hex32,
}
use computermoney.Scan.{hex_char, hex_lower}

abbrev pub IsByte : ℕ → Type 0
IsByte n = n < 256

hex_digit-hex_char : (n : ℕ) → n < 16 → hex_digit (hex_char n) ≡ some n
unfolding hex_digit hex_char
hex_digit-hex_char n h = ground arith

not_plus : (n : ℕ) → n < 16 → (hex_char n == b'+') ≡ false
unfolding hex_char
not_plus n h = ground arith

pub from_str_radix-hex_char :
    (n : ℕ) → IsByte n → from_str_radix (hex_char (n / 16)) (hex_char (n % 16)) ≡ some n
unfolding from_str_radix two_digits
from_str_radix-hex_char n h =
    let e : n / 16 * 16 + n % 16 ≡ n = omega arith in
    rw (not_plus (n / 16) (omega arith)) (
      rw (hex_digit-hex_char (n / 16) (omega arith), hex_digit-hex_char (n % 16) (omega arith))
        (ap some e))

decode_pairs-hex_lower :
    (bytes : Text) → All IsByte bytes → decode_pairs (hex_lower bytes) ≡ ok bytes
unfolding decode_pairs hex_lower cons_byte
decode_pairs-hex_lower [] h = refl
decode_pairs-hex_lower (b ∷ bytes) (byte, h) =
    rw (from_str_radix-hex_char b byte) (rw (decode_pairs-hex_lower bytes h) refl)

pub length-hex_lower : (bytes : Text) → length (hex_lower bytes) ≡ 2 * length bytes
unfolding hex_lower
length-hex_lower [] = refl
length-hex_lower (b ∷ bytes) = omega (arith, length-hex_lower bytes)

-- A tweak of 32 bytes, written as hex when its payment was found, is read back when the payment is
-- spent.
pub decode_hex32-hex_lower :
    (bytes : Text)
    → length bytes ≡ 32
    → All IsByte bytes
    → decode_hex32 (hex_lower bytes) ≡ ok bytes
unfolding decode_hex32
decode_hex32-hex_lower bytes size h =
    let whole : (length (hex_lower bytes) == 64) ≡ true =
      ground (arith, length-hex_lower bytes, size) in
    rw whole (decode_pairs-hex_lower bytes h)
