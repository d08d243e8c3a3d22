-- ===== src/Protocol/Framing.antt =====
-- The frames of protocol.rs are read back from a stream, and only when they are whole.
use computermoney.Prelude.{
  ℕ, zero, suc, ◌+◌, ◌/◌, ◌%◌, ◌^◌, ◌<◌, ◌≤◌, Text, length, take, length-append, take-length-append,
  none, some, [], ◌∷◌, ◌++◌, ltb, u32_mod, ◌≡◌, refl, ap, ◌∙◌, arith, false, true,
}
use computermoney.Protocol.{Message, Json, ReadsBack, from_be_bytes, encode, decode_body, decode}

from-be_bytes :
    (n : ℕ)
    → n < u32_mod
    → from_be_bytes (n / 2 ^ 24 % 256) (n / 2 ^ 16 % 256) (n / 2 ^ 8 % 256) (n % 256) ≡ n
unfolding from_be_bytes
from-be_bytes n h = omega arith

length-take : (n : ℕ) (xs : Text) → length (take n xs) ≤ n
length-take zero xs = omega arith
length-take (suc n) [] = omega arith
length-take (suc n) (x ∷ xs) = omega (arith, length-take n xs)

module _ ⦃j : Json⦄ where
  -- The length that `encode` writes, as `decode` reads it.
  read_length : Message → ℕ
  read_length m =
      let n : ℕ = length (j.to_vec m) % u32_mod in
      from_be_bytes (n / 2 ^ 24 % 256) (n / 2 ^ 16 % 256) (n / 2 ^ 8 % 256) (n % 256)

  read_length-exact :
      (m : Message) → length (j.to_vec m) < u32_mod → read_length m ≡ length (j.to_vec m)
  unfolding read_length
  read_length-exact m h = from-be_bytes (length (j.to_vec m) % u32_mod) (omega arith) ∙ omega arith

  decode_body-whole :
      ReadsBack j
      → (m : Message) (rest : Text)
      → decode_body (length (j.to_vec m)) (j.to_vec m ++ rest) ≡ some (m, 4 + length (j.to_vec m))
  unfolding decode_body
  decode_body-whole back m rest =
      let whole : ltb (length (j.to_vec m ++ rest)) (length (j.to_vec m)) ≡ false =
        ground (arith, length-append (j.to_vec m) rest) in
      rw whole (rw take-length-append (rw (back m) refl))

  -- A frame at the front of a buffer decodes to its message and its length, whatever follows it,
  -- where JSON is read back as written and the message's is shorter than 4 GiB.
  pub decode-encode :
      ReadsBack j
      → (m : Message) (rest : Text) → length (j.to_vec m) < u32_mod
      → decode (encode m ++ rest) ≡ some (m, length (encode m))
  unfolding decode encode read_length
  decode-encode back m rest h =
      ap (λ n. decode_body n (j.to_vec m ++ rest)) (read_length-exact m h)
      ∙ decode_body-whole back m rest
      ∙ ap (λ n. some (m, n)) (omega arith)

  decode_body-partial :
      (m : Message) (n : ℕ)
      → length (j.to_vec m) < u32_mod
      → n < length (j.to_vec m)
      → decode_body (read_length m) (take n (j.to_vec m)) ≡ none
  unfolding decode_body
  decode_body-partial m n h short =
      let missing : ltb (length (take n (j.to_vec m))) (read_length m) ≡ true =
        ground (arith, length-take n (j.to_vec m), read_length-exact m h) in
      rw missing refl

  -- A buffer that holds only a part of a frame decodes to nothing, where the message's JSON is
  -- shorter than 4 GiB.
  pub decode-partial :
      (m : Message) (n : ℕ)
      → length (j.to_vec m) < u32_mod
      → n < length (encode m)
      → decode (take n (encode m)) ≡ none
  unfolding decode encode read_length
  decode-partial m zero h short = refl
  decode-partial m (suc zero) h short = refl
  decode-partial m (suc (suc zero)) h short = refl
  decode-partial m (suc (suc (suc zero))) h short = refl
  decode-partial m (suc (suc (suc (suc n)))) h short = decode_body-partial m n h (omega arith)
