-- ===== src/Tunnel/Packets.antt =====
-- The packet that tunnel.rs puts around a frame.
use computermoney.Prelude.{
  ℕ, zero, suc, ◌+◌, ◌*◌, ◌≤◌, ◌<◌, ◌^◌, Text, length, take, List, [], ◌∷◌, ◌≡◌, refl, ap, arith,
}
use computermoney.Result.{ok}
use computermoney.Tunnel.{wrap_ip, unwrap_ip}

-- The total length that an IPv4 header states.
abbrev pub total_length : Text → ℕ
total_length (v ∷ s ∷ a ∷ b ∷ rest) = a * 256 + b
total_length _ = 0

-- An IPv4 packet: version and header length, and no more bytes than its header states.
abbrev pub IsPacket : Text → Type 0
IsPacket (v ∷ rest) = (v ≡ 0x45) × (length (v ∷ rest) ≤ total_length (v ∷ rest))
IsPacket [] = ⊥

pub take_all : {A : Type 0} (n : ℕ) (xs : List A) → length xs ≤ n → take n xs ≡ xs
take_all zero [] h = refl
take_all zero (x ∷ xs) h = absurd (omega arith)
take_all (suc n) [] h = refl
take_all (suc n) (x ∷ xs) h = ap (λ ys. x ∷ ys) (take_all n xs (omega arith))

pub length-wrap_ip : (f : Text) → length (wrap_ip f) ≡ 20 + length f
unfolding wrap_ip
length-wrap_ip f = omega arith

pub wrap_ip-IsPacket : (f : Text) → length f + 20 < 2 ^ 16 → IsPacket (wrap_ip f)
unfolding wrap_ip
wrap_ip-IsPacket f h = (refl, omega arith)

total_length-wrap_ip :
    (f : Text) → length f + 20 < 2 ^ 16 → total_length (wrap_ip f) ≡ 20 + length f
unfolding wrap_ip
total_length-wrap_ip f h = omega arith

-- What is left of a wrapped frame that was cut to the length in its header.
pub unwrap_ip-wrap_ip :
    (f : Text)
    → length f + 20 < 2 ^ 16
    → unwrap_ip (take (total_length (wrap_ip f)) (wrap_ip f)) ≡ ok f
unwrap_ip-wrap_ip f h =
    let whole =
      take_all (total_length (wrap_ip f)) (wrap_ip f)
        (omega (arith, total_length-wrap_ip f h, length-wrap_ip f)) in
    rw whole (unwrapped (length-wrap_ip f))
  where
    unwrapped : length (wrap_ip f) ≡ 20 + length f → unwrap_ip (wrap_ip f) ≡ ok f
    unwrapped e = unfold unwrap_ip in unfold wrap_ip in ground arith
