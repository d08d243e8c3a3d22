-- ===== src/Protocol.antt =====
-- protocol.rs: the messages of the tunnel, their frames, and the receive side of a payment. JSON is a
-- parameter; bytes are numbers below 256.
pub mod Framing
use computermoney.Prelude.{
  ℕ, ◌+◌, ◌*◌, ◌/◌, ◌%◌, ◌^◌, Text, length, take, Option, none, some, List, [], ◌∷◌, ◌++◌, ltb,
  add_u32, u32_mod, if◌then◌else◌, ◌≡◌,
}
use computermoney.Result.{Result, Exec, pure, lift, gets, modify, ◌>>=◌, ◌>>◌}

pub data Message : Type 0 where
  addr_request : ℕ → Message
  addr_response : Text → ℕ → Message
  notify : Text → ℕ → Message
  chat : Text → Message

pub record Json : Type 0 where
  pub to_vec : Message → Text
  pub from_slice : Text → Option Message

-- JSON is read back as it was written.
abbrev pub ReadsBack : Json → Type 0
ReadsBack j = (m : Message) → j.from_slice (j.to_vec m) ≡ some m

-- `u32::to_be_bytes` in front of `rest`.
unfoldable pub be_bytes : ℕ → Text → Text
be_bytes n rest = (n / 2 ^ 24 % 256) ∷ (n / 2 ^ 16 % 256) ∷ (n / 2 ^ 8 % 256) ∷ (n % 256) ∷ rest

unfoldable pub from_be_bytes : ℕ → ℕ → ℕ → ℕ → ℕ
from_be_bytes a b c d = a * 2 ^ 24 + b * 2 ^ 16 + c * 2 ^ 8 + d

module _ ⦃j : Json⦄ where
  -- `body.len() as u32`
  unfoldable pub encode : Message → Text
  unfolding be_bytes
  encode m = be_bytes (length (j.to_vec m) % u32_mod) (j.to_vec m)

  unfoldable pub decode_body : ℕ → Text → Option (Message × ℕ)
  decode_body len rest =
      if ltb (length rest) len
      then none
      else elim (j.from_slice (take len rest)) [ none ↦ none | some m ↦ some (m, 4 + len) ]

  unfoldable pub decode : Text → Option (Message × ℕ)
  unfolding decode_body from_be_bytes
  decode (a ∷ b ∷ c ∷ d ∷ rest) = decode_body (from_be_bytes a b c d) rest
  decode _ = none

-- The wallet's address at an index is derived by wallet.rs with its libraries.
pub record Addresses : Type 0 where
  pub address : ℕ → Result Text

pub record Receiver : Type 0 where
  pub next_index : ℕ

abbrev advanced : Receiver → Receiver
advanced r = record r { next_index = add_u32 r.next_index 1 }

module _ ⦃a : Addresses⦄ where
  unfoldable pub handle : Message → Exec Receiver (Option Message)
  handle (addr_request sats) = do
    index ← gets (λ r. r.next_index)
    address ← lift (a.address index)
    modify advanced
    pure (some (addr_response address index))
  handle _ = pure none
