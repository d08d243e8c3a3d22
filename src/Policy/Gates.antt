-- ===== src/Policy/Gates.antt =====
-- What the gates of policy.rs let through.
use computermoney.Prelude.{
  ℕ, ◌+◌, ◌≤◌, ◌<◌, ◌≡◌, ◌≢◌, ◌↔◌, ◌⊎◌, Option, none, some, Mem, arith, Text, contains_iff, u64_mod,
}
use computermoney.Policy.{
  Network, bitcoin, Policy, pass, ensure_mainnet_capped, check_amount, check_fee, check_address,
}

-- A limit that is set is respected, and one that is not set allows all.
abbrev pub Within : Option ℕ → ℕ → Type 0
Within none n = Unit
Within (some cap) n = n ≤ cap

-- While the window's spend and the payment together fit in 64 bits, the amount gate passes exactly
-- the payments that respect the payment cap and keep the window's spend within the daily cap.
pub check_amount_exact :
    (p : Policy) (sats spent : ℕ)
    → spent + sats < u64_mod
    → (check_amount p sats spent ≡ pass)
      ↔ (Within p.max_payment_sats sats × Within p.daily_limit_sats (spent + sats))
unfolding check_amount
check_amount_exact p sats spent h = ground arith

-- A mainnet payment that the guard, the amount gate and the fee gate let through has a fee within
-- a fee cap that is set, and respects a payment cap or a daily cap that is set.
pub mainnet_payment_bounded :
    (p : Policy) (sats spent fee : ℕ)
    → spent + sats < u64_mod
    → ensure_mainnet_capped bitcoin p ≡ pass
    → check_amount p sats spent ≡ pass
    → check_fee p fee ≡ pass
    → ((cap : ℕ) × (p.max_fee_sats ≡ some cap) × (fee ≤ cap))
      × (((cap : ℕ) × (p.max_payment_sats ≡ some cap) × (sats ≤ cap))
          ⊎ ((cap : ℕ) × (p.daily_limit_sats ≡ some cap) × (spent + sats ≤ cap)))
unfolding ensure_mainnet_capped check_amount check_fee
mainnet_payment_bounded p sats spent fee h guard amount cost = ground arith

-- Off mainnet the guard refuses nothing.
ensure_mainnet_capped_off_mainnet :
    (n : Network) (p : Policy) → n ≢ bitcoin → ensure_mainnet_capped n p ≡ pass
unfolding ensure_mainnet_capped
ensure_mainnet_capped_off_mainnet n p h = ground arith

-- Under a daily cap alone, a payment large enough to carry the 64-bit sum past its end, by no more
-- than the cap, passes the amount gate, although it is larger than the whole cap.
pub daily_cap_wraps :
    (p : Policy) (sats spent cap : ℕ)
    → p.max_payment_sats ≡ none
    → p.daily_limit_sats ≡ some cap
    → sats < u64_mod
    → u64_mod ≤ spent + sats
    → spent + sats ≤ u64_mod + cap
    → cap + spent < u64_mod
    → (check_amount p sats spent ≡ pass) × (cap < sats)
unfolding check_amount
daily_cap_wraps p sats spent cap a b c d e f = ground arith

-- The blocklist gate passes exactly the addresses that are not on the list.
pub check_address_exact :
    (p : Policy) (to : Text) → (check_address p to ≡ pass) ↔ (¬ Mem to p.blocked_addresses)
unfolding check_address
check_address_exact p to = ground (arith, contains_iff to p.blocked_addresses)
