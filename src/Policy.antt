-- ===== src/Policy.antt =====
-- policy.rs: the gates that an outgoing payment passes. The policy file is an argument here; its
-- path and its JSON are read by `Policy::load`, which hands over the record.
pub mod Gates
use computermoney.Prelude.{
  ℕ, Bool, true, false, ◌&&◌, Option, none, some, List, [], Text, contains, ltb, add_u64,
  if◌then◌else◌,
}

-- The networks that `storage::network` tells apart.
pub data Network : Type 0 where
  bitcoin testnet signet : Network

abbrev pub daily_window_secs : ℕ
daily_window_secs = 86400

pub record Policy : Type 0 where
  pub max_payment_sats : Option ℕ
  pub daily_limit_sats : Option ℕ
  pub max_fee_sats : Option ℕ
  pub blocked_addresses : List Text

pub data PolicyError : Type 0 where
  payment_too_large : ℕ → ℕ → PolicyError
  daily_limit_exceeded : ℕ → ℕ → ℕ → PolicyError
  fee_too_high : ℕ → ℕ → PolicyError
  address_blocked : Text → PolicyError
  mainnet_uncapped mainnet_no_fee_cap : PolicyError

-- `Result<(), PolicyError>`.
pub data Verdict : Type 0 where
  pass : Verdict
  refuse : PolicyError → Verdict

-- `Policy::default`, which stands for an absent policy file.
abbrev pub permissive : Policy
permissive = record {
  max_payment_sats = none;
  daily_limit_sats = none;
  max_fee_sats = none;
  blocked_addresses = [];
}

unfoldable pub is_none : Option ℕ → Bool
is_none none = true
is_none (some n) = false

unfoldable pub is_mainnet : Network → Bool
is_mainnet bitcoin = true
is_mainnet testnet = false
is_mainnet signet = false

unfoldable pub ensure_mainnet_capped : Network → Policy → Verdict
unfolding is_mainnet is_none
ensure_mainnet_capped network policy =
    if is_mainnet network
    then if is_none policy.max_payment_sats && is_none policy.daily_limit_sats
      then refuse mainnet_uncapped
      else if is_none policy.max_fee_sats
      then refuse mainnet_no_fee_cap
      else pass
    else pass

-- The daily test adds two `u64` values.
check_daily : Policy → ℕ → ℕ → Verdict
check_daily p sats spent_recent = elim p.daily_limit_sats [
  | none ↦ pass
  | some cap ↦
      if ltb cap (add_u64 spent_recent sats)
      then refuse (daily_limit_exceeded sats spent_recent cap)
      else pass
]

unfoldable pub check_amount : Policy → ℕ → ℕ → Verdict
unfolding check_daily
check_amount p sats spent_recent = elim p.max_payment_sats [
  | none ↦ check_daily p sats spent_recent
  | some cap ↦
      if ltb cap sats then refuse (payment_too_large sats cap) else check_daily p sats spent_recent
]

unfoldable pub check_address : Policy → Text → Verdict
check_address p to = if contains to p.blocked_addresses then refuse (address_blocked to) else pass

unfoldable pub check_fee : Policy → ℕ → Verdict
check_fee p fee = elim p.max_fee_sats [
  | none ↦ pass
  | some cap ↦ if ltb cap fee then refuse (fee_too_high fee cap) else pass
]
