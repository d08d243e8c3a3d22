-- ===== src/Samples/Gates.antt =====
-- The gates of policy.rs at work on one policy.
use computermoney.Prelude.{
  ◌+◌, ◌-◌, ◌<◌, ◌≡◌, ◌↔◌, refl, arith, none, some, [], ◌∷◌, codes, u64_mod,
}
use computermoney.Policy.{Policy, pass, check_amount}
use computermoney.Policy.Gates.{Within, check_amount_exact, daily_cap_wraps}

abbrev capped : Policy
capped = record {
  max_payment_sats = none;
  daily_limit_sats = some 1000;
  max_fee_sats = some 50;
  blocked_addresses = codes "bad" ∷ [];
}

check_amount_exact_example :
    (check_amount capped 600 400 ≡ pass) ↔ (Within none 600 × Within (some 1000) (400 + 600))
check_amount_exact_example = check_amount_exact capped 600 400 (omega arith)

daily_cap_wraps_example : (check_amount capped (u64_mod - 100) 200 ≡ pass) × (1000 < u64_mod - 100)
daily_cap_wraps_example =
    daily_cap_wraps capped (u64_mod - 100) 200 1000 refl refl (omega arith) (omega arith)
      (omega arith) (omega arith)
