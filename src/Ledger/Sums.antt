-- ===== src/Ledger/Sums.antt =====
-- What the sums of ledger.rs add up to while they fit their machine words.
use mathlib.Core.List.{filter_map}
use computermoney.Prelude.{
  ℕ, ◌+◌, ◌-◌, ◌%◌, ◌^◌, ◌<◌, Text, Option, none, some, List, [], ◌∷◌, map, ◌≡◌, refl, ap, ◌∙◌,
  arith, ltb, if◌then◌else◌, u64_mod,
}
use computermoney.Ledger.Entry.{Status, Entry, sent, received, sp_received}
use computermoney.Ledger.Folds.{status_is, latest_status, contains_outpoint, sp_spent_set, sum_from}
use computermoney.Ledger.Balances.{
  SpUtxo, is_spendable, is_incoming, spendable_sats, sp_balance, incoming_sats, sp_incoming,
  spendable_utxo, sp_utxos, apply_balance, balance_from, balance,
}

-- A sum that does not wrap.
unfoldable pub total : List ℕ → ℕ
total [] = 0
total (n ∷ ns) = n + total ns

pub sum_from-total :
    (acc : ℕ) (ns : List ℕ) → acc + total ns < u64_mod → sum_from acc ns ≡ acc + total ns
unfolding sum_from total
sum_from-total acc [] h = omega arith
sum_from-total acc (n ∷ ns) h =
    let e : (acc + n) % u64_mod ≡ acc + n = omega arith in
    rw e (sum_from-total (acc + n) ns (omega arith) ∙ omega arith)

-- The silent payment output of an entry, if it is not spent.
unfoldable pub unspent_sats : List (Text × ℕ) → Entry → Option ℕ
unspent_sats spent (sp_received _ txid vout sats _ _) =
    if contains_outpoint txid vout spent then none else some sats
unspent_sats spent _ = none

utxo-sats :
    (es : List Entry) (spent : List (Text × ℕ)) (rest : List Entry)
    → map (λ (u : SpUtxo). u.sats) (filter_map (spendable_utxo es spent) rest)
      ≡ filter_map (spendable_sats es spent) rest
unfolding filter_map spendable_utxo spendable_sats
utxo-sats es spent [] = refl
utxo-sats es spent (sp_received _ txid vout sats _ _ ∷ rest) =
    ground (arith, utxo-sats es spent rest)
utxo-sats es spent (_ ∷ rest) = utxo-sats es spent rest

-- The outputs that can be spent add up to the balance of silent payments, wrapped alike.
pub sp_utxos_sum :
    (es : List Entry) → sum_from 0 (map (λ (u : SpUtxo). u.sats) (sp_utxos es)) ≡ sp_balance es
unfolding sp_utxos sp_balance
sp_utxos_sum es = ap (sum_from 0) (utxo-sats es (sp_spent_set es) es)

split_unspent :
    (es : List Entry) (spent : List (Text × ℕ)) (rest : List Entry)
    → total (filter_map (spendable_sats es spent) rest)
        + total (filter_map (incoming_sats es spent) rest)
      ≡ total (filter_map (unspent_sats spent) rest)
unfolding filter_map spendable_sats incoming_sats is_spendable is_incoming unspent_sats total
split_unspent es spent [] = omega arith
split_unspent es spent (sp_received _ txid vout sats _ _ ∷ rest) =
    ground (arith, split_unspent es spent rest)
split_unspent es spent (_ ∷ rest) = split_unspent es spent rest

-- While the unspent outputs fit in 64 bits, the balance and the incoming sum are their total: an
-- output that is booked and not spent is in exactly one of the two.
pub sp_balance_split :
    (es : List Entry)
    → total (filter_map (unspent_sats (sp_spent_set es)) es) < u64_mod
    → sp_balance es + sp_incoming es ≡ total (filter_map (unspent_sats (sp_spent_set es)) es)
unfolding sp_balance sp_incoming
sp_balance_split es h =
    let e = split_unspent es (sp_spent_set es) es in
    omega (
      arith,
      e,
      sum_from-total 0 (filter_map (spendable_sats es (sp_spent_set es)) es),
      sum_from-total 0 (filter_map (incoming_sats es (sp_spent_set es)) es),
    )

-- What an entry adds to the balance, and what it takes.
unfoldable pub credited : List Entry → Entry → Option ℕ
credited es (received _ txid sats _ _) =
    if status_is (latest_status txid es) Status.final then some sats else none
credited es _ = none

unfoldable pub debited : List Entry → Entry → Option ℕ
debited es (sent _ txid sats _ _ _) =
    if status_is (latest_status txid es) Status.failed then none else some sats
debited es _ = none

-- Adding to the bits of a difference, and taking from them.
credit_bits :
    (i o n : ℕ)
    → o < 2 ^ 63
    → ((i + (u64_mod - o)) % u64_mod + n) % u64_mod ≡ (i + n + (u64_mod - o)) % u64_mod
credit_bits i o n h = omega arith

debit_bits :
    (i o n : ℕ)
    → o + n < 2 ^ 63
    → ((i + (u64_mod - o)) % u64_mod + (u64_mod - n)) % u64_mod
      ≡ (i + (u64_mod - (o + n))) % u64_mod
debit_bits i o n h = omega arith

balance_from-exact :
    (es : List Entry) (i o : ℕ) (rest : List Entry)
    → i + total (filter_map (credited es) rest) < 2 ^ 63
    → o + total (filter_map (debited es) rest) < 2 ^ 63
    → balance_from es ((i + (u64_mod - o)) % u64_mod) rest
      ≡ (i
          + total (filter_map (credited es) rest)
          + (u64_mod - (o + total (filter_map (debited es) rest))))
        % u64_mod
unfolding balance_from filter_map total apply_balance credited debited
balance_from-exact es i o [] hi ho = omega arith
balance_from-exact es i o (received _ txid sats _ _ ∷ rest) hi ho = ground (
  arith,
  credit_bits i o sats,
  balance_from-exact es (i + sats) o rest,
  balance_from-exact es i o rest,
)
balance_from-exact es i o (sent _ txid sats _ _ _ ∷ rest) hi ho = ground (
  arith,
  debit_bits i o sats,
  balance_from-exact es i (o + sats) rest,
  balance_from-exact es i o rest,
)
balance_from-exact es i o (_ ∷ rest) hi ho = balance_from-exact es i o rest hi ho

-- The bits of a difference, read as a signed number and cut off at 0.
signed_part :
    (i o : ℕ)
    → i < 2 ^ 63
    → o < 2 ^ 63
    → (let bits = (i + (u64_mod - o)) % u64_mod in if ltb bits (2 ^ 63) then bits else 0) ≡ i - o
signed_part i o hi ho = ground arith

-- While what came in and what went out stay below 2^63 each, the balance is what is final of the
-- deposits less every payment that did not fail, and 0 where more went out than came in.
pub balance_exact :
    (es : List Entry)
    → total (filter_map (credited es) es) < 2 ^ 63
    → total (filter_map (debited es) es) < 2 ^ 63
    → balance es ≡ total (filter_map (credited es) es) - total (filter_map (debited es) es)
unfolding balance
balance_exact es hi ho =
    ap (λ bits. if ltb bits (2 ^ 63) then bits else 0)
      (balance_from-exact es 0 0 es (omega arith) (omega arith))
    ∙ signed_part (0 + total (filter_map (credited es) es)) (0 + total (filter_map (debited es) es))
        (omega arith) (omega arith)
    ∙ omega arith
