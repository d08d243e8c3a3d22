-- ===== src/Ledger/Books.antt =====
-- The invariant of the books of ledger.rs: entries are numbered in order, no deposit and no silent
-- payment output is booked twice, and no output is marked spent twice.
use mathlib.Core.List.{append-nil, append_assoc}
use computermoney.Prelude.{
  ℕ, ◌+◌, ◌%◌, Text, true, false, List, [], ◌∷◌, ◌++◌, ◌≡◌, refl, subst⁻¹, arith, length, u64_mod,
  Bool-cases, inl, inr, ◌⊎◌,
}
use computermoney.Result.{io, ok, err, pure, ◌>>◌}
use computermoney.Result.Preserves.{Preserves, state-bind_pure}
use computermoney.Ledger.Entry.{Status, Entry, received, sp_received, sp_spent, seq}
use computermoney.Ledger.Folds.{next_seq, has_txid, has_sp_output, is_sp_spent}
use computermoney.Ledger.Platform.{Platform}
use computermoney.Ledger.Store.{World, append}
use computermoney.Ledger.Methods.{
  record_received, record_sp_received, record_sp_spent, update_status,
}

-- Numbered from `n` on, modulo 2^64.
abbrev pub Numbered : ℕ → List Entry → Type 0
Numbered n [] = Unit
Numbered n (e ∷ es) = (seq e ≡ n % u64_mod) × Numbered (n + 1) es

-- What `e` books is not in `es`, which stands before it.
abbrev pub IsFresh : List Entry → Entry → Type 0
IsFresh es (received _ txid _ _ _) = has_txid txid es ≡ false
IsFresh es (sp_received _ txid vout _ _ _) = has_sp_output txid vout es ≡ false
IsFresh es (sp_spent _ txid vout) = is_sp_spent txid vout es ≡ false
IsFresh es _ = Unit

-- The entries `es` that follow `before` are each fresh.
abbrev pub AllFresh : List Entry → List Entry → Type 0
AllFresh before [] = Unit
AllFresh before (e ∷ es) = IsFresh before e × AllFresh (before ++ (e ∷ [])) es

pub record IsInOrder (es : List Entry) : Type 0 where
  pub numbered : Numbered 0 es
  pub fresh : AllFresh [] es

Numbered-snoc :
    (n : ℕ) (es : List Entry) (e : Entry)
    → Numbered n es
    → seq e ≡ (n + length es) % u64_mod
    → Numbered n (es ++ (e ∷ []))
Numbered-snoc n [] e h q = (omega arith, tt)
Numbered-snoc n (d ∷ es) e h q = (h.0, Numbered-snoc (n + 1) es e h.1 (omega arith))

AllFresh-snoc :
    (before es : List Entry) (e : Entry)
    → AllFresh before es
    → IsFresh (before ++ es) e
    → AllFresh before (es ++ (e ∷ []))
AllFresh-snoc before [] e h q = (rw append-nil at q, tt)
AllFresh-snoc before (d ∷ es) e h q =
    (h.0, AllFresh-snoc (before ++ (d ∷ [])) es e h.1 (rw append_assoc q))

next_seq_from :
    (n : ℕ) (e : Entry) (es : List Entry)
    → Numbered n (e ∷ es)
    → next_seq (e ∷ es) ≡ (n + length (e ∷ es)) % u64_mod
unfolding next_seq
next_seq_from n e [] h = omega arith
next_seq_from n e (d ∷ es) h = omega (arith, next_seq_from (n + 1) d es h.1)

pub next_seq-Numbered : (es : List Entry) → Numbered 0 es → next_seq es ≡ length es % u64_mod
unfolding next_seq
next_seq-Numbered [] h = omega arith
next_seq-Numbered (e ∷ es) h = omega (arith, next_seq_from 0 e es h)

-- An entry that takes the next number and books something new keeps the order.
pub IsInOrder-snoc :
    (es : List Entry) (e : Entry)
    → IsInOrder es
    → seq e ≡ next_seq es
    → IsFresh es e
    → IsInOrder (es ++ (e ∷ []))
IsInOrder-snoc es e h q f = record {
  numbered = Numbered-snoc 0 es e h.numbered (omega (arith, q, next_seq-Numbered es h.numbered));
  fresh = AllFresh-snoc [] es e h.fresh f;
}

-- An append that fails leaves the entries in memory as they were.
pub append-books :
    ⦃p : Platform⦄ (e : Entry) (w : World)
    → (((append e w).0 ≡ ok tt)
        × ((append e w).1.ledger ≡ record (w.ledger) { entries = w.ledger.entries ++ (e ∷ []) }))
      ⊎ (((append e w).0 ≡ err io) × ((append e w).1.ledger ≡ w.ledger))
unfolding append
append-books e w = ground arith

abbrev pub Books : World → Type 0
Books w = IsInOrder w.ledger.entries

module _ ⦃p : Platform⦄ where
  append-Books :
      (e : Entry) (w : World)
      → Books w
      → seq e ≡ next_seq w.ledger.entries
      → IsFresh w.ledger.entries e
      → Books (append e w).1
  append-Books e w h q f = elim (append-books e w) [
    | inl (done, led) ↦ rw led (IsInOrder-snoc w.ledger.entries e h q f)
    | inr (failed, led) ↦ rw led h
  ]

  append_then-Books :
      (e : Entry) (w : World)
      → Books w
      → seq e ≡ next_seq w.ledger.entries
      → IsFresh w.ledger.entries e
      → Books ((append e >> pure true) w).1
  append_then-Books e w h q f =
      subst⁻¹ (λ v. Books v) (state-bind_pure (append e) true w) (append-Books e w h q f)

  pub record_received-Books :
      (txid : Text) (sats index : ℕ) → Preserves Books (record_received txid sats index)
  unfolding record_received seq
  record_received-Books txid sats index = record {
    run = λ w h. elim (Bool-cases (has_txid txid w.ledger.entries)) [
      | inl old ↦ rw old h
      | inr new ↦ rw new (append_then-Books _ w h refl new)
    ];
  }

  pub record_sp_received-Books :
      (txid : Text) (vout sats : ℕ) (tweak : Text)
      → Preserves Books (record_sp_received txid vout sats tweak)
  unfolding record_sp_received seq
  record_sp_received-Books txid vout sats tweak = record {
    run = λ w h. elim (Bool-cases (has_sp_output txid vout w.ledger.entries)) [
      | inl old ↦ rw old h
      | inr new ↦ rw new (append_then-Books _ w h refl new)
    ];
  }

  pub record_sp_spent-Books : (txid : Text) (vout : ℕ) → Preserves Books (record_sp_spent txid vout)
  unfolding record_sp_spent seq
  record_sp_spent-Books txid vout = record {
    run = λ w h. elim (Bool-cases (is_sp_spent txid vout w.ledger.entries)) [
      | inl old ↦ rw old h
      | inr new ↦ rw new (append_then-Books _ w h refl new)
    ];
  }

  pub update_status-Books :
      (txid : Text) (status : Status) → Preserves Books (update_status txid status)
  unfolding update_status seq
  update_status-Books txid status = record { run = λ w h. append-Books _ w h refl tt }
