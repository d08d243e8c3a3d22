-- ===== src/Ledger/Tampering.antt =====
-- What `open_inner` of ledger.rs refuses: lines without a valid signature, and a torn last line.
use computermoney.Prelude.{
  ℕ, Text, is_blank, true, false, Option, none, some, List, [], ◌∷◌, ◌++◌, ◌≡◌, refl, ap, ◌∙◌, ◌⊎◌,
  inl, inr, arith, All, Bool-cases,
}
use computermoney.Result.{invalid_data, Result, ok, err}
use computermoney.Ledger.Entry.{Entry}
use computermoney.Ledger.Platform.{Record, Platform, IsSound, IsPlain}
use computermoney.Ledger.Store.{
  Ledger, split_lines, push, lines, verify, verify_record, accept, read_entries, and_then,
  with_identity, public_half, parse_ledger,
}
use computermoney.Ledger.Durability.{render, read_entries-render, prepend, strip_cr-IsPlain}

and_then-eq-ok :
    (a : Result Entry) (rest : Result (List Entry)) (es : List Entry)
    → and_then a rest ≡ ok es
    → (e : Entry) × (ds : List Entry) × (a ≡ ok e) × (rest ≡ ok ds) × (es ≡ e ∷ ds)
and_then-eq-ok (ok e) (ok ds) es h = (e, ds, refl, refl, cc)
and_then-eq-ok (ok e) (err x) es h = absurd (cc)
and_then-eq-ok (err x) rest es h = absurd (cc)

with_identity-eq-ok :
    (identity : Option Text) (r : Result (List Entry)) (led : Ledger)
    → with_identity identity r ≡ ok led
    → (r ≡ ok led.entries) × (led.identity ≡ identity)
with_identity-eq-ok identity (ok es) led h = ground arith
with_identity-eq-ok identity (err x) led h = absurd (cc)

split_lines-one : (c : ℕ) (l : Text) → All IsPlain (c ∷ l) → split_lines (c ∷ l) ≡ (c ∷ l) ∷ []
unfolding split_lines push
split_lines-one c [] h = ground arith
split_lines-one c (d ∷ l) h = ground (arith, split_lines-one d l h.1)

-- Bytes without a line end are one line.
lines-one : (l : Text) → All IsPlain l → is_blank l ≡ false → lines l ≡ l ∷ []
unfolding lines is_blank
lines-one [] h b = absurd (cc)
lines-one (c ∷ l) h b = rw (split_lines-one c l h, strip_cr-IsPlain (c ∷ l) h)

module _ ⦃p : Platform⦄ where
  accept-eq-ok :
      (pk : Text) (o : Option Record) (e : Entry)
      → accept (some pk) o ≡ ok e
      → (r : Record) × (o ≡ some r) × (verify pk r.entry r.sig ≡ true) × (e ≡ r.entry)
  unfolding accept verify_record
  accept-eq-ok pk none e h = absurd (cc)
  accept-eq-ok pk (some r) e h = (r, refl, ground arith, ground arith)

  -- `es` are the entries of the lines `ls`, blank lines apart, each signed by the key's owner.
  pub Attested : Text → List Text → List Entry → Type 0
  Attested pk [] es = es ≡ []
  Attested pk (l ∷ ls) es =
      ((is_blank l ≡ true) × Attested pk ls es)
      ⊎ ((r : Record) × (ds : List Entry) × (p.from_str l ≡ some r)
          × (verify pk r.entry r.sig ≡ true)
          × (es ≡ r.entry ∷ ds)
          × Attested pk ls ds)

  read_entries-Attested :
      (pk : Text) (ls : List Text) (es : List Entry)
      → read_entries (some pk) ls ≡ ok es
      → Attested pk ls es
  unfolding Attested read_entries
  read_entries-Attested pk [] es h = ground arith
  read_entries-Attested pk (l ∷ ls) es h = elim (Bool-cases (is_blank l)) [
    | inl b ↦ inl (b, read_entries-Attested pk ls es (rw b at h))
    | inr n ↦
        let (e, ds, taken, rest, same) = and_then-eq-ok _ _ es (rw n at h) in
        let (r, parsed, signed, entry) = accept-eq-ok pk _ e taken in
        inr (r, ds, parsed, signed, cc, read_entries-Attested pk ls ds rest)
  ]

  -- A ledger that opens under an identity is made of lines that all parse and all carry a valid
  -- signature of that identity over their entry, blank lines apart, in the order of the file.
  pub opened-Attested :
      (kp : Text) (file : Text) (led : Ledger)
      → parse_ledger (some kp) file ≡ ok led
      → Attested (p.x_only_public_key kp) (lines file) led.entries × (led.identity ≡ some kp)
  unfolding parse_ledger
  opened-Attested kp file led h =
      let (rest, same) = with_identity-eq-ok (some kp) _ led h in
      (read_entries-Attested _ _ _ rest, same)

  refused_tail :
      (key : Option Text) (tail : Text)
      → All IsPlain tail
      → is_blank tail ≡ false
      → p.from_str tail ≡ none
      → read_entries key (lines tail) ≡ err invalid_data
  unfolding read_entries accept
  refused_tail key tail plain visible broken =
      rw (lines-one tail plain visible) (rw (visible, broken) refl)

  -- Bytes behind the last whole line that hold no line end, are not blank and parse as no JSON, as
  -- a write leaves that stopped half way, make the file unreadable, although every entry before
  -- them is whole; JSON, hex and signatures behave as documented.
  pub torn_tail_refused :
      IsSound p
      → (identity : Option Text) (es : List Entry) (tail : Text) → All IsPlain tail
      → is_blank tail ≡ false
      → p.from_str tail ≡ none
      → parse_ledger identity (render identity es ++ tail) ≡ err invalid_data
  unfolding parse_ledger
  torn_tail_refused sound identity es tail plain visible broken = ap (with_identity identity) (
      read_entries-render sound identity es tail
      ∙ ap (prepend es) (refused_tail (public_half identity) tail plain visible broken))
