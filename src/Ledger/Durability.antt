-- ===== src/Ledger/Durability.antt =====
-- The file of ledger.rs holds what the ledger in memory holds, so that opening it again gives the
-- same ledger.
use mathlib.Core.List.{append-nil, append_assoc}
use computermoney.Prelude.{
  Text, is_blank, true, false, Option, none, some, List, [], ◌∷◌, ◌++◌, ◌≡◌, refl, ap, sym, ◌∙◌,
  arith, All,
}
use computermoney.Result.{Result, ok, err}
use computermoney.Result.Preserves.{Preserves}
use computermoney.Ledger.Entry.{Entry}
use computermoney.Ledger.Platform.{Record, Platform, IsSound, IsPlain}
use computermoney.Ledger.Store.{
  Fault, tears, World, split_lines, push, strip_cr, lines, sign, verify, verify_record, accept,
  read_entries, cons_to, and_then, with_identity, public_half, parse_ledger, seal, line_of, append,
}

split_lines-append :
    (l rest : Text) → All IsPlain l → split_lines (l ++ (10 ∷ rest)) ≡ l ∷ split_lines rest
unfolding split_lines push
split_lines-append [] rest h = refl
split_lines-append (c ∷ l) rest h = ground (arith, split_lines-append l rest h.1)

pub strip_cr-IsPlain : (l : Text) → All IsPlain l → strip_cr l ≡ l
unfolding strip_cr
strip_cr-IsPlain [] h = refl
strip_cr-IsPlain (c ∷ []) h = ground arith
strip_cr-IsPlain (c ∷ d ∷ l) h = ap (λ t. c ∷ t) (strip_cr-IsPlain (d ∷ l) h.1)

-- A line that was written whole is read back first.
lines-append : (l rest : Text) → All IsPlain l → lines (l ++ (10 ∷ rest)) ≡ l ∷ lines rest
unfolding lines
lines-append l rest h = rw split_lines-append (rw strip_cr-IsPlain refl)

-- The entries `es` in front of what else was read.
abbrev pub prepend : List Entry → Result (List Entry) → Result (List Entry)
prepend es (ok ds) = ok (es ++ ds)
prepend es (err x) = err x

prepend-nil : (r : Result (List Entry)) → prepend [] r ≡ r
prepend-nil (ok ds) = refl
prepend-nil (err x) = refl

cons_to-prepend :
    (e : Entry) (es : List Entry) (r : Result (List Entry))
    → cons_to e (prepend es r) ≡ prepend (e ∷ es) r
cons_to-prepend e es (ok ds) = refl
cons_to-prepend e es (err x) = refl

module _ ⦃p : Platform⦄ where
  -- The bytes of a ledger: a line for each entry.
  unfoldable pub render : Option Text → List Entry → Text
  render identity [] = []
  render identity (e ∷ es) = line_of identity e ++ render identity es

  pub render-append :
      (identity : Option Text) (es ds : List Entry)
      → render identity (es ++ ds) ≡ render identity es ++ render identity ds
  unfolding render
  render-append identity [] ds = refl
  render-append identity (e ∷ es) ds =
      rw (render-append identity es ds) (sym (append_assoc (line_of identity e) _ _))

  module _ (sound : IsSound p) where
    not-blank : (r : Record) → is_blank (p.to_string r) ≡ false
    unfolding is_blank
    not-blank r = let (rest, e) = sound.starts r in rw e refl

    verify-sign : (kp : Text) (e : Entry) → verify (p.x_only_public_key kp) e (sign kp e) ≡ true
    unfolding verify sign
    verify-sign kp e = rw (sound.hex_back _, verify) (sound.signed kp _)

    accept-seal :
        (identity : Option Text) (e : Entry)
        → accept (public_half identity) (some (seal identity e)) ≡ ok e
    unfolding accept verify_record seal
    accept-seal none e = refl
    accept-seal (some kp) e = rw verify-sign refl

    lines-line_of :
        (identity : Option Text) (e : Entry) (rest : Text)
        → lines (line_of identity e ++ rest) ≡ p.to_string (seal identity e) ∷ lines rest
    unfolding line_of
    lines-line_of identity e rest =
        rw append_assoc (lines-append (p.to_string (seal identity e)) rest (sound.one_line _))

    read_entries-line_of :
        (identity : Option Text) (e : Entry) (rest : Text)
        → read_entries (public_half identity) (lines (line_of identity e ++ rest))
          ≡ and_then (ok e) (read_entries (public_half identity) (lines rest))
    unfolding read_entries
    read_entries-line_of identity e rest =
        rw lines-line_of
          (rw (not-blank (seal identity e), sound.read_back (seal identity e), accept-seal) refl)

    pub read_entries-render :
        (identity : Option Text) (es : List Entry) (tail : Text)
        → read_entries (public_half identity) (lines (render identity es ++ tail))
          ≡ prepend es (read_entries (public_half identity) (lines tail))
    unfolding render
    read_entries-render identity [] tail = sym (prepend-nil _)
    read_entries-render identity (e ∷ es) tail = rw append_assoc (
        read_entries-line_of identity e _
        ∙ rw (read_entries-render identity es tail) (cons_to-prepend e es _))

    read_entries-render_all :
        (identity : Option Text) (es : List Entry)
        → read_entries (public_half identity) (lines (render identity es)) ≡ ok es
    unfolding lines split_lines read_entries
    read_entries-render_all identity es =
        ap (λ t. read_entries (public_half identity) (lines t))
          (sym (append-nil (render identity es)))
        ∙ read_entries-render identity es []
        ∙ ap ok (append-nil es)

    -- A file that holds the line of each entry opens as those entries.
    parse_ledger-render :
        (identity : Option Text) (es : List Entry)
        → parse_ledger identity (render identity es)
          ≡ ok (record { entries = es; identity = identity })
    unfolding parse_ledger
    parse_ledger-render identity es =
        ap (with_identity identity) (read_entries-render_all identity es)

  pub render-snoc :
      (identity : Option Text) (es : List Entry) (e : Entry)
      → render identity (es ++ (e ∷ [])) ≡ render identity es ++ line_of identity e
  unfolding render
  render-snoc identity es e =
      render-append identity es (e ∷ []) ∙ ap (λ t. render identity es ++ t) (append-nil _)

-- The call that may come does not stop in the middle of a write.
abbrev pub NotTorn : Fault → Type 0
NotTorn (tears n) = ⊥
NotTorn _ = Unit

module _ ⦃p : Platform⦄ where
  -- The file holds the entries in memory, signed, and no write to come is torn.
  pub record IsSynced (w : World) : Type 0 where
    pub written : w.disk.file ≡ render w.ledger.identity w.ledger.entries
    pub untorn : All NotTorn w.disk.faults

  -- A ledger whose file holds its entries, with no torn write to come, stays so, whether an append
  -- succeeds or fails.
  pub append-IsSynced : (e : Entry) → Preserves IsSynced (append e)
  unfolding append
  append-IsSynced e = record {
    run = λ w h. ground (arith, render-snoc w.ledger.identity w.ledger.entries e);
  }

  -- Opening the file of a ledger in step with it gives that ledger, entries and identity, where
  -- JSON, hex and signatures behave as documented.
  pub reopen :
      IsSound p
      → (w : World) → IsSynced w
      → parse_ledger w.ledger.identity w.disk.file ≡ ok w.ledger
  reopen sound w h = rw h.written (parse_ledger-render sound w.ledger.identity w.ledger.entries)
