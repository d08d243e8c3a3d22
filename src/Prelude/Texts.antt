-- ===== src/Prelude/Texts.antt =====
-- Text as its code points, bytes as numbers, and what Rust's `str` does with them.
use Prim.Native.Nat.{ℕ, ◌+◌}
use Prim.Native.Char.{code}
use Prim.Native.String.{String}
use mathlib.Core.Path.{◌≡◌, refl, sym}
use mathlib.Core.Logic.{◌↔◌, inl, inr}
use mathlib.Core.Bool.{Bool, true, false, ◌&&◌, ◌||◌}
use mathlib.Core.List.{List, [], ◌∷◌, Mem, mem-cons, mem-cons_of_mem, not-mem-nil}
use mathlib.Core.Logic.Or
use mathlib.Core.Bool.{Bool-set}
use native.Mathlib.Omega.{arith}
use computermoney.Prelude.Tests.{◌==◌, leb, if◌then◌else◌, Bool-cases}

abbrev pub Text : Type 0
Text = List ℕ

-- An ASCII literal as its bytes. `String` has its own `[]` and `∷`.
abbrev pub codes : String → Text
codes String.[] = []
codes (String.◌∷◌ c s) = code c ∷ codes s

unfoldable pub text_eq : Text → Text → Bool
text_eq [] [] = true
text_eq (a ∷ s) (b ∷ t) = a == b && text_eq s t
text_eq _ _ = false

pub text_eq_iff : (s t : Text) → (text_eq s t ≡ true) ↔ (s ≡ t)
unfolding text_eq
text_eq_iff [] [] = ground arith
text_eq_iff [] (b ∷ t) = ground arith
text_eq_iff (a ∷ s) [] = ground arith
text_eq_iff (a ∷ s) (b ∷ t) = ground (arith, text_eq_iff s t)

pub text_eq_refl : (s : Text) → text_eq s s ≡ true
text_eq_refl s = (text_eq_iff s s).1 refl

-- Unicode's `White_Space`, by which `str::trim` goes.
unfoldable pub is_whitespace : ℕ → Bool
is_whitespace c =
    (leb 9 c && leb c 13)
    || c == 32
    || c == 0x85
    || c == 0xa0
    || c == 0x1680
    || (leb 0x2000 c && leb c 0x200a)
    || c == 0x2028
    || c == 0x2029
    || c == 0x202f
    || c == 0x205f
    || c == 0x3000

-- `s.trim().is_empty()`
unfoldable pub is_blank : Text → Bool
unfolding is_whitespace
is_blank [] = true
is_blank (c ∷ cs) = is_whitespace c && is_blank cs

-- `contains` of a set or a vector of texts.
unfoldable pub contains : Text → List Text → Bool
contains t [] = false
contains t (s ∷ ss) = text_eq s t || contains t ss

contains→mem : (t : Text) (ts : List Text) → contains t ts ≡ true → Mem t ts
unfolding contains
contains→mem t [] h = absurd (ground arith)
contains→mem t (s ∷ ss) h = elim (Bool-cases (text_eq s t)) [
  | inl e ↦ mem-cons.1 (Or.inl (sym ((text_eq_iff s t).0 e)))
  | inr n ↦ mem-cons_of_mem s (contains→mem t ss (ground arith))
]

mem→contains : (t : Text) (ts : List Text) → Mem t ts → contains t ts ≡ true
unfolding contains
mem→contains t [] h = absurd (not-mem-nil h)
mem→contains t (s ∷ ss) h =
    Or.elim (Bool-set _ _) (mem-cons.0 h) (λ e. ground (arith, text_eq_iff s t))
      (λ m. ground (arith, mem→contains t ss m))

pub contains_iff : (t : Text) (ts : List Text) → (contains t ts ≡ true) ↔ Mem t ts
contains_iff t ts = (contains→mem t ts, mem→contains t ts)

-- `str::to_lowercase` on ASCII.
unfoldable pub to_lower : ℕ → ℕ
to_lower c = if leb b'A' c && leb c b'Z' then c + 32 else c

unfoldable pub starts_with : Text → Text → Bool
starts_with s [] = true
starts_with [] (c ∷ t) = false
starts_with (a ∷ s) (c ∷ t) = a == c && starts_with s t

-- `s.contains(t)`
unfoldable pub contains_text : Text → Text → Bool
unfolding starts_with
contains_text [] t = starts_with [] t
contains_text (a ∷ s) t = starts_with (a ∷ s) t || contains_text s t

unfoldable pub trim_start : Text → Text
trim_start [] = []
trim_start (c ∷ cs) = let rest = trim_start cs in if is_whitespace c then rest else c ∷ cs

-- White space is cut off behind `c` if all that follows it is white space.
unfoldable pub trim_end : Text → Text
trim_end [] = []
trim_end (c ∷ cs) = let rest = trim_end cs in if is_blank (c ∷ cs) then [] else c ∷ rest

unfoldable pub trim : Text → Text
unfolding trim_start trim_end is_blank
trim s = trim_end (trim_start s)
