-- ===== src/Scan/Pages.antt =====
-- The page loop of scan.rs reads a block once: every transaction, in order, none twice.
use computermoney.Prelude.{
  ℕ, zero, suc, ◌+◌, ◌-◌, ◌*◌, ◌≤◌, ◌<◌, Text, length, take, drop, true, false, List, [], ◌∷◌, ◌++◌,
  ltb, add_u32, u32_mod, if◌then◌else◌, ◌≡◌, refl, sym, ap, ◌∙◌, arith, Bool-cases, inl, inr,
}
use computermoney.Result.{Result, ok, err, Exec, pure, continue, ◌>>=◌}
use computermoney.Ledger.Platform.{Platform}
use computermoney.Ledger.Store.{World}
use computermoney.Matching.{EsploraTx, ScanHost, tx_matches}
use computermoney.Scan.{Found, page, book_found, book_txs, scan_pages}

module _ {S A B C : Type 0} where
  continue_assoc :
      (r : Result A) (f : A → Exec S B) (g : B → Exec S C) (s : S)
      → continue (continue r f s).0 g (continue r f s).1 ≡ continue r (λ a. f a >>= g) s
  continue_assoc (ok a) f g s = refl
  continue_assoc (err e) f g s = refl

continue-pure : {S A : Type 0} (r : Result A) (s : S) → continue r pure s ≡ (r, s)
continue-pure (ok a) s = refl
continue-pure (err e) s = refl

ltb-true : (m n : ℕ) → m < n → ltb m n ≡ true
ltb-true m n h = ground arith

continue-congr :
    {S A B : Type 0} (r : Result A) (f g : A → Exec S B) (s : S)
    → ((a : A) (s : S) → f a s ≡ g a s)
    → continue r f s ≡ continue r g s
continue-congr (ok a) f g s same = same a s
continue-congr (err e) f g s same = refl

-- The server pages a block by 25 transactions from the start that is asked for.
abbrev pub IsPaged : ⦃s : ScanHost⦄ → Text → List EsploraTx → Type 0
IsPaged ⦃s⦄ hash txs = (start : ℕ) → s.block_txs hash start ≡ ok (take page (drop start txs))

take-drop : (n : ℕ) (txs : List EsploraTx) → take n txs ++ drop n txs ≡ txs
take-drop zero txs = refl
take-drop (suc n) [] = refl
take-drop (suc n) (t ∷ txs) = ap (λ ts. t ∷ ts) (take-drop n txs)

length-take_long : (n : ℕ) (txs : List EsploraTx) → n ≤ length txs → length (take n txs) ≡ n
length-take_long zero txs h = refl
length-take_long (suc n) [] h = absurd (omega arith)
length-take_long (suc n) (t ∷ txs) h = omega (arith, length-take_long n txs (omega arith))

take_short : (n : ℕ) (txs : List EsploraTx) → length txs ≤ n → take n txs ≡ txs
take_short zero [] h = refl
take_short zero (t ∷ txs) h = absurd (omega arith)
take_short (suc n) [] h = refl
take_short (suc n) (t ∷ txs) h = ap (λ ts. t ∷ ts) (take_short n txs (omega arith))

drop_nil : (n : ℕ) → drop {A = EsploraTx} n [] ≡ []
drop_nil zero = refl
drop_nil (suc n) = refl

drop-drop : (m n : ℕ) (txs : List EsploraTx) → drop n (drop m txs) ≡ drop (m + n) txs
drop-drop zero n txs = ap (λ k. drop k txs) (omega arith)
drop-drop (suc m) n [] = drop_nil n ∙ sym (drop_nil (suc m + n))
drop-drop (suc m) n (t ∷ txs) =
    let e : suc (m + n) ≡ suc m + n = omega arith in
    drop-drop m n txs ∙ ap (λ k. drop k (t ∷ txs)) e

length-drop : (n : ℕ) (txs : List EsploraTx) → length (drop n txs) ≡ length txs - n
length-drop zero txs = omega arith
length-drop (suc n) [] = omega arith
length-drop (suc n) (t ∷ txs) = omega (arith, length-drop n txs)

module _ ⦃p : Platform⦄ ⦃s : ScanHost⦄ where
  book_txs-append :
      (keys : Text × Text) (xs ys : List EsploraTx) (found : List Found) (w : World)
      → book_txs keys (xs ++ ys) found w ≡ (book_txs keys xs found >>= book_txs keys ys) w
  unfolding book_txs
  book_txs-append keys [] ys found w = refl
  book_txs-append keys (x ∷ xs) ys found w =
      continue-congr _ _ _ (book_found x.txid (tx_matches keys x) found w).1
        (λ found' v. book_txs-append keys xs ys found' v)
      ∙ sym (continue_assoc _ (λ found'. book_txs keys xs found') (book_txs keys ys) _)

  -- What the loop does with a page that it got.
  after_page : ℕ → Text × Text → Text → ℕ → List EsploraTx → List Found → Exec World (List Found)
  after_page fuel keys hash start txs found =
      if ltb (length txs) page
      then pure found
      else scan_pages fuel keys hash (add_u32 start (length txs)) found

  scan_pages-page :
      (fuel : ℕ) (keys : Text × Text) (hash : Text) (start : ℕ) (txs : List EsploraTx)
      (found : List Found) (w : World)
      → s.block_txs hash start ≡ ok txs
      → scan_pages (suc fuel) keys hash start found w
        ≡ (book_txs keys txs found >>= after_page fuel keys hash start txs) w
  unfolding scan_pages after_page
  scan_pages-page fuel keys hash start txs found w e = rw (e, scan_pages) refl

  bind-pure : (m : Exec World (List Found)) (w : World) → (m >>= pure) w ≡ m w
  bind-pure m w = continue-pure (m w).0 (m w).1

  last_page :
      (fuel : ℕ) (keys : Text × Text) (hash : Text) (start : ℕ) (txs : List EsploraTx)
      (found : List Found) (w : World)
      → length txs < page
      → (book_txs keys txs found >>= after_page fuel keys hash start txs) w
        ≡ book_txs keys txs found w
  unfolding after_page
  last_page fuel keys hash start txs found w short =
      continue-congr (book_txs keys txs found w).0 (after_page fuel keys hash start txs) pure
        (book_txs keys txs found w).1 (λ f v. rw (ltb-true (length txs) page short) refl)
      ∙ bind-pure (book_txs keys txs found) w

  full_page :
      (fuel : ℕ) (keys : Text × Text) (hash : Text) (start : ℕ) (txs : List EsploraTx)
      (found : List Found) (w : World)
      → length txs ≡ page
      → start + page < u32_mod
      → after_page fuel keys hash start txs found w
        ≡ scan_pages fuel keys hash (start + page) found w
  unfolding after_page
  full_page fuel keys hash start txs found w full bound =
      let more : ltb (length txs) page ≡ false = ground arith in
      rw more
        (ap (λ n. scan_pages fuel keys hash n found w) (ap (add_u32 start) full ∙ omega arith))

  -- Where the server pages a block by 25 transactions, and the fuel is above a 25th of what is left,
  -- reading the pages from a start on books all transactions from there to the end of the block, each
  -- once and in order.
  pub scan_pages_complete :
      (hash : Text) (txs : List EsploraTx)
      → IsPaged hash txs
      → length txs + page < u32_mod
      → (fuel : ℕ) (keys : Text × Text) (start : ℕ) (found : List Found) (w : World)
      → start ≤ length txs
      → length txs - start < page * fuel
      → scan_pages fuel keys hash start found w ≡ book_txs keys (drop start txs) found w
  scan_pages_complete hash txs paged bound zero keys start found w inside enough =
      absurd (omega arith)
  scan_pages_complete hash txs paged bound (suc fuel) keys start found w inside enough =
      let rest : List EsploraTx = drop start txs in
      let size : length rest ≡ length txs - start = length-drop start txs in
      scan_pages-page fuel keys hash start (take page rest) found w (paged start)
      ∙ elim (Bool-cases (ltb (length rest) page)) [
        | inl short ↦
            ap (λ ts. (book_txs keys ts found >>= after_page fuel keys hash start ts) w)
              (take_short page rest (ground arith))
            ∙ last_page fuel keys hash start rest found w (ground arith)
        | inr long ↦
            let full : length (take page rest) ≡ page = length-take_long page rest (ground arith) in
            continue-congr (book_txs keys (take page rest) found w).0
              (after_page fuel keys hash start (take page rest)) (book_txs keys (drop page rest))
              (book_txs keys (take page rest) found w).1
              (λ f v.
                full_page fuel keys hash start (take page rest) f v full (omega arith)
                ∙ scan_pages_complete hash txs paged bound fuel keys (start + page) f v
                    (ground arith) (ground arith)
                ∙ ap (λ ts. book_txs keys ts f v) (sym (drop-drop start page txs)))
            ∙ sym (book_txs-append keys (take page rest) (drop page rest) found w)
            ∙ ap (λ ts. book_txs keys ts found w) (take-drop page rest)
      ]
