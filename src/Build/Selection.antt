-- ===== src/Build/Selection.antt =====
-- chain.rs: `select_largest_first`, the choice of the wallet's own outputs for a silent payment.
use mathlib.Core.List.{append_assoc, append-nil}
use mathlib.Core.List.Perm
use mathlib.Core.List.{Perm}
use computermoney.Prelude.{
  ℕ, ◌+◌, ◌-◌, ◌*◌, ◌⊎◌, subst, subst⁻¹, ◌%◌, ◌≤◌, Option, none, some, List, [], ◌∷◌, ◌++◌, length,
  length-append, leb, add_u64, u64_mod, if◌then◌else◌, ◌≡◌, refl, sym, ap, ◌∙◌, arith, Bool-cases,
  inl, inr,
}
use computermoney.Build.{Utxo}

-- `saturating_add` and `saturating_mul` on `u64`.
unfoldable pub saturate : ℕ → ℕ
saturate n = if leb u64_mod n then u64_mod - 1 else n

-- What `n_desc` own inputs beside the pinned ones must cover: the payment and the estimated fee.
unfoldable pub target : ℕ → ℕ → ℕ → ℕ → ℕ
target sats fr pinned_inputs n_desc =
    saturate (sats + saturate (fr * ((11 + (n_desc + pinned_inputs) * 58 + 43 + 43) % u64_mod)))

-- A stable sort, largest value first.
unfoldable pub insert_utxo : Utxo → List Utxo → List Utxo
insert_utxo u [] = u ∷ []
insert_utxo u (v ∷ vs) =
    let rest = insert_utxo u vs in if leb v.value u.value then u ∷ v ∷ vs else v ∷ rest

unfoldable pub sort_utxos : List Utxo → List Utxo
sort_utxos [] = []
sort_utxos (u ∷ us) = insert_utxo u (sort_utxos us)

-- The loop, over what it has selected and its running total.
unfoldable pub select_from : ℕ → ℕ → ℕ → List Utxo → ℕ → List Utxo → Option (List Utxo)
select_from sats fr pinned selected running [] = none
select_from sats fr pinned selected running (u ∷ us) =
    let more = select_from sats fr pinned (selected ++ (u ∷ [])) (add_u64 running u.value) us in
    if leb (target sats fr pinned (length (selected ++ (u ∷ [])))) (add_u64 running u.value)
    then some (selected ++ (u ∷ []))
    else more

unfoldable pub select_largest_first : List Utxo → ℕ → ℕ → ℕ → ℕ → Option (List Utxo)
select_largest_first utxos sats fr prefunded pinned_inputs =
    if leb (target sats fr pinned_inputs 0) prefunded
    then some []
    else select_from sats fr pinned_inputs [] prefunded (sort_utxos utxos)

-- Largest value first.
abbrev pub IsDescending : List Utxo → Type 0
IsDescending [] = Unit
IsDescending (u ∷ []) = Unit
IsDescending (u ∷ v ∷ us) = (v.value ≤ u.value) × IsDescending (v ∷ us)

insert_utxo-IsDescending :
    (u : Utxo) (us : List Utxo) → IsDescending us → IsDescending (insert_utxo u us)
unfolding insert_utxo
insert_utxo-IsDescending u [] h = tt
insert_utxo-IsDescending u (v ∷ []) h = ground arith
insert_utxo-IsDescending u (v ∷ w ∷ vs) h = ground (arith, insert_utxo-IsDescending u (w ∷ vs) h.1)

sort_utxos-IsDescending : (us : List Utxo) → IsDescending (sort_utxos us)
unfolding sort_utxos
sort_utxos-IsDescending [] = tt
sort_utxos-IsDescending (u ∷ us) =
    insert_utxo-IsDescending u (sort_utxos us) (sort_utxos-IsDescending us)

insert_utxo-Perm : (u : Utxo) (us : List Utxo) → Perm (insert_utxo u us) (u ∷ us)
unfolding insert_utxo
insert_utxo-Perm u [] = Perm.refl (u ∷ [])
insert_utxo-Perm u (v ∷ vs) = elim (Bool-cases (leb v.value u.value)) [
  | inl larger ↦ rw larger (Perm.refl (u ∷ v ∷ vs))
  | inr smaller ↦ rw smaller (Perm.trans (Perm.cons v (insert_utxo-Perm u vs)) (Perm.swap u v vs))
]

sort_utxos-Perm : (us : List Utxo) → Perm (sort_utxos us) us
unfolding sort_utxos
sort_utxos-Perm [] = Perm.refl []
sort_utxos-Perm (u ∷ us) =
    Perm.trans (insert_utxo-Perm u (sort_utxos us)) (Perm.cons u (sort_utxos-Perm us))

-- What the pinned inputs and the outputs `us` are worth, added as the loop adds.
unfoldable pub worth : ℕ → List Utxo → ℕ
worth prefunded [] = prefunded
worth prefunded (u ∷ us) = worth (add_u64 prefunded u.value) us

worth-append : (n : ℕ) (us vs : List Utxo) → worth n (us ++ vs) ≡ worth (worth n us) vs
unfolding worth
worth-append n [] vs = refl
worth-append n (u ∷ us) vs = worth-append (add_u64 n u.value) us vs

module _ (sats fr pinned prefunded : ℕ) where
  -- The outputs `us` cover the payment and the fee of spending them.
  abbrev pub Covers : List Utxo → Type 0
  Covers us = target sats fr pinned (length us) ≤ worth prefunded us

  -- No beginning of `us` covers.
  abbrev pub Fails : List Utxo → Type 0
  Fails us = (vs ws : List Utxo) → us ≡ vs ++ ws → ¬ Covers vs

snoc_prefix :
    (us : List Utxo) (u : Utxo) (vs ws : List Utxo)
    → us ++ (u ∷ []) ≡ vs ++ ws
    → (vs ≡ us ++ (u ∷ [])) ⊎ ((rest : List Utxo) × (us ≡ vs ++ rest))
snoc_prefix us u [] ws e = inr (us, refl)
snoc_prefix [] u (v ∷ []) ws e = inl (ground arith)
snoc_prefix [] u (v ∷ w ∷ vs) ws e = absurd (ground arith)
snoc_prefix (x ∷ us) u (v ∷ vs) ws e = elim (snoc_prefix us u vs ws (ground arith)) [
  | inl same ↦ inl (ground arith)
  | inr (rest, split) ↦ inr (rest, ground arith)
]

nil_ne_append : (vs : List Utxo) (u : Utxo) (ws : List Utxo) → ¬ ([] ≡ vs ++ (u ∷ ws))
nil_ne_append [] u ws e = absurd (ground arith)
nil_ne_append (v ∷ vs) u ws e = absurd (ground arith)

nil_prefix : (vs ws : List Utxo) → [] ≡ vs ++ ws → [] ≡ vs
nil_prefix [] ws e = refl
nil_prefix (v ∷ vs) ws e = absurd (ground arith)

module _ (sats fr pinned prefunded : ℕ) where
  Fails-snoc :
      (us : List Utxo) (u : Utxo)
      → Fails sats fr pinned prefunded us
      → ¬ Covers sats fr pinned prefunded (us ++ (u ∷ []))
      → Fails sats fr pinned prefunded (us ++ (u ∷ []))
  Fails-snoc us u fails short vs ws e = elim (snoc_prefix us u vs ws e) [
    | inl same ↦ subst⁻¹ (λ x. ¬ Covers sats fr pinned prefunded x) same short
    | inr (rest, split) ↦ fails vs rest split
  ]

  -- What a selection `o` from `all` means: none, if no beginning covers, and otherwise the shortest
  -- beginning that covers.
  abbrev pub Selects : List Utxo → Option (List Utxo) → Type 0
  Selects all none = Fails sats fr pinned prefunded all
  Selects all (some us) =
      (rest : List Utxo) × (all ≡ us ++ rest)
      × Covers sats fr pinned prefunded us
      × ((vs : List Utxo) (u : Utxo) (ws : List Utxo)
          → us ≡ vs ++ (u ∷ ws)
          → ¬ Covers sats fr pinned prefunded vs)

  strict_prefix :
      (us : List Utxo) (u : Utxo)
      → Fails sats fr pinned prefunded us
      → (vs : List Utxo) (v : Utxo) (ws : List Utxo) → us ++ (u ∷ []) ≡ vs ++ (v ∷ ws)
      → ¬ Covers sats fr pinned prefunded vs
  strict_prefix us u fails vs v ws e = elim (snoc_prefix us u vs (v ∷ ws) e) [
    | inl same ↦ absurd (
        let long : length (us ++ (u ∷ [])) ≡ length (vs ++ (v ∷ ws)) = ap length e in
        let short : length vs ≡ length (us ++ (u ∷ [])) = ap length same in
        omega (arith, long, short, length-append vs (v ∷ ws)))
    | inr (rest, split) ↦ fails vs rest split
  ]

  select_from-Selects :
      (selected us : List Utxo)
      → Fails sats fr pinned prefunded selected
      → Selects (selected ++ us) (select_from sats fr pinned selected (worth prefunded selected) us)
  unfolding select_from
  select_from-Selects selected [] fails =
      subst⁻¹ (λ x. Fails sats fr pinned prefunded x) (append-nil selected) fails
  select_from-Selects selected (u ∷ us) fails =
      let next : List Utxo = selected ++ (u ∷ []) in
      let running : worth prefunded next ≡ add_u64 (worth prefunded selected) u.value =
        worth-append prefunded selected (u ∷ []) ∙ (unfold worth in refl) in
      let all : selected ++ (u ∷ us) ≡ next ++ us = sym (append_assoc selected (u ∷ []) us) in
      elim (Bool-cases
        (leb (target sats fr pinned (length next)) (add_u64 (worth prefunded selected) u.value))) [
          | inl enough ↦
              rw enough (us, all, ground (arith, running), strict_prefix selected u fails)
          | inr short ↦ rw short (
              rw all (
                subst (λ n. Selects (next ++ us) (select_from sats fr pinned next n us)) running
                  (select_from-Selects next us
                    (Fails-snoc selected u fails (ground (arith, running))))))
        ]

-- The selection goes over a list of exactly the wallet's outputs, the largest first, and takes the
-- shortest beginning of it that, with the pinned inputs, covers the payment and the estimated fee of
-- spending those outputs; it answers `None` only if no beginning covers it.
pub select_largest_first_shortest :
    (utxos : List Utxo) (sats fr prefunded pinned : ℕ)
    → Selects sats fr pinned prefunded
        (sort_utxos utxos)
        (select_largest_first utxos sats fr prefunded pinned)
      × IsDescending (sort_utxos utxos)
      × Perm (sort_utxos utxos) utxos
unfolding select_largest_first worth
select_largest_first_shortest utxos sats fr prefunded pinned = (
  elim (Bool-cases (leb (target sats fr pinned 0) prefunded)) [
    | inl enough ↦
        rw enough
          (sort_utxos utxos, refl, ground arith, λ vs u ws e. absurd (nil_ne_append vs u ws e))
    | inr short ↦ rw short (
        select_from-Selects sats fr pinned prefunded [] (sort_utxos utxos) (λ vs ws e.
          subst (λ x. ¬ Covers sats fr pinned prefunded x) (nil_prefix vs ws e) (ground arith)))
  ],
  sort_utxos-IsDescending utxos,
  sort_utxos-Perm utxos,
)
