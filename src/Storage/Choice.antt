-- ===== src/Storage/Choice.antt =====
-- Which identity storage.rs picks.
use computermoney.Prelude.{
  Text, text_eq_iff, text_eq_refl, trim, contains, true, Bool-cases, inl, inr, Option, none, some,
  List, [], ◌∷◌, ◌&&◌, ◌≡◌, refl, sym, ap, ◌∙◌, arith, ◌⊎◌,
}
use computermoney.Result.{ok}
use computermoney.Storage.{selects, hits, sole, pick_default, pick_identity}

contains-hits :
    (want id : Text) (ids : List Text)
    → contains id (hits want ids) ≡ (contains id ids && selects want id)
unfolding contains hits
contains-hits want id [] = ground arith
contains-hits want id (i ∷ ids) = ground (arith, contains-hits want id ids, text_eq_iff i id)

sole-eq-ok :
    (nothing several : Text) (ids : List Text) (id : Text)
    → sole nothing several ids ≡ ok id
    → ids ≡ id ∷ []
unfolding sole
sole-eq-ok nothing several [] id h = absurd (cc)
sole-eq-ok nothing several (i ∷ []) id h = ground arith
sole-eq-ok nothing several (i ∷ j ∷ ids) id h = absurd (cc)

contains-one : (i id : Text) → contains i (id ∷ []) ≡ true → i ≡ id
unfolding contains
contains-one i id h = ground (arith, text_eq_iff id i)

-- An identity picked by `CM_ID` is one of those stored, the selector matches it, and the selector
-- matches no other.
pub pick_identity_explicit :
    (ids : List Text) (want : Text) (default : Option Text) (id : Text)
    → pick_identity ids (some want) default ≡ ok id
    → (contains id ids ≡ true)
      × (selects (trim want) id ≡ true)
      × ((i : Text) → contains i ids ≡ true → selects (trim want) i ≡ true → i ≡ id)
unfolding pick_identity
pick_identity_explicit ids want default id h =
    let one : hits (trim want) ids ≡ id ∷ [] = sole-eq-ok _ _ (hits (trim want) ids) id h in
    let self : contains id (hits (trim want) ids) ≡ true =
      ap (contains id) one ∙ unfold contains in ground (arith, text_eq_refl id) in
    let both = contains-hits (trim want) id ids in
    (
      ground arith,
      ground arith,
      λ i stored match. contains-one i id (
          ap (contains i) (sym one)
          ∙ contains-hits (trim want) i ids
          ∙ ground (arith, stored, match)),
    )

-- Without `CM_ID` the identity picked is one of those stored: the one that the marker names, or the
-- only one.
pub pick_identity_implicit :
    (ids : List Text) (default : Option Text) (id : Text)
    → pick_identity ids none default ≡ ok id
    → (contains id ids ≡ true)
      × (((d : Text) × (default ≡ some d) × (trim d ≡ id)) ⊎ (ids ≡ id ∷ []))
unfolding pick_identity pick_default
pick_identity_implicit ids none id h =
    let one = sole-eq-ok _ _ ids id h in
    (ap (contains id) one ∙ unfold contains in ground (arith, text_eq_refl id), inr one)
pick_identity_implicit ids (some d) id h = elim (Bool-cases (contains (trim d) ids)) [
  | inl named ↦ (ground arith, inl (d, refl, ground arith))
  | inr absent ↦
      let one = sole-eq-ok _ _ ids id (rw absent at h) in
      (ap (contains id) one ∙ unfold contains in ground (arith, text_eq_refl id), inr one)
]
