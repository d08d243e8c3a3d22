-- ===== src/Sp/Agreement.antt =====
-- The sender and the receiver of sp.rs agree on the one-time key.
use computermoney.Prelude.{
  ℕ, zero, suc, Text, text_eq, text_eq_refl, length, false, some, List, [], ◌∷◌, ◌++◌, map, add_u32,
  ◌≡◌, refl, sym, ap, ◌∙◌, inl, inr, subst, Option-cases,
}
use computermoney.Result.{ok, try_then}
use computermoney.Result.Success.{try_then-eq-ok, ok_inj}
use computermoney.Build.{OutPoint, SpInput}
use computermoney.Matching.{ScanHost, SpFound, smallest_outpoint}
use computermoney.Sp.{
  Curve, Output, output_at, sum_secrets, sum_points, exchange, take_output, receive_from,
  input_hash, with_smallest, sender_context, send_key, receive_inner,
}

-- What the curve's operations do: the public key of a sum is the sum of the public keys, and each side
-- of an exchange, its secret times a hash on the other's point, reaches the same point.
pub record IsGroup (c : Curve) : Type 0 where
  pub sums :
      (a k s b : Text)
      → c.scalar k ≡ ok s
      → c.add_tweak a s ≡ ok b
      → c.combine (c.public_key a) (c.public_key k) ≡ ok (c.public_key b)
  pub exchanges :
      (a b h x y : Text)
      → c.mul_secret a h ≡ ok x
      → c.mul_secret b h ≡ ok y
      → try_then (c.scalar x) (c.mul_point (c.public_key b))
        ≡ try_then (c.scalar y) (c.mul_point (c.public_key a))

-- No output before has the key.
abbrev pub Misses : Text → List Output → Type 0
Misses x [] = Unit
Misses x ((vout, (key, sats)) ∷ outs) = (text_eq key x ≡ false) × Misses x outs

module _ ⦃c : Curve⦄ (group : IsGroup c) where
  sum_points-public :
      (a : Text) (ks : List Text) (b : Text)
      → sum_secrets a ks ≡ ok b
      → sum_points (c.public_key a) (map c.public_key ks) ≡ ok (c.public_key b)
  unfolding sum_secrets sum_points
  sum_points-public a [] b e = ap (λ x. ok (c.public_key x)) (ok_inj a b e)
  sum_points-public a (k ∷ ks) b e =
      let (s, scaled, rest) = try_then-eq-ok (c.scalar k) _ e in
      let (a', added, more) = try_then-eq-ok (c.add_tweak a s) _ rest in
      rw (group.sums a k s a' scaled added) (sum_points-public a' ks b more)

  exchange-agrees :
      (a b hash x y : Text)
      → exchange a hash (c.public_key b) ≡ ok x
      → exchange b hash (c.public_key a) ≡ ok y
      → x ≡ y
  unfolding exchange
  exchange-agrees a b hash x y e f =
      let (h, scaled, rest) = try_then-eq-ok (c.scalar hash) _ e in
      let (p, mine, point) = try_then-eq-ok (c.mul_secret a h) _ rest in
      let (h', scaled', rest') = try_then-eq-ok (c.scalar hash) _ f in
      let (q, theirs, point') = try_then-eq-ok (c.mul_secret b h') _ rest' in
      let same : h' ≡ h = ok_inj h' h (sym scaled' ∙ scaled) in
      ok_inj x y (
        sym point
        ∙ group.exchanges a b h p q mine (subst (λ n. c.mul_secret b n ≡ ok q) same theirs)
        ∙ point')

take_output-middle :
    (x : Text) (vout sats : ℕ) (before after : List Output)
    → Misses x before
    → take_output x (before ++ ((vout, (x, sats)) ∷ after))
      ≡ some ((vout, (x, sats)), before ++ after)
unfolding take_output
take_output-middle x vout sats [] after h = rw text_eq_refl refl
take_output-middle x vout sats ((v, (key, n)) ∷ before) after (miss, h) =
    rw miss (rw (take_output-middle x vout sats before after h) refl)

module _ ⦃c : Curve⦄ where
  -- What was found stays in front.
  receive_from-keeps :
      (n : ℕ) (ecdh spend : Text) (k : ℕ) (outs : List Output) (f : SpFound)
      (fs found : List SpFound)
      → receive_from n ecdh spend k outs (f ∷ fs) ≡ ok found
      → (rest : List SpFound) × (found ≡ f ∷ rest)
  unfolding receive_from
  receive_from-keeps n ecdh spend k [] f fs found e = (fs, sym (ok_inj _ _ e))
  receive_from-keeps zero ecdh spend k (o ∷ outs) f fs found e = (fs, sym (ok_inj _ _ e))
  receive_from-keeps (suc n) ecdh spend k (o ∷ outs) f fs found e =
      let (at_k, _, rest) = try_then-eq-ok (output_at ecdh spend k) _ e in
      elim (Option-cases (take_output at_k.0 (o ∷ outs))) [
        | inl none_left ↦ (fs, sym (ok_inj _ _ (rw none_left at rest)))
        | inr (taken, some_left) ↦
            receive_from-keeps n ecdh spend (add_u32 k 1) taken.1 f _ found (rw some_left at rest)
      ]

  first_turn :
      (n : ℕ) (ecdh spend x tweak : Text) (outs others : List Output) (vout sats : ℕ) (key : Text)
      (found : List SpFound)
      → output_at ecdh spend 0 ≡ ok (x, tweak)
      → take_output x outs ≡ some ((vout, (key, sats)), others)
      → receive_from (suc n) ecdh spend 0 outs [] ≡ ok found
      → (rest : List SpFound) × (found ≡ record { vout = vout; sats = sats; tweak = tweak } ∷ rest)
  unfolding receive_from
  first_turn n ecdh spend x tweak [] others vout sats key found at_0 taken e =
      absurd (unfold take_output in cc)
  first_turn n ecdh spend x tweak (o ∷ outs) others vout sats key found at_0 taken e =
      let (at_k, at, rest) = try_then-eq-ok (output_at ecdh spend 0) _ e in
      let same : at_k ≡ (x, tweak) = ok_inj _ _ (sym at ∙ at_0) in
      let took : take_output at_k.0 (o ∷ outs) ≡ some ((vout, (key, sats)), others) =
        ap (λ q. take_output q.0 (o ∷ outs)) same ∙ taken in
      let (more, front) =
        receive_from-keeps n ecdh spend (add_u32 0 1) others
          (record { vout = vout; sats = sats; tweak = at_k.1 }) [] found (rw took at rest) in
      (more, front ∙ ap (λ q. record { vout = vout; sats = sats; tweak = q.1 } ∷ more) same)

map-map :
    {A B C : Type 0} (f : A → B) (g : B → C) (l : List A) → map g (map f l) ≡ map (λ x. g (f x)) l
map-map f g [] = refl
map-map f g (x ∷ l) = ap (λ t. g (f x) ∷ t) (map-map f g l)

length_middle :
    (o : Output) (before after : List Output) → (n : ℕ) × (length (before ++ (o ∷ after)) ≡ suc n)
length_middle o [] after = (length after, refl)
length_middle o (b ∷ before) after = (length (before ++ (o ∷ after)), refl)

module _ ⦃c : Curve⦄ ⦃s : ScanHost⦄ (group : IsGroup c) where
  sender_context-eq-ok :
      (i : SpInput) (rest : List SpInput) (a hash : Text) (smallest : OutPoint)
      → smallest_outpoint (map (λ j. j.0) (i ∷ rest)) ≡ some smallest
      → sender_context (i ∷ rest) ≡ ok (a, hash)
      → (sum_secrets i.1 (map (λ j. j.1) rest) ≡ ok a)
        × (input_hash smallest (c.public_key a) ≡ hash)
  unfolding sender_context with_smallest
  sender_context-eq-ok i rest a hash smallest least e =
      let (a', summed, more) = try_then-eq-ok (sum_secrets i.1 (map (λ j. j.1) rest)) _ e in
      let both = ok_inj _ _ (rw (least, with_smallest) at more) in
      let same : a' ≡ a = ap (λ q. q.0) both in
      (
        summed ∙ ap ok same,
        ap (λ z. input_hash smallest (c.public_key z)) (sym same) ∙ ap (λ q. q.1) both,
      )

  -- A receiver whose check of a transaction comes to an end finds first the output that pays the
  -- key which the sender derived from the same inputs for its code, with that output's value,
  -- whatever the other outputs are, where no earlier output has that key and the curve adds and
  -- exchanges keys as a group does.
  pub sent_output_found :
      (i : SpInput) (inputs : List SpInput) (smallest : OutPoint) (scan_sk spend x : Text)
      → smallest_outpoint (map (λ j. j.0) (i ∷ inputs)) ≡ some smallest
      → send_key (i ∷ inputs) (c.public_key scan_sk) spend ≡ ok x
      → (before after : List Output) (vout sats : ℕ) (found : List SpFound) → Misses x before
      → receive_inner
          (map (λ j. c.public_key j.1) (i ∷ inputs))
          smallest
          (before ++ ((vout, (x, sats)) ∷ after))
          scan_sk
          spend
        ≡ ok found
      → (tweak : Text) × (rest : List SpFound) × (found
          ≡ record { vout = vout; sats = sats; tweak = tweak } ∷ rest)
  unfolding send_key receive_inner
  sent_output_found i inputs smallest scan_sk spend x least sent before after vout sats found misses
        got =
      let (ctx, context, s₁) = try_then-eq-ok (sender_context (i ∷ inputs)) _ sent in
      let (ecdh, mine, s₂) = try_then-eq-ok (exchange ctx.0 ctx.1 (c.public_key scan_sk)) _ s₁ in
      let (o, out, s₃) = try_then-eq-ok (output_at ecdh spend 0) _ s₂ in
      let (summed, hashed) = sender_context-eq-ok i inputs ctx.0 ctx.1 smallest least context in
      let points : sum_points (c.public_key i.1) (map (λ j. c.public_key j.1) inputs)
          ≡ ok (c.public_key ctx.0) =
        ap (sum_points (c.public_key i.1))
          (sym (map-map (λ (j : SpInput). j.1) c.public_key inputs))
        ∙ sum_points-public group i.1 (map (λ j. j.1) inputs) ctx.0 summed in
      let (a_sum, added, r₁) =
        try_then-eq-ok (sum_points (c.public_key i.1) (map (λ j. c.public_key j.1) inputs)) _ got in
      let (ecdh', theirs, r₂) =
        try_then-eq-ok (exchange scan_sk (input_hash smallest a_sum) a_sum) _ r₁ in
      let ours : a_sum ≡ c.public_key ctx.0 = ok_inj _ _ (sym added ∙ points) in
      let theirs' : exchange scan_sk ctx.1 (c.public_key ctx.0) ≡ ok ecdh' =
        subst (λ z. exchange scan_sk z (c.public_key ctx.0) ≡ ok ecdh') hashed
          (subst (λ z. exchange scan_sk (input_hash smallest z) z ≡ ok ecdh') ours theirs) in
      let shared : ecdh ≡ ecdh' =
        exchange-agrees group ctx.0 scan_sk ctx.1 ecdh ecdh' mine theirs' in
      let key : o.0 ≡ x = ok_inj _ _ s₃ in
      let at_0 : output_at ecdh' spend 0 ≡ ok (x, o.1) =
        subst (λ z. output_at z spend 0 ≡ ok (x, o.1)) shared (out ∙ ap (λ z. ok (z, o.1)) key) in
      let outs : List Output = before ++ ((vout, (x, sats)) ∷ after) in
      let (n, len) = length_middle (vout, (x, sats)) before after in
      let (more, front) =
        first_turn n ecdh' spend x o.1 outs (before ++ after) vout sats x found at_0
          (take_output-middle x vout sats before after misses)
          (subst (λ m. receive_from m ecdh' spend 0 outs [] ≡ ok found) len r₂) in
      (o.1, more, front)
