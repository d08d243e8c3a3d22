-- ===== src/Samples/Codec.antt =====
-- A stand-in for the libraries of ledger.rs that meets what is assumed of them: a number is one
-- symbol, a text ends with a stop symbol, and a signature is the key before the message.
use computermoney.Prelude.{
  ℕ, zero, suc, ◌+◌, ◌-◌, Text, text_eq, text_eq_refl, Bool, Option, none, some, [], ◌∷◌, ◌++◌, ◌≡◌,
  refl, arith, ◌==◌, if◌then◌else◌, All,
}
use computermoney.Ledger.Entry.{
  Status, Entry, address_issued, sent, received, status_update, sp_received, sp_spent,
}
use computermoney.Ledger.Platform.{Record, Platform, IsSound, IsPlain}

infixl 5 ◌>>=◌
abbrev pub ◌>>=◌ : {A B : Type 0} → Option A → (A → Option B) → Option B
none >>= f = none
some a >>= f = f a

-- Written in front of `rest`.
unfoldable pub put_num : ℕ → Text → Text
put_num n rest = (n + 14) ∷ rest

unfoldable pub put_text : Text → Text → Text
put_text [] rest = 14 ∷ rest
put_text (c ∷ t) rest = (c + 15) ∷ put_text t rest

unfoldable pub rank : Status → ℕ
rank Status.pending = 0
rank Status.soft = 1
rank Status.final = 2
rank Status.failed = 3

unfoldable pub put_entry : Entry → Text → Text
put_entry (address_issued s index) r = put_num 0 (put_num s (put_num index r))
put_entry (sent s txid sats to status at) r =
    put_num 1 (
      put_num s (put_text txid (put_num sats (put_text to (put_num (rank status) (put_num at r))))))
put_entry (received s txid sats index status) r =
    put_num 2 (put_num s (put_text txid (put_num sats (put_num index (put_num (rank status) r)))))
put_entry (status_update s txid status) r =
    put_num 3 (put_num s (put_text txid (put_num (rank status) r)))
put_entry (sp_received s txid vout sats tweak status) r = put_num 4 (
    put_num s
      (put_text txid (put_num vout (put_num sats (put_text tweak (put_num (rank status) r))))))
put_entry (sp_spent s txid vout) r = put_num 5 (put_num s (put_text txid (put_num vout r)))

unfoldable pub put_record : Record → Text
put_record r = b'{' ∷ put_entry r.entry (put_text r.sig [])

unfoldable pub get_num : Text → Option (ℕ × Text)
get_num [] = none
get_num (c ∷ cs) = some (c - 14, cs)

unfoldable pub get_text : Text → Option (Text × Text)
get_text [] = none
get_text (c ∷ cs) =
    let more = get_text cs in
    if c == 14
    then some ([], cs)
    else elim more [ none ↦ none | some (t, rest) ↦ some ((c - 15) ∷ t, rest) ]

unfoldable pub status_of : ℕ → Status
status_of zero = Status.pending
status_of (suc zero) = Status.soft
status_of (suc (suc zero)) = Status.final
status_of (suc (suc (suc n))) = Status.failed

unfoldable pub get_fields : ℕ → Text → Option (Entry × Text)
get_fields zero r = do (s, r) ← get_num r; (i, r) ← get_num r; some (address_issued s i, r)
get_fields (suc zero) r = do
  (s, r) ← get_num r
  (txid, r) ← get_text r
  (sats, r) ← get_num r
  (to, r) ← get_text r
  (status, r) ← get_num r
  (at, r) ← get_num r
  some (sent s txid sats to (status_of status) at, r)
get_fields (suc (suc zero)) r = do
  (s, r) ← get_num r
  (txid, r) ← get_text r
  (sats, r) ← get_num r
  (index, r) ← get_num r
  (status, r) ← get_num r
  some (received s txid sats index (status_of status), r)
get_fields (suc (suc (suc zero))) r = do
  (s, r) ← get_num r
  (txid, r) ← get_text r
  (status, r) ← get_num r
  some (status_update s txid (status_of status), r)
get_fields (suc (suc (suc (suc zero)))) r = do
  (s, r) ← get_num r
  (txid, r) ← get_text r
  (vout, r) ← get_num r
  (sats, r) ← get_num r
  (tweak, r) ← get_text r
  (status, r) ← get_num r
  some (sp_received s txid vout sats tweak (status_of status), r)
get_fields (suc (suc (suc (suc (suc n))))) r = do
  (s, r) ← get_num r
  (txid, r) ← get_text r
  (vout, r) ← get_num r
  some (sp_spent s txid vout, r)

unfoldable pub get_entry : Text → Option (Entry × Text)
get_entry r = do (tag, r) ← get_num r; get_fields tag r

unfoldable pub get_record : Text → Option Record
get_record [] = none
get_record (c ∷ cs) =
    if c == b'{'
    then (do (e, r) ← get_entry cs; (sig, r) ← get_text r; some (record { entry = e; sig = sig }))
    else none

get_num-put_num : (n : ℕ) (r : Text) → get_num (put_num n r) ≡ some (n, r)
unfolding get_num put_num
get_num-put_num n r = ground arith

get_text-put_text : (t r : Text) → get_text (put_text t r) ≡ some (t, r)
unfolding get_text put_text
get_text-put_text [] r = ground arith
get_text-put_text (c ∷ t) r = ground (arith, get_text-put_text t r)

status_of-rank : (s : Status) → status_of (rank s) ≡ s
unfolding status_of rank
status_of-rank Status.pending = refl
status_of-rank Status.soft = refl
status_of-rank Status.final = refl
status_of-rank Status.failed = refl

ruleset codec_laws = (get_num-put_num, get_text-put_text, status_of-rank)

get_entry-put_entry : (e : Entry) (r : Text) → get_entry (put_entry e r) ≡ some (e, r)
unfolding get_entry put_entry get_fields
get_entry-put_entry (address_issued s index) r = simp codec_laws
get_entry-put_entry (sent s txid sats to status at) r = simp codec_laws
get_entry-put_entry (received s txid sats index status) r = simp codec_laws
get_entry-put_entry (status_update s txid status) r = simp codec_laws
get_entry-put_entry (sp_received s txid vout sats tweak status) r = simp codec_laws
get_entry-put_entry (sp_spent s txid vout) r = simp codec_laws

get_record-put_record : (r : Record) → get_record (put_record r) ≡ some r
unfolding get_record put_record
get_record-put_record r = simp (get_entry-put_entry, get_text-put_text)

put_num-IsPlain : (n : ℕ) (r : Text) → All IsPlain r → All IsPlain (put_num n r)
unfolding put_num
put_num-IsPlain n r h = ((omega arith, omega arith), h)

put_text-IsPlain : (t r : Text) → All IsPlain r → All IsPlain (put_text t r)
unfolding put_text
put_text-IsPlain [] r h = ((omega arith, omega arith), h)
put_text-IsPlain (c ∷ t) r h = ((omega arith, omega arith), put_text-IsPlain t r h)

ruleset plain_rules = (put_num-IsPlain, put_text-IsPlain)

put_entry-IsPlain : (e : Entry) (r : Text) → All IsPlain r → All IsPlain (put_entry e r)
unfolding put_entry
put_entry-IsPlain (address_issued s index) r h = search plain_rules
put_entry-IsPlain (sent s txid sats to status at) r h = search plain_rules depth 10
put_entry-IsPlain (received s txid sats index status) r h = search plain_rules depth 10
put_entry-IsPlain (status_update s txid status) r h = search plain_rules depth 10
put_entry-IsPlain (sp_received s txid vout sats tweak status) r h = search plain_rules depth 10
put_entry-IsPlain (sp_spent s txid vout) r h = search plain_rules depth 10

put_record-IsPlain : (r : Record) → All IsPlain (put_record r)
unfolding put_record
put_record-IsPlain r =
    ((omega arith, omega arith), put_entry-IsPlain r.entry _ (put_text-IsPlain r.sig [] tt))

unfoldable pub tagged_sign : Text → Text → Text
tagged_sign key message = key ++ (0 ∷ message)

unfoldable pub tagged_check : Text → Text → Text → Bool
unfolding tagged_sign
tagged_check key message sig = text_eq sig (tagged_sign key message)

instance abbrev pub plain_codec : Platform
plain_codec = record {
  to_vec = λ e. put_entry e [];
  to_string = put_record;
  from_str = get_record;
  sha256 = λ m. m;
  x_only_public_key = λ k. k;
  sign_schnorr = tagged_sign;
  to_hex = λ s. s;
  from_hex = some;
  verify_schnorr = tagged_check;
}

-- The stand-in meets what is assumed.
pub plain_codec-IsSound : IsSound plain_codec
unfolding put_record tagged_check
plain_codec-IsSound = record {
  read_back = get_record-put_record;
  one_line = put_record-IsPlain;
  starts = λ r. (put_entry r.entry (put_text r.sig []), refl);
  hex_back = λ s. refl;
  signed = λ k m. text_eq_refl (tagged_sign k m);
}
