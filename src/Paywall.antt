-- ===== src/Paywall.antt =====
-- paywall.rs: the seller's endpoint. A request is the text of its head; the answer is its status and
-- body, before it is written to the stream.
pub mod Redeem
use computermoney.Prelude.{
  ℕ, Text, codes, text_eq, trim, is_whitespace, to_lower, contains, length, leb, Bool, true, false,
  not, ◌&&◌, ◌||◌, Option, none, some, List, [], ◌∷◌, ◌++◌, map, ◌==◌, if◌then◌else◌,
}
use computermoney.Result.{Result, ok, err}
use computermoney.Matching.{ScanHost, tx_pays_me}

pub record Terms : Type 0 where
  pub cm402 : ℕ
  pub sats : ℕ
  pub pay_to : Text
  pub network : Text

pub record Request : Type 0 where
  pub method : Text
  pub payment : Option Text

pub data Response : Type 0 where
  not_allowed : Response
  paid : Text → Response
  unpaid : Terms → Response

-- What is sold: price, body, and the terms' code and network.
pub record Offer : Type 0 where
  pub price_sats : ℕ
  pub body : Text
  pub sp_code : Text
  pub network : Text

abbrev pub head_limit : ℕ
head_limit = 8192

-- `read_headers` over the lines that `read_line` returns: up to an empty line, the end, or the limit.
unfoldable pub read_headers : Text → List Text → Text
read_headers raw [] = raw
read_headers raw (line ∷ rest) =
    let more = read_headers (raw ++ line) rest in
    if text_eq line (13 ∷ 10 ∷ [])
      || text_eq line (10 ∷ [])
      || not (leb (length (raw ++ line)) head_limit)
    then raw ++ line
    else more

-- In front of the first part.
unfoldable pub cons_first : ℕ → List Text → List Text
cons_first c [] = (c ∷ []) ∷ []
cons_first c (l ∷ ls) = (c ∷ l) ∷ ls

-- `raw.split("\\r\\n")`
unfoldable pub split_crlf : Text → List Text
split_crlf [] = [] ∷ []
split_crlf (c ∷ []) = (c ∷ []) ∷ []
split_crlf (c ∷ d ∷ cs) =
    let after = split_crlf cs in
    let more = split_crlf (d ∷ cs) in if c == 13 && d == 10 then [] ∷ after else cons_first c more

unfoldable pub until_space : Text → Text
until_space [] = []
until_space (c ∷ cs) = let rest = until_space cs in if is_whitespace c then [] else c ∷ rest

-- `first.split_whitespace().next().unwrap_or("")`
unfoldable pub first_word : Text → Text
first_word s = until_space (trim s)

unfoldable pub keep_name : ℕ → Option (Text × Text) → Option (Text × Text)
keep_name c none = none
keep_name c (some (name, value)) = some (c ∷ name, value)

-- `line.split_once(':')`
unfoldable pub split_colon : Text → Option (Text × Text)
split_colon [] = none
split_colon (c ∷ cs) =
    let rest = split_colon cs in if c == b':' then some ([], cs) else keep_name c rest

unfoldable pub payment_in : Option (Text × Text) → Option Text → Option Text
payment_in none old = old
payment_in (some (name, value)) old =
    if text_eq (map to_lower (trim name)) (codes "x-payment") then some (trim value) else old

-- The loop over the header lines, up to an empty one.
unfoldable pub find_payment : Option Text → List Text → Option Text
find_payment payment [] = payment
find_payment payment ([] ∷ lines) = payment
find_payment payment ((c ∷ line) ∷ lines) =
    find_payment (payment_in (split_colon (c ∷ line)) payment) lines

unfoldable pub of_lines : List Text → Request
of_lines [] = record { method = []; payment = none }
of_lines (first ∷ lines) = record { method = first_word first; payment = find_payment none lines }

unfoldable pub parse_request : Text → Request
parse_request raw = of_lines (split_crlf raw)

unfoldable pub is_hexdigit : ℕ → Bool
is_hexdigit c =
    (leb b'0' c && leb c b'9') || (leb b'a' c && leb c b'f') || (leb b'A' c && leb c b'F')

unfoldable pub all_hexdigit : Text → Bool
all_hexdigit [] = true
all_hexdigit (c ∷ cs) = is_hexdigit c && all_hexdigit cs

unfoldable pub is_txid : Text → Bool
is_txid s = length s == 64 && all_hexdigit s

unfoldable pub respond : Offer → Bool → Response
respond offer true = paid offer.body
respond offer false =
    unpaid (record {
      cm402 = 1;
      sats = offer.price_sats;
      pay_to = offer.sp_code;
      network = offer.network;
    })

module _ ⦃s : ScanHost⦄ where
  unfoldable pub judge : ℕ → Text → List Text → Result ℕ → Bool × List Text
  judge price_sats txid used (err e) = (false, used)
  judge price_sats txid used (ok sats) =
      if leb price_sats sats then (true, txid ∷ used) else (false, used)

  -- `used` is the set of the txids redeemed in this session.
  unfoldable pub verify_payment : ℕ → Text → List Text → Bool × List Text
  verify_payment price_sats txid used =
      if contains txid used then (false, used) else judge price_sats txid used (tx_pays_me txid)

  unfoldable pub check_paid : ℕ → Option Text → List Text → Bool × List Text
  check_paid price_sats none used = (false, used)
  check_paid price_sats (some txid) used =
      if is_txid txid then verify_payment price_sats txid used else (false, used)

  unfoldable pub handle : Offer → Text → List Text → Response × List Text
  handle offer raw used =
      let req = parse_request raw in
      let verdict = check_paid offer.price_sats req.payment used in
      if text_eq req.method (codes "GET")
      then (respond offer verdict.0, verdict.1)
      else (not_allowed, used)

  -- The accept loop, over the requests in turn.
  unfoldable pub run : Offer → List Text → List Text → List Response × List Text
  run offer [] used = ([], used)
  run offer (raw ∷ raws) used =
      let (answer, used') = handle offer raw used in
      let (answers, last) = run offer raws used' in (answer ∷ answers, last)
