-- ===== src/Ledger/Store.antt =====
-- ledger.rs: the file, opening it and appending to it. Every call of the file system may fail.
use computermoney.Prelude.{
  ℕ, Text, is_blank, Bool, true, false, Option, none, some, List, [], ◌∷◌, ◌++◌, map, take, ◌==◌,
  if◌then◌else◌,
}
use computermoney.Result.{
  io, invalid_data, bad_signature, Result, ok, err, Exec, gets, modify, ◌>>=◌, ◌>>◌,
}
use computermoney.Ledger.Entry.{Entry, seq}
use computermoney.Ledger.Platform.{Record, Platform}

-- How a call of the file system ends: as asked, with an error before anything was written, or with
-- an error after that many bytes were.
pub data Fault : Type 0 where
  works fails : Fault
  tears : ℕ → Fault

-- The bytes of `ledger.jsonl` (none if there is no file), the files `pending/<txid>.tx`, and how
-- the calls to come will end: when the list is used up, all work.
pub record Disk : Type 0 where
  pub file : Text
  pub sidecars : List (Text × Text)
  pub faults : List Fault

pub record Ledger : Type 0 where
  pub entries : List Entry
  pub identity : Option Text

-- A ledger in memory, the disk under it, and the transactions handed to the network.
pub record World : Type 0 where
  pub ledger : Ledger
  pub disk : Disk
  pub broadcasts : List Text

abbrev pub head_fault : List Fault → Fault
head_fault [] = works
head_fault (f ∷ fs) = f

abbrev pub rest_faults : List Fault → List Fault
rest_faults [] = []
rest_faults (f ∷ fs) = fs

-- `BufRead::lines`: split behind each line feed, and drop a carriage return before it.
unfoldable pub push : ℕ → List Text → List Text
push c [] = (c ∷ []) ∷ []
push c (l ∷ ls) = (c ∷ l) ∷ ls

unfoldable pub split_lines : Text → List Text
split_lines [] = []
split_lines (c ∷ cs) = let rest = split_lines cs in if c == 10 then [] ∷ rest else push c rest

unfoldable pub strip_cr : Text → Text
strip_cr [] = []
strip_cr (c ∷ []) = if c == 13 then [] else c ∷ []
strip_cr (c ∷ d ∷ cs) = c ∷ strip_cr (d ∷ cs)

unfoldable pub lines : Text → List Text
lines file = map strip_cr (split_lines file)

abbrev pub cons_to : Entry → Result (List Entry) → Result (List Entry)
cons_to e (ok es) = ok (e ∷ es)
cons_to e (err x) = err x

abbrev pub and_then : Result Entry → Result (List Entry) → Result (List Entry)
and_then (ok e) rest = cons_to e rest
and_then (err x) rest = err x

abbrev pub with_identity : Option Text → Result (List Entry) → Result Ledger
with_identity identity (ok es) = ok (record { entries = es; identity = identity })
with_identity identity (err x) = err x

module _ ⦃p : Platform⦄ where
  unfoldable pub digest : Entry → Text
  digest e = p.sha256 (p.to_vec e)

  unfoldable pub sign : Text → Entry → Text
  sign keypair e = p.to_hex (p.sign_schnorr keypair (digest e))

  unfoldable pub verify : Text → Entry → Text → Bool
  verify pubkey e sig_hex = elim (p.from_hex sig_hex) [
    | none ↦ false
    | some sig ↦ p.verify_schnorr pubkey (digest e) sig
  ]

  -- The check of one line against the identity's public key, if there is an identity.
  unfoldable pub verify_record : Option Text → Record → Bool
  verify_record none r = true
  verify_record (some pk) r = verify pk r.entry r.sig

  unfoldable pub accept : Option Text → Option Record → Result Entry
  accept key none = err invalid_data
  accept key (some r) =
      if verify_record key r then ok r.entry else err (bad_signature (seq r.entry))

  -- The loop of `open_inner` over the lines.
  unfoldable pub read_entries : Option Text → List Text → Result (List Entry)
  read_entries key [] = ok []
  read_entries key (l ∷ ls) =
      let rest = read_entries key ls in
      if is_blank l then rest else and_then (accept key (p.from_str l)) rest

  abbrev pub public_half : Option Text → Option Text
  public_half none = none
  public_half (some kp) = some (p.x_only_public_key kp)

  -- What `open_inner` makes of the bytes of the file.
  unfoldable pub parse_ledger : Option Text → Text → Result Ledger
  unfolding read_entries lines
  parse_ledger identity file =
      with_identity identity (read_entries (public_half identity) (lines file))

  unfoldable pub open_inner : Option Text → Exec Disk Ledger
  unfolding parse_ledger
  open_inner identity d = elim (head_fault d.faults) [
    | works ↦ (parse_ledger identity d.file, record d { faults = rest_faults d.faults })
    | _ ↦ (err io, record d { faults = rest_faults d.faults })
  ]

  unfoldable pub seal : Option Text → Entry → Record
  seal none e = record { entry = e; sig = [] }
  seal (some kp) e = record { entry = e; sig = sign kp e }

  unfoldable pub line_of : Option Text → Entry → Text
  line_of identity e = p.to_string (seal identity e) ++ (10 ∷ [])

-- `open(append)`, `write_all` and `sync_all`.
unfoldable pub append_bytes : Text → Exec Disk (Unit {0})
append_bytes bytes d = elim (head_fault d.faults) [
  | works ↦ (ok tt, record d { file = d.file ++ bytes; faults = rest_faults d.faults })
  | fails ↦ (err io, record d { faults = rest_faults d.faults })
  | tears n ↦ (err io, record d { file = d.file ++ take n bytes; faults = rest_faults d.faults })
]

-- A call of the file system, from a method of the ledger.
unfoldable pub on_disk : {A : Type 0} → Exec Disk A → Exec World A
on_disk m w = ((m w.disk).0, record w { disk = (m w.disk).1 })

abbrev pub push_entry : Entry → World → World
push_entry e w = record w { ledger = record (w.ledger) { entries = w.ledger.entries ++ (e ∷ []) } }

module _ ⦃p : Platform⦄ where
  unfoldable pub append : Entry → Exec World (Unit {0})
  unfolding on_disk append_bytes
  append e = do
    identity ← gets (λ w. w.ledger.identity)
    on_disk (append_bytes (line_of identity e))
    modify (push_entry e)
