-- ===== src/Server/Rpc/Replies.antt =====
-- What the loop of mcp.rs answers, and how it ends.
use mathlib.Core.List.{filter_map}
use computermoney.Prelude.{
  ℕ, Text, codes, trim, is_blank, true, false, Option, none, some, List, [], ◌∷◌, ◌++◌, map, ◌≡◌,
  refl, ap, ◌∙◌, arith, Bool-cases, Option-cases, All, ◌⊎◌, inl, inr, if◌then◌else◌,
}
use computermoney.Result.{panicked}
use computermoney.Storage.{Host}
use computermoney.Chain.{Esplora}
use computermoney.Ledger.Platform.{Platform}
use computermoney.Build.{Bdk}
use computermoney.Matching.{ScanHost}
use computermoney.Pay.{Payer}
use computermoney.Protocol.{Json}
use computermoney.Fetch.{Web}
use computermoney.Wallet.{Account}
use computermoney.Discover.{Dht}
use computermoney.Tunnel.{Tunn, Socket}
use computermoney.Tunnel.Session.{Internet}
use computermoney.Server.Calls.{JsonValue, Reply, tool_err, Server, Ports}
use computermoney.Server.Rpc.{
  Frame, Outcome, skipped, died, answered, outcome, dispatch, on_message, on_line, serve_lines,
}

module _ ⦃v : JsonValue⦄ where
  -- The identifier under which a line is to be answered: none for a blank line and for a
  -- notification, and null for a line that is no JSON.
  abbrev pub reply_to : Text → Option v.Value
  reply_to line =
      if is_blank line
      then none
      else elim (v.from_str (trim line)) [ none ↦ some v.null | some msg ↦ v.get msg (codes "id") ]

module _ ⦃h : Host⦄ ⦃p : Platform⦄ ⦃c : Esplora⦄ ⦃b : Bdk⦄ ⦃y : Payer⦄ ⦃a : Account⦄ ⦃v : JsonValue⦄
    ⦃web : Web⦄ ⦃t : Tunn⦄ ⦃k : Socket⦄ ⦃j : Json⦄ ⦃n : Internet⦄ ⦃d : Dht⦄ ⦃s : ScanHost⦄
    ⦃o : Ports⦄ (fuel : ℕ) where
  -- A line is a request whose call panics.
  abbrev pub Panics : Text → Server → Type 0
  Panics line x =
      (msg : v.Value) × (id : v.Value) × (v.from_str (trim line) ≡ some msg)
      × (reply_to line ≡ some id)
      × ((dispatch fuel msg x).0 ≡ tool_err panicked)

  -- What became of a line is what it was to be answered under.
  Answers : Text → Server → Outcome fuel → Type 0
  Answers line x skipped = reply_to line ≡ none
  Answers line x (answered frame) = (reply_to line ≡ some frame.0) × ¬ (frame.1 ≡ tool_err panicked)
  Answers line x died = Panics line x

  outcome-Answers :
      (line : Text) (x : Server) (msg id : v.Value) (r : Reply)
      → v.from_str (trim line) ≡ some msg
      → reply_to line ≡ some id
      → (dispatch fuel msg x).0 ≡ r
      → Answers line x (outcome fuel id r)
  unfolding outcome Answers
  outcome-Answers line x msg id (tool_err panicked) parsed e run = (msg, id, parsed, e, run)
  outcome-Answers line x msg id r parsed e run = (e, ground arith)

  on_message-Answers :
      (line : Text) (msg : v.Value) (x : Server)
      → v.from_str (trim line) ≡ some msg
      → reply_to line ≡ v.get msg (codes "id")
      → Answers line x (on_message fuel msg x).0
  unfolding on_message Answers
  on_message-Answers line msg x parsed e = by_id (v.get msg (codes "id")) refl
    where
      by_id :
          (r : Option v.Value)
          → v.get msg (codes "id") ≡ r
          → Answers line x (on_message fuel msg x).0
      by_id none i = rw (i, on_message) (e ∙ i)
      by_id (some id) i = rw (i, on_message) (outcome-Answers line x msg id _ parsed (e ∙ i) refl)

  on_line-Answers : (line : Text) (x : Server) → Answers line x (on_line fuel line x).0
  unfolding on_line Answers
  on_line-Answers line x = elim (Bool-cases (is_blank line)) [
    | inl blank ↦ rw blank (rw blank refl)
    | inr full ↦ rw full (elim (Option-cases (v.from_str (trim line))) [
      | inl strange ↦ rw (strange, on_line) (rw (full, strange) refl, λ e. absurd (cc))
      | inr (msg, parsed) ↦
          rw (parsed, on_line) (on_message-Answers line msg x parsed (rw (full, parsed) refl))
    ])
  ]

  module _ (line : Text) (x : Server) where
    serve-skipped :
        (on_line fuel line x).0 ≡ skipped
        → (lines : List Text)
        → serve_lines fuel (line ∷ lines) x ≡ serve_lines fuel lines (on_line fuel line x).1
    unfolding serve_lines
    serve-skipped e lines = rw (e, serve_lines) refl

    serve-answered :
        (frame : Frame fuel)
        → (on_line fuel line x).0 ≡ answered frame
        → (lines : List Text)
        → serve_lines fuel (line ∷ lines) x ≡ (
          frame ∷ (serve_lines fuel lines (on_line fuel line x).1).0,
          (serve_lines fuel lines (on_line fuel line x).1).1,
        )
    unfolding serve_lines
    serve-answered frame e lines = rw (e, serve_lines) refl

    serve-died :
        (on_line fuel line x).0 ≡ died
        → (lines : List Text)
        → serve_lines fuel (line ∷ lines) x ≡ ([], (false, (on_line fuel line x).1))
    unfolding serve_lines
    serve-died e lines = rw (e, serve_lines) refl

  -- The identifiers of the frames that are written.
  abbrev pub ids_of : List Text → Server → List v.Value
  ids_of lines x = map (λ f. f.0) (serve_lines fuel lines x).0

  -- The lines after which the process dies of a call.
  abbrev pub Dies : List Text → Server → Type 0
  Dies lines x =
      (before : List Text) × (line : Text) × (after : List Text) × (lines
        ≡ before ++ (line ∷ after))
      × (ids_of lines x ≡ filter_map reply_to before)
      × ((serve_lines fuel before x).1.0 ≡ true)
      × Panics line (serve_lines fuel before x).1.1

  abbrev pub Served : List Text → Server → Type 0
  Served lines x =
      (((serve_lines fuel lines x).1.0 ≡ true) × (ids_of lines x ≡ filter_map reply_to lines))
      ⊎ (((serve_lines fuel lines x).1.0 ≡ false) × Dies lines x)

  on_outcome :
      (line : Text) (lines : List Text) (x : Server) (r : Outcome fuel)
      → (on_line fuel line x).0 ≡ r
      → Answers line x r
      → Served lines (on_line fuel line x).1
      → Served (line ∷ lines) x
  unfolding Answers filter_map
  on_outcome line lines x skipped e r (inl (flag, ids)) =
      rw (serve-skipped line x e lines) (inl (flag, rw r ids))
  on_outcome line lines x skipped e r (inr (flag, (before, l, after, split, ids, ran, panics))) =
      inr (
        rw (serve-skipped line x e lines) flag,
        (
          line ∷ before,
          l,
          after,
          ap (λ ls. line ∷ ls) split,
          rw (serve-skipped line x e lines) (rw r ids),
          rw (serve-skipped line x e before) ran,
          rw (serve-skipped line x e before) panics,
        ),
      )
  on_outcome line lines x (answered frame) e (r, _) (inl (flag, ids)) =
      rw (serve-answered line x frame e lines) (inl (flag, rw r (ap (λ l. frame.0 ∷ l) ids)))
  on_outcome line lines x (answered frame) e (r, _)
        (inr (flag, (before, l, after, split, ids, ran, panics))) =
      inr (
        rw (serve-answered line x frame e lines) flag,
        (
          line ∷ before,
          l,
          after,
          ap (λ ls. line ∷ ls) split,
          rw (serve-answered line x frame e lines) (rw r (ap (λ l. frame.0 ∷ l) ids)),
          rw (serve-answered line x frame e before) ran,
          rw (serve-answered line x frame e before) panics,
        ),
      )
  on_outcome line lines x died e r ih = inr (
    rw (serve-died line x e lines) refl,
    (
      [],
      line,
      lines,
      refl,
      rw (serve-died line x e lines) refl,
      (unfold serve_lines in refl),
      (unfold serve_lines in r),
    ),
  )

  -- A frame that answers no panic.
  abbrev pub IsCalm : Frame fuel → Type 0
  IsCalm frame = ¬ (frame.1 ≡ tool_err panicked)

  on_outcome-IsCalm :
      (line : Text) (lines : List Text) (x : Server) (r : Outcome fuel)
      → (on_line fuel line x).0 ≡ r
      → Answers line x r
      → All IsCalm (serve_lines fuel lines (on_line fuel line x).1).0
      → All IsCalm (serve_lines fuel (line ∷ lines) x).0
  unfolding Answers
  on_outcome-IsCalm line lines x skipped e r h = rw (serve-skipped line x e lines) h
  on_outcome-IsCalm line lines x (answered frame) e (_, calm) h =
      rw (serve-answered line x frame e lines) (calm, h)
  on_outcome-IsCalm line lines x died e r h = rw (serve-died line x e lines) tt

  serve_lines-IsCalm : (lines : List Text) (x : Server) → All IsCalm (serve_lines fuel lines x).0
  serve_lines-IsCalm [] x = unfold serve_lines in tt
  serve_lines-IsCalm (line ∷ lines) x =
      on_outcome-IsCalm line lines x (on_line fuel line x).0 refl (on_line-Answers line x)
        (serve_lines-IsCalm lines (on_line fuel line x).1)

  serve_lines-Served : (lines : List Text) (x : Server) → Served lines x
  serve_lines-Served [] x = inl (unfold serve_lines in refl, unfold serve_lines filter_map in refl)
  serve_lines-Served (line ∷ lines) x =
      on_outcome line lines x (on_line fuel line x).0 refl (on_line-Answers line x)
        (serve_lines-Served lines (on_line fuel line x).1)

  -- The frames that the loop writes answer the requests among the lines, each once, in order and
  -- under its identifier, and a line that is no JSON under null; blank lines and notifications get
  -- none. The loop comes to the end of the lines with all of them answered, or it ends at a request
  -- whose call panics in the state that the lines before it left, with exactly those answered. No
  -- frame answers a call that panicked.
  pub serve_lines-replies :
      (lines : List Text) (x : Server) → Served lines x × All IsCalm (serve_lines fuel lines x).0
  serve_lines-replies lines x = (serve_lines-Served lines x, serve_lines-IsCalm lines x)
