-- ===== src/Net/Credits.antt =====
-- What the receiver of net.rs credits, whatever the peer claims.
use mathlib.Core.List.{mem-cons, mem-cons_of_mem}
use mathlib.Core.Logic.Or
use computermoney.Prelude.{
  ℕ, Text, text_eq, Option, none, some, List, [], ◌∷◌, Mem, ◌≡◌, refl, sym, inl, inr, Bool-cases,
  subst⁻¹,
}
use computermoney.Result.{Result, ok, err, Exec}
use computermoney.Result.Preserves.{Preserves, Preserves-bind}
use computermoney.Result.Success.{bind_cases, bind-eq-ok, Result-cases, ok_inj, ok_ne_err}
use computermoney.Storage.{Host}
use computermoney.Chain.{Esplora}
use computermoney.Deposits.{AddressTxs, Deposit, deposits_to}
use computermoney.Ledger.Entry.{Entry, address_issued, received, status_update}
use computermoney.Ledger.Folds.{next_seq}
use computermoney.Ledger.Platform.{Platform}
use computermoney.Ledger.Store.{World, append}
use computermoney.Ledger.Methods.{record_received}
use computermoney.Build.{Bdk}
use computermoney.Protocol.{Message, addr_request, addr_response, notify, chat, Addresses, handle}
use computermoney.Net.Adds.{Adds, append-Adds, reconcile-Adds, record_received-Adds}
use computermoney.Net.{
  Wire, Session, on_world, on_receiver, ignore, find_deposit, send_message, book_deposit,
  book_found, on_notify, issue, keep, run_receiver,
}

some_inj : {A : Type 0} (a b : A) → some a ≡ some b → a ≡ b
some_inj a b e = cc

on_world-Adds :
    {A : Type 0} (Q : Entry → Type 0) (es : List Entry) (m : Exec World A)
    → Preserves (Adds Q es) m
    → Preserves (λ (s : Session). Adds Q es s.world) (on_world m)
unfolding on_world
on_world-Adds Q es m k = record { run = λ s h. k.run s.world h }

Mem-find_deposit :
    (t : Text) (ds : List Deposit) (d : Deposit) → find_deposit t ds ≡ some d → Mem d ds
unfolding find_deposit
Mem-find_deposit t [] d h = absurd (cc)
Mem-find_deposit t (e ∷ ds) d h = elim (Bool-cases (text_eq e.txid t)) [
  | inl same ↦ mem-cons.1 (Or.inl (sym (some_inj e d (rw same at h))))
  | inr other ↦ mem-cons_of_mem e (Mem-find_deposit t ds d (rw other at h))
]

module _ ⦃h : Host⦄ ⦃p : Platform⦄ ⦃c : Esplora⦄ ⦃b : Bdk⦄ ⦃x : AddressTxs⦄ ⦃a : Addresses⦄
    ⦃wire : Wire⦄ where
  -- What a receiver may add: issues, statuses, and deposits that the chain reports, with that txid
  -- and that amount, for the wallet's address at that index.
  abbrev pub IsHonest : Entry → Type 0
  IsHonest (address_issued _ _) = Unit
  IsHonest (status_update _ _ _) = Unit
  IsHonest (received _ txid sats index _) =
      (addr : Text) × (ds : List Deposit) × (d : Deposit) × (a.address index ≡ ok addr)
      × (deposits_to addr ≡ ok ds)
      × Mem d ds
      × (d.txid ≡ txid)
      × (d.sats ≡ sats)
  IsHonest _ = ⊥

  abbrev IsIssued : Option (ℕ × Text) → Type 0
  IsIssued none = Unit
  IsIssued (some (index, addr)) = a.address index ≡ ok addr

  book_deposit-Adds :
      (es : List Entry) (index : ℕ) (addr : Text) (ds : List Deposit) (o : Option Deposit)
      → a.address index ≡ ok addr
      → deposits_to addr ≡ ok ds
      → ((d : Deposit) → o ≡ some d → Mem d ds)
      → Preserves (Adds IsHonest es) (book_deposit index o)
  unfolding book_deposit ignore
  book_deposit-Adds es index addr ds none ours reported found = record { run = λ w k. k }
  book_deposit-Adds es index addr ds (some d) ours reported found =
      Preserves-bind (record_received d.txid d.sats index) _
        (record_received-Adds IsHonest es (λ n t s. tt) d.txid d.sats index
          (λ n. (addr, ds, d, ours, reported, found d refl, refl, refl)))
        (λ booked. record { run = λ w k. (reconcile-Adds IsHonest es (λ n t s. tt)).run w k })

  book_found-Adds :
      (es : List Entry) (index : ℕ) (txid addr : Text) (r : Result (List Deposit))
      → a.address index ≡ ok addr
      → deposits_to addr ≡ r
      → Preserves (Adds IsHonest es) (book_found index txid r)
  unfolding book_found
  book_found-Adds es index txid addr (err e) ours reported = record { run = λ w k. k }
  book_found-Adds es index txid addr (ok ds) ours reported =
      book_deposit-Adds es index addr ds (find_deposit txid ds) ours reported
        (Mem-find_deposit txid ds)

  on_notify-Adds :
      (es : List Entry) (issued : Option (ℕ × Text)) (txid : Text)
      → IsIssued issued
      → Preserves (Adds IsHonest es) (on_notify issued txid)
  unfolding on_notify
  on_notify-Adds es none txid ours = record { run = λ w k. k }
  on_notify-Adds es (some (index, addr)) txid ours =
      book_found-Adds es index txid addr (deposits_to addr) ours refl

  handle-IsIssued :
      (sats : ℕ) (s : Session) (reply : Option Message)
      → (on_receiver (handle (addr_request sats)) s).0 ≡ ok reply
      → (index : ℕ) × (addr : Text) × (reply ≡ some (addr_response addr index))
        × (a.address index ≡ ok addr)
  unfolding on_receiver handle
  handle-IsIssued sats s reply e =
      let n : ℕ = s.receiver.next_index in
      elim (Result-cases (a.address n)) [
        | inl (addr, derived) ↦ (n, addr, sym (ok_inj _ _ (rw (derived, handle) at e)), derived)
        | inr (y, failed) ↦ absurd (ok_ne_err y reply (rw (failed, handle) at e))
      ]

  issue-eq-ok :
      (index : ℕ) (addr : Text) (s : Session) (now : Option (ℕ × Text))
      → (issue (some (addr_response addr index)) s).0 ≡ ok now
      → now ≡ some (index, addr)
  unfolding issue
  issue-eq-ok index addr s now e =
      let e' : Entry = address_issued (next_seq s.world.ledger.entries) index in
      let (_, _, e₁, _) = bind-eq-ok (on_world (append e')) _ s e in
      let s₁ : Session = (on_world (append e') s).1 in
      let (_, _, e₂, _) = bind-eq-ok (send_message (addr_response addr index)) _ s₁ e₁ in
      sym (ok_inj _ _ e₂)

  address_issued-Adds :
      (es : List Entry) (s : Session) (index : ℕ)
      → Adds IsHonest es s.world
      → Adds IsHonest es
          (on_world (append (address_issued (next_seq s.world.ledger.entries) index)) s).1.world
  unfolding on_world
  address_issued-Adds es s index k =
      (append-Adds IsHonest es (address_issued _ index) tt).run s.world k

  issue-Adds :
      (es : List Entry) (reply : Option Message)
      → Preserves (λ (s : Session). Adds IsHonest es s.world) (issue reply)
  unfolding issue send_message
  issue-Adds es none = record { run = λ s k. k }
  issue-Adds es (some (addr_response addr index)) = record {
    run = λ s k.
        bind_cases (λ (s : Session). Adds IsHonest es s.world)
          (on_world (append (address_issued (next_seq s.world.ledger.entries) index))) _ s
          (λ u done.
            bind_cases (λ (s : Session). Adds IsHonest es s.world)
              (send_message (addr_response addr index)) _ _
              (λ v went. address_issued-Adds es s index k)
              (λ y failed. address_issued-Adds es s index k))
          (λ y failed. address_issued-Adds es s index k);
  }
  issue-Adds es (some (addr_request sats)) = record { run = λ s k. k }
  issue-Adds es (some (notify txid sats)) = record { run = λ s k. k }
  issue-Adds es (some (chat text)) = record { run = λ s k. k }

  -- Every entry that a session with a peer adds is an address issued, a status, or the receipt of a
  -- deposit that the chain reports for the wallet's address at that index, with its amount; what was
  -- booked before stays. This holds whatever messages arrive and wherever the session ends.
  pub run_receiver-Adds :
      (es : List Entry) (issued : Option (ℕ × Text)) (inbox : List (Result Message))
      → IsIssued issued
      → Preserves (λ (s : Session). Adds IsHonest es s.world) (run_receiver issued inbox)
  unfolding run_receiver on_receiver
  run_receiver-Adds es issued [] ours = record { run = λ s k. k }
  run_receiver-Adds es issued (err e ∷ inbox) ours = record { run = λ s k. k }
  run_receiver-Adds es issued (ok (chat text) ∷ inbox) ours = run_receiver-Adds es issued inbox ours
  run_receiver-Adds es issued (ok (addr_response address index) ∷ inbox) ours =
      run_receiver-Adds es issued inbox ours
  run_receiver-Adds es issued (ok (notify txid claimed) ∷ inbox) ours =
      on_world-Adds IsHonest es (on_notify issued txid) (on_notify-Adds es issued txid ours)
  run_receiver-Adds es issued (ok (addr_request sats) ∷ inbox) ours = record {
    run = λ s k.
        bind_cases (λ (s : Session). Adds IsHonest es s.world)
          (on_receiver (handle (addr_request sats))) _ s
          (λ reply answered.
            let s₁ : Session = (on_receiver (handle (addr_request sats)) s).1 in
            let (index, addr, same, derived) = handle-IsIssued sats s reply answered in
            bind_cases (λ (s : Session). Adds IsHonest es s.world) (issue reply) _ s₁
              (λ now done.
                let mine : now ≡ some (index, addr) =
                  issue-eq-ok index addr s₁ now (rw same at done) in
                (run_receiver-Adds es (keep issued now) inbox
                    (subst⁻¹ (λ i. IsIssued (keep issued i)) mine derived)).run
                  (issue reply s₁).1 ((issue-Adds es reply).run s₁ k))
              (λ y failed. (issue-Adds es reply).run s₁ k))
          (λ y failed. k);
  }
