-- ===== src/Daemon/Stale.antt =====
-- What a scan of its own does to the ledger that serve.rs holds.
use mathlib.Core.List.{append_assoc}
use computermoney.Prelude.{
  ℕ, ◌+◌, ◌%◌, Text, length, some, List, [], ◌∷◌, ◌++◌, ◌≡◌, refl, sym, ap, ◌∙◌, inl, inr, arith,
  Bool-cases, true, All, subst, subst⁻¹, u64_mod,
}
use computermoney.Result.{ok, Exec, ◌>>◌}
use computermoney.Result.Preserves.{Preserves, Preserves-bind, state-bind_pure}
use computermoney.Ledger.Entry.{Entry, seq}
use computermoney.Ledger.Folds.{next_seq, has_sp_output, is_sp_spent}
use computermoney.Ledger.Platform.{Platform, IsSound}
use computermoney.Ledger.Store.{
  World, Fault, rest_faults, parse_ledger, open_inner, on_disk, append, append_bytes, line_of,
}
use computermoney.Ledger.Methods.{record_sp_received, record_sp_spent}
use computermoney.Ledger.Books.{
  Books, IsInOrder, Numbered, next_seq-Numbered, record_sp_received-Books, record_sp_spent-Books,
}
use computermoney.Ledger.Durability.{
  NotTorn, IsSynced, render, append-IsSynced, reopen, render-snoc,
}
use computermoney.Matching.{ScanHost}
use computermoney.Pay.Crash.{record_sp_spent-IsSynced}
use computermoney.Scan.{Scanner, on_ledger, scan_to_tip}
use computermoney.Scan.Finds.{scan_to_tip-Preserves}
use computermoney.Wallet.{Account}
use computermoney.Tunnel.Session.{open_ledger}
use computermoney.Daemon.{Daemon, scan_fresh}

Numbered-middle :
    (n : ℕ) (es : List Entry) (e : Entry) (more : List Entry)
    → Numbered n (es ++ (e ∷ more))
    → seq e ≡ (n + length es) % u64_mod
Numbered-middle n [] e more h = omega (arith, h.0)
Numbered-middle n (d ∷ es) e more h = omega (arith, Numbered-middle (n + 1) es e more h.1)

module _ ⦃p : Platform⦄ where
  record_sp_received-IsSynced :
      (txid : Text) (vout sats : ℕ) (tweak : Text)
      → Preserves IsSynced (record_sp_received txid vout sats tweak)
  unfolding record_sp_received
  record_sp_received-IsSynced txid vout sats tweak = record {
    run = λ w h. elim (Bool-cases (has_sp_output txid vout w.ledger.entries)) [
      | inl old ↦ rw old h
      | inr new ↦
          rw new
            (subst⁻¹ IsSynced (state-bind_pure (append _) true w) ((append-IsSynced _).run w h))
    ];
  }

  append-identity : (e : Entry) (w : World) → (append e w).1.ledger.identity ≡ w.ledger.identity
  unfolding append on_disk append_bytes
  append-identity e w = ground arith

  received-identity :
      (txid : Text) (vout sats : ℕ) (tweak : Text) (w : World)
      → (record_sp_received txid vout sats tweak w).1.ledger.identity ≡ w.ledger.identity
  unfolding record_sp_received
  received-identity txid vout sats tweak w =
      elim (Bool-cases (has_sp_output txid vout w.ledger.entries)) [
        | inl old ↦ rw old refl
        | inr new ↦
            rw new (
              ap (λ v. v.ledger.identity) (state-bind_pure (append _) true w) ∙ append-identity _ w)
      ]

  spent-identity :
      (txid : Text) (vout : ℕ) (w : World)
      → (record_sp_spent txid vout w).1.ledger.identity ≡ w.ledger.identity
  unfolding record_sp_spent
  spent-identity txid vout w = elim (Bool-cases (is_sp_spent txid vout w.ledger.entries)) [
    | inl old ↦ rw old refl
    | inr new ↦
        rw new
          (ap (λ v. v.ledger.identity) (state-bind_pure (append _) true w) ∙ append-identity _ w)
  ]

module _ ⦃p : Platform⦄ ⦃a : Account⦄ ⦃s : ScanHost⦄ (fuel : ℕ) where
  -- The ledger of the scan, when its pass has ended.
  abbrev pub scanned : Daemon → World
  scanned x =
      ((do on_ledger open_ledger; scan_to_tip fuel)
        (record { world = x.world; checkpoint = x.checkpoint })).1.world

  module _ (sound : IsSound p) (keypair : Text) (ours : a.signing_keypair ≡ ok keypair) where
    -- In step with the file, in order, and of the wallet's key.
    pub record IsKept (w : World) : Type 0 where
      pub synced : IsSynced w
      pub books : Books w
      pub signed : w.ledger.identity ≡ some keypair

    parse-IsKept : (w : World) → IsKept w → parse_ledger (some keypair) w.disk.file ≡ ok w.ledger
    parse-IsKept w k = ap (λ i. parse_ledger i w.disk.file) (sym k.signed) ∙ reopen sound w k.synced

    -- Opened or not, the ledger is the one that was there.
    open_ledger-same :
        (w : World)
        → IsKept w
        → ((open_ledger w).1.ledger ≡ w.ledger)
          × ((open_ledger w).1.disk ≡ record (w.disk) { faults = rest_faults w.disk.faults })
    unfolding open_ledger on_disk open_inner
    open_ledger-same w k = rw ours (ground (arith, parse-IsKept w k))

    rest-untorn : (fs : List Fault) → All NotTorn fs → All NotTorn (rest_faults fs)
    rest-untorn [] h = tt
    rest-untorn (f ∷ fs) h = h.1

    open_ledger-IsKept : Preserves IsKept open_ledger
    open_ledger-IsKept = record {
      run = λ w k.
          let (led, disk) = open_ledger-same w k in
          record {
            synced = record {
              written =
                  ap (λ d. d.file) disk
                  ∙ k.synced.written
                  ∙ ap (λ l. render l.identity l.entries) (sym led);
              untorn =
                  subst⁻¹ (λ d. All NotTorn d.faults) disk
                    (rest-untorn w.disk.faults k.synced.untorn);
            };
            books = subst⁻¹ (λ l. IsInOrder l.entries) led k.books;
            signed = ap (λ l. l.identity) led ∙ k.signed;
          };
    }

    received-IsKept :
        (txid : Text) (vout sats : ℕ) (tweak : Text)
        → Preserves IsKept (record_sp_received txid vout sats tweak)
    received-IsKept txid vout sats tweak = record {
      run = λ w k. record {
        synced = (record_sp_received-IsSynced txid vout sats tweak).run w k.synced;
        books = (record_sp_received-Books txid vout sats tweak).run w k.books;
        signed = received-identity txid vout sats tweak w ∙ k.signed;
      };
    }

    spent-IsKept : (txid : Text) (vout : ℕ) → Preserves IsKept (record_sp_spent txid vout)
    spent-IsKept txid vout = record {
      run = λ w k. record {
        synced = (record_sp_spent-IsSynced txid vout).run w k.synced;
        books = (record_sp_spent-Books txid vout).run w k.books;
        signed = spent-identity txid vout w ∙ k.signed;
      };
    }

    on_ledger-IsKept :
        {A : Type 0} (m : Exec World A)
        → Preserves IsKept m
        → Preserves (λ (c : Scanner). IsKept c.world) (on_ledger m)
    unfolding on_ledger
    on_ledger-IsKept m k = record { run = λ c h. k.run c.world h }

    scanned-IsKept : (x : Daemon) → IsKept x.world → IsKept (scanned x)
    scanned-IsKept x k =
        (Preserves-bind {P = λ (c : Scanner). IsKept c.world} (on_ledger open_ledger) _
            (on_ledger-IsKept open_ledger open_ledger-IsKept)
            λ u. scan_to_tip-Preserves IsKept received-IsKept spent-IsKept fuel).run
          (record { world = x.world; checkpoint = x.checkpoint }) k

    appended :
        (d : Entry) (w : World) (u : Unit {0})
        → (append d w).0 ≡ ok u
        → (append d w).1.disk.file ≡ w.disk.file ++ line_of w.ledger.identity d
    unfolding append on_disk append_bytes
    appended d w u e = ground arith

    -- Where the daemon's ledger is in step with its file, in order and of its key, and the scan books
    -- something, `e` first, the daemon's ledger misses it: the entry `d` that the daemon appends next
    -- has the number of `e`, and the file then holds both.
    pub scan_reuses_number :
        (x : Daemon) (e : Entry) (more : List Entry) (d : Entry) (u : Unit {0})
        → IsKept x.world
        → (scanned x).ledger.entries ≡ x.world.ledger.entries ++ (e ∷ more)
        → seq d ≡ next_seq (scan_fresh fuel x).world.ledger.entries
        → (append d (scan_fresh fuel x).world).0 ≡ ok u
        → (seq d ≡ seq e)
          × ((append d (scan_fresh fuel x).world).1.disk.file
              ≡ render (some keypair) (x.world.ledger.entries ++ ((e ∷ more) ++ (d ∷ []))))
    unfolding scan_fresh
    scan_reuses_number x e more d u k booked numbered done =
        let es = x.world.ledger.entries in
        let k' = scanned-IsKept x k in
        let first : seq e ≡ length es % u64_mod =
          Numbered-middle 0 es e more (subst (Numbered 0) booked k'.books.numbered)
          ∙ ap (λ n. n % u64_mod) (omega arith) in
        let next : next_seq es ≡ length es % u64_mod = next_seq-Numbered es k.books.numbered in
        let written : (scanned x).disk.file ≡ render (some keypair) (es ++ (e ∷ more)) =
          k'.synced.written
          ∙ ap (λ i. render i (scanned x).ledger.entries) k'.signed
          ∙ ap (render (some keypair)) booked in
        (
          numbered ∙ next ∙ sym first,
          appended d (scan_fresh fuel x).world u done
              ∙ ap (λ i. (scanned x).disk.file ++ line_of i d) k.signed
              ∙ ap (λ f. f ++ line_of (some keypair) d) written
              ∙ sym (render-snoc (some keypair) (es ++ (e ∷ more)) d)
              ∙ ap (render (some keypair)) (append_assoc es (e ∷ more) (d ∷ [])),
        )
