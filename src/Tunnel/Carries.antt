-- ===== src/Tunnel/Carries.antt =====
-- A tunnel carries messages: what one end sends, the other reads, whatever else arrives between.
use mathlib.Core.List.{append-nil, append_assoc}
use computermoney.Prelude.{
  ℕ, zero, suc, ◌+◌, ◌≤◌, Text, length, take, none, some, List, [], ◌∷◌, ◌++◌, map, All, ◌≡◌, refl,
  sym, ap, ◌∙◌, arith, subst, subst⁻¹,
}
use computermoney.Result.{ok, Exec, pure, attempt, ◌>>◌}
use computermoney.Protocol.{Message, Json, ReadsBack, encode, decode}
use computermoney.Protocol.Framing.{decode-encode}
use computermoney.Tunnel.Packets.{
  total_length, IsPacket, take_all, length-wrap_ip, wrap_ip-IsPacket, unwrap_ip-wrap_ip,
}
use computermoney.Tunnel.{
  write_to_network, write_to_tunnel_v4, failed, Tunn, Socket, Arrival, datagram, wrap_ip, step_of,
  sealed, process, seal, FramedTunnel, on_core, taken, send_to_peer, send_message, decoded, on_step,
  recv_from, recv, drain, buffer, ipv4_header,
}

-- What boringtun documents: two linked sessions carry a packet, cut to the length that its header
-- states, in a datagram that is at most `overhead` longer.
abbrev pub overhead : ℕ
overhead = 64

module _ ⦃t : Tunn⦄ where
  pub record IsTunnel : Type 1 where
    pub Linked : t.State → t.State → Type 0
    pub datagram_of : t.State → Text → Text
    pub sender_after : t.State → Text → t.State
    pub receiver_after : t.State → Text → t.State
    pub encrypted :
        (s r : t.State) (ip : Text)
        → Linked s r
        → IsPacket ip
        → t.encapsulate s ip ≡ (write_to_network (datagram_of s ip), sender_after s ip)
    pub decrypted :
        (s r : t.State) (ip : Text)
        → Linked s r
        → IsPacket ip
        → t.decapsulate r (datagram_of s ip)
          ≡ (write_to_tunnel_v4 (take (total_length ip) ip), receiver_after r (datagram_of s ip))
    pub linked :
        (s r : t.State) (ip : Text)
        → Linked s r
        → IsPacket ip
        → Linked (sender_after s ip) (receiver_after r (datagram_of s ip))
    pub short :
        (s r : t.State) (ip : Text)
        → Linked s r
        → IsPacket ip
        → length (datagram_of s ip) ≤ length ip + overhead

  -- A datagram that no session authenticates.
  pub record IsJunk (bytes : Text) : Type 0 where
    pub why : Text
    pub dropped : (s : t.State) → t.decapsulate s bytes ≡ (failed why, s)

  -- On a socket arrive the datagrams `ds`, in order, and junk between them.
  pub data Carries : List Text → List Arrival → Type 0 where
    over : Carries [] []
    arrived :
        {ds : List Text} {inbox : List Arrival} (d from : Text)
        → Carries ds inbox
        → Carries (d ∷ ds) (datagram d from ∷ inbox)
    stray :
        {ds : List Text} {inbox : List Arrival} (d from : Text)
        → IsJunk (take buffer d)
        → Carries ds inbox
        → Carries ds (datagram d from ∷ inbox)

module _ ⦃t : Tunn⦄ ⦃k : Socket⦄ ⦃j : Json⦄ where
  -- A message that fits the receive buffer with all that is put around it.
  abbrev pub Fits : Message → Type 0
  Fits m = length (encode m) + ipv4_header + overhead ≤ buffer

  -- `Wire::send` of each.
  unfoldable pub send_each : List Message → Exec FramedTunnel (Unit {0})
  send_each [] = pure tt
  send_each (m ∷ ms) = do send_message m; send_each ms

  send_each-cons :
      (m : Message) (ms : List Message) (f f' : FramedTunnel)
      → send_message m f ≡ (ok tt, f')
      → send_each (m ∷ ms) f ≡ send_each ms f'
  unfolding send_each
  send_each-cons m ms f f' e = rw e refl

  -- A stray datagram changes nothing but what is left to arrive.
  recv_from-stray :
      (d from : Text) (inbox : List Arrival) (g : FramedTunnel)
      → IsJunk (take buffer d)
      → recv_from (datagram d from ∷ inbox) g ≡ recv_from inbox (taken inbox g)
  unfolding recv_from on_core attempt process on_step step_of
  recv_from-stray d from inbox g h = rw (h.dropped g.core) refl

  recv_from-over : (g : FramedTunnel) → (recv_from [] g).0 ≡ ok none
  unfolding recv_from
  recv_from-over g = refl

  length-encode : (m : Message) → length (encode m) ≡ 4 + length (j.to_vec m)
  unfolding encode
  length-encode m = omega arith

  decode-whole : ReadsBack j → (m : Message) → Fits m → decoded (decode (encode m)) ≡ ok (some m)
  unfolding decoded
  decode-whole back m fits =
      let e = decode-encode back m [] (omega (arith, length-encode m)) in
      let whole : decode (encode m) ≡ some (m, length (encode m)) =
        ap decode (sym (append-nil (encode m))) ∙ e in
      rw whole refl

  -- The datagram of a message is read as the message, and leaves the rest to arrive.
  recv_from-arrived :
      ReadsBack j
      → (m : Message) (d from : Text) (inbox : List Arrival) (g : FramedTunnel) (r : t.State)
      → Fits m
      → length d ≤ buffer
      → t.decapsulate g.core d
        ≡ (write_to_tunnel_v4 (take (total_length (wrap_ip (encode m))) (wrap_ip (encode m))), r)
      → recv_from (datagram d from ∷ inbox) g ≡ (ok (some m), record g { core = r; inbox = inbox })
  unfolding recv_from on_core attempt process step_of
  recv_from-arrived back m d from inbox g r fits short e =
      let unwrapped = unwrap_ip-wrap_ip (encode m) (omega arith) in
      rw (take_all buffer d short)
        (rw e (rw unwrapped (unfold on_step in rw (decode-whole back m fits) refl)))

  abbrev Received : Message → List Text → List Arrival → FramedTunnel → t.State → Type 0
  Received m ds inbox g r =
      (rest : List Arrival) × Carries ds rest
      × (recv_from inbox g ≡ (ok (some m), record g { core = r; inbox = rest }))

  recv_from-Carries :
      ReadsBack j
      → (m : Message) (d : Text) {ds : List Text} {ds' : List Text} {inbox : List Arrival}
      → Carries ds' inbox
      → ds' ≡ d ∷ ds
      → (g : FramedTunnel) (r : t.State) → Fits m
      → length d ≤ buffer
      → t.decapsulate g.core d
        ≡ (write_to_tunnel_v4 (take (total_length (wrap_ip (encode m))) (wrap_ip (encode m))), r)
      → Received m ds inbox g r
  recv_from-Carries back m d over e g r fits short got = absurd (cc)
  recv_from-Carries back m d (arrived {inbox = inbox} d' from c) e g r fits short got =
      let same : d' ≡ d = cc in
      (
        inbox,
        subst (λ x. Carries x inbox) (cc) c,
        recv_from-arrived back m d' from inbox g r fits
            (subst⁻¹ (λ x. length x ≤ buffer) same short) (ap (t.decapsulate g.core) same ∙ got),
      )
  recv_from-Carries back m d (stray {inbox = inbox} d' from junk c) e g r fits short got =
      let (rest, more, q) = recv_from-Carries back m d c e (taken inbox g) r fits short got in
      (rest, more, recv_from-stray d' from inbox g junk ∙ q)

  send_message-sealed :
      (m : Message) (d : Text) (s : t.State) (f : FramedTunnel)
      → ((bytes to : Text) → k.send_to bytes to ≡ ok tt)
      → t.encapsulate f.core (wrap_ip (encode m)) ≡ (write_to_network d, s)
      → send_message m f ≡ (ok tt, record f { core = s; sent = f.sent ++ ((f.peer, d) ∷ []) })
  unfolding send_message on_core seal sealed send_to_peer
  send_message-sealed m d s f works e = rw e (rw (works d f.peer) refl)

  recv_from-none :
      {ds : List Text} {inbox : List Arrival}
      → Carries ds inbox
      → ds ≡ []
      → (g : FramedTunnel) → (recv_from inbox g).0 ≡ ok none
  recv_from-none over e g = recv_from-over g
  recv_from-none (arrived d from c) e g = absurd (cc)
  recv_from-none (stray {inbox = inbox} d from junk c) e g =
      ap (λ r. r.0) (recv_from-stray d from inbox g junk) ∙ recv_from-none c e (taken inbox g)

  drain-none :
      (inbox : List Arrival) (n : ℕ) (g : FramedTunnel)
      → Carries [] inbox
      → drain n (taken inbox g) ≡ []
  unfolding drain recv recv_from
  drain-none inbox zero g c = refl
  drain-none inbox (suc n) g c = rw (recv_from-none c refl (taken inbox g)) refl

  drain-Received :
      (m : Message) (ds : List Text) (inbox : List Arrival) (g : FramedTunnel) (r : t.State) (n : ℕ)
      (rest : List Arrival)
      → recv_from inbox (taken inbox g) ≡ (ok (some m), record g { core = r; inbox = rest })
      → drain (suc n) (taken inbox g) ≡ ok m ∷ drain n (taken rest (record g { core = r }))
  unfolding drain recv recv_from
  drain-Received m ds inbox g r n rest e = rw (ap (λ x. x.0) e) (ap (λ x. ok m ∷ drain n x.1) e)

  -- The packets of messages that fit.
  packet : (m : Message) → Fits m → IsPacket (wrap_ip (encode m))
  packet m fits = wrap_ip-IsPacket (encode m) (omega arith)

  -- A message is read first, and then the others.
  read_on :
      ReadsBack j
      → (m : Message) (ms : List Message) (d : Text) (ds : List Text) (inbox : List Arrival)
        (g : FramedTunnel) (r : t.State) (n : ℕ)
      → Fits m
      → length d ≤ buffer
      → t.decapsulate g.core d
        ≡ (write_to_tunnel_v4 (take (total_length (wrap_ip (encode m))) (wrap_ip (encode m))), r)
      → Carries (d ∷ ds) inbox
      → suc (length ms) ≤ n
      → ((rest : List Arrival) (i : ℕ)
          → Carries ds rest
          → length ms ≤ i
          → drain i (taken rest (record g { core = r })) ≡ map ok ms)
      → drain n (taken inbox g) ≡ ok m ∷ map ok ms
  read_on back m ms d ds inbox g r zero fit short got c h more = absurd (omega arith)
  read_on back m ms d ds inbox g r (suc n) fit short got c h more =
      let (rest, c', e) = recv_from-Carries back m d c refl (taken inbox g) r fit short got in
      drain-Received m ds inbox g r n rest e ∙ ap (λ x. ok m ∷ x) (more rest n c' (omega arith))

  -- Where boringtun's two sessions are linked, the socket sends and JSON is read back, each message
  -- that is sent and fits the receive buffer goes out as one datagram, and the other end reads exactly
  -- the messages that were sent, in order, from those datagrams and whatever junk arrives between.
  pub drain-send_each :
      (tunnel : IsTunnel)
      → ReadsBack j
      → ((bytes to : Text) → k.send_to bytes to ≡ ok tt)
      → (ms : List Message) (f g : FramedTunnel) → tunnel.Linked f.core g.core
      → All Fits ms
      → (ds : List Text) × ((send_each ms f).0 ≡ ok tt)
        × ((send_each ms f).1.sent ≡ f.sent ++ map (λ d. (f.peer, d)) ds)
        × ((inbox : List Arrival) (n : ℕ)
            → Carries ds inbox
            → length ms ≤ n
            → drain n (taken inbox g) ≡ map ok ms)
  unfolding send_each
  drain-send_each tunnel back works [] f g l fits =
      ([], refl, sym (append-nil f.sent), λ inbox n c h. drain-none inbox n g c)
  drain-send_each tunnel back works (m ∷ ms) f g l (fit, fits) =
      let ip = wrap_ip (encode m) in
      let s = tunnel.sender_after f.core ip in
      let d = tunnel.datagram_of f.core ip in
      let r = tunnel.receiver_after g.core d in
      let out =
        send_message-sealed m d s f works (tunnel.encrypted f.core g.core ip l (packet m fit)) in
      let f' : FramedTunnel = record f { core = s; sent = f.sent ++ ((f.peer, d) ∷ []) } in
      let step = send_each-cons m ms f f' out in
      let (ds, sent_all, went, read) =
        drain-send_each tunnel back works ms f' (record g { core = r })
          (tunnel.linked f.core g.core ip l (packet m fit)) fits in
      (
        d ∷ ds,
        ap (λ x. x.0) step ∙ sent_all,
        ap (λ x. x.1.sent) step ∙ went ∙ append_assoc f.sent ((f.peer, d) ∷ []) _,
        λ inbox n c h.
            read_on back m ms d ds inbox g r n fit
              (omega
                (arith, tunnel.short f.core g.core ip l (packet m fit), length-wrap_ip (encode m)))
              (tunnel.decrypted f.core g.core ip l (packet m fit)) c h read,
      )
