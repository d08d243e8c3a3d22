-- ===== src/Tunnel.antt =====
-- tunnel.rs: messages over WireGuard. boringtun is a parameter; a socket is the list of what will
-- arrive on it, and idle when that is used up.
pub mod Packets
pub mod Carries
pub mod Listener
pub mod Session
use computermoney.Prelude.{
  ℕ, zero, suc, ◌+◌, ◌/◌, ◌%◌, ◌^◌, Text, codes, length, take, drop, Bool, true, false, Option,
  none, some, List, [], ◌∷◌, ◌++◌, ltb, if◌then◌else◌,
}
use computermoney.Result.{
  Error, other, Result, ok, err, try_then, Exec, pure, raise, lift, gets, modify, attempt, ◌>>=◌,
  ◌>>◌,
}
use computermoney.Protocol.{Message, Json, encode, decode}
use computermoney.Keys.{hex32}

abbrev pub ipv4_header : ℕ
ipv4_header = 20

-- The receive buffer, to which `recv_from` cuts a datagram.
abbrev pub buffer : ℕ
buffer = 2048

-- `boringtun::noise::TunnResult`
pub data TunnResult : Type 0 where
  write_to_network write_to_tunnel_v4 write_to_tunnel_v6 failed : Text → TunnResult
  done : TunnResult

-- boringtun's `Tunn`, with the public half of a key, and the two parsers of a handshake.
pub record Tunn : Type 1 where
  pub State : Type 0
  pub public_key : Text → Text
  pub new : Text → Text → State
  pub format_handshake_initiation : State → TunnResult × State
  pub decapsulate : State → Text → TunnResult × State
  pub encapsulate : State → Text → TunnResult × State
  pub parse_incoming_packet : Text → Option Text
  pub parse_handshake_anon : Text → Text → Text → Option Text

-- `send_to` of a socket.
pub record Socket : Type 0 where
  pub send_to : Text → Text → Result (Unit {0})

-- A `recv_from`: a datagram and where it came from, nothing within the timeout, or another error.
pub data Arrival : Type 0 where
  datagram : Text → Text → Arrival
  quiet : Arrival
  broken : Error → Arrival

pub data Step : Type 0 where
  send_back frame : Text → Step
  nothing : Step

abbrev zeros : ℕ → Text → Text
zeros zero rest = rest
zeros (suc n) rest = 0 ∷ zeros n rest

-- Version and length of the header, the total length as a `u16`, TTL and protocol; all else is 0.
unfoldable pub wrap_ip : Text → Text
wrap_ip payload =
    let total = (ipv4_header + length payload) % 2 ^ 16 in
    0x45 ∷ 0 ∷ (total / 256) ∷ (total % 256) ∷ zeros 4 (64 ∷ 253 ∷ zeros 10 payload)

unfoldable pub unwrap_ip : Text → Result Text
unwrap_ip pkt =
    if ltb (length pkt) ipv4_header
    then err (other (codes "tunneled packet shorter than its IP header"))
    else ok (drop ipv4_header pkt)

unfoldable pub step_of : TunnResult → Result Step
unfolding unwrap_ip
step_of (write_to_network out) = ok (send_back out)
step_of (write_to_tunnel_v4 pkt) = try_then (unwrap_ip pkt) λ f. ok (frame f)
step_of (write_to_tunnel_v6 pkt) = try_then (unwrap_ip pkt) λ f. ok (frame f)
step_of done = ok nothing
step_of (failed e) = err (other e)

unfoldable pub sealed : TunnResult → Result Text
sealed (write_to_network out) = ok out
sealed (failed e) = err (other e)
sealed _ = err (other (codes "tunnel has no session yet"))

unfoldable pub initiation : TunnResult → Result Text
initiation (write_to_network out) = ok out
initiation (failed e) = err (other e)
initiation _ = err (other (codes "unexpected handshake-init result"))

module _ ⦃t : Tunn⦄ where
  -- The methods of `WgCore`.
  unfoldable pub handshake_init : Exec t.State Text
  handshake_init s = let r = t.format_handshake_initiation s in (initiation r.0, r.1)

  unfoldable pub process : Text → Exec t.State Step
  unfolding step_of
  process bytes s = let r = t.decapsulate s bytes in (step_of r.0, r.1)

  unfoldable pub seal : Text → Exec t.State Text
  unfolding sealed wrap_ip
  seal payload s = let r = t.encapsulate s (wrap_ip payload) in (sealed r.0, r.1)

  -- A tunnel to one peer, what will arrive on its socket, and what was sent and where to.
  pub record FramedTunnel : Type 0 where
    pub core : t.State
    pub peer : Text
    pub inbox : List Arrival
    pub sent : List (Text × Text)

  unfoldable pub on_core : {A : Type 0} → Exec t.State A → Exec FramedTunnel A
  on_core m f = ((m f.core).0, record f { core = (m f.core).1 })

  abbrev pub taken : List Arrival → FramedTunnel → FramedTunnel
  taken rest f = record f { inbox = rest }

module _ ⦃t : Tunn⦄ ⦃k : Socket⦄ where
  unfoldable pub send_to_peer : Text → Exec FramedTunnel (Unit {0})
  send_to_peer bytes f =
      (k.send_to bytes f.peer, record f { sent = f.sent ++ ((f.peer, bytes) ∷ []) })

  -- `connect`, from a poll of the socket on. Each poll comes with whether the budget is spent after it;
  -- when nothing more arrives, it is spent.
  unfoldable pub on_response :
      Result Step → Bool → Exec FramedTunnel (Unit {0}) → Exec FramedTunnel (Unit {0})
  on_response (ok (send_back keepalive)) late again = send_to_peer keepalive
  on_response _ true again = raise (other (codes "handshake timed out: peer did not respond"))
  on_response _ false again = again

  unfoldable pub await_response : List (Arrival × Bool) → Exec FramedTunnel (Unit {0})
  await_response [] = raise (other (codes "handshake timed out: peer did not respond"))
  await_response ((broken e, late) ∷ polls) = raise e
  await_response ((quiet, late) ∷ polls) = on_response (ok nothing) late (await_response polls)
  await_response ((datagram bytes from, late) ∷ polls) = do
    step ← on_core (attempt (process (take buffer bytes)))
    on_response step late (await_response polls)

  -- The tunnel to `peer`, once the handshake is through; `inbox` is what arrives after it.
  unfoldable pub connect :
      List (Arrival × Bool) → List Arrival → Text → Text → Text → Result FramedTunnel
  connect polls inbox peer secret peer_pub =
      let (init, core) = handshake_init (t.new secret peer_pub) in
      let fresh : FramedTunnel = record { core = core; peer = peer; inbox = inbox; sent = [] } in
      let (response, f) = (do bytes ← lift init; send_to_peer bytes; await_response polls) fresh in
      try_then response λ u. ok f

  -- `accept`: the initiation of the pinned peer, then the datagram that completes the session. A read
  -- that times out is an error here.
  unfoldable pub on_initiation :
      Result Step
      → Text
      → List Arrival
      → Exec t.State (Text × (Text × List Arrival))
      → Exec t.State (Text × (Text × List Arrival))
  on_initiation (ok (send_back resp)) from rest again = pure (resp, (from, rest))
  on_initiation _ from rest again = again

  unfoldable pub await_initiation : List Arrival → Exec t.State (Text × (Text × List Arrival))
  await_initiation [] = raise (other (codes "timed out"))
  await_initiation (quiet ∷ rest) = raise (other (codes "timed out"))
  await_initiation (broken e ∷ rest) = raise e
  await_initiation (datagram bytes from ∷ rest) = do
    step ← attempt (process (take buffer bytes))
    on_initiation step from rest (await_initiation rest)

  unfoldable pub on_keepalive :
      Result Step → List Arrival → Exec t.State (List Arrival) → Exec t.State (List Arrival)
  on_keepalive (ok step) rest again = pure rest
  on_keepalive (err e) rest again = again

  unfoldable pub await_keepalive : List Arrival → Exec t.State (List Arrival)
  await_keepalive [] = raise (other (codes "timed out"))
  await_keepalive (quiet ∷ rest) = raise (other (codes "timed out"))
  await_keepalive (broken e ∷ rest) = raise e
  await_keepalive (datagram bytes from ∷ rest) = do
    step ← attempt (process (take buffer bytes))
    on_keepalive step rest (await_keepalive rest)

  unfoldable pub accept : List Arrival → Text → Text → Result FramedTunnel
  accept inbox secret peer_pub =
      let (found, core) = await_initiation inbox (t.new secret peer_pub) in
      try_then found λ (resp, (from, rest)). try_then (k.send_to resp from) λ u.
        let (through, core') = await_keepalive rest core in
        try_then through
          λ more. ok (record { core = core'; peer = from; inbox = more; sent = (from, resp) ∷ [] })

unfoldable pub decoded : Option (Message × ℕ) → Result (Option Message)
decoded none = err (other (codes "tunnel frame did not decode to a message"))
decoded (some (m, consumed)) = ok (some m)

module _ ⦃t : Tunn⦄ ⦃k : Socket⦄ ⦃j : Json⦄ where
  -- `Wire::send`
  unfoldable pub send_message : Message → Exec FramedTunnel (Unit {0})
  send_message m = do bytes ← on_core (seal (encode m)); send_to_peer bytes

  -- One turn of `Wire::recv` after the datagram was processed; `again` is the next turn.
  unfoldable pub on_step :
      Result Step → Exec FramedTunnel (Option Message) → Exec FramedTunnel (Option Message)
  on_step (err e) again = again
  on_step (ok (frame f)) again = lift (decoded (decode f))
  on_step (ok (send_back bytes)) again = do send_to_peer bytes; again
  on_step (ok nothing) again = again

  unfoldable pub recv_from : List Arrival → Exec FramedTunnel (Option Message)
  recv_from [] = pure none
  recv_from (quiet ∷ rest) = do modify (taken rest); pure none
  recv_from (broken e ∷ rest) = do modify (taken rest); raise e
  recv_from (datagram bytes from ∷ rest) = do
    modify (taken rest)
    step ← on_core (attempt (process (take buffer bytes)))
    on_step step (recv_from rest)

  -- `Wire::recv`
  unfoldable pub recv : Exec FramedTunnel (Option Message)
  recv f = recv_from f.inbox f

  -- What the loops of net.rs read from a tunnel, up to `fuel` messages: they end where the peer is
  -- gone, or at an error.
  unfoldable pub drain : ℕ → FramedTunnel → List (Result Message)
  drain zero f = []
  drain (suc fuel) f = elim ((recv f).0) [
    | err e ↦ err e ∷ []
    | ok none ↦ []
    | ok (some m) ↦ ok m ∷ drain fuel (recv f).1
  ]
