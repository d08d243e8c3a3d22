-- ===== src/Tunnel/Listener.antt =====
-- tunnel.rs: `accept_any`, by which a daemon takes whoever dials it.
use computermoney.Prelude.{Text, take, Option, none, some, List, [], ◌∷◌, ◌++◌}
use computermoney.Result.{ok, err, try_then, Exec, pure, raise, modify, ◌>>◌}
use computermoney.Keys.{hex32}
use computermoney.Tunnel.{
  Tunn, Socket, Arrival, datagram, quiet, broken, send_back, process, FramedTunnel, buffer,
}

-- The socket that a daemon shares between its sessions.
pub record Listener : Type 0 where
  pub inbox : List Arrival
  pub sent : List (Text × Text)

module _ ⦃t : Tunn⦄ ⦃k : Socket⦄ where
  -- The tunnel that answers an initiation, and the key of the peer that it names.
  unfoldable pub answer : Text → Text → Text → Text → Exec Listener (Option (FramedTunnel × Text))
  answer secret bytes from peer_pub l = elim ((process bytes (t.new secret peer_pub)).0) [
    | err e ↦ (err e, l)
    | ok (send_back resp) ↦
        let l' : Listener = record l { sent = l.sent ++ ((from, resp) ∷ []) } in
        let f : FramedTunnel = record {
          core = (process bytes (t.new secret peer_pub)).1;
          peer = from;
          inbox = l.inbox;
          sent = l'.sent;
        } in
        (try_then (k.send_to resp from) λ u. ok (some (f, hex32 peer_pub)), l')
    | ok _ ↦ (ok none, l)
  ]

  -- An initiation names its sender's static key; nothing else opens a session.
  unfoldable pub on_datagram : Text → Text → Text → Exec Listener (Option (FramedTunnel × Text))
  on_datagram secret bytes from = elim (t.parse_incoming_packet bytes) [
    | none ↦ pure none
    | some init ↦ elim (t.parse_handshake_anon secret (t.public_key secret) init) [
      | none ↦ pure none
      | some peer_pub ↦ answer secret bytes from peer_pub
    ]
  ]

  unfoldable pub accept_next : Text → List Arrival → Exec Listener (Option (FramedTunnel × Text))
  accept_next secret [] = pure none
  accept_next secret (quiet ∷ rest) = do modify (λ l. record l { inbox = rest }); pure none
  accept_next secret (broken e ∷ rest) = do modify (λ l. record l { inbox = rest }); raise e
  accept_next secret (datagram bytes from ∷ rest) = do
    modify (λ l. record l { inbox = rest })
    on_datagram secret (take buffer bytes) from

  unfoldable pub accept_any : Text → Exec Listener (Option (FramedTunnel × Text))
  accept_any secret l = accept_next secret l.inbox l
