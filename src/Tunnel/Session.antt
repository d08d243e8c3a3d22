-- ===== src/Tunnel/Session.antt =====
-- tunnel.rs: `pay`, a payer's session over a tunnel. A payment goes out on the ledger that it opens.
use computermoney.Prelude.{ℕ, Text, codes, Bool, length, Option, none, some, List, []}
use computermoney.Result.{other, panicked, Result, ok, err, Exec, lift, modify, ◌>>=◌, ◌>>◌}
use computermoney.Storage.{Host}
use computermoney.Chain.{Esplora}
use computermoney.Ledger.Platform.{Platform}
use computermoney.Ledger.Store.{World, open_inner, on_disk}
use computermoney.Build.{Bdk}
use computermoney.Pay.{Payer}
use computermoney.Protocol.{Message, Json}
use computermoney.Net.{Wire, Session, run_payer}
use computermoney.Wallet.{Account}
use computermoney.Keys.{Parsed, key, refused, panics, parse_public_key}
use computermoney.Tunnel.{Tunn, Socket, Arrival, FramedTunnel, connect, send_message, drain}

-- The parse of a socket's address, the binding of our own socket, and what arrives on it from an
-- address: while the handshake is awaited, and after it.
pub record Internet : Type 0 where
  pub parse_addr : Text → Option Text
  pub bind : Result (Unit {0})
  pub polls : Text → List (Arrival × Bool)
  pub inbox : Text → List Arrival

unfoldable pub key_of : Parsed → Result Text
key_of (key bytes) = ok bytes
key_of (refused why) = err (other why)
key_of panics = err panicked

unfoldable pub socket_addr : Option Text → Result Text
socket_addr none = err (other (codes "peer must be host:port"))
socket_addr (some addr) = ok addr

module _ ⦃p : Platform⦄ ⦃a : Account⦄ where
  -- `open_with_identity` on the wallet's key: the ledger of the file takes the place of the last.
  unfoldable pub open_ledger : Exec World (Unit {0})
  open_ledger = do
    keypair ← lift a.signing_keypair
    led ← on_disk (open_inner (some keypair))
    modify (λ w. record w { ledger = led })

  -- The same, with the path of the file, which is named by the identity.
  unfoldable pub open_own_ledger : Exec World (Unit {0})
  unfolding open_ledger
  open_own_ledger = do id ← lift a.id_hex; open_ledger

module _ ⦃t : Tunn⦄ ⦃k : Socket⦄ ⦃j : Json⦄ where
  -- The two directions of a WireGuard session are independent: what is read does not depend on what
  -- was sent, and each message is sealed as the first would be.
  unfoldable pub wire_of : FramedTunnel → Wire
  wire_of f = record { send = λ m. (send_message m f).0 }

  -- All that the peer says: each message takes at least one arrival.
  unfoldable pub messages : FramedTunnel → List (Result Message)
  messages f = drain (length f.inbox) f

module _ ⦃h : Host⦄ ⦃p : Platform⦄ ⦃c : Esplora⦄ ⦃b : Bdk⦄ ⦃y : Payer⦄ ⦃a : Account⦄ ⦃t : Tunn⦄
    ⦃k : Socket⦄ ⦃j : Json⦄ ⦃n : Internet⦄ where
  -- The receiver of the session's record is not used by a payer.
  unfoldable pub session_on : World → Session
  session_on w = record { world = w; receiver = record { next_index = 0 }; outbox = [] }

  unfoldable pub pay_over : FramedTunnel → ℕ → Exec World (Unit {0})
  pay_over f sats w =
      let s =
        run_payer ⦃wire = wire_of f⦄ (a.descriptors.0) (a.descriptors.1) (messages f) sats
          (session_on w) in
      (s.0, s.1.world)

  unfoldable pub pay : Text → Text → ℕ → Exec World (Unit {0})
  pay peer_addr peer_pub_hex sats = do
    secret ← lift a.wg_secret_bytes
    peer_pub ← lift (key_of (parse_public_key peer_pub_hex))
    peer ← lift (socket_addr (n.parse_addr peer_addr))
    open_ledger
    lift n.bind
    f ← lift (connect (n.polls peer) (n.inbox peer) peer secret peer_pub)
    pay_over f sats
