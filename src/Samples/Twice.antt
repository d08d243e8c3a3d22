-- ===== src/Samples/Twice.antt =====
-- A card of two endpoints, at each of which the notice of the payment cannot be sent.
use computermoney.Prelude.{
  ℕ, zero, suc, ◌==◌, Text, codes, length, drop, true, false, none, some, List, [], ◌∷◌, ◌++◌, ◌≡◌,
  refl, if◌then◌else◌,
}
use computermoney.Result.{Error, io, panicked, Result, ok, err}
use computermoney.Chain.{Esplora}
use computermoney.Ledger.Entry.{Status, Entry, sent}
use computermoney.Ledger.Store.{World}
use computermoney.Ledger.Durability.{render}
use computermoney.Protocol.{addr_response, encode}
use computermoney.Discover.{Card}
use computermoney.Tunnel.{Socket, Arrival, datagram, wrap_ip}
use computermoney.Tunnel.Session.{Internet, pay}
use computermoney.Server.{dial_card}
use computermoney.Server.Twice.{AllPayAndFail, no_more, then_next, dial_card-pays_each}
use computermoney.Samples.Codec.{plain_codec}
use computermoney.Samples.Shop.{key, server}
use computermoney.Samples.Bank.{bank_host, bank_bdk, bank_payer, bank_json}
use computermoney.Samples.Network.{plain_tunn, bank_account}

-- The tag of the message in a datagram is behind its mark, the header and the length.
abbrev refuse_notice : Text → Result (Unit {0})
refuse_notice (suc (suc zero) ∷ rest) = err io
refuse_notice _ = ok tt

instance abbrev deaf_socket : Socket
deaf_socket = record { send_to = λ bytes to. refuse_notice (drop 25 bytes) }

-- Every peer answers the handshake and gives out an address.
instance abbrev answering : Internet
answering = record {
  parse_addr = some;
  bind = ok tt;
  polls = λ a. (datagram (2 ∷ []) a, false) ∷ [];
  inbox = λ a. datagram (1 ∷ wrap_ip (encode (addr_response (codes "shop") 4))) a ∷ [];
}

-- A server that takes every transaction.
abbrev open_server : Esplora
open_server = record server { send_tx = λ tx. none }

abbrev wg : Text
wg = codes "0000000000000000000000000000000000000000000000000000000000000000"

abbrev paid_world : List Entry → List (Text × Text) → List Text → World
paid_world es sidecars broadcasts = record {
  ledger = record { entries = es; identity = some key };
  disk = record { file = render (some key) es; sidecars = sidecars; faults = [] };
  broadcasts = broadcasts;
}

abbrev paid_entry : ℕ → Entry
paid_entry n = sent n (codes "raw2") 300 (codes "shop") Status.pending 2000

abbrev before : World
before = paid_world [] [] []

abbrev once : World
once = paid_world (paid_entry 0 ∷ []) ((codes "raw2", codes "raw2") ∷ []) (codes "raw2" ∷ [])

abbrev twice : World
twice =
    paid_world (paid_entry 0 ∷ paid_entry 1 ∷ []) ((codes "raw2", codes "raw2") ∷ [])
      (codes "raw2" ∷ codes "raw2" ∷ [])

sessions :
    (pay ⦃c = open_server⦄ (codes "v4") wg 300 before ≡ (err io, once))
    × (pay ⦃c = open_server⦄ (codes "v6") wg 300 once ≡ (err io, twice))
unfolding computermoney.Tunnel.Session.key_of computermoney.Tunnel.Session.socket_addr
    computermoney.Tunnel.Session.open_own_ledger computermoney.Tunnel.Session.wire_of
    computermoney.Tunnel.Session.messages computermoney.Tunnel.Session.session_on
    computermoney.Tunnel.Session.pay_over computermoney.Tunnel.Session.pay computermoney.Keys.utf8
    computermoney.Keys.parse_pairs computermoney.Keys.parse_public_key computermoney.Build.fee_gate
    computermoney.Build.finalized_gate computermoney.Build.recommended_feerate
    computermoney.Build.mainnet_guard computermoney.Build.build_wallet
    computermoney.Build.synced_wallet computermoney.Build.finish_capped
    computermoney.Build.build_signed computermoney.Build.Mixed.decode_hex32
    computermoney.Tunnel.initiation computermoney.Tunnel.handshake_init computermoney.Tunnel.process
    computermoney.Tunnel.seal computermoney.Tunnel.on_core computermoney.Tunnel.send_to_peer
    computermoney.Tunnel.on_response computermoney.Tunnel.await_response
    computermoney.Tunnel.connect computermoney.Tunnel.decoded computermoney.Tunnel.send_message
    computermoney.Tunnel.on_step computermoney.Tunnel.recv_from computermoney.Tunnel.recv
    computermoney.Tunnel.drain computermoney.Ledger.Store.push
    computermoney.Ledger.Store.split_lines computermoney.Ledger.Store.strip_cr
    computermoney.Ledger.Store.digest computermoney.Ledger.Store.sign
    computermoney.Ledger.Store.verify computermoney.Ledger.Store.verify_record
    computermoney.Ledger.Store.accept computermoney.Ledger.Store.open_inner
    computermoney.Ledger.Store.seal computermoney.Ledger.Store.line_of
    computermoney.Ledger.Store.append computermoney.Net.on_world computermoney.Net.send_message
    computermoney.Net.await_address computermoney.Net.amount_gate computermoney.Net.run_payer
    computermoney.Protocol.encode computermoney.Protocol.decode computermoney.Pay.book_and_broadcast
    computermoney.Pay.send computermoney.Policy.ensure_mainnet_capped
    computermoney.Policy.check_amount computermoney.Policy.check_address
    computermoney.Ledger.Folds.next_seq computermoney.Ledger.Methods.drop_sidecar
    computermoney.Ledger.Methods.write_sidecar computermoney.Ledger.Entry.seq
    computermoney.Chain.broadcast computermoney.Storage.network computermoney.Result.attempt
    computermoney.Samples.Network.open_datagram computermoney.Samples.Bank.put_message
    computermoney.Samples.Bank.get_message computermoney.Samples.Codec.put_num
    computermoney.Samples.Codec.put_text computermoney.Samples.Codec.rank
    computermoney.Samples.Codec.put_entry computermoney.Samples.Codec.put_record
    computermoney.Samples.Codec.get_num computermoney.Samples.Codec.get_text
    computermoney.Samples.Codec.status_of computermoney.Samples.Codec.get_fields
    computermoney.Samples.Codec.get_entry computermoney.Samples.Codec.get_record
    computermoney.Samples.Codec.tagged_check computermoney.Ledger.Durability.render
    computermoney.Prelude.text_eq computermoney.Prelude.contains computermoney.Prelude.trim
sessions = (refl, refl)

abbrev two_ways : Card
two_ways = record { wg = wg; ep = codes "v4" ∷ codes "v6" ∷ []; sp = none; at = 7 }

io_caught : ¬ (io ≡ panicked)
io_caught e = cc

both_fail : AllPayAndFail ⦃c = open_server⦄ wg 300 (codes "v4" ∷ codes "v6" ∷ []) before twice
both_fail =
    then_next (codes "v4")
      (record { why = io; ended = sessions.0; caught = io_caught; tx = codes "raw2"; paid = refl })
      (then_next (codes "v6")
        (record {
          why = io;
          ended = sessions.1;
          caught = io_caught;
          tx = codes "raw2";
          paid = refl;
        })
        no_more)

dial_card-pays_each_example :
    (why : Error) × (dial_card ⦃c = open_server⦄ two_ways 300 before ≡ (err why, twice))
    × (txs : List Text) × (length txs ≡ 2)
    × (twice.broadcasts ≡ [] ++ txs)
dial_card-pays_each_example =
    dial_card-pays_each ⦃c = open_server⦄ two_ways 300 (codes "v4") (codes "v6" ∷ []) before twice
      refl both_fail
