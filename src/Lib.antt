-- ===== src/Lib.antt =====
-- computermoney: a wallet that an agent holds. A payment passes the gates of the policy, is built and
-- signed by bdk, is kept as a sidecar and booked in a signed ledger, and goes out last; the ledger is
-- reconciled against an Esplora server; peers ask each other for addresses over a WireGuard tunnel, a
-- scanner looks for silent payments in blocks, an HTTP endpoint sells a body for one, a daemon serves
-- buyers and watches the chain, and a tool server and a command line drive all of it.
--
-- Parts, with the source that each is about:
--   Policy      src/policy.rs: the record of limits and the four gates.
--   Result      Rust's Result and `?`; a method that mutates is an `Exec`, a function of the state
--               that returns a result and a state, so that what was written before an error stays. A
--               panic is an error that no caller handles.
--   Storage     src/storage.rs: environment, network, endpoints, the identity that acts, the sealed
--               seed (Seed), load_wallet (Load), and save_new_wallet and lock_dir (Create).
--   Chain       src/chain.rs: confirmations, broadcast, rebroadcast_hex, the fee clamp; Deposits is
--               deposits_to; Build is build_signed, and under it Selection is select_largest_first,
--               Mixed the builders that spend silent payments, and Balance is balance.
--   Ledger      src/ledger.rs. Entry and Store: the entries, the file of signed lines, open_inner and
--               append. Folds and Balances: the folds over the entries. Methods: record_received and
--               the sidecars. Reconcile: reconcile. The other children are proofs.
--   Pay         src/pay.rs: send, sp_send and send_spending_sp.
--   Protocol    src/protocol.rs: messages, frames, the receiver. Net is src/net.rs, both peers.
--   Scan        src/scan.rs: the scan and its checkpoint; Matching is tx_matches and tx_pays_me.
--               Sp is src/sp.rs over an abstract curve, with its codes in Codes. Paywall
--               is src/paywall.rs, and Fetch, the buyer, is src/fetch.rs.
--   Keys        the 64 digits that name a peer: parse_card_key of src/discover.rs, parse_public_key
--               and hex32 of src/tunnel.rs. Discover is the rest of src/discover.rs.
--   Wallet      src/wallet.rs: the paths of the keys, and, as Account, what the other parts take.
--   Tunnel      src/tunnel.rs: packets, handshakes and the wire; Listener is accept_any, and Session
--               a payment over a tunnel. Packets and Carries are proofs.
--   Server      src/mcp.rs: the payments of the tools; Calls the tools and their arguments, Rpc the
--               loop, Reports the reports. Capped, Twice, Refusals and Replies are proofs.
--   Setup       cm_setup: setup_report of src/mcp.rs, and the arm of src/main.rs; Sealed is a proof.
--   Daemon      src/serve.rs: the duties and the turns. Cadence, Honest and Stale are proofs.
--   Cli         src/main.rs: the arms that pay and report, and the flags; Paths is a proof.
--   Samples     stand-ins for the libraries and runs on concrete inputs.
--
-- How the code is read:
--   Text is a list of numbers: code points, or bytes where the source has bytes; a torn write cuts
--   between two of them. u64 and u32 sums wrap, as release builds compute them; the `i64` of
--   Ledger::balance is its 64 bits. A set or a map is a list.
--   A World is the ledger in memory, the disk under it and the transactions handed to the network.
--   An absent ledger file is an empty one. Each call of the file system takes the next of `faults`: it
--   works, fails before it wrote, or tears the write; when the list is used up, all work. Creating a
--   directory is part of the open that follows it.
--   The server is an Esplora, one reading of its state that a whole pass sees.
--   A socket is the list of what will arrive on it; when that is used up, nothing comes until the
--   timeout. The two directions of a tunnel are independent: a payer's session reads the messages
--   that the tunnel will deliver, and sends on its wire.
--   The daemon's endless loop is its turns, each at a time and with the sessions it accepts; what the
--   threads of the tool server do is the daemon and the paywall. A request is a value of a JSON
--   library, and a reply is data in place of its text.
--   Parameters stand for the libraries: serde_json, SHA-256 and BIP-340 (Platform, IsSound), bdk and
--   secp256k1 (Bdk), Argon2 and ChaCha20-Poly1305 (Cipher), JSON (Json, JsonValue), minreq and the
--   server's pages (ScanHost, Web), the curve (Curve), bech32 (Encoding), BIP-39 and BIP-32 (Bip,
--   Wallets, Fresh), boringtun (Tunn, IsTunnel), sockets (Socket, Internet, Ports) and the DHT (Dht).
--   Build and Matching take sp.rs as parameters too.
--   Loops recur on their list. receive_from counts the outputs that remain, of which each turn takes
--   one. scan_pages has fuel, since its loop ends by what the server sends; for a server that pages
--   its blocks by 25 a fuel above a 25th of the block is enough. A tunnel is drained up to as many
--   messages as there are arrivals, since each message takes one.
--
-- Not modelled: printing, threads and clocks, and which process holds a lock when; the text of the
-- tool server's replies, its list of tools and the endpoint that it finds for the card;
-- examples/key-genesis.rs.
pub mod Prelude
pub mod Policy
pub mod Result
pub mod Storage
pub mod Chain
pub mod Ledger
pub mod Build
pub mod Pay
pub mod Protocol
pub mod Deposits
pub mod Net
pub mod Matching
pub mod Sp
pub mod Scan
pub mod Paywall
pub mod Fetch
pub mod Keys
pub mod Wallet
pub mod Discover
pub mod Tunnel
pub mod Server
pub mod Setup
pub mod Daemon
pub mod Cli
pub mod Samples
