-- ===== src/Lib.antt =====
-- PeerLink: the parts of its core that decide what is sent, kept and let through.
--
-- PeerLink joins machines to a private network. Every packet travels in a `ZCPacket`, one buffer
-- with room for the headers of the tunnel it goes through and of the peer manager; packets to and
-- from other networks are wrapped whole. Calls between peers are cut into packets and merged again.
-- Packets are encrypted by a cipher, pass a filter with rate limits, and datagrams that come in
-- fragments are put together before they are handed on. Peers tell each other whom they are
-- connected to, what they know of the others and in which version, and compute their routes from it.
-- The parts meet in the packet: the RPC layer and the ciphers write it by the operations of
-- `Packet`, and the filter takes tokens from buckets of `TokenBucket`.
--
--   Common          lists measured by native numbers, code that may panic (`Exec`)
--   Packet          app/src/tunnel/packet_def.rs: kinds and offsets (Layout), the peer manager's header
--                   (Header), the buffer (Buffer), packets of other networks (Foreign); Crates has the
--                   laws of zerocopy, bitflags and bytes, as a record that the definitions take
--   Cipher          app/src/peers/encrypt/xor_cipher.rs and the cipher that does nothing in mod.rs
--   Rpc             app/src/proto/rpc_impl/packet.rs: build_rpc_packet, PacketMerger
--                   and, in Content, compress_packet and decompress_packet
--   Reassembly      app/src/gateway/ip_reassembler.rs: IpReassembler; one fragment (Datagram), all of
--                   a datagram in any order (Sequence)
--   TokenBucket     app/src/common/token_bucket.rs: TokenBucket
--   Compressor      app/src/common/compressor.rs: DefaultCompressor, with zstd as a record of laws
--   Route           app/src/peers/peer_ospf_route.rs: SyncedRouteInfo (Synced, Learn), RouteConnBitmap
--                   (Bitmap), SyncRouteSession and sync_route_with_peer (Session), RouteTable (Table),
--                   verify_and_update_group_trusts (Trust), do_sync_route_info (Handler); and
--                   app/src/peers/graph_algo.rs: dijkstra_with_first_hop (Graph)
--   Acl             app/src/common/acl_processor.rs: AclProcessor, parse_port_range
--
-- A struct is a record, an enum a data type, and a function keeps its name in snake case; where a
-- name is taken it says more (`new_packet`, `add_to_packet`). A method on `&mut self` takes the
-- state and returns the next. Code that may panic returns an `Exec`. A table (DashMap) is an
-- association list. Bytes are natural numbers, and a number of w bits has its wrap-around written
-- out. The u16 sums of the reassembler and of the header for other networks, and the sum of an invalid
-- offset and a header's size, panic on overflow instead, as in a build with overflow checks. Lengths
-- of buffers and costs of routes (usize) have no bound. The bytes that `set_len` leaves uninitialised are a parameter, so that a result holds
-- whatever they are.
--
-- Two loops run on fuel: that of build_rpc_packet, with the content's length and one as fuel, since
-- each round takes at least a byte; and that of dijkstra_with_first_hop, with one round for each
-- edge and two more, since an entry of the heap is pushed for an edge at most. Calls on the atomic
-- count of a token bucket are a step relation, one step for one atomic operation, in any order.
--
-- Not modelled: sockets, tasks and timers; the headers of the tunnels themselves; the ciphers that
-- wrap third-party code; zstd (a parameter); the floating-point sum of tokens that a refill adds (a
-- parameter); AclRuleBuilder; of the routes, the maps of addresses and the tasks of the sessions;
-- what runs beside each other on a synced table, a session or a route table.
pub mod Common
pub mod Packet
pub mod Cipher
pub mod Compressor
pub mod Rpc
pub mod Reassembly
pub mod TokenBucket
pub mod Acl
pub mod Route
