-- ===== src/Lib.antt =====
-- The mesh library of the node firmware, lib/mesh: routing, forwarding, retries, framing and
-- segmentation.
--
-- A node hears beacons of its neighbours. The router (lib/mesh/router.cpp) passes each one to the
-- neighbour table, which learns the quality of the link in either direction and the one-byte aliases of
-- the link, and offers the routes that it advertises to the routing table. The forwarder
-- (lib/mesh/forwarder.cpp) asks the router for the next hop of each packet that arrives, and the link
-- ARQ (lib/mesh/link_arq.cpp) sends frames to a next hop again until they are acknowledged. Above that,
-- lib/mesh/sar.cpp cuts a large blob into fragments and puts it together again, and lib/mesh/kiss.h
-- frames the bytes of the console. The announces of the routers travel in beacons
-- (lib/mesh/announce_codec.cpp) with a signature; the locator directory (lib/mesh/locator_dir.cpp)
-- finds the node that serves an identity; signed commands (lib/mesh/control.cpp) and telemetry
-- (lib/mesh/telemetry.cpp) come from and go to the network's controller.
--
-- The files:
-- - NodeId: lib/mesh/mesh_types.h. A node id is a list of 16 bytes; memcmp is bytes_eq of
--   Prelude/Memory. hex and from_hex are nid_hex and nid_from_hex, nid_fold is FNV-1a.
-- - Kiss: lib/mesh/kiss.h. encode is kiss_encode, with `none` for its return of 0; feed is
--   KissDecoder::feed and feed_all the loop of its callers. Capacity and RoundTrip hold the proofs.
-- - Sar: lib/mesh/sar.h and sar.cpp. add is SarReassembler::add, of which is_consistent, join, restart
--   and store are the parts in the order of the code; the parameter `len` is the length of the payload.
--   Sar/Messages models the NACK and DONE messages. Bitmap, Fragment, Invariant, Delivery and
--   Reassembly hold the proofs.
-- - Float: the operations on `float` that lib/mesh uses, as an interface; a number literal is
--   `dec m e`, for m / 10^e. Float/Fixed is an instance with six decimals, for running the code.
-- - Metric: lib/mesh/link_metric.cpp.
-- - Routes: lib/mesh/routing_table.cpp. The array of slots is a list of 64 routes, a pointer into it an
--   index with the slot, and the null pointer `none`. relax and withdraw are parts of offer.
-- - Neighbors: lib/mesh/neighbor_table.cpp, with 32 slots in the same way. alloc_loop is the loop of
--   alloc_alias.
-- - Router: lib/mesh/router.cpp. learn_link and relax_adv are parts of on_beacon. The arrays of an
--   Announce with their counts are lists, and so is blocked_ with n_blocked_. Router/History has
--   the calls that change a router as steps, and the routers that they reach.
-- - Forwarder: lib/mesh/forwarder.cpp. The router that it refers to is an argument of decide.
-- - LinkArq: lib/mesh/link_arq.cpp. The calls of the callback in tick are the list of what it sent.
--   LinkArq/Account has sequences of calls, with what they have done so far; Tracked a tracked frame.
-- - NodeTable: lib/mesh/node_table.cpp. The three bits of a slot's flags are Booleans; live is the test
--   that resolve, verified, mark_verified and pin share.
-- - Locator: the messages of lib/mesh/locator_dir.cpp. The id of a message is the list of its bytes.
-- - Locator/Directory: LocatorDir of the same file. alloc_loop is the loop of alloc_slot; a lookup that
--   returns a binding gives it as an Option. Alloc, Valid and Stored hold the proofs.
-- - Locator/Resolver: LocatorResolver of the same file. slot_loop is the second loop of begin.
-- - Crypto: the two calls of lib/monocypher that the code makes, sign and check, as a parameter, and
--   what is relied on: signatures have 64 bytes, and those of a key pair check. That the check accepts
--   only what was signed is a hypothesis of the theorem that needs it.
-- - Control: lib/mesh/control.cpp. verify is ctrl_verify, with `out` before and after it. Commands has
--   the round trip of the three builders, Authentic what is accepted, Acks the acknowledgements.
-- - Telemetry: lib/mesh/telemetry.cpp. Codec has the round trips, Cache the class TelemCache.
-- - Announces: lib/mesh/announce_codec.cpp. fitting is the test of the two loops of announce_serialize,
--   put_reports and put_routes are what they write. Codec and RoundTrip hold the proofs of the round
--   trip, Signed those of the tail.
-- - Firmware: the signed commands of src/main.cpp. apply_verified is ctrl_apply_verified, with a function
--   for each of its branches; on_command is the part of on_control_rx that checks a command of a flood;
--   dead_man is the rail in loop, heartbeat and sweep are ctrl_heartbeat_sweep and ctrl_blk_sweep, and
--   rails is what a round of the loop makes of the three. A handler runs at one time, and gives what it
--   does to flash, the air and the radio library as a list.
--   Floor and Once hold the proofs on the replay floor, Rails and Expiry those on what undoes a command.
-- - TxQueue: the queue of frames of src/main.cpp. push and pump are txq_push and txq_pump; an item is the
--   list of its first len bytes. Fifo compares the ring with a list.
-- - Packet: include/packet.h, and of src/main.cpp loc_reflood, which sends a flooded frame on. A header is
--   written into the list of a frame's bytes. Packet/Flood is the ring loc_seen of floods that were handled.
--   Packet/Unicast has tx_unicast, forward_frame and send_ack, which use the queue and the ARQ, and on_link,
--   the part of the handler of received frames from the link filter to the acknowledgements; they ask the
--   tables of the router.
-- - Prelude: lists, slots, words and memory that the parts share.
--
-- Numbers are naturals with the wrap-around of their C type written out. Time is given as an argument
-- and ages are differences of 32 bits. The hypotheses on floats are those of IsSaturating, that nothing is
-- less than itself and that a float which 65535 is not less than is cut to 65535 at most. A signed number of 8 or 16 bits in a
-- message is the unsigned one that it is cast to. The one loop with a counter, alloc_loop, has the 254
-- rounds of the code; every other loop is by recursion on its array or list.
--
-- Not modelled: the rest of src/main.cpp and the radio, which are mostly input and output; Monocypher,
-- which is another project's; the controller, the host library and the web pages.
mod Prelude
pub mod NodeId
pub mod Kiss
pub mod Sar
pub mod Telemetry
pub mod TxQueue
pub mod Packet
pub mod Float
pub mod Metric
pub mod Routes
pub mod Neighbors
pub mod Router
pub mod Firmware
pub mod Forwarder
pub mod LinkArq
pub mod NodeTable
pub mod Announces
pub mod Control
pub mod Crypto
pub mod Locator
