-- ===== src/Lib.antt =====
-- A firewall for the Octeon: a manager process with a command line beside it keeps the table of ACL rules,
-- and data plane cores decode packets, follow their flows and apply the rules.
--
-- The parts and how they interact. A user types a rule; mgrplane/src/client/cli_rule.c checks it and
-- packs it into a message (mgrplane/src/common/message.c); the manager (mgrplane/src/srv) recognises the
-- command of the message, calls its handler, which works on the table of rules in shared memory
-- (include/acl_rule.h, mgrplane/src/srv/srvnet/srv_rule.c), and answers with a code that the command line
-- reads. Commands that show counters are passed on to the data plane. In the data plane
-- (dataplane/src) packets are described by an mbuf, buffers come from pools, and every packet of a
-- connection is given one node of the flow table, which a timer ages.
--
-- Which file models what:
--   Common           Boolean tests, arrays as lists, exclusive or
--   RuleTuple        include/rpc-common.h: the packed record of a rule, and Rule_compare
--   Rules            the table of rules with every operation of srv_rule.c on it
--   Message          message.h and message.c: headers, packing, and the lookup of a command
--   Server           the handlers of cmdproc.c, srv_rule.c and srv_octeon.c, and mgmt_process_cmd
--   Cli              the commands of cli_rule.c, and whole sessions from the user to the table and back
--   Trans            mgrplane/src/srv/srvcore/trans.c: the descriptors, and the reception of a message
--   MemPool          dataplane/src/platform/mem_pool.c: mem_pool_alloc, mem_pool_free, and in Inject
--                    mem_pool_sw_slice_inject
--   Mbuf             dataplane/src/include/mbuf.h
--   Buffers          dataplane/src/common/mbuf.c: packet_hw2sw, mbuf_alloc, mbuf_free, and the
--                    release of a packet
--   Flow             dataplane/src/flow: hash, match, lookup, insertion, ageing; Reference:
--                    FlowHandlePacket and the use counts, packet_recycle of common/mbuf.c
--   TxRing           dataplane/src/platform/oct-rxtx.c: the ring of software packets under way
--   Acl              dataplane/src/acl/acl.c: Matched and the points of a set of rules; Build: BuildHSTree
--                    and the two lookups; Words: the arithmetic on arrays of words; Ranges: ReadIPRange;
--                    Load: load_rule, from the table of rules to the set that the tree is built from
--   Decode           dataplane/src/decode: the checks of IPv4, TCP and UDP headers; Layers: Decode and the
--                    decoders of all layers; Fragments: Defrag as they call it, with Frag_defrag_setup
--   Defrag           dataplane/src/decode/decode-defrag.c: Frag_defrag_process and Frag_defrag_reasm;
--                    Table: Defrag and Frag_defrag_timeout
--   Tests            runs on concrete data
-- A definition carries the name of the function or type that it models, in lower case with underscores.
--
-- How the code is read. State is passed explicitly, and an operation answers with the state after it.
-- Integers are natural numbers with the wrap-around of their C type written out; the Octeon is
-- big-endian, so that a packed record is the list of its bytes, the high byte first. C's -1 and NULL are
-- `none`; a handler's outer `none` is an access outside an array. Loops over arrays are recursion on the
-- list or on the number of turns left, so that no fuel is needed. BuildHSTree has fuel, the depth of
-- its recursion, and 22 for each rule and one more are enough; so have DecodeVLAN, where 2 are enough,
-- and the check of the ring, where 64 are. A critical section is one step, and the steps of several
-- cores are put in any order. The hardware pools, the cycle counter, locks held by other cores, the
-- file system and the data plane's answers are arguments.
--
-- Not modelled: the command line parser, which is a third-party library with generated tables; the
-- start-up of the hardware and its drivers; the calls of the Octeon SDK that receive and send packets;
-- sockets, terminals and printing; the small object allocator (dataplane/src/common/sos_malloc.c); the
-- interleavings between the two locks of Defrag; and of acl.c the estimate in floating point and the
-- copy of BuildHSTree under a time limit.
pub mod Common
pub mod RuleTuple
pub mod Rules
pub mod Message
pub mod Server
pub mod Cli
pub mod Trans
pub mod MemPool
pub mod Mbuf
pub mod Buffers
pub mod TxRing
pub mod Flow
pub mod Acl
pub mod Decode
pub mod Defrag
mod Tests
