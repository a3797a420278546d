-- ===== src/Lib.antt =====
-- The Virtual Fabric Manager (VFM), src/vps/vfm: the packet path between hosts on Ethernet and the
-- bridge to the Fibre Channel fabric.
--
-- The sniffer thread puts each received frame into a task queue; processor threads take frames out
-- and read their headers. A control packet is dispatched on its opcode: a solicitation goes to the
-- database, a keep alive is answered by an advertisement, and a host's FLOGI is forwarded to the
-- bridge as an FDISC. The exchange id of a forwarded request is replaced by a key of the exchange
-- table, and a response of the bridge finds its host by that key.
--
-- Parts and files:
-- - Base, Outcome: numbers, lists, machine words and their bytes; the error codes of
--   src/vps/vfm/include/common.h, and `fault` for undefined behaviour of C.
-- - Ether: MAC addresses and names, with the address tests of src/vps/vfm/net_util.c.
-- - ReqMap: src/vps/vfm/map_util.c. `g_req_map` and `vfm_oxid_index` are the record `ReqMap`;
--   `add_entry_to_map`, `remove_entry_from_map`, `get_entry_from_map` and `free_map` keep their
--   names.
-- - TaskQueue: src/vps/vfm/vfm_queue.c, linked tasks on an explicit heap.
-- - Fip: the structures of src/vps/vfm/include/vfm_fip.h and their memory images (Fip), `memcpy`
--   on objects of a known size (Fip.Memory), the header readers of src/vps/vfm/sniffer.c
--   (Fip.Read), descriptors of src/vps/vfm/vfm_fip.c and `create_tlv` (Fip.Tlv, Fip.Descriptor).
-- - World: the globals. `Config` holds those that stay, `World` those that change, with the frames
--   sent; `Env` holds what the operating system and the CRC routine do, as parameters.
-- - Sender: src/vps/vfm/sender.c, frames laid out in a buffer of 1500 bytes.
-- - Builder: src/vps/vfm/vfm_create_pk.c, the packets that the VFM makes.
-- - Sniffer: src/vps/vfm/sniffer.c, from a task to what is sent and changed.
-- - Ib: src/vps/vfm/vfm_ib.c, InfiniBand packets and their header (Ib, Ib.ReadBack), the request
--   to join a multicast group (Ib.Mad), and src/vps/vfm/vfm_iboe.c with `process_lbc_packet` of
--   src/vps/vfm/sniffer.c, solicitations and advertisements (Ib.Adverts, Ib.Solicited).
--   The gateway's library in src/vps/vfm/ext is the record `IbLibrary`.
-- - Start: `main` of src/vps/vfm/server.c and `get_inf_property` of src/vps/vfm/net_util.c, and
--   what is sent first (Start.Login).
-- - Config: src/vps/vfm/config.c. Addresses as characters and as bytes (Config), the lines of the
--   file and the check of the settings (Config.File).
-- - Db: src/vps/vfm/db/vfmdb.c, statements prepared, bound and run; the addition of an adapter or
--   a fabric in src/vps/vfm/db/db_access.c and src/vps/vfm/db/vfmdb_vadapter.c (Db.Vadapter,
--   Db.Added); and the rows that fill structures (Db.Rows, Db.Fabric), whose queries only read; IO
--   modules that src/vps/vfm/vfm_iomodule.c adds (Db.Discovered, Db.Unterminated). The query texts
--   of src/vps/vfm/vfmapi_common.c (Db.Where) and what they select: adapters (Db.Adapters),
--   fabrics (Db.Fabrics), bridge devices (Db.Bridges), and rows that cannot be read (Db.Unread).
--   SQLite and the C library are the records `Sqlite` and `Libc`, parameters of these definitions.
-- - Api: the management interface. Its messages in src/vps/vfm/vfmapi_common.c (Api, Api.Tlv),
--   where their bytes lie (Api.Layout) and that they read back (Api.ReadBack); the client's
--   requests and calls in src/vps/vfm/vfmapi (Api.Request, Api.Sizes, Api.Client); the server's
--   dispatch and responses in src/vps/vfm/vfmapi_impl.c (Api.Server, Api.Response) and its
--   handlers (Api.Handlers, Api.Online, Api.FabricOnline, Api.Edit, Api.Select, over the layout of
--   structures in Api.Structs, with what an activation looks up in Api.Lookup), which Api.Table
--   puts behind the dispatch and Api.Kept and Api.Passive follow through it; the inventories
--   (Api.Inventory, Api.Fabrics, Api.Inventories, Api.Bridges); and calls from end to end
--   (Api.Word, Api.Call, Api.Create, Api.Activate, Api.Edited, Api.Listing, Api.Selected).
-- - Tests: the theorems at concrete inputs.
--
-- How C is modelled: a function takes and returns the state it uses, `Outcome` is its result: a
-- value, an error code, or a fault. A read or write outside an object, through NULL, or of a value
-- never written is a fault, with two exceptions. The read behind the 6 bytes of `multicast_mac`,
-- without which no advertisement is sent, gets bytes that are a parameter (`Stack`); and the writes past the end of a block in `create_tlv` and `get_tlv_value`
-- are counted (`spill`) and the code goes on with the block as it would if they did no harm. The
-- host is little-endian with 64-bit pointers, as the structures' sizes assume; `malloc` succeeds.
-- The build is that of src/vps/vfm/Makefile: `OPEN_FCOE` and `MELLANOX`, without `VFM_EOIB` but
-- for Ib. A mutex makes each function of the table and the queue one atomic step. A processor
-- thread's work on one frame is one step on `World`. No definition uses fuel: the loops are over
-- lists and numbers.
--
-- IO modules that `decide_packet` adds to the database are kept as a list in `World`; what their
-- addition does to the database is in Db.Discovered.
--
-- In the management interface a message that is received is the list of its bytes, so that a read
-- past the received size is a fault, but that `process_client_request` reads on in what earlier
-- messages of the connection left in its buffer. Sockets are the record `Network`; `send` sends a message
-- whole and `recv` gets at most a buffer of 8192 bytes. The layout of structures that the compiler
-- chooses is in the records `Abi` and `Layout`. A query text is what `sprintf` returns for its
-- pieces.
--
-- Left out: sockets, threads and their endless loops, traces, the selection of gateways in
-- src/vps/vfm/db/db_access.c, the gateway requests of the management interface
-- (src/vps/vfm/vfmapi/vfmapi_gateway.c), the gateway's library (src/vps/vfm/ext), the Python
-- bindings and the command line (src/vps/cli); they are I/O, glue to libraries, or other
-- languages, or are not yet taken up.
pub mod Base
pub mod Outcome
pub mod Ether
pub mod ReqMap
pub mod TaskQueue
pub mod Fip
pub mod World
pub mod Sender
pub mod Db
pub mod Api
pub mod Builder
pub mod Sniffer
pub mod Ib
pub mod Start
pub mod Config
pub mod Tests
