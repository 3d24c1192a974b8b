-- ===== src/Lib.antt =====
-- A verification library for libixp, a 9P client and server library in C.
--
-- The program. lib/libixp/convert.c packs and unpacks numbers, strings and structures in a buffer;
-- lib/libixp/message.c packs and unpacks whole 9P messages with it, and lib/libixp/transport.c sends
-- and receives them. lib/libixp/request.c serves a connection: it receives a request, enters its tag
-- in a table of lib/libixp/map.c, looks up its fid in another, checks it and calls the service's
-- function, which answers with ixp_respond; lib/libixp/srv_util.c has what the functions share.
-- lib/libixp/client.c is the other side: it walks to files, opens, reads and writes them by calls that
-- lib/libixp/rpc.c sends. lib/libixp/timer.c keeps the timers that the server's loop triggers.
--
-- Wire/Types: IxpQid, IxpStat, IxpFcall and the message types of include/ixp.h.
-- Wire/Msg: IxpMsg, with the accesses to its buffer; an access outside is a fault, `none`.
-- Wire/Convert: the routines of lib/libixp/convert.c, each under its name.
-- Wire/Message: ixp_pfcall, ixp_fcall2msg and ixp_msg2fcall of lib/libixp/message.c.
-- Wire/Format describes the 9P format by itself; Wire/Packs and Wire/Unpacks relate the routines to
-- it, Wire/Safe treats arbitrary bytes, Wire/RoundTrip a message packed and unpacked again.
-- Transport: ixp_sendmsg of lib/libixp/transport.c, over the results of the writes;
-- Transport/Incoming is ixp_recvmsg, over a stream and the results of the reads.
-- Map: the operations of lib/libixp/map.c on a list of chains; Map/Refine has the abstract view, a
-- function from hashes to values, and Map/Walk the walks over all entries.
-- Timer: ixp_settimer, ixp_unsettimer and ixp_nexttimer of lib/libixp/timer.c; Timer/Table has the
-- list as a table by id, Timer/Fire the triggering.
-- Request: the fids and requests of a connection of lib/libixp/request.c, in heaps in which a freed
-- one is marked, with createfid and destroyfid. Request/Handle is handlereq, an arm of its switch at
-- a time; Request/Respond is the first switch of ixp_respond and Request/Answer the rest of it;
-- Request/Receive is handlefcall, cleanupconn and ixp_serve9conn_fd.
-- Buffers, Ctl: ixp_srv_readbuf, ixp_srv_writebuf, ixp_srv_data2cstring and ixp_srv_writectl of
-- lib/libixp/srv_util.c.
-- FileIds: the pool of file ids of lib/libixp/srv_util.c, with getfile, freefile and clonefiles, a file
-- id being an index into the chunks; FileIds/Walking has ixp_srv_walkandclone and ixp_srv_verifyfile,
-- with the service's lookup as a parameter.
-- Directory: ixp_srv_readdir of lib/libixp/srv_util.c, with the service's list of a directory and its
-- dostat as parameters; Directory/Entries describes the answer by itself.
-- Pending: the pending reads of lib/libixp/srv_util.c, a ring of links being a list of numbered links,
-- with ixp_pending_write, _respond, _pushfid, _flush and _clunk; an answer is an entry of a list.
-- Server: the connections of a server of lib/libixp/server.c, with ixp_listen, ixp_hangup,
-- ixp_server_close, prepare_select and handle_conns; their read and close functions are parameters.
-- Client: the fids of a client of lib/libixp/client.c, dofcall and ixp_mountfd; Client/Files has the
-- operations on a path, Client/Stats ixp_stat, Client/Transfer the reads and writes.
-- Rpc: the tags of a client's calls of lib/libixp/rpc.c, as indices into `wait`, and the queue of those
-- that wait; Rpc/Calls is muxrpc with the messages that it sends and receives, in one thread.
-- Strlcat, Tokens: ixp_strlcat and ixp_tokenize of lib/libixp/util.c.
-- Prelude: what all share; Prelude/Bits has the shifts and masks as arithmetic. Samples: zeroed
-- structures.
--
-- How they meet. Request/Answer sends with ixp_fcall2msg of Wire/Message and ixp_sendmsg of
-- Transport; Request/Receive unpacks with ixp_msg2fcall. The tables of tags and fids are those of Map.
-- Directory packs entries with Wire/Convert and frees its list as FileIds does. Client/Files splits
-- paths with Tokens. The client's service is a step on a state of any type, which
-- stands for muxrpc; Rpc/Calls joins Rpc with Wire/Message and Transport.
--
-- Bounds and fuel. Machine integers keep their wrap-around, with `long` and `ulong` values as
-- numbers that do not wrap where the code does no arithmetic on them. The loops over a message run
-- over its counts, and those over a list over the list. ixp_nexttimer takes fuel, since a timer's
-- function may set timers: a round for each timer and one more is enough if the functions set none.
-- ixp_respond takes fuel for its calls of itself in a flush: one is enough for any other request. The
-- loops of _pread and _pwrite take fuel: a turn for each byte and one more is enough if the iounit is
-- not 0, and it and the count are below 2 ^ 31. The loop of muxrpc takes fuel, one for each message
-- received. The loops over a list of file ids take fuel for its length, ixp_srv_verifyfile for its
-- depth, and ixp_pending_write for the reads that wait. The loops over the connections take fuel for their list.
--
-- Not modelled. Locks: each operation of the map, the timers, a connection and a client is one step.
-- Allocation is taken to succeed, since emalloc ends the program otherwise. The service's functions,
-- the clock and the timers' functions are parameters. Of a connection the hook ixp_printfcall,
-- `freefid` and the texts that are freed are left out, and ixp_hangup is cleanupconn alone. Of
-- lib/libixp/rpc.c the sleep of a call while another one is the muxer is left out, and so are the
-- formatted ixp_pending_print of lib/libixp/srv_util.c and the loop ixp_serverloop; sockets, threads,
-- formatted errors and cmd/ixpc.c are bindings and input or output.
pub mod Prelude
pub mod Wire
pub mod Map
pub mod Timer
pub mod Request
pub mod Transport
pub mod Strlcat
pub mod Buffers
pub mod Client
pub mod Rpc
pub mod Ctl
pub mod FileIds
pub mod Pending
pub mod Directory
pub mod Server
pub mod Samples
pub mod Tokens
