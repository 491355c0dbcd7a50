-- ===== src/Lib.antt =====
-- moc: a server for modules (plugins) behind one TCP port, and the client library that talks to it.
--
-- A client lays out a request for a module (client/moc.c), with a data set as its payload
-- (client/packet.c), and sends it over a connection. The server (server/) puts the messages of each
-- connection together from what the kernel delivers (tcp.c), decodes them and finds their module
-- (parse.c, mocd.c), and appends an entry to the queue of the module (queue.c), from which a thread of
-- the module serves it. A module may keep values in a cache (cache.c). A module (plugin/) keeps the
-- users that have joined, with their connections, and pushes messages to them, which the event loop of
-- the client (client/eloop.c) puts together (client/mscli.c) and queues for the callback of their
-- command (client/mcbk.c). The files:
--
--   Client/Packet        client/packet.c: pack_data_str, pack_hdf, unpack_data_str, unpack_hdf. Write
--                        says what is written, Trip that it is read back.
--   Client/Answer        client/tcp.c (recv_msg, tcp_get_rep) and client/internal.c (srecv): the wait for a
--                        reply; Reads puts its parts together, Whole says that it is read whole.
--   Client/Loop          client/eloop.c (the reads of el_routine) and client/mscli.c (msparse_buf,
--                        mssrv_close). Same compares msparse_buf with the server's process_buf, Room
--                        says which reads fit, Reads is about runs of reads.
--   Client/Push          client/mscli.c (msparse_msg) and client/mcbk.c: what becomes of a message, the
--                        events and their callbacks. Message has the bytes of a message, Callbacks the
--                        rounds of the callback thread.
--   Client/Trigger       client/moc.c (_mevt_trigger) and client/tcp.c (tcp_srv_send): a call. Call is about
--                        one that reads its reply, Wait about one that waits for the event loop.
--   Client/Servers       client/internal.c: compare_servers (Order) and select_srv (Choice).
--   Client/Request       client/moc.c (_mevt_trigger) and client/tcp.c (tcp_srv_send): the bytes of a
--                        request. Layout says what they are.
--   Server/Tcp           server/tcp.c: a connection. Decode is the meaning of a stream of bytes, Unwrap
--                        the correctness of process_buf, Read and Stream that of tcp_recv and of runs
--                        of read events, Frames that for whole messages, Close the reference count.
--   Server/Reply         server/tcp.c: the replies (tcp_reply_mini, tcp_reply_long, rep_send_error) and
--                        rep_send, whose loop Sends is about.
--   Server/Parse         server/parse.c and server/syscmd.c: reply_trigger and the server's own events;
--                        Message has the path from parse_message to the queue. Accept is about the
--                        requests of the client, Effect and Whole about all messages, Refuse about
--                        those that are refused, Bound about the length of the queues.
--   Server/Mocd          server/mocd.c: the table of modules; Finds is about its lookups.
--   Server/Hash          server/mocd.c and server/cache.c: the hash function and the test on keys.
--   Server/Queue         server/queue.c: the queue on a heap, where Shape says when it stands for a
--                        list. Laws has the operations, Fifo runs of them; Order is the list.
--   Server/Cache         server/cache.c: the chains of the cache; Chain and Keeps are about one chain,
--                        Lookup and Uses about the whole cache, Incr about cache_incr.
--   Server/Decimal       the library calls by which cache_incr reads and writes a number; Trip says that
--                        what is written is read back.
--   Server/Commands      server/syscmd.c: the commands on a cache; Roundtrip is about set and get.
--   Server/Timers        server/net.c (time_up) and server/mocd.c (moc_add_timer); Walk is about the
--                        loop over the timers, Once about one timer among others.
--   Plugin/Message       plugin/private/base_internal.c (base_msg_new, base_msg_send); Sends is about the
--                        loop of sends.
--   Plugin/Base          plugin/private/base_internal.c: users, joining, quitting, and the end of a
--                        connection. Users says when users and connections fit together, Joins that it
--                        stays so, Twice what two names over one connection do.
--   Plugin/Chat          plugin/moc_chat.c: the commands; Told says who is told what. Serve has the
--                        dispatch (chat_process_driver), Counters its statistics, Counts what a
--                        request does to them, and its reply.
--   Plugin/Bang          plugin/private/bang_internal.c: users, tables, and the request to battle. Tables
--                        is about the choice of a table, Bounds and Battle about the seats, Ends about
--                        the accesses to users and tables that are not there.
--   Delivery             a request, in a row: from the client's data set to the queue of the module.
--   Pushes               a message the other way: from the module's data set to the client's callbacks.
--   Shared               tests and lists on native numbers, and the byte order of the protocol; Tables
--                        is the interface of a hash table.
--   Tests                data for runs of the parts, and each result applied at such data.
--
-- How the code is read. A read or write outside the memory that the code owns, a use of a freed or
-- uninitialised structure, and a division by zero are `none`. Numbers of 32 bits keep their wrap
-- where the code computes with sizes from the wire. The data sets of ClearSilver (HdfOps, DataOps),
-- the handler that a connection calls (Calls) and a plugin's close handler are interfaces: the
-- theorems hold for any, and Delivery fills Calls with the handler of Server/Parse (server_calls).
-- So are ClearSilver's hash tables (HashOps, by what their lookups return; Tests/Tables fills it)
-- and what the modules use of data sets besides (PushOps, ChatOps, ServeOps). Users and connections
-- stand at addresses, which calloc gives; an address that is given is one not in use. The counts of
-- the tables are of 32 bits. What the environment does is in arguments: the sizes of the reads and
-- the results of send, whether an allocation succeeds, and the addresses that malloc gives.
--
-- Bounds and fuel. process_buf, and msparse_buf likewise, calls itself once for each message in its
-- buffer; one round more than there are bytes is given, and shown to be enough. queue_free is given
-- one round more than there are entries. rep_send recurs on the results of send, and needs as many
-- that take a byte as there are bytes; the client's reads recur on those of recv. tcp_get_rep is
-- given one round for each reply that it reads.
--
-- Chains of the module table and of the cache are lists in the order of their links; the links
-- themselves are not modelled there. The statistics do not wrap at 2 ^ 64. A server has one request
-- structure for each connection; the model has that of the connection in question.
--
-- Not modelled: what only calls the system (tcp_init, net_go, main, the pthread calls), the threads
-- of the modules (moc_start_base_entry) beyond the queue that they take from, the
-- logging, the registration of error texts, the dispatch of commands in the modules base and bang,
-- cmd_accept_battle and cmd_turn of the module bang (which use memory that is not set), and the
-- skeleton module, a template. The callbacks of timers are taken to leave the list of timers alone,
-- as no module calls moc_add_timer.
pub mod Shared
pub mod Client
pub mod Server
pub mod Plugin
pub mod Delivery
pub mod Pushes
pub mod Tests
