-- ===== src/Lib.antt =====
-- A course project on a network layer of its own, MIP, over raw Ethernet frames. Paths are from the
-- repository's root; the code modelled is that of delivery/IN4230-HE2 (check/delivery is the same code,
-- and IN4230_HE/MIP an older state of it).
--
-- The parts and how they interact. A host runs the MIP daemon (mipd). It exchanges frames with its
-- neighbours over raw sockets, finds them by MIP ARP, and gives the payload of packages for the host
-- to one connected application. The routing daemon (routerd) keeps the distance-vector route table of
-- the host; over two sockets it asks the MIP daemon to broadcast that table, receives the tables of
-- the neighbours, and answers for a destination with the next hop. commons holds the messages on those
-- sockets. The transport daemon (miptpd) is a client of the MIP daemon: it cuts the data of its
-- applications into packages and sends a window of them at a time.
--
-- The files:
--   Prelude           tests, lists and return codes over native numbers; words and bytes of memory,
--                     with `copy_in` and `copy_out` for `memcpy` into and out of objects of known size
--   Routerd           routerd/src/lib
--     MipRouteTable     mip_route_table.c: routes, relaxation (MIPRouteTable_update_routing), ageing
--                       (remove_old_entries) and the package of 64 slots
--     CommandLine       cli.c: the arguments of the daemon
--     Convergence       the tables of several daemons that take in each other's tables
--     Handlers          routing_handler.c and forwarding_handler.c
--     RouterServer      router_server.c: the event loop of RouterServer_run, and the sockets of the daemon
--   Mipd              mipd/src/lib
--     Packaging         packaging/: Ethernet frames, MIP headers, packages and their payloads
--     InterfaceTable    interface.c: the interfaces and the lookups in them
--     MipArp            mip_arp.c: the ARP cache, its ageing, requests and responses
--     Link              link.c: packages as the bytes of frames
--     Routing           router/routing.c: poisoned reverse and the broadcast of route tables
--     Routing/Exchange  the way of a table from the routing daemon of a host to its neighbours
--     Routing/Poisoned  the tables of several hosts, whose MIP daemons poison the routes back
--     Server            server.{h,c}: the state of the daemon; below it Forwarding (router/forwarding.c),
--                       Applications (app_connection.c and the requests of server.c), Frames
--                       (handle_raw_socket_frame), Sockets (LocalSocket_create) and Loop (MIPDServer_run)
--     CommandLine       mipd/src/main/cli.c: the arguments of the daemon
--   Ping              ping-client/src/ping_client.c and ping-server/src/ping_server.c
--     Answer            the way of a ping from the client over two MIP daemons to the server and back
--   Commons           commons/src
--     MipdMessage       mipd_message.c; ClientPackage is client_package.c
--     LinkedList        list.c: doubly linked lists on a heap of nodes; below it the queue of queue.h
--     DomainSocket      domain_socket.c: the names of sockets, and the connection to one
--     BoundSocket       bound_socket.c: the socket that the transport daemon listens on
--     DArray            darray.c: arrays of pointers that grow
--     Hashmap           hashmap.c: hash maps of 100 buckets; below it Refinement, against a function
--     Queue             that queue as the sequence of its values, which is what the other models use
--   Miptpd            miptpd/src/lib
--     SlidingWindow     sliding_window.c; MiptpPackage is miptp_package.c, SendJob miptp_send_job.c,
--                       ReceiveJob miptp_receive_job.c, AppConnection app_connection.c
--     AppController     miptp_app_controller.c: the connections, their sockets, what they send, and their end
--     MiptpServer       miptp_server.c: the event loop of MIPTPServer_run
--     MiptpConfig       miptp_config.c: the arguments of the daemon
-- The children of a module hold what is proved of it, and the modules named Tests the runs on concrete
-- inputs.
--
-- Conventions. State is passed explicitly: an operation takes the record of its struct and returns the
-- new one. A return code is an `int` (ℤ), a null pointer or a failed check is none. An access to an
-- object that is not there, or behind the end of one, has no defined behaviour in C; where the code can
-- come to one, it is an outermost none. A read of the clock, the success of `sendto`, `write` or
-- `accept`, and what a read yields are arguments. Functions of the source named Type_operation are
-- `operation` in the module of the type. Allocation is taken to succeed, and the pointers that
-- AppConnection_create returns as an `int` to be kept by that conversion.
--
-- Bounds and fuel. Words keep their wrap-around (`% 2 ^ w`). The route table has 255 destinations at
-- most and its package 64 slots; the ARP cache has 64 slots and the interface table 32; a payload has
-- 1496 bytes at most and the receive buffer of a frame 188. The loop of `update_arp_cache` changes the
-- size that it runs to, so it is on fuel, one more than the size, which is shown to be enough; every
-- other loop is structural, but for those over the nodes of a list, whose fuel is any number above the
-- length of the list. The event loops run over a list of rounds, each with its events.
--
-- Not modelled: epoll, raw sockets and printing (I/O); commons/src/bstrlib.c (a library of
-- others, whose comparison of strings is an argument of the hash map); the test programs, and the
-- clients of the transport daemon. The heap of nodes is given for list.c alone: elsewhere a list is the sequence of its values.
pub mod Commons
pub mod Mipd
pub mod Miptpd
pub mod Ping
pub mod Prelude
pub mod Routerd
