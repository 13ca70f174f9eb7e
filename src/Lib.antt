-- ===== src/Lib.antt =====
-- rndz is a rendezvous service: two peers behind NATs or firewalls find each other through a server
-- that both can reach. A peer registers under a name by pinging the server; another asks for it by
-- an Isync; the server tells the first one where the other comes from (Fsync), and the first one
-- answers by an Rsync, which the server turns into a Redirect for the other. The server exists over
-- UDP and over TCP; the clients open the path between the peers with packets of their own.
--
-- The files:
-- Base: the libraries' names and the Boolean tests, list functions and lemmas that all files share.
-- Map: std's HashMap as the function that its `get` computes, with insert, remove and retain.
-- Net: std's SocketAddr. The text form of an address is the standard library's; the record AddrText
-- is its interface, whose laws are that parsing reads back what is printed (but for the flow
-- information of IPv6) and that the empty text is no address.
-- Opening: the calls of the operating system by which Server::new of src/udp/server.rs and of
-- src/tcp/server.rs open their sockets.
-- Cli: run_server of src/main.rs.
-- Proto: the messages of proto/rndz.proto as src/proto/rndz.rs declares them. Proto.Parser is their
-- merge_from, Proto.Printer their compute_size and write_to_with_cached_sizes. The protobuf crate is
-- the record Proto.Wire.Wire, whose laws say that a field is read back as it was written and has the
-- size that the crate computes. A parser runs on fuel, one more than it has bytes, which is enough.
-- Unknown fields are read and forgotten, and never written. Proto.Accessors: the accessors of the
-- oneof fields, as functions of the field cmd.
-- Udp.Server: src/udp/server.rs. The state is the table of clients, the time of the next collection
-- and the datagrams sent; handle_ping, handle_isync, handle_rsync, handle_bye, gc and run have their
-- names. Every clock reading is an argument, in milliseconds; run is a finite number of the turns of
-- the endless loop.
-- Udp.Client: Connector::connect and poll_sockets of src/udp/client.rs, with the results of polls, of
-- reads and of the opening of the socket for the peer as arguments; each of its rounds sees the polls
-- that its five seconds take.
-- Udp.Datagrams: a printed message in a datagram is parsed back.
-- Udp.Sockets: connect_multiple_servers and connect_server of src/udp/client.rs, with the answers of
-- to_socket_addrs and of the operating system as arguments, and Listener::new, listen and Drop.
-- Udp.Connector: Connector::new, and connect as the composition of Udp.Sockets and Udp.Client.
-- Udp.Listener: the thread that Listener::listen starts. Its clock readings, its random variations and
-- what the sockets give are one argument for each turn of its loop; a list of turns is a run of it.
-- Udp.Registration: a listener and the server together, with a bound on how long its datagrams are on
-- their way.
-- Tcp.Frame: the frames of read_req, read_reqs and send_response in src/tcp/server.rs, and of
-- write_req and read_resp in src/tcp/client.rs and src/tcp/client_async.rs, on lists of bytes.
-- read_reqs runs on fuel; more fuel than the stream has bytes is enough. What each of its turns meets,
-- a read in time, a time-out or a closed channel, is an argument.
-- Tcp.Client: connect, write_loop and read_loop of src/tcp/client.rs, and handle_resp and read_loop of
-- src/tcp/client_async.rs. A read loop runs on fuel; more fuel than the stream has bytes is enough.
-- Tcp.Signal: the threads of listen and start_background in src/tcp/client.rs, which share `signal`. A
-- step is what a thread does while it holds the mutex. Any wait may end for no reason, as
-- the documentation of Condvar says.
-- Tcp.Link: the write loop, the read loop and the channel of one connection, of src/tcp/client.rs or of
-- src/tcp/client_async.rs. A step is what a loop does from one wait to the next.
-- Tcp.Session: a client of src/tcp/client.rs after listen: the thread of listen, and for each connection
-- its loops (Tcp.Link), the thread that joins them and the one that shuts the connection down. What the
-- threads that share `signal` see of it is a state of Tcp.Signal.
-- Tcp.Tasks: the tasks of listen and start_background in src/tcp/client_async.rs, which wait for `exit`
-- and `broken`. notify_waiters reaches the waits that have begun, and a select! with two ready
-- branches takes any of them, as the documentation of tokio says.
-- Tcp.Calls: new, listen, accept, shutdown and Drop of the Client of src/tcp/client.rs, with the threads
-- of Tcp.Session. A client has one thread of listen at most.
-- Tcp.Handler: the methods of PeerHandler in src/tcp/server.rs, each a program of atomic actions.
-- Tcp.Server: the shared table, the counter, the tasks with their channels, and the step of each
-- event; an interleaving of tasks is a list of events, over which `run` folds.
-- Tcp.Handshake: the TCP server, the frames, the codec and the two sides of the client together.
-- Tests: the theorems at concrete inputs.
--
-- The UDP server and the frames take the parser of messages as an argument; Tcp.Frame.Messages puts
-- that of Proto in. Addresses of the UDP and TCP peers are those that the operating system reports; it
-- reports no flow information, which the theorems that parse an address ask for.
--
-- Not modelled: logging, the parsing of the command line, and run_client of src/main.rs. The hook
-- that configures a socket, and the options of a socket, succeed or fail. The loops of a
-- connection stand in Tcp.Tasks by the events of their end. That bind panics when no socket can be
-- made is in Tcp.Client and Udp.Sockets, but not in the threads. The TCP server takes peer_addr to
-- succeed: that its unwrap would panic, with the lock of the table held, is not followed.
pub mod Base
pub mod Cli
pub mod Map
pub mod Net
pub mod Opening
pub mod Proto
pub mod Tcp
pub mod Tests
pub mod Udp
