-- ===== src/Lib.antt =====
-- Diamond Apparatus: a publish and subscribe message broker, its library for clients, and a
-- command line program. Clients publish topics, lists of strings and floats under a name, to a
-- server, which stores the latest value of each and sends it on to the subscribers. This
-- development is about all of these: the data, the messages, the transport, the server, the
-- client and the programs over it.
--
-- The parts. A topic is turned into a packet and back (data.h, data.cpp); a packet travels
-- behind its size over a socket, by basesend() on one side and TCPReceiver.update() on the other
-- (tcp.h); the server accepts clients, takes packets from their receivers, keeps topics and
-- subscriptions and sends notifications (tcp.h, server.cpp); the client library keeps the topics
-- that it has subscribed to up to date, and lets its user wait for them (client.cpp); C programs
-- use it through wrappers (clinkage.cpp), as do a second command line program (mainc.c) and
-- Python programs (python/diamondpython.c), and the command line program directly (main.cpp).
-- Packet types stand in messages.h, states and versions in diamondapparatus.h.
--
-- The files.
--   Base            numbers, tests, lists, integers, bytes, orders, and Result: a value, an exception
--                   with its message, or a memory access outside its object. htonl() and ntohl()
--                   work on the bytes of a word in network order; a pointer into a packet is the
--                   list of bytes from there on.
--   Map             std::map and std::set as lists in the order of their keys.
--   Topic           Datum and Topic of data.h: constructors, accessors, copies, age(), the CSV line.
--   Topic/Message   toMessage(), fromMessage(), getNameFromMsg() of data.cpp. toMessage() is the
--                   sequence of its stores into a block of any contents, each inside the block or a
--                   fault. Below it: Encode, the documented format as an independent description;
--                   Write, Fail, Read, WellFormed and Tags, the proofs.
--   Tcp/Socket      setsock().
--   Tcp/Send        basesend(), with a script of what the calls of write() return.
--   Tcp/Receive     TCPReceiver, with a list of events for what the calls of read() return: bytes in
--                   chunks, or a failure; at the end of the list the peer has closed. Below it: the
--                   proofs on reassembly and on the end of every call.
--   Messages        messages.h.
--   Server          MyServer: subscriptions, topics, publishing. Server/Process has the constructor,
--                   process() and shutdown(), Server/Loop TCPServer::update() and the loop of
--                   server(). Below them: the proofs on subscriptions, the history of a server,
--                   deliveries and the list of topics; Broker, what users are promised, with nothing
--                   of the representation, with Refinement and Traces, the proofs about it; Tagged
--                   and Throws, on the exceptions that it throws; Budget and Progress, on the
--                   histories in which it throws none; Streams, on what each descriptor has been
--                   sent. Server/Lifetime has the sockets, from the constructor of TCPServer to its
--                   destructor, server() around them and the handler of its signals; Kill below it, the end
--                   that a client asks for.
--   Client          MyClient: notifications and requests, with the topics as pointers into a heap.
--                   Client/Interface has the functions of the library, Client/Get get() as a state
--                   machine: it returns, or waits, and `wake` is what it does when the wait is over.
--                   Client/Thread is the loop of the client's thread over its receiver, Client/Races the
--                   threads of a program, interleaved, Client/Library the functions of the library
--                   as an interface and the client as an implementation of it.
--                   Client/Mutex has the mutex that they all run under, Client/Users the count of
--                   users. Below Mutex: Paths, every way to leave it, and Stuck; below Races:
--                   Safety, and Window, the race against the end of the client's thread.
--                   Below them: Owned and Reach, the pointers to topics; Waiting, what a waiting
--                   get() is given, and Wire, what the server makes of the client's packets.
--   Linkage         the C wrappers, over any implementation of the library. Below it: Errors, what
--                   they report, and Exchange, two programs over the client.
--   Program         what the command line programs of main.cpp and mainc.c share: their state and
--                   output, how they go on, and how arguments become items.
--   Command         main() of main.cpp, over any implementation of the library. Below it:
--                   Publishing, Endings and Listening, the proofs on its commands.
--   CommandC        main() of mainc.c, over the wrappers. Below it: Agreement, with main.cpp.
--   Clock           time.cpp, with the arithmetic of doubles as a parameter.
--   Exceptions      DiamondException of diamondapparatus.h, with its arrays of 256 bytes. Elsewhere an
--                   exception is a constructor of Base/Result, one for each text that is thrown.
--   Python          python/diamondpython.c, for Python 3, over the wrappers. Below it: Exchange, two
--                   programs, and Errors.
--   Journey         a publication on its way from one client through the server to another. Below
--                   it: Order, several of them, and Late, the subscription to a topic that is there.
--   */Tests         runs on concrete inputs.
-- A function has the name of the source's, in lower case with underscores; a method takes the
-- object and returns the new one. The server's static counters are fields of its record.
--
-- Parameters of the model: malloc() gives a block of the size asked for with any contents; the
-- conversions of int and size_t to float, the printing of a number, and atof() are functions;
-- write(), read(), select(), accept(), the calls behind init(), and daemon() answer as arguments
-- say, in any way; strerror() is a function, and so are the interpreter's conversions of strings
-- in Python, where numbers, and what its functions make of arguments and items, are data. A
-- float is its bit pattern, as the arithmetic of doubles in time.cpp is on bit patterns; the time
-- of a topic is a whole number of nanoseconds, in place of a double of seconds.
--
-- Bounds and fuel. update() runs on one more round than there are bytes to be read, which is
-- enough, since each round that goes on has read a byte. The ten tries of basesend() are the
-- source's. Sizes and lengths that the source keeps in an int are checked where they pass 2^31.
-- The counters of messages are not bounded: they are ints that only feed the stats topic.
--
-- The client's methods run under one mutex, so each is one step. Client/Mutex has the mutex, with
-- each lock() and unlock(), and what an exception that leaves it held does to the others; that
-- destroy() may have destroyed it is a field of the client, which only Client/Users and
-- Client/Races look at. The client's thread runs on one more round than there are bytes to be
-- read. In Client/Races the thread and the user's threads take steps in any order: a function's
-- test of running is a step of its own, before the one behind its lock(), and the client's
-- thread deletes the object in one step and clears running in the next; a use of an object that
-- has been deleted, or of a mutex that has been destroyed, is a fault. A call that throws is no
-- step there, nor is a second init(). In Client/Library what a call leaves that throws midway, and
-- what other threads do during a wait, are functions of any kind. The signal that ends the
-- command listen comes after a number of rounds, which is an argument.
--
-- Not modelled: the environment that init() and server() read, the usage text and the messages
-- on the error output (main.cpp, mainc.c), the example program (test.cpp), the creation of the
-- Python module and its counts of references; the bound FD_SETSIZE, the wait for the clients'
-- end in shutdown(), a signal in the middle of a step, and the release of memory, but for that
-- of the client's object. A read that would block is a read that returns later.
pub mod Base
pub mod Map
pub mod Topic
pub mod Tcp
pub mod Messages
pub mod Server
pub mod Client
pub mod Clock
pub mod Linkage
pub mod Program
pub mod Command
pub mod CommandC
pub mod Exceptions
pub mod Python
pub mod Journey
