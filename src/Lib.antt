-- ===== src/Lib.antt =====
-- Verification of the client shared library: a library that keeps TCP connections to several peers,
-- spreads transactions over them, and brings the responses back to the callbacks of its client.
--
-- A client calls sl_send_buf, which queues a message for a peer. The connection is that of the
-- transaction with the message's id, or the next live one in turn for a new transaction. For each
-- peer a sender takes that peer's messages off the queue and writes them, with their length in
-- front, and a receiver reads messages, takes them apart by their tags and calls the client back.
--
-- Which file is about which part, below mod_tcpclient unless stub is named:
--   Types       the structures of include/module.h and include/task.h, and the global variables
--   Mem         memory for the linked lists: nodes at addresses, commands that read and write them
--   IdQueue     src/task.c: the queue of transactions, is_ID_present_idq, lookup_ID_idq,
--               update_entry_idq, add_entry_idq, list_expired_idq, rem_id
--   Peers       src/task.c: the choice of a connection in add_entry_idq; get_peers of src/module.c
--   MsgQueue    src/task.c: push_to_msgq, pop_from_msgq
--   Xml         src/task.c: parse_xml_attribute
--   Connect     src/task.c: create_peers, recreate_conn, monitor_sock_conn
--   Wire        src/work.c: send_to_fd, receive_from_fd, and the length in front of a message
--   Dispatch    src/work.c: recv_worker_thread, for what one call of receive_from_fd brings
--   Receiver    src/work.c: the rounds of recv_worker_thread, from the stream to the callback
--   Sender      src/work.c: ready_to_send, a round of send_worker_thread, and its loop
--   Api         src/module.c: register_req_cb, sl_send_buf; src/work.c: the functions that they call,
--               build_fd_sets, and the rounds of qmanager_thread and monitor_thread
--   Wakeup      src/work.c: the wait of send_worker_thread for messages, and the push and the look of
--               ready_to_send
--   System      the operations above together, as the threads perform them one after another; the
--               service that they implement; a transaction from its message to its answer
--   Pipe        src/work.c: a round of rcv_pipe_thread, and generic_receive_from_fd
--   WorkQueue   withlibev/src/workev.c: the queue of jobs, its workers, workqueue_init and shutdown
--   Client      withlibev/src/module.c: closeClient, closeAndFreeClient, job_function,
--               buffered_on_read, buffered_on_error, onConect
--   TsQueue     include/safeqtempl.h: the queue of tasks of a worker
--   ThreadPool  include/tpool.h: the workers, and start, push and end of the pool
--   Startup     src/module.c: mod_init; src/work.c: manage, which creates the threads
--   Config      stub/src/utils.c: the checks of a configuration; validateIpPort of
--               stub/src/stub.c
--   Reader      stub/src/stub.c: the lines of the configuration file; chkSubStr of stub/src/utils.c
--   EchoServer  src/server.c: the test server
--   Fifo        stub/src/cf.c and stub/src/fifo.c: the two ends of a FIFO
--   Tokens      stub/src/test.cpp: the parts of a line of gateways
--   Base        numbers, lists, Boolean tests and names of the libraries
--   Tests       the theorems at concrete inputs
--
-- A queue is a heap of nodes and a head pointer. An operation is a command: a function from the
-- state to a run, which has returned a value and a new state, has met undefined behaviour (fault),
-- or has used up its fuel. A theorem relates it to the list of the queue's addresses and items. The
-- message queue is doubly linked (Exact); of the transaction queue only the next pointers are used,
-- and nothing is said of prev (Loose), which rem_id does not keep.
--
-- The loops over a queue run on fuel, and more than the length of the queue is enough. The search
-- for a connection runs on fuel as well: as many rounds as there are peers are enough if one is up.
-- The scan of parse_xml_attribute has as many rounds as the message has bytes. The loops that wait
-- for the kernel go along the list of the kernel's answers.
--
-- What the kernel answers to send, recv, socket, connect and getsockopt, what the clock shows, and
-- the addresses that calloc returns are arguments. The client's callbacks are a parameter of
-- Dispatch. A C string is its bytes before the NUL; the ids are values, and the copies that the code
-- makes and frees of them are not followed. Logging is left out. Every operation on the queues holds
-- the lock qtex and is one step; where a function gives the lock back and goes on, what the other
-- threads do in between is an argument. The states of the connections are not under that lock: a
-- change of them by another thread in the middle of an operation is left out.
--
-- Threads that move independently are steps: of all senders and clients in Wakeup, where a wait
-- may end without a signal, and of a worker of the pool in ThreadPool.Life. A worker of
-- WorkQueue that is told to end may free itself at once or later, which is an argument of
-- workqueue_shutdown. In System a sequence of operations stands for an interleaving of the
-- threads, and a message that is taken is given back in the same step. To join a worker is a
-- loop on fuel, for which twice the length of its queue and a few more is enough. libevent's
-- buffers are a parameter of Client, with what libevent documents of them. The bytes of the
-- configuration file, and what malloc leaves in a table, are arguments of Reader; its loop has
-- as many rounds as the file has bytes and one more, and each uses up at least a byte. The C
-- library's atoi is that of a platform with a long of 64 bits and an int of 32: the number as a
-- long, which stops at its bounds, cut to an int.
--
-- Not modelled: the sleeps, the socket options, which are calls of the system, and sighandler of
-- src/work.c, which ends the program; the copies of mod_init and setnonblock in
-- withlibev/src/module.c; the futures of the thread pool and the pin to a cpu.
pub mod Base
pub mod Mem
pub mod Types
pub mod Peers
pub mod IdQueue
pub mod MsgQueue
pub mod Xml
pub mod Wire
pub mod Client
pub mod Connect
pub mod Dispatch
pub mod Pipe
pub mod Reader
pub mod EchoServer
pub mod Fifo
pub mod Tokens
pub mod Sender
pub mod Receiver
pub mod Api
pub mod Startup
pub mod System
pub mod WorkQueue
pub mod Config
pub mod TsQueue
pub mod ThreadPool
pub mod Wakeup
pub mod Tests
