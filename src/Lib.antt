-- ===== src/Lib.antt =====
-- A model of libms, a caching proxy server for media files, and proofs about it.
--
-- The program downloads a remote file piece by piece and serves it to local players while the
-- download runs. A player's request becomes a session, which is a reader of the task of that
-- url. A task keeps one storage, its readers and its pipes: a pipe is one HTTP request for a
-- range of the file. A reader that joins, reads or loses a pipe makes the task look for the
-- first byte that is not cached behind it and open a pipe there; a pipe that delivers bytes
-- makes the task evict what is not needed, store the bytes, tell the readers, and ask whether
-- the pipe is still needed. The storage counts pieces of 16 KiB in blocks of 128.
--
-- Files, and the code they are about:
--   Base: names shared by all, Boolean tests, lists, and Outcome, the result of a C call (a
--     value or the fault that ends the program).
--   Storage: struct ms_istorage of src/ms_server.h, the interface between a task and its
--     storage. IsStorage has what the task relies on.
--   MemStorage: src/ms_mem_storage.c with the sizes of ms_mem_storage.h and ms_memory_pool.h.
--     The array of blocks is a function from indices with the number of allocated entries;
--     storage_write, storage_read, cached_from, clear_buffer_for, get_bitmap and storage_close
--     are modelled loop by loop in MemStorage/Write, Read, CachedFrom, Clear, GetBitmap and
--     Close, each with what it proves in its children. MemStorage/View has the abstract view,
--     the cached byte at each position. MemStorage/Interface makes it a Storage.
--   Task: src/ms_task.c. Task/Dispatch has create_pipe_for, dispatch_reader and dispatch_pipe,
--     Task/Ops the operations of struct ms_itask, Task/Events the callbacks of a pipe. The two
--     queues are lists in their order, their members with addresses, where `fresh`, the next
--     one, stands for what malloc gives; pipes are what ms_http_pipe_create of
--     src/ms_http_pipe.c returns.
--   HttpPipe: src/ms_http_pipe.c. recv_body is the part of pipe_handler that takes the body of a
--     chunk; HttpPipe/Handler has the rest of it, an event at a time. The calls that a pipe
--     makes, of its owner and for a connection, are kept in the state in their order. The
--     library's buffers are a parameter, with what is documented of them in IsMbuf
--     (HttpPipe/Chunks); whether the owner closes the pipe in a callback is a parameter too.
--   TaskOps: struct ms_itask of src/ms_server.h, the interface between a session and its task.
--     IsTask has what the session relies on.
--   Session: src/ms_session.c. What a session hands to its connection is kept in the state in
--     its order; Session/Opening has ms_session_open. The socket, which takes bytes of the
--     connection's buffer, is `drained` of Session/Counted; Session/Liveness has the rounds
--     until a session is freed, one for each byte at most. The capacity of the buffer and the
--     lengths of heads are parameters.
--   Queue: the searches with QUEUE_FOREACH of include/queue.h, which Server and TaskManager
--     share.
--   Server: the resources of src/ms_server.c. What "%d" prints and the path of a url are
--     parameters; IsDecimal (Server/Urls) has what is relied on. Urls are numbers, the same ones
--     for texts that mg_strcmp finds equal.
--   TaskManager: src/ms_task_manager.c.
--   Methods: the table of request methods of src/ms_server.h with its two functions of
--     src/ms_common.c.
--   FileStorage: src/ms_file_storage.c on a file that is a parameter; IsFile has what is
--     documented of pwrite.
--   Server/Start: how the server of src/ms_server.c looks for a port, starts and stops. Whether
--     a port can be had is a parameter; the steps are those of a server that is started by
--     ms_asnyc_start, taken by any of its threads, which the model lists beside the status.
--   Preloader: src/ms_preloader.c.
--   Handlers: src/ms_server_handler.c. A pointer to a task is its url; a pointer to a resource
--     is followed by `deref`. Handlers/Json has the text of the list of tasks; texts are lists
--     of bytes without 0, so that strlen is the length, and what the formats of numbers and
--     addresses print is in the parameter `texts`.
--   Streams: src/ms_stream_handler.c, src/ms_session_manager.c and server_handler of
--     src/ms_server.c. World has the server's lists, its sessions and the connections, in place
--     of the pointers between them: `load` follows the pointers of a session, `save` writes its
--     objects back, and a url without a task is a pointer to a freed one. Streams/Requests has
--     the events of a connection, Streams/Pipes the callbacks of src/ms_task.c with the sessions
--     as the readers; Streams/Linked has the invariant on the pointers, and Streams/Reached the
--     steps of the server. Streams/Backed and Streams/Stored put the session's interface on the
--     task and the task on the memory storage; Streams/Served has a session on both.
--
-- How the code is read: positions and lengths are natural numbers, and the int64_t and size_t
-- subtractions that may wrap are written modulo 2 ^ 64. Products that the code computes in int
-- are checked: from 2 ^ 31 on they are the fault int_overflow, so the searches are proved for
-- files of at most 2 GiB. MS_ASSERT is assert. Allocation succeeds, and what a new buffer holds
-- is a parameter. A loop over pieces gets one round more than the bytes it may copy, or the
-- number of blocks or pieces it may visit; the theorems say that the result is ok, so the rounds
-- are enough.
--
-- Not modelled: the network (mongoose), whose events are arguments here; time, which is an
-- argument; printing. What readers do in their callbacks is a parameter of Task/Events;
-- Streams/Pipes has the sessions in its place.
pub mod Base
pub mod Storage
pub mod MemStorage
pub mod Task
pub mod HttpPipe
pub mod TaskOps
pub mod Session
pub mod Queue
pub mod Server
pub mod TaskManager
pub mod Methods
pub mod FileStorage
pub mod Preloader
pub mod Handlers
pub mod Streams
