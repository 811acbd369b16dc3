-- ===== src/Lib.antt =====
-- cache-server: a GETFILE proxy that serves files from a cache process over shared memory.
--
-- The parts of the program and how they interact. A client (gflib/gfclient.c) sends a GETFILE request
-- to a server (gflib/gfserver.c), whose workers call a handler: `handler_get` (gflib/handler.c) for
-- local files, `handle_with_curl` (curl/handle_with_curl.c) for files of an HTTP server, and
-- `handle_with_cache` (cache/handle_with_cache.c) for files of the cache process. The last hands a shared memory segment to the cache process (cache/simplecached.c), which writes
-- the file into it piece by piece; the two sides take turns by a mutex and two condition
-- variables in the segment (cache/shm_channel.c). Both processes find files in a sorted table
-- (cache/simplecache.c, gflib/content.c). All queues are steques (gflib/steque.c). A download client
-- (gflib/gfclient_download.c) requests the paths of a workload file (gflib/workload.c) in several threads.
--
-- The modules.
--   Base     tests on numbers, lists measured by native numbers, signed numbers.
--   Steque   gflib/steque.c: `malloc` cells in a heap, the operations as commands on heap and struct;
--            `Steque.Chain.IsSteque` says that a struct represents a list, and `Steque.Trace` runs
--            sequences of calls beside those on a list.
--   Channel  cache/shm_channel.c with `serve_cache` of cache/simplecached.c and `handle_with_cache`
--            of cache/handle_with_cache.c, for one request: each thread is a function of its position,
--            one step for each lock, critical section or signal. `Channel.Contract` has the runs:
--            steps of either thread in any order, and wake-ups with no signal, which
--            `Channel.Termination` counts apart.
--   Text     C strings as lists of bytes, and the functions of the C library on them.
--   Table    cache/simplecache.c and gflib/content.c: loading the list file, search by bisection.
--   Rio      gflib/gf-student.h: `rio_writen`, `rio_readn`, `readheader`, on the answers that the
--            operating system gives to each call.
--   Getfile  the request and response headers: `parse_head`, `gfs_sendheader` (gflib/gfserver.c),
--            the header part of `gfc_perform`, `getstatus` (gflib/gfclient.c).
--   Client   gflib/gfclient.c: `recvfile` and `gfc_perform`; `Client.Calls` has the request and its
--            other calls.
--   Handler  gflib/handler.c: `handler_get`.
--   Server   gflib/gfserver.c: the accept loop, the task queue and the workers; `Server.Concrete` has
--            the queue as the steque that the code keeps.
--   Download gflib/gfclient_download.c: `Download.Requests` has `main`, `Download` the queue of downloads,
--            the workers and `gfclient_join`, `Download.Worker` what a worker does with a file.
--   Pool     cache/handle_with_cache.c: the queue of free shared memory segments; `Pool.Sharing` has
--            several handlers and cache workers with the message queue between them.
--   Options  the `main` functions of cache/webproxy.c, curl/webproxy.c, gflib/gfserver_main.c,
--            cache/simplecached.c, and the options of gflib/gfclient_download.c; `Options.Settings`
--            has `gfserver_setopt` of gflib/gfserver.c, `Options.Listen` the set-up
--            of `gfserver_serve`, and `Options.Signals` the signal handlers.
--   Workload gflib/workload.c: the list of paths that the download client asks for.
--   Curl     curl/handle_with_curl.c: the handler that fetches a file by libcurl.
--
-- Conventions. Numbers are natural numbers; a `ssize_t` is a signed number, a conversion to `size_t`
-- is written out. The count of a steque wraps at 2^32. A call that reads or writes outside its objects
-- ends in a fault, `exit` ends the run with its code. Calls of the operating system are parameters:
-- the answers of open(2), pread(2), read(2) and write(2) are arguments, and `qsort` is one. `malloc`
-- is taken to succeed. Files do not change while they are sent; the send of a header may fail part of
-- the way. What a local file has after `fclose`, and whether `unlink` works, are parameters. For a
-- request over the channel the sizes fit if the segment's data area has the size that
-- `init_cache_block` computes and the file has less than 2^63 bytes.
--
-- Fuel. The table's loops take one round for each line and one for each halving, so the bytes of the
-- file and the items of the table, with one more, are enough; `recvfile` receives a byte in each round;
-- `steque_destroy` frees a node in each round; `workload_init` takes a byte of its file in each round.
-- These bounds are proved, not assumed.
--
-- Options. `getopt_long` is the list of its answers, and `atoi` is `(int)strtol`; conversions to shorter and
-- to unsigned types are written out. A `main` ends with an exit code, with a fault, or with what it
-- starts. `__LINE__` is the number of its line.
--
-- Not modelled: the socket calls of the client beyond their success or failure, `spawn` of
-- cache/simplecached.c, a limit of the message queue, libcurl itself, `gfc_cleanup`, and the removal of
-- the files `.shm-file-*`. Printing to the terminal is left out everywhere.
pub mod Base
pub mod Steque
pub mod Channel
pub mod Text
pub mod Table
pub mod Rio
pub mod Getfile
pub mod Client
pub mod Handler
pub mod Server
pub mod Pool
pub mod Download
pub mod Options
pub mod Workload
pub mod Curl
