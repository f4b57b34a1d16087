-- ===== src/Lib.antt =====
-- The HTTP file server: the request parser (src/http.c), the path and file functions
-- (src/files.c), the bounded connection queue with its workers (src/thread_pool.c), the handling
-- of clients and the life of the server (src/server.c), the access log (src/log.c) and the command
-- line (src/main.c), with the types of include/.
--
-- How the parts interact. `main` reads the options into a configuration, `server_init` makes the
-- queue, the log and the listening socket, and `server_run` starts the workers. Its accept loop puts
-- accepted sockets into the queue; workers take them out and serve them: the request is parsed,
-- its path is resolved below the document root, the file or listing is sent, in part if a range was
-- asked for, and a line is logged. A signal calls `server_stop`, which shuts the queue down; the
-- workers then take what is left and end, and `server_destroy` gives everything back.
--
-- Which module models which part.
--   Common      shared names: Boolean tests, lists and arrays on native numbers, C strings and the
--               functions of <string.h> and <ctype.h> that the sources call, decimal text.
--   Queue       src/thread_pool.c. `SocketQueue` is `struct socket_queue`; `enqueue_locked`,
--               `dequeue_attempt` and `shutdown_locked` are what runs under the mutex of
--               `socket_queue_enqueue`, `socket_queue_dequeue` and `socket_queue_shutdown`, with the
--               condition variables as the signals that a call sends. `Fifo` is the promise to the
--               callers. `Monitor` puts the calls of any number of threads into any order, with
--               sleeping and woken workers and spurious wakeups. `Worker` is `worker_main`,
--               `Pool` `thread_pool_start` and `thread_pool_stop`,
--               `Resources` is `socket_queue_init` and `socket_queue_destroy`.
--   Http        src/http.c and include/http.h, function by function: `Scan` the scanning helpers,
--               `RangeHeader` `parse_range_header`, `Headers` `parse_headers`, `Request`
--               `http_parse_request`. A `char` array of the request is the list of all its bytes.
--   Files       src/files.c: `Decode` `decode_path`, `Path` the two tests of a path, `Mime`
--               `file_mime_type`, `Resolve` `file_resolve_path` and `file_stat_path` over a file
--               system that is a parameter, `Escape` what the two escapes append, `Builder` the string
--               builder over what `realloc` answers, `Listing` `file_build_directory_listing`, which
--               `Listing.Heap` and `Listing.Blocks` tell once more with the memory it takes and frees.
--   Log         src/log.c: `access_log_open` and `access_log_close` over what they hold, and
--               `access_log_write` over the text of the file.
--   Server      src/server.c: `Socket` is `send_all` over the outcomes of the calls of `send` to
--               come, `Read` `find_header_end`, `extract_request_line` and `read_next_request` over
--               those of `recv` and the bytes that the client sends, `Range` `resolve_range`,
--               `Response` the four functions that send a response, `Client` `handle_client` and
--               `get_client_ip`; `Client.Session` is the promise to a client, told of its stream
--               alone, without a buffer. `Config` is include/config.h, `Listen` `create_listening_socket`,
--               `Lifecycle` `server_init`, `server_stop` and `server_destroy` over what is acquired,
--               `Accept` the accept loop of `server_run` with its workers, awake or asleep on the
--               condition variable, and the signal as a step relation: a step is a stretch of one
--               thread up to where another may come in.
--   Main        src/main.c: `parse_positive_int`, with `strtol`; `Options` the loop over the options;
--               `Program` `main`, with what `server_run` starts and stops.
--   Tests       runs of the model, and each result applied at a concrete input.
--
-- Numbers. A `size_t` has 64 bits and its additions and subtractions wrap (`add_size`,
-- `sub_size`). A `long` is a sign and a magnitude, which stops at the largest. A byte is a number;
-- a pair of pointers into a buffer is the list of the bytes between them, and a pointer into one is
-- the list from there on. A `char` is compared as an unsigned byte where the source casts it; in
-- `hex_value`, where it does not, both readings agree.
--
-- Resources. What a function of the life cycle acquires and gives back is a list of what is held,
-- or, for sockets, the lists of what was opened and what was closed, so that a second close shows.
-- In `Accept` a descriptor may come back once it is closed; its uses are counted. A heap knows the
-- next block and lists those that were freed.
--
-- Fuel. `parse_lines` runs on one more than the number of bytes left, and each round takes two
-- bytes at least; `dot_dot_from` runs on one more than the length of the path, and each round
-- takes one. `worker_main` takes the number of its loop tests, which the queue's count bounds
-- while no descriptor comes in. `copy_file` runs on the number of bytes to send, and each round
-- takes one at least. `grow_from` doubles for 64 rounds at most, which takes any size to the
-- largest. `handle_client` runs on one more than the number of bytes that the client sends: a
-- request takes some of them. The loops of `send_all` and `read_next_request` recur on the list of
-- outcomes, which are those of the calls that return; behind its end a call moves nothing, as when
-- the peer is gone.
--
-- Waiting. `accept`, `recv` and `send` have no timeout and may block for ever. A result that a
-- function returns speaks of calls that return; a client that is silent for ever has no outcome in
-- the model. In `Accept` such a client is a worker that stays in `handle_client`: the threads' own
-- steps, `Own`, are told from those that wait for a client, a connection or a spurious wakeup.
--
-- Memory. Each call of `malloc` and `realloc` that a listing makes may fail by itself: its answer
-- depends on a number that tells it from the other calls of its kind.
--
-- Not modelled: null pointers that no caller passes (the queue's functions keep theirs), the text
-- of messages on standard error, a failing `snprintf`, `setsockopt`, and the calls of the operating
-- system, which are parameters. A signal is a step of its own: that `server_stop` locks a mutex
-- inside a handler is not part of the model.
pub mod Common
pub mod Queue
pub mod Http
pub mod Files
pub mod Log
pub mod Server
pub mod Main
pub mod Tests
