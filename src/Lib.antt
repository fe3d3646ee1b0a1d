-- ===== src/Lib.antt =====
-- A verification library for Bialet, a web server that runs Wren scripts from a directory.
--
-- The program. src/server.c reads a request from a socket, parses it, looks for the file that
-- answers it under the root directory and writes the response; errors get the project's own page
-- or a built-in one. src/livereload.c answers the polls of a page under development and puts its
-- script into HTML bodies. src/utils.c opens files without following links, src/bialet.c resolves
-- paths, and src/json.c is the JSON parser of the scripts. For the scripts, src/markdown.c converts
-- Markdown, src/hash.c hashes passwords, and src/bialet_wren.c stores the files of a form, finds the
-- modules, runs the script and its queries; what goes wrong in it src/show_errors.c turns into a
-- page. src/cli.c reads the command line, and src/main.c forks the worker that serves, and runs the
-- migration and the cron script when their files change.
--
-- The files.
-- Prelude: Bytes, C strings, decimal numbers, searches, and lemmas on lists.
-- Server/HeaderBlock, Server/FindHeader, Server/ContentLength: header_block_len, find_header
-- and ci_ncmp, parse_content_length (src/server.c).
-- Server/Reader: the loops at the beginning of handle_client, and drain_request_body. Child
-- modules: Stream on how bytes arrive in segments, Whole on requests that arrive whole, Bounds
-- on the sizes, TooLarge on a refused body.
-- Server/Request: parse_request and struct HttpMessage.
-- Server/PrivatePath, Server/Root, Server/Locate: has_forbidden_uri_component, path_basename,
-- resolve_within_root, and the part of handle_client that picks the file.
-- Server/Response, Server/Pages, Server/Framing: struct BialetResponse and the pages of
-- src/bialet.h, get_http_status_description, get_content_type, write_response.
-- Server/CustomError, Server/Handler: custom_error and handle_client.
-- Html: HTML escaping, the reference that src/markdown.c and src/show_errors.c are compared with.
-- Markdown/Buffer, Markdown/Escape, Markdown/Url, Markdown/Inline, Markdown/Lines, Markdown/Table,
-- Markdown/Blocks: src/markdown.c. Inline text is rendered on memory, the line with its NUL and what
-- follows, so that a read behind the array shows as the result overrun.
-- LiveReload: src/livereload.c. Utils/Path, Utils/Trim: src/utils.c, and realpath_n of
-- src/bialet.c. World: what the server asks of the operating system and of the interpreter.
-- Hash/Djb2, Hash/Hex, Hash/Compare, Hash/Salt, Hash/Password: src/hash.c, in both builds. What a
-- build calls of OpenSSL is the record Crypto; Reliable says what is relied on of it.
-- HttpCall, HttpCall/Request: parse_http_response, on what the server writes, and parse_url,
-- base64_encode and build_request, on what the server reads; src/http_call.c. HttpCall/Transfer:
-- write_callback, header_callback and http_call_perform with libcurl, which is the record Curl; what
-- it hands over is a list of calls. HttpCall/Exchange: http_call_perform for Windows, and what it
-- calls; the network and OpenSSL are the record Network.
-- Run: bialet_run of src/bialet_wren.c; Script is what the interpreter does in one run. Modules:
-- bialet_wren_load_module, bialet_read_file and read_file; Remote is what the network and SQLite
-- answer, and Modules/Downloads joins it to the client of HttpCall/Transfer. Queries,
-- Queries/Execute: query_execute and the operations on a query; an answer of SQLite
-- is a record, and so is whether each allocation of its results succeeds.
-- Cli, Cli/Parse: src/cli.c; the arguments behind the one at i are a list.
-- Uploads, Uploads/Save: save_uploaded_files of src/bialet_wren.c, less the purge of old rows at its
-- end. Child modules: Parts and Scan on bodies of parts, Shrinks and Limits on any message.
-- ShowErrors: src/show_errors.c, its static variables as one record.
-- TestRunner: bialet_run_tests of src/bialet_wren.c, less what it prints, and bialet_wren_error while
-- a test is captured. The files and the interpreter are the record Machine, on a state that a test
-- leaves to the next one.
-- Process, Process/Supervisor: src/main.c, from a reported change to the runs it starts, and the
-- loop of the supervisor as a step relation with the arrival of signals.
-- Json/Utf8, Json/Text, Json/Parser: src/json.c.
-- Tests: runs of the definitions, and the theorems at concrete inputs.
--
-- The model. A text is a list of bytes as numbers; a C string is one without a NUL. A socket is
-- the list of segments that recv returns one after the other, and an empty segment is its end,
-- an error or a timeout. The file system (stat, realpath, openat), the interpreter and strtod are
-- parameters, fields of the record World or arguments. size_t has 64 bits, and its wrap-around is
-- written out, but for the size of a whole request, which the limit that main.c sets keeps in range.
-- A length of 2 ^ 31 or more in an int is no result (ShowErrors).
--
-- Bounds and fuel. The request buffer holds 32767 bytes (room_size) and a path 2048 with its NUL
-- (path_size). The loops on a buffer recur on the text. The search in header lines takes the
-- length of the block as fuel, since a line takes two bytes or more; the route search takes one
-- more than the length of the URI, since each round drops its last component; the decoding of a
-- JSON string takes one more than its length; the JSON parser takes three times the length of the
-- text and three, since a value takes three calls at most for each byte. The rendering of inline
-- text takes one more than the bytes of its memory, since a round moves by one at least. Doubling
-- the capacity of captured errors takes 64 rounds, since their length is below 2 ^ 63. The scan of
-- uploads takes one more than the length of the body, since each part is shorter than the text
-- before it. cli_parse takes the number of the arguments, since a round takes one at least. The
-- loop that reads a response takes the limit of 50 MB, since a round reads a byte at least.
--
-- Not modelled: the accept loop, timeouts, sending in parts, failing allocations but for those of the
-- results of a query and of the buffer of a response, the lock between the threads, the start-up,
-- libcurl and OpenSSL, the branches for Windows but for the one of src/http_call.c, SQLite, the Wren interpreter
-- (a copy of another project), src/messages.c, and the rest of src/main.c, src/utils.c and
-- src/bialet_wren.c.
pub mod Prelude
pub mod Process
pub mod Queries
pub mod Server
pub mod LiveReload
pub mod World
pub mod Cli
pub mod Hash
pub mod Html
pub mod HttpCall
pub mod Json
pub mod Markdown
pub mod Modules
pub mod Run
pub mod ShowErrors
pub mod TestRunner
pub mod Uploads
pub mod Utils
pub mod Tests
