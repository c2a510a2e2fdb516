-- ===== src/Lib.antt =====
-- http-router is a small HTTP server library over Boost.Asio and Boost.Beast. A session reads the
-- requests of a connection and queues the responses; a router runs its filters over a request and
-- hands it to the first route whose mask matches the path; a mask is compiled into a regular
-- expression; and the helpers of the library take targets, queries and byte ranges apart. This
-- library models those parts as functions, one module for each:
--
-- Uri: libs/http-router/src/uri.cc and include/http-router/uri.hh. Uri/Target is `split`, Uri/Escape
--   the percent encoding, Uri/Query the class `query` with its list and its index, Uri/Parser the
--   parser of a query's text.
-- Range: libs/http-router/src/range.cc and include/http-router/range.hh.
-- PathCompiler: libs/http-router/src/path_compiler.cc and include/http-router/path_compiler.hh. Key
--   is the data, Escape the two escapings, Mask `parse_matcher`, Describe `description::make`, and
--   Matcher the class `matcher`.
-- Regex, Masks: the grammar and the search of `std::regex`, and what the masks of texts and plain
--   parameters match: Masks/Pieces is what such a mask is, Masks/Reading and Masks/Compiled how its
--   expression is made and read, Masks/Running and Masks/Matched how it is run, Masks/Fits the paths of
--   a mask, Masks/Matching what `matches` does with them, Masks/Written how such a mask is written, and
--   Masks/Paths the paths made of a mask and values.
-- Beast: the interface to Boost.Beast, a record of the calls that the code makes and the laws that
--   are relied on.
-- Request, Response, Filters: the classes `request` and `response` with the interface `sender`, and
--   the interface of a filter with the filters of libs/cors,
--   libs/headers and libs/logger; Filters/Printed is what the last two print.
-- Router: libs/http-router/src/router.cc with `route` of route.hh; Router/Config is `router::cfg`, and
--   Router/Print `router::print`.
-- Session: libs/http-router/src/server/http_session.cc.
-- Listener: libs/http-router/src/server/server.cc, which accepts the connections that sessions serve.
-- UiText: the conversion of error texts in libs/http-router/src/server/beast.cc, for Windows.
-- StaticFiles: libs/static_files/src/static_files.cc, with StaticFiles/Dates for `format_date`, and
--   libs/http-router/src/shared_roots.cc. StaticFiles/Site puts its filter into a router.
-- MimeTypes: libs/static_files/src/static_files_types.cc, with the rows of static_files_types.inl in
--   MimeTypes/Table, in parts as the rows follow one another.
-- Examples: the theorems at concrete inputs.
-- Base: what the modules share.
--
-- A byte is a number, a text a list of bytes, and `size_t` and `uint64_t` wrap at 2 ^ 64 where the
-- code can reach the wrap. What the code does on shared objects is explicit state: a response carries
-- its sender, as a function on the state behind it, and that state; the session's queue is such a
-- state, and the reads and writes that are outstanding on its stream are counted in it. An operation
-- that can meet undefined behaviour, a failed assertion or an exception returns an `Option`, with
-- `none` for that. A decoder is given the memory behind its text, so that a read past its end shows.
--
-- The loops of the parsers run on fuel of one more than the length of the text, which every round
-- shortens; that it is enough is part of what is proved of each: of the masks in PathCompiler/Mask,
-- the byte ranges in Range, the queries in Uri/Parser and the decoder, which is structural. The regular
-- expression that takes masks apart is written out as a scanner. The engine that runs the expressions
-- made of masks is a parameter of the matcher, of which nothing is relied on; Regex fills it with the part of `std::regex` that masks make use of.
-- That has no ranges or named classes in brackets, no braces and no back references, and `$` is the
-- end of the text alone. The fuel with which an expression is read is above twice its length, and a
-- repetition has one round more than there are bytes left, of which every round takes one. The
-- unordered maps are association lists.
--
-- The file system, the clock, `gmtime` and the reading of a date are a parameter of the static files; the
-- acceptor and the name of the host are one of the listener, whose accepts are counted as the reads and
-- writes of a session are; and the conversions of Windows are one of UiText. An error of a call is the
-- text of its message. What a program prints is a list of texts where it is said of the code, and else
-- left out. The loop over the letters of an extension is given as four rounds, as in the code, and the
-- sort of the table is by insertion: of rows that differ every sort makes the same array.
--
-- Left out are: the end of `int` in which `split` counts, at targets of 2 ^ 31 bytes; `isxdigit` of a
-- negative `char`, which is undefined and is false here; `std::regex_error` of `std::regex_match`, where a
-- match needs too much time or memory; and a file dated `file_time_type::max()`, which `expand` skips.
--
-- Not modelled are the copies of other projects (delegate.hh, beast/patched), of which only the calls
-- are parameters, the version, which the build generates, the example and the build files.
pub mod Base
pub mod Request
pub mod Response
pub mod Filters
pub mod Router
pub mod Session
pub mod Listener
pub mod UiText
pub mod Beast
pub mod Uri
pub mod Range
pub mod PathCompiler
pub mod Regex
pub mod Masks
pub mod StaticFiles
pub mod MimeTypes
pub mod Examples
