-- ===== src/Lib.antt =====
-- ioprocess runs risky file operations in a process of its own. A client writes requests to a pipe:
-- each is a length of eight bytes and a JSON map with an id, the name of a method and its args. The
-- thread requestReader reads frames and queues the parsed requests, requestHandler hands them to a
-- pool of threads that run servRequest, and responseWriter writes each response in a frame. A method
-- takes its arguments from the request, calls the system, and returns a node or an error.
--
-- The parts of the program and the files that model them:
--   src/json-dom.c             Dom: the nodes as the data type Json, maps as entries under distinct
--                              keys, lookups and insertions; Dom/Store the nodes in memory, with their
--                              addresses, and JsonNode_free; Dom/Store/Release where a tree
--                              stands anywhere, Dom/Store/Free where the parser put it
--   src/json-dom-parser.c      Parser: the callbacks and their stack (Builder), jdParser_buildDom
--                              (Build), and what they build for a document or a broken text
--   src/json-dom-generator.c   Generator: the calls of yajl_gen for a document
--   src/exported-functions.c   Args: safeGetArg, safeGetArgValue, safeGetArgValues. A variable of
--                              which a getter has the address is a Cell, with the kind of its last
--                              write; its use as another kind is a fault.
--                              Exported: stdApiWrapper and every exported function under its name in
--                              snake case, Exported/Laws what all of them have in common, Exported/Write
--                              what writefile leaves in a file, and Exported/Read what readfile returns
--   src/ioprocess.c            Server: getCallback, buildResponse, servQueueFull and servRequest.
--                              Startup: parseCmdLine, closeUnrelatedFDs, communicate and main.
--                              Pipe: requestReader, responseWriter and the frames between them.
--                              Log: logfunc and logWriter.
--                              Session: the three threads of the pipes behind one another.
--                              Pool: requestHandler and the threads that run servRequest, as a step
--                              relation: one step for each access to the counter of slots, the
--                              queue of the pool and the response queue, in any order of the threads
--
-- Sys holds the calls of the system and the actions that make them. An action takes the trace of the
-- calls so far and errno, and ends with a value (ok), with NULL and an error (fail), with a step that
-- C leaves undefined (fault), with exit, or without fuel (hung). The system is the parameter Os: a
-- function from the trace and a call to the answer, so every behaviour of a file system, of other
-- processes too, is one Os. Base64, strerror and the conversions to double are fields of Os; sscanf and
-- malloc are parameters where they are used, and so are what yajl makes of a text and prints for its
-- calls, and the order in which a hash table is walked.
--
-- A document in memory is a tree of nodes at addresses that are not used again; the memory also counts
-- the calls of malloc, and a parameter says which of them succeed. jdParser_buildDom works on that
-- memory. The pipe threads and the methods work on documents as values: parse_document reads the value
-- from the tree that was built.
--
-- Fuel bounds the loops that C does not bound: a round of the write loop of writefile, of the read
-- loop of readfile, of the retry of pwrite, of the two pipe threads and of the log takes one unit, and
-- so does a level of a tree that is freed. Where a theorem says that code returns, it says how much fuel
-- is enough: a unit for each byte that is to be moved, or for each node.
--
-- Numbers are natural numbers; a conversion between machine words writes its wrap-around out. A double
-- is its bit pattern. The counter of free slots is that of limits whose sum fits in a gint. Memory other
-- than that of the parser is not modelled: what is freed is not used later, and leaks are not seen.
--
-- communicate and main make and join threads of which a World says whether they can be made and whether
-- they end; what the threads do is the matter of their own models.
-- Not modelled: the text of error numbers (iop_strerror, a parameter), and the interleaving of the log
-- with the other threads.
pub mod Base
pub mod Dom
pub mod Sys
pub mod Args
pub mod Parser
pub mod Generator
pub mod Exported
pub mod Server
pub mod Startup
pub mod Pipe
pub mod Session
pub mod Pool
pub mod Log
pub mod Tests
