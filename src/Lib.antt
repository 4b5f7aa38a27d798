-- ===== src/Lib.antt =====
-- A model of homelab-evidence-mcp, an MCP server that answers questions about the services of a
-- home network with evidence from monitoring sources, and never acts on them.
--
-- At the start the configuration is read and checked, tokens are read, and the program is put
-- together: an engine that hides the tokens, a client with the sources as its destinations, a
-- registry of the services. A tool call takes a slot of the tool budget, works out a time window
-- and asks the collectors. A collector calls the client of one source through `withSourceTimeout`;
-- the client sends GET requests through the locked HTTP client, which caches whole answers, and
-- cleans every text with the redaction engine. The outcomes of the sources and their items go to
-- the timeline and, for a compact answer, to the packing under a byte budget. Items are kept for a
-- while in the evidence cache.
--
-- The files and the code (paths from the root of the repository):
-- - Prelude: lists, texts, tables for Go maps, stable sorting, weak orders and integers, shared by
--   all parts. A text is its list of bytes.
-- - Evidence, Evidence/Order, Evidence/Age: internal/evidence/evidence.go (the types, SortItems,
--   SortOutcomes, KeepNewest, ComputeFreshness). Evidence/Cache: internal/evidence/cache.go
--   (NewCache, Put, PutAll, Get, Stats, expireLocked, removeLocked).
-- - Redaction/Utf8, Redaction/Search: what the engine uses of unicode/utf8 and strings.
--   Redaction/Clean: SanitizeControl, Truncate, TruncateBytes, NeutralizeInstructionLike, and
--   Redaction/Engine: New, Apply, ApplyAndTruncate, of internal/redaction/redact.go.
-- - Http/Client, Http/Get, Http/Paths, Http/Store: internal/httpx/client.go (NewLockedClient,
--   RegisterDestination, Get, joinURLPath, invalidPath, the response cache, Stats, CollectionTime).
--   Http/Info: internal/httpx/requestinfo.go.
-- - Server/Outcomes, Server/Collect, Server/Window: internal/mcpserver/collectors.go.
--   Server/Budget: toolBudget of internal/mcpserver/app.go. Server/Compact:
--   internal/mcpserver/compact.go.
-- - Correlation, Correlation/Names, Correlation/Summary: internal/correlation/correlate.go.
--   Registry: internal/registry/registry.go.
-- - Audit: internal/audit/audit.go. Audit/Rotating: internal/audit/rotating.go (OpenRotating,
--   Write, Close, rotateLocked, reopenLocked, openRegularAuditFile).
-- - Config: internal/config/config.go. Config/Types: the data of the file and of the configuration.
--   Config/Names, Config/Limits, Config/Source, Config/Bindings, Config/Service: the checks of
--   single texts, parseLimits, parseSource and AuthHeaders, and parseService. Config/Parse: Parse.
--   Config/Files: LoadFile, ResolveToken, LoadExtraCertPool and the opening of files.
-- - Server/App: NewApp of internal/mcpserver/app.go.
-- - Adapters/Docker: internal/adapters/docker/docker.go (Status, Evidence). Adapters/Ntfy,
--   Adapters/Ntfy/Received: internal/adapters/ntfy/ntfy.go (History, HistoryDetail,
--   decodeMessages, itemFrom). Adapters/Loki, Adapters/Loki/Line, Adapters/Loki/Query:
--   internal/adapters/loki/loki.go (Search, buildQuery).
--
-- How state and code correspond: a struct is a record with the fields of the source; a method takes
-- the record and gives the new one beside its result. A Go map is a list of keys and values in the
-- order of insertion, and is visited in that order. Mutexes are not modelled: each method that
-- takes the lock is one step. Constructors never give nil, so a nil receiver is modelled only where
-- the source passes one on (the redaction engine, the recorder of requests, a response).
--
-- A reading of the clock is an argument, one for each reading of the source. A time is a natural
-- number of nanoseconds since the beginning of year 1, and a duration an integer of nanoseconds. A
-- time before year 1 does not occur, so a subtraction that would go below it gives that beginning.
-- Sizes and counters are natural numbers or integers without the limit of 64 bits, which the
-- configured limits keep far away; the one place where the source reaches it, the age of a time
-- that lies very far ahead, writes the wrap-around out.
--
-- What is not under internal/ or cmd/ is an argument of the definitions that use it: the length of
-- an encoding (encoding/json), regexp (compile and find all), net/url, the keyed fingerprints
-- (crypto/hmac), the network (net/http), the YAML decoder, the file system, the environment, the
-- tables of Unicode for lower case and for spaces, the parsing and printing of times. Nothing is
-- assumed of them but what a theorem names as a hypothesis.
--
-- Loops are recursions on the list that they visit, or on fuel: the search for an exact rule gets a
-- round for each byte of the text and one more, the two eviction loops a round for each stored key,
-- the trimming of a compact answer a round for each item. Each round takes out or passes over one
-- of these, so the fuel is never what ends a loop.
--
-- A check that fails appends an error to a list; a parser returns its list of errors or what it
-- made. The disk of the audit file is a function from the number of a file to its content, and each
-- call of `Write` has a record of which operations of the disk work, so a failure may come
-- anywhere. The file system that the configuration is read from is a function from a path to what
-- Lstat and an open give.
--
-- Not modelled: the adapters of Beszel, Gatus and Healthchecks (internal/adapters), the tool
-- handlers, their output records and the doctor (internal/mcpserver), the identifiers
-- (internal/evidence/id.go), flags and signals (cmd). The transport's TLS and timeout settings are
-- not modelled either: the network is a function of the request.
pub mod Prelude
pub mod Evidence
pub mod Redaction
pub mod Http
pub mod Server
pub mod Correlation
pub mod Registry
pub mod Adapters
pub mod Audit
pub mod Config
