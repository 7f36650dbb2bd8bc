-- ===== src/Lib.antt =====
-- Verification library of mock-my-mta, a mail server for tests: it accepts mail over SMTP, keeps
-- it in layered storage and shows it over HTTP. Modelled are the storage, with the email trees
-- and the search that it is built on, what the SMTP server does with a message, the handlers of
-- the HTTP server, and the hub of its websocket clients.
--
-- The program's parts, and the files that model them:
--
-- * Email trees (storage/multipart): multipart.go, leaf_node.go, attachment_node.go,
--   multipart_node.go. A node is a `leaf` with headers and body or a `multi` with parts.
--   Multipart has the headers, the tests on a leaf and its decoded body; Multipart.Walk
--   walkNodes, whose closures become a state and a function of it; Multipart.Attachments, Body,
--   Preview, Tree, Fields and Printing the methods of a Multipart; Multipart.Parse parseMail,
--   New and ParseEmailFromBytes.
-- * Search (storage/matcher, storage/multipart/multipart_matcher.go): Matcher.Tokens is
--   tokenizeQuery, with its regular expression written out as a scan; Matcher.Age
--   parseCustomDuration; Matcher.Query ParseQuery; Matcher the matchers and MatchAll.
-- * Storage (storage): Storage has the records of storage.go; Storage.Config configuration.go;
--   Storage.Page the ends of the SearchEmails methods; Storage.Order sort.Slice; Storage.Layer
--   the interfaces Storage and storageLayer as a record of methods; Storage.Memory
--   storage_memory.go, with the five maps of memoryStorage, its load in Storage.Memory.Load;
--   Storage.Sqlite storage_sqlite.go, over a record with one operation for each SQL statement;
--   Storage.Files storage_filesystem.go, with the folder as a map from file names to bytes;
--   Storage.Engine engine.go, but for Set, which is in Storage.Engine.Message. Storage.Laws
--   states what clients rely on in a layer, Storage.Physical is a layer of any kind,
--   Storage.Physical.Restart is about the caches of an engine that has just started, and
--   Storage.Stored, Storage.Gone, Storage.Spared and Storage.Others are about the engine over
--   layers with these laws.
-- * SMTP server (smtp): Smtp has the relays of configuration.go, and handler, RelayMessage and
--   loginAuth of smtpd.go, with the effects on the world as a list; Smtp.Handler, Smtp.State,
--   Smtp.Rejection and Smtp.Relays are about them. Smtp.Server has the options of NewServer.
-- * Settings (http/settings.go): Http has handlePutSettings, and the callback of
--   cmd/server/main.go that gives the settings to the SMTP server.
-- * HTTP server (http/httpd.go): Http.Server has its state, what it calls and what a handler
--   leaves; Http.Reads, Http.Listing and Http.Bulk have the handlers; Http.Rewrite
--   rewriteSenderHeader and writeHeaders; Http.Static locateFile, getFileSystem and the handler
--   of the static files; Http.Requests the routes of NewServer, and the server under a sequence
--   of requests; Http.Wait waitForEmail, with what its `select` sees as a list of signals.
-- * Websocket hub (http/websocket.go): Http.Hub has the set of clients and its steps.
-- * Filter suggestions (http/filter_suggestions.go): Http.Suggestions.
-- * Log (log/log.go): Log has the levels, Logf and ParseLogLevel.
-- * Server command (cmd/server): Command has the configuration of configuration.go with
--   applyEnvOverrides, Command.TestData loadTestData, and Command.Startup main up to the start
--   of the servers, with LoadConfig.
-- * Analyser command (cmd/email-analyser/analyzer.go): Analyser has the lines that it prints.
-- * The whole program: System has what main starts, one engine behind both servers, with the hub
--   and the settings that they share, and its steps; System.Started, System.Kept and System.Gone
--   are about what it is in after any steps since its start.
--
-- How they interact: the SMTP handler gives a message to the storage service (the engine's Set),
-- then to the relays; the engine routes a call to the layers by the scopes of their
-- configuration; a layer parses what it is given into an email tree, and searches by the
-- matchers of a query. The engine is modelled over any type of layer states and any record of
-- methods, so the memory, the filesystem and the SQLite layer are three values of `Layer`, and
-- the engine is one more (Storage.Engine.Service), which the HTTP server is given. Its routing
-- tables hold positions in allLayers where the source holds pointers to the same objects.
-- Delivery follows a message through SMTP server, engine and HTTP server, Delivery.Announced to
-- the clients of the hub, and Delivery.Deleted reads the answers to its deletion and download.
-- In System a message, a request, and a websocket client that comes or goes are steps, which
-- follow each other in any order; the SMTP handler reads the settings that the last request has
-- left, and both servers broadcast to the one hub.
--
-- Texts and byte slices are lists of bytes, `int` and time.Duration are the integers of 64 bits
-- with their wrap-around (Base.Int), and errors are values (`Outcome`), a run-time panic among
-- them. The functions of the packages that the repository only calls (MIME, charsets, dates,
-- base64, regular expressions) are the fields of `Std`; Std.Ascii is the stand-in that the tests
-- use.
--
-- Fuel: parse_mail goes down one level for each unit, and New gives it one more than the length
-- of the body; this is enough since mime/multipart gives a part fewer bytes than its body has
-- (`PartsShrink`). find_all has the length of the query, and each token takes a byte at least.
-- skip_header has the length of the file, and each line takes a byte at least.
--
-- Not modelled: the database behind storage_sqlite.go and the JSON of its columns (parameters
-- with the laws of `SqlTable`, which Storage.Sqlite.Rows has), the file systems of the static
-- files (parameters), profiler and listener of the HTTP server (net/http), the SMTP dialogue and
-- TLS (smtp), the logger behind Logf, flags and signals (cmd/server) and the format of what the
-- analyser prints (cmd/email-analyser). The mutexes of the layers and of the hub are left out: a
-- method, a request and a broadcast are one step here, but for waitForEmail, during which the
-- storage changes. Go's order of map iteration is the order of insertion. A request is the
-- handler that the router chooses, with its variables and the decoded body.
pub mod Base
pub mod Std
pub mod Log
pub mod Multipart
pub mod Matcher
pub mod Storage
pub mod Smtp
pub mod Http
pub mod Delivery
pub mod System
pub mod Command
pub mod Analyser
