-- ===== src/Lib.antt =====
-- A model of the Go client library for herdr, a terminal workspace server, and of its plugin
-- runtime. The parts, the files that model them and how they correspond to the code:
--
-- Prelude, GoText: names, list and text functions that the other modules share. GoText states the
--   functions of Go's strings, strconv and unicode packages that the sources call, on code points.
-- Sorting: the order of texts by bytes and sort.Strings, as insertion.
-- Optional: herdr/optional.go, a field that is absent, null or a value.
-- Json, Unions: herdr/unions_manual.go, the unions that are written and read by hand, on a data type
--   of JSON values; an error is `none`.
-- OrderedCollection: herdr/ordered_collection.go. A Go map is a function from ids to `Option`, a
--   slice of ids is a list. Each method is a function that returns the collection it leaves, and
--   `deleteWhere` also the position, with -1 as `none`. `Items` is the abstract view, a list of
--   (id, value) pairs.
-- Wire, Wire/Events: the structs of herdr/types_gen.go and herdr/events_gen.go that the mirror
--   holds or reads. `Clone` is the identity, since a value of the model shares no storage.
-- SessionCache: herdr/session_cache.go, the mirror of the server's state. `apply` folds one event
--   into it; a method that the source calls on the receiver takes the mirror last and returns it.
--   Shared lists the fields that an agent and a pane have in common.
-- SessionState: herdr/session_state.go and herdr/session_clone.go, the accessors and Snapshot.
-- Client: herdr/client.go, herdr/dial.go and herdr/subscribe.go. Connection is a connection with the
--   number of times that it was closed, Wire the lines of a request and of a response, Exchange the
--   exchange (`open` of the source is `open_exchange`) and the calls made of it. What the dialer, the
--   connection and the context do is a record that the exchange takes; the store has the connection of
--   the exchange. encoding/json is parameters. Of context.AfterFunc it is assumed that it starts the
--   watcher only once the context is done.
-- Session: herdr/session.go, herdr/session_bootstrap.go and the errors that they tell apart, of
--   herdr/errors.go; Session/Stream is Next of herdr/stream.go. A call of Next is a machine that
--   stops where the code waits for the stream, for the delay between two attempts or for a
--   bootstrap; what ends a wait, and a Close from elsewhere, is a moment of the outside, and a run
--   is a list of moments and calls. The list is the bound: a run whose list is over is one in
--   which Next still waits.
-- SocketPath, Layout: herdr/socketpath.go, with the environment as a parameter, and
--   herdr/layout.go.
-- Manifest: plugin/manifest, the structs of herdr-plugin.toml and every rule that Validate applies,
--   in order, with the first error as the result, and the decoding of a popup's size.
--   Manifest/Fits states what the rules ask without their order. Whether a link pattern compiles is
--   a parameter.
-- Plugin: plugin/plugin.go, plugin/registry.go and plugin/run.go, from the environment of a process
--   to its exit code. A handler is a function on a world, a panic of a registration is a value.
--   Plugin/Invocation is plugin/invocation.go. Plugin/Paths and Plugin/State are plugin/state.go: a
--   disk is a function from paths to contents, and a write is the disks that it leaves one after
--   another. That os.CreateTemp chooses another name than that of the target is assumed.
-- ManifestCheck: plugin/plugintest/manifest.go, which compares a manifest with what a plugin has
--   registered; reading and decoding the file are parameters.
-- RustScan: internal/cmd/herdrsource/rust.go, the scanner of Rust sources, on bytes: what is no code is
--   skipped, groups and arms are found by counting delimiters, and a text is split into its
--   production code and its tests. Bodies says where in the source the body of an arm, of a guard or of
--   an if let stands; Find is about the searches of the strings package.
-- Generator: internal/gen/ir.go, internal/gen/methods.go and internal/gen/naming.go, which make the
--   types and the methods of the client from a parsed schema. Schema is the parsed schema, Ir the
--   package that is built, Builder to Build the steps of Build, Reach and Cycles the search for
--   structs that would hold themselves by value, and Generator/Sound what the package satisfies. An
--   error is a constructor of SchemaError.
--
-- Most loops run over a list, a text or a count of turns and are structural recursion. Four run on
-- fuel. The loop of balanced and untilArmComma takes the length of the source, at least as much as
-- there are bytes behind the start, and each turn goes forward by one at least (RustScan/Walk,
-- RustScan/Advance). The loop of split takes one more than the text has bytes, and each span ends
-- behind its start (RustScan/Views). The search of a way between structs takes one more than there
-- are names, and no name is visited twice (Generator/Reach). breakOptionalStructCycles takes one
-- more than there are fields, and each turn changes one for good (Generator/Cycles). Machine-width
-- integers are only copied, but for the numbers of a version, which must be below 2 ^ 32, the sizes
-- of a popup, with their ranges, the ids of requests, whose counter wraps at 2 ^ 64, the depth of
-- balanced, which is kept modulo 2 ^ 64, and the delay before an attempt, whose loop stops before a
-- number of 64 bits can overflow.
--
-- Not modelled: the decoding of JSON and TOML into structs, the generated methods of the API and
-- their results, the parsing of a schema and the printing of Go source, the regular expressions and
-- the call graph of the source checks, the goroutine that reads a stream, sockets, processes and
-- signals, the texts of errors, and the fake servers of the tests: they call libraries for nearly
-- all that they do, or are generated.
pub mod Prelude
pub mod OrderedCollection
pub mod Optional
pub mod Json
pub mod Unions
pub mod Client
pub mod Wire
pub mod SessionCache
pub mod SessionState
pub mod GoText
pub mod Sorting
pub mod Manifest
pub mod Session
pub mod Plugin
pub mod ManifestCheck
pub mod SocketPath
pub mod Layout
pub mod RustScan
pub mod Generator
mod Tests
