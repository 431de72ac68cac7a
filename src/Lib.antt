-- ===== src/Lib.antt =====
-- The gateway vulpes-core: an HTTP server that answers chat completions with the help of plugins.
--
-- The parts, and the files that model them (paths are from the root of the repository):
--   Base: texts, Go maps, integers, dynamic values and results, which all parts share.
--   Capabilities: internal/capabilities/types.go and the errors of internal/pipeline/errors.go. A
--     struct is a record. A plugin interface is a record of functions that take the world outside the
--     gateway and give it back changed, so an answer may depend on every earlier call.
--   Config: internal/config. Config/Defaults is ApplyDefaults, Config/Validate is Validate and Load,
--     Config/Duration is duration.go.
--   Secrets: internal/secrets/provider.go: the references in a plugin's configuration.
--   Queue: internal/observability/queue.go: the bounded queue of events. Queue/Steps has the
--     interleavings of the goroutines that send events with the one that takes batches, Queue/Life
--     those of run and Close with the senders.
--   Models: internal/models/registry.go: the logical models and their candidates.
--   FilePath: the functions of Go's path/filepath that the sources of plugins call, as they are
--     documented for Unix, with the lemmas on paths.
--   Plugins: internal/plugins/registry.go, and of manager.go the registration of a client.
--     Plugins/Sources is filesystem.go and ResolveGitHub of github.go, Plugins/Download is
--     HTTPDownloader, and Plugins/Archive is SafeExtract with safeJoin.
--   Rpc: internal/plugins/rpc.go. Rpc/Wire has the messages, and a method with the types of its
--     argument and its answer, which stands for its name; Rpc/Client is call and reconnect,
--     Rpc/Dialed DialRPCPlugin, callOn and Close, Rpc/Methods the methods and Invoke. Rpc/Pool has
--     the interleavings of the callers that reconnect, Rpc/Streams what Invoke makes of a plugin's
--     stream.
--   Manager: internal/plugins/process.go (Manager/Process) and Start and Stop of manager.go
--     (Manager/Start), with validateJSONSchema (Manager/Schema). Manager/Running says what has been
--     done with a plugin that runs.
--   Pipeline: internal/pipeline/pipeline.go. Pipeline/Compile is compile; Pipeline/Stages and
--     Pipeline/Chat are ExecuteChat, a function for each stage; Pipeline/Attempts has the two loops
--     over the routes and afterSuccess; Pipeline/Collect is collectResponse and retryable;
--     Pipeline/Stream is the goroutine of a streamed answer; Pipeline/Events and Pipeline/Props are
--     the events and the property maps. Its proofs go along the structure of an action with three
--     sets of rules: Pipeline/Post on its exit, Pipeline/TraceRules on the events that it sends, and
--     Pipeline/Holds on the world that it leaves.
--   HttpApi: internal/httpapi: the status and the body of an answer, and the text of a stream;
--     HttpApi/Handler is the chat handler from the request's body on, HttpApi/Routes the server with
--     its routes.
--   App: New of internal/app/app.go, which makes the gateway from a configuration, and Run.
--   Commands: cmd/gateway/main.go and cmd/pluginctl/main.go, up to the exit code.
--   Fakes: internal/testutil/fakes.go, the plugins of the repository's tests.
--   Tests: runs at concrete inputs.
--
-- How they interact: New starts the manager, which gets every plugin from its source, starts its
-- process, dials and configures it, and registers it by capability; compile looks the configured ones
-- up in the registry and makes the queue, and a request calls them in turn. A request is an action
-- (Pipeline/Exec) on the queue and the world: it goes on with a value, ends early with a reply, or
-- panics on a nil pointer. UUIDs, the clock, the texts of encoding/json and SHA-256 are arguments
-- (Pipeline/Platform). The operating system, the file system, the readers of archives, downloads and
-- the connections of net/rpc are records of functions on the world, too (Manager/Process,
-- Plugins/Sources, Rpc/Wire).
--
-- Bounds: Go's int and int64 are signed integers without a width, since the program only copies and
-- compares them; ParseInt of a duration has its 64 bits written out. Loops run over lists and need no
-- fuel, but for three. The rounds of flush are a list of what other goroutines send in each of them;
-- once they are quiet, more rounds than the capacity are enough, since every round but the last
-- takes an event. For the wait for a plugin's socket a round for each 50 ms up to the deadline is
-- enough by the clock. Invoke's loop ends only when the plugin or the reader ends it; its rounds are
-- fuel, and one more than the chunks of the stream is enough. The order of an association list is
-- the order in which `range` visits the map, so what holds for every list holds for every order.
--
-- Not modelled: the cancellation of contexts in the pipeline, deadlines and log lines; the flags and
-- the signal handler of the commands; the registrations of encoding/gob;
-- archive/zip, archive/tar and the JSON schema library; the server that listens; the
-- generated code under gen/, which nothing calls.
pub mod Base
pub mod Capabilities
pub mod Config
pub mod Secrets
pub mod Queue
pub mod FilePath
pub mod Models
pub mod Rpc
pub mod Plugins
pub mod Manager
pub mod Pipeline
pub mod HttpApi
pub mod App
pub mod Commands
pub mod Fakes
mod Tests
