-- ===== src/Lib.antt =====
-- frances: a harness for language models that edits files through anchors.
--
-- A language model sees each line of a file behind an anchor, a name of dictionary words that stays
-- with the line for as long as the line lives, and names lines by their anchors when it asks for an
-- edit. Two crates do this.
--
-- crates/frances-anchors turns bytes into dictionary words of eleven bits (encode.rs, words.rs) and
-- hashes the lines of a file (hash.rs). `Anchors.Words`, `Anchors.Encode` and `Anchors.Decode`
-- model the first, `Anchors.Hash` the second; `encode`, `decode`, `encode_words`, `decode_words`,
-- `word`, `index_of`, `hash_line` and `hash_lines` have the names of the functions. The file of
-- words is a parameter, of which `IsDictionary` says what words.rs asserts and tests; the hash
-- function XxHash3_64 is the parameter `Hasher`.
--
-- crates/frances-edit keeps the anchors. `Edit.Anchor` is anchor.rs: the order in which anchors are
-- handed out, their bytes and their text. `Edit.Pool` is pool.rs, which mints anchors that are not
-- in use. `Edit.State` is state.rs, the anchored state of a file. `Edit.Reconcile` is
-- reconcile.rs: anchors are carried over to a file that has changed, along a diff; the crate
-- `similar` that computes it is the parameter `Differ`, and `IsScript` says what a diff is.
-- `Edit.Ops` is edit.rs, operations replayed on the lines. `Edit.Store` is the trait of store.rs
-- and `Edit.Store.Fake` its store in memory; `Edit.Store.Reliable` says what the engine relies on.
-- `Edit.Engine` is engine.rs, opening and storing a file. `Edit.Render` is render.rs. `Edit.LoopGuard`
-- is loop_guard.rs. `Edit.Session` is the directory session/: `Types` its edits and errors, `Working`
-- reading and resolving anchors, `Anchored` and `WholeFile` the edits, `Dispatch` the entry point.
-- The session calls the engine, which calls the store; the state of the store, of the draft writer
-- and of the session are one record, `World`, that the calls pass on, also when they fail. The
-- draft writer, with the file system behind it, and the crate `regex` are parameters.
--
-- Other parts stand beside these. `Shell` is crates/frances-shell/src/proto.rs: `find` looks for
-- the sentinel that ends a script's output, `shell_single_quote` quotes a value, and
-- `Shell.Script.wrapper_script` is the script around the user's. `Shell.Reader` is reader.rs beside it:
-- it reads the output up to the sentinel and sends it to a sink on the way. What arrives, and when, is
-- a list of turns; the sink is the list of the events sent to it.
--
-- `Storage` is crates/frances-storage/src/lib.rs, the migrations of a database: `Storage.run` applies
-- those that are declared and not recorded. The SQL engine is the parameter `Storage.Turso.Engine`,
-- and `Storage.Recording` says what the code relies on of it. A transaction that is not committed is
-- rolled back by the engine.
--
-- `Config.Binding` is binding.rs and handle.rs of crates/frances-config/src: values bound to paths of a
-- configuration, which a registry refreshes. Inner bindings and refreshers are told by numbers, and a
-- refresher lives while it has owners. One type stands for the values of all bindings.
--
-- `Worker.Frame` is crates/frances-worker-protocol/src/frame.rs, messages and attachments on a stream of
-- bytes. An attachment is the bytes that its reader gives; the stream delivers its bytes and ends. The
-- loop of `receive_raw` runs on fuel for 18 frames, of which at most 16 are attachments that it keeps.
-- `Worker.Feed` is `route_feed` of feed.rs there, with the loop of transport.rs that calls it. A feed's
-- receiver that lives takes every message at once and lives through the run; the caller's takes a given
-- number of messages and is then gone. `serde_json::from_slice` is a parameter.
--
-- `Core` is crates/frances-core/src: `LogFmt` is log_fmt.rs, texts cut for display; `PathUtil` is
-- `is_within` of path_util.rs, on lists of components where `Path::canonicalize` is a parameter; `JsonRepair` is
-- json_repair.rs, values that arrive encoded in strings. `Json` are the values of `serde_json`; its
-- parser is a parameter, of which `Json.Weight.IsParser` says that a text is longer than what it is
-- parsed to, and so the recursion of `unwrap_stringified` has fuel enough. `Models` is
-- crates/frances-models-llm/src: `Effort` is effort.rs, the labels for efforts; `ToolArgs` is tool_args.rs,
-- schemas and arguments of tools, where the crate `jsonschema` is a parameter.
--
-- Numbers are natural numbers with the machine's width written out where the code wraps or casts;
-- an i64 that is only copied and compared is a natural number. A text is the list of its code
-- points, a path is a text, a hash set or map is a list. A failing index or `expect` is the outcome
-- `panic`, and so is an arithmetic underflow, as with overflow checks on. The loop of `mint` runs on
-- fuel, one more than the anchors in use, and is shown to end before the fuel does.
--
-- Not modelled are locks and asynchrony (calls are sequential here), logging, serde, the process that
-- the shell runs, and the other crates: the application, the providers of models, workflows, sessions
-- and workers, with the feeds of their protocol. Of crates/frances-config the layers, paths and providers are not modelled, of
-- crates/frances-models-llm the data for serialisation.
pub mod Prelude
pub mod Text
pub mod Anchors
pub mod Edit
pub mod Shell
pub mod Json
pub mod Core
pub mod Storage
pub mod Models
pub mod Config
pub mod Worker
