-- ===== src/Lib.antt =====
-- Verification of the infrastructure provider: the execution coordinator and the executor of the
-- development agent, the command protocol that it serves, the synchronisation of its workspace,
-- the data-plane resolver, and the life of a development instance.
--
-- The program. The provider runs development instances from templates. In an instance the
-- development agent (dev-agent) serves the platform: a synchronisation writes source files, and
-- the execution coordinator (dev-agent/exec_worker.go) accepts commands over HTTP, keeps a record
-- of each session on disk, runs one command at a time on an executor (dev-agent/exec_server.go),
-- and recovers after a restart. The data plane (dataplane) resolves a verb of an instance to a
-- Service of the runtime cluster. The instance controller (controller/instance) deletes instances
-- that expired or were idle, decides when to look at an instance again, and opens its network once
-- the runtime object is ready.
--
-- Files.
-- - Prelude.antt: names of the libraries and of its children: Tests (boolean tests), Lists, Int
--   (Go's integers with their wrap-around).
-- - Text.antt: strings as lists of code points, with the functions of Go's strings package that
--   the sources use; Text/Laws.antt and Text/Blank.antt: their lemmas.
-- - Command.antt: persistentExecRequest, validatePersistentExecRequest, boundedExecTimeout and
--   boundedExecOutput of dev-agent/exec_server.go. Command/Limits.antt: the effective limits of a
--   command; Command/Accepted.antt: what the validation accepts. Command/Output.antt:
--   execOutputBuffer; Command/Output/Stream.antt: what it holds. Command/Path.antt: cleanExecPath
--   and cleanExecWorkDir with path.Clean; Command/Path/Safety.antt: where a cleaned path leads.
-- - Executor.antt: statelessExecutor of dev-agent/exec_server.go, its ServeHTTP cut at the lock,
--   and failStop; Executor/FailStop.antt: how it stops.
-- - Session.antt: the data of the coordinator and its record directory. Session/Disk.antt:
--   readRecord, writeRecord, findByRequest, recordCount, gcLocked; its children hold their lemmas.
--   Session/Coordinator.antt: the state and the monad of the operations. Session/Requests.antt:
--   start, poll, cancel, ServeHTTP. Session/Run.antt: run, setRunning, finish, recoverSessions,
--   newExecCoordinator.
-- - Session/Start.antt, Retry.antt, Owner.antt, Cancel.antt, Gate.antt, Recovery.antt: one
--   operation each. Session/Changes.antt and its children: how the operations change the
--   directory.
-- - Session/System.antt: the step relation of the whole coordinator; System/Records.antt and
--   System/Order.antt with its children: invariants of its runs.
-- - Resolver.antt: dataplane/resolver.go, with the contract of apis/v1alpha1/types_template.go.
--   Resolver/Confinement.antt: where a verb leads; Resolver/Methods.antt: which methods it
--   permits.
-- - ExecRun.antt: runExec of dataplane/exec_run.go, with limitsForCapability of dataplane/exec.go
--   and execTimeoutSeconds of dataplane/persistent_executor.go; ExecRun/Waiting.antt: that it
--   ends, and with what; ExecRun/Output.antt: boundExecResult of dataplane/exec.go;
--   ExecRun/Call.antt: validatePersistentExecCall of dataplane/persistent_executor.go.
-- - Workspace.antt: the files, the manifest and the paths of the workspace of dev-agent/main.go:
--   cleanWorkspacePath, ensureExecPathNoSymlink. Its children model handleSync: Files.antt
--   (writeWorkspaceFile, removeManagedWorkspaceFile), Digest.antt (syncDigester), Bundle.antt
--   (decodeSyncFiles, validateAuthoritativeSyncFiles), Manifests.antt (readWorkspaceManifest,
--   writeWorkspaceManifest, verifyWorkspaceManifest), Reload.antt (reload rules and
--   shouldRestartAfterSync), Step.antt (the monad of the handler), Stages.antt (the loops over
--   files), Stamp.antt (stampPlainSyncManifest), Sync.antt (the request and the checks before the
--   first write), Served.antt (the two kinds of synchronisation and the handler). Their proofs:
--   Files/Laws.antt, Digest/Sorted.antt and Reading.antt, Links.antt, Stages/Keeps.antt,
--   Stores.antt and Unlinked.antt, Preflight.antt, Handler.antt, Contract.antt, Promises.antt,
--   Frame.antt, Applied.antt, Synced.antt, Revisions.antt. Mutate.antt and Commit.antt model
--   handleWorkspaceMutate of dev-agent/workspace.go; the children of Mutate hold its proofs.
--   Diff.antt models handleWorkspaceDiff, which changes nothing; Diff/Exact.antt says what a diff
--   names. A checkpoint that it loads is an argument. Seed.antt models handleWorkspaceSeed, and
--   Status.antt handleStatus of dev-agent/main.go.
-- - Lifecycle.antt: lifecycleDue and lifecycleRequeueAfter of controller/instance/lifecycle.go.
--   Lifecycle/Readiness.antt: runtimeReady, runtimeReadyForNetwork, desiredNetworkPhase,
--   runtimeNetworkPhase, instanceRequeueAfter. Lifecycle/Deadlines.antt and Phase.antt: their
--   properties.
-- - Tests.antt: concrete runs, and the properties at concrete inputs.
--
-- How the code is modelled. An operation takes an Env, which holds the clock and the faults of the
-- file system that it meets: listings, writes and removals may fail, and a durable write may fail
-- after its rename. An operation under w.mu is one function of the coordinator's state. The
-- goroutine of run waits for the mutation lock and for the executor, so it is two functions,
-- begin_run up to the call of the executor and end_run after it; the executor's answer is an
-- argument. A step relation takes requests, the two parts of goroutines, synchronisations and
-- restarts in any order. The numbers of goroutines (next_id) and the log of commands handed over
-- (dispatched) are not in the code: they name what the properties speak of, and they go on over a
-- restart. The active map keeps the number of the goroutine whose context its function cancels; an
-- entry that is added hides an older one.
--
-- The workspace of a synchronisation is a function from paths to what stands there, beside the
-- manifest's file. Hard links, permissions, pipes, devices and the targets of symbolic links are
-- left out: a write to a pipe may wait for ever, and one to a device stores nothing, so the model
-- is of a workspace without them. The manifest's own file stands apart from the others, as a file
-- that no other path leads to or goes below; a request with a path below it, which the code
-- answers with an error as that name is a file or becomes a directory that no manifest can
-- replace, is outside the model. The handler opens files below an os.Root and refuses links on the
-- way, but at the name of the manifest's temporary file, where WriteFile follows a link: what that
-- write does is an argument, and the theorems on what a synchronisation or a mutation leaves
-- suppose that there is no such link. Each part of the handler meets faults of its own, which are
-- an argument: a look, a read, a directory, a write (which may leave other bytes), a removal or
-- the manifest's write may fail, the last before, within or after the write of its temporary file.
-- The handler is a sequence of steps that may end it with a reply; it runs under the mutation
-- lock, so nothing comes between its steps but the reload, which is an argument and may do
-- anything to the workspace. The rename of the manifest is atomic, and its temporary file is one
-- of the workspace. SHA-256, strict base64, utf8.Valid, path.Match and RemoveAll are parameters;
-- the JSON of a request and of the manifest is decoded by an argument. A set of paths is a list
-- without repetition.
--
-- Bounds. Times are natural numbers of nanoseconds since an epoch before all of them; durations
-- that the code computes in int64 keep their wrap-around where a request can reach it (the timeout
-- of a command). Go's int is 64 bits wide. The limits of a development instance are at most 604800
-- seconds by the schema of the template, so their products do not overflow. The loop of runExec
-- runs on fuel: 361 rounds of at least 250 milliseconds cover the longest wait of 90 seconds,
-- which is proved; every other loop is over a list.
--
-- Left out. Texts of errors and responses; temporary files that a failed write of a record leaves;
-- the order that sort.Slice gives to equal times, which is the order of the directory here; a
-- record that cannot be read and one that cannot be decoded are one case. The decoding of a
-- request is an argument of serve and of arrive: none where the decoder refuses the body. What the
-- executor's execute returns is an argument, and the number of its commands is not in the code.
-- The comparison of the control token is equality of texts. time.Parse is a parameter of the
-- lifecycle; the reads of unstructured objects and strings.ToUpper are parameters of the resolver.
-- A map is a list of its entries. The run of a synchronous command takes how late each look at the
-- clock is, whether the caller is gone and what the polls answer from an argument. A float64 among
-- the generations is the integer that it equals or none. The other parts of the repository are not
-- modelled: the controller beyond the functions named, the data plane beyond the resolver and the
-- synchronous commands, the reading and the checkpoints of the workspace, the state of the actions
-- token, the backends and the proxies.
pub mod Prelude
pub mod Text
pub mod Command
pub mod Executor
pub mod Session
pub mod Resolver
pub mod ExecRun
pub mod Workspace
pub mod Lifecycle
pub mod Tests
