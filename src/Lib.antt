-- ===== src/Lib.antt =====
-- PrismPanel: the rules of the services that keep a game panel safe, and the proofs that they hold.
--
-- The program has three services that matter here. The panel (panel/) is the web back end: it knows
-- the users and talks to the daemons. A daemon (daemon/) runs on each node: it hands out short-lived
-- tickets for direct transfers, keeps the node's firewall, and starts the game servers. Each game
-- server runs under a session process (sessiond/), which outlives the daemon, keeps the last lines of
-- output and sends them to those who attach. A ticket and a firewall grant name the panel session
-- that they were made for, so that both can be revoked with it.
--
-- The files, and the code that they model:
--   Common: lists, text, maps, errors and what the programs take from the Go packages net/netip and
--     unicode, which are parameters (Common.Platform).
--   Ticket: daemon/internal/ticket/manager.go. Model has the types, the two maps over a store of
--     shared tickets, sweeps and revocations; Path is normalizePath and ticketPathAllowed with
--     path.Clean; Consume and Create are the calls. A call that takes the lock twice is also given
--     as its two critical sections (create_with_options, then restrict or attach_upload), and Trace
--     has histories in which other calls come between them.
--   Firewall: daemon/internal/firewall. Ports, Rules and Validate are the checks of service.go;
--     Render is renderer.go, with a script as a list of lines; Service has the mutations, Grants the
--     temporary grants. What the backend, the file system, the clock and the hash of a table answer
--     to a call is an argument of the call.
--   Auth: panel/internal/auth. Limiter is limiter.go; Login is Service.Login, with the answers of
--     the store and of the password hash as an argument. Accounts has sessions, keys, new users and
--     passwords (service.go, password.go); it gives the writes of a call beside its result.
--   Session: sessiond/internal/host/host.go. Host has the output side of a SessionHost; a subscriber
--     is an index into the list of channels, and a subscription that would block for ever returns
--     none. Command is splitCommand.
--   Schedule: panel/internal/schedule and panel/internal/consolecommand. Spec is spec.go, over a
--     calendar that stands for the packages time and encoding/json; Task has prepareTask and
--     processDue of service.go; Command is validate.go. What is said of planned times supposes that
--     the clocks of the time zone are not changed in the week of the plan; a change is not covered.
--   Server: daemon/internal/model/server.go, the configuration of a server and the instances that it
--     makes; the functions of path/filepath are a parameter.
--   Deployment: daemon/internal/deployment. Task is a task of manager.go and the goroutine that works
--     it off, a step for each critical section and each look at its context; Manager has the starts in
--     their two critical sections, the active tasks and the locks on the images, and Manager.Trace the
--     histories in which calls, goroutines and changes to images come in any order. Swap is the exchange of directories in
--     files.go, on a disk of three paths; building the new content and what the system answers are
--     arguments.
--   Files: daemon/internal/files/service.go. Path is normalizeRelative and securePath, over what Lstat
--     answers. Upload is UploadChunk, over the map of sessions and the files by their paths; a call is
--     one step, and the paths, the guard on the instance and what the system answers are arguments.
--     Upload.Cancel is UploadSessionStatus and CancelUpload. SHA-256 and strings.EqualFold are
--     parameters.
--   Supervisor: daemon/internal/supervisor. Types has the instance (types.go). Registry is manager.go:
--     the checks of a server against the map of instances, ApplyServer and RemoveServer; a loop over
--     the map visits the keys in an order that is an argument. Deployment is deployment_lock.go.
--     Lifecycle is lifecycle.go, deployment.go, session_recover.go and session_detach.go for one
--     instance: a call holds the mutex while it waits, and the goroutine that waits for the session
--     goes on meanwhile, so calls are cut into events at the places where they wait. ApplyServer, the
--     reservations and the file changes take the same mutex, and are events there too. Restart is
--     allowAutoRestartLocked, Commands the console commands. Console is the ring, the sequence and the
--     subscribers of an instance.
--
-- Numbers are natural numbers, times and durations are in nanoseconds; a number that the code reads
-- as signed and tests for its sign is an integer. Text is a list of code points, or of bytes where
-- the code reads bytes. Every loop is structural recursion over a list, or a step of a history, so no
-- fuel is needed. A map is an association list, and where the code ranges over it the order is that
-- of the list; the map of instances is a function.
--
-- Not modelled: HTTP handlers, the database, files and archives but for the exchange of directories
-- and the uploads in chunks, the processes and sockets behind a session, plugins, the desktop
-- application, and the frontend. Of the firewall, reading the state at the start and the views are
-- left out; of the login, the token and the times of the session; of the deployment, copying with its
-- worker goroutines; of the supervisor, snapshots, metrics, plugin connections and reports.
pub mod Common
pub mod Ticket
pub mod Firewall
pub mod Auth
pub mod Session
pub mod Schedule
pub mod Server
pub mod Deployment
pub mod Files
pub mod Supervisor
