-- ===== src/Lib.antt =====
-- The core of libunftp, an FTP(S) server, modelled over bytes.
--
-- The program and its parts. A client's bytes are cut into lines (server/controlchan/codecs.rs),
-- each line is parsed into a command (server/controlchan/line_parser/), the control loop
-- (server/controlchan/control_loop.rs) hands the command through the middleware (ftps.rs, auth.rs,
-- active_passive.rs) to its handler (server/controlchan/commands/), which changes the session
-- (server/session.rs), replies, sends messages to the loop or spawns tasks. The tasks end with a
-- message to the loop, which comes through the same middleware. PASS consults the cache of failed
-- logins (server/failed_logins.rs) and an authenticator, such as that over a JSON file. A transfer
-- goes over a data connection (server/datachan.rs): on a port that PASV chooses, or, behind a
-- proxy, on one that the switchboard (server/proxy_protocol.rs) reserves and to which the proxy
-- loop (server/ftpserver/listen_proxied.rs) hands each connection by its header. Listings and
-- errors come from the storage interface (storage/), files from a back-end: the file system, or a
-- bucket of Google Cloud Storage. Paths are below src/ of the repository, but for those that begin
-- with crates/.
--
-- Where each part is modelled.
-- - Command.antt: command.rs, with the parameters of commands/{auth,stru,mode,opts,prot}.rs.
-- - LineParser: Eol has split_token_params, parse_to_eol (its loop is recursion on the line, with
--   eol_step for the `match`) and normalize; Arms and ParamArms have an arm for each verb; Parse
--   has the table of verbs. Print is the client's side, a specification. EolLaws and RoundTrip hold
--   the proofs.
-- - Reply.antt, ControlError.antt: reply.rs and error.rs.
-- - Codec.antt: FtpCodec with its next_index, decode and encode; a panic of encode is none. Lines
--   is the specification of lines; Decoding and Encoding hold the proofs.
-- - FailedLogins.antt: the cache as an association list with a key once; failed with its two
--   critical sections, success, and a round of the sweeper with its two sections: the keys it saw
--   expired go out of whatever the cache is by then. View is the specification: what is seen of a
--   key. Racing has failures of one key that run at once, as a step relation on the critical
--   sections.
-- - Server/Options, Session, Messages, Handled: the data. An Env holds what the world answers to
--   one handler or task: authenticator, storage back-end, resolver, binder, random bytes, sockets.
--   It is another one at each step.
-- - Server/Commands: Login, Settings, Files and Transfer have a function for each handler, with the
--   name of its verb, from the session to the outcome, the session after it, what it sent to the
--   loop, and the tasks. Commands/Keeping, Files/Renaming and Transfer/DataChannel hold proofs.
-- - Server/Middleware.antt: the middleware and its order (event_chain); its children hold proofs.
--   Server/Internal.antt: handle_internal_msg. Server/Tasks.antt: the tasks, PASS above all.
-- - Server/Loop.antt: the loop as a step relation on worlds: a session, the channel with room for
--   one message, the running tasks, the cache and the replies. A step is an event of the loop, a
--   round of a task, or what the data connection does to the session. A send without room makes it
--   stuck. A command is one step: its handler reads only the session, and a message that comes
--   while it waits is one that came right before it.
-- - Server/Sound.antt: the invariant of a session; Loop/Invariant and Loop/Steps keep it.
--   Commands/Upgrading and Middleware/Upgrading say who asks for the upgrade to TLS, Loop/Serving
--   and Loop/Crashing that only where it can be had; Loop/Unsecured is about a server without TLS.
-- - Server/Setup: Settings has the records of settings from the builder to the control loop,
--   Builder the builder of server/ftpserver.rs, Tls server/tls.rs, with the files and rustls as a
--   record Rustls; Setup.antt has what a server makes of its settings (ftpserver/chosen.rs and the
--   start of control_loop.rs) and how listen ends. Secured holds proofs.
-- - Server/Shutdown.antt: server/shutdown.rs; Ends is the notifier with the listeners that are
--   left, and a step is a subscription, a part of notify, a listener that hears or one that is
--   dropped. Ending holds the proofs.
-- - Server/Notify.antt: server/controlchan/notify.rs, which tells the listeners of
--   notification/event.rs what happened; Numbering holds the proofs.
-- - Commands/Transfer/PortRange: Pasv::try_port_range, the choice of a passive port, which PASV
--   runs.
-- - Server/DataChan.antt: spawn_processing and DataCommandExecutor, from the connection to what the
--   task sends to the control loop. A DataEnv holds what sockets and storage answer. Spawning and
--   Transfers hold the proofs.
-- - Proxy.antt: the types of a proxied connection and the key of the switchboard. Switchboard has
--   its board, an association list, and reserve_next_free_port; Listener the proxy loop, one
--   message after the other, with the sessions it refers to as a function from their numbers;
--   Header reads the header of a connection from a list of peeks. Their children hold proofs:
--   Reservation, Dispatch (on the invariant of Ownership), FirstLine and Accepted.
-- - Auth.antt: auth/authenticator.rs. Auth/JsonFile.antt: the loading of
--   crates/unftp-auth-jsonfile/src/lib.rs, with the crates it calls as the record Crates;
--   JsonFile/Check.antt: its authenticate. Loading, Check/Verdict and Check/LetIn hold proofs.
--   Auth/Rest.antt: crates/unftp-auth-rest/src/lib.rs, with its crates and the service in a
--   Service.
-- - Storage.antt: the default methods of storage/storage_backend.rs and its conversion of errors.
--   Storage/Filesystem.antt: crates/unftp-sbe-fs/src/lib.rs, over a map from files to contents and
--   a Dir of what the operating system answers, such as the file that a path leads to and each
--   error of an upload, and Storage/Metadata.antt: what its listings take of a file. Errors,
--   Listing, Filesystem/Paths and Filesystem/Resuming hold the proofs.
-- - Storage/CloudStorage.antt: crates/unftp-sbe-gcs/src/lib.rs. Client has gcs_client.rs, with what
--   its crates and the service answer as a record Cloud, Tokens its cache of access tokens (with
--   options.rs and workload_identity.rs), Response response_body.rs and object_metadata.rs,
--   Requests the chains of requests that `?` makes. Pages has the loop of a listing over its pages,
--   Removing the requests of RMD; they, Client/Removal and the children of Response hold the
--   proofs.
-- - Std: HashMap as an association list, and the parts of std::path, std::str and number parsing
--   that the program uses, over bytes.
-- - Prelude: names of the libraries, tests on native numbers, lists. The Tests files hold concrete
--   runs.
--
-- Bounds and fuel. An attempt counter is a u32, with its wrap-around; ports and octets are bounded
-- where a theorem needs it. The decoder is called with more fuel than the buffer has bytes, and
-- each call that yields something takes at least one byte. A decimal numeral is printed with more
-- fuel than the number. The pages of a listing of a bucket are asked for with fuel for as many
-- rounds as there are pages. No other definition uses fuel. The tries of a reservation are the size
-- of the port range and one more, as in the source; those of PASV are nine. Ports are u16, with the
-- wrap-around of their sums written out. The reading of a header is recursion on the peeks; where
-- they run out it waits.
--
-- What is not modelled. Upper-casing of characters outside ASCII is a parameter, as are JSON, gzip,
-- base64, PBKDF2, X.509, address ranges, HTTP, percent encoding, regular expressions and the parser
-- of proxy headers. Sockets, listeners, TLS itself, metrics and logs are left out, of the metrics
-- but the status of a transfer. To the control loop a shutdown is the end of the client's stream.
-- Of the authenticators PAM and the builder of REST are left out; in the control loop the
-- authenticator and the back-end are answers of an Env. Of the file system back-end enter is left
-- out, of that of Google Cloud Storage the texts of options.rs and the constructor of ext.rs. Time
-- is a number, and where a call reads the clock it is an argument. Framed, which ends a stream
-- after an error of the decoder, is not part of the model, nor is the time that a session's lock is
-- held.
pub mod Prelude
pub mod Std
pub mod Command
pub mod LineParser
pub mod Proxy
pub mod Auth
pub mod Storage
pub mod Reply
pub mod ControlError
pub mod Codec
pub mod FailedLogins
pub mod Server
