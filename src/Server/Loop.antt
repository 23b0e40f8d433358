-- ===== src/Server/Loop.antt =====
-- The event loop of `spawn` in src/server/controlchan/control_loop.rs, with the tasks that the handlers
-- spawn: a connection is a session, the channel to the control loop, and the tasks that run. The
-- channel has room for one message. What the environment does is an `Env`, a new one for each step.
pub mod Invariant
pub mod Steps
pub mod Safety
pub mod Room
pub mod Lockout
pub mod LogIn
pub mod Serving
pub mod Crashing
pub mod Unsecured
use libunftp.Prelude.{
  ℕ, ◌+◌, String, Bytes, ◌≡◌, Bool, true, false, ◌&&◌, Option, none, some, List, [], ◌∷◌, ◌++◌,
  text, length, leb, if◌then◌else◌,
}
use libunftp.Prelude.Result.{Result, ok, err}
use libunftp.Std.Decimal.{print_uint}
use libunftp.Std.FilePath.{FilePath}
use libunftp.Std.Utf8.{from_utf8_lossy}
use libunftp.Command.{Command}
use libunftp.ControlError.{
  ControlChanErrorKind, unknown_command, utf8_error, bad_command, control_channel_timeout,
}
use libunftp.Reply
use libunftp.Reply.{
  Reply, ReplyCode, code_and_msg, multi_line, command_syntax_error, parameter_syntax_error,
  closing_control_connection, local_error, file_status, command_okay,
}
use libunftp.FailedLogins.{FailedLoginsPolicy, LockState, Cache, failed, success}
use libunftp.Server.Session
use libunftp.Server.Session.{Session}
use libunftp.Server.Messages
use libunftp.Server.Messages.{
  ErrorKind, ControlChanMsg, Event, command, internal_msg, exit_control_loop,
  secure_control_channel, auth_success, auth_failed, storage_error, mk_dir_success,
  del_file_success, command_channel_reply,
}
use libunftp.Server.Handled.{
  Config, Credentials, Env, AuthResult, authenticated, bad_user, refused, Enter, entered,
  enter_failed, storage_shared, Task, log_in, send, send_data_cmd, send_abort, make_dir, delete,
  file_size, modified, checksum, list_status, accept_data, process_data, Outcome, done, panicked,
  Handled,
}
use libunftp.Server.Handled
use libunftp.Server.Middleware.{event_chain}
use libunftp.Server.Tasks.{LoggedIn, run_log_in, task_message, sends}

-- The reply for an error of the control channel, and whether the connection is closed after it.
unfoldable pub handle_control_channel_error : ControlChanErrorKind → Reply × Bool
handle_control_channel_error (unknown_command name) =
    (Reply.new command_syntax_error "Command not implemented", false)
handle_control_channel_error utf8_error =
    (Reply.new command_syntax_error "Invalid UTF8 in command", true)
handle_control_channel_error bad_command =
    (Reply.new parameter_syntax_error "Invalid Parameter", false)
handle_control_channel_error control_channel_timeout =
    (Reply.new closing_control_connection "Session timed out. Closing control connection", true)
handle_control_channel_error _ =
    (Reply.new local_error "Unknown internal server error, please try again later", true)

-- `stuck`: the loop waits for room in the channel that only it empties.
pub data Status : Type 0 where
  running closed crashed stuck : Status

pub record World (User : Type 0) : Type 0 where
  pub session : Session User
  pub queue : List ControlChanMsg
  pub tasks : List (Task User)
  pub cache : Cache
  pub replies : List Reply
  pub status : Status

abbrev pub capacity : ℕ
capacity = 1

abbrev pub fits : List ControlChanMsg → List ControlChanMsg → Bool
fits queue sent = leb (length queue + length sent) capacity

-- What the loop of the data connection sends.
abbrev pub IsDataMsg : ControlChanMsg → Type 0
IsDataMsg (auth_success name) = ⊥
IsDataMsg Messages.plaintext_control_channel = ⊥
IsDataMsg secure_control_channel = ⊥
IsDataMsg _ = Unit

module _ {User : Type 0} where
  -- What the loop does with the result of the event chain.
  settle_done : World User → Handled User → Reply → World User
  settle_done w h r = record w {
    session = h.session;
    queue = w.queue ++ h.sent;
    tasks = w.tasks ++ h.tasks;
    replies = w.replies ++ r ∷ [];
  }

  settle_outcome : World User → Handled User → Outcome → World User
  settle_outcome w h (done r) = settle_done w h r
  settle_outcome w h (Handled.failed kind) = record w { status = closed }
  settle_outcome w h panicked = record w { status = crashed }

  unfoldable pub settle : World User → Handled User → World User
  unfolding settle_outcome settle_done
  settle w h =
      if fits w.queue h.sent then settle_outcome w h h.outcome else record w { status = stuck }

  module _ (env : Env User) (config : Config) where
    -- The whole handler in one step. It reads and sets only the session, and the channel counts only for
    -- what it sends: a message that is delivered while the handler waits for the storage, the resolver
    -- or a socket is a delivery right before this step, with the same world afterwards.
    unfoldable pub on_command : Command → World User → World User
    unfolding settle
    on_command c w = settle w (event_chain env config (command c) w.session)

    -- The channel is upgraded before the message is handled; without a TLS configuration the loop
    -- panics, and a failed handshake ends it.
    upgraded : World User → Option (Option (List Bytes)) → World User
    upgraded w none = record w { status = closed }
    upgraded w (some none) =
        settle w (event_chain env config (internal_msg secure_control_channel) w.session)
    upgraded w (some (some certs)) =
        let s = record w.session { cert_chain = some certs } in
        settle (record w { session = s })
          (event_chain env config (internal_msg secure_control_channel) s)

    unfoldable pub on_internal_msg : ControlChanMsg → World User → World User
    unfolding upgraded
    on_internal_msg exit_control_loop w = record w {
      session = (event_chain env config (internal_msg exit_control_loop) w.session).session;
      status = closed;
    }
    on_internal_msg secure_control_channel w =
        if config.tls_configured then upgraded w env.accept_tls else record w { status = crashed }
    on_internal_msg msg w = settle w (event_chain env config (internal_msg msg) w.session)

  error_replied : World User → Reply × Bool → World User
  error_replied w (r, true) = record w { replies = w.replies ++ r ∷ []; status = closed }
  error_replied w (r, false) = record w { replies = w.replies ++ r ∷ [] }

  unfoldable pub on_error : ControlChanErrorKind → World User → World User
  unfolding error_replied
  on_error kind w = error_replied w (handle_control_channel_error kind)

  unfoldable pub on_timeout : World User → World User
  unfolding on_error
  on_timeout w = if w.session.data_busy then w else on_error control_channel_timeout w

  -- A round of a task that stands between others: it is replaced by the sending of its message.
  unfoldable pub run_task :
      Env User
      → Option FailedLoginsPolicy
      → List (Task User)
      → Task User
      → List (Task User)
      → World User
      → World User
  unfolding sends
  run_task env policy before (log_in name creds) later w =
      let r = run_log_in env policy name creds w.session w.cache in
      record w { session = r.session; cache = r.cache; tasks = before ++ send r.msg ∷ later }
  run_task env policy before (send msg) later w = w
  run_task env policy before task later w = record w {
    tasks = before ++ (sends (task_message env task) ++ later);
  }

  -- One step of the connection: the loop takes an event, or a task runs. A connection that is
  -- closed, crashed or stuck takes no more events.
  pub data Step (config : Config) (policy : Option FailedLoginsPolicy)
      : World User → World User → Type 0 where
    take_command :
        (env : Env User) (c : Command) (w : World User)
        → w.status ≡ running
        → Step config policy w (on_command env config c w)
    bad_line :
        (kind : ControlChanErrorKind) (w : World User)
        → w.status ≡ running
        → Step config policy w (on_error kind w)
    take_message :
        (env : Env User) (msg : ControlChanMsg) (rest : List ControlChanMsg) (w : World User)
        → w.status ≡ running
        → w.queue ≡ msg ∷ rest
        → Step config policy w (on_internal_msg env config msg (record w { queue = rest }))
    -- The stream of the client ends, or the server shuts down.
    hang_up :
        (env : Env User) (w : World User)
        → w.status ≡ running
        → Step config policy w (on_internal_msg env config exit_control_loop w)
    time_out : (w : World User) → w.status ≡ running → Step config policy w (on_timeout w)
    deliver :
        (msg : ControlChanMsg) (before later : List (Task User)) (w : World User)
        → w.tasks ≡ before ++ send msg ∷ later
        → w.queue ≡ []
        → Step config policy w (record w { queue = msg ∷ []; tasks = before ++ later })
    run :
        (env : Env User) (before : List (Task User)) (t : Task User) (later : List (Task User))
        (w : World User)
        → w.tasks ≡ before ++ t ∷ later
        → Step config policy w (run_task env policy before t later w)
    data_message :
        (msg : ControlChanMsg) (w : World User)
        → IsDataMsg msg
        → w.queue ≡ []
        → Step config policy w (record w { queue = msg ∷ [] })
    data_loop :
        (busy : Bool) (rx abort_rx : Option ℕ) (w : World User)
        → Step config policy w (record w {
          session = record w.session {
            data_busy = busy;
            data_cmd_rx = rx;
            data_abort_rx = abort_rx;
          };
        })

  pub data Reach (config : Config) (policy : Option FailedLoginsPolicy) (w : World User)
      : World User → Type 0 where
    here : Reach config policy w w
    next :
        {u v : World User}
        → Reach config policy w u
        → Step config policy u v
        → Reach config policy w v

abbrev pub connected : {User : Type 0} → Config → ℕ → Cache → World User
connected config source_ip cache = record {
  session = Session.start source_ip config.tls_configured;
  queue = [];
  tasks = [];
  cache = cache;
  replies = [];
  status = running;
}
