-- ===== src/Server/Loop/LogIn.antt =====
-- A login from end to end: USER, PASS, the task of PASS, and its message.
use mathlib.Core.Path.{subst}
use libunftp.Prelude.{ℕ, ◌∙◌, Bytes, ◌≡◌, true, none, some, [], ◌∷◌, refl, ap}
use libunftp.Std.Utf8.{from_utf8}
use libunftp.Command.{Command}
use libunftp.Reply
use libunftp.Reply.{need_password, user_logged_in}
use libunftp.Server.Options.{
  FtpsRequired, ActivePassiveMode, active_only, passive_only, active_and_passive,
}
use libunftp.Server.Session.{Session, wait_pass, wait_cmd}
use libunftp.Server.Messages.{Event, command, internal_msg, auth_success}
use libunftp.Server.Handled.{
  Config, Credentials, Env, authenticated, entered, log_in, send, reply, spawning,
}
use libunftp.Server.Internal.{handle_internal_msg}
use libunftp.Server.Middleware.{
  Next, event_chain, ftps_data, ftps_control, auth_check, active_passive, primary, is_exempt,
}
use libunftp.Server.Commands.{handle_command}
use libunftp.Server.Commands.Login
use libunftp.Server.Tasks.{run_log_in, log_in_result, log_in_unlocked, log_in_entered, succeeded}
use libunftp.Server.Loop.{
  World, Step, Reach, here, next, take_command, take_message, run, deliver, connected, on_command,
  on_internal_msg, run_task, settle,
}

pub data IsLogIn : Event → Type 0 where
  user : (username : Bytes) → IsLogIn (command (Command.user username))
  pass : (password : Bytes) → IsLogIn (command (Command.pass password))
  success : (username : Bytes) → IsLogIn (internal_msg (auth_success username))

module _ {User : Type 0} where
  ftps_data-log_in :
      (onward : Next User) (required : FtpsRequired) {event : Event} (s : Session User)
      → IsLogIn event
      → ftps_data onward required event s ≡ onward event s
  unfolding ftps_data
  ftps_data-log_in onward FtpsRequired.none s (user n) = refl
  ftps_data-log_in onward FtpsRequired.none s (pass n) = refl
  ftps_data-log_in onward FtpsRequired.none s (success n) = refl
  ftps_data-log_in onward FtpsRequired.all s (user n) = refl
  ftps_data-log_in onward FtpsRequired.all s (pass n) = refl
  ftps_data-log_in onward FtpsRequired.all s (success n) = refl
  ftps_data-log_in onward FtpsRequired.accounts s (user n) = refl
  ftps_data-log_in onward FtpsRequired.accounts s (pass n) = refl
  ftps_data-log_in onward FtpsRequired.accounts s (success n) = refl

  active_passive-log_in :
      (onward : Next User) (mode : ActivePassiveMode) {event : Event} (s : Session User)
      → IsLogIn event
      → active_passive onward mode event s ≡ onward event s
  unfolding active_passive
  active_passive-log_in onward active_only s (user n) = refl
  active_passive-log_in onward active_only s (pass n) = refl
  active_passive-log_in onward active_only s (success n) = refl
  active_passive-log_in onward passive_only s (user n) = refl
  active_passive-log_in onward passive_only s (pass n) = refl
  active_passive-log_in onward passive_only s (success n) = refl
  active_passive-log_in onward active_and_passive s (user n) = refl
  active_passive-log_in onward active_and_passive s (pass n) = refl
  active_passive-log_in onward active_and_passive s (success n) = refl

  auth_check-log_in :
      (onward : Next User) {event : Event} (s : Session User)
      → IsLogIn event
      → auth_check onward event s ≡ onward event s
  unfolding auth_check is_exempt
  auth_check-log_in onward s (user n) = refl
  auth_check-log_in onward s (pass n) = refl
  auth_check-log_in onward s (success n) = refl

  ftps_control-none :
      (onward : Next User) (required : FtpsRequired) (event : Event) (s : Session User)
      → required ≡ FtpsRequired.none
      → ftps_control onward required event s ≡ onward event s
  unfolding ftps_control
  ftps_control-none onward required event s e = rw e refl

module _ {User : Type 0} (env : Env User) (config : Config)
    (open_ : config.ftps_required_control_chan ≡ FtpsRequired.none) where
  event_chain-log_in :
      {event : Event} (s : Session User)
      → IsLogIn event
      → event_chain env config event s ≡ primary env config event s
  unfolding event_chain
  event_chain-log_in s k =
      ftps_data-log_in _ config.ftps_required_data_chan s k
      ∙ ftps_control-none _ config.ftps_required_control_chan _ s open_
      ∙ auth_check-log_in _ s k
      ∙ active_passive-log_in (primary env config) config.active_passive_mode s k

  on_command-log_in :
      (c : Command) (w : World User)
      → IsLogIn (command c)
      → on_command env config c w ≡ settle w (handle_command env config c w.session)
  unfolding on_command primary
  on_command-log_in c w k = ap (settle w) (event_chain-log_in w.session k)

  on_internal_msg-log_in :
      (name : Bytes) (w : World User)
      → on_internal_msg env config (auth_success name) w
        ≡ settle w (handle_internal_msg (auth_success name) w.session)
  unfolding on_internal_msg primary
  on_internal_msg-log_in name w = ap (settle w) (event_chain-log_in w.session (success name))

  module _ (source_ip : ℕ) (name password : Bytes) (u : User)
      (name_text : from_utf8 name ≡ some name)
      (password_text : from_utf8 password ≡ some password) where
    abbrev pub creds : Credentials
    creds = record { password = some password; certificate_chain = none; source_ip = source_ip }

    abbrev pub begun : World User
    begun = connected config source_ip []

    abbrev pub named : World User
    named = record begun {
      session = record begun.session { username = some name; state = wait_pass };
      replies = Reply.new need_password "Password Required" ∷ [];
    }

    user-begun :
        handle_command env config (Command.user name) begun.session
        ≡ reply need_password "Password Required" named.session
    unfolding handle_command Login.user
    user-begun = rw (name_text, Login.user) refl

    begun-named : on_command env config (Command.user name) begun ≡ named
    unfolding settle
    begun-named =
        on_command-log_in (Command.user name) begun (user name) ∙ ap (settle begun) user-begun

    abbrev pub asked : World User
    asked = record named {
      tasks = log_in name creds ∷ [];
      replies = Reply.new need_password "Password Required" ∷ Reply.none ∷ [];
    }

    pass-named :
        handle_command env config (Command.pass password) named.session
        ≡ spawning Reply.none (log_in name creds ∷ []) named.session
    unfolding handle_command Login.pass
    pass-named = rw (password_text, Login.pass) refl

    named-asked : on_command env config (Command.pass password) named ≡ asked
    unfolding settle
    named-asked =
        on_command-log_in (Command.pass password) named (pass password)
        ∙ ap (settle named) pass-named

    abbrev pub answered : World User
    answered = record asked {
      session = record asked.session { user = some u };
      tasks = send (auth_success name) ∷ [];
    }

    asked-answered :
        env.authenticate name creds ≡ authenticated u
        → env.account_enabled u ≡ true
        → env.enter u ≡ entered
        → run_task env none [] (log_in name creds) [] asked ≡ answered
    unfolding run_task run_log_in log_in_result log_in_unlocked log_in_entered succeeded
    asked-answered a e n = simp (a, e, n)

    abbrev delivered : World User
    delivered = record answered { queue = auth_success name ∷ []; tasks = [] }

    abbrev pub logged_in : World User
    logged_in = record answered {
      session = record answered.session { state = wait_cmd };
      tasks = [];
      replies =
          Reply.new need_password "Password Required"
          ∷ Reply.none
          ∷ Reply.new user_logged_in "User logged in, proceed"
          ∷ [];
    }

    delivered-logged_in :
        on_internal_msg env config (auth_success name) (record delivered { queue = [] }) ≡ logged_in
    unfolding settle handle_internal_msg
    delivered-logged_in = on_internal_msg-log_in name (record delivered { queue = [] })

    -- Where TLS is required of nobody and no policy on failed logins is set: a client that connects and
    -- sends USER and PASS, whose password the authenticator accepts and whose account is enabled and
    -- can enter the storage, comes to a state in which it is served as that user and was told so.
    pub connected-logged_in :
        env.authenticate name creds ≡ authenticated u
        → env.account_enabled u ≡ true
        → env.enter u ≡ entered
        → Reach config none begun logged_in
    connected-logged_in a e n =
        next
          (next
            (next
              (next
                (next here (
                  subst (Step config none begun) begun-named
                    (take_command env (Command.user name) begun refl)))
                (subst (Step config none named) named-asked
                  (take_command env (Command.pass password) named refl)))
              (subst (Step config none asked) (asked-answered a e n)
                (run env [] (log_in name creds) [] asked refl)))
            (deliver (auth_success name) [] [] answered refl refl))
          (subst (Step config none delivered) delivered-logged_in
            (take_message env (auth_success name) [] delivered refl refl))
