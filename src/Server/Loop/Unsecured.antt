-- ===== src/Server/Loop/Unsecured.antt =====
-- A connection of a server without TLS has no TLS at any time.
use mathlib.Core.Bool.{true≢false}
use libunftp.Prelude.{Bytes, ◌≡◌, refl, ◌∙◌, Bool, true, false, Option, List, arith, if◌then◌else◌}
use libunftp.FailedLogins.{FailedLoginsPolicy, Cache}
use libunftp.Reply.{Reply}
use libunftp.Server.Session.{Session}
use libunftp.Server.Messages.{
  ControlChanMsg, Event, command, internal_msg, exit_control_loop, secure_control_channel,
}
use libunftp.Server.Handled.{Config, Credentials, Env, Task, log_in, send, Handled, Outcome}
use libunftp.Server.Internal.{handle_internal_msg, storage_reply}
use libunftp.Server.Middleware.{event_chain, primary}
use libunftp.Server.Middleware.Passing.{event_chain-passes}
use libunftp.Server.Commands.Upgrading.{handle_command-cmd_tls}
use libunftp.Server.Tasks.{run_log_in, log_in_entered, log_in_unlocked, log_in_result, succeeded}
use libunftp.Server.Loop.{
  World, Step, take_command, bad_line, take_message, hang_up, time_out, deliver, run, data_message,
  data_loop, Reach, here, next, settle, settle_outcome, settle_done, fits, on_command,
  on_internal_msg, on_error, error_replied, on_timeout, run_task,
}

abbrev upgrades : Event → Bool
upgrades (internal_msg secure_control_channel) = true
upgrades _ = false

pub record IsPlain {User : Type 0} (w : World User) : Type 0 where
  pub off : w.session.cmd_tls ≡ false

module _ {User : Type 0} where
  internal-plain :
      (msg : ControlChanMsg) (s : Session User)
      → upgrades (internal_msg msg) ≡ false
      → s.cmd_tls ≡ false
      → (handle_internal_msg msg s).session.cmd_tls ≡ false
  unfolding handle_internal_msg storage_reply
  internal-plain msg s k i = ground arith

  primary-plain :
      (env : Env User) (config : Config) (event : Event) (s : Session User)
      → upgrades event ≡ false
      → s.cmd_tls ≡ false
      → (primary env config event s).session.cmd_tls ≡ false
  unfolding primary
  primary-plain env config (command c) s k i = handle_command-cmd_tls env config c s ∙ i
  primary-plain env config (internal_msg msg) s k i = internal-plain msg s k i

  chain-plain :
      (env : Env User) (config : Config) (event : Event) (s : Session User)
      → upgrades event ≡ false
      → s.cmd_tls ≡ false
      → (event_chain env config event s).session.cmd_tls ≡ false
  chain-plain env config event s k i =
      event_chain-passes (λ h. h.session.cmd_tls ≡ false) s (λ code m. i) (λ kind. i) env config
        event (primary-plain env config event s k i)

  IsPlain-if : (b : Bool) {x y : World User} → IsPlain x → IsPlain y → IsPlain (if b then x else y)
  IsPlain-if true h k = h
  IsPlain-if false h k = k

  settle_outcome-IsPlain :
      (w : World User) (h : Handled User) (o : Outcome)
      → IsPlain w
      → h.session.cmd_tls ≡ false
      → IsPlain (settle_outcome w h o)
  unfolding settle_outcome settle_done
  settle_outcome-IsPlain w h (Outcome.done r) i g = record { off = g }
  settle_outcome-IsPlain w h (Outcome.failed kind) i g = record { off = i.off }
  settle_outcome-IsPlain w h Outcome.panicked i g = record { off = i.off }

  settle-IsPlain :
      (w : World User) (h : Handled User)
      → IsPlain w
      → h.session.cmd_tls ≡ false
      → IsPlain (settle w h)
  unfolding settle
  settle-IsPlain w h i g =
      IsPlain-if (fits w.queue h.sent) (settle_outcome-IsPlain w h h.outcome i g)
        (record { off = i.off })

  error-IsPlain :
      (w : World User) (answer : Reply × Bool) → IsPlain w → IsPlain (error_replied w answer)
  unfolding error_replied
  error-IsPlain w (r, true) i = record { off = i.off }
  error-IsPlain w (r, false) i = record { off = i.off }

  log_in-plain :
      (env : Env User) (policy : Option FailedLoginsPolicy) (name : Bytes) (creds : Credentials)
      (s : Session User) (cache : Cache)
      → (run_log_in env policy name creds s cache).session.cmd_tls ≡ s.cmd_tls
  unfolding run_log_in log_in_result log_in_unlocked log_in_entered succeeded
  log_in-plain env policy name creds s cache = ground arith

  run_task-IsPlain :
      (env : Env User) (policy : Option FailedLoginsPolicy) (before : List (Task User))
      (task : Task User) (later : List (Task User)) (w : World User)
      → IsPlain w
      → IsPlain (run_task env policy before task later w)
  unfolding run_task
  run_task-IsPlain env policy before (log_in name creds) later w i = record {
    off = log_in-plain env policy name creds w.session w.cache ∙ i.off;
  }
  run_task-IsPlain env policy before (send msg) later w i = i
  run_task-IsPlain env policy before task later w i = record { off = i.off }

module _ {User : Type 0} (config : Config) (without_tls : config.tls_configured ≡ false) where
  refused :
      (b : Bool) (x : World User) {y : World User}
      → b ≡ false
      → IsPlain y
      → IsPlain (if b then x else y)
  refused true x e i = absurd (true≢false e)
  refused false x e i = i

  on_internal_msg-IsPlain :
      (env : Env User) (msg : ControlChanMsg) (w : World User)
      → IsPlain w
      → IsPlain (on_internal_msg env config msg w)
  unfolding on_internal_msg
  on_internal_msg-IsPlain env exit_control_loop w i = record {
    off = chain-plain env config _ w.session refl i.off;
  }
  on_internal_msg-IsPlain env secure_control_channel w i =
      refused config.tls_configured _ without_tls (record { off = i.off })
  on_internal_msg-IsPlain env msg w i =
      settle-IsPlain w (event_chain env config (internal_msg msg) w.session) i
        (chain-plain env config (internal_msg msg) w.session refl i.off)

  Step-IsPlain :
      (policy : Option FailedLoginsPolicy) {w w' : World User}
      → Step config policy w w'
      → IsPlain w
      → IsPlain w'
  unfolding on_command on_error on_timeout
  Step-IsPlain policy (take_command env c w e) i =
      settle-IsPlain w (event_chain env config (command c) w.session) i
        (chain-plain env config (command c) w.session refl i.off)
  Step-IsPlain policy (bad_line kind w e) i = error-IsPlain w _ i
  Step-IsPlain policy (take_message env msg rest w e q) i =
      on_internal_msg-IsPlain env msg (record w { queue = rest }) (record { off = i.off })
  Step-IsPlain policy (hang_up env w e) i = on_internal_msg-IsPlain env exit_control_loop w i
  Step-IsPlain policy (time_out w e) i = IsPlain-if w.session.data_busy i (error-IsPlain w _ i)
  Step-IsPlain policy (deliver msg before later w e q) i = record { off = i.off }
  Step-IsPlain policy (run env before t later w e) i =
      run_task-IsPlain env policy before t later w i
  Step-IsPlain policy (data_message msg w k q) i = record { off = i.off }
  Step-IsPlain policy (data_loop busy rx abort_rx w) i = record { off = i.off }

  -- TLS cannot be begun where it is not configured.
  pub Reach-IsPlain :
      (policy : Option FailedLoginsPolicy) {w w' : World User}
      → Reach config policy w w'
      → IsPlain w
      → IsPlain w'
  Reach-IsPlain policy here i = i
  Reach-IsPlain policy (next r s) i = Step-IsPlain policy s (Reach-IsPlain policy r i)
