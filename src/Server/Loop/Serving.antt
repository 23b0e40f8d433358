-- ===== src/Server/Loop/Serving.antt =====
-- What is on its way to the control loop can be served there, at any time of a connection.
use mathlib.Core.Path.{subst}
use libunftp.Prelude.{
  Bytes, ◌≡◌, ◌++◌, Bool, true, false, Option, none, some, List, [], ◌∷◌, arith, All, All-append,
  All-left, All-right, if◌then◌else◌,
}
use libunftp.FailedLogins.{FailedLoginsPolicy, Cache}
use libunftp.Reply.{Reply}
use libunftp.Server.Session.{Session}
use libunftp.Server.Messages.{ControlChanMsg, command, exit_control_loop, secure_control_channel}
use libunftp.Server.Handled.{Config, Credentials, Env, Task, log_in, send, Handled, Outcome}
use libunftp.Server.Middleware.Upgrading.{event_chain-IsServed}
use libunftp.Server.Commands.Upgrading.{msg_served, task_served, IsServed}
use libunftp.Server.Tasks.{
  task_message, sends, run_log_in, log_in_entered, log_in_unlocked, log_in_result,
}
use libunftp.Server.Loop.{
  World, Step, take_command, bad_line, take_message, hang_up, time_out, deliver, run, data_message,
  data_loop, Reach, here, next, settle, settle_outcome, settle_done, fits, on_command,
  on_internal_msg, upgraded, on_error, error_replied, on_timeout, run_task, IsDataMsg,
}

data_msg_served : (tls : Bool) (msg : ControlChanMsg) → IsDataMsg msg → msg_served tls msg ≡ true
data_msg_served tls msg h = ground arith

module _ {User : Type 0} (tls : Bool) where
  -- What is on its way to the control loop can be served there.
  pub record Served (w : World User) : Type 0 where
    pub queued : All (λ m. msg_served tls m ≡ true) w.queue
    pub spawned : All (λ t. task_served tls t ≡ true) w.tasks

  settle_outcome-Served :
      (w : World User) (h : Handled User) (o : Outcome)
      → Served w
      → IsServed tls h
      → Served (settle_outcome w h o)
  unfolding settle_outcome settle_done
  settle_outcome-Served w h (Outcome.done r) i g = record {
    queued = All-append _ w.queue h.sent i.queued g.sent;
    spawned = All-append _ w.tasks h.tasks i.spawned g.tasks;
  }
  settle_outcome-Served w h (Outcome.failed kind) i g = record {
    queued = i.queued;
    spawned = i.spawned;
  }
  settle_outcome-Served w h Outcome.panicked i g = record { queued = i.queued; spawned = i.spawned }

  Served-if : (b : Bool) {x y : World User} → Served x → Served y → Served (if b then x else y)
  Served-if true h k = h
  Served-if false h k = k

  settle-Served :
      (w : World User) (h : Handled User) → Served w → IsServed tls h → Served (settle w h)
  unfolding settle
  settle-Served w h i g =
      Served-if (fits w.queue h.sent) (settle_outcome-Served w h h.outcome i g)
        (record { queued = i.queued; spawned = i.spawned })

  error_replied-Served :
      (w : World User) (answer : Reply × Bool) → Served w → Served (error_replied w answer)
  unfolding error_replied
  error_replied-Served w (r, true) i = record { queued = i.queued; spawned = i.spawned }
  error_replied-Served w (r, false) i = record { queued = i.queued; spawned = i.spawned }

  deliver-Served :
      (msg : ControlChanMsg) (before later : List (Task User)) (w : World User)
      → All (λ t. task_served tls t ≡ true) (before ++ send msg ∷ later)
      → Served (record w { queue = msg ∷ []; tasks = before ++ later })
  deliver-Served msg before later w h = record {
    queued = ((All-right _ before (send msg ∷ later) h).0, tt);
    spawned =
        All-append _ before later (All-left _ before (send msg ∷ later) h)
          (All-right _ before (send msg ∷ later) h).1;
  }

  run_log_in-served :
      (env : Env User) (policy : Option FailedLoginsPolicy) (name : Bytes) (creds : Credentials)
      (s : Session User) (cache : Cache)
      → msg_served tls (run_log_in env policy name creds s cache).msg ≡ true
  unfolding run_log_in log_in_result log_in_unlocked log_in_entered
  run_log_in-served env policy name creds s cache = ground arith

  sends-served :
      (env : Env User) (task : Task User)
      → All (λ (t : Task User). task_served tls t ≡ true) (sends (task_message env task))
  unfolding task_message sends
  sends-served env task = ground arith

  run_task-Served :
      (env : Env User) (policy : Option FailedLoginsPolicy) (before : List (Task User))
      (task : Task User) (later : List (Task User)) (w : World User)
      → All (λ t. task_served tls t ≡ true) (before ++ task ∷ later)
      → Served w
      → Served (run_task env policy before task later w)
  unfolding run_task sends
  run_task-Served env policy before (log_in name creds) later w h i = record {
    queued = i.queued;
    spawned = All-append _ before _ (All-left _ before (log_in name creds ∷ later) h) (
      run_log_in-served env policy name creds w.session w.cache,
      (All-right _ before (log_in name creds ∷ later) h).1,
    );
  }
  run_task-Served env policy before (send msg) later w h i = i
  run_task-Served env policy before task later w h i = record {
    queued = i.queued;
    spawned = All-append _ before _ (All-left _ before (task ∷ later) h) (
        All-append _ (sends (task_message env task)) later (sends-served env task)
          (All-right _ before (task ∷ later) h).1);
  }

module _ {User : Type 0} (env : Env User) (config : Config) where
  upgraded-Served :
      (w : World User) (answer : Option (Option (List Bytes)))
      → Served config.tls_configured w
      → Served config.tls_configured (upgraded env config w answer)
  unfolding upgraded
  upgraded-Served w none i = record { queued = i.queued; spawned = i.spawned }
  upgraded-Served w (some none) i =
      settle-Served config.tls_configured w _ i (event_chain-IsServed env config _ w.session)
  upgraded-Served w (some (some certs)) i =
      settle-Served config.tls_configured _ _ (record { queued = i.queued; spawned = i.spawned })
        (event_chain-IsServed env config _ _)

  on_internal_msg-Served :
      (msg : ControlChanMsg) (w : World User)
      → Served config.tls_configured w
      → Served config.tls_configured (on_internal_msg env config msg w)
  unfolding on_internal_msg
  on_internal_msg-Served exit_control_loop w i = record { queued = i.queued; spawned = i.spawned }
  on_internal_msg-Served secure_control_channel w i =
      Served-if config.tls_configured config.tls_configured (upgraded-Served w env.accept_tls i)
        (record { queued = i.queued; spawned = i.spawned })
  on_internal_msg-Served msg w i =
      settle-Served config.tls_configured w _ i (event_chain-IsServed env config _ w.session)

module _ {User : Type 0} (config : Config) (policy : Option FailedLoginsPolicy) where
  abbrev IsTaskServed : Task User → Type 0
  IsTaskServed t = task_served config.tls_configured t ≡ true

  Step-Served :
      {w w' : World User}
      → Step config policy w w'
      → Served config.tls_configured w
      → Served config.tls_configured w'
  unfolding on_command on_error on_timeout
  Step-Served (take_command env c w e) i =
      settle-Served config.tls_configured w _ i (event_chain-IsServed env config (command c) _)
  Step-Served (bad_line kind w e) i = error_replied-Served config.tls_configured w _ i
  Step-Served (take_message env msg rest w e q) i =
      on_internal_msg-Served env config msg (record w { queue = rest })
        (record {
          queued = (subst (All (λ m. msg_served config.tls_configured m ≡ true)) q i.queued).1;
          spawned = i.spawned;
        })
  Step-Served (hang_up env w e) i = on_internal_msg-Served env config exit_control_loop w i
  Step-Served (time_out w e) i =
      Served-if config.tls_configured w.session.data_busy i
        (error_replied-Served config.tls_configured w _ i)
  Step-Served (deliver msg before later w e q) i =
      deliver-Served config.tls_configured msg before later w (subst (All IsTaskServed) e i.spawned)
  Step-Served (run env before t later w e) i =
      run_task-Served config.tls_configured env policy before t later w
        (subst (All IsTaskServed) e i.spawned) i
  Step-Served (data_message msg w k q) i = record {
    queued = (data_msg_served config.tls_configured msg k, tt);
    spawned = i.spawned;
  }
  Step-Served (data_loop busy rx abort_rx w) i = record { queued = i.queued; spawned = i.spawned }

  pub Reach-Served :
      {w w' : World User}
      → Reach config policy w w'
      → Served config.tls_configured w
      → Served config.tls_configured w'
  Reach-Served here i = i
  Reach-Served (next r s) i = Step-Served s (Reach-Served r i)
