-- ===== src/Server/Loop/Invariant.antt =====
-- The invariant of a connection: its session is sound, and what is on its way to the control loop
-- relies on nothing that the session does not have.
use libunftp.Prelude.{
  Bytes, ◌≡◌, Bool, true, false, Option, none, some, List, if◌then◌else◌, arith, refl, All,
  All-append, All-map,
}
use libunftp.FailedLogins.{FailedLoginsPolicy, Cache}
use libunftp.ControlError.{ControlChanErrorKind}
use libunftp.Reply.{Reply}
use libunftp.Server.Loop
use libunftp.Server.Options.{FtpsRequired}
use libunftp.Server.Session.{Session}
use libunftp.Server.Messages.{
  ControlChanMsg, Event, internal_msg, exit_control_loop, secure_control_channel,
}
use libunftp.Server.Handled.{Config, Credentials, Env, Task, log_in, send, Handled, Outcome}
use libunftp.Server.Middleware.{event_chain}
use libunftp.Server.Middleware.Keeping.{event_chain-IsGood, IsFit}
use libunftp.Server.Sound.{IsSound, IsGood, Grows, msg_ok, task_ok}
use libunftp.Server.Commands.Keeping.{Grows-refl}
use libunftp.Server.Loop.{
  World, Step, take_command, bad_line, take_message, hang_up, time_out, deliver, run, data_message,
  data_loop, Reach, here, next, connected, settle, settle_outcome, settle_done, fits, on_command,
  on_internal_msg, upgraded, on_error, error_replied, on_timeout, run_task, IsDataMsg,
}
use libunftp.Server.Tasks.{run_log_in, log_in_entered, log_in_unlocked, log_in_result}

pub record Inv {User : Type 0} (required : FtpsRequired) (w : World User) : Type 0 where
  pub sound : IsSound required w.session
  pub queued : All (λ m. msg_ok required w.session m ≡ true) w.queue
  pub spawned : All (λ t. task_ok required w.session t ≡ true) w.tasks

module _ {User : Type 0} (required : FtpsRequired) where
  pub msg_ok_mono :
      (s s' : Session User)
      → Grows s s'
      → (msg : ControlChanMsg) → msg_ok required s msg ≡ true
      → msg_ok required s' msg ≡ true
  msg_ok_mono s s' g msg h = ground (arith, g.user, g.username, g.tls)

  pub task_ok_mono :
      (s s' : Session User)
      → Grows s s'
      → (task : Task User) → task_ok required s task ≡ true
      → task_ok required s' task ≡ true
  task_ok_mono s s' g (send msg) h = msg_ok_mono s s' g msg h
  task_ok_mono s s' g task h = ground (arith, g.username, g.tls)

  -- What a session with another soundness must offer for the rest of the connection to stay.
  pub Inv-session :
      (w : World User) (s : Session User)
      → Inv required w
      → IsSound required s
      → Grows w.session s
      → Inv required (record w { session = s })
  Inv-session w s i h g = record {
    sound = h;
    queued = All-map (msg_ok_mono w.session s g) w.queue i.queued;
    spawned = All-map (task_ok_mono w.session s g) w.tasks i.spawned;
  }

  settle_outcome-Inv :
      (w : World User) (h : Handled User) (o : Outcome)
      → Inv required w
      → IsGood required w.session h
      → Inv required (settle_outcome w h o)
  unfolding settle_outcome settle_done
  settle_outcome-Inv w h (Outcome.done r) i g = record {
    sound = g.sound;
    queued =
        All-append _ w.queue h.sent
          (All-map (msg_ok_mono w.session h.session g.grows) w.queue i.queued) g.sent;
    spawned =
        All-append _ w.tasks h.tasks
          (All-map (task_ok_mono w.session h.session g.grows) w.tasks i.spawned) g.tasks;
  }
  settle_outcome-Inv w h (Outcome.failed kind) i g = record {
    sound = i.sound;
    queued = i.queued;
    spawned = i.spawned;
  }
  settle_outcome-Inv w h Outcome.panicked i g = record {
    sound = i.sound;
    queued = i.queued;
    spawned = i.spawned;
  }

  Inv-if :
      (b : Bool) {x y : World User}
      → Inv required x
      → Inv required y
      → Inv required (if b then x else y)
  Inv-if true h k = h
  Inv-if false h k = k

  settle-Inv :
      (w : World User) (h : Handled User)
      → Inv required w
      → IsGood required w.session h
      → Inv required (settle w h)
  unfolding settle
  settle-Inv w h i g =
      Inv-if (fits w.queue h.sent) (settle_outcome-Inv w h h.outcome i g)
        (record { sound = i.sound; queued = i.queued; spawned = i.spawned })

  pub data_msg_ok :
      (s : Session User) (msg : ControlChanMsg) → IsDataMsg msg → msg_ok required s msg ≡ true
  data_msg_ok s msg h = ground arith

  Inv-closed : (w : World User) → Inv required w → Inv required (record w { status = Loop.closed })
  Inv-closed w i = record { sound = i.sound; queued = i.queued; spawned = i.spawned }

  error_replied-Inv :
      (w : World User) (answer : Reply × Bool)
      → Inv required w
      → Inv required (error_replied w answer)
  unfolding error_replied
  error_replied-Inv w (r, true) i = record {
    sound = i.sound;
    queued = i.queued;
    spawned = i.spawned;
  }
  error_replied-Inv w (r, false) i = record {
    sound = i.sound;
    queued = i.queued;
    spawned = i.spawned;
  }

  pub on_error-Inv :
      (kind : ControlChanErrorKind) (w : World User)
      → Inv required w
      → Inv required (on_error kind w)
  unfolding on_error
  on_error-Inv kind w i = error_replied-Inv w _ i

  pub on_timeout-Inv : (w : World User) → Inv required w → Inv required (on_timeout w)
  unfolding on_timeout
  on_timeout-Inv w i = Inv-if w.session.data_busy i (on_error-Inv _ w i)

  -- A session with the fields that soundness is about is as sound.
  relabelled-IsSound :
      (s : Session User) (certs : List Bytes)
      → IsSound required s
      → IsSound required (record s { cert_chain = some certs })
  relabelled-IsSound s certs h = record { rooted = h.rooted; known = h.known; secured = h.secured }

  -- What the task of PASS leaves: the user it found, and a message that the session bears out.
  pub run_log_in-good :
      (env : Env User) (policy : Option FailedLoginsPolicy) (name : Bytes) (creds : Credentials)
      (s : Session User) (cache : Cache)
      → task_ok required s (log_in name creds) ≡ true
      → IsSound required s
      → IsSound required (run_log_in env policy name creds s cache).session
        × (Grows s (run_log_in env policy name creds s cache).session
            × msg_ok required
                (run_log_in env policy name creds s cache).session
                (run_log_in env policy name creds s cache).msg
              ≡ true)
  unfolding run_log_in log_in_result log_in_unlocked log_in_entered
  run_log_in-good env policy name creds s cache k h = ground arith

module _ {User : Type 0} (env : Env User) (config : Config) where
  abbrev required : FtpsRequired
  required = config.ftps_required_control_chan

  pub event-Inv :
      (event : Event) (w : World User)
      → Inv required w
      → IsFit required event w.session
      → Inv required (settle w (event_chain env config event w.session))
  event-Inv event w i k =
      settle-Inv required w _ i (event_chain-IsGood env config event w.session i.sound k)

  upgraded-Inv :
      (w : World User) (answer : Option (Option (List Bytes)))
      → Inv required w
      → Inv required (upgraded env config w answer)
  unfolding upgraded
  upgraded-Inv w none i = record { sound = i.sound; queued = i.queued; spawned = i.spawned }
  upgraded-Inv w (some none) i = event-Inv (internal_msg secure_control_channel) w i refl
  upgraded-Inv w (some (some certs)) i =
      event-Inv (internal_msg secure_control_channel)
        (record w { session = record w.session { cert_chain = some certs } })
        (Inv-session required w _ i (relabelled-IsSound required w.session certs i.sound) (
          let g = Grows-refl w.session in
          record { user = g.user; username = g.username; tls = g.tls }))
        refl

  pub on_internal_msg-Inv :
      (msg : ControlChanMsg) (w : World User)
      → Inv required w
      → msg_ok required w.session msg ≡ true
      → Inv required (on_internal_msg env config msg w)
  unfolding on_internal_msg
  on_internal_msg-Inv exit_control_loop w i k =
      let g =
        event_chain-IsGood env config (internal_msg exit_control_loop) w.session i.sound refl in
      Inv-closed required _ (Inv-session required w _ i g.sound g.grows)
  on_internal_msg-Inv secure_control_channel w i k =
      Inv-if required config.tls_configured (upgraded-Inv w env.accept_tls i)
        (record { sound = i.sound; queued = i.queued; spawned = i.spawned })
  on_internal_msg-Inv msg w i k = event-Inv (internal_msg msg) w i k
