-- ===== src/Server/Loop/Steps.antt =====
-- Every step of a connection keeps its invariant.
use mathlib.Core.Path.{subst}
use libunftp.Prelude.{
  ◌≡◌, ◌++◌, true, Option, List, [], ◌∷◌, arith, refl, All, All-append, All-left, All-right,
  All-map,
}
use libunftp.FailedLogins.{FailedLoginsPolicy}
use libunftp.Server.Messages.{ControlChanMsg, command, exit_control_loop}
use libunftp.Server.Handled.{Config, Env, Task, log_in, send}
use libunftp.Server.Sound.{msg_ok, task_ok}
use libunftp.Server.Commands.Keeping.{Grows-refl}
use libunftp.Server.Loop.{
  World, Step, take_command, bad_line, take_message, hang_up, time_out, deliver, run, data_message,
  data_loop, Reach, here, next, on_command, run_task,
}
use libunftp.Server.Tasks.{task_message, sends}
use libunftp.Server.Loop.Invariant.{
  Inv, msg_ok_mono, task_ok_mono, Inv-session, run_log_in-good, on_error-Inv, on_timeout-Inv,
  data_msg_ok, event-Inv, on_internal_msg-Inv,
}

module _ {User : Type 0} (config : Config) (policy : Option FailedLoginsPolicy) where
  abbrev Kept : World User → Type 0
  Kept w = Inv config.ftps_required_control_chan w

  abbrev IsTaskOk : World User → Task User → Type 0
  IsTaskOk w task = task_ok config.ftps_required_control_chan w.session task ≡ true

  deliver-Inv :
      (msg : ControlChanMsg) (before later : List (Task User)) (w : World User)
      → All (IsTaskOk w) (before ++ send msg ∷ later)
      → Kept w
      → Kept (record w { queue = msg ∷ []; tasks = before ++ later })
  deliver-Inv msg before later w h i = record {
    sound = i.sound;
    queued = ((All-right _ before (send msg ∷ later) h).0, tt);
    spawned =
        All-append _ before later (All-left _ before (send msg ∷ later) h)
          (All-right _ before (send msg ∷ later) h).1;
  }

  -- The message of another task needs nothing of the session.
  sends-ok :
      (env : Env User) (task : Task User) (w : World User)
      → All (IsTaskOk w) (sends (task_message env task))
  unfolding task_message sends
  sends-ok env task w = ground arith

  run_task-Inv :
      (env : Env User) (before : List (Task User)) (task : Task User) (later : List (Task User))
      (w : World User)
      → All (IsTaskOk w) (before ++ task ∷ later)
      → Kept w
      → Kept (run_task env policy before task later w)
  unfolding run_task sends
  run_task-Inv env before (log_in name creds) later w h i =
      let k =
        run_log_in-good _ env policy name creds w.session w.cache
          (All-right _ before (log_in name creds ∷ later) h).0 i.sound in
      let mono = task_ok_mono config.ftps_required_control_chan w.session _ k.1.0 in
      record {
        sound = k.0;
        queued = All-map (msg_ok_mono _ w.session _ k.1.0) w.queue i.queued;
        spawned =
            All-append _ before _
              (All-map mono before (All-left _ before (log_in name creds ∷ later) h))
              (k.1.1, All-map mono later (All-right _ before (log_in name creds ∷ later) h).1);
      }
  run_task-Inv env before (send msg) later w h i = i
  run_task-Inv env before task later w h i = record {
    sound = i.sound;
    queued = i.queued;
    spawned = All-append _ before _ (All-left _ before (task ∷ later) h) (
        All-append _ (sends (task_message env task)) later (sends-ok env task w)
          (All-right _ before (task ∷ later) h).1);
  }

  pub Step-Inv : {w w' : World User} → Step config policy w w' → Kept w → Kept w'
  unfolding on_command
  Step-Inv (take_command env c w e) i = event-Inv env config (command c) w i tt
  Step-Inv (bad_line kind w e) i = on_error-Inv _ kind w i
  Step-Inv (take_message env msg rest w e q) i =
      let h =
        subst (All (λ m. msg_ok config.ftps_required_control_chan w.session m ≡ true)) q i.queued in
      on_internal_msg-Inv env config msg (record w { queue = rest })
        (record { sound = i.sound; queued = h.1; spawned = i.spawned }) h.0
  Step-Inv (hang_up env w e) i = on_internal_msg-Inv env config exit_control_loop w i refl
  Step-Inv (time_out w e) i = on_timeout-Inv _ w i
  Step-Inv (deliver msg before later w e q) i =
      deliver-Inv msg before later w (subst (All (IsTaskOk w)) e i.spawned) i
  Step-Inv (run env before t later w e) i =
      run_task-Inv env before t later w (subst (All (IsTaskOk w)) e i.spawned) i
  Step-Inv (data_message msg w k q) i = record {
    sound = i.sound;
    queued = (data_msg_ok _ w.session msg k, tt);
    spawned = i.spawned;
  }
  Step-Inv (data_loop busy rx abort_rx w) i =
      let h = i.sound in
      let g = Grows-refl w.session in
      Inv-session _ w _ i (record { rooted = h.rooted; known = h.known; secured = h.secured })
        (record { user = g.user; username = g.username; tls = g.tls })

  pub Reach-Inv : {w w' : World User} → Reach config policy w w' → Kept w → Kept w'
  Reach-Inv here i = i
  Reach-Inv (next r s) i = Step-Inv s (Reach-Inv r i)
