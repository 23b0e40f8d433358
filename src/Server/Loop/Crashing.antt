-- ===== src/Server/Loop/Crashing.antt =====
-- When a connection crashes: no step of it panics but a PORT without a whole address and a PASV
-- without a port.
use mathlib.Core.Path.{subst}
use mathlib.Core.Bool.{true≢false, false≢true}
use libunftp.Prelude.{
  ℕ, Bytes, ◌≡◌, ◌≢◌, Bool, true, false, Option, none, some, List, arith, refl, sym, ap, ◌∙◌, All,
  if◌then◌else◌,
}
use libunftp.FailedLogins.{FailedLoginsPolicy, Cache}
use libunftp.Reply.{Reply}
use libunftp.Server.Messages.{ControlChanMsg, exit_control_loop, secure_control_channel}
use libunftp.Server.Handled.{Config, Env, Task, log_in, Handled, Outcome}
use libunftp.Server.Middleware.Upgrading.{internal-no_panic}
use libunftp.Server.Middleware.NoPanic.{is_panicked, IsProvided, event_chain-no_panic}
use libunftp.Server.Sound.{IsSound}
use libunftp.Server.Commands.Upgrading.{msg_served}
use libunftp.Server.Loop.Safety.{Reach-IsSound}
use libunftp.Server.Loop.Serving.{Served, Reach-Served}
use libunftp.Server.Loop.{
  World, Status, crashed, Step, take_command, bad_line, take_message, hang_up, time_out, deliver,
  run, data_message, data_loop, Reach, here, next, connected, settle, settle_outcome, settle_done,
  fits, on_command, on_internal_msg, upgraded, on_error, error_replied, on_timeout, run_task,
}

abbrev is_crashed : Status → Bool
is_crashed crashed = true
is_crashed _ = false

module _ {User : Type 0} where
  abbrev Runs : World User → Type 0
  Runs w = is_crashed w.status ≡ false

  settle_outcome-Runs :
      (w : World User) (h : Handled User) (o : Outcome)
      → Runs w
      → is_panicked o ≡ false
      → Runs (settle_outcome w h o)
  unfolding settle_outcome settle_done
  settle_outcome-Runs w h o i n = ground arith

  Runs-if : (b : Bool) (x y : World User) → Runs x → Runs y → Runs (if b then x else y)
  Runs-if true x y h k = h
  Runs-if false x y h k = k

  Runs-then : (b : Bool) (x y : World User) → b ≡ true → Runs x → Runs (if b then x else y)
  Runs-then true x y e h = h
  Runs-then false x y e h = absurd (false≢true e)

  settle-Runs :
      (w : World User) (h : Handled User)
      → Runs w
      → is_panicked h.outcome ≡ false
      → Runs (settle w h)
  unfolding settle
  settle-Runs w h i n =
      Runs-if (fits w.queue h.sent) _ _ (settle_outcome-Runs w h h.outcome i n) refl

  error_replied-Runs :
      (w : World User) (answer : Reply × Bool) → Runs w → Runs (error_replied w answer)
  unfolding error_replied
  error_replied-Runs w (r, true) i = refl
  error_replied-Runs w (r, false) i = i

  run_task-Runs :
      (env : Env User) (policy : Option FailedLoginsPolicy) (before : List (Task User))
      (t : Task User) (later : List (Task User)) (w : World User)
      → Runs w
      → Runs (run_task env policy before t later w)
  unfolding run_task
  run_task-Runs env policy before (log_in name creds) later w i = i
  run_task-Runs env policy before t later w i = i

module _ {User : Type 0} (env : Env User) (config : Config) where
  upgraded-Runs :
      (w : World User) (answer : Option (Option (List Bytes)))
      → Runs w
      → Runs (upgraded env config w answer)
  unfolding upgraded
  upgraded-Runs w none i = refl
  upgraded-Runs w (some none) i = settle-Runs w _ i (internal-no_panic env config _ w.session)
  upgraded-Runs w (some (some certs)) i =
      settle-Runs _ _ i (internal-no_panic env config secure_control_channel _)

  on_internal_msg-Runs :
      (msg : ControlChanMsg) (w : World User)
      → Runs w
      → msg_served config.tls_configured msg ≡ true
      → Runs (on_internal_msg env config msg w)
  unfolding on_internal_msg
  on_internal_msg-Runs exit_control_loop w i k = refl
  on_internal_msg-Runs secure_control_channel w i k =
      Runs-then config.tls_configured _ _ k (upgraded-Runs w env.accept_tls i)
  on_internal_msg-Runs msg w i k = settle-Runs w _ i (internal-no_panic env config msg w.session)

module _ {User : Type 0} (config : Config) (policy : Option FailedLoginsPolicy) where
  abbrev pub IsServed : {w w' : World User} → Step config policy w w' → Type 0
  IsServed (take_command env c w e) = IsProvided env config c
  IsServed _ = Unit

  -- Every PORT of the connection names six numbers at least, and every PASV finds a port.
  abbrev pub AreServed : {w w' : World User} → Reach config policy w w' → Type 0
  AreServed here = Unit
  AreServed (next r s) = AreServed r × IsServed s

  Step-Runs :
      {w w' : World User} (s : Step config policy w w')
      → IsServed s
      → IsSound config.ftps_required_control_chan w.session
      → Served config.tls_configured w
      → Runs w
      → Runs w'
  unfolding on_command on_error on_timeout
  Step-Runs (take_command env c w e) a h k i =
      settle-Runs w _ i (event_chain-no_panic env config c w.session h a)
  Step-Runs (bad_line kind w e) a h k i = error_replied-Runs w _ i
  Step-Runs (take_message env msg rest w e q) a h k i =
      on_internal_msg-Runs env config msg (record w { queue = rest }) i
        (subst (All (λ m. msg_served config.tls_configured m ≡ true)) q k.queued).0
  Step-Runs (hang_up env w e) a h k i = on_internal_msg-Runs env config exit_control_loop w i refl
  Step-Runs (time_out w e) a h k i = Runs-if w.session.data_busy _ _ i (error_replied-Runs w _ i)
  Step-Runs (deliver msg before later w e q) a h k i = i
  Step-Runs (run env before t later w e) a h k i = run_task-Runs env policy before t later w i
  Step-Runs (data_message msg w d q) a h k i = i
  Step-Runs (data_loop busy rx abort_rx w) a h k i = i

  module _ (source_ip : ℕ) (cache : Cache) where
    abbrev begins : World User
    begins = connected config source_ip cache

    Reach-Runs : (w : World User) (r : Reach config policy begins w) → AreServed r → Runs w
    Reach-Runs w here a = refl
    Reach-Runs w (next {u = u} r s) a =
        Step-Runs s a.1 (Reach-IsSound config policy source_ip cache u r)
          (Reach-Served config policy r (record { queued = tt; spawned = tt })) (Reach-Runs u r a.0)

    -- No handler and no task of a connection makes its control loop panic, in whatever order commands,
    -- messages, tasks, errors and time-outs come, if each PORT of the client has six numbers at least
    -- and the environment and the configuration serve each PASV. In the proxy mode that is a proxy loop
    -- which takes messages. Otherwise a bound socket can listen, and, where the session has no binder,
    -- the passive ports are in order, fewer than 2^16, and the system gives random bytes. The encoding
    -- of the replies is no part of the connection here.
    pub Reach-no_crash :
        (w : World User) (r : Reach config policy begins w) → AreServed r → w.status ≢ crashed
    Reach-no_crash w r a e = true≢false (sym (ap is_crashed e) ∙ Reach-Runs w r a)
