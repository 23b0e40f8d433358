-- ===== src/Server/Tests/Connections.antt =====
-- Connections that reach a state, by hand.
use libunftp.Prelude.{ℕ, ◌≡◌, ◌≢◌, none, some, [], ◌∷◌, text, refl, bytes_eq, arith}
use mathlib.Core.Bool.{false≢true}
use libunftp.Command.{Command}
use libunftp.Server.Middleware.NoPanic.{FindsPort}
use libunftp.FailedLogins.{
  FailedLoginsPolicy, FailedLoginsKey, FailedLoginsEntry, user_and_ip, Cache,
}
use libunftp.FailedLogins.View.{view}
use libunftp.FailedLogins.Lockout.{after_failures}
use libunftp.Server.Options.{FtpsRequired}
use libunftp.Server.Messages.{auth_failed, cwd_success}
use libunftp.Server.Sound.{IsSound}
use libunftp.Server.Loop.{World, stuck, crashed, Reach, next, take_command, on_command, connected}
use libunftp.Server.Tasks.{run_log_in}
use libunftp.Server.Loop.Safety.{Reach-IsSound}
use libunftp.Server.Loop.Room.{on_command-cwd-stuck}
use libunftp.Server.Loop.LogIn
use libunftp.Server.Loop.Crashing.{AreServed, Reach-no_crash}
use libunftp.Server.Commands.Transfer.{port_numbers, socket_of}
use libunftp.Std.FilePath.{split_on}
use libunftp.Std.Decimal.{parse_uint}
use libunftp.Server.Loop.LogIn.{begun, connected-logged_in}
use libunftp.Std.Utf8.{from_utf8}
use libunftp.Server.Loop.Lockout.{run_log_in-locked}
use libunftp.Server.Tests.{
  env, plain, bob_creds, named, logged_in, logged_in-Reach, accepted-Reach, serving,
}

Reach-IsSound_example : IsSound FtpsRequired.none logged_in.session
Reach-IsSound_example = Reach-IsSound plain none 9 [] logged_in logged_in-Reach

-- While `bob` changes the directory, the message of a task arrives.
abbrev busy : World ℕ
busy = record logged_in { queue = cwd_success ∷ [] }

on_command-cwd-stuck_example : (on_command env plain (Command.cwd (text "a")) busy).status ≡ stuck
unfolding serving
on_command-cwd-stuck_example =
    on_command-cwd-stuck env plain (text "a") busy 7 cwd_success refl refl refl

abbrev policy : FailedLoginsPolicy
policy = record { max_attempts = 2; expires_after = 60; block_by = user_and_ip }

run_log_in-locked_example :
    let r =
      run_log_in env
        (some policy)
        (text "bob")
        bob_creds
        named.session
        (after_failures policy 9 (text "bob") (1 ∷ 4 ∷ []) []) in
    (r.msg ≡ auth_failed) × (r.session ≡ named.session)
unfolding text bytes_eq libunftp.FailedLogins.View.view libunftp.FailedLogins.get
run_log_in-locked_example =
    run_log_in-locked env policy (text "bob") bob_creds 7 named.session 1 (4 ∷ []) [] refl refl
      (omega arith, tt) (omega arith) (omega arith) (omega arith)

bob_text : from_utf8 (text "bob") ≡ some (text "bob")
unfolding serving
bob_text = refl

secret_text : from_utf8 (text "secret") ≡ some (text "secret")
unfolding serving
secret_text = refl

connected-logged_in_example :
    Reach plain none
      (begun env plain refl 9 (text "bob") (text "secret") 7 bob_text secret_text)
      (LogIn.logged_in env plain refl 9 (text "bob") (text "secret") 7 bob_text secret_text)
unfolding serving
connected-logged_in_example =
    connected-logged_in env plain refl 9 (text "bob") (text "secret") 7 bob_text secret_text refl
      refl refl

-- `bob`, who has logged in, asks for a data connection to an address of his, and then for a port.
abbrev port : Command
port = Command.port (text "10,0,0,9,4,1")

abbrev asked_twice : World ℕ
asked_twice = on_command env plain Command.pasv (on_command env plain port logged_in)

port-Reach : Reach plain none (connected plain 9 []) asked_twice
unfolding serving port_numbers socket_of split_on parse_uint text
    libunftp.Server.Commands.Transfer.port
port-Reach =
    next (next logged_in-Reach (take_command env port logged_in refl))
      (take_command env Command.pasv (on_command env plain port logged_in) refl)

plain-FindsPort : FindsPort env plain
plain-FindsPort = record {
  listens = λ port e. cc;
  ordered = λ e. omega arith;
  below = λ e. omega arith;
  partial = λ e. omega arith;
  random = λ e i. refl;
}

port-AreServed : AreServed plain none port-Reach
unfolding port-Reach logged_in-Reach accepted-Reach port_numbers socket_of split_on parse_uint text
port-AreServed =
    (((((((tt, tt), tt), tt), tt), tt), refl), (λ e. absurd (false≢true e), λ e. plain-FindsPort))

Reach-no_crash_example : asked_twice.status ≢ crashed
Reach-no_crash_example = Reach-no_crash plain none 9 [] asked_twice port-Reach port-AreServed
