-- ===== src/Server/Tests/Transfers.antt =====
-- Data connections of a session that is ready for one.
use libunftp.Prelude.{ℕ, ◌≡◌, ◌≢◌, refl, true, false, Option, none, some, [], ◌∷◌, text}
use libunftp.Prelude.Result.{ok, err}
use libunftp.Server.Session.{Session, start}
use libunftp.Server.Messages.{DataChanCmd}
use libunftp.Storage.{broken_pipe, from_io}
use libunftp.Server.DataChan.{
  client_interrupted, DataEnv, Finish, finished, external_command, DataCommandExecutor, spawned,
  execute, categorize_and_register_error, spawn_processing,
}
use libunftp.Server.DataChan.Transfers.{EndsWell, execute-EndsWell}
use libunftp.Server.DataChan.Spawning.{IsTaken, spawned-once}

-- A storage of three bytes, and a client that reads them, or that has gone away.
abbrev data_env : DataEnv ℕ
data_env = record {
  accept_tls = true;
  get_into = λ u p start_pos. ok 3;
  put = λ u p start_pos. ok 3;
  list_fmt = λ u p. ok (text "abc");
  nlst = λ u p. ok (text "abc");
  copy = λ names. ok 3;
}

abbrev gone : DataEnv ℕ
gone = record data_env { copy = λ names. err (record { kind = broken_pipe; raw_os_error = none }) }

abbrev ready : Session ℕ
ready = record (start 9 true) {
  user = some 7;
  data_cmd_rx = some 1;
  data_abort_rx = some 2;
  data_tls = true;
}

abbrev executor : DataCommandExecutor ℕ
executor = record {
  user = some 7;
  cwd = b'/' ∷ [];
  ftps_mode = true;
  data_cmd_rx = 1;
  data_abort_rx = 2;
}

abbrev busy : Session ℕ
busy = record ready { data_cmd_rx = none; data_abort_rx = none; data_busy = true }

spawned-once_example :
    IsTaken 9 ready (spawned executor busy)
    × ((other sender : Option ℕ) (x : DataCommandExecutor ℕ) (v : Session ℕ)
        → spawn_processing other sender busy ≢ spawned x v)
unfolding spawn_processing
spawned-once_example = spawned-once 9 (some 5) ready busy executor refl

execute-EndsWell_example :
    EndsWell data_env 7
      (b'/' ∷ [])
      0
      (DataChanCmd.retr (text "a"))
      (execute data_env executor (external_command (DataChanCmd.retr (text "a"))) busy).0
    × ((execute data_env executor (external_command (DataChanCmd.retr (text "a"))) busy).1.data_busy
        ≡ false)
execute-EndsWell_example =
    execute-EndsWell data_env 7 executor (DataChanCmd.retr (text "a")) busy (refl, λ e. refl)

-- The client of a listing goes away: the control loop is told nothing.
execute-gone :
    (execute gone executor (external_command (DataChanCmd.nlst none)) busy).0
    ≡ finished [] (client_interrupted ∷ [])
unfolding execute categorize_and_register_error from_io
execute-gone = refl

-- The handshake of a data connection fails: the task panics, and the session stays busy.
execute_untrusted :
    execute
      (record data_env { accept_tls = false })
      executor
      (external_command (DataChanCmd.nlst none))
      busy
    ≡ (Finish.panicked, busy)
unfolding execute
execute_untrusted = refl
