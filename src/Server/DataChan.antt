-- ===== src/Server/DataChan.antt =====
-- src/server/datachan.rs: the task of a data connection, from the connection to the message that ends
-- it. The storage back-end and the sockets answer from the environment; logs and the times in them
-- are left out, and of the metrics the counted status of a transfer is kept.
pub mod Transfers
pub mod Spawning
use libunftp.Prelude.{
  ℕ, Bytes, Bool, true, false, ◌&&◌, Option, none, some, List, [], ◌∷◌, text, ◌==◌, if◌then◌else◌,
  bytes_eq,
}
use libunftp.Prelude.Result.{Result, ok, err}
use libunftp.Std.FilePath.{FilePath, join}
use libunftp.Storage.{
  IoErrorKind, broken_pipe, connection_reset, connection_aborted, IoError, Error, from_io,
}
use libunftp.Server.Session.{Session}
use libunftp.Server.Messages.{
  ErrorKind, transient_file_not_available, permanent_file_not_available,
  permanent_directory_not_available, permission_refused, connection_closed, local_error,
  DataChanCmd, ControlChanMsg, sent_data, written_data, directory_successfully_listed,
  storage_error,
}

-- What a transfer meets. Reading the listing and writing it to the client is one copy.
pub record DataEnv (User : Type 0) : Type 0 where
  pub accept_tls : Bool
  pub get_into : User → FilePath → (start_pos : ℕ) → Result Error ℕ
  pub put : User → FilePath → (start_pos : ℕ) → Result Error ℕ
  pub list_fmt : User → FilePath → Result Error Bytes
  pub nlst : User → FilePath → Result IoErrorKind Bytes
  pub copy : Bytes → Result IoError ℕ

pub data ListCommand : Type 0 where
  list nlst : ListCommand

pub data TransferCommand : Type 0 where
  retr stor : TransferCommand
  listing : ListCommand → TransferCommand

pub data Status : Type 0 where
  success client_error server_error permission_error client_interrupted : Status
  network_error unknown_error : Status

-- The end of a task: what it sends to the control loop and what it counts. A panic ends it, too.
pub data Finish : Type 0 where
  finished : List ControlChanMsg → List Status → Finish
  panicked : Finish

-- `DataChanMsg`, or the end of the time that the task waits for one.
pub data Incoming : Type 0 where
  external_command : DataChanCmd → Incoming
  abort timeout : Incoming

pub record DataCommandExecutor (User : Type 0) : Type 0 where
  pub user : Option User
  pub cwd : FilePath
  pub ftps_mode : Bool
  pub data_cmd_rx : ℕ
  pub data_abort_rx : ℕ

abbrev pub is_retr : TransferCommand → Bool
is_retr retr = true
is_retr _ = false

-- `categorize_and_register_error`.
closed_status : TransferCommand → Option IoErrorKind → List Status
closed_status command none = []
closed_status command (some connection_reset) = client_interrupted ∷ []
closed_status command (some broken_pipe) = if is_retr command then [] else client_interrupted ∷ []
closed_status command (some connection_aborted) = network_error ∷ []
closed_status command (some _) = server_error ∷ []

unfoldable pub categorize_and_register_error : TransferCommand → Error → List Status
unfolding closed_status
categorize_and_register_error command e = elim e.kind [
  | permanent_file_not_available ↦ client_error ∷ []
  | transient_file_not_available ↦ server_error ∷ []
  | local_error ↦ server_error ∷ []
  | permission_refused ↦ permission_error ∷ []
  | connection_closed ↦ closed_status command e.io
  | _ ↦ unknown_error ∷ []
]

-- Only the transfer of a whole file is counted.
whole_file : ℕ → List Status → List Status
whole_file start_pos statuses = if start_pos == 0 then statuses else []

module _ {User : Type 0} (env : DataEnv User) where
  -- `unwrap` of the user.
  with_user : Option User → (User → Finish) → Finish
  with_user none transfer = panicked
  with_user (some user) transfer = transfer user

  -- `writer` and `reader`: the `unwrap` of a failed handshake panics.
  secured : (ftps_mode accept_tls : Bool) → Finish → Finish
  secured true true rest = rest
  secured true false rest = panicked
  secured false accept_tls rest = rest

  connected : DataCommandExecutor User → (User → Finish) → Finish
  unfolding with_user secured
  connected self transfer = secured self.ftps_mode env.accept_tls (with_user self.user transfer)

  retr_result : Bytes → ℕ → Result Error ℕ → Finish
  unfolding whole_file
  retr_result path start_pos (ok bytes) =
      finished (sent_data path bytes ∷ []) (whole_file start_pos (success ∷ []))
  retr_result path start_pos (err e) =
      finished (storage_error e.kind ∷ [])
        (whole_file start_pos (categorize_and_register_error retr e))

  exec_retr : DataCommandExecutor User → Bytes → ℕ → Finish
  unfolding connected retr_result
  exec_retr self path start_pos =
      connected self
        λ user. retr_result path start_pos (env.get_into user (join self.cwd path) start_pos)

  stor_result : Bytes → ℕ → Result Error ℕ → Finish
  unfolding whole_file
  stor_result path start_pos (ok bytes) =
      finished (written_data path bytes ∷ []) (whole_file start_pos (success ∷ []))
  stor_result path start_pos (err e) =
      finished (storage_error e.kind ∷ [])
        (whole_file start_pos (categorize_and_register_error stor e))

  exec_stor : DataCommandExecutor User → Bytes → ℕ → Finish
  unfolding connected stor_result
  exec_stor self path start_pos =
      connected self
        λ user. stor_result path start_pos (env.put user (join self.cwd path) start_pos)

  unfoldable pub resolve_path : FilePath → Option Bytes → FilePath
  resolve_path cwd none = cwd
  resolve_path cwd (some path) = if bytes_eq path (text ".") then cwd else join cwd path

  -- Any error of `nlst` is that of a directory which is not there.
  nlst_error : Result IoErrorKind Bytes → Result Error Bytes
  nlst_error (ok names) = ok names
  nlst_error (err io) = err (record { kind = permanent_directory_not_available; io = some io })

  listed : User → FilePath → ListCommand → Result Error Bytes
  unfolding nlst_error
  listed user path ListCommand.list = env.list_fmt user path
  listed user path ListCommand.nlst = nlst_error (env.nlst user path)

  -- A copy that fails is counted, and the control loop is told nothing.
  copied : ListCommand → Result IoError ℕ → Finish
  copied command (ok bytes) = finished (directory_successfully_listed ∷ []) (success ∷ [])
  copied command (err e) = finished [] (categorize_and_register_error (listing command) (from_io e))

  list_result : ListCommand → Result Error Bytes → Finish
  unfolding copied
  list_result command (ok names) = copied command (env.copy names)
  list_result command (err e) =
      finished (storage_error e.kind ∷ []) (categorize_and_register_error (listing command) e)

  exec_list_variant : DataCommandExecutor User → Option Bytes → ListCommand → Finish
  unfolding connected list_result listed resolve_path
  exec_list_variant self path command =
      connected self λ user. list_result command (listed user (resolve_path self.cwd path) command)

  unfoldable pub execute_command : DataCommandExecutor User → DataChanCmd → ℕ → Finish
  unfolding exec_retr exec_stor exec_list_variant
  execute_command self (DataChanCmd.retr path) start_pos = exec_retr self path start_pos
  execute_command self (DataChanCmd.stor path) start_pos = exec_stor self path start_pos
  execute_command self (DataChanCmd.list options path) start_pos =
      exec_list_variant self path ListCommand.list
  execute_command self (DataChanCmd.nlst path) start_pos =
      exec_list_variant self path ListCommand.nlst

  unfoldable pub handle_incoming : DataCommandExecutor User → Incoming → ℕ → Finish
  unfolding execute_command
  handle_incoming self (external_command cmd) start_pos = execute_command self cmd start_pos
  handle_incoming self abort start_pos = finished [] []
  handle_incoming self timeout start_pos = finished [] []

  -- The session is no longer busy afterwards, unless the task panics.
  freed : Session User → Finish → Session User
  freed session (finished sent statuses) = record session { data_busy = false }
  freed session panicked = session

  unfoldable pub execute :
      DataCommandExecutor User → Incoming → Session User → Finish × Session User
  unfolding handle_incoming freed
  execute self incoming session =
      let finish = handle_incoming self incoming session.start_pos in (finish, freed session finish)

-- What becomes of a new data connection.
pub data Spawned (User : Type 0) : Type 0 where
  spawned : DataCommandExecutor User → Session User → Spawned User
  address_refused : Spawned User
  dropped : Session User → Spawned User

module _ {User : Type 0} where
  -- The receivers are taken out of the session.
  take_abort_rx : Session User → (data_cmd_rx : ℕ) → Option ℕ → Spawned User
  take_abort_rx s cmd_rx none = dropped (record s { data_cmd_rx = none })
  take_abort_rx s cmd_rx (some abort_rx) =
      spawned
        (record {
          user = s.user;
          cwd = s.cwd;
          ftps_mode = s.data_tls && s.ftps_config;
          data_cmd_rx = cmd_rx;
          data_abort_rx = abort_rx;
        })
        (record s { data_cmd_rx = none; data_abort_rx = none; data_busy = true })

  take_cmd_rx : Session User → Option ℕ → Spawned User
  unfolding take_abort_rx
  take_cmd_rx s none = dropped s
  take_cmd_rx s (some cmd_rx) = take_abort_rx s cmd_rx s.data_abort_rx

  with_sender : Session User → (control_msg_tx : Option ℕ) → Spawned User
  unfolding take_cmd_rx
  with_sender s none = dropped s
  with_sender s (some tx) = take_cmd_rx s s.data_cmd_rx

  -- `spawn_processing`, for a peer whose address can be told or not, and a session that has the sender
  -- of its control loop or not.
  unfoldable pub spawn_processing : (peer control_msg_tx : Option ℕ) → Session User → Spawned User
  unfolding with_sender
  spawn_processing none control_msg_tx s = dropped s
  spawn_processing (some peer) control_msg_tx s =
      if s.source_ip == peer then with_sender s control_msg_tx else address_refused
