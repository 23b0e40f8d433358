-- ===== src/Server/DataChan/Transfers.antt =====
-- What a transfer tells the control loop, on each of its ways to end.
use mathlib.Core.Path.{subst}
use libunftp.Std.FilePath.{FilePath, join}
use libunftp.Prelude.{
  ℕ, Bytes, ◌≡◌, refl, sym, ap, ◌∙◌, true, false, Option, none, some, List, [], ◌∷◌, All,
  Bool-cases, inl, inr, bytes_eq, text, if◌then◌else◌,
}
use libunftp.Prelude.Result.{Result, ok, err}
use libunftp.Server.Session.{Session}
use libunftp.Server.Messages.{
  DataChanCmd, ControlChanMsg, sent_data, written_data, storage_error,
  directory_successfully_listed, permanent_directory_not_available,
}
use libunftp.Server.Loop.{IsDataMsg}
use libunftp.Storage.{Error, IoError, IoErrorKind}
use libunftp.Server.DataChan.{
  DataEnv, ListCommand, Finish, finished, panicked, external_command, DataCommandExecutor,
  with_user, secured, listed, nlst_error, resolve_path, Status, connected, retr_result, exec_retr,
  stor_result, exec_stor, copied, list_result, exec_list_variant, execute_command, handle_incoming,
  freed, execute,
}

-- What is told of a transfer that the storage answers so.
abbrev pub Reports :
    Result Error ℕ → (success : ControlChanMsg) → (sent : List ControlChanMsg) → Type 0
Reports (ok n) success sent = sent ≡ success ∷ []
Reports (err e) success sent = sent ≡ storage_error e.kind ∷ []

-- How many bytes a transfer moved.
abbrev pub moved : Result Error ℕ → ℕ
moved (ok n) = n
moved (err e) = 0

-- What is told of a listing that is copied to the client.
abbrev pub ReportsCopy : Result IoError ℕ → (sent : List ControlChanMsg) → Type 0
ReportsCopy (ok n) sent = sent ≡ directory_successfully_listed ∷ []
ReportsCopy (err e) sent = sent ≡ []

-- The directory that a listing is of.
abbrev pub directory : (cwd : FilePath) → Option Bytes → FilePath
directory cwd none = cwd
directory cwd (some path) = if bytes_eq path (46 ∷ []) then cwd else join cwd path

module _ {User : Type 0} (env : DataEnv User) where
  abbrev pub ReportsList : Result Error Bytes → (sent : List ControlChanMsg) → Type 0
  ReportsList (ok names) sent = ReportsCopy (env.copy names) sent
  ReportsList (err e) sent = sent ≡ storage_error e.kind ∷ []

  -- Whatever the error is, the directory counts as not there.
  abbrev pub ReportsNames : Result IoErrorKind Bytes → (sent : List ControlChanMsg) → Type 0
  ReportsNames (ok names) sent = ReportsCopy (env.copy names) sent
  ReportsNames (err e) sent = sent ≡ storage_error permanent_directory_not_available ∷ []

  -- The messages of a command of the user, from a directory and a position.
  abbrev pub Tells :
      User → (cwd : FilePath) → (start_pos : ℕ) → DataChanCmd → List ControlChanMsg → Type 0
  Tells u cwd start_pos (DataChanCmd.retr path) sent =
      let r = env.get_into u (join cwd path) start_pos in Reports r (sent_data path (moved r)) sent
  Tells u cwd start_pos (DataChanCmd.stor path) sent =
      let r = env.put u (join cwd path) start_pos in Reports r (written_data path (moved r)) sent
  Tells u cwd start_pos (DataChanCmd.list options path) sent =
      ReportsList (env.list_fmt u (directory cwd path)) sent
  Tells u cwd start_pos (DataChanCmd.nlst path) sent =
      ReportsNames (env.nlst u (directory cwd path)) sent

  abbrev pub EndsWell : User → (cwd : FilePath) → (start_pos : ℕ) → DataChanCmd → Finish → Type 0
  EndsWell u cwd start_pos cmd (finished sent statuses) =
      Tells u cwd start_pos cmd sent × All IsDataMsg sent
  EndsWell u cwd start_pos cmd panicked = ⊥

  -- The user is logged in, and the handshake of a protected connection succeeds.
  abbrev pub IsReady : User → DataCommandExecutor User → Type 0
  IsReady u self = (self.user ≡ some u) × (self.ftps_mode ≡ true → env.accept_tls ≡ true)

  -- A connected transfer is that of the user.
  connected-IsReady :
      (u : User) (self : DataCommandExecutor User) (transfer : User → Finish)
      → IsReady u self
      → connected env self transfer ≡ transfer u
  unfolding connected secured with_user
  connected-IsReady u self transfer (e, h) = elim (Bool-cases self.ftps_mode) [
    | inl m ↦ rw (m, h m, e) refl
    | inr m ↦ rw (m, e) refl
  ]

  retr_result-Reports :
      (path : Bytes) (start_pos : ℕ) (r : Result Error ℕ)
      → (sent : List ControlChanMsg) × ((statuses : List Status) × ((retr_result env path start_pos
                r
              ≡ finished sent statuses)
            × (Reports r (sent_data path (moved r)) sent × All IsDataMsg sent)))
  unfolding retr_result
  retr_result-Reports path start_pos (ok n) = (_, (_, (refl, (refl, (tt, tt)))))
  retr_result-Reports path start_pos (err e) = (_, (_, (refl, (refl, (tt, tt)))))

  stor_result-Reports :
      (path : Bytes) (start_pos : ℕ) (r : Result Error ℕ)
      → (sent : List ControlChanMsg) × ((statuses : List Status) × ((stor_result env path start_pos
                r
              ≡ finished sent statuses)
            × (Reports r (written_data path (moved r)) sent × All IsDataMsg sent)))
  unfolding stor_result
  stor_result-Reports path start_pos (ok n) = (_, (_, (refl, (refl, (tt, tt)))))
  stor_result-Reports path start_pos (err e) = (_, (_, (refl, (refl, (tt, tt)))))

  copied-Reports :
      (command : ListCommand) (r : Result IoError ℕ)
      → (sent : List ControlChanMsg) × ((statuses : List Status) × ((copied env command r
              ≡ finished sent statuses)
            × (ReportsCopy r sent × All IsDataMsg sent)))
  unfolding copied
  copied-Reports command (ok n) = (_, (_, (refl, (refl, (tt, tt)))))
  copied-Reports command (err e) = (_, (_, (refl, (refl, tt))))

  list_result-Reports :
      (r : Result Error Bytes)
      → (sent : List ControlChanMsg) × ((statuses : List Status) × ((list_result env
                ListCommand.list r
              ≡ finished sent statuses)
            × (ReportsList r sent × All IsDataMsg sent)))
  unfolding list_result
  list_result-Reports (ok names) = copied-Reports ListCommand.list (env.copy names)
  list_result-Reports (err e) = (_, (_, (refl, (refl, (tt, tt)))))

  nlst_result-Reports :
      (r : Result IoErrorKind Bytes)
      → (sent : List ControlChanMsg) × ((statuses : List Status) × ((list_result env
                ListCommand.nlst
                (nlst_error env r)
              ≡ finished sent statuses)
            × (ReportsNames r sent × All IsDataMsg sent)))
  unfolding list_result nlst_error
  nlst_result-Reports (ok names) = copied-Reports ListCommand.nlst (env.copy names)
  nlst_result-Reports (err e) = (_, (_, (refl, (refl, (tt, tt)))))

  resolve_path-directory :
      (cwd : FilePath) (path : Option Bytes) → resolve_path env cwd path ≡ directory cwd path
  unfolding resolve_path text
  resolve_path-directory cwd none = refl
  resolve_path-directory cwd (some path) = refl

  execute_command-EndsWell :
      (u : User) (self : DataCommandExecutor User) (cmd : DataChanCmd) (start_pos : ℕ)
      → IsReady u self
      → EndsWell u self.cwd start_pos cmd (execute_command env self cmd start_pos)
  unfolding execute_command exec_retr exec_stor exec_list_variant listed
  execute_command-EndsWell u self (DataChanCmd.retr path) start_pos h =
      let (sent, (statuses, (e, k))) =
        retr_result-Reports path start_pos (env.get_into u (join self.cwd path) start_pos) in
      subst (EndsWell u self.cwd start_pos (DataChanCmd.retr path))
        (sym (connected-IsReady u self _ h ∙ e)) k
  execute_command-EndsWell u self (DataChanCmd.stor path) start_pos h =
      let (sent, (statuses, (e, k))) =
        stor_result-Reports path start_pos (env.put u (join self.cwd path) start_pos) in
      subst (EndsWell u self.cwd start_pos (DataChanCmd.stor path))
        (sym (connected-IsReady u self _ h ∙ e)) k
  execute_command-EndsWell u self (DataChanCmd.list options path) start_pos h =
      let (sent, (statuses, (e, k))) =
        list_result-Reports (env.list_fmt u (directory self.cwd path)) in
      subst (EndsWell u self.cwd start_pos (DataChanCmd.list options path))
        (sym (
          connected-IsReady u self _ h
          ∙ ap (λ p. list_result env ListCommand.list (env.list_fmt u p))
              (resolve_path-directory self.cwd path)
          ∙ e))
        k
  execute_command-EndsWell u self (DataChanCmd.nlst path) start_pos h =
      let (sent, (statuses, (e, k))) = nlst_result-Reports (env.nlst u (directory self.cwd path)) in
      subst (EndsWell u self.cwd start_pos (DataChanCmd.nlst path))
        (sym (
          connected-IsReady u self _ h
          ∙ ap (λ p. list_result env ListCommand.nlst (nlst_error env (env.nlst u p)))
              (resolve_path-directory self.cwd path)
          ∙ e))
        k

  freed-idle :
      (u : User) (cwd : FilePath) (start_pos : ℕ) (cmd : DataChanCmd) (s : Session User)
      (f : Finish)
      → EndsWell u cwd start_pos cmd f
      → (freed env s f).data_busy ≡ false
  unfolding freed
  freed-idle u cwd start_pos cmd s (finished sent statuses) h = refl
  freed-idle u cwd start_pos cmd s panicked h = elim h [ ]

  -- With a user who is logged in, and a handshake that succeeds where the connection is protected, the
  -- task of a data connection ends every command without a panic and with the session no longer busy.
  -- Of RETR and STOR it tells the control loop what the storage answers for that user, the path below
  -- the working directory and the session's position: success with the path and the number of bytes,
  -- or the error. Of LIST and NLST, for the working directory or the named one, it tells success if the
  -- listing is copied to the client, nothing if the copy fails, and an error of the storage otherwise,
  -- which for NLST is that the directory is not there, whatever the error was.
  pub execute-EndsWell :
      (u : User) (self : DataCommandExecutor User) (cmd : DataChanCmd) (s : Session User)
      → IsReady u self
      → EndsWell u self.cwd s.start_pos cmd (execute env self (external_command cmd) s).0
        × ((execute env self (external_command cmd) s).1.data_busy ≡ false)
  unfolding execute handle_incoming
  execute-EndsWell u self cmd s h =
      let well = execute_command-EndsWell u self cmd s.start_pos h in
      (well, freed-idle u self.cwd s.start_pos cmd s _ well)
