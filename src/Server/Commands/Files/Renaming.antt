-- ===== src/Server/Commands/Files/Renaming.antt =====
-- RNFR and RNTO: the path to rename waits in the session for the one that names it anew.
use libunftp.Prelude.{Bytes, ◌≡◌, Option, none, some, [], ◌∷◌, ap, ◌∙◌, arith}
use libunftp.Std.Utf8.{from_utf8_lossy}
use libunftp.Std.FilePath.{FilePath, join}
use libunftp.Reply
use libunftp.Reply.{transient_file_error}
use libunftp.Server.Session.{Session}
use libunftp.Server.Messages.{ErrorKind, ControlChanMsg, rename_success, storage_error}
use libunftp.Server.Handled.{Config, Env, reply, sending}
use libunftp.Server.Commands.Files.{rnfr, rnto, rnto_from, rnto_as}

-- What the loop is told of a renaming.
abbrev pub renamed : FilePath → FilePath → Option ErrorKind → ControlChanMsg
renamed from to none = rename_success (from_utf8_lossy from) (from_utf8_lossy to)
renamed from to (some e) = storage_error e

module _ {User : Type 0} (env : Env User) (config : Config) where
  rnto_as-renamed :
      (from to : FilePath) (s : Session User) (u : User)
      → rnto_as env config from to s (some u)
        ≡ sending Reply.none (renamed from to (env.rename u from to) ∷ []) s
  unfolding rnto_as
  rnto_as-renamed from to s u = ground arith

  -- RNFR and RNTO of a user who is logged in rename the path of RNFR to the path of RNTO, both taken
  -- from the working directory, tell the loop what the storage back-end said of it, and leave no path
  -- waiting.
  pub rnto-rnfr :
      (from to : Bytes) (s : Session User) (u : User)
      → s.user ≡ some u
      → rnto env config to (rnfr env config from s).session
        ≡ sending Reply.none
            (renamed
                (join s.cwd from)
                (join s.cwd to)
                (env.rename u (join s.cwd from) (join s.cwd to))
              ∷ [])
            (record s { rename_from = none })
  unfolding rnto rnfr rnto_from
  rnto-rnfr from to s u h =
      let s' = record s { rename_from = none } in
      ap (rnto_as env config (join s.cwd from) (join s.cwd to) s') h
      ∙ rnto_as-renamed (join s.cwd from) (join s.cwd to) s' u

  -- A second RNTO after the first renames nothing: it is answered that a path is wanted first.
  pub rnto-rnto :
      (to again : Bytes) (s : Session User)
      → rnto env config again (rnto env config to s).session
        ≡ reply transient_file_error "Please tell me what file you want to rename first"
            (rnto env config to s).session
  unfolding rnto rnto_from rnto_as
  rnto-rnto to again s = ground arith
