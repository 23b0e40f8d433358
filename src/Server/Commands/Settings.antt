-- ===== src/Server/Commands/Settings.antt =====
-- src/server/controlchan/commands/{syst,type_,stru,mode,help,noop,opts,allo,feat,rest}.rs
use Prim.Native.Nat.{bit_and}
use libunftp.Prelude.{
  ℕ, Bytes, Bool, true, false, not, ◌&&◌, ◌||◌, List, [], ◌∷◌, ◌++◌, text, ltb, ◌==◌, if◌then◌else◌,
}
use libunftp.Std.Decimal.{print_uint}
use libunftp.Command.{StruParam, file, ModeParam, stream, Opt, utf8}
use libunftp.Reply.{
  code_and_msg, multi_line, command_okay, command_okay_not_implemented, system_status, system_type,
  help_message, file_action_pending, command_not_implemented, command_not_implemented_for_parameter,
}
use libunftp.Server.Options.{SiteMd5, feature_restart, feature_sitemd5}
use libunftp.Server.Session.{Session}
use libunftp.Server.Handled.{Config, Env, Handled, reply, answer}

abbrev pub supports : ℕ → ℕ → Bool
supports features feature = not (bit_and features feature == 0)

is_on : SiteMd5 → Bool
is_on SiteMd5.none = false
is_on _ = true

-- The order of byte strings, and `sort_unstable` (equal strings cannot be told apart).
bytes_leb : Bytes → Bytes → Bool
bytes_leb [] ys = true
bytes_leb (x ∷ xs) [] = false
bytes_leb (x ∷ xs) (y ∷ ys) = ltb x y || (x == y && bytes_leb xs ys)

place : Bytes → List Bytes → List Bytes
place l [] = l ∷ []
place l (m ∷ ms) = let rest = place l ms in if bytes_leb l m then l ∷ m ∷ ms else m ∷ rest

sort : List Bytes → List Bytes
sort [] = []
sort (l ∷ ls) = place l (sort ls)

abbrev when : Bool → List Bytes → List Bytes
when test lines = if test then lines else []

module _ {User : Type 0} (env : Env User) (config : Config) where
  unfoldable pub syst : Session User → Handled User
  syst s = reply system_type "UNIX Type: L8" s

  unfoldable pub type_ : Session User → Handled User
  type_ s = reply command_okay "Always in binary mode" s

  stru_in : Session User → StruParam → Handled User
  stru_in s file = reply command_okay "In File structure mode" s
  stru_in s _ =
      reply command_not_implemented_for_parameter "Only File structure mode is supported" s

  unfoldable pub stru : StruParam → Session User → Handled User
  unfolding stru_in
  stru structure s = stru_in s structure

  mode_in : Session User → ModeParam → Handled User
  mode_in s stream = reply command_okay "Using Stream transfer mode" s
  mode_in s _ =
      reply command_not_implemented_for_parameter "Only Stream transfer mode is supported" s

  unfoldable pub mode : ModeParam → Session User → Handled User
  unfolding mode_in
  mode mode_param s = mode_in s mode_param

  unfoldable pub help : Session User → Handled User
  help s =
      answer
        (multi_line help_message (
          text "Help:"
          ∷ (text "Powered by libunftp: " ++ env.version)
          ∷ text "View the docs at: https://unftp.rs/"
          ∷ []))
        s

  unfoldable pub noop : Session User → Handled User
  noop s = reply command_okay "Successfully did nothing" s

  opts_in : Session User → Opt → Handled User
  opts_in s (utf8 true) = reply command_okay "Always in UTF-8 mode." s
  opts_in s (utf8 false) =
      reply command_not_implemented_for_parameter "Non UTF-8 mode not supported" s

  unfoldable pub opts : Opt → Session User → Handled User
  unfolding opts_in
  opts option s = opts_in s option

  unfoldable pub allo : Session User → Handled User
  allo s = reply command_okay_not_implemented "Ignored" s

  unfoldable pub feat_lines : List Bytes
  unfolding sort place bytes_leb is_on
  feat_lines =
      let features =
        text " SIZE"
          ∷ text " MDTM"
          ∷ text " UTF8"
          ∷ when config.tls_configured (text " AUTH TLS" ∷ text " PBSZ" ∷ text " PROT" ∷ [])
        ++ when (supports config.storage_features feature_restart) (text " REST STREAM" ∷ [])
        ++ when (is_on config.sitemd5 && supports config.storage_features feature_sitemd5)
            (text " SITE MD5" ∷ []) in
      text "Extensions supported:" ∷ sort features ++ text "END" ∷ []

  unfoldable pub feat : Session User → Handled User
  feat s = answer (multi_line system_status feat_lines) s

  unfoldable pub rest : ℕ → Session User → Handled User
  rest offset s =
      if not (supports config.storage_features feature_restart)
      then reply command_not_implemented "Not supported by the selected storage back-end." s
      else answer
          (code_and_msg file_action_pending
            (text "Restarting at " ++ print_uint offset ++ text ". Now send STORE or RETRIEVE."))
          (record s { start_pos = offset })
