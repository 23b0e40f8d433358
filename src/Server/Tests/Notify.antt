-- ===== src/Server/Tests/Notify.antt =====
-- A connection that logs in, fetches a file, lists a directory and hangs up.
use libunftp.Prelude.{◌≡◌, refl, List, [], ◌∷◌, text}
use libunftp.Command
use libunftp.Server.Messages.{
  Event, command, internal_msg, auth_success, sent_data, directory_successfully_listed,
  exit_control_loop,
}
use libunftp.Server.Notify.{presence_event, data_event, logged_in, got, logged_out, new}
use libunftp.Server.Notify.Numbering.{numbered, labelled}

abbrev events : List Event
events =
    command (Command.user (text "bob"))
    ∷ internal_msg (auth_success (text "bob"))
    ∷ internal_msg (sent_data (text "a") 3)
    ∷ internal_msg directory_successfully_listed
    ∷ internal_msg exit_control_loop
    ∷ []

received_test :
    numbered 0 (labelled new.username events)
    ≡ presence_event logged_in (record { username = text "bob"; sequence_number = 1 })
      ∷ data_event (got (text "a") 3) (record { username = text "bob"; sequence_number = 2 })
      ∷ presence_event logged_out (record { username = text "bob"; sequence_number = 3 })
      ∷ []
unfolding text
received_test = refl
