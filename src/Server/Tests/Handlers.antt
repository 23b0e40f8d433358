-- ===== src/Server/Tests/Handlers.antt =====
-- Single events and commands of the connection of `bob`.
use libunftp.Prelude.{◌≡◌, some, text, refl, arith}
use libunftp.Std.FilePath.{is_absolute}
use libunftp.Command.{Command}
use libunftp.Reply.{cant_open_data_connection}
use libunftp.Server.Options.{FtpsRequired, Ipv4}
use libunftp.Server.Messages.{command}
use libunftp.Server.Handled.{reply}
use libunftp.Server.Middleware.{event_chain}
use libunftp.Server.Middleware.Gate.{IsRefused, event_chain-IsRefused}
use libunftp.Server.Middleware.Keeping.{event_chain-IsGood}
use libunftp.Server.Sound.{IsSound, IsGood}
use libunftp.Server.Commands.{handle_command}
use libunftp.Server.Commands.Transfer
use libunftp.Server.Commands.Transfer.{socket_of, port_numbers, host_port}
use libunftp.Server.Commands.Transfer.DataChannel.{
  retr, stor, handle_command-once, socket_of-host_port,
}
use libunftp.Server.Tests.{env, plain, bob, accepted}

event_chain-IsRefused_example :
    IsRefused accepted.session (event_chain env plain (command Command.pwd) accepted.session)
event_chain-IsRefused_example =
    event_chain-IsRefused env plain Command.pwd accepted.session tt (λ e. cc)

accepted-IsSound : IsSound FtpsRequired.none accepted.session
unfolding is_absolute
accepted-IsSound = record { rooted = refl; known = refl; secured = refl }

event_chain-IsGood_example :
    IsGood FtpsRequired.none accepted.session (event_chain env plain (command bob) accepted.session)
event_chain-IsGood_example =
    event_chain-IsGood env plain (command bob) accepted.session accepted-IsSound tt

handle_command-once_example :
    handle_command env plain
      (Command.stor (text "b"))
      (handle_command env plain
        (Command.retr (text "a"))
        (Transfer.setup_inter_loop_comms env plain accepted.session)).session
    ≡ reply cant_open_data_connection "No data connection established"
        (handle_command env plain
          (Command.retr (text "a"))
          (Transfer.setup_inter_loop_comms env plain accepted.session)).session
handle_command-once_example =
    handle_command-once env plain (Command.retr (text "a")) (Command.stor (text "b"))
      (Transfer.setup_inter_loop_comms env plain accepted.session) (retr (text "a"))
      (stor (text "b"))

abbrev localhost : Ipv4
localhost = record { a = 127; b = 0; c = 0; d = 1 }

socket_of-host_port_example :
    socket_of (port_numbers (host_port localhost 50000)) ≡ some (localhost, 50000)
socket_of-host_port_example =
    socket_of-host_port localhost 50000 (omega arith) (omega arith) (omega arith) (omega arith)
      (omega arith)
