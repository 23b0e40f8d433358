-- ===== src/Server/Commands/Transfer/DataChannel.antt =====
-- The data channel: the address of PASV and PORT, and the one transfer that a channel serves.
use libunftp.Prelude.{
  ℕ, ◌+◌, ◌*◌, ◌/◌, ◌-◌, ◌<◌, Bytes, ◌≡◌, Option, none, some, [], ◌∷◌, ◌++◌, arith, All, All-map,
  ◌==◌, false,
}
use libunftp.Std.Decimal.{print_uint}
use libunftp.Std.Decimal.Laws.{IsDigit, print_uint-IsDigit, parse_uint-print_uint}
use libunftp.Std.FilePath.Laws.{split_on-segment, split_on-last}
use libunftp.Reply.{cant_open_data_connection}
use libunftp.Command.{Command}
use libunftp.Server.Options.{Ipv4}
use libunftp.Server.Session.{Session}
use libunftp.Server.Handled.{Config, Env, reply}
use libunftp.Server.Commands.{handle_command}
use libunftp.Server.Commands.Transfer.{
  port_numbers, socket_of, host_port, with_data_channel, numbers_of,
}
use libunftp.Server.Commands.Transfer

IsDigit-ne-comma : (ds : Bytes) → All IsDigit ds → All (λ c. (c == b',') ≡ false) ds
IsDigit-ne-comma ds h = All-map (λ c k. ground arith) ds h

number : ℕ → Bytes → Bytes
number n rest = print_uint n ++ b',' ∷ rest

numbers_of-number :
    (n : ℕ) (rest : Bytes)
    → n < 256
    → port_numbers (print_uint n ++ b',' ∷ rest) ≡ n ∷ port_numbers rest
unfolding port_numbers
numbers_of-number n rest h = simp (
  split_on-segment b',' (print_uint n) rest
      (IsDigit-ne-comma (print_uint n) (print_uint-IsDigit n)),
  parse_uint-print_uint 256 n h,
  numbers_of,
)

numbers_of-last : (n : ℕ) → n < 256 → port_numbers (print_uint n) ≡ n ∷ []
unfolding port_numbers
numbers_of-last n h = simp (
  split_on-last b',' (print_uint n) (IsDigit-ne-comma (print_uint n) (print_uint-IsDigit n)),
  parse_uint-print_uint 256 n h,
  numbers_of,
)

high_byte : (port : ℕ) → port < 65536 → port / 256 < 256
high_byte port h = omega arith

low_byte : (port : ℕ) → port - port / 256 * 256 < 256
low_byte port = omega arith

two_bytes : (port : ℕ) → port / 256 * 256 + (port - port / 256 * 256) ≡ port
two_bytes port = omega arith

-- The six numbers that PASV writes for a host and a port below 2^16 are read by PORT as the same host
-- and port.
pub socket_of-host_port :
    (host : Ipv4) (port : ℕ)
    → host.a < 256
    → host.b < 256
    → host.c < 256
    → host.d < 256
    → port < 65536
    → socket_of (port_numbers (host_port host port)) ≡ some (host, port)
unfolding socket_of host_port
socket_of-host_port host port ha hb hc hd hp = simp (
  numbers_of-number host.a _ ha,
  numbers_of-number host.b _ hb,
  numbers_of-number host.c _ hc,
  numbers_of-number host.d _ hd,
  numbers_of-number (port / 256) _ (high_byte port hp),
  numbers_of-last (port - port / 256 * 256) (low_byte port),
  two_bytes port,
)

pub data IsTransfer : Command → Type 0 where
  retr : (path : Bytes) → IsTransfer (Command.retr path)
  stor : (path : Bytes) → IsTransfer (Command.stor path)
  list : (options path : Option Bytes) → IsTransfer (Command.list options path)
  nlst : (path : Option Bytes) → IsTransfer (Command.nlst path)
  stou : IsTransfer Command.stou

module _ {User : Type 0} (env : Env User) (config : Config) where
  -- A transfer takes the channel, if there is one.
  transfer-takes :
      (c : Command) (s : Session User)
      → IsTransfer c
      → (handle_command env config c s).session.data_cmd_tx ≡ none
  unfolding handle_command
  transfer-takes c s (retr path) = unfold Transfer.retr in ground arith
  transfer-takes c s (stor path) = unfold Transfer.stor in ground arith
  transfer-takes c s (list options path) = unfold Transfer.list in ground arith
  transfer-takes c s (nlst path) = unfold Transfer.nlst in ground arith
  transfer-takes c s stou = unfold Transfer.stou in ground arith

  transfer-without :
      (c : Command) (s : Session User)
      → IsTransfer c
      → s.data_cmd_tx ≡ none
      → handle_command env config c s
        ≡ reply cant_open_data_connection "No data connection established" s
  unfolding handle_command with_data_channel
  transfer-without c s (retr path) h = unfold Transfer.retr in simp h
  transfer-without c s (stor path) h = unfold Transfer.stor in simp h
  transfer-without c s (list options path) h = unfold Transfer.list in simp h
  transfer-without c s (nlst path) h = unfold Transfer.nlst in simp h
  transfer-without c s stou h = unfold Transfer.stou in simp h

  -- A data channel serves one transfer: of two transfer commands (RETR, STOR, LIST, NLST or STOU) that
  -- are handled one after the other, the second is answered 425, and changes and starts nothing.
  pub handle_command-once :
      (c d : Command) (s : Session User)
      → IsTransfer c
      → IsTransfer d
      → handle_command env config d (handle_command env config c s).session
        ≡ reply cant_open_data_connection "No data connection established"
            (handle_command env config c s).session
  handle_command-once c d s h k = transfer-without d _ k (transfer-takes c s h)
