-- ===== src/Server/Commands/Transfer.antt =====
-- src/server/controlchan/commands/{pasv,port,retr,stor,list,nlst,stou,abor}.rs
-- Channels between the loops are numbers; the sockets are answers of the environment.
pub mod DataChannel
pub mod PortRange
use libunftp.Prelude.{
  ℕ, ◌+◌, ◌-◌, ◌*◌, ◌/◌, String, Bytes, Bool, true, false, Option, none, some, List, [], ◌∷◌, ◌++◌,
  text, if◌then◌else◌,
}
use libunftp.Std.Decimal.{print_uint, parse_uint}
use libunftp.Std.FilePath.{join, split_on}
use libunftp.Std.Utf8.{from_utf8_lossy}
use libunftp.ControlError.{internal_server_error, io_error}
use libunftp.Reply
use libunftp.Reply.{
  Reply, code_and_msg, file_status_okay, cant_open_data_connection, closing_data_connection,
  entering_passive_mode, command_okay, command_not_implemented,
}
use libunftp.Server.Options.{Ipv4, PassiveHost, PortRange as Ports, from_connection, ip, dns}
use libunftp.Server.Session.{Session}
use libunftp.Server.Messages.{DataChanCmd}
use libunftp.Server.Handled.{
  Config, Env, Task, send_data_cmd, send_abort, accept_data, process_data, Handled, reply, answer,
  spawning, fail, panic, Listening, listening, no_listener, no_local_addr,
}
use libunftp.Server.Commands.Transfer.PortRange.{Bound, bound, no_socket, try_port_range}

-- `split(',')`, `parse::<u8>` and `filter_map(Result::ok)`.
numbers_of : List Bytes → List ℕ
numbers_of [] = []
numbers_of (s ∷ ss) =
    let rest = numbers_of ss in elim (parse_uint 256 s) [ none ↦ rest | some n ↦ n ∷ rest ]

unfoldable pub port_numbers : Bytes → List ℕ
unfolding numbers_of
port_numbers addr = numbers_of (split_on b',' addr)

-- The address and port of the first six numbers; with fewer, indexing them panics.
unfoldable pub socket_of : List ℕ → Option (Ipv4 × ℕ)
socket_of (a ∷ b ∷ c ∷ d ∷ p ∷ q ∷ _) = some (record { a = a; b = b; c = c; d = d }, p * 256 + q)
socket_of _ = none

-- The six numbers of a PASV reply.
unfoldable pub host_port : Ipv4 → ℕ → Bytes
host_port host port =
    let p1 = port / 256 in
    let p2 = port - p1 * 256 in
    print_uint host.a
    ++ (b','
        ∷ (print_uint host.b
            ++ (b','
                ∷ (print_uint host.c
                    ++ (b','
                        ∷ (print_uint host.d
                            ++ (b',' ∷ (print_uint p1 ++ (b',' ∷ print_uint p2)))))))))

abbrev first_word : List Bytes → Bytes
first_word [] = []
first_word (s ∷ ss) = s

module _ {User : Type 0} (env : Env User) (config : Config) where
  unresolved : Bytes → Reply
  unresolved name =
      code_and_msg cant_open_data_connection
        (text "Could not resolve DNS address '" ++ name ++ b'\'' ∷ [])

  entering : Ipv4 → ℕ → Reply
  entering host port =
      code_and_msg entering_passive_mode
        (text "Entering Passive Mode (" ++ host_port host port ++ b')' ∷ [])

  -- The host of the name, without a port of its own, is looked up.
  unfoldable pub make_pasv_reply : PassiveHost → Ipv4 → ℕ → Reply × Bool
  unfolding unresolved entering
  make_pasv_reply from_connection conn port = (entering conn port, true)
  make_pasv_reply (ip host) conn port = (entering host port, true)
  make_pasv_reply (dns name) conn port =
      elim (env.lookup_host (first_word (split_on b':' name) ++ text ":2121")) [
        | none ↦ (unresolved name, false)
        | some host ↦ (entering host port, true)
      ]

  unfoldable pub setup_inter_loop_comms : Session User → Session User
  setup_inter_loop_comms s = record s {
    data_cmd_tx = some env.channel;
    data_cmd_rx = some env.channel;
    data_abort_tx = some env.abort_channel;
    data_abort_rx = some env.abort_channel;
  }

  pasv_replied : Session User → Reply × Bool → Handled User
  pasv_replied s (r, false) = answer r s
  pasv_replied s (r, true) = spawning r (accept_data ∷ []) (setup_inter_loop_comms s)

  -- `unwrap` of `listen`.
  pasv_listening : Session User → Ipv4 → Listening → Handled User
  unfolding pasv_replied
  pasv_listening s conn no_listener = panic s
  pasv_listening s conn no_local_addr = fail io_error s
  pasv_listening s conn (listening port) =
      pasv_replied s (make_pasv_reply config.passive_host conn port)

  pasv_bound : Session User → Ipv4 → Bound → Handled User
  unfolding pasv_listening
  pasv_bound s conn Bound.panicked = panic s
  pasv_bound s conn (bound port) = pasv_listening s conn (env.listen port)
  pasv_bound s conn _ = reply cant_open_data_connection "No data connection established" s

  binder_bound : Option ℕ → Bound
  binder_bound none = no_socket
  binder_bound (some port) = bound port

  -- The binder of the session, if it has one, or a port of the range.
  unfoldable pub bind_socket : Option (Ports → Option ℕ) → Bound
  unfolding binder_bound
  bind_socket none = try_port_range config.passive_ports env.rounds
  bind_socket (some bind) = binder_bound (bind config.passive_ports)

  pasv_nonproxy : Session User → Option Ipv4 → Handled User
  pasv_nonproxy s none = fail internal_server_error s
  pasv_nonproxy s (some conn) = pasv_bound s conn (bind_socket env.binder)

  -- `unwrap` of the message to the proxy loop.
  pasv_proxy : Session User → Handled User
  pasv_proxy s = if env.proxy_loop then answer Reply.none s else panic s

  -- With a proxy the proxy loop is asked for a port, and replies by itself.
  unfoldable pub pasv : Session User → Handled User
  unfolding pasv_nonproxy pasv_bound pasv_listening pasv_replied pasv_proxy setup_inter_loop_comms
  pasv s =
      if config.proxy_mode
      then pasv_proxy (setup_inter_loop_comms s)
      else pasv_nonproxy s config.local_addr

  port_connected : Session User → Bool → Handled User
  port_connected s false = reply cant_open_data_connection "No data connection established" s
  port_connected s true =
      spawning (Reply.new command_okay "Entering Active mode") (process_data ∷ [])
        (setup_inter_loop_comms s)

  port_to : Session User → Option (Ipv4 × ℕ) → Handled User
  port_to s none = panic s
  port_to s (some (host, port)) = port_connected s (env.connect host port)

  unfoldable pub port : Bytes → Session User → Handled User
  unfolding port_to port_connected setup_inter_loop_comms
  port addr s =
      if config.proxy_mode
      then reply command_not_implemented
          "ACTIVE mode is not supported with Proxy - use PASSIVE instead" s
      else port_to s (socket_of (port_numbers addr))

  -- RETR, STOR, LIST, NLST and STOU take the sender of the data channel out of the session.
  unfoldable pub with_data_channel : Reply → DataChanCmd → Session User → Option ℕ → Handled User
  with_data_channel r cmd s none =
      reply cant_open_data_connection "No data connection established" s
  with_data_channel r cmd s (some tx) =
      spawning r (send_data_cmd tx cmd ∷ []) (record s { data_cmd_tx = none })

  unfoldable pub retr : Bytes → Session User → Handled User
  unfolding with_data_channel
  retr path s =
      with_data_channel (Reply.new file_status_okay "Sending data") (DataChanCmd.retr path) s
        s.data_cmd_tx

  unfoldable pub stor : Bytes → Session User → Handled User
  unfolding with_data_channel
  stor path s =
      with_data_channel (Reply.new file_status_okay "Ready to receive data") (DataChanCmd.stor path)
        s s.data_cmd_tx

  unfoldable pub list : Option Bytes → Option Bytes → Session User → Handled User
  unfolding with_data_channel
  list options path s =
      with_data_channel (Reply.new file_status_okay "Sending directory list")
        (DataChanCmd.list options path) s s.data_cmd_tx

  unfoldable pub nlst : Option Bytes → Session User → Handled User
  unfolding with_data_channel
  nlst path s =
      with_data_channel (Reply.new file_status_okay "Sending directory list")
        (DataChanCmd.nlst path) s s.data_cmd_tx

  unfoldable pub stou : Session User → Handled User
  unfolding with_data_channel
  stou s =
      with_data_channel (code_and_msg file_status_okay env.uuid)
        (DataChanCmd.stor (from_utf8_lossy (join s.cwd env.uuid))) s s.data_cmd_tx

  unfoldable pub abor : Session User → Handled User
  abor s = elim s.data_abort_tx [
    | some tx ↦
        spawning (Reply.new closing_data_connection "Closed data channel") (send_abort tx ∷ [])
          (record s { data_abort_tx = none })
    | none ↦ reply closing_data_connection "Data channel already closed" s
  ]
