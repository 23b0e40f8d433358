-- ===== src/Proxy/Tests.antt =====
-- The proxy loop with the control port 2121 and the passive ports 50000 to 50003, which keeps a port
-- for a client; headers that arrive in pieces; and the search for a port of PASV.
use libunftp.Prelude.{
  ℕ, ◌+◌, ◌≤◌, ◌<◌, Bytes, ◌≡◌, ◌≢◌, ◌↔◌, refl, true, Option, none, some, List, map, [], ◌∷◌, ◌++◌,
  text, ◌==◌, bytes_eq, if◌then◌else◌, arith,
}
use libunftp.LineParser.Eol.{cr, lf}
use libunftp.Std.HashMap
use libunftp.Codec.{position}
use libunftp.Server.Options.{PortRange, from_connection}
use libunftp.Server.Commands.Transfer.{make_pasv_reply}
use libunftp.Server.Tests.{env, plain}
use libunftp.Server.Commands.Transfer.PortRange.{
  Round, Bound, bound, try_port_range, try_port_range-Fits, FitsFrom,
}
use libunftp.Proxy.{ProxyConnection, ProxyHashKey, ProxySession, new_key, hash_key}
use libunftp.Proxy.Switchboard.{
  Board, reserved, failed, panicked, max_retries_error, reserve_next_free_port, range_size,
  get_session_by_incoming_data_connection, unregister_this,
}
use libunftp.Proxy.Switchboard.Reservation.{reserve-failed_iff}
use libunftp.Proxy.Switchboard.Entries.{entry}
use libunftp.Proxy.Listener.{
  proxy_header_received, assign_data_port_command, Listener, spawn_loop, receive, contains,
  control_session, set_session, Effect, send_reply,
}
use libunftp.Proxy.Listener.Ownership.{Holds, entry_of}
use libunftp.Proxy.Listener.Dispatch.{Reachable, started, next, message, dispatched-Holds}
use libunftp.Proxy.Header.{
  ProxyHeader, version1_ipv4, Peek, sees, HeaderRead, waiting, stream, read_header,
}
use libunftp.Proxy.Header.FirstLine.{finished, read_header-first_line}

abbrev ports : PortRange
ports = record { start = 50000; end = 50004 }

-- A client of the address 10 opens a control connection, and later a data connection.
abbrev control : ProxyConnection
control = record {
  source = record { ip = 10; port = 4000 };
  destination = record { ip = 99; port = 2121 };
}

abbrev data_connection : ProxyConnection
data_connection = record {
  source = record { ip = 10; port = 4001 };
  destination = record { ip = 99; port = 50001 };
}

abbrev session : ProxySession
session = control_session 0 control

abbrev start : Listener
start = record { switchboard = some []; sessions = λ id. session; count = 0 }

abbrev connected : Listener
connected = record {
  switchboard = some [];
  sessions = λ id. if 0 == id then session else start.sessions id;
  count = 1;
}

abbrev kept : Board
kept = (new_key 10 50001, some 0) ∷ []

abbrev holding : ProxySession
holding = record session { proxy_active_datachan = some (new_key 10 50001) }

abbrev waiting_for_data : Listener
waiting_for_data = record {
  switchboard = some kept;
  sessions = λ id. if 0 == id then holding else connected.sessions id;
  count = 1;
}

abbrev served : Listener
served = record waiting_for_data { switchboard = some [] }

-- The reply that the control loop is told to send.
abbrev entered : List Effect
entered =
    send_reply 0
      (make_pasv_reply env plain from_connection (record { a = 0; b = 0; c = 0; d = 99 }) 50001).0
    ∷ []

waiting_for_data-Reachable : Reachable env plain 2121 ports waiting_for_data
unfolding receive reserve_next_free_port HashMap.get HashMap.insert set_session
waiting_for_data-Reachable =
    next
      (next (started start.sessions)
        (message 5 true (proxy_header_received control) (spawn_loop 0 control ∷ []) tt refl))
      (message 5 true (assign_data_port_command 0) entered (omega arith) refl)

dispatched-Holds_example :
    Holds holding (hash_key data_connection)
    × ((contains ports 50001 ≡ true)
        × (entry_of served.switchboard (hash_key data_connection) ≡ none))
unfolding receive HashMap.get HashMap.remove get_session_by_incoming_data_connection unregister_this
    set_session
dispatched-Holds_example =
    dispatched-Holds env plain 2121 ports (omega arith) (omega arith) waiting_for_data-Reachable 5
      true data_connection served 0 refl

reserve_kept :
    reserve_next_free_port ports 5 0 session ((new_key 10 50001, some 3) ∷ [])
    ≡ reserved 50002
        ((new_key 10 50002, some 0) ∷ (new_key 10 50001, some 3) ∷ [])
        (record session { proxy_active_datachan = some (new_key 10 50002) })
unfolding reserve_next_free_port HashMap.get HashMap.insert
reserve_kept = refl

abbrev one_port : PortRange
one_port = record { start = 50000; end = 50001 }

reserve-failed_iff_example :
    (reserve_next_free_port one_port 7 0 session ((new_key 10 50000, some 3) ∷ [])
      ≡ failed max_retries_error)
    ↔ ((port : ℕ)
        → 50000 ≤ port
        → port < 50001
        → entry (new_key 10 port) ((new_key 10 50000, some 3) ∷ []) ≢ none)
unfolding range_size
reserve-failed_iff_example =
    reserve-failed_iff one_port 7 0 session ((new_key 10 50000, some 3) ∷ []) control (omega arith)
      (omega arith) refl (omega arith)

abbrev ten_ports : PortRange
ten_ports = record { start = 50000; end = 50010 }

abbrev taken : ℕ → ProxyHashKey × Option ℕ
taken i = (new_key 10 (50000 + i), some 3)

-- A start near 2^16 wraps around, and then leaves the free ports 50008 and 50009 out.
reserve_wrapped :
    reserve_next_free_port ten_ports 65533 0 session
      (map taken (0 ∷ 1 ∷ 2 ∷ 3 ∷ 4 ∷ 5 ∷ 6 ∷ 7 ∷ []))
    ≡ failed max_retries_error
unfolding reserve_next_free_port HashMap.get HashMap.insert
reserve_wrapped = refl

-- An empty range: a remainder by 0.
reserve_empty :
    reserve_next_free_port (record { start = 50000; end = 50000 }) 5 0 session [] ≡ panicked
unfolding reserve_next_free_port
reserve_empty = refl

abbrev line : Bytes
line = text "PROXY TCP4 10.0.0.1 10.0.0.2 4000 2121" ++ (cr ∷ lf ∷ [])

abbrev parse : Bytes → Option ProxyHeader
parse bytes =
    if bytes_eq bytes line then some (version1_ipv4 control.source control.destination) else none

-- The header in two pieces, and the first command behind it.
abbrev pieces : List Peek
pieces =
    sees (text "PROXY TCP4 10.0.0.1 10.0.") true
    ∷ sees (text "0.2 4000 2121" ++ (cr ∷ lf ∷ text "NOOP")) true
    ∷ []

read_header-first_line_example : read_header parse [] pieces ≡ finished parse 39 (stream pieces)
unfolding position text
read_header-first_line_example =
    read_header-first_line parse pieces 39 (refl, (refl, tt)) refl (omega arith)

-- A first byte alone, and a line feed as the 109th byte.
read_header_panics :
    read_header parse [] (
      sees (b'P' ∷ []) true
      ∷ sees
          (text (
              "aaaaaaaaaaaaaaaaaaaaaaaaaaaaaaaaaaaaaaaaaaaaaaaaaaaaaaaaaaaaaaaaaaaaaaaaaaaaaaaaaaaaaaaaaaaaaaaaaaaaaaaaaaa")
            ++ (lf ∷ []))
          true
      ∷ [])
    ≡ HeaderRead.panicked
unfolding read_header position text
read_header_panics = refl

-- At the end of the stream, peeks see nothing, and the loop goes on.
read_header_eof : read_header parse [] (sees [] true ∷ sees [] true ∷ sees [] true ∷ []) ≡ waiting
unfolding read_header position
read_header_eof = refl

-- Only the port 50003 is free, which the third round draws.
abbrev rounds : ℕ → Round
rounds i = record { entropy = true; random = 6 + i; socket = true; bind = λ port. port == 50003 }

try_port_range-Fits_example : FitsFrom ports rounds 9 0 (try_port_range ports rounds)
try_port_range-Fits_example =
    try_port_range-Fits ports rounds (omega arith) (omega arith) (omega arith)

-- The end of the range is drawn as well.
try_port_range_end :
    try_port_range ports
      (λ i. record { entropy = true; random = 4; socket = true; bind = λ port. true })
    ≡ bound 50004
unfolding try_port_range
try_port_range_end = refl

try_port_range_all :
    try_port_range
      (record { start = 0; end = 65535 })
      (λ i. record { entropy = true; random = 4; socket = true; bind = λ port. true })
    ≡ Bound.panicked
unfolding try_port_range
try_port_range_all = refl
