-- ===== src/Proxy/Listener.antt =====
-- src/server/ftpserver/listen_proxied.rs, the loop of the proxy protocol mode, and `ProxyLoopMsg` of
-- src/server/chancomms.rs. A connection's stream stands for itself; what its shutdown answers, and
-- the random numbers, come from the environment. A message is handled whole before the next one.
pub mod Ownership
pub mod Keeping
pub mod Dispatch
use libunftp.Prelude.{
  ℕ, suc, Bool, true, false, ◌&&◌, Option, none, some, List, [], ◌∷◌, ltb, leb, ◌==◌, if◌then◌else◌,
}
use libunftp.Reply.{Reply, code_and_msg, cant_open_data_connection}
use libunftp.Prelude.{text}
use libunftp.Server.Handled.{Env, Config}
use libunftp.Server.Commands.Transfer.{make_pasv_reply}
use libunftp.Proxy.{ProxyConnection, ProxyHashKey, ProxySession, octets}
use libunftp.Proxy.Switchboard.{
  Board, Reserved, reserved, failed, panicked, reserve_next_free_port, unregister_hash,
  unregister_this, get_session_by_incoming_data_connection,
}
use libunftp.Server.Options.{PortRange}

pub data ProxyLoopMsg : Type 0 where
  proxy_header_received : ProxyConnection → ProxyLoopMsg
  assign_data_port_command : (session : ℕ) → ProxyLoopMsg
  close_data_port_command : (session : ℕ) → ProxyLoopMsg

-- The switchboard and the sessions, which are numbered in the order of their control connections.
pub record Listener : Type 0 where
  pub switchboard : Option Board
  pub sessions : ℕ → ProxySession
  pub count : ℕ

-- What the loop does besides: it spawns a control loop or the processing of a data connection, shuts
-- a stream down, or sends a reply to a control loop.
pub data Effect : Type 0 where
  spawn_loop : (session : ℕ) → ProxyConnection → Effect
  spawn_processing : (session : ℕ) → ProxyConnection → Effect
  shutdown : ProxyConnection → Effect
  send_reply : (session : ℕ) → Reply → Effect

-- The loop goes on, returns an error, or panics.
pub data Outcome : Type 0 where
  continues : List Effect → Listener → Outcome
  returns : List Effect → Outcome
  panics : Outcome

unfoldable pub set_session : ℕ → ProxySession → (ℕ → ProxySession) → ℕ → ProxySession
set_session id session sessions k = if id == k then session else sessions k

-- The session of a control connection, as its control loop makes it, with the loop's own channel,
-- which has the number of the session here.
abbrev pub control_session : (channel : ℕ) → ProxyConnection → ProxySession
control_session channel c = record {
  proxy_control = some c;
  proxy_active_datachan = none;
  control_msg_tx = some channel;
}

-- `Range::contains`.
abbrev pub contains : PortRange → ℕ → Bool
contains range port = leb range.start port && ltb port range.end

pub unregister_active : Option Board → Option ProxyHashKey → Option Board
unfolding unregister_hash
unregister_active none active = none
unregister_active (some board) none = some board
unregister_active (some board) (some active) = some (unregister_hash active board)

module _ {User : Type 0} (env : Env User) (config : Config) (external_control_port : ℕ)
    (passive_ports : PortRange) where
  accept_control : ProxyConnection → Listener → Outcome
  unfolding set_session
  accept_control c s = continues (spawn_loop s.count c ∷ []) (record s {
    sessions = set_session s.count (control_session s.count c) s.sessions;
    count = suc s.count;
  })

  dispatched : ProxyConnection → Listener → Board → Option ℕ → Outcome
  dispatched c s board none = continues (shutdown c ∷ []) s
  dispatched c s board (some id) =
      continues (spawn_processing id c ∷ [])
        (record s { switchboard = some (unregister_this c board) })

  dispatch_data_connection : ProxyConnection → Listener → Option Board → Outcome
  unfolding dispatched
  dispatch_data_connection c s none = continues [] s
  dispatch_data_connection c s (some board) =
      dispatched c s board (get_session_by_incoming_data_connection c board)

  -- A port that is not configured: an error of the shutdown leaves the loop.
  refuse_port : ProxyConnection → Listener → (shutdown_ok : Bool) → Outcome
  refuse_port c s true = continues (shutdown c ∷ []) s
  refuse_port c s false = returns (shutdown c ∷ [])

  header_received : ProxyConnection → (shutdown_ok : Bool) → Listener → Outcome
  unfolding accept_control dispatch_data_connection refuse_port
  header_received c shutdown_ok s =
      if c.destination.port == external_control_port
      then accept_control c s
      else if contains passive_ports c.destination.port
      then dispatch_data_connection c s s.switchboard
      else refuse_port c s shutdown_ok

  reply_to : (id : ℕ) → Option ℕ → Reply → List Effect
  reply_to id none reply = []
  reply_to id (some tx) reply = send_reply id reply ∷ []

  assigned : (id : ℕ) → ProxySession → (ProxyConnection → Reply) → List Effect
  unfolding reply_to
  assigned id session reply = elim session.proxy_control [
    | none ↦ []
    | some c ↦ reply_to id session.control_msg_tx (reply c)
  ]

  port_reply : ℕ → ProxyConnection → Reply
  port_reply port c =
      (make_pasv_reply env config config.passive_host (octets c.destination.ip) port).0

  no_port_reply : ProxyConnection → Reply
  no_port_reply c = code_and_msg cant_open_data_connection (text "Local error")

  register : (id : ℕ) → Reserved → Listener → Outcome
  unfolding assigned port_reply no_port_reply set_session
  register id (reserved port board session) s =
      continues (assigned id session (port_reply port))
        (record s { switchboard = some board; sessions = set_session id session s.sessions })
  register id (failed e) s = continues (assigned id (s.sessions id) no_port_reply) s
  register id panicked s = panics

  select_and_register_passive_port : (id random : ℕ) → Listener → Option Board → Outcome
  unfolding register
  select_and_register_passive_port id random s none = panics
  select_and_register_passive_port id random s (some board) =
      register id (reserve_next_free_port passive_ports random id (s.sessions id) board) s

  -- One message of the loop, with a random start and the answer of a shutdown.
  unfoldable pub receive : (random : ℕ) → (shutdown_ok : Bool) → ProxyLoopMsg → Listener → Outcome
  unfolding header_received select_and_register_passive_port unregister_active
  receive random shutdown_ok (proxy_header_received c) s = header_received c shutdown_ok s
  receive random shutdown_ok (assign_data_port_command id) s =
      select_and_register_passive_port id random s s.switchboard
  receive random shutdown_ok (close_data_port_command id) s = continues [] (record s {
    switchboard = unregister_active s.switchboard (s.sessions id).proxy_active_datachan;
  })
