-- ===== src/Proxy/Switchboard.antt =====
-- src/server/proxy_protocol.rs: the board of the passive ports that are kept for the sessions. A
-- session is the number under which the sessions are shared; arithmetic is that of `u16`, and wraps.
pub mod Entries
pub mod Ports
pub mod Reservation
use libunftp.Prelude.{
  ℕ, zero, suc, ◌+◌, ◌-◌, ◌%◌, ◌^◌, Bool, true, false, Option, none, some, List, ◌==◌,
  if◌then◌else◌,
}
use libunftp.Prelude.Result.{Result, ok, err}
use libunftp.Std.HashMap
use libunftp.Server.Options.{PortRange}
use libunftp.Proxy.{ProxyConnection, ProxyHashKey, ProxySession, new_key, hash_key, key_eq}

pub data ProxyProtocolError : Type 0 where
  entry_not_available max_retries_error : ProxyProtocolError

abbrev pub Board : Type 0
Board = List (ProxyHashKey × Option ℕ)

abbrev pub u16 : ℕ
u16 = 2 ^ 16

claim : ProxyHashKey → ℕ → Board → Option (Option ℕ) → Result ProxyProtocolError Board
claim hash id board (some _) = err entry_not_available
claim hash id board none = ok (HashMap.insert key_eq hash (some id) board)

unfoldable pub try_and_claim : ProxyHashKey → ℕ → Board → Result ProxyProtocolError Board
unfolding claim
try_and_claim hash id board = claim hash id board (HashMap.get key_eq hash board)

unfoldable pub unregister_hash : ProxyHashKey → Board → Board
unregister_hash hash board = HashMap.remove key_eq hash board

unfoldable pub unregister_this : ProxyConnection → Board → Board
unfolding unregister_hash
unregister_this connection board = unregister_hash (hash_key connection) board

session_of : Option (Option ℕ) → Option ℕ
session_of none = none
session_of (some session) = session

unfoldable pub get_session_by_incoming_data_connection : ProxyConnection → Board → Option ℕ
unfolding session_of
get_session_by_incoming_data_connection connection board =
    session_of (HashMap.get key_eq (hash_key connection) board)

-- The port of one try, and the board and the session once it is claimed.
pub data Reserved : Type 0 where
  reserved : (port : ℕ) (board : Board) (session : ProxySession) → Reserved
  failed : ProxyProtocolError → Reserved
  panicked : Reserved

module _ (range : PortRange) where
  unfoldable pub range_size : ℕ
  range_size = (range.end + u16 - range.start) % u16

  unfoldable pub tried_port : ℕ → ℕ → ℕ
  unfolding range_size
  tried_port random i = (range.start + (random + i) % u16 % range_size) % u16

  -- A port that the session had before is given up.
  pub unregister_stale : ProxyHashKey → Option ProxyHashKey → Board → Board
  unfolding unregister_hash
  unregister_stale hash none board = board
  unregister_stale hash (some active) board =
      if key_eq active hash then board else unregister_hash active board

  unfoldable pub claimed : ProxyHashKey → ProxySession → Board → Reserved
  unfolding unregister_stale
  claimed hash session board =
      reserved hash.port (unregister_stale hash session.proxy_active_datachan board)
        (record session { proxy_active_datachan = some hash })

  module _ (random id : ℕ) (session : ProxySession) (board : Board) where
    -- One round of the loop, and the next ones where it does not return.
    attempt : ProxyHashKey → Result ProxyProtocolError Board → Reserved → Reserved
    unfolding claimed
    attempt hash (ok b) rest = claimed hash session b
    attempt hash (err _) rest = rest

    round : Option ProxyConnection → ℕ → Reserved → Reserved
    unfolding attempt try_and_claim tried_port
    round none i rest = rest
    round (some control) i rest =
        let hash = new_key control.source.ip (tried_port random i) in
        attempt hash (try_and_claim hash id board) rest

    -- `tries` more rounds, from the `i`th on. A remainder by 0 panics.
    unfoldable pub reserve_from : (tries i : ℕ) → Reserved
    unfolding round range_size
    reserve_from zero i = failed max_retries_error
    reserve_from (suc tries) i =
        let rest = reserve_from tries (suc i) in
        if range_size == 0 then panicked else round session.proxy_control i rest

    unfoldable pub reserve_next_free_port : Reserved
    unfolding reserve_from range_size
    reserve_next_free_port = reserve_from (suc range_size) 0
