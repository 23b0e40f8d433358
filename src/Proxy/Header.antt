-- ===== src/Proxy/Header.antt =====
-- src/server/proxy_protocol.rs: reading the header of the PROXY protocol from a new connection. The
-- parser of the crate `proxy_protocol` is the parameter `parse`. What a connection brings is the list
-- of what each peek sees; what a peek saw before has no line feed in the peek buffer, since the loop
-- went on. A read gives all that the last peek saw, up to the length that is asked for.
pub mod FirstLine
pub mod Accepted
use libunftp.Prelude.{
  ℕ, zero, suc, ◌+◌, ◌-◌, Bytes, Bool, true, false, not, ◌||◌, Option, none, some, List, [], ◌∷◌,
  ◌++◌, length, take, drop, ltb, ◌==◌, if◌then◌else◌,
}
use libunftp.LineParser.Eol.{cr, lf}
use libunftp.Codec.{position}
use libunftp.Proxy.{SocketAddr, ProxyConnection}
use libunftp.Proxy.Listener.{ProxyLoopMsg, proxy_header_received}

pub data ProxyError : Type 0 where
  crlf_error header_size not_proxy_hdr decode_error : ProxyError
  ipv4_required unsupported_version read_error : ProxyError

-- `proxy_protocol::ProxyHeader`, of which version 1 with addresses of IPv4 is used.
pub data ProxyHeader : Type 0 where
  version1_ipv4 : (source destination : SocketAddr) → ProxyHeader
  version1_ipv6 version1_unknown version2 : ProxyHeader

-- A peek, with whether the read that follows it succeeds.
pub data Peek : Type 0 where
  sees : Bytes → (read_ok : Bool) → Peek
  fails : Peek

-- A header comes with what is left in the stream. `waiting` is a peek that does not return.
pub data HeaderRead : Type 0 where
  header : ProxyHeader → (unread : Bytes) → HeaderRead
  failed : ProxyError → HeaderRead
  panicked waiting : HeaderRead

-- The length of both buffers.
abbrev pub capacity : ℕ
capacity = 108

-- What the peeks bring, one after the other.
abbrev pub stream : List Peek → Bytes
stream [] = []
stream (sees bytes read_ok ∷ peeks) = bytes ++ stream peeks
stream (fails ∷ peeks) = stream peeks

-- A byte of the read buffer, which is filled with zeros.
pub byte_at : ℕ → Bytes → ℕ
byte_at i [] = 0
byte_at zero (b ∷ bytes) = b
byte_at (suc i) (b ∷ bytes) = byte_at i bytes

module _ (parse : Bytes → Option ProxyHeader) where
  parsed : Option ProxyHeader → Bytes → HeaderRead
  parsed none unread = failed decode_error
  parsed (some h) unread = header h unread

  -- The line is read, and its line feed is at the index.
  unfoldable pub complete : (line : Bytes) → ℕ → (unread : Bytes) → HeaderRead
  unfolding parsed byte_at
  complete line index unread =
      if byte_at (index - 1) line == cr then parsed (parse line) unread else failed crlf_error

  -- A peek at bytes with a line feed. To read past the end of the read buffer panics.
  pub line_feed : (got bytes : Bytes) → (read_ok : Bool) → ℕ → (later : Bytes) → HeaderRead
  unfolding complete
  line_feed got bytes read_ok pos later =
      let index = length got + pos in
      if ltb capacity index || ltb index 13
      then failed header_size
      else if index == capacity
      then panicked
      else if read_ok
      then complete (got ++ take (suc pos) bytes) index (drop (suc pos) bytes ++ later)
      else failed read_error

  no_line_feed : (got bytes : Bytes) → (read_ok : Bool) → HeaderRead → HeaderRead
  no_line_feed got bytes read_ok more =
      if ltb capacity (length got + length bytes)
      then failed not_proxy_hdr
      else if read_ok
      then more
      else failed read_error

  peeked :
      (got bytes : Bytes) → (read_ok : Bool) → Option ℕ → (later : Bytes) → HeaderRead → HeaderRead
  unfolding line_feed no_line_feed
  peeked got bytes read_ok (some pos) later more = line_feed got bytes read_ok pos later
  peeked got bytes read_ok none later more = no_line_feed got bytes read_ok more

  -- `read_proxy_header`, with `got` in the read buffer.
  unfoldable pub read_header : (got : Bytes) → List Peek → HeaderRead
  unfolding peeked
  read_header got [] = waiting
  read_header got (fails ∷ peeks) = failed read_error
  read_header got (sees bytes read_ok ∷ peeks) =
      let more = read_header (got ++ bytes) peeks in
      peeked got bytes read_ok (position lf bytes) (stream peeks) more

  -- What `spawn_proxy_header_parsing` sends to the proxy loop.
  proxy_loop_msg : HeaderRead → Option ProxyLoopMsg
  proxy_loop_msg (header (version1_ipv4 source destination) unread) =
      some (proxy_header_received (record { source = source; destination = destination }))
  proxy_loop_msg _ = none

  unfoldable pub spawn_proxy_header_parsing : List Peek → Option ProxyLoopMsg
  unfolding read_header proxy_loop_msg
  spawn_proxy_header_parsing peeks = proxy_loop_msg (read_header [] peeks)
