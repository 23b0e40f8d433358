-- ===== src/Proxy.antt =====
-- src/server/proxy_protocol.rs: the connections that the proxy's headers name, and the keys of the
-- passive ports. An address is the number of its 32 bits.
pub mod Switchboard
pub mod Listener
pub mod Header
pub mod Tests
use libunftp.Prelude.{ℕ, ◌/◌, ◌%◌, ◌^◌, ◌≡◌, ◌↔◌, Bool, true, ◌&&◌, Option, ◌==◌, arith}
use libunftp.Server.Options.{Ipv4}

pub record SocketAddr : Type 0 where
  pub ip : ℕ
  pub port : ℕ

pub record ProxyConnection : Type 0 where
  pub source : SocketAddr
  pub destination : SocketAddr

-- A client by the address it comes from, and the passive port that is kept for it.
pub record ProxyHashKey : Type 0 where
  pub source : ℕ
  pub port : ℕ

-- `ProxyHashKey::new`, and `from` of a connection.
abbrev pub new_key : ℕ → ℕ → ProxyHashKey
new_key source port = record { source = source; port = port }

abbrev pub hash_key : ProxyConnection → ProxyHashKey
hash_key c = new_key c.source.ip c.destination.port

-- The derived `Eq` of the keys.
abbrev pub key_eq : ProxyHashKey → ProxyHashKey → Bool
key_eq a b = a.source == b.source && a.port == b.port

pub key_eq_iff : (a b : ProxyHashKey) → (key_eq a b ≡ true) ↔ (a ≡ b)
key_eq_iff a b = ground arith

-- `Ipv4Addr::octets`.
abbrev pub octets : ℕ → Ipv4
octets ip = record { a = ip / 2 ^ 24; b = ip / 2 ^ 16 % 256; c = ip / 2 ^ 8 % 256; d = ip % 256 }

-- What the proxy loop reads of a session of src/server/session.rs.
pub record ProxySession : Type 0 where
  pub proxy_control : Option ProxyConnection
  pub proxy_active_datachan : Option ProxyHashKey
  pub control_msg_tx : Option ℕ
