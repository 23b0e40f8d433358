-- ===== src/Server/Options.antt =====
-- src/server/ftpserver/options.rs and the features of src/storage/storage_backend.rs: the settings
-- that the control channel reads.
use libunftp.Prelude.{ℕ, Bytes}

pub data FtpsRequired : Type 0 where
  all accounts none : FtpsRequired

pub data SiteMd5 : Type 0 where
  all accounts none : SiteMd5

pub data ActivePassiveMode : Type 0 where
  active_only passive_only active_and_passive : ActivePassiveMode

-- The four octets of an address.
pub record Ipv4 : Type 0 where
  pub a : ℕ
  pub b : ℕ
  pub c : ℕ
  pub d : ℕ

pub data PassiveHost : Type 0 where
  from_connection : PassiveHost
  ip : Ipv4 → PassiveHost
  dns : Bytes → PassiveHost

-- A `Range<u16>` of passive ports.
pub record PortRange : Type 0 where
  pub start : ℕ
  pub end : ℕ

abbrev pub feature_restart : ℕ
feature_restart = 1

abbrev pub feature_sitemd5 : ℕ
feature_sitemd5 = 2
