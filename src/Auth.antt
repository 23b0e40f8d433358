-- ===== src/Auth.antt =====
-- src/auth/authenticator.rs: what an authenticator is given and what it answers. The subject of a
-- certificate, which the crate `x509_parser` reads, is a parameter.
pub mod JsonFile
pub mod Rest
pub mod Tests
use libunftp.Prelude.{
  ℕ, Bytes, Bool, true, false, ◌&&◌, ◌||◌, Option, none, some, List, [], ◌∷◌, ◌==◌,
}
use libunftp.Prelude.Result.{Result, ok, err}

pub data IpAddr : Type 0 where
  v4 v6 : ℕ → IpAddr

-- The errors that come from another one carry only the words that say where.
pub data AuthenticationError : Type 0 where
  bad_password bad_user bad_cert ip_disallowed cn_disallowed : AuthenticationError
  impl_propagated : Bytes → AuthenticationError

pub record Credentials : Type 0 where
  pub password : Option Bytes
  pub certificate_chain : Option (List Bytes)
  pub source_ip : IpAddr

-- `str::contains`.
unfoldable pub starts_with : Bytes → Bytes → Bool
starts_with [] bytes = true
starts_with (p ∷ ps) [] = false
starts_with (p ∷ ps) (b ∷ bytes) = p == b && starts_with ps bytes

unfoldable pub contains : Bytes → Bytes → Bool
unfolding starts_with
contains part [] = starts_with part []
contains part (b ∷ bytes) = starts_with part (b ∷ bytes) || contains part bytes

pub data CertError : Type 0 where
  not_x509 : CertError

-- `ClientCert::verify_cn`, whose error is that of the parser.
verified : Bytes → Option Bytes → Result CertError Bool
verified allowed_cn none = err not_x509
verified allowed_cn (some subject) = ok (contains allowed_cn subject)

unfoldable pub verify_cn : (Bytes → Option Bytes) → Bytes → Bytes → Result CertError Bool
unfolding verified
verify_cn subject_of cert allowed_cn = verified allowed_cn (subject_of cert)
