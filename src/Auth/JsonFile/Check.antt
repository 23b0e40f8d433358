-- ===== src/Auth/JsonFile/Check.antt =====
-- crates/unftp-auth-jsonfile/src/lib.rs: how a user is checked against the entry of the file. The
-- delay after a refusal is left out.
pub mod Verdict
pub mod LetIn
use libunftp.Prelude.{
  ℕ, ◌<◌, Bytes, Bool, true, false, not, ◌&&◌, ◌||◌, Option, none, some, List, [], ◌∷◌, length,
  take, leb, ltb, ◌==◌, if◌then◌else◌, bytes_eq, text,
}
use libunftp.Prelude.Result.{Result, ok, err, ◌>>=◌}
use libunftp.LineParser.Eol.{cr, lf}
use libunftp.Std.HashMap
use libunftp.Auth.{
  CertError, IpAddr, v4, v6, AuthenticationError, bad_password, bad_user, ip_disallowed,
  cn_disallowed, impl_propagated, Credentials, verify_cn, starts_with,
}
use libunftp.Auth.JsonFile.{
  ClientCertCredential, Password, plain_password, pbkdf2_password, UserCreds, Crates,
  CredentialsMap,
}

abbrev pub first : List Bytes → Option Bytes
first [] = none
first (c ∷ cs) = some c

abbrev pub is_some {ℓ} : {A : Type ℓ} → Option A → Bool
is_some none = false
is_some (some a) = true

pub data Checked : Type 0 where
  good : Checked
  bad : AuthenticationError → Checked

module _ {Net : Type 0} (crates : Crates Net) where
  unfoldable pub check_password : Bytes → Password → Bool
  check_password given (plain_password none) = false
  check_password given (plain_password (some pwd)) = bytes_eq pwd given
  check_password given (pbkdf2_password salt key iter) = crates.pbkdf2_verify iter salt given key

  contains_ip : List Net → IpAddr → Bool
  contains_ip allowed (v4 ip) = crates.range_contains allowed ip
  contains_ip allowed (v6 ip) = false

  in_ranges : Option (List Net) → IpAddr → Bool
  unfolding contains_ip
  in_ranges none ip = true
  in_ranges (some allowed) ip = contains_ip allowed ip

  unfoldable pub ip_ok : Credentials → UserCreds Net → Bool
  unfolding in_ranges
  ip_ok creds actual = in_ranges actual.allowed_ip_ranges creds.source_ip

  pub ip_check : Credentials → UserCreds Net → Checked
  unfolding ip_ok
  ip_check creds actual = if ip_ok creds actual then good else bad ip_disallowed

  cn_verified : Result CertError Bool → Checked
  cn_verified (ok true) = good
  cn_verified (ok false) = bad cn_disallowed
  cn_verified (err e) = bad (impl_propagated (text "verify_cn"))

  cert_check : Option Bytes → Bytes → Checked
  unfolding cn_verified
  cert_check none cert = good
  cert_check (some cn) cert = cn_verified (verify_cn crates.subject cert cn)

  unfoldable pub cn_check : Option ClientCertCredential → Option Bytes → Option Checked
  unfolding cert_check
  cn_check (some client_cert) (some cert) = some (cert_check client_cert.allowed_cn cert)
  cn_check (some client_cert) none = some (bad cn_disallowed)
  cn_check none certificate = none

  unfoldable pub pass_check : Option Bytes → Password → Option Checked
  unfolding check_password
  pass_check none actual = none
  pass_check (some given) actual =
      if check_password given actual then some good else some (bad bad_password)

  -- The last `match` of `authenticate`.
  either_res : Checked → Checked → Checked
  either_res good ip_res = ip_res
  either_res (bad e) ip_res = bad e

  both_res : Checked → Checked → Checked → Checked
  both_res good good ip_res = ip_res
  both_res good (bad e) ip_res = bad e
  both_res (bad e) cn_res ip_res = bad e

  unfoldable pub combined : Option Checked → Option Checked → Checked → Checked
  unfolding either_res both_res
  combined none none ip_res = bad bad_password
  combined (some pass_res) none ip_res = either_res pass_res ip_res
  combined none (some cn_res) ip_res = either_res cn_res ip_res
  combined (some pass_res) (some cn_res) ip_res = both_res pass_res cn_res ip_res

  pub certificate : Option (List Bytes) → Option Bytes
  certificate none = none
  certificate (some chain) = first chain

  unfoldable pub authenticate_user : Credentials → Option (UserCreds Net) → Checked
  unfolding combined pass_check cn_check ip_check certificate
  authenticate_user creds none = bad bad_user
  authenticate_user creds (some actual) =
      combined (pass_check creds.password actual.password)
        (cn_check actual.client_cert (certificate creds.certificate_chain)) (ip_check creds actual)

  unfoldable pub authenticate : CredentialsMap crates → Bytes → Credentials → Checked
  unfolding authenticate_user
  authenticate map username creds = authenticate_user creds (HashMap.get bytes_eq username map)

  without_password : Password → Option ClientCertCredential → Bool
  without_password (plain_password none) client_cert = is_some client_cert
  without_password _ client_cert = false

  sufficient : Option (UserCreds Net) → Bool
  unfolding without_password
  sufficient none = false
  sufficient (some actual) = without_password actual.password actual.client_cert

  unfoldable pub cert_auth_sufficient : CredentialsMap crates → Bytes → Bool
  unfolding sufficient
  cert_auth_sufficient map username = sufficient (HashMap.get bytes_eq username map)
