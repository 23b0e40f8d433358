-- ===== src/Auth/JsonFile.antt =====
-- crates/unftp-auth-jsonfile/src/lib.rs: the authenticator that reads its users from a JSON file. The
-- crates it calls are parameters: base64, gzip, JSON, the networks of IP addresses, PBKDF2 and the
-- subjects of certificates.
pub mod Loading
pub mod Check
use libunftp.Prelude.{
  ℕ, ◌<◌, Bytes, Bool, true, false, not, ◌&&◌, ◌||◌, Option, none, some, List, [], ◌∷◌, length,
  take, leb, ltb, ◌==◌, if◌then◌else◌, bytes_eq, text,
}
use libunftp.Prelude.Result.{Result, ok, err, ◌>>=◌}
use libunftp.LineParser.Eol.{cr, lf}
use libunftp.Std.HashMap
use libunftp.Auth.{
  CertError, IpAddr, v4, v6, AuthenticationError, bad_password, bad_user, ip_disallowed,
  cn_disallowed, impl_propagated, Credentials, verify_cn, starts_with,
}

pub record ClientCertCredential : Type 0 where
  pub allowed_cn : Option Bytes

-- `Credentials` of the file.
pub data Entry : Type 0 where
  pbkdf2 :
      (username pbkdf2_salt pbkdf2_key : Bytes) (pbkdf2_iter : ℕ)
      (client_cert : Option ClientCertCredential) (allowed_ip_ranges : Option (List Bytes))
      → Entry
  plaintext :
      (username : Bytes) (password : Option Bytes) (client_cert : Option ClientCertCredential)
      (allowed_ip_ranges : Option (List Bytes))
      → Entry

pub data Password : Type 0 where
  plain_password : Option Bytes → Password
  pbkdf2_password : (pbkdf2_salt pbkdf2_key : Bytes) (pbkdf2_iter : ℕ) → Password

pub record UserCreds (Net : Type 0) : Type 0 where
  pub password : Password
  pub client_cert : Option ClientCertCredential
  pub allowed_ip_ranges : Option (List Net)

pub data LoadError : Type 0 where
  io_error bad_base64 bad_gzip not_utf8 bad_json bad_salt bad_key : LoadError
  key_too_long : (username : Bytes) → LoadError
  bad_ip_ranges : (username : Bytes) → LoadError

-- What the code takes from other crates.
pub record Crates (Net : Type 0) : Type 0 where
  pub base64_decode : Bytes → Option Bytes
  pub gunzip : Bytes → Option Bytes
  pub from_utf8 : Bytes → Option Bytes
  pub from_str : Bytes → Option (List Entry)
  pub parse_net : Bytes → Option Net
  pub range_contains : List Net → ℕ → Bool
  pub pbkdf2_verify : (iterations : ℕ) (salt secret key : Bytes) → Bool
  pub subject : Bytes → Option Bytes

-- `ok_or` of an option.
abbrev pub ok_or {ℓ} : {A : Type ℓ} → LoadError → Option A → Result LoadError A
ok_or e none = err e
ok_or e (some a) = ok a

-- The four first bytes of the file; a shorter file leaves zeros.
unfoldable pub is_gz : Bytes → Bool
unfolding starts_with
is_gz file = starts_with (0x1F ∷ 0x8B ∷ 0x8 ∷ []) file

-- The three magic bytes in base64.
unfoldable pub is_base64gz : Bytes → Bool
unfolding starts_with
is_base64gz file = starts_with (b'H' ∷ b'4' ∷ b's' ∷ b'I' ∷ []) file

-- `retain`: without the line breaks.
unfoldable pub unbroken : Bytes → Bytes
unbroken [] = []
unbroken (b ∷ bs) = let rest = unbroken bs in if b == lf || b == cr then rest else b ∷ rest

module _ {Net : Type 0} (crates : Crates Net) where
  abbrev pub CredentialsMap : Type 0
  CredentialsMap = List (Bytes × UserCreds Net)

  nets : Bytes → List Bytes → Result LoadError (List Net)
  nets username [] = ok []
  nets username (s ∷ ss) =
      let rest = nets username ss in
      ok_or (bad_ip_ranges username) (crates.parse_net s) >>= λ n. rest >>= λ ns. ok (n ∷ ns)

  unfoldable pub parse_ip_range : Bytes → Option (List Bytes) → Result LoadError (Option (List Net))
  unfolding nets
  parse_ip_range username none = ok none
  parse_ip_range username (some ranges) = nets username ranges >>= λ ns. ok (some ns)

  -- A key of more than the 32 bytes of SHA-256 is refused.
  checked_key : Bytes → Bytes → Result LoadError Bytes
  checked_key username key = if leb (length key) 32 then ok key else err (key_too_long username)

  unfoldable pub list_entry_to_map_entry : Entry → Result LoadError (Bytes × UserCreds Net)
  unfolding parse_ip_range checked_key
  list_entry_to_map_entry (plaintext username password client_cert ranges) =
      parse_ip_range username ranges >>= λ r. ok (
        username,
        record {
          password = plain_password password;
          client_cert = client_cert;
          allowed_ip_ranges = r;
        },
      )
  list_entry_to_map_entry (pbkdf2 username salt key iter client_cert ranges) =
      ok_or bad_salt (crates.base64_decode salt) >>= λ s.
      ok_or bad_key (crates.base64_decode key) >>= λ k. checked_key username k >>= λ checked.
      parse_ip_range username ranges >>= λ r. ok (
        username,
        record {
          password = pbkdf2_password s checked iter;
          client_cert = client_cert;
          allowed_ip_ranges = r;
        },
      )

  -- `collect` into a map, up to the first error.
  collect : CredentialsMap → List Entry → Result LoadError CredentialsMap
  collect map [] = ok map
  collect map (e ∷ es) =
      list_entry_to_map_entry e >>= λ p. collect (HashMap.insert bytes_eq p.0 p.1 map) es

  unfoldable pub from_json : Bytes → Result LoadError CredentialsMap
  unfolding collect
  from_json json = ok_or bad_json (crates.from_str json) >>= collect []

  -- `read_to_string` of what is unpacked, or of the file.
  unpacked : Bytes → Result LoadError Bytes
  unpacked gzdata =
      ok_or bad_gzip (crates.gunzip gzdata) >>= λ s. ok_or not_utf8 (crates.from_utf8 s)

  json_of : Bytes → Result LoadError Bytes
  unfolding is_gz is_base64gz unbroken unpacked
  json_of file =
      if is_base64gz file
      then ok_or bad_base64 (crates.base64_decode (unbroken file)) >>= unpacked
      else if is_gz file
      then unpacked file
      else ok_or not_utf8 (crates.from_utf8 file)

  -- `from_file`, with the file's contents where it can be read.
  unfoldable pub from_file : Option Bytes → Result LoadError CredentialsMap
  unfolding json_of from_json
  from_file file = ok_or io_error file >>= λ bytes. json_of bytes >>= from_json
