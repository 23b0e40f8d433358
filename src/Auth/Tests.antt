-- ===== src/Auth/Tests.antt =====
-- Users of a JSON file: `alice` with a password, twice, the last time from one network only, and
-- `freddie` with a certificate.
use libunftp.Prelude.{
  ℕ, Bytes, ◌≡◌, ◌↔◌, refl, Bool, true, false, ◌&&◌, none, some, List, [], ◌∷◌, ◌++◌, text, leb,
  bytes_eq, if◌then◌else◌,
}
use libunftp.Prelude.Result.{ok}
use libunftp.LineParser.Eol.{lf}
use libunftp.Std.HashMap
use libunftp.Auth.{IpAddr, v4, v6, Credentials, ip_disallowed, bad_password, contains, verify_cn}
use libunftp.Auth.JsonFile.{
  Entry, plaintext, UserCreds, plain_password, Crates, CredentialsMap, from_json, from_file, is_gz,
  is_base64gz, unbroken, list_entry_to_map_entry,
}
use libunftp.Auth.JsonFile.Loading.{from_file-formats}
use libunftp.Auth.JsonFile.Check.{good, bad, ip_ok, authenticate}
use libunftp.Auth.JsonFile.Check.Verdict.{IsIdentified}
use libunftp.Auth.JsonFile.Check.LetIn.{authenticate-good_iff, authenticate-ip_disallowed_iff}

abbrev entries : List Entry
entries =
    plaintext (text "alice") (some (text "old")) none none
    ∷ plaintext (text "alice") (some (text "pw")) none (some (text "10.0.0.0/8" ∷ []))
    ∷ plaintext (text "freddie") none (some (record { allowed_cn = some (text "fred") })) none
    ∷ []

-- The one text that is a list of entries, and the one that gzip and base64 pack.
abbrev json : Bytes
json = text "[users]"

abbrev gz : Bytes
gz = 0x1F ∷ 0x8B ∷ 0x8 ∷ 1 ∷ []

abbrev base64 : Bytes
base64 = text "H4sI" ++ (lf ∷ text "AQ==")

-- A network is the least and the greatest of its addresses.
abbrev in_net : List (ℕ × ℕ) → ℕ → Bool
in_net [] ip = false
in_net ((low, high) ∷ nets) ip = if leb low ip && leb ip high then true else in_net nets ip

abbrev crates : Crates (ℕ × ℕ)
crates = record {
  base64_decode = λ s. if bytes_eq s (text "H4sIAQ==") then some gz else none;
  gunzip = λ s. if bytes_eq s gz then some json else none;
  from_utf8 = some;
  from_str = λ s. if bytes_eq s json then some entries else none;
  parse_net = λ s. if bytes_eq s (text "10.0.0.0/8") then some (0xA00_0000, 0xAFF_FFFF) else none;
  range_contains = in_net;
  pbkdf2_verify = λ iterations salt secret key. false;
  subject = λ cert. some (text "CN=" ++ cert);
}

abbrev alice : UserCreds (ℕ × ℕ)
alice = record {
  password = plain_password (some (text "pw"));
  client_cert = none;
  allowed_ip_ranges = some ((0xA00_0000, 0xAFF_FFFF) ∷ []);
}

abbrev freddie : UserCreds (ℕ × ℕ)
freddie = record {
  password = plain_password none;
  client_cert = some (record { allowed_cn = some (text "fred") });
  allowed_ip_ranges = none;
}

abbrev users : CredentialsMap crates
users = (text "freddie", freddie) ∷ (text "alice", alice) ∷ []

abbrev with_password : Bytes → IpAddr → Credentials
with_password password ip = record {
  password = some password;
  certificate_chain = none;
  source_ip = ip;
}

abbrev with_certificate : Bytes → Credentials
with_certificate cert = record {
  password = none;
  certificate_chain = some (cert ∷ []);
  source_ip = v6 1;
}

from_json-users : from_json crates json ≡ ok users
unfolding from_json HashMap.insert bytes_eq text list_entry_to_map_entry
from_json-users = refl

from_file-formats_example :
    (from_file crates (some base64) ≡ from_file crates (some json))
    × (from_file crates (some gz) ≡ from_file crates (some json))
unfolding is_gz is_base64gz unbroken bytes_eq text
from_file-formats_example = from_file-formats crates json gz base64 refl refl refl refl refl refl

authenticate-good_iff_example :
    (authenticate crates users (text "alice") (with_password (text "pw") (v4 0xA00_0005)) ≡ good)
    ↔ ((actual : UserCreds (ℕ × ℕ)) × ((HashMap.get bytes_eq (text "alice") users ≡ some actual)
          × (IsIdentified crates (with_password (text "pw") (v4 0xA00_0005)) actual
              × (ip_ok crates (with_password (text "pw") (v4 0xA00_0005)) actual ≡ true))))
authenticate-good_iff_example =
    authenticate-good_iff crates users (text "alice") (with_password (text "pw") (v4 0xA00_0005))

authenticate_alice :
    authenticate crates users (text "alice") (with_password (text "pw") (v4 0xA00_0005)) ≡ good
unfolding authenticate HashMap.get bytes_eq text
authenticate_alice = refl

authenticate_old :
    authenticate crates users (text "alice") (with_password (text "old") (v4 0xA00_0005))
    ≡ bad bad_password
unfolding authenticate HashMap.get bytes_eq text
authenticate_old = refl

authenticate-ip_disallowed_iff_example :
    (authenticate crates users (text "alice") (with_password (text "pw") (v4 5))
      ≡ bad ip_disallowed)
    ↔ ((actual : UserCreds (ℕ × ℕ)) × ((HashMap.get bytes_eq (text "alice") users ≡ some actual)
          × (IsIdentified crates (with_password (text "pw") (v4 5)) actual
              × (ip_ok crates (with_password (text "pw") (v4 5)) actual ≡ false))))
authenticate-ip_disallowed_iff_example =
    authenticate-ip_disallowed_iff crates users (text "alice") (with_password (text "pw") (v4 5))

authenticate_elsewhere :
    authenticate crates users (text "alice") (with_password (text "pw") (v4 5)) ≡ bad ip_disallowed
unfolding authenticate HashMap.get bytes_eq text
authenticate_elsewhere = refl

authenticate_freddie :
    authenticate crates users (text "freddie") (with_certificate (text "fred")) ≡ good
unfolding authenticate HashMap.get bytes_eq text contains verify_cn
authenticate_freddie = refl

-- The name is looked for in the whole subject, not in its common name alone.
authenticate_other_field :
    authenticate crates users (text "freddie") (with_certificate (text "mallory, O=fred")) ≡ good
unfolding authenticate HashMap.get bytes_eq text contains verify_cn
authenticate_other_field = refl
