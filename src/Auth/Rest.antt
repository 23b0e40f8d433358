-- ===== src/Auth/Rest.antt =====
-- crates/unftp-auth-rest/src/lib.rs: a user is checked by a REST service. The crates for HTTP, JSON,
-- regular expressions and percent encoding, and what the service answers, are the record Service.
pub mod Replacing
pub mod Tests
use libunftp.Prelude.{
  ℕ, zero, suc, ◌-◌, Bytes, Bool, true, false, not, ◌&&◌, Option, none, some, List, [], ◌∷◌, ◌++◌,
  length, take, drop, ltb, ◌==◌, if◌then◌else◌, is_empty, text,
}
use libunftp.Prelude.Result.{Result, ok, err, ◌>>=◌}
use libunftp.Std.Decimal.{print_uint}
use libunftp.Auth.{
  IpAddr, v4, v6, AuthenticationError, bad_password, impl_propagated, Credentials, starts_with,
}
use libunftp.Proxy.{octets}

-- `str::replace`: each occurrence from the left on. `skip` bytes of an occurrence are still to come.
pub replace_from : (from to : Bytes) (skip : ℕ) → Bytes → Bytes
unfolding starts_with
replace_from from to skip [] = []
replace_from from to (suc skip) (b ∷ bytes) = replace_from from to skip bytes
replace_from from to zero (b ∷ bytes) =
    let found = starts_with from (b ∷ bytes) in
    let rest = replace_from from to (if found then length from - 1 else 0) bytes in
    if found then to ++ rest else b ∷ rest

unfoldable pub replace : (from to : Bytes) → Bytes → Bytes
unfolding replace_from
replace from to bytes = replace_from from to 0 bytes

pub record RestAuthenticator : Type 0 where
  pub username_placeholder : Bytes
  pub password_placeholder : Bytes
  pub source_ip_placeholder : Bytes
  pub method : Bytes
  pub url : Bytes
  pub body : Bytes
  pub selector : Bytes
  pub regex : Bytes

-- A placeholder that is empty is not set.
pub filled : (placeholder value : Bytes) → Bytes → Bytes
unfolding replace
filled placeholder value string =
    if not (is_empty placeholder) then replace placeholder value string else string

unfoldable pub fill_encoded_placeholders :
    RestAuthenticator → (string username password source_ip : Bytes) → Bytes
unfolding filled
fill_encoded_placeholders self string username password source_ip =
    filled self.source_ip_placeholder source_ip
      (filled self.password_placeholder password (filled self.username_placeholder username string))

last_is_quote : Bytes → Bool
last_is_quote [] = false
last_is_quote (b ∷ []) = b == b'"'
last_is_quote (b ∷ c ∷ bytes) = last_is_quote (c ∷ bytes)

unfoldable pub trim_quotes : Bytes → Bytes
unfolding starts_with last_is_quote
trim_quotes string =
    if starts_with (b'"' ∷ []) string && (last_is_quote string && ltb 1 (length string))
    then take (length string - 2) (drop 1 string)
    else string

-- What the service and the crates give. `select` reads a body as JSON and looks up a pointer in it.
pub record Service : Type 0 where
  pub percent_encode : Bytes → Bytes
  pub json_string : Bytes → Option Bytes
  pub show_v6 : ℕ → Bytes
  pub is_uri : Bytes → Bool
  pub request : (method url body : Bytes) → Option Bytes
  pub select : (body selector : Bytes) → Option (Option Bytes)
  pub is_match : (regex string : Bytes) → Bool

pub data Login : Type 0 where
  default_user : Login

-- What comes from the client goes into the URL, percent-encoded, and into the body, as JSON.
module _ (service : Service) (self : RestAuthenticator) where
  -- `IpAddr::to_string`.
  show_ip : IpAddr → Bytes
  show_ip (v4 ip) =
      let o = octets ip in
      print_uint o.a
      ++ (b'.' ∷ print_uint o.b ++ (b'.' ∷ print_uint o.c ++ (b'.' ∷ print_uint o.d)))
  show_ip (v6 ip) = service.show_v6 ip

  or_propagated {ℓ} : {A : Type ℓ} → Bytes → Option A → Result AuthenticationError A
  or_propagated words none = err (impl_propagated words)
  or_propagated words (some a) = ok a

  json : Bytes → Result AuthenticationError Bytes
  unfolding or_propagated trim_quotes
  json string =
      or_propagated (text "serde_json") (service.json_string string) >>= λ s. ok (trim_quotes s)

  unfoldable pub request_url : (username password source_ip : Bytes) → Bytes
  unfolding fill_encoded_placeholders
  request_url username password source_ip =
      fill_encoded_placeholders self self.url (service.percent_encode username)
        (service.percent_encode password) (service.percent_encode source_ip)

  unfoldable pub request_body :
      (username password source_ip : Bytes) → Result AuthenticationError Bytes
  unfolding json fill_encoded_placeholders
  request_body username password source_ip = do
    u ← json username
    p ← json password
    i ← json source_ip
    ok (fill_encoded_placeholders self self.body u p i)

  -- A request of a text that is no URI is not sent.
  sent : (url body : Bytes) → Option Bytes
  sent url body = if service.is_uri url then service.request self.method url body else none

  or_null : Option Bytes → Bytes
  or_null none = text "null"
  or_null (some parsed) = parsed

  matched : Bytes → Result AuthenticationError Login
  matched parsed = if service.is_match self.regex parsed then ok default_user else err bad_password

  with_password : Bytes → IpAddr → Bytes → Result AuthenticationError Login
  unfolding show_ip or_propagated request_url request_body sent or_null matched
  with_password username ip password = do
    body ← request_body username password (show_ip ip)
    answer ←
        or_propagated (text "rest authenticator http client error")
          (sent (request_url username password (show_ip ip)) body)
    found ←
        or_propagated (text "rest authenticator unmarshalling error")
          (service.select answer self.selector)
    matched (or_null found)

  given : Option Bytes → Result AuthenticationError Bytes
  given none = err bad_password
  given (some password) = ok password

  unfoldable pub authenticate : Bytes → Credentials → Result AuthenticationError Login
  unfolding with_password given
  authenticate username creds =
      given creds.password >>= λ password. with_password username creds.source_ip password
