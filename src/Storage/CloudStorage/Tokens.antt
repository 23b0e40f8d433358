-- ===== src/Storage/CloudStorage/Tokens.antt =====
-- The access tokens of crates/unftp-sbe-gcs/src/gcs_client.rs and their cache, with options.rs and
-- workload_identity.rs. Times are seconds. JSON, the authorization by a service account's key and the
-- metadata server are parameters.
use libunftp.Prelude.{
  ℕ, ◌+◌, ◌^◌, Bytes, Bool, false, Option, none, some, ◌++◌, text, ltb, is_empty, if◌then◌else◌,
}
use libunftp.Prelude.Result.{Result, ok, err, ◌>>=◌}
use libunftp.Server.Messages.{permanent_file_not_available}
use libunftp.Storage.{Error, IoError, other, from_io}
use libunftp.Storage.CloudStorage.Client.{of_kind}

pub record Token : Type 0 where
  pub value : Bytes
  pub expires_at : Option ℕ

pub data AuthMethod : Type 0 where
  without : AuthMethod
  service_account_key : (key : Bytes) → AuthMethod
  workload_identity : (service : Option Bytes) → AuthMethod

pub record TokenResponse : Type 0 where
  pub token_type : Bytes
  pub access_token : Bytes
  pub expires_in : ℕ

-- An `AccessToken` comes with the time of its end. Of the metadata server it is told that it does not
-- answer, or what its answer holds, which may break off.
pub record Issuer : Type 0 where
  pub is_key : Bytes → Bool
  pub access_token : (key : Bytes) → Result Error Token
  pub metadata_server : (uri : Bytes) → Option (Option Bytes)
  pub response_of_json : Bytes → Option TokenResponse

-- `From<Vec<u8>>`, and `TryFrom<PathBuf>` on what was read of the file, if one is given.
of_key : Bytes → AuthMethod
of_key key = if is_empty key then workload_identity none else service_account_key key

of_file : Result IoError Bytes → Result IoError AuthMethod
unfolding of_key
of_file (err e) = err e
of_file (ok key) = ok (of_key key)

of_path : Option (Result IoError Bytes) → Result IoError AuthMethod
unfolding of_file
of_path (some file) = of_file file
of_path none = ok (workload_identity none)

-- The kind `InvalidData`, which is none of those that the conversion of errors looks for.
abbrev invalid_data : IoError
invalid_data = record { kind = other; raw_os_error = none }

to_service_account_key : Issuer → AuthMethod → Result IoError Bytes
to_service_account_key issuer (service_account_key key) =
    if issuer.is_key key then ok key else err invalid_data
to_service_account_key issuer _ = err invalid_data

io_error : {A : Type 0} → Result IoError A → Result Error A
unfolding from_io
io_error (err e) = err (from_io e)
io_error (ok a) = ok a

service_name : Option Bytes → Bytes
unfolding text
service_name none = text "default"
service_name (some service) = service

token_uri : Option Bytes → Bytes
unfolding service_name text
token_uri service =
    text "http://metadata.google.internal/computeMetadata/v1/instance/service-accounts/"
    ++ (service_name service ++ text "/token")

or_unavailable : {A : Type 0} → Option A → Result Error A
or_unavailable none = err (of_kind permanent_file_not_available)
or_unavailable (some a) = ok a

-- The status of the answer is not looked at.
unfoldable pub request_token : Issuer → Option Bytes → Result Error TokenResponse
unfolding token_uri or_unavailable
request_token issuer service = do
  response ← or_unavailable (issuer.metadata_server (token_uri service))
  body ← or_unavailable response
  or_unavailable (issuer.response_of_json body)

abbrev pub safety_margin : ℕ
safety_margin = 5

-- `expires_at > now - SAFETY_MARGIN`, for times that may lie before the epoch.
unfoldable pub active : (now : ℕ) → Option ℕ → Bool
active now none = false
active now (some expires_at) = ltb now (expires_at + safety_margin)

unfoldable pub get_if_active : (now : ℕ) → Token → Option Token
unfolding active
get_if_active now token = if active now token.expires_at then some token else none

-- `CachedToken::get`.
cached : (now : ℕ) → Option Token → Option Token
unfolding get_if_active
cached now none = none
cached now (some token) = get_if_active now token

-- `From<TokenResponse>`, with the seconds as an `i64`, or none if they do not fit one.
lasting : ℕ → ℕ
lasting expires_in = if ltb expires_in (2 ^ 63) then expires_in else 0

of_response : (now : ℕ) → TokenResponse → Token
unfolding lasting
of_response now source = record {
  value = source.access_token;
  expires_at = some (now + lasting source.expires_in);
}

unfoldable pub fetch_token : Issuer → (now : ℕ) → AuthMethod → Result Error Token
unfolding of_response to_service_account_key io_error request_token text
fetch_token issuer now (service_account_key key) =
    io_error (to_service_account_key issuer (service_account_key key)) >>= λ key.
    issuer.access_token key
fetch_token issuer now (workload_identity service) =
    request_token issuer service >>= λ t. ok (of_response now t)
fetch_token issuer now without = ok (record { value = text "unftp_test"; expires_at = none })

-- The value, and the cache afterwards. A token that was fetched is kept.
kept : Option Token → Result Error Token → Result Error Bytes × Option Token
kept cache (err e) = (err e, cache)
kept cache (ok token) = (ok token.value, some token)

answered : Option Token → Option Token → Result Error Token → Result Error Bytes × Option Token
unfolding kept
answered cache (some token) fetched = (ok token.value, cache)
answered cache none fetched = kept cache fetched

-- `TokenSource::token`.
unfoldable pub token :
    Issuer → AuthMethod → (now : ℕ) → Option Token → Result Error Bytes × Option Token
unfolding cached fetch_token answered
token issuer auth now cache = answered cache (cached now cache) (fetch_token issuer now auth)
