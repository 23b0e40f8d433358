-- ===== src/Auth/Rest/Tests.antt =====
-- A REST authenticator whose service accepts the body `bob:pw`.
use libunftp.Prelude.{Bytes, ◌≡◌, refl, none, some, [], text, bytes_eq, if◌then◌else◌}
use libunftp.Prelude.Result.{ok, err}
use libunftp.Auth.{v4, Credentials, bad_password}
use libunftp.Auth.Rest.{
  RestAuthenticator, Service, fill_encoded_placeholders, trim_quotes, default_user, authenticate,
}

abbrev rest : RestAuthenticator
rest = record {
  username_placeholder = text "{U}";
  password_placeholder = text "{P}";
  source_ip_placeholder = [];
  method = text "POST";
  url = text "http://localhost/";
  body = text "{U}:{P}";
  selector = text "/ok";
  regex = text "true";
}

abbrev service : Service
service = record {
  percent_encode = λ string. string;
  json_string = some;
  show_v6 = λ ip. [];
  is_uri = λ url. bytes_eq url (text "http://localhost/");
  request = λ method url body. some body;
  select =
      λ body selector. some (if bytes_eq body (text "bob:pw") then some (text "true") else none);
  is_match = bytes_eq;
}

abbrev creds : Bytes → Credentials
creds password = record {
  password = some password;
  certificate_chain = none;
  source_ip = v4 0x7F000001;
}

authenticate-bob : authenticate service rest (text "bob") (creds (text "pw")) ≡ ok default_user
unfolding authenticate bytes_eq text
authenticate-bob = refl

authenticate-mallory :
    authenticate service rest (text "mallory") (creds (text "pw")) ≡ err bad_password
unfolding authenticate bytes_eq text
authenticate-mallory = refl

-- A user name that holds the placeholder of the password is given the password.
fill-placeholder :
    fill_encoded_placeholders rest (text "{U}:{P}") (text "{P}") (text "pw") [] ≡ text "pw:pw"
unfolding fill_encoded_placeholders text
fill-placeholder = refl

trim_quotes-quoted : trim_quotes (text "\"bob\"") ≡ text "bob"
unfolding trim_quotes text
trim_quotes-quoted = refl
