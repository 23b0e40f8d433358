-- ===== src/Auth/JsonFile/Check/LetIn.antt =====
-- Who is let in by the authenticator, and who is told that the address is not allowed.
use mathlib.Core.Path.{subst}
use mathlib.Core.Option.{some-injective}
use mathlib.Core.Bool.{false≢true}
use libunftp.Prelude.{
  Bytes, ◌≡◌, ◌≢◌, ◌↔◌, refl, sym, Bool, true, false, Option, none, some, bytes_eq, arith,
}
use libunftp.Prelude.Result.{Result, ok, err}
use libunftp.Std.HashMap
use libunftp.Auth.{CertError, ip_disallowed, Credentials, verify_cn}
use libunftp.Auth.JsonFile.{
  ClientCertCredential, Password, plain_password, pbkdf2_password, UserCreds, Crates,
  CredentialsMap,
}
use libunftp.Auth.JsonFile.Check.{
  good, bad, check_password, ip_ok, ip_check, cn_verified, cert_check, cn_check, pass_check,
  certificate, authenticate_user, authenticate, sufficient, cert_auth_sufficient, without_password,
}
use libunftp.Auth.JsonFile.Check.Verdict.{
  IsIdentified, IsPassword, IsCertified, combined_iff, combined-ip_disallowed_iff, identified_iff,
  ip_check-good_iff,
}

module _ {Net : Type 0} (crates : Crates Net) where
  user-good_iff :
      (creds : Credentials) (entry : Option (UserCreds Net))
      → (authenticate_user crates creds entry ≡ good) ↔ (
          (actual : UserCreds Net) × ((entry ≡ some actual)
            × (IsIdentified crates creds actual × (ip_ok crates creds actual ≡ true))))
  unfolding authenticate_user
  user-good_iff creds none = (λ e. ground arith, λ (actual, (e, _)). ground arith)
  user-good_iff creds (some actual) =
      let f = combined_iff crates _ _ (ip_check crates creds actual) in
      let g = identified_iff crates creds actual in
      let h = (ip_check-good_iff crates creds actual).0 in
      (
        λ e. (actual, (refl, (g.0 (f.0 e).0, h.0 (f.0 e).1))),
        λ (x, (e, (i, a))).
            let same = sym (some-injective actual x e) in
            f.1 (
              g.1 (subst (IsIdentified crates creds) same i),
              h.1 (subst (λ y. ip_ok crates creds y ≡ true) same a),
            ),
      )

  -- A user is let in exactly where the file has an entry of the name, the user is identified by it, and
  -- it allows the address.
  pub authenticate-good_iff :
      (map : CredentialsMap crates) (username : Bytes) (creds : Credentials)
      → (authenticate crates map username creds ≡ good) ↔ (
          (actual : UserCreds Net) × ((HashMap.get bytes_eq username map ≡ some actual)
            × (IsIdentified crates creds actual × (ip_ok crates creds actual ≡ true))))
  unfolding authenticate
  authenticate-good_iff map username creds = user-good_iff creds (HashMap.get bytes_eq username map)

  pass_check-other :
      (given : Option Bytes) (actual : Password)
      → pass_check crates given actual ≢ some (bad ip_disallowed)
  unfolding pass_check
  pass_check-other none actual = λ e. ground arith
  pass_check-other (some given) actual = λ e. ground arith

  cn_verified-other : (r : Result CertError Bool) → cn_verified crates r ≢ bad ip_disallowed
  unfolding cn_verified
  cn_verified-other (ok true) = λ e. ground arith
  cn_verified-other (ok false) = λ e. ground arith
  cn_verified-other (err x) = λ e. ground arith

  cert_check-other :
      (cn : Option Bytes) (cert : Bytes) → cert_check crates cn cert ≢ bad ip_disallowed
  unfolding cert_check
  cert_check-other none cert = λ e. ground arith
  cert_check-other (some cn) cert = cn_verified-other (verify_cn crates.subject cert cn)

  cn_check-other :
      (client_cert : Option ClientCertCredential) (cert : Option Bytes)
      → cn_check crates client_cert cert ≢ some (bad ip_disallowed)
  unfolding cn_check
  cn_check-other none cert = λ e. ground arith
  cn_check-other (some client_cert) none = λ e. ground arith
  cn_check-other (some client_cert) (some cert) =
      λ e. cert_check-other client_cert.allowed_cn cert (some-injective _ _ e)

  user-ip_disallowed_iff :
      (creds : Credentials) (entry : Option (UserCreds Net))
      → (authenticate_user crates creds entry ≡ bad ip_disallowed) ↔ (
          (actual : UserCreds Net) × ((entry ≡ some actual)
            × (IsIdentified crates creds actual × (ip_ok crates creds actual ≡ false))))
  unfolding authenticate_user
  user-ip_disallowed_iff creds none = (λ e. ground arith, λ (actual, (e, _)). ground arith)
  user-ip_disallowed_iff creds (some actual) =
      let f =
        combined-ip_disallowed_iff crates _ _ (ip_check crates creds actual)
          (pass_check-other creds.password actual.password) (cn_check-other actual.client_cert _) in
      let g = identified_iff crates creds actual in
      let h = (ip_check-good_iff crates creds actual).1 in
      (
        λ e. (actual, (refl, (g.0 (f.0 e).0, h.0 (f.0 e).1))),
        λ (x, (e, (i, a))).
            let same = sym (some-injective actual x e) in
            f.1 (
              g.1 (subst (IsIdentified crates creds) same i),
              h.1 (subst (λ y. ip_ok crates creds y ≡ false) same a),
            ),
      )

  -- A user is told that the address is not allowed exactly where the user is identified by an entry
  -- of the name, and the entry does not allow the address.
  pub authenticate-ip_disallowed_iff :
      (map : CredentialsMap crates) (username : Bytes) (creds : Credentials)
      → (authenticate crates map username creds ≡ bad ip_disallowed) ↔ (
          (actual : UserCreds Net) × ((HashMap.get bytes_eq username map ≡ some actual)
            × (IsIdentified crates creds actual × (ip_ok crates creds actual ≡ false))))
  unfolding authenticate
  authenticate-ip_disallowed_iff map username creds =
      user-ip_disallowed_iff creds (HashMap.get bytes_eq username map)

  no_password :
      (given : Option Bytes) (actual : Password) (client_cert : Option ClientCertCredential)
      (cert : Option Bytes)
      → without_password crates actual client_cert ≡ true
      → IsPassword crates given actual
      → IsCertified crates client_cert cert
      → (given ≡ none) × ((c : Bytes) × (cert ≡ some c))
  unfolding without_password check_password
  no_password none (plain_password none) (some cc) (some c) w p i = (refl, (c, refl))
  no_password none (plain_password none) (some cc) none w p i = elim i [ ]
  no_password (some g) (plain_password none) (some cc) cert w p i = absurd (false≢true p)
  no_password given (plain_password none) none cert w p i = absurd (false≢true w)
  no_password given (plain_password (some x)) client_cert cert w p i = absurd (false≢true w)
  no_password given (pbkdf2_password x y z) client_cert cert w p i = absurd (false≢true w)

  user-sufficient :
      (creds : Credentials) (entry : Option (UserCreds Net))
      → sufficient crates entry ≡ true
      → authenticate_user crates creds entry ≡ good
      → (creds.password ≡ none)
        × ((cert : Bytes) × (certificate crates creds.certificate_chain ≡ some cert))
  unfolding sufficient
  user-sufficient creds none s e = absurd (false≢true s)
  user-sufficient creds (some actual) s e =
      let (x, (same, (i, _))) = (user-good_iff creds (some actual)).0 e in
      let w =
        subst (λ y. without_password crates y.password y.client_cert ≡ true)
          (some-injective actual x same) s in
      no_password creds.password x.password x.client_cert _ w i.0 i.1.0

  -- A user whose certificate is said to be sufficient is let in only with a certificate and without any
  -- password: one that is given all the same is refused.
  pub authenticate-cert_auth_sufficient :
      (map : CredentialsMap crates) (username : Bytes) (creds : Credentials)
      → cert_auth_sufficient crates map username ≡ true
      → authenticate crates map username creds ≡ good
      → (creds.password ≡ none)
        × ((cert : Bytes) × (certificate crates creds.certificate_chain ≡ some cert))
  unfolding authenticate cert_auth_sufficient
  authenticate-cert_auth_sufficient map username creds s e =
      user-sufficient creds (HashMap.get bytes_eq username map) s e
