-- ===== src/Auth/JsonFile/Check/Verdict.antt =====
-- What a user must show, and that the checks of `authenticate` find it.
use mathlib.Core.Bool.{false≢true}
use libunftp.Prelude.{
  Bytes, ◌≡◌, ◌≢◌, ◌↔◌, refl, ap, ◌∙◌, Bool, true, false, ◌&&◌, ◌||◌, Option, none, some, arith,
}
use libunftp.Auth.{ip_disallowed, Credentials, verify_cn, contains, verified}
use libunftp.Auth.JsonFile.{ClientCertCredential, Password, UserCreds, Crates}
use libunftp.Auth.JsonFile.Check.{
  Checked, good, bad, is_some, check_password, ip_ok, ip_check, cn_verified, cert_check, cn_check,
  pass_check, either_res, both_res, combined, certificate,
}

three :
    (P Q : Type 0) (p q b : Bool)
    → ((p ≡ true) ↔ P)
    → ((q ≡ true) ↔ Q)
    → ((p && (q && b)) ≡ true) ↔ (P × (Q × (b ≡ true)))
three P Q true true b f g = (λ e. (f.0 refl, (g.0 refl, e)), λ (x, (y, e)). e)
three P Q true false b f g = (λ e. ground arith, λ (x, (y, e)). absurd (false≢true (g.1 y)))
three P Q false q b f g = (λ e. ground arith, λ (x, (y, e)). absurd (false≢true (f.1 x)))

module _ {Net : Type 0} (crates : Crates Net) where
  -- A password, where one is given, is that of the user.
  abbrev pub IsPassword : Option Bytes → Password → Type 0
  IsPassword none actual = Unit
  IsPassword (some given) actual = check_password crates given actual ≡ true

  -- The first certificate has a subject that holds the name, where there is a name.
  abbrev pub IsNamed : Option Bytes → Bytes → Type 0
  IsNamed none cert = Unit
  IsNamed (some cn) cert =
      (subject : Bytes) × ((crates.subject cert ≡ some subject) × (contains cn subject ≡ true))

  abbrev pub IsCertified : Option ClientCertCredential → Option Bytes → Type 0
  IsCertified none cert = Unit
  IsCertified (some client_cert) none = ⊥
  IsCertified (some client_cert) (some cert) = IsNamed client_cert.allowed_cn cert

  -- All that a user must show, from whatever address.
  abbrev pub IsIdentified : Credentials → UserCreds Net → Type 0
  IsIdentified creds actual =
      IsPassword creds.password actual.password
      × (IsCertified actual.client_cert (certificate crates creds.certificate_chain)
          × ((is_some creds.password || is_some actual.client_cert) ≡ true))

  -- A check that was made and passed, or was not made.
  pub passes : Option Checked → Bool
  passes none = true
  passes (some good) = true
  passes (some (bad e)) = false

  pass_iff :
      (given : Option Bytes) (actual : Password)
      → (passes (pass_check crates given actual) ≡ true) ↔ IsPassword given actual
  unfolding passes pass_check
  pass_iff none actual = ground arith
  pass_iff (some given) actual = ground arith

  subject_iff :
      (cn : Bytes) (o : Option Bytes)
      → (passes (some (cn_verified crates (verified cn o))) ≡ true)
        ↔ ((subject : Bytes) × ((o ≡ some subject) × (contains cn subject ≡ true)))
  unfolding passes cn_verified verified
  subject_iff cn none = (λ e. ground arith, λ (subject, (e, _)). ground arith)
  subject_iff cn (some subject) = (
    λ e. (subject, (refl, ground arith)),
    λ (other, (e, holds)).
        let same : subject ≡ other = cc in
        let here : contains cn subject ≡ true = ap (contains cn) same ∙ holds in rw here refl,
  )

  cert_iff :
      (cn : Option Bytes) (cert : Bytes)
      → (passes (some (cert_check crates cn cert)) ≡ true) ↔ IsNamed cn cert
  unfolding passes cert_check cn_verified verify_cn verified
  cert_iff none cert = ground arith
  cert_iff (some cn) cert = subject_iff cn (crates.subject cert)

  cn_iff :
      (client_cert : Option ClientCertCredential) (cert : Option Bytes)
      → (passes (cn_check crates client_cert cert) ≡ true) ↔ IsCertified client_cert cert
  unfolding passes cn_check
  cn_iff none cert = ground arith
  cn_iff (some client_cert) none = ground arith
  cn_iff (some client_cert) (some cert) = cert_iff client_cert.allowed_cn cert

  -- The checks that count before the address.
  abbrev pub identified : Option Checked → Option Checked → Bool
  identified p c = passes p && (passes c && (is_some p || is_some c))

  pub combined_iff :
      (p c : Option Checked) (ip_res : Checked)
      → (combined crates p c ip_res ≡ good) ↔ ((identified p c ≡ true) × (ip_res ≡ good))
  unfolding combined either_res both_res passes
  combined_iff none none ip_res = ground arith
  combined_iff none (some good) ip_res = ground arith
  combined_iff none (some (bad e)) ip_res = ground arith
  combined_iff (some good) none ip_res = ground arith
  combined_iff (some (bad e)) none ip_res = ground arith
  combined_iff (some good) (some good) ip_res = ground arith
  combined_iff (some good) (some (bad e)) ip_res = ground arith
  combined_iff (some (bad e)) (some c) ip_res = ground arith

  pub combined-ip_disallowed_iff :
      (p c : Option Checked) (ip_res : Checked)
      → p ≢ some (bad ip_disallowed)
      → c ≢ some (bad ip_disallowed)
      → (combined crates p c ip_res ≡ bad ip_disallowed)
        ↔ ((identified p c ≡ true) × (ip_res ≡ bad ip_disallowed))
  unfolding combined either_res both_res passes
  combined-ip_disallowed_iff none none ip_res h k = ground arith
  combined-ip_disallowed_iff none (some good) ip_res h k = ground arith
  combined-ip_disallowed_iff none (some (bad e)) ip_res h k = ground arith
  combined-ip_disallowed_iff (some good) none ip_res h k = ground arith
  combined-ip_disallowed_iff (some (bad e)) none ip_res h k = ground arith
  combined-ip_disallowed_iff (some good) (some good) ip_res h k = ground arith
  combined-ip_disallowed_iff (some good) (some (bad e)) ip_res h k = ground arith
  combined-ip_disallowed_iff (some (bad e)) (some c) ip_res h k = ground arith

  is_some-pass_check :
      (given : Option Bytes) (actual : Password)
      → is_some (pass_check crates given actual) ≡ is_some given
  unfolding pass_check
  is_some-pass_check none actual = refl
  is_some-pass_check (some given) actual = ground arith

  is_some-cn_check :
      (client_cert : Option ClientCertCredential) (cert : Option Bytes)
      → is_some (cn_check crates client_cert cert) ≡ is_some client_cert
  unfolding cn_check
  is_some-cn_check none cert = refl
  is_some-cn_check (some client_cert) none = refl
  is_some-cn_check (some client_cert) (some cert) = refl

  pub identified_iff :
      (creds : Credentials) (actual : UserCreds Net)
      → (identified
            (pass_check crates creds.password actual.password)
            (cn_check crates actual.client_cert (certificate crates creds.certificate_chain))
          ≡ true)
        ↔ IsIdentified creds actual
  identified_iff creds actual =
      let cert = certificate crates creds.certificate_chain in
      rw
        (
          is_some-pass_check creds.password actual.password,
          is_some-cn_check actual.client_cert cert,
        )
        (three _ _ _ _ _ (pass_iff creds.password actual.password) (cn_iff actual.client_cert cert))

  pub ip_check-good_iff :
      (creds : Credentials) (actual : UserCreds Net)
      → ((ip_check crates creds actual ≡ good) ↔ (ip_ok crates creds actual ≡ true))
        × ((ip_check crates creds actual ≡ bad ip_disallowed) ↔ (ip_ok crates creds actual ≡ false))
  unfolding ip_check
  ip_check-good_iff creds actual = ground arith
