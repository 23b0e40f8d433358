-- ===== src/Auth/JsonFile/Loading.antt =====
-- What is read from the file: the users of the last entries, in whichever of the three formats.
use libunftp.Prelude.{
  Bytes, ◌≡◌, ◌↔◌, refl, sym, ap, ◌∙◌, true, false, Option, none, some, List, [], ◌∷◌,
  if◌then◌else◌, bytes_eq, bytes_eq_refl, eq_of_bytes_eq, arith,
}
use libunftp.Prelude.Result.{Result, ok, err, bind-ok, ok-injective, err-ne-ok}
use libunftp.Std.HashMap
use libunftp.Auth.{starts_with}
use libunftp.Auth.JsonFile.{
  Entry, pbkdf2, plaintext, UserCreds, LoadError, Crates, CredentialsMap, ok_or,
  list_entry_to_map_entry, collect, from_json, is_gz, is_base64gz, unbroken, unpacked, json_of,
  from_file, bad_json,
}

abbrev pub username_of : Entry → Bytes
username_of (pbkdf2 username salt key iter client_cert ranges) = username
username_of (plaintext username password client_cert ranges) = username

bytes_eq_iff : (a b : Bytes) → (bytes_eq a b ≡ true) ↔ (a ≡ b)
bytes_eq_iff a b = (eq_of_bytes_eq a b, λ e. rw e (bytes_eq_refl b))

abbrev pub or_else {ℓ} : {A : Type ℓ} → Option A → Option A → Option A
or_else none b = b
or_else (some a) b = some a

or_else_assoc {ℓ} :
    {A : Type ℓ} (a b c : Option A) → or_else (or_else a b) c ≡ or_else a (or_else b c)
or_else_assoc none b c = refl
or_else_assoc (some a) b c = refl

or_else-none {ℓ} : {A : Type ℓ} (a : Option A) → or_else a none ≡ a
or_else-none none = refl
or_else-none (some a) = refl

ok_or-ok {ℓ} : {A : Type ℓ} (e : LoadError) (o : Option A) (a : A) → ok_or e o ≡ ok a → o ≡ some a
ok_or-ok e none a p = absurd (err-ne-ok e a p)
ok_or-ok e (some b) a p = ap some (ok-injective b a p)

gz_not_base64gz : (file : Bytes) → is_gz file ≡ true → is_base64gz file ≡ false
unfolding is_gz is_base64gz starts_with
gz_not_base64gz [] e = ground arith
gz_not_base64gz (b ∷ bs) e = ground arith

module _ {Net : Type 0} (crates : Crates Net) where
  -- The user of one entry, if it has the name, and of the last such entry of a list.
  abbrev pub user_of : Bytes → Result LoadError (Bytes × UserCreds Net) → Option (UserCreds Net)
  user_of name (err e) = none
  user_of name (ok (username, creds)) = if bytes_eq username name then some creds else none

  unfoldable pub last_user : Bytes → List Entry → Option (UserCreds Net)
  last_user name [] = none
  last_user name (e ∷ es) =
      or_else (last_user name es) (user_of name (list_entry_to_map_entry crates e))

  entry-last_user :
      (name : Bytes) (p : Bytes × UserCreds Net) (map : CredentialsMap crates)
      → HashMap.get bytes_eq name (HashMap.insert bytes_eq p.0 p.1 map)
        ≡ or_else (user_of name (ok p)) (HashMap.get bytes_eq name map)
  entry-last_user name (username, creds) map =
      HashMap.get-insert bytes_eq bytes_eq_iff username name creds map ∙ ground arith

  collect-last_user :
      (es : List Entry) (map result : CredentialsMap crates) (name : Bytes)
      → collect crates map es ≡ ok result
      → HashMap.get bytes_eq name result
        ≡ or_else (last_user name es) (HashMap.get bytes_eq name map)
  unfolding collect last_user
  collect-last_user [] map result name e =
      ap (HashMap.get bytes_eq name) (sym (ok-injective map result e))
  collect-last_user (x ∷ es) map result name e =
      let (p, (same, run)) =
        bind-ok (list_entry_to_map_entry crates x)
          (λ p. collect crates (HashMap.insert bytes_eq p.0 p.1 map) es) result e in
      rw same (
        collect-last_user es (HashMap.insert bytes_eq p.0 p.1 map) result name run
        ∙ ap (or_else (last_user name es)) (entry-last_user name p map)
        ∙ sym (
            or_else_assoc (last_user name es) (user_of name (ok p))
              (HashMap.get bytes_eq name map)))

  -- Where a JSON text is read, it is a list of entries, and the user of any name is that of the last
  -- entry of the name.
  pub from_json-last_user :
      (json : Bytes) (map : CredentialsMap crates)
      → from_json crates json ≡ ok map
      → (entries : List Entry) × ((crates.from_str json ≡ some entries)
          × ((name : Bytes) → HashMap.get bytes_eq name map ≡ last_user name entries))
  unfolding from_json HashMap.get
  from_json-last_user json map e =
      let (entries, (read, run)) =
        bind-ok (ok_or bad_json (crates.from_str json)) (collect crates []) map e in
      (
        entries,
        (
          ok_or-ok _ (crates.from_str json) entries read,
          λ name. collect-last_user entries [] map name run ∙ or_else-none (last_user name entries),
        ),
      )

  -- A file of plain text, the same text packed by gzip, and what is packed in base64 with line breaks
  -- anywhere behind its first four bytes give the same users or the same error, provided that the
  -- packed bytes and the base64 start as those formats do, and that the text does not.
  pub from_file-formats :
      (plain gz base64 : Bytes)
      → is_gz plain ≡ false
      → is_base64gz plain ≡ false
      → is_gz gz ≡ true
      → crates.gunzip gz ≡ some plain
      → is_base64gz base64 ≡ true
      → crates.base64_decode (unbroken base64) ≡ some gz
      → (from_file crates (some base64) ≡ from_file crates (some plain))
        × (from_file crates (some gz) ≡ from_file crates (some plain))
  unfolding from_file json_of unpacked
  from_file-formats plain gz base64 p q g u b d =
      (rw (b, d, p, q, u) refl, rw (gz_not_base64gz gz g, g, p, q, u) refl)
