-- ===== src/Server/Setup/Tls.antt =====
-- src/server/tls.rs: the TLS settings of a server, from its files. The files, their PEM contents and
-- what rustls accepts are parameters.
use libunftp.Prelude.{
  ℕ, ◌/◌, ◌%◌, Bytes, Bool, true, false, Option, none, some, List, [], ◌∷◌, ◌++◌, ◌==◌,
  if◌then◌else◌,
}
use libunftp.Prelude.Result.{Result, ok, err, ◌>>=◌}

pub data ConfigError : Type 0 where
  no_private_key load root_certs rustls_init client_verifier : ConfigError

pub data FtpsClientAuth : Type 0 where
  off request require : FtpsClientAuth

pub data PrivateKey : Type 0 where
  pkcs1 pkcs8 sec1 : Bytes → PrivateKey

-- An item of a PEM file.
pub data Item : Type 0 where
  key : PrivateKey → Item
  other : Item

pub data Version : Type 0 where
  tls12 tls13 : Version

pub data Verifier : Type 0 where
  no_client_auth : Verifier
  web_pki : (store : List Bytes) (allow_unauthenticated : Bool) → Verifier

pub record ServerConfig : Type 0 where
  pub versions : List Version
  pub client_cert_verifier : Verifier
  pub certs : List Bytes
  pub privkey : PrivateKey
  pub session_cache : Bool
  pub tickets : Bool

pub record Rustls : Type 0 where
  pub read_file : Bytes → Option Bytes
  pub pem_certs : Bytes → List (Option Bytes)
  pub pem_items : Bytes → List (Option Item)
  pub is_trust_anchor : Bytes → Bool
  pub is_verifier : (store : List Bytes) → Bool
  pub has_suites : List Version → Bool
  pub is_pair : List Bytes → PrivateKey → Bool
  pub ticketer : Bool

-- The flags of `TlsFlags`, and the test whether one of them is set.
abbrev pub v1_2 : ℕ
v1_2 = 1

abbrev pub v1_3 : ℕ
v1_3 = 2

abbrev pub resumption_sess_id : ℕ
resumption_sess_id = 8

abbrev pub resumption_tickets : ℕ
resumption_tickets = 16

contains : (flags flag : ℕ) → Bool
contains flags flag = flags / flag % 2 == 1

loaded : {A : Type 0} → Option A → Result ConfigError A
loaded none = err load
loaded (some a) = ok a

checked : ConfigError → Bool → Result ConfigError (Unit {0})
checked e true = ok tt
checked e false = err e

module _ (rustls : Rustls) where
  collect : List (Option Bytes) → Result ConfigError (List Bytes)
  unfolding loaded
  collect [] = ok []
  collect (c ∷ cs) =
      let rest = collect cs in loaded c >>= λ cert. rest >>= λ certs. ok (cert ∷ certs)

  load_certs : Bytes → Result ConfigError (List Bytes)
  unfolding loaded collect
  load_certs filename =
      loaded (rustls.read_file filename) >>= λ file. collect (rustls.pem_certs file)

  -- The first key of the file.
  first_key : List (Option Item) → Result ConfigError PrivateKey
  first_key [] = err no_private_key
  first_key (none ∷ items) = err load
  first_key (some (key k) ∷ items) = ok k
  first_key (some other ∷ items) = first_key items

  load_private_key : Bytes → Result ConfigError PrivateKey
  unfolding loaded first_key
  load_private_key filename =
      loaded (rustls.read_file filename) >>= λ file. first_key (rustls.pem_items file)

  added : (store : List Bytes) → List Bytes → Result ConfigError (List Bytes)
  unfolding checked
  added store [] = ok store
  added store (cert ∷ certs) =
      checked root_certs (rustls.is_trust_anchor cert) >>= λ done. added (store ++ cert ∷ []) certs

  root_cert_store : Bytes → Result ConfigError (List Bytes)
  unfolding load_certs added
  root_cert_store trust_pem = load_certs trust_pem >>= λ certs. added [] certs

  web_pki_verifier :
      (trust_store : Bytes) (allow_unauthenticated : Bool) → Result ConfigError Verifier
  unfolding root_cert_store checked
  web_pki_verifier trust_store allow_unauthenticated = do
    store ← root_cert_store trust_store
    built ← checked client_verifier (rustls.is_verifier store)
    ok (web_pki store allow_unauthenticated)

  client_auther : FtpsClientAuth → (trust_store : Bytes) → Result ConfigError Verifier
  unfolding web_pki_verifier
  client_auther off trust_store = ok no_client_auth
  client_auther request trust_store = web_pki_verifier trust_store true
  client_auther require trust_store = web_pki_verifier trust_store false

  versions_of : (flags : ℕ) → List Version
  unfolding contains
  versions_of flags =
      (if contains flags v1_2 then tls12 ∷ [] else [])
      ++ (if contains flags v1_3 then tls13 ∷ [] else [])

  unfoldable pub new_config :
      (certs_file key_file : Bytes) (flags : ℕ) (client_auth : FtpsClientAuth) (trust_store : Bytes)
      → Result ConfigError ServerConfig
  unfolding load_certs load_private_key client_auther checked versions_of contains
  new_config certs_file key_file flags client_auth trust_store = do
    certs ← load_certs certs_file
    privkey ← load_private_key key_file
    verifier ← client_auther client_auth trust_store
    suites ← checked rustls_init (rustls.has_suites (versions_of flags))
    pair ← checked rustls_init (rustls.is_pair certs privkey)
    ticketer ←
        checked rustls_init (if contains flags resumption_tickets then rustls.ticketer else true)
    ok (record {
      versions = versions_of flags;
      client_cert_verifier = verifier;
      certs = certs;
      privkey = privkey;
      session_cache = contains flags resumption_sess_id;
      tickets = contains flags resumption_tickets;
    })
