-- ===== src/Storage/CloudStorage/Requests.antt =====
-- A chain of requests to Google Cloud Storage, as the methods of crates/unftp-sbe-gcs/src/gcs_client.rs
-- make it with the `?` operator: the requests that were sent, in their order, and the result.
use libunftp.Prelude.{Bytes, ◌≡◌, refl, List, [], ◌++◌, All, All-append}
use libunftp.Prelude.Result.{Result, ok, err}
use libunftp.Storage.{Error}

pub data Method : Type 0 where
  get post delete : Method

pub record Request : Type 0 where
  pub method : Method
  pub uri : Bytes
  pub body : Bytes
  pub headers : List (Bytes × Bytes)

pub record Calls (A : Type 0) : Type 0 where
  pub requests : List Request
  pub result : Result Error A

-- What follows is not reached after an error.
abbrev pub followed : {A B : Type 0} → List Request → Result Error A → (A → Calls B) → Calls B
followed sent (err e) next = record { requests = sent; result = err e }
followed sent (ok a) next = record {
  requests = sent ++ (next a).requests;
  result = (next a).result;
}

infixl 5 ◌>>=◌
abbrev pub ◌>>=◌ : {A B : Type 0} → Calls A → (A → Calls B) → Calls B
m >>= next = followed m.requests m.result next

-- What is computed without a request.
abbrev pub lift : {A : Type 0} → Result Error A → Calls A
lift result = record { requests = []; result = result }

by_result :
    {A B : Type 0} (P : Request → Type 0) (sent : List Request) (result : Result Error A)
    (next : A → Calls B)
    → All P sent
    → ((a : A) → result ≡ ok a → All P (next a).requests)
    → All P (followed sent result next).requests
by_result P sent (err e) next h k = h
by_result P sent (ok a) next h k = All-append P sent (next a).requests h (k a refl)

-- A chain sends requests of a kind if each of its parts does.
pub bind-requests :
    {A B : Type 0} (P : Request → Type 0) (m : Calls A) (next : A → Calls B)
    → All P m.requests
    → ((a : A) → m.result ≡ ok a → All P (next a).requests)
    → All P (m >>= next).requests
bind-requests P m next h k = by_result P m.requests m.result next h k
