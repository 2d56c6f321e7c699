-- ===== src/Http/Exec.antt =====
-- The body of a background task: it reads and writes a state, may send a response and leave, and
-- may throw. What was written before stays written.
use irods_client_http_api.Prelude.{Bytes, Option, none, some, Bool, true, false}
use irods_client_http_api.Http.{ℤ, Response, internal_server_error, json, irods_error}

-- The exception classes that the handlers tell apart.
pub data Exn : Type 0 where
  irods_exception : ℤ → Bytes → Exn
  filesystem_error : ℤ → Bytes → Exn
  std_exception : Exn

pub data Outcome (A : Type 0) : Type 0 where
  value : A → Outcome A
  sent : Response → Outcome A
  thrown : Exn → Outcome A

abbrev pub Exec : Type 0 → Type 0 → Type 0
Exec S A = S → Outcome A × S

module _ {S : Type 0} where
  abbrev pub pure : {A : Type 0} → A → Exec S A
  pure a s = (value a, s)

  -- `return _sess_ptr->send(…)`
  abbrev pub send : {A : Type 0} → Response → Exec S A
  send r s = (sent r, s)

  abbrev pub throw : {A : Type 0} → Exn → Exec S A
  throw e s = (thrown e, s)

  abbrev pub continue : {A B : Type 0} → Outcome A → (A → Exec S B) → Exec S B
  continue (value a) k s = k a s
  continue (sent r) k s = (sent r, s)
  continue (thrown e) k s = (thrown e, s)

  infixl 5 ◌>>=◌ ◌>>◌
  abbrev pub ◌>>=◌ : {A B : Type 0} → Exec S A → (A → Exec S B) → Exec S B
  ◌>>=◌ m k s = continue (m s).0 k (m s).1

  abbrev pub ◌>>◌ : {B : Type 0} → Exec S (Unit {0}) → Exec S B → Exec S B
  m >> n = m >>= λ _. n

  -- A parameter that must be there, or else the response is sent.
  abbrev pub require : {A : Type 0} → Option A → Response → Exec S A
  require none r = send r
  require (some a) r = pure a

  -- Leaves with the response if the test is true.
  abbrev pub reject_if : Bool → Response → Exec S (Unit {0})
  reject_if true r = send r
  reject_if false r = pure tt

-- The response in the end, where only `irods::exception` and `std::exception` are caught.
abbrev pub catch_irods : Response → Outcome Response → Response
catch_irods res (value r) = r
catch_irods res (sent r) = r
catch_irods res (thrown (irods_exception ec what)) = record res {
  body = json (irods_error ec what);
}
catch_irods res (thrown _) = record res { result = internal_server_error }

-- The same where `fs::filesystem_error` is caught too.
abbrev pub catch_all : Response → Outcome Response → Response
catch_all res (value r) = r
catch_all res (sent r) = r
catch_all res (thrown (filesystem_error ec what)) = record res { body = json (irods_error ec what) }
catch_all res (thrown (irods_exception ec what)) = record res { body = json (irods_error ec what) }
catch_all res (thrown std_exception) = record res { result = internal_server_error }

-- What `resolve_client_identity` gives: a response to send, or the client's name.
pub data Identity : Type 0 where
  refused : Response → Identity
  client : Bytes → Identity
