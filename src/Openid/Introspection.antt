-- ===== src/Openid/Introspection.antt =====
-- `validate_using_introspection_endpoint`: what the OpenID provider says of a token.
use irods_client_http_api.Prelude.{
  suc, ◌-◌, ◌*◌, ◌%◌, Bool, true, false, not, Option, none, some, Bytes, text, if◌then◌else◌, ltb,
}
use irods_client_http_api.Text.{bytes_eq}
use irods_client_http_api.Http.{
  ℤ, pos, negsuc, Json, int, str, bool, object, array, Items, last, item, Fields, end, field,
}
use irods_client_http_api.Http.Exec.{Outcome, value, thrown, std_exception}
use irods_client_http_api.DataObjects.Read.{uint64_mod, to_int64}

-- The configuration of the OpenID client, and the issuer that the provider has announced.
pub record Client : Type 0 where
  pub client_id : Bytes
  pub issuer : Bytes
  -- "require_aud_member_from_introspection_endpoint", where it is there.
  pub strict_aud : Bool

abbrev pub find_field : Bytes → Fields → Option Json
find_field k end = none
find_field k (field j v fs) = let rest = find_field k fs in if bytes_eq j k then some v else rest

-- `json_res.find(k)`; what is not an object has no members.
abbrev pub member : Bytes → Json → Option Json
member k (object fs) = find_field k fs
member k _ = none

-- The outcome of a check: go on, reject the token, or an exception.
pub data Verdict : Type 0 where
  passed failed raised : Verdict

abbrev pub and_then : Verdict → Verdict → Verdict
and_then passed next = next
and_then failed next = failed
and_then raised next = raised

abbrev pub pass_if : Bool → Verdict
pass_if true = passed
pass_if false = failed

-- "active" must be there, and true.
unfoldable pub check_active : Option Json → Verdict
check_active none = failed
check_active (some (bool b)) = pass_if b
check_active (some _) = raised

-- Less than, of integers.
abbrev pub int_ltb : ℤ → ℤ → Bool
int_ltb (pos m) (pos n) = ltb m n
int_ltb (pos m) (negsuc n) = false
int_ltb (negsuc m) (pos n) = true
int_ltb (negsuc m) (negsuc n) = ltb n m

-- Seconds as the nanoseconds of the system clock, which are 64 bits wide.
abbrev pub nanoseconds : ℤ → ℤ
nanoseconds (pos n) = to_int64 ((n * 1000000000) % uint64_mod)
nanoseconds (negsuc n) = to_int64 ((uint64_mod - ((suc n * 1000000000) % uint64_mod)) % uint64_mod)

-- `get<std::time_t>()`
abbrev pub time_of : Json → Option ℤ
time_of (int n) = some n
time_of (bool true) = some (pos 1)
time_of (bool false) = some (pos 0)
time_of _ = none

-- `now` is the system clock, in nanoseconds since the epoch.
unfoldable pub check_nbf : ℤ → Option Json → Verdict
check_nbf now none = passed
check_nbf now (some nbf) = elim (time_of nbf) [
  | none ↦ raised
  | some seconds ↦ pass_if (not (int_ltb now (nanoseconds seconds)))
]

abbrev pub is_text : Bytes → Json → Bool
is_text s (str t) = bytes_eq t s
is_text s _ = false

abbrev pub any_text : Bytes → Items → Bool
any_text s last = false
any_text s (item v vs) = let rest = any_text s vs in if is_text s v then true else rest

-- We are part of the audience; that there is none is accepted unless the configuration is strict.
unfoldable pub check_aud : Client → Option Json → Verdict
check_aud c none = pass_if (not c.strict_aud)
check_aud c (some (array vs)) = pass_if (any_text c.client_id vs)
check_aud c (some (str s)) = pass_if (bytes_eq s c.client_id)
check_aud c (some _) = raised

unfoldable pub check_iss : Client → Option Json → Verdict
check_iss c none = passed
check_iss c (some (str s)) = pass_if (bytes_eq s c.issuer)
check_iss c (some _) = raised

abbrev pub outcome_of : Verdict → Json → Outcome (Option Json)
outcome_of passed json_res = value (some json_res)
outcome_of failed json_res = value none
outcome_of raised json_res = thrown std_exception

-- What is left to do with the JSON that the introspection endpoint has answered.
unfoldable pub validate_using_introspection_endpoint : Client → ℤ → Json → Outcome (Option Json)
unfolding check_active check_nbf check_aud check_iss
validate_using_introspection_endpoint c now json_res =
    outcome_of
      (and_then (check_active (member (text "active") json_res)) (
        and_then (check_nbf now (member (text "nbf") json_res)) (
          and_then (check_aud c (member (text "aud") json_res))
            (check_iss c (member (text "iss") json_res)))))
      json_res
