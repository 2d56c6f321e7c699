-- ===== src/Openid/Accepted.antt =====
-- Which tokens the introspection lets through.
use irods_client_http_api.Prelude.{
  ℕ, ◌*◌, ◌≤◌, ◌<◌, ◌≡◌, ◌↔◌, refl, ◌⊎◌, inl, inr, true, false, Option, none, some, Bytes, text,
  arith, Option-cases, subst,
}
use irods_client_http_api.Text.{bytes_eq_iff}
use irods_client_http_api.Http.{
  ℤ, pos, negsuc, Json, int, str, bool, object, array, null_value, Items, last, item,
}
use irods_client_http_api.Http.Exec.{value}
use irods_client_http_api.Openid.Introspection.{
  Client, member, Verdict, passed, failed, raised, and_then, check_active, int_ltb, nanoseconds,
  time_of, check_nbf, is_text, any_text, check_aud, check_iss, outcome_of,
  validate_using_introspection_endpoint,
}

-- Seconds that fit into the nanoseconds of the system clock.
abbrev pub InRange : Option ℤ → Type 0
InRange none = Unit
InRange (some (pos n)) = n < 9223372036
InRange (some (negsuc n)) = n < 9223372036

abbrev pub time_member : Option Json → Option ℤ
time_member none = none
time_member (some v) = time_of v

-- The time, in nanoseconds, is not before this one, in seconds.
abbrev pub Began : ℕ → ℤ → Type 0
Began now (pos n) = n * 1000000000 ≤ now
Began now (negsuc n) = Unit

abbrev pub NotEarly : ℕ → Option Json → Type 0
NotEarly now none = Unit
NotEarly now (some v) = (seconds : ℤ) × (time_of v ≡ some seconds) × Began now seconds

abbrev pub Occurs : Bytes → Items → Type 0
Occurs s last = ⊥
Occurs s (item v vs) = (v ≡ str s) ⊎ Occurs s vs

-- The token is for this client, or says nothing of that, where the configuration accepts it.
abbrev pub ForClient : Client → Option Json → Type 0
ForClient c none = c.strict_aud ≡ false
ForClient c (some (array vs)) = Occurs c.client_id vs
ForClient c (some v) = v ≡ str c.client_id

abbrev pub FromIssuer : Client → Option Json → Type 0
FromIssuer c none = Unit
FromIssuer c (some v) = v ≡ str c.issuer

abbrev pub IsAccepted : Client → ℕ → Json → Type 0
IsAccepted c now json =
    (member (text "active") json ≡ some (bool true))
    × NotEarly now (member (text "nbf") json)
    × ForClient c (member (text "aud") json)
    × FromIssuer c (member (text "iss") json)

check_active_iff : (o : Option Json) → (check_active o ≡ passed) ↔ (o ≡ some (bool true))
unfolding check_active
check_active_iff none = ground arith
check_active_iff (some (bool true)) = ground arith
check_active_iff (some (bool false)) = ground arith
check_active_iff (some (int n)) = ground arith
check_active_iff (some (str n)) = ground arith
check_active_iff (some (object n)) = ground arith
check_active_iff (some (array n)) = ground arith
check_active_iff (some null_value) = ground arith

nanoseconds_iff :
    (now : ℕ) (seconds : ℤ)
    → InRange (some seconds)
    → (int_ltb (pos now) (nanoseconds seconds) ≡ false) ↔ Began now seconds
nanoseconds_iff now (pos n) range = ground arith
nanoseconds_iff now (negsuc n) range = ground arith

check_nbf_iff :
    (now : ℕ) (o : Option Json)
    → InRange (time_member o)
    → (check_nbf (pos now) o ≡ passed) ↔ NotEarly now o
unfolding check_nbf
check_nbf_iff now none range = ((λ e. tt), λ e. refl)
check_nbf_iff now (some v) range = elim (Option-cases (time_of v)) [
  | inl e ↦ (rw e (λ d. absurd (ground (arith, d))), λ (n, d, b). absurd (ground (arith, e, d)))
  | inr (seconds, e) ↦
      let bound = nanoseconds_iff now seconds (subst InRange e range) in
      (
        rw e (λ p. (seconds, refl, bound.0 (ground (arith, p)))),
        λ (n, d, b).
            let same : n ≡ seconds = ground (arith, d, e) in
            let began = bound.1 (subst (Began now) same b) in
            rw (e, check_nbf) (ground (arith, began)),
      )
]

is_text_iff : (s : Bytes) (v : Json) → (is_text s v ≡ true) ↔ (v ≡ str s)
is_text_iff s (str t) = ground (arith, bytes_eq_iff t s)
is_text_iff s (int n) = ground arith
is_text_iff s (bool n) = ground arith
is_text_iff s (object n) = ground arith
is_text_iff s (array n) = ground arith
is_text_iff s null_value = ground arith

any_text_iff : (s : Bytes) (vs : Items) → (any_text s vs ≡ true) ↔ Occurs s vs
any_text_iff s last = ((λ e. absurd (ground (arith, e))), λ e. absurd e)
any_text_iff s (item v vs) = ground (arith, is_text_iff s v, any_text_iff s vs)

check_aud_iff : (c : Client) (o : Option Json) → (check_aud c o ≡ passed) ↔ ForClient c o
unfolding check_aud
check_aud_iff c none = ground arith
check_aud_iff c (some (array vs)) = ground (arith, any_text_iff c.client_id vs)
check_aud_iff c (some (str s)) = ground (arith, is_text_iff c.client_id (str s))
check_aud_iff c (some (int n)) = ground arith
check_aud_iff c (some (bool n)) = ground arith
check_aud_iff c (some (object n)) = ground arith
check_aud_iff c (some null_value) = ground arith

check_iss_iff : (c : Client) (o : Option Json) → (check_iss c o ≡ passed) ↔ FromIssuer c o
unfolding check_iss
check_iss_iff c none = ((λ e. tt), λ e. refl)
check_iss_iff c (some (str s)) = ground (arith, is_text_iff c.issuer (str s))
check_iss_iff c (some (int n)) = ground arith
check_iss_iff c (some (bool n)) = ground arith
check_iss_iff c (some (object n)) = ground arith
check_iss_iff c (some (array n)) = ground arith
check_iss_iff c (some null_value) = ground arith

both_iff : (a b : Verdict) → (and_then a b ≡ passed) ↔ ((a ≡ passed) × (b ≡ passed))
both_iff passed b = ground arith
both_iff failed b = ground arith
both_iff raised b = ground arith

outcome_iff :
    (v : Verdict) (json_res : Json) → (outcome_of v json_res ≡ value (some json_res)) ↔ (v ≡ passed)
outcome_iff passed json_res = ground arith
outcome_iff failed json_res = ground arith
outcome_iff raised json_res = ground arith

-- If the time of "nbf" fits into the clock's nanoseconds, then the answer of the introspection endpoint is accepted
-- exactly if it says that the token is active, and the time for which it is valid has begun, the token is for
-- this client, and it comes from the issuer, each where the answer says something of it; that nothing is said of
-- the audience is accepted exactly if the configuration does not ask for it.
pub validate_using_introspection_endpoint_iff :
    (c : Client) (now : ℕ) (json_res : Json)
    → InRange (time_member (member (text "nbf") json_res))
    → (validate_using_introspection_endpoint c (pos now) json_res ≡ value (some json_res))
      ↔ IsAccepted c now json_res
unfolding validate_using_introspection_endpoint
validate_using_introspection_endpoint_iff c now json_res range =
    let active = check_active_iff (member (text "active") json_res) in
    let nbf = check_nbf_iff now (member (text "nbf") json_res) range in
    let aud = check_aud_iff c (member (text "aud") json_res) in
    let iss = check_iss_iff c (member (text "iss") json_res) in
    let a = check_active (member (text "active") json_res) in
    let b = check_nbf (pos now) (member (text "nbf") json_res) in
    let d = check_aud c (member (text "aud") json_res) in
    let e = check_iss c (member (text "iss") json_res) in
    (
      (λ accepted.
          let (p, rest) =
            (both_iff a (and_then b (and_then d e))).0
              ((outcome_iff (and_then a (and_then b (and_then d e))) json_res).0 accepted) in
          let (q, rest2) = (both_iff b (and_then d e)).0 rest in
          let (r, s) = (both_iff d e).0 rest2 in (active.0 p, nbf.0 q, aud.0 r, iss.0 s)),
      λ (p, q, r, s). (outcome_iff (and_then a (and_then b (and_then d e))) json_res).1 (
          (both_iff a (and_then b (and_then d e))).1 (
            active.1 p,
            (both_iff b (and_then d e)).1 (nbf.1 q, (both_iff d e).1 (aud.1 r, iss.1 s)),
          )),
    )
