-- ===== src/Authentication/Refusals.antt =====
-- The credentials that the authentication endpoint does not take.
use irods_client_http_api.Prelude.{
  ℕ, zero, suc, ◌-◌, ◌≡◌, ◌≢◌, ◌⊎◌, inl, inr, refl, sym, Bool, true, false, ◌++◌, if◌then◌else◌, [],
  ◌∷◌, Option, none, some, Bytes, text, take, arith, Bool-cases,
}
use irods_client_http_api.Text.{bytes_eq, bytes_eq_iff, Marks}
use irods_client_http_api.Http.{ℤ, pos, negsuc, is_negative, post, Request, unauthorized, fail}
use irods_client_http_api.Http.Exec.{Exec, Outcome, value, sent, thrown, continue}
use irods_client_http_api.DataObjects.Io.{Io}
use irods_client_http_api.DataObjects.Write.{get_connection}
use irods_client_http_api.Authentication.{
  State, is_zero, is_correct, is_empty, login_successful, verify_credentials, authentication,
}
use irods_client_http_api.Authentication.Libraries.{CredentialLibraries, Config}
use irods_client_http_api.Authentication.Outcomes.{
  is_permitted, authentication-basic, log_in-not_permitted,
}

-- The call ends without a value, or what it gives is so.
abbrev pub Unless : {Z A : Type 0} → Outcome A × Z → (A → Z → Type 0) → Type 0
Unless (value a, z) P = P a z
Unless (sent r, z) P = Unit {0}
Unless (thrown e, z) P = Unit {0}

continue-Unless :
    {Z A : Type 0} (m : Outcome A × Z) (k : A → Exec Z Bool) (P : A → Z → Type 0)
    → Unless m P
    → ((a : A) (z : Z) → P a z → login_successful (k a z).0 ≡ false)
    → login_successful (continue m.0 k m.1).0 ≡ false
continue-Unless (value a, z) k P h e = e a z h
continue-Unless (sent r, z) k P h e = refl
continue-Unless (thrown x, z) k P h e = refl

is_zero-nonzero : (ec : ℤ) → ec ≢ pos 0 → is_zero ec ≡ false
is_zero-nonzero (pos zero) other = absurd (other refl)
is_zero-nonzero (pos (suc n)) other = refl
is_zero-nonzero (negsuc n) other = refl

is_correct-other : (correct : Option ℤ) → correct ≢ some (pos 1) → is_correct correct ≡ false
is_correct-other none other = refl
is_correct-other (some (pos zero)) other = refl
is_correct-other (some (pos (suc zero))) other = absurd (other refl)
is_correct-other (some (pos (suc (suc n)))) other = refl
is_correct-other (some (negsuc n)) other = refl

is_empty-other : (s : Bytes) → s ≢ [] → is_empty s ≡ false
is_empty-other [] other = absurd (other refl)
is_empty-other (c ∷ s) other = refl

is_anonymous-other :
    (username : Bytes) → username ≢ text "anonymous" → bytes_eq (text "anonymous") username ≡ false
is_anonymous-other username other = elim (Bool-cases (bytes_eq (text "anonymous") username)) [
  | inl e ↦ absurd (other (sym ((bytes_eq_iff (text "anonymous") username).0 e)))
  | inr e ↦ e
]

module _ {Z Conn Out : Type 0} (lib : CredentialLibraries Z Conn) (io : Io Z Conn Out)
    (config : Config) (random : ℕ → Bytes) where
  -- iRODS 4.2: there is no connection for the user, or the login with the password fails.
  abbrev pub LoginFails : Bytes → Bytes → Z → Type 0
  LoginFails username password z =
      Unless (lib.connect_as username z)
        (λ conn z1. Unless (lib.login_with_password conn password z1) (λ ec z2. ec ≢ pos 0))

  -- Later versions: the administrator does not get as far as to ask for the user, the question ends
  -- with an error, or the answer to it is not 1.
  abbrev pub CheckFails : Bytes → Bytes → Z → Type 0
  CheckFails username password z =
      Unless (lib.obfuscate_password password config.rodsadmin_password z) (λ obfuscated z1.
        Unless (get_connection io config.enable_4_2_compatibility config.rodsadmin_username z1)
          (λ conn z2.
            Unless
              (lib.check_auth_credentials conn (take (lib.username_size - 1) username)
                (take (lib.zone_size - 1) config.zone) (take (lib.password_size - 1) obfuscated) z2)
              (λ result z3. ((n : ℕ) × (result.0 ≡ negsuc n)) ⊎ (result.1 ≢ some (pos 1)))))

  -- The name is empty, the password is although the user is not the anonymous one, or iRODS does not
  -- confirm a password that is not empty.
  abbrev pub Rejected : Bytes → Bytes → Z → Type 0
  Rejected username password z =
      (username ≡ [])
      ⊎ (((password ≡ []) × (username ≢ text "anonymous"))
          ⊎ ((password ≢ [])
              × (((config.enable_4_2_compatibility ≡ true) × LoginFails username password z)
                  ⊎ ((config.enable_4_2_compatibility ≡ false) × CheckFails username password z))))

  failed_check :
      (result : ℤ × Option ℤ)
      → ((n : ℕ) × (result.0 ≡ negsuc n)) ⊎ (result.1 ≢ some (pos 1))
      → (if is_negative result.0 then false else is_correct result.1) ≡ false
  failed_check (ec, correct) (inl (n, e)) = ground (arith, e)
  failed_check (ec, correct) (inr other) = ground (arith, is_correct-other correct other)

  verify_credentials-LoginFails :
      (username password : Bytes) (z : Z)
      → config.enable_4_2_compatibility ≡ true
      → LoginFails username password z
      → login_successful (verify_credentials lib io config random username password z).0 ≡ false
  unfolding verify_credentials
  verify_credentials-LoginFails username password z e h = rw e (
      continue-Unless (lib.connect_as username z) _ _ h (λ conn z1 h1.
        continue-Unless (lib.login_with_password conn password z1) _ _ h1
          (λ ec z2 h2. is_zero-nonzero ec h2)))

  verify_credentials-CheckFails :
      (username password : Bytes) (z : Z)
      → config.enable_4_2_compatibility ≡ false
      → CheckFails username password z
      → login_successful (verify_credentials lib io config random username password z).0 ≡ false
  unfolding verify_credentials
  verify_credentials-CheckFails username password z e h =
      let h' = rw e at h in
      rw e (
        continue-Unless (lib.obfuscate_password password config.rodsadmin_password z) _ _ h'
          (λ obfuscated z1 h1.
            continue-Unless (get_connection io false config.rodsadmin_username z1) _ _ h1
              (λ conn z2 h2.
                continue-Unless
                  (lib.check_auth_credentials conn (take (lib.username_size - 1) username)
                    (take (lib.zone_size - 1) config.zone) (take (lib.password_size - 1) obfuscated)
                    z2)
                  _ _ h2 (λ result z3 h3. failed_check result h3))))

  Rejected-is_permitted :
      (username password : Bytes) (z : Z)
      → Rejected username password z
      → is_permitted lib io config random username password z ≡ false
  unfolding is_permitted bytes_eq
  Rejected-is_permitted username password z (inl e) = rw e refl
  Rejected-is_permitted username password z (inr (inl (e, other))) =
      ground (arith, e, is_anonymous-other username other)
  Rejected-is_permitted username password z (inr (inr (e, inl (old, h)))) =
      ground
        (arith, is_empty-other password e, verify_credentials-LoginFails username password z old h)
  Rejected-is_permitted username password z (inr (inr (e, inr (new, h)))) =
      ground
        (arith, is_empty-other password e, verify_credentials-CheckFails username password z new h)

  -- A POST with "Basic " and the encoding of a name without a colon and a password is answered with
  -- 401 and leaves the stash as it was, if the name is empty, if the password is empty and the user is
  -- not the anonymous one, or if the password is not empty and iRODS does not confirm it: with 4.2, no
  -- connection is made for the user or the login gives another code than 0; else, the password cannot
  -- be obfuscated, no connection is made for the administrator, or the check of the credentials throws,
  -- gives a negative code, or does not answer with 1.
  pub authentication_refuses :
      (req : Request) (encoded username password : Bytes) (now : ℕ) (s : State Z)
      → Marks (text ":") username
      → lib.base64_decode (lib.trim encoded) 128 ≡ username ++ (text ":" ++ password)
      → Rejected username password s.io
      → let answer =
          authentication lib io config random post req (some (text "Basic " ++ encoded)) now s in
        (answer.0 ≡ some (fail unauthorized))
        × (answer.1.stash ≡ s.stash)
        × (answer.1.drawn ≡ s.drawn)
  authentication_refuses req encoded username password now s no_colon decoded refusal =
      rw
        (authentication-basic lib io config random req encoded username password now s no_colon
          decoded)
        (log_in-not_permitted lib io config random req now username password s
          (Rejected-is_permitted username password s.io refusal))
