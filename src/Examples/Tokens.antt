-- ===== src/Examples/Tokens.antt =====
-- Authentication and the stash at concrete inputs.
use irods_client_http_api.Prelude.{
  inr, ℕ, ◌≡◌, refl, false, [], ◌∷◌, none, some, Bytes, if◌then◌else◌, text, arith,
}
use irods_client_http_api.Text.{bytes_eq, first, starts_with}
use irods_client_http_api.Map.{find, IsMap}
use irods_client_http_api.Http.{pos, negsuc, post, unauthorized, fail}
use irods_client_http_api.Http.Exec.{pure}
use irods_client_http_api.Stash.{basic, client_info, time_point, Stash, insert, evict}
use irods_client_http_api.Stash.Keys.{IsInjective}
use irods_client_http_api.Stash.Eviction.{find-evict, insert_lem}
use irods_client_http_api.DataObjects.Write.{get_connection}
use irods_client_http_api.Authentication.{
  State, authentication, resolve_client_identity, verify_credentials,
}
use irods_client_http_api.Authentication.Libraries.{CredentialLibraries, Config, OpenId}
use irods_client_http_api.Authentication.Tokens.{IsIssued, resolve_client_identity-evict}
use irods_client_http_api.Authentication.Outcomes.{is_permitted, authentication-IsIssued}
use irods_client_http_api.Authentication.Refusals.{authentication_refuses}
use irods_client_http_api.Examples.Worlds.{World, world, working, request}

-- The draws are the numbers, as texts of one letter.
abbrev draw : ℕ → Bytes
draw n = n ∷ []

draw-IsInjective : IsInjective draw
draw-IsInjective i j e = omega (arith, head_eq e)
  where
    head_eq : {a b : ℕ} → a ∷ [] ≡ b ∷ [] → a ≡ b
    head_eq e = cc

abbrev stash : Stash
stash =
    (
      text "t",
      client_info (record { auth_scheme = basic; username = text "alice"; expires_at = 100 }),
    )
    ∷ (text "s", time_point 200)
    ∷ []

stash-IsMap : IsMap stash
unfolding find bytes_eq
stash-IsMap = (refl, (refl, tt))

find-evict_example : find (text "t") (evict 150 stash) ≡ none
unfolding find bytes_eq
find-evict_example = find-evict 150 (text "t") stash stash-IsMap

-- The draw that is in use is skipped.
insert_lem_example :
    (key : Bytes) × (drawn' : ℕ) × (stash' : Stash) × (insert draw 115 (time_point 7) stash
      ≡ some (key, drawn', stash'))
    × (find key stash ≡ none)
    × ((k : Bytes) → find k stash' ≡ (if bytes_eq key k then some (time_point 7) else find k stash))
    × IsMap stash'
    × (n : ℕ) × (key ≡ draw n)
insert_lem_example = insert_lem draw 115 (time_point 7) stash draw-IsInjective stash-IsMap

-- The password is right if it is "rods".
abbrev credentials : CredentialLibraries World (Unit {0})
credentials = record {
  trim = λ s. s;
  base64_decode = λ s size. s;
  connect_as = λ username. pure tt;
  login_with_password =
      λ conn password. pure (if bytes_eq password (text "rods") then pos 0 else negsuc 825999);
  obfuscate_password = λ password key. pure password;
  check_auth_credentials = λ conn username zone password.
      pure (pos 0, some (if bytes_eq password (text "rods") then pos 1 else pos 0));
  username_size = 64;
  zone_size = 64;
  password_size = 128;
}

abbrev config : Config
config = record {
  timeout_in_seconds = 3600;
  rodsadmin_username = text "admin";
  rodsadmin_password = text "adminpw";
  zone = text "tempZone";
  enable_4_2_compatibility = false;
}

abbrev no_provider : OpenId World
no_provider = record {
  oidc_conf_exists = false;
  introspection_endpoint_exists = false;
  access_token_validation_method = text "";
  local_validation = λ token. pure none;
  introspection = λ token. pure none;
  user_mapper_match = λ json. pure (pos 0, none);
}

abbrev logged_in : State World
logged_in = record { stash = stash; drawn = 5; io = world }

resolve_client_identity-evict_example :
    resolve_client_identity no_provider
      (λ s. s)
      (evict 150 stash)
      160
      (some (text "Bearer t"))
      world
    ≡ resolve_client_identity no_provider (λ s. s) stash 160 (some (text "Bearer t")) world
resolve_client_identity-evict_example =
    resolve_client_identity-evict no_provider (λ s. s) stash 150 160 (some (text "Bearer t")) world
      refl stash-IsMap (omega arith)

authentication-IsIssued_example :
    IsIssued no_provider
      (λ s. s)
      request
      3700
      (text "bob")
      stash
      (authentication credentials working config draw post request
        (some (text "Basic bob:rods"))
        100
        logged_in)
unfolding is_permitted verify_credentials get_connection bytes_eq first starts_with
authentication-IsIssued_example =
    authentication-IsIssued credentials working config draw no_provider request (text "bob:rods")
      (text "bob") (text "rods") 100 logged_in refl refl refl draw-IsInjective (λ n. refl)
      stash-IsMap

authentication_refuses_example :
    let answer =
      authentication credentials working config draw post request
        (some (text "Basic bob:sesame"))
        100
        logged_in in
    (answer.0 ≡ some (fail unauthorized)) × (answer.1.stash ≡ stash) × (answer.1.drawn ≡ 5)
unfolding is_permitted verify_credentials get_connection bytes_eq first starts_with
authentication_refuses_example =
    authentication_refuses credentials working config draw request (text "bob:sesame") (text "bob")
      (text "sesame") 100 logged_in refl refl (inr (inr ((λ e. cc e), inr (refl, inr (λ e. cc e)))))
