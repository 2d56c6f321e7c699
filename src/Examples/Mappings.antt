-- ===== src/Examples/Mappings.antt =====
-- The mapping of users at concrete inputs.
use irods_client_http_api.Prelude.{
  ◌≡◌, ◌↔◌, refl, Bool, true, false, List, [], ◌∷◌, none, some, Bytes, text,
}
use irods_client_http_api.Text.{bytes_eq}
use irods_client_http_api.Http.{Json, str, object, Fields, end, field}
use irods_client_http_api.UserMapping.Mapper.{
  JsonLibraries, Mapper, FileView, profiles_of, update, user_mapper_match,
}
use irods_client_http_api.UserMapping.Claims.{
  RegexLibraries, ClaimMapper, Paired, init_claim, init_claim_iff,
}
use irods_client_http_api.Openid.Introspection.{member}
use irods_client_http_api.UserMapping.Matches.{Answers, user_mapper_match-Answers, update_misses}

abbrev members : Fields → List (Bytes × Json)
members end = []
members (field k v fs) = (k, v) ∷ members fs

abbrev members_of : Json → List (Bytes × Json)
members_of (object fs) = members fs
members_of _ = []

abbrev text_eq : Json → Json → Bool
text_eq (str s) (str t) = bytes_eq s t
text_eq _ _ = false

-- A text stands for an object in which it is the value of "sub".
abbrev subjects : JsonLibraries
subjects = record {
  json_eq = text_eq;
  items = members_of;
  parse = λ s. some (object (field (text "sub") (str s) end));
}

abbrev mapper : Mapper
mapper = record {
  profile_list =
      record {
        irods_user_name = text "alice";
        attributes = object (field (text "sub") (str (text "a")) end);
      }
      ∷ [];
  last_file_path_write = 1;
  file_path = text "f";
}

abbrev changed : FileView
changed = record { write_time = some 2; content = some (text "b"); write_time_after = some 3 }

abbrev changed_again : FileView
changed_again = record { write_time = some 3; content = some (text "c"); write_time_after = some 3 }

user_mapper_match-Answers_example :
    Answers subjects mapper changed
      (object (field (text "sub") (str (text "a")) end))
      (user_mapper_match subjects true mapper changed (some (text "a")))
user_mapper_match-Answers_example =
    user_mapper_match-Answers subjects true mapper changed (text "a")
      (object (field (text "sub") (str (text "a")) end)) refl

update_misses_example :
    (update subjects (update subjects mapper changed).1 changed_again).1.profile_list
    ≡ profiles_of subjects ((text "sub", str (text "b")) ∷ [])
update_misses_example =
    update_misses subjects mapper changed changed_again
      (object (field (text "sub") (str (text "b")) end)) 2 3 refl refl refl refl refl

-- Every text is an expression, and the format replaces everything.
abbrev plain_regex : RegexLibraries
plain_regex = record { is_regex = λ e. true; regex_replace = λ s e f. f }

abbrev claim_config : Json
claim_config = object (field (text "irods_user_claim") (str (text "sub")) end)

abbrev sub_mapper : ClaimMapper
sub_mapper = record { claim_to_match = text "sub"; rewriting = none }

init_claim_iff_example : (init_claim plain_regex claim_config ≡ some sub_mapper) ↔ (
    (member (text "irods_user_claim") claim_config ≡ some (str (text "sub")))
    × Paired plain_regex
        (member (text "match_regex") claim_config)
        (member (text "replace_format") claim_config)
        none)
init_claim_iff_example = init_claim_iff plain_regex claim_config sub_mapper
