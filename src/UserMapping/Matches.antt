-- ===== src/UserMapping/Matches.antt =====
-- Which user a set of claims is mapped to.
use irods_client_http_api.Prelude.{
  ℕ, ◌≡◌, ◌↔◌, refl, ◌⊎◌, inl, inr, Bool, true, false, List, [], ◌∷◌, Option, none, some, Bytes,
  arith, Bool-cases, Option-cases, All, ◌==◌, subst, sym, ==_refl,
}
use irods_client_http_api.Http.{ℤ, pos, Json}
use irods_client_http_api.Openid.Introspection.{member}
use irods_client_http_api.Replicas.Input.{c_str}
use irods_client_http_api.UserMapping.Mapper.{
  JsonLibraries, UserProfile, Mapper, FileView, profiles_of, parsed_content, update, all_of,
  find_profile, match_user, duplicated, user_mapper_match,
}

module _ (libraries : JsonLibraries) where
  -- Each attribute of the profile is a member of the claims, with an equal value.
  abbrev pub Fits : Json → UserProfile → Type 0
  Fits params p =
      All
        (λ (a : Bytes × Json).
          (w : Json) × (member a.0 params ≡ some w) × (libraries.json_eq w a.1 ≡ true))
        (libraries.items p.attributes)

  -- The result is the name of the first profile that fits, as a C string; none if none does.
  abbrev pub IsFirst : List UserProfile → Json → Option Bytes → Type 0
  IsFirst [] params r = r ≡ none
  IsFirst (p ∷ ps) params r =
      (Fits params p × (r ≡ some (c_str p.irods_user_name)))
      ⊎ (¬ Fits params p × IsFirst ps params r)

  -- The profiles are those from before, or those of the file as it is now.
  abbrev pub IsCurrent : Mapper → FileView → List UserProfile → Type 0
  IsCurrent m file ps =
      (ps ≡ m.profile_list)
      ⊎ ((json_data : Json) × (parsed_content libraries file.content ≡ some json_data)
          × (ps ≡ profiles_of libraries (libraries.items json_data)))

  all_of-Fits :
      (params : Json) (attributes : List (Bytes × Json))
      → (all_of libraries params attributes ≡ true)
        ↔ All
            (λ (a : Bytes × Json).
              (w : Json) × (member a.0 params ≡ some w) × (libraries.json_eq w a.1 ≡ true))
            attributes
  all_of-Fits params [] = ((λ e. tt), λ e. refl)
  all_of-Fits params ((k, v) ∷ attributes) = elim (Option-cases (member k params)) [
    | inl absent ↦ (
      (λ e. absurd (ground (arith, absent, e))),
      λ (first, rest). absurd (ground (arith, absent, first.1)),
    )
    | inr (w, present) ↦ (
      (λ e. (
        (w, present, ground (arith, present, e)),
        (all_of-Fits params attributes).0 (ground (arith, present, e)),
      )),
      λ ((x, there, same), rest).
          let equal : x ≡ w = ground (arith, there, present) in
          ground (
            arith,
            present,
            subst (λ (y : Json). libraries.json_eq y v ≡ true) equal same,
            (all_of-Fits params attributes).1 rest,
          ),
    )
  ]

  update-IsCurrent :
      (m : Mapper) (file : FileView) → IsCurrent m file (update libraries m file).1.profile_list
  unfolding update
  update-IsCurrent m file = elim (Option-cases file.write_time) [
    | inl n ↦ inl (ground (arith, n))
    | inr (t, e) ↦ elim (Bool-cases (t == m.last_file_path_write)) [
      | inl same ↦ inl (ground (arith, e, same))
      | inr changed ↦ elim (Option-cases (parsed_content libraries file.content)) [
        | inl unread ↦ inl (ground (arith, e, changed, unread))
        | inr (json_data, read) ↦
            inr (json_data, read, replaced t e changed json_data read file.write_time_after refl)
      ]
    ]
  ]
    where
      replaced :
          (t : ℕ)
          → file.write_time ≡ some t
          → (t == m.last_file_path_write) ≡ false
          → (json_data : Json) → parsed_content libraries file.content ≡ some json_data
          → (after : Option ℕ) → file.write_time_after ≡ after
          → (update libraries m file).1.profile_list
            ≡ profiles_of libraries (libraries.items json_data)
      replaced t e changed json_data read none d = ground (arith, e, changed, read, d)
      replaced t e changed json_data read (some u) d = ground (arith, e, changed, read, d)

  find_profile-IsFirst :
      (ps : List UserProfile) (params : Json)
      → IsFirst ps params (duplicated (find_profile libraries ps params))
  unfolding find_profile
  find_profile-IsFirst [] params = refl
  find_profile-IsFirst (p ∷ ps) params =
      let fits = all_of-Fits params (libraries.items p.attributes) in
      elim (Bool-cases (all_of libraries params (libraries.items p.attributes))) [
        | inl e ↦ inl (fits.0 e, ground (arith, e))
        | inr e ↦ inr (
          (λ f. absurd (ground (arith, e, fits.1 f))),
          subst (λ (r : Option Bytes). IsFirst ps params (duplicated r)) (sym (skipped e))
              (find_profile-IsFirst ps params),
        )
      ]
    where
      skipped :
          all_of libraries params (libraries.items p.attributes) ≡ false
          → find_profile libraries (p ∷ ps) params ≡ find_profile libraries ps params
      skipped e = ground (arith, e)

  -- The call succeeds with the first user that fits the claims, of profiles that are current.
  abbrev pub Answers : Mapper → FileView → Json → (ℤ × Option Bytes) × Mapper → Type 0
  Answers m file params ((rc, r), m') =
      (rc ≡ pos 0) × IsCurrent m file m'.profile_list × IsFirst m'.profile_list params r

  -- If the parameters are JSON, then the match succeeds, whether the mapping file can be read or not: its result is
  -- the first user all of whose attributes are among the claims, or nothing if there is none, of the
  -- profiles that were there before or of those that the file has now.
  pub user_mapper_match-Answers :
      (locked : Bool) (m : Mapper) (file : FileView) (param : Bytes) (params : Json)
      → libraries.parse param ≡ some params
      → Answers m file params (user_mapper_match libraries locked m file (some param))
  unfolding user_mapper_match match_user
  user_mapper_match-Answers true m file param params e =
      let m' = (update libraries m file).1 in
      let done : user_mapper_match libraries true m file (some param)
          ≡ ((pos 0, duplicated (find_profile libraries m'.profile_list params)), m') =
        ground (arith, e) in
      subst (Answers m file params) (sym done)
        (refl, update-IsCurrent m file, find_profile-IsFirst m'.profile_list params)
  user_mapper_match-Answers false m file param params e =
      let done : user_mapper_match libraries false m file (some param)
          ≡ ((pos 0, duplicated (find_profile libraries m.profile_list params)), m) =
        ground (arith, e) in
      subst (Answers m file params) (sym done)
        (refl, inl refl, find_profile-IsFirst m.profile_list params)

  -- If the file has changed since the last update and can be read, but is written once more after that and
  -- before its time is taken, then the next update takes the second change for known, and keeps the profiles of the
  -- first one.
  pub update_misses :
      (m : Mapper) (file later : FileView) (json_data : Json) (t t' : ℕ)
      → file.write_time ≡ some t
      → (t == m.last_file_path_write) ≡ false
      → parsed_content libraries file.content ≡ some json_data
      → file.write_time_after ≡ some t'
      → later.write_time ≡ some t'
      → (update libraries (update libraries m file).1 later).1.profile_list
        ≡ profiles_of libraries (libraries.items json_data)
  unfolding update
  update_misses m file later json_data t t' e changed read after again =
      ground (arith, e, changed, read, after, again, ==_refl t')
