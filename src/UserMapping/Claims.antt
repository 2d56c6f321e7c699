-- ===== src/UserMapping/Claims.antt =====
-- plugins/user_mapping/src/user_claim.cpp: the user is named by one of the claims.
use irods_client_http_api.Prelude.{
  ◌≡◌, ◌↔◌, refl, inl, inr, Bool, true, Option, none, some, Bytes, text, arith, if◌then◌else◌,
  Option-cases, Bool-cases, subst, sym, ap, ◌∙◌,
}
use irods_client_http_api.Http.{Json, int, str, bool, object, array, null_value}
use irods_client_http_api.Http.Exec.{Outcome, value, thrown, std_exception}
use irods_client_http_api.Openid.Introspection.{member}

-- `boost::regex`: whether a text is an expression, and `regex_replace` with a text, an expression, and a format.
pub record RegexLibraries : Type 0 where
  pub is_regex : Bytes → Bool
  pub regex_replace : Bytes → Bytes → Bytes → Bytes

-- `claim_to_match`; `match_regex` and `replace_fmt` where both exist.
pub record ClaimMapper : Type 0 where
  pub claim_to_match : Bytes
  pub rewriting : Option (Bytes × Bytes)

-- `get<std::string>()`; `none` is an exception.
abbrev pub text_of : Json → Option Bytes
text_of (str s) = some s
text_of _ = none

abbrev claim_name : Option Json → Option Bytes
claim_name none = none
claim_name (some v) = text_of v

module _ (regex : RegexLibraries) where
  abbrev rewriting_of : Bytes → Option Bytes → Option Bytes → Option ClaimMapper
  rewriting_of claim (some match_regex) (some replace_fmt) =
      if regex.is_regex match_regex
      then some (record { claim_to_match = claim; rewriting = some (match_regex, replace_fmt) })
      else none
  rewriting_of claim _ _ = none

  -- Both "match_regex" and "replace_format", or neither.
  abbrev both_or_neither : Bytes → Option Json → Option Json → Option ClaimMapper
  both_or_neither claim none none = some (record { claim_to_match = claim; rewriting = none })
  both_or_neither claim (some match_regex) (some replace) =
      rewriting_of claim (text_of match_regex) (text_of replace)
  both_or_neither claim _ _ = none

  -- `none` is an exception.
  unfoldable pub init_claim : Json → Option ClaimMapper
  init_claim config = elim (claim_name (member (text "irods_user_claim") config)) [
    | none ↦ none
    | some claim ↦
        both_or_neither claim (member (text "match_regex") config)
          (member (text "replace_format") config)
  ]

  abbrev rewritten : Option (Bytes × Bytes) → Bytes → Bytes
  rewritten none s = s
  rewritten (some (match_regex, replace_fmt)) s = regex.regex_replace s match_regex replace_fmt

  -- A claim that is not a text is an exception.
  unfoldable pub match_claim : ClaimMapper → Json → Outcome (Option Bytes)
  match_claim m params = elim (member m.claim_to_match params) [
    | none ↦ value none
    | some (str s) ↦ value (some (rewritten m.rewriting s))
    | some _ ↦ thrown std_exception
  ]

  -- An expression and a format, both given, or both missing.
  abbrev pub Paired : Option Json → Option Json → Option (Bytes × Bytes) → Type 0
  Paired match_regex replace none = (match_regex ≡ none) × (replace ≡ none)
  Paired match_regex replace (some (e, f)) =
      (match_regex ≡ some (str e)) × (replace ≡ some (str f)) × (regex.is_regex e ≡ true)

  text_of-str : (v : Json) (s : Bytes) → text_of v ≡ some s → v ≡ str s
  text_of-str (str t) s e = ground (arith, e)
  text_of-str (int n) s e = absurd (ground (arith, e))
  text_of-str (bool n) s e = absurd (ground (arith, e))
  text_of-str (object n) s e = absurd (ground (arith, e))
  text_of-str (array n) s e = absurd (ground (arith, e))
  text_of-str null_value s e = absurd (ground (arith, e))

  -- Both arguments are texts, and the first one is an expression.
  rewriting_of_lem :
      (claim : Bytes) (a b : Option Bytes) (m : ClaimMapper)
      → rewriting_of claim a b ≡ some m
      → (x : Bytes) × (f : Bytes) × (a ≡ some x)
        × (b ≡ some f)
        × (regex.is_regex x ≡ true)
        × (m ≡ record { claim_to_match = claim; rewriting = some (x, f) })
  rewriting_of_lem claim none b m e = absurd (ground (arith, e))
  rewriting_of_lem claim (some x) none m e = absurd (ground (arith, e))
  rewriting_of_lem claim (some x) (some f) m e = elim (Bool-cases (regex.is_regex x)) [
    | inl ok ↦ (x, f, refl, refl, ok, ground (arith, e, ok))
    | inr bad ↦ absurd (ground (arith, e, bad))
  ]

  both_or_neither-Paired :
      (claim : Bytes) (match_regex replace : Option Json) (m : ClaimMapper)
      → both_or_neither claim match_regex replace ≡ some m
      → (m.claim_to_match ≡ claim) × Paired match_regex replace m.rewriting
  both_or_neither-Paired claim none none m e =
      subst (λ (n : ClaimMapper). (n.claim_to_match ≡ claim) × Paired none none n.rewriting)
        (some_injective e) (refl, (refl, refl))
    where
      some_injective : {a b : ClaimMapper} → some a ≡ some b → a ≡ b
      some_injective e = cc
  both_or_neither-Paired claim (some a) none m e = absurd (ground (arith, e))
  both_or_neither-Paired claim none (some b) m e = absurd (ground (arith, e))
  both_or_neither-Paired claim (some a) (some b) m e =
      let (x, f, p, q, ok, same) = rewriting_of_lem claim (text_of a) (text_of b) m e in
      subst (λ (n : ClaimMapper). (n.claim_to_match ≡ claim) × Paired (some a) (some b) n.rewriting)
        (sym same)
        (
          refl,
          (
            ap (λ (v : Json). some v) (text_of-str a x p),
            ap (λ (v : Json). some v) (text_of-str b f q),
            ok,
          ),
        )

  both_or_neither_total :
      (claim : Bytes) (match_regex replace : Option Json) (m : ClaimMapper)
      → m.claim_to_match ≡ claim
      → Paired match_regex replace m.rewriting
      → both_or_neither claim match_regex replace ≡ some m
  both_or_neither_total claim match_regex replace m c p = elim (Option-cases m.rewriting) [
    | inl n ↦ let (a, b) = subst (Paired match_regex replace) n p in ground (arith, a, b, n, c)
    | inr ((x, f), n) ↦
        let (a, b, ok) = subst (Paired match_regex replace) n p in ground (arith, a, b, ok, n, c)
  ]

  -- The plugin starts with a configuration exactly if this names a claim, and gives an expression and a format for its
  -- rewriting, or none of the two; it then looks at this claim, and rewrites with these or not at all.
  pub init_claim_iff :
      (config : Json) (m : ClaimMapper)
      → (init_claim config ≡ some m) ↔ (
          (member (text "irods_user_claim") config ≡ some (str m.claim_to_match))
          × Paired
              (member (text "match_regex") config)
              (member (text "replace_format") config)
              m.rewriting)
  unfolding init_claim
  init_claim_iff config m =
      elim (Option-cases (claim_name (member (text "irods_user_claim") config))) [
        | inl e ↦
            ((λ d. absurd (ground (arith, e, d))), λ (named, p). absurd (ground (arith, e, named)))
        | inr (claim, e) ↦
            let is_claim = claim_name-str (member (text "irods_user_claim") config) claim e in
            (
              (λ d.
                  let (same, paired) =
                    both_or_neither-Paired claim _ _ m (opened config claim e ∙ d) in
                  (is_claim ∙ ap (λ (s : Bytes). some (str s)) (sym same), paired)),
              λ (named, paired).
                  let same : m.claim_to_match ≡ claim = ground (arith, named, is_claim) in
                  sym (opened config claim e) ∙ both_or_neither_total claim _ _ m same paired,
            )
      ]
    where
      claim_name-str : (o : Option Json) (s : Bytes) → claim_name o ≡ some s → o ≡ some (str s)
      claim_name-str none s e = absurd (ground (arith, e))
      claim_name-str (some v) s e = ap (λ (w : Json). some w) (text_of-str v s e)

      opened :
          (config : Json) (claim : Bytes)
          → claim_name (member (text "irods_user_claim") config) ≡ some claim
          → both_or_neither claim
              (member (text "match_regex") config)
              (member (text "replace_format") config)
            ≡ init_claim config
      opened config claim e = ground (arith, e)
