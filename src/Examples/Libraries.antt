-- ===== src/Examples/Libraries.antt =====
-- Concrete text functions with the behaviour that the theorems ask for.
use irods_client_http_api.Prelude.{
  ℕ, ◌≡◌, refl, Bool, true, false, List, [], ◌∷◌, some, Bytes, ◌==◌, if◌then◌else◌, text, map,
  arith, subst,
}
use irods_client_http_api.Text.{bytes_eq}
use irods_client_http_api.Arguments.Libraries.{TextLibraries, Lacks, LibraryLaws}
use irods_client_http_api.Multipart.Libraries.{HeaderLibraries}

-- A percent sign and a letter stand for a reserved character.
unfoldable pub escape : Bytes → Bytes
escape [] = []
escape (c ∷ s) =
    let rest = escape s in
    if c == b'&'
    then b'%' ∷ b'a' ∷ rest
    else if c == b'='
    then b'%' ∷ b'e' ∷ rest
    else if c == b'%'
    then b'%' ∷ b'p' ∷ rest
    else c ∷ rest

abbrev reserved : ℕ → ℕ
reserved c = if c == b'a' then b'&' else if c == b'e' then b'=' else b'%'

-- The flag says that a percent sign came before.
unfoldable pub unescape : Bool → Bytes → Bytes
unescape b [] = []
unescape false (c ∷ s) =
    let rest = unescape false s in
    let pending = unescape true s in if c == b'%' then pending else c ∷ rest
unescape true (c ∷ s) = reserved c ∷ unescape false s

unescape-escape_lem : (s : Bytes) → unescape false (escape s) ≡ s
unfolding unescape escape
unescape-escape_lem [] = refl
unescape-escape_lem (c ∷ s) = ground (arith, unescape-escape_lem s)

escape-Lacks-ampersand : (s : Bytes) → Lacks b'&' (escape s)
unfolding escape
escape-Lacks-ampersand [] = tt
escape-Lacks-ampersand (c ∷ s) = ground (arith, escape-Lacks-ampersand s)

escape-Lacks-equals : (s : Bytes) → Lacks b'=' (escape s)
unfolding escape
escape-Lacks-equals [] = tt
escape-Lacks-equals (c ∷ s) = ground (arith, escape-Lacks-equals s)

abbrev onto_first : ℕ → List Bytes → List Bytes
onto_first c [] = (c ∷ []) ∷ []
onto_first c (p ∷ ps) = (c ∷ p) ∷ ps

unfoldable pub split_at : ℕ → Bytes → List Bytes
split_at d [] = [] ∷ []
split_at d (c ∷ s) = let rest = split_at d s in if c == d then [] ∷ rest else onto_first c rest

-- One character for another.
abbrev replace_character : Bytes → Bytes → Bytes → Bytes
replace_character s (x ∷ []) (y ∷ []) = map (λ c. if c == x then y else c) s
replace_character s _ _ = s

abbrev pub texts : TextLibraries
texts = record {
  curl_easy_unescape = λ s. some (unescape false s);
  curl_easy_escape = λ s. some (escape s);
  split = split_at;
  replace_all = replace_character;
}

pub texts-LibraryLaws : LibraryLaws texts
unfolding split_at
texts-LibraryLaws = record {
  split-nil = λ d. refl;
  split-delimiter = λ d s. ground arith;
  split-other = λ d c s p ps ne e. ground (arith, ne, e);
  unescape-escape = λ s e h. ground (arith, h, unescape-escape_lem s);
  escape-total = λ s. (escape s, refl);
  escape-ampersand = λ s e h. subst (Lacks b'&') (some_injective h) (escape-Lacks-ampersand s);
  escape-equals = λ s e h. subst (Lacks b'=') (some_injective h) (escape-Lacks-equals s);
}
  where
    some_injective : {a b : Bytes} → some a ≡ some b → a ≡ b
    some_injective e = cc

-- Header texts without white space, in lower case, with the name as the only parameter.
abbrev pub plain_headers : HeaderLibraries
plain_headers = record {
  trim_copy = λ s. s;
  iequals = bytes_eq;
  ext_find = λ name value. some ((text "name", value) ∷ []);
}
