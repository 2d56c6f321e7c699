-- ===== src/Arguments/Libraries.antt =====
-- libcurl's and Boost's text functions, which the code calls, and what their documentation says.
use irods_client_http_api.Prelude.{ℕ, Bytes, List, [], ◌∷◌, Option, some, ◌≡◌, ◌≢◌, All}

pub record TextLibraries : Type 0 where
  -- A null result is `none`.
  pub curl_easy_unescape : Bytes → Option Bytes
  pub curl_easy_escape : Bytes → Option Bytes
  -- `boost::split` by one character, with no token compression.
  pub split : ℕ → Bytes → List Bytes
  -- `boost::replace_all`: input, search, format.
  pub replace_all : Bytes → Bytes → Bytes → Bytes

-- No byte of the text is `d`.
abbrev pub Lacks : ℕ → Bytes → Type 0
Lacks d s = All (λ c. c ≢ d) s

-- The documented behaviour that the round trip relies on.
pub record LibraryLaws (lib : TextLibraries) : Type 0 where
  pub split-nil : (d : ℕ) → lib.split d [] ≡ [] ∷ []
  pub split-delimiter : (d : ℕ) (s : Bytes) → lib.split d (d ∷ s) ≡ [] ∷ lib.split d s
  pub split-other :
      (d c : ℕ) (s p : Bytes) (ps : List Bytes)
      → c ≢ d
      → lib.split d s ≡ p ∷ ps
      → lib.split d (c ∷ s) ≡ (c ∷ p) ∷ ps
  -- An escaped text unescapes to what it was, and holds no reserved character.
  pub unescape-escape :
      (s e : Bytes) → lib.curl_easy_escape s ≡ some e → lib.curl_easy_unescape e ≡ some s
  pub escape-total : (s : Bytes) → (e : Bytes) × (lib.curl_easy_escape s ≡ some e)
  pub escape-ampersand : (s e : Bytes) → lib.curl_easy_escape s ≡ some e → Lacks b'&' e
  pub escape-equals : (s e : Bytes) → lib.curl_easy_escape s ≡ some e → Lacks b'=' e
