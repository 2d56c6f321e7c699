-- ===== src/Multipart/Layout.antt =====
-- The layout of a form, as RFC 7578 has it.
use irods_client_http_api.Prelude.{
  ℕ, ◌+◌, ◌≤◌, ◌<◌, ◌≡◌, ◌≢◌, refl, false, List, [], ◌∷◌, ◌++◌, Bytes, text, length, arith, take,
  All,
}
use irods_client_http_api.Text.{bytes_eq, Marks, At, At-advance}
use irods_client_http_api.Map.{Map, insert_or_assign}
use irods_client_http_api.Multipart.Libraries.{HeaderLibraries}
use irods_client_http_api.Multipart.{crlf, size_mod, sub_size, header_name}

-- One part of a form: the name and value of its first header line, the other lines, and its body.
pub record Part : Type 0 where
  pub name : Bytes
  pub value : Bytes
  pub more : List (Bytes × Bytes)
  pub body : Bytes

abbrev pub headers : Part → List (Bytes × Bytes)
headers p = (p.name, p.value) ∷ p.more

abbrev pub header_text : List (Bytes × Bytes) → Bytes → Bytes
header_text [] rest = rest
header_text ((n, v) ∷ lines) rest = n ++ (b':' ∷ (v ++ (crlf ++ header_text lines rest)))

-- The parts, each behind the boundary mark, the closing mark, and what follows it.
abbrev pub form_text : Bytes → List Part → Bytes → Bytes
form_text mark [] epilogue = mark ++ (text "--" ++ epilogue)
form_text mark (p ∷ parts) epilogue =
    mark
    ++ (crlf
        ++ header_text (headers p) (crlf ++ (p.body ++ (crlf ++ form_text mark parts epilogue))))

pub form_text-mark :
    (mark : Bytes) (parts : List Part) (epilogue : Bytes)
    → (tail : Bytes) × (form_text mark parts epilogue ≡ mark ++ tail)
form_text-mark mark [] epilogue = (text "--" ++ epilogue, refl)
form_text-mark mark (p ∷ parts) epilogue = (
  crlf ++ header_text (headers p) (crlf ++ (p.body ++ (crlf ++ form_text mark parts epilogue))),
  refl,
)

abbrev pub NoBreak : Bytes → Type 0
NoBreak [] = Unit {0}
NoBreak (c ∷ s) = c ≢ 13

-- A header name holds no colon and does not begin with a line break; a value holds no line break.
abbrev pub IsHeader : Bytes × Bytes → Type 0
IsHeader (n, v) = Marks (b':' ∷ []) n × Marks crlf v × NoBreak n

-- The header lines are well formed, and the body does not hold the boundary.
pub record IsPart (mark : Bytes) (p : Part) : Type 0 where
  pub headers_fit : All IsHeader (headers p)
  pub body_fits : Marks mark (p.body ++ crlf)

-- `x - y` on sizes where the text holds both.
pub sub_size-add : (a n : ℕ) → n < size_mod → sub_size (a + n) a ≡ n
sub_size-add a n h = omega arith

pub bytes_eq-crlf-NoBreak :
    (n rest : Bytes) → NoBreak n → bytes_eq crlf (take 2 (n ++ (b':' ∷ rest))) ≡ false
unfolding bytes_eq
bytes_eq-crlf-NoBreak [] rest h = refl
bytes_eq-crlf-NoBreak (c ∷ n) rest h = ground arith

pub bytes_eq-dashes : bytes_eq (text "--") crlf ≡ false
unfolding bytes_eq
bytes_eq-dashes = refl

pub At-length :
    (data_ : Bytes) (pos : ℕ) (x rest : Bytes) → At data_ pos (x ++ rest) → length x ≤ length data_
At-length data_ pos x rest a = let b = At-advance data_ pos x rest a in omega (arith, b.within)

module _ (lib : HeaderLibraries) where
  -- The parameter name after all header lines of a part.
  abbrev pub header_names : Bytes → List (Bytes × Bytes) → Bytes
  header_names old [] = old
  header_names old ((n, v) ∷ lines) = header_names (header_name lib old n v) lines

  -- The arguments that the parts stand for; a later part of the same name wins.
  abbrev pub add_parts : Map Bytes → List Part → Map Bytes
  add_parts args [] = args
  add_parts args (p ∷ parts) =
      add_parts (insert_or_assign (header_names [] (headers p)) p.body args) parts
