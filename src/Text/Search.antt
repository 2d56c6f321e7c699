-- ===== src/Text/Search.antt =====
-- `find`, `substr` and prefix tests. A position is a number; `npos` is `none`.
use mathlib.Core.List.{append_assoc}
use irods_client_http_api.Prelude.{
  ℕ, suc, ◌+◌, ◌≤◌, ◌≡◌, refl, ap, ◌∙◌, Bool, true, false, ◌&&◌, [], ◌∷◌, ◌++◌, Option, none, some,
  ◌==◌, leb, if◌then◌else◌, arith, Bytes, length, take, drop, inl, inr, length-drop, Option-cases,
  length-append, length-take, drop-add, drop-length_append,
}

-- The needle stands at the front of the text.
unfoldable pub starts_with : Bytes → Bytes → Bool
starts_with [] s = true
starts_with (x ∷ xs) [] = false
starts_with (x ∷ xs) (y ∷ ys) = x == y && starts_with xs ys

abbrev shift : Option ℕ → Option ℕ
shift none = none
shift (some n) = some (suc n)

-- The first place where the needle stands, from the front.
unfoldable pub first : Bytes → Bytes → Option ℕ
unfolding starts_with
first needle [] = if starts_with needle [] then some 0 else none
first needle (c ∷ s) =
    let rest = first needle s in if starts_with needle (c ∷ s) then some 0 else shift rest

abbrev offset_by : ℕ → Option ℕ → Option ℕ
offset_by pos none = none
offset_by pos (some n) = some (pos + n)

-- `s.find(needle, pos)`.
unfoldable pub find_from : Bytes → Bytes → ℕ → Option ℕ
unfolding first
find_from s needle pos =
    if leb pos (length s) then offset_by pos (first needle (drop pos s)) else none

-- `s.substr(pos, count)`; `none` is the exception `std::out_of_range`.
unfoldable pub substr : Bytes → ℕ → ℕ → Option Bytes
substr s pos count = if leb pos (length s) then some (take count (drop pos s)) else none

starts_with-length : (p s : Bytes) → starts_with p s ≡ true → length p ≤ length s
unfolding starts_with
starts_with-length [] s h = omega arith
starts_with-length (x ∷ p) [] h = cc
starts_with-length (x ∷ p) (y ∷ s) h = ground (arith, starts_with-length p s)

-- A prefix test reads no further than the prefix is long.
starts_with-append_right :
    (p s rest : Bytes) → length p ≤ length s → starts_with p (s ++ rest) ≡ starts_with p s
unfolding starts_with
starts_with-append_right [] s rest h = refl
starts_with-append_right (x ∷ p) [] rest h = absurd (omega arith)
starts_with-append_right (x ∷ p) (y ∷ s) rest h =
    ap (◌&&◌ (x == y)) (starts_with-append_right p s rest (omega arith))

pub starts_with-append : (p rest : Bytes) → starts_with p (p ++ rest) ≡ true
unfolding starts_with
starts_with-append [] rest = refl
starts_with-append (x ∷ p) rest = ground (arith, starts_with-append p rest)

first_of_starts_with : (p s : Bytes) → starts_with p s ≡ true → first p s ≡ some 0
unfolding first
first_of_starts_with p [] h = rw h
first_of_starts_with p (c ∷ s) h = rw h

-- What is found lies within the text.
pub first-le : (p s : Bytes) (n : ℕ) → first p s ≡ some n → n + length p ≤ length s
unfolding first
first-le p [] n h = ground (arith, starts_with-length p [])
first-le p (c ∷ s) n h = elim (Option-cases (first p s)) [
  | inl e ↦ ground (arith, starts_with-length p (c ∷ s))
  | inr (m, e) ↦ ground (arith, starts_with-length p (c ∷ s), first-le p s m e)
]

-- `x` followed by the mark holds the mark only at its end.
abbrev pub Marks : Bytes → Bytes → Type 0
Marks mark x = first mark (x ++ mark) ≡ some (length x)

pub first-Marks :
    (mark x rest : Bytes) → Marks mark x → first mark (x ++ (mark ++ rest)) ≡ some (length x)
unfolding first
first-Marks mark [] rest h = first_of_starts_with mark (mark ++ rest) (starts_with-append mark rest)
first-Marks mark (c ∷ x) rest h = elim (Option-cases (first mark (x ++ mark))) [
  | inl e ↦ ground arith
  | inr (m, e) ↦ ground (
    arith,
    e,
    length-append x mark,
    first-Marks mark x rest,
    starts_with-append_right mark (c ∷ (x ++ mark)) rest,
    append_assoc x mark rest,
  )
]

-- The text that stands from a position to the end.
pub record At (s : Bytes) (pos : ℕ) (rest : Bytes) : Type 0 where
  pub within : pos ≤ length s
  pub is_rest : drop pos s ≡ rest

pub At-start : (s : Bytes) → At s 0 s
At-start s = record { within = omega arith; is_rest = refl }

pub At-advance :
    (s : Bytes) (pos : ℕ) (x rest : Bytes) → At s pos (x ++ rest) → At s (pos + length x) rest
At-advance s pos x rest a = record {
  within = omega (arith, length-drop pos s, ap length a.is_rest, length-append x rest, a.within);
  is_rest = drop-add pos (length x) s ∙ rw a.is_rest (drop-length_append x rest);
}

pub find_from-At :
    (s needle : Bytes) (pos : ℕ) (x rest : Bytes)
    → Marks needle x
    → At s pos (x ++ (needle ++ rest))
    → find_from s needle pos ≡ some (pos + length x)
unfolding find_from
find_from-At s needle pos x rest m a =
    ground (arith, a.within, a.is_rest, first-Marks needle x rest m)

pub substr-At :
    (s : Bytes) (pos count : ℕ) (rest : Bytes)
    → At s pos rest
    → substr s pos count ≡ some (take count rest)
unfolding substr
substr-At s pos count rest a = ground (arith, a.within, a.is_rest)

-- What `find` reports lies between the position and the end of the text.
pub find_from-le :
    (s needle : Bytes) (pos n : ℕ)
    → find_from s needle pos ≡ some n
    → (pos ≤ n) × (n + length needle ≤ length s)
unfolding find_from
find_from-le s needle pos n h = elim (Option-cases (first needle (drop pos s))) [
  | inl e ↦ ground (arith, e)
  | inr (m, e) ↦ ground (arith, e, first-le needle (drop pos s) m e, length-drop pos s)
]

pub substr_total :
    (s : Bytes) (pos count : ℕ)
    → pos ≤ length s
    → substr s pos count ≡ some (take count (drop pos s))
unfolding substr
substr_total s pos count h = ground arith

-- A slice that is as long as `t` fits between the position and the end.
pub length-slice_le :
    (s t : Bytes) (pos : ℕ)
    → pos ≤ length s
    → take (length t) (drop pos s) ≡ t
    → pos + length t ≤ length s
length-slice_le s t pos h e =
    omega (arith, ap length e, length-take (length t) (drop pos s), length-drop pos s)

starts_with_self : (p : Bytes) → starts_with p p ≡ true
unfolding starts_with
starts_with_self [] = refl
starts_with_self (x ∷ p) = ground (arith, starts_with_self p)

pub Marks-nil : (mark : Bytes) → Marks mark []
Marks-nil mark = first_of_starts_with mark mark (starts_with_self mark)
