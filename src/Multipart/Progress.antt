-- ===== src/Multipart/Progress.antt =====
-- The loop of the parser ends, and no slice lies outside the body.
use irods_client_http_api.Prelude.{
  ℕ, zero, suc, ◌+◌, ◌-◌, ◌*◌, ◌≤◌, ◌<◌, ◌≡◌, refl, true, [], ◌∷◌, some, Bytes, length, arith, take,
  drop, ◌⊎◌, inl, inr, Option-cases, Bool-cases, sym,
}
use irods_client_http_api.Text.{
  bytes_eq, bytes_eq_iff, find_from, substr, find_from-le, substr_total, length-slice_le,
}
use irods_client_http_api.Map.{Map}
use irods_client_http_api.Multipart.Libraries.{HeaderLibraries}
use irods_client_http_api.Multipart.{
  ParserState, find_boundary_start, read_boundary_start, read_header, read_body, Parser, Turn, next,
  returned, out_of_range, crlf, size_mod, turn_find_boundary_start, turn_read_boundary_start,
  turn_read_header, turn_read_body, sub_size, turn_in, turn, parse_loop, initial, boundary_start_of,
  boundary_end_of, parse_multipart_form_data, or_return, or_out_of_range,
}

-- Where the position may stand: at a boundary that was found, or behind a line break.
abbrev pub InBounds : Bytes → Bytes → Parser → Type 0
InBounds mark data_ p =
    (p.pos ≤ length data_)
    × (p.pstate ≡ read_boundary_start → p.pos + length mark ≤ length data_)
    × (p.pstate ≡ read_body → 2 ≤ p.pos)

abbrev rank : ParserState → ℕ
rank find_boundary_start = 1
rank read_boundary_start = 0
rank read_header = 0
rank read_body = 2

abbrev pub turns_left : Bytes → Parser → ℕ
turns_left data_ p = 4 * (length data_ - p.pos) + rank p.pstate

-- The turn goes on with fewer turns left, or returns; it never throws.
abbrev pub Progresses : Bytes → Bytes → Parser → Turn → Type 0
Progresses mark data_ p (next q) = InBounds mark data_ q × (turns_left data_ q < turns_left data_ p)
Progresses mark data_ p (returned args) = Unit {0}
Progresses mark data_ p out_of_range = ⊥

-- The rules for the two ways in which a turn stops early.
or_return-Progresses :
    (mark data_ needle : Bytes) (from : ℕ) (p q : Parser) (k : ℕ → Turn)
    → ((n : ℕ) → from ≤ n → n + length needle ≤ length data_ → Progresses mark data_ p (k n))
    → Progresses mark data_ p (or_return (find_from data_ needle from) q k)
or_return-Progresses mark data_ needle from p q k h =
    elim (Option-cases (find_from data_ needle from)) [
      | inl e ↦ rw e tt
      | inr (n, e) ↦ let (low, high) = find_from-le data_ needle from n e in rw e (h n low high)
    ]

slice-Progresses :
    (mark data_ : Bytes) (pos count : ℕ) (p : Parser) (k : Bytes → Turn)
    → pos ≤ length data_
    → Progresses mark data_ p (k (take count (drop pos data_)))
    → Progresses mark data_ p (or_out_of_range (substr data_ pos count) k)
slice-Progresses mark data_ pos count p k le h = rw (substr_total data_ pos count le) h

-- A slice of two bytes that is a line break lies within the text.
crlf-slice_le :
    (data_ : Bytes) (pos : ℕ)
    → pos ≤ length data_
    → bytes_eq crlf (take 2 (drop pos data_)) ≡ true
    → pos + 2 ≤ length data_
crlf-slice_le data_ pos le h =
    length-slice_le data_ crlf pos le (sym ((bytes_eq_iff crlf (take 2 (drop pos data_))).0 h))

Turn-cases :
    (t : Turn)
    → ((q : Parser) × (t ≡ next q))
      ⊎ (((args : Map Bytes) × (t ≡ returned args)) ⊎ (t ≡ out_of_range))
Turn-cases (next q) = inl (q, refl)
Turn-cases (returned args) = inr (inl (args, refl))
Turn-cases out_of_range = inr (inr refl)

module _ (lib : HeaderLibraries) (boundary_start boundary_end data_ : Bytes) where
  find_boundary_start-Progresses :
      (p : Parser)
      → p.pstate ≡ find_boundary_start
      → InBounds boundary_start data_ p
      → Progresses boundary_start data_ p
          (turn_find_boundary_start lib boundary_start boundary_end data_ p)
  unfolding turn_find_boundary_start
  find_boundary_start-Progresses p s b =
      or_return-Progresses boundary_start data_ boundary_start p.pos p p _ λ n low high.
        slice-Progresses boundary_start data_ n (length boundary_end) p _ (omega arith)
          (ground (arith, s))

  read_boundary_start-Progresses :
      (p : Parser)
      → p.pstate ≡ read_boundary_start
      → InBounds boundary_start data_ p
      → Progresses boundary_start data_ p
          (turn_read_boundary_start lib boundary_start boundary_end data_ p)
  unfolding turn_read_boundary_start
  read_boundary_start-Progresses p s b =
      slice-Progresses boundary_start data_ (p.pos + length boundary_start) 2 p _ (b.1 s)
        (ground (arith, crlf-slice_le data_ (p.pos + length boundary_start)))

  read_header-Progresses :
      (p : Parser)
      → p.pstate ≡ read_header
      → InBounds boundary_start data_ p
      → Progresses boundary_start data_ p (turn_read_header lib boundary_start boundary_end data_ p)
  unfolding turn_read_header
  read_header-Progresses p s b =
      or_return-Progresses boundary_start data_ (b':' ∷ []) p.pos p p _
        λ colon colon_low colon_high. slice-Progresses boundary_start data_ p.pos _ p _ b.0 (
          or_return-Progresses boundary_start data_ crlf (colon + 1) p p _ λ n low high.
            slice-Progresses boundary_start data_ (colon + 1) _ p _ (omega arith) (
              slice-Progresses boundary_start data_ (n + 2) 2 p _ high
                (ground (arith, s, crlf-slice_le data_ (n + 2)))))

  read_body-Progresses :
      (p : Parser)
      → length data_ < size_mod
      → p.pstate ≡ read_body
      → InBounds boundary_start data_ p
      → Progresses boundary_start data_ p (turn_read_body lib boundary_start boundary_end data_ p)
  unfolding turn_read_body
  read_body-Progresses p small s b =
      or_return-Progresses boundary_start data_ boundary_start p.pos p p _ λ n low high.
        slice-Progresses boundary_start data_ _ 2 p _ (omega (arith, b.2 s))
          (elim (Bool-cases (bytes_eq crlf (take 2 (drop (sub_size n 2) data_)))) [
            | inl e ↦
                rw e (slice-Progresses boundary_start data_ p.pos _ p _ b.0 (ground (arith, s)))
            | inr e ↦ rw e tt
          ])

  turn_in-Progresses :
      (s : ParserState) (p : Parser)
      → length data_ < size_mod
      → p.pstate ≡ s
      → InBounds boundary_start data_ p
      → Progresses boundary_start data_ p (turn_in lib boundary_start boundary_end data_ s p)
  turn_in-Progresses find_boundary_start p small e b = find_boundary_start-Progresses p e b
  turn_in-Progresses read_boundary_start p small e b = read_boundary_start-Progresses p e b
  turn_in-Progresses read_header p small e b = read_header-Progresses p e b
  turn_in-Progresses read_body p small e b = read_body-Progresses p small e b

  pub turn-Progresses :
      (p : Parser)
      → length data_ < size_mod
      → InBounds boundary_start data_ p
      → Progresses boundary_start data_ p (turn lib boundary_start boundary_end data_ p)
  unfolding turn
  turn-Progresses p small b = turn_in-Progresses p.pstate p small refl b

  -- With more fuel than turns are left the loop returns.
  parse_loop_returns :
      (fuel : ℕ) (p : Parser)
      → length data_ < size_mod
      → InBounds boundary_start data_ p
      → turns_left data_ p < fuel
      → (args : Map Bytes) × (parse_loop lib boundary_start boundary_end data_ fuel p
          ≡ some (returned args))
  unfolding parse_loop
  parse_loop_returns zero p small b h = absurd (omega arith)
  parse_loop_returns (suc fuel) p small b h =
      elim (Turn-cases (turn lib boundary_start boundary_end data_ p)) [
        | inl (q, e) ↦
            let (within, falls) = rw e at (turn-Progresses p small b) in
            rw (e, parse_loop) (parse_loop_returns fuel q small within (omega arith))
        | inr (inl (args, e)) ↦ (args, rw (e, parse_loop))
        | inr (inr e) ↦ absurd (rw e at (turn-Progresses p small b))
      ]

-- Every body shorter than the address space is parsed: the loop ends within the turns that it is
-- given, with a map of arguments, and no slice or search lies outside the body.
pub parse_multipart_form_data_total :
    (lib : HeaderLibraries) (boundary data_ : Bytes)
    → length data_ < size_mod
    → (args : Map Bytes) × (parse_multipart_form_data lib boundary data_ ≡ some (returned args))
unfolding parse_multipart_form_data
parse_multipart_form_data_total lib boundary [] small = ([], refl)
parse_multipart_form_data_total lib boundary (c ∷ data_) small =
    parse_loop_returns lib (boundary_start_of boundary) (boundary_end_of boundary) (c ∷ data_) _
      initial small (omega arith, λ e. cc, λ e. cc) (omega arith)
