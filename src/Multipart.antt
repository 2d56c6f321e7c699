-- ===== src/Multipart.antt =====
-- core/src/multipart_form_data.cpp: the boundary of a content type, and the parser of a body.
pub mod Libraries
pub mod Progress
pub mod Layout
pub mod RoundTrip
use irods_client_http_api.Prelude.{
  ℕ, zero, suc, ◌+◌, ◌-◌, ◌*◌, ◌%◌, Bool, true, false, List, [], ◌∷◌, ◌++◌, Option, none, some,
  if◌then◌else◌, Bytes, text, length, drop,
}
use irods_client_http_api.Text.{bytes_eq, find_from, substr}
use irods_client_http_api.Map.{Map, find, insert_or_assign}
use Libraries.{HeaderLibraries}

abbrev pub crlf : Bytes
crlf = 13 ∷ 10 ∷ []

-- `a - b` on `std::size_t`.
abbrev pub size_mod : ℕ
size_mod = 18446744073709551616

abbrev pub sub_size : ℕ → ℕ → ℕ
sub_size a b = (a + size_mod - b) % size_mod

pub data ParserState : Type 0 where
  find_boundary_start read_boundary_start read_header read_body : ParserState

-- The variables of the loop; `_data` is an argument.
pub record Parser : Type 0 where
  pub args : Map Bytes
  pub pstate : ParserState
  pub pos : ℕ
  pub param_name : Bytes

-- One turn of the loop goes on, returns, or throws `std::out_of_range`.
pub data Turn : Type 0 where
  next : Parser → Turn
  returned : Map Bytes → Turn
  out_of_range : Turn

abbrev or_out_of_range : Option Bytes → (Bytes → Turn) → Turn
or_out_of_range none k = out_of_range
or_out_of_range (some s) k = k s

abbrev or_return : Option ℕ → Parser → (ℕ → Turn) → Turn
or_return none p k = returned p.args
or_return (some n) p k = k n

abbrev pub boundary_start_of : Bytes → Bytes
boundary_start_of boundary = text "--" ++ boundary

abbrev pub boundary_end_of : Bytes → Bytes
boundary_end_of boundary = boundary_start_of boundary ++ text "--"

abbrev pub initial : Parser
initial = record { args = []; pstate = find_boundary_start; pos = 0; param_name = [] }

-- Each turn but one in two moves the position, so four turns for each byte are more than enough.
abbrev pub turns_for : Bytes → ℕ
turns_for data_ = 4 * length data_ + 4

module _ (lib : HeaderLibraries) where
  open lib use {trim_copy, iequals, ext_find}

  -- The content type is read from its first "form-data" on.
  unfoldable pub get_multipart_form_data_boundary : Bytes → Option Bytes
  get_multipart_form_data_boundary content_type =
      elim (find_from content_type (text "form-data") 0) [
        | none ↦ none
        | some start ↦ elim (ext_find (text "form-data") (drop start content_type)) [
          | none ↦ none
          | some params ↦ find (text "boundary") params
        ]
      ]

  -- The parameter "name" of a "form-data" entry replaces the name that was captured before.
  unfoldable pub capture_name : Bytes → Option (List (Bytes × Bytes)) → Bytes
  capture_name old none = old
  capture_name old (some params) = elim (find (text "name") params) [ none ↦ old | some v ↦ v ]

  -- The parameter name after a header line.
  unfoldable pub header_name : Bytes → Bytes → Bytes → Bytes
  unfolding capture_name
  header_name old hdr_n hdr_v =
      if iequals (trim_copy hdr_n) (text "content-disposition")
      then capture_name old (ext_find (text "form-data") hdr_v)
      else old

  module _ (boundary_start boundary_end data_ : Bytes) where
    unfoldable pub turn_find_boundary_start : Parser → Turn
    turn_find_boundary_start p = or_return (find_from data_ boundary_start p.pos) p λ bs_pos.
        or_out_of_range (substr data_ bs_pos (length boundary_end)) λ s.
          if bytes_eq boundary_end s
          then returned p.args
          else next (record p { pos = bs_pos; pstate = read_boundary_start })

    unfoldable pub turn_read_boundary_start : Parser → Turn
    turn_read_boundary_start p =
        let crlf_pos = p.pos + length boundary_start in
        or_out_of_range (substr data_ crlf_pos 2) λ s.
          if bytes_eq crlf s
          then next (record p { pos = crlf_pos + 2; pstate = read_header })
          else returned p.args

    unfoldable pub turn_read_header : Parser → Turn
    unfolding header_name
    turn_read_header p = or_return (find_from data_ (b':' ∷ []) p.pos) p λ colon_pos.
        or_out_of_range (substr data_ p.pos (sub_size colon_pos p.pos)) λ hdr_n.
          or_return (find_from data_ crlf (colon_pos + 1)) p λ crlf_pos.
            or_out_of_range (substr data_ (colon_pos + 1) (sub_size crlf_pos (colon_pos + 1)))
              λ hdr_v. or_out_of_range (substr data_ (crlf_pos + 2) 2) λ s.
                let named = header_name p.param_name hdr_n hdr_v in
                if bytes_eq crlf s
                then next
                    (record p { pos = crlf_pos + 2 + 2; pstate = read_body; param_name = named })
                else next (record p { pos = crlf_pos + 2; param_name = named })

    unfoldable pub turn_read_body : Parser → Turn
    turn_read_body p = or_return (find_from data_ boundary_start p.pos) p λ bs_pos.
        let crlf_pos = sub_size bs_pos 2 in
        or_out_of_range (substr data_ crlf_pos 2) λ s.
          if bytes_eq crlf s
          then (or_out_of_range (substr data_ p.pos (sub_size crlf_pos p.pos)) λ msg_body.
              next (record p {
                args = insert_or_assign p.param_name msg_body p.args;
                param_name = [];
                pos = bs_pos;
                pstate = find_boundary_start;
              }))
          else returned p.args

    -- The switch.
    abbrev pub turn_in : ParserState → Parser → Turn
    turn_in find_boundary_start p = turn_find_boundary_start p
    turn_in read_boundary_start p = turn_read_boundary_start p
    turn_in read_header p = turn_read_header p
    turn_in read_body p = turn_read_body p

    unfoldable pub turn : Parser → Turn
    turn p = turn_in p.pstate p

    -- The loop on fuel: `none` means that the fuel ran out.
    unfoldable pub parse_loop : ℕ → Parser → Option Turn
    parse_loop zero p = none
    parse_loop (suc fuel) p = elim (turn p) [
      | next q ↦ parse_loop fuel q
      | returned args ↦ some (returned args)
      | out_of_range ↦ some out_of_range
    ]

  unfoldable pub parse_multipart_form_data : Bytes → Bytes → Option Turn
  unfolding parse_loop turn turn_find_boundary_start turn_read_boundary_start turn_read_header
      turn_read_body
  parse_multipart_form_data boundary [] = some (returned [])
  parse_multipart_form_data boundary (c ∷ data_) =
      parse_loop (boundary_start_of boundary) (boundary_end_of boundary) (c ∷ data_)
        (turns_for (c ∷ data_)) initial
