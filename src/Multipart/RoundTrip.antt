-- ===== src/Multipart/RoundTrip.antt =====
-- Reading a form that was written as RFC 7578 lays it out.
use mathlib.Core.List.{append_assoc}
use irods_client_http_api.Prelude.{
  ℕ, zero, suc, ◌+◌, ◌<◌, ◌≡◌, Bool, true, false, List, [], ◌∷◌, ◌++◌, some, Bytes, text, length,
  arith, ◌∙◌, take, All, ap, take-length_append, take-append, if◌then◌else◌, length-append,
}
use irods_client_http_api.Text.{
  bytes_eq, bytes_eq-append, bytes_eq_self, substr, Marks, Marks-nil, At, At-start, At-advance,
  find_from-At, substr-At,
}
use irods_client_http_api.Map.{Map, insert_or_assign}
use irods_client_http_api.Multipart.Libraries.{HeaderLibraries}
use irods_client_http_api.Multipart.Progress.{InBounds, turns_left, turn-Progresses}
use irods_client_http_api.Multipart.{
  ParserState, find_boundary_start, read_boundary_start, read_header, read_body, Parser, Turn, next,
  returned, crlf, size_mod, sub_size, header_name, turn_find_boundary_start,
  turn_read_boundary_start, turn_read_header, turn_read_body, turn, parse_loop, initial,
  boundary_start_of, parse_multipart_form_data,
}
use irods_client_http_api.Multipart.Layout.{
  Part, headers, header_text, form_text, form_text-mark, IsHeader, IsPart, sub_size-add,
  bytes_eq-crlf-NoBreak, bytes_eq-dashes, At-length, header_names, add_parts,
}

module _ (lib : HeaderLibraries) where
  module _ (mark data_ : Bytes) (small : length data_ < size_mod) where
    abbrev the_turn : Parser → Turn
    the_turn = turn lib mark (mark ++ text "--") data_

    -- The turns from this state on return the arguments.
    data Returns (args : Map Bytes) : Parser → Type 0 where
      stop : {p : Parser} → the_turn p ≡ returned args → Returns args p
      go : {p q : Parser} → the_turn p ≡ next q → Returns args q → Returns args p

    parse_loop-Returns :
        (fuel : ℕ) (args : Map Bytes) (p : Parser)
        → Returns args p
        → InBounds mark data_ p
        → turns_left data_ p < fuel
        → parse_loop lib mark (mark ++ text "--") data_ fuel p ≡ some (returned args)
    unfolding parse_loop
    parse_loop-Returns zero args p r b h = absurd (omega arith)
    parse_loop-Returns (suc fuel) args p (stop e) b h = rw (e, parse_loop)
    parse_loop-Returns (suc fuel) args p (go {q = q} e r) b h =
        let (within, falls) =
          rw e at (turn-Progresses lib mark (mark ++ text "--") data_ p small b) in
        rw (e, parse_loop) (parse_loop-Returns fuel args q r within (omega arith))

    mark_end-cut :
        (x rest : Bytes) → take (length (mark ++ x)) (mark ++ rest) ≡ mark ++ take (length x) rest
    mark_end-cut x rest =
        ap (λ (k : ℕ). take k (mark ++ rest)) (length-append mark x)
        ∙ take-append mark rest (length x)

    find_boundary_start-next :
        (p : Parser) (rest : Bytes)
        → At data_ p.pos (mark ++ (crlf ++ rest))
        → turn_find_boundary_start lib mark (mark ++ text "--") data_ p
          ≡ next (record p { pstate = read_boundary_start })
    unfolding turn_find_boundary_start
    find_boundary_start-next p rest a =
        let found = find_from-At data_ mark p.pos [] (crlf ++ rest) (Marks-nil mark) a in
        let slice = substr-At data_ p.pos (length (mark ++ text "--")) _ a in
        ground (
          arith,
          found,
          slice,
          mark_end-cut (text "--") (crlf ++ rest),
          bytes_eq-append mark (text "--") crlf,
          bytes_eq-dashes,
        )

    find_boundary_start-returned :
        (p : Parser) (rest : Bytes)
        → At data_ p.pos (mark ++ (text "--" ++ rest))
        → turn_find_boundary_start lib mark (mark ++ text "--") data_ p ≡ returned p.args
    unfolding turn_find_boundary_start
    find_boundary_start-returned p rest a =
        let found = find_from-At data_ mark p.pos [] (text "--" ++ rest) (Marks-nil mark) a in
        let slice = substr-At data_ p.pos (length (mark ++ text "--")) _ a in
        ground (
          arith,
          found,
          slice,
          mark_end-cut (text "--") (text "--" ++ rest),
          bytes_eq_self (mark ++ text "--"),
        )

    read_boundary_start-next :
        (p : Parser) (rest : Bytes)
        → At data_ p.pos (mark ++ (crlf ++ rest))
        → turn_read_boundary_start lib mark (mark ++ text "--") data_ p
          ≡ next (record p { pos = p.pos + length mark + 2; pstate = read_header })
    unfolding turn_read_boundary_start
    read_boundary_start-next p rest a =
        let slice = substr-At data_ _ 2 _ (At-advance data_ p.pos mark (crlf ++ rest) a) in
        ground (arith, slice, bytes_eq_self crlf)

    -- A slice from a position up to a text that is found behind it.
    slice-upto :
        (pos : ℕ) (x rest : Bytes)
        → At data_ pos (x ++ rest)
        → substr data_ pos (sub_size (pos + length x) pos) ≡ some x
    slice-upto pos x rest a =
        substr-At data_ pos _ _ a
        ∙ ap (λ (k : ℕ). some (take k (x ++ rest)))
            (sub_size-add pos (length x) (omega (arith, At-length data_ pos x rest a, small)))
        ∙ ap some (take-length_append x rest)

    module _ (p : Parser) (n v rest : Bytes) (fits : IsHeader (n, v)) where
      abbrev behind_header : ℕ
      behind_header = p.pos + length n + 1 + length v + 2

      At-behind_header :
          At data_ p.pos (n ++ (b':' ∷ (v ++ (crlf ++ rest)))) → At data_ behind_header rest
      At-behind_header a =
          let a1 = At-advance data_ p.pos n (b':' ∷ (v ++ (crlf ++ rest))) a in
          let a2 = At-advance data_ (p.pos + length n) (b':' ∷ []) (v ++ (crlf ++ rest)) a1 in
          let a3 = At-advance data_ (p.pos + length n + 1) v (crlf ++ rest) a2 in
          At-advance data_ (p.pos + length n + 1 + length v) crlf rest a3

      -- After a header line the parser is at the body if a line break follows, and at the next line
      -- if not.
      read_header-next :
          (last : Bool)
          → At data_ p.pos (n ++ (b':' ∷ (v ++ (crlf ++ rest))))
          → bytes_eq crlf (take 2 rest) ≡ last
          → turn_read_header lib mark (mark ++ text "--") data_ p
            ≡ next (
                if last
                then record p {
                  pos = behind_header + 2;
                  pstate = read_body;
                  param_name = header_name lib p.param_name n v;
                }
                else record p {
                  pos = behind_header;
                  param_name = header_name lib p.param_name n v;
                })
      unfolding turn_read_header
      read_header-next last a e =
          let a1 = At-advance data_ p.pos n (b':' ∷ (v ++ (crlf ++ rest))) a in
          let a2 = At-advance data_ (p.pos + length n) (b':' ∷ []) (v ++ (crlf ++ rest)) a1 in
          ground (
            arith,
            e,
            find_from-At data_ (b':' ∷ []) p.pos n (v ++ (crlf ++ rest)) fits.0 a,
            slice-upto p.pos n _ a,
            find_from-At data_ crlf (p.pos + length n + 1) v rest fits.1 a2,
            slice-upto (p.pos + length n + 1) v _ a2,
            substr-At data_ behind_header 2 rest (At-behind_header a),
          )

    module _ (p : Parser) (body rest : Bytes) (fits : Marks mark (body ++ crlf)) where
      read_body-next :
          At data_ p.pos (body ++ (crlf ++ (mark ++ rest)))
          → turn_read_body lib mark (mark ++ text "--") data_ p
            ≡ next (record p {
              args = insert_or_assign p.param_name body p.args;
              param_name = [];
              pos = p.pos + length body + 2;
              pstate = find_boundary_start;
            })
      unfolding turn_read_body
      read_body-next a =
          let a1 = At-advance data_ p.pos body (crlf ++ (mark ++ rest)) a in
          let a2 = At-advance data_ (p.pos + length body) crlf (mark ++ rest) a1 in
          let whole : At data_ p.pos ((body ++ crlf) ++ (mark ++ rest)) =
            rw (append_assoc body crlf (mark ++ rest)) a in
          let back : sub_size (p.pos + length (body ++ crlf)) 2 ≡ p.pos + length body =
            omega (arith, length-append body crlf, a2.within, small) in
          ground (
            arith,
            back,
            length-append body crlf,
            find_from-At data_ mark p.pos (body ++ crlf) rest fits whole,
            substr-At data_ (p.pos + length body) 2 _ a1,
            bytes_eq_self crlf,
            slice-upto p.pos body _ a,
          )

    abbrev at_state : ParserState → ℕ → Bytes → Map Bytes → Parser
    at_state s pos name args = record { args = args; pstate = s; pos = pos; param_name = name }

    -- The header lines of a part, from the first one to its body.
    headers-Returns :
        (n v : Bytes) (lines : List (Bytes × Bytes)) (pos : ℕ) (old rest : Bytes)
        (args result : Map Bytes)
        → IsHeader (n, v)
        → All IsHeader lines
        → At data_ pos (header_text ((n, v) ∷ lines) (crlf ++ rest))
        → ((behind : ℕ)
            → At data_ behind rest
            → Returns result
                (at_state read_body behind (header_names lib old ((n, v) ∷ lines)) args))
        → Returns result (at_state read_header pos old args)
    unfolding turn
    headers-Returns n v [] pos old rest args result fits all a then_ =
        let p = at_state read_header pos old args in
        let at_break = At-behind_header p n v (crlf ++ rest) fits a in
        go (read_header-next p n v (crlf ++ rest) fits true a (bytes_eq_self crlf))
          (then_ _ (At-advance data_ _ crlf rest at_break))
    headers-Returns n v ((n', v') ∷ lines) pos old rest args result fits all a then_ =
        let p = at_state read_header pos old args in
        let behind = header_text ((n', v') ∷ lines) (crlf ++ rest) in
        go (read_header-next p n v behind fits false a (bytes_eq-crlf-NoBreak n' _ all.0.2)) (
          headers-Returns n' v' lines _ (header_name lib old n v) rest args result all.0 all.1
            (At-behind_header p n v behind fits a) then_)

    form-Returns :
        (parts : List Part) (epilogue : Bytes) (pos : ℕ) (args : Map Bytes)
        → All (IsPart mark) parts
        → At data_ pos (form_text mark parts epilogue)
        → Returns (add_parts lib args parts) (at_state find_boundary_start pos [] args)
    unfolding turn
    form-Returns [] epilogue pos args all a = stop (find_boundary_start-returned _ epilogue a)
    form-Returns (p ∷ parts) epilogue pos args all a =
        let (tail, e) = form_text-mark mark parts epilogue in
        go (find_boundary_start-next (at_state find_boundary_start pos [] args) _ a) (
          go (read_boundary_start-next (at_state read_boundary_start pos [] args) _ a) (
            headers-Returns p.name p.value p.more _ [] _ args _ all.0.headers_fit.0
              all.0.headers_fit.1
              (At-advance data_ (pos + length mark) crlf _ (At-advance data_ pos mark _ a))
              λ behind b.
                let q = at_state read_body behind (header_names lib [] (headers p)) args in
                let marked : At data_ behind (p.body ++ (crlf ++ (mark ++ tail))) = rw e at b in
                let next_part = At-advance data_ behind p.body _ b in
                go (read_body-next q p.body tail all.0.body_fits marked) (
                  form-Returns parts epilogue _ _ all.1
                    (At-advance data_ (behind + length p.body) crlf _ next_part))))

-- Take a form whose parts are laid out as RFC 7578 has it: each part behind the boundary with at
-- least one header line, header names without a colon that do not begin a line break, header
-- values without a line break, bodies without the boundary, and at most 2 ^ 64 - 1 bytes in all.
-- The parser returns exactly the bodies, each under the name that its header lines give, where a
-- later part replaces an earlier one of that name.
pub parse_multipart_form_data-form_text :
    (lib : HeaderLibraries) (boundary : Bytes) (parts : List Part) (epilogue : Bytes)
    → All (IsPart (boundary_start_of boundary)) parts
    → length (form_text (boundary_start_of boundary) parts epilogue) < size_mod
    → parse_multipart_form_data lib boundary (form_text (boundary_start_of boundary) parts epilogue)
      ≡ some (returned (add_parts lib [] parts))
unfolding parse_multipart_form_data
parse_multipart_form_data-form_text lib boundary [] epilogue all small =
    parse_loop-Returns lib (boundary_start_of boundary) _ small _ _ initial
      (form-Returns lib (boundary_start_of boundary) _ small [] epilogue 0 [] all (At-start _))
      (omega arith, λ e. cc, λ e. cc) (omega arith)
parse_multipart_form_data-form_text lib boundary (p ∷ parts) epilogue all small =
    parse_loop-Returns lib (boundary_start_of boundary) _ small _ _ initial
      (form-Returns lib (boundary_start_of boundary) _ small (p ∷ parts) epilogue 0 [] all
        (At-start _))
      (omega arith, λ e. cc, λ e. cc) (omega arith)
