-- ===== src/DataObjects/Read/Delivery.antt =====
-- What an incremental read sends to the client.
use mathlib.Core.List.{append_assoc, append-nil}
use irods_client_http_api.Prelude.{
  ℕ, zero, suc, ◌+◌, ◌-◌, ◌≤◌, ◌<◌, ◌≡◌, refl, sym, ap, ◌∙◌, ◌⊎◌, inl, inr, true, false, [], ◌++◌,
  Option, none, some, Bytes, arith, take, drop, min, length, take-add, drop-add, length-take,
  length-drop, subst,
}
use irods_client_http_api.Http.Exec.{value}
use irods_client_http_api.DataObjects.Io.{Io}
use irods_client_http_api.DataObjects.Read.Client.{Files, need_buffer, no_error}
use irods_client_http_api.DataObjects.Read.{
  Reader, again, completed, ReadEnd, whole, send_chunk, read_turn, run_reader, start_reader,
}

-- A stream over these bytes, and a socket that takes all that is sent: `position` is where the
-- stream stands, and `sent_bytes` is what the client has received. A read within the bytes is
-- served in full and leaves the stream good.
pub record IsSource {Z Conn In : Type 0} (files : Files Z Conn In) (stream : In) (content : Bytes)
    (position : Z → ℕ) (sent_bytes : Z → Bytes) : Type 0 where
  pub reads :
      (n : ℕ) (z : Z)
      → position z + n ≤ length content
      → (files.read stream n z).0 ≡ value (take n (drop (position z) content))
  pub moves :
      (n : ℕ) (z : Z)
      → position z + n ≤ length content
      → position (files.read stream n z).1 ≡ position z + n
  pub no_failure :
      (n : ℕ) (z : Z)
      → position z + n ≤ length content
      → files.fail stream (files.read stream n z).1 ≡ false
  pub no_eof :
      (n : ℕ) (z : Z)
      → position z + n ≤ length content
      → files.eof stream (files.read stream n z).1 ≡ false
  pub good :
      (n : ℕ) (z : Z)
      → position z + n ≤ length content
      → files.is_good stream (files.read stream n z).1 ≡ true
  pub sends_nothing : (n : ℕ) (z : Z) → sent_bytes (files.read stream n z).1 ≡ sent_bytes z
  pub takes : (b : Bytes) (z : Z) → (files.write_body b true z).0 ≡ need_buffer
  pub sends : (b : Bytes) (z : Z) → sent_bytes (files.write_body b true z).1 ≡ sent_bytes z ++ b
  pub stays : (b : Bytes) (z : Z) → position (files.write_body b true z).1 ≡ position z
  pub ends : (z : Z) → (files.write_body [] false z).0 ≡ no_error
  pub ends_with_nothing : (z : Z) → sent_bytes (files.write_body [] false z).1 ≡ sent_bytes z
  pub header : (z : Z) → (files.write_header z).0 ≡ value true
  pub header_position : (z : Z) → position (files.write_header z).1 ≡ position z
  pub header_sends : (z : Z) → sent_bytes (files.write_header z).1 ≡ sent_bytes z

zero_or_more : (n : ℕ) → (n ≡ 0) ⊎ (0 < n)
zero_or_more zero = inl refl
zero_or_more (suc n) = inr (omega arith)

module _ {Z Conn Out In : Type 0} (io : Io Z Conn Out) (files : Files Z Conn In) (content : Bytes)
    (position : Z → ℕ) (sent_bytes : Z → Bytes) where
  -- The body was ended, and the client got these bytes more.
  abbrev pub Receives : Bytes → Z → Option (ReadEnd × Z) → Type 0
  Receives bytes z none = ⊥
  Receives bytes z (some (e, z')) = (e ≡ whole) × (sent_bytes z' ≡ sent_bytes z ++ bytes)

  module _ (stream : In) (laws : IsSource files stream content position sent_bytes) where
    abbrev chunk : ℕ → ℕ → Z → Bytes
    chunk buffer_size remaining z = take (min buffer_size remaining) (drop (position z) content)

    abbrev reader : ℕ → ℕ → Reader In
    reader buffer_size remaining = record {
      stream = stream;
      buffer_size = buffer_size;
      remaining_bytes = remaining;
    }

    abbrev after_read : ℕ → ℕ → Z → Z
    after_read buffer_size remaining z = (files.read stream (min buffer_size remaining) z).1

    length-chunk :
        (b n : ℕ) (z : Z) → position z + n ≤ length content → length (chunk b n z) ≡ min b n
    length-chunk b n z fits =
        omega (
          arith,
          length-take (min b n) (drop (position z) content),
          length-drop (position z) content,
        )

    read_turn-again :
        (b n : ℕ) (z : Z)
        → 0 < n
        → position z + n ≤ length content
        → read_turn io files (reader b n) z ≡ (
          again (reader b (n - min b n)),
          (files.write_body (chunk b n z) true (after_read b n z)).1,
        )
    unfolding read_turn send_chunk
    read_turn-again b n z more fits =
        let inside : position z + min b n ≤ length content = omega arith in
        ground (
          arith,
          laws.reads (min b n) z inside,
          laws.no_failure (min b n) z inside,
          laws.no_eof (min b n) z inside,
          laws.takes (chunk b n z) (after_read b n z),
          length-chunk b n z fits,
        )

    read_turn-completed :
        (b : ℕ) (z : Z)
        → position z ≤ length content
        → ((read_turn io files (reader b 0) z).0 ≡ completed)
          × (sent_bytes (read_turn io files (reader b 0) z).1 ≡ sent_bytes z)
    unfolding read_turn send_chunk
    read_turn-completed b z fits =
        let inside : position z + min b 0 ≤ length content = omega arith in
        ground (
          arith,
          laws.reads (min b 0) z inside,
          laws.no_failure (min b 0) z inside,
          laws.sends_nothing (min b 0) z,
          laws.ends (after_read b 0 z),
          laws.ends_with_nothing (after_read b 0 z),
        )

    Receives-again :
        (fuel : ℕ) (r r' : Reader In) (chunk rest : Bytes) (z z' : Z)
        → read_turn io files r z ≡ (again r', z')
        → sent_bytes z' ≡ sent_bytes z ++ chunk
        → Receives rest z' (run_reader io files fuel r' z')
        → Receives (chunk ++ rest) z (run_reader io files (suc fuel) r z)
    unfolding run_reader
    Receives-again fuel r r' chunk rest z z' e c d =
        rw e (Receives-append chunk rest z z' (run_reader io files fuel r' z') c d)
      where
        Receives-append :
            (chunk rest : Bytes) (z z' : Z) (o : Option (ReadEnd × Z))
            → sent_bytes z' ≡ sent_bytes z ++ chunk
            → Receives rest z' o
            → Receives (chunk ++ rest) z o
        Receives-append chunk rest z z' none c d = d
        Receives-append chunk rest z z' (some (e, t)) c d =
            (d.0, d.1 ∙ ap (λ (b : Bytes). b ++ rest) c ∙ append_assoc (sent_bytes z) chunk rest)

    Receives-completed :
        (fuel : ℕ) (r : Reader In) (z : Z)
        → (read_turn io files r z).0 ≡ completed
        → sent_bytes (read_turn io files r z).1 ≡ sent_bytes z
        → Receives [] z (run_reader io files (suc fuel) r z)
    unfolding run_reader
    Receives-completed fuel r z e same = rw e (refl, same ∙ sym (append-nil (sent_bytes z)))

    chunk_append :
        (m n : ℕ) (b : Bytes) → take (min m n) b ++ take (n - min m n) (drop (min m n) b) ≡ take n b
    chunk_append m n b =
        sym (take-add (min m n) (n - min m n) b) ∙ ap (λ (k : ℕ). take k b) (omega arith)

    run_reader-Receives :
        (fuel b n : ℕ) (z : Z)
        → 0 < b
        → position z + n ≤ length content
        → n < fuel
        → Receives (take n (drop (position z) content)) z (run_reader io files fuel (reader b n) z)
    run_reader-Receives zero b n z some_buffer fits enough = absurd (omega arith)
    run_reader-Receives (suc fuel) b zero z some_buffer fits enough =
        let (e, same) = read_turn-completed b z (omega arith) in
        Receives-completed fuel (reader b zero) z e same
    run_reader-Receives (suc fuel) b (suc n) z some_buffer fits enough =
        let m = min b (suc n) in
        let inside : position z + min b (suc n) ≤ length content = omega arith in
        let z1 = after_read b (suc n) z in
        let z' = (files.write_body (chunk b (suc n) z) true z1).1 in
        let moved : position z' ≡ position z + min b (suc n) =
          laws.stays (chunk b (suc n) z) z1 ∙ laws.moves (min b (suc n)) z inside in
        let delivered : sent_bytes z' ≡ sent_bytes z ++ chunk b (suc n) z =
          laws.sends (chunk b (suc n) z) z1
          ∙ ap (λ (s : Bytes). s ++ chunk b (suc n) z) (laws.sends_nothing (min b (suc n)) z) in
        let rest =
          run_reader-Receives fuel b (suc n - m) z' some_buffer (omega arith) (omega arith) in
        let split : chunk b (suc n) z ++ take (suc n - m) (drop (position z') content)
            ≡ take (suc n) (drop (position z) content) =
          ap (λ (d : Bytes). chunk b (suc n) z ++ take (suc n - m) d)
            (ap (λ (k : ℕ). drop k content) moved ∙ drop-add (position z) m content)
          ∙ chunk_append b (suc n) (drop (position z) content) in
        subst
          (λ (bytes : Bytes).
            Receives bytes z (run_reader io files (suc fuel) (reader b (suc n)) z))
          split
          (Receives-again fuel (reader b (suc n)) (reader b (suc n - m)) (chunk b (suc n) z) _ z z'
            (read_turn-again b (suc n) z (omega arith) fits) delivered rest)

    -- If the socket takes all that is sent and the stream serves every read within its bytes, the
    -- buffer is not empty and the stream holds as many bytes as are to be read, then an incremental
    -- read ends within one task more than there are bytes, whatever the size of the buffer: the
    -- client gets exactly these bytes, in their order, and then the end of the body.
    pub start_reader-Receives :
        (b n : ℕ) (z : Z)
        → 0 < b
        → position z + n ≤ length content
        → Receives
            (take n (drop (position z) content))
            z
            (start_reader io files (n + 1) (reader b n) z)
    unfolding start_reader
    start_reader-Receives b n z some_buffer fits =
        let z' = (files.write_header z).1 in
        let run =
          run_reader-Receives (n + 1) b n z' some_buffer (omega (arith, laws.header_position z))
            (omega arith) in
        rw (laws.header z) (
          Receives-from z z' (take n (drop (position z) content))
            (run_reader io files (n + 1) (reader b n) z') (laws.header_sends z)
            (subst
              (λ (k : ℕ).
                Receives (take n (drop k content)) z' (run_reader io files (n + 1) (reader b n) z'))
              (laws.header_position z) run))
      where
        Receives-from :
            (z z' : Z) (bytes : Bytes) (o : Option (ReadEnd × Z))
            → sent_bytes z' ≡ sent_bytes z
            → Receives bytes z' o
            → Receives bytes z o
        Receives-from z z' bytes none same d = d
        Receives-from z z' bytes (some (e, t)) same d =
            (d.0, d.1 ∙ ap (λ (s : Bytes). s ++ bytes) same)
