-- ===== src/N2kReader/Lines.antt =====
-- cmd/n2kreader/main.go: lines of the standard input, parsed to messages that are sent.
use go_nmea_client.Common.{
  ℕ, ◌-◌, ◌%◌, ◌^◌, ◌≤◌, ◌<◌, ◌≡◌, ◌≢◌, refl, ap, ◌∙◌, List, [], ◌∷◌, ◌++◌, true, false, arith, ok,
  panic, ltb, leb, ◌==◌, if◌then◌else◌, length, take, length-append, All, IsByte, Bool-cases, inl,
  inr,
}
use go_nmea_client.Canbus.{CanBusHeader}
use go_nmea_client.Nmea.{RawMessage}
use go_nmea_client.Text.{
  Bytes, pos, split, parse_uint, atoi, magnitude, to_unsigned, format_uint, is_digit,
}
use go_nmea_client.Text.Decimal.{
  IsDigit, parse_uint-format_uint, format_uint-IsDigit, format_uint-ne-nil,
}
use go_nmea_client.Text.Parts.{separated, split-separated}
use go_nmea_client.Canboat.Text.{marshal_raw_message}
use go_nmea_client.Canboat.Text.RoundTrip.{
  byte_texts, length-byte_texts, byte_texts-Lacks, data_text-separated, hex_decode-concat,
  number-Lacks,
}
use go_nmea_client.N2kReader.{
  Error, parse_uint8, is_outside, number, bytes_of, first_bytes, parse_parts, parse_line,
}

atoi_digits :
    (s : Bytes) (n : ℕ)
    → s ≢ []
    → All IsDigit s
    → parse_uint 64 s ≡ ok n
    → n < 2 ^ 63
    → atoi s ≡ ok (pos n)
unfolding atoi magnitude is_digit
atoi_digits [] n some h e small = absurd (some refl)
atoi_digits (c ∷ s) n some h e small =
    let minus_sign : (c == b'-') ≡ false = ground (arith, h.0) in
    let plus_sign : (c == b'+') ≡ false = ground (arith, h.0) in
    let fits : ltb (2 ^ 63 - 1) n ≡ false = ground (arith, small) in
    rw (minus_sign, plus_sign, e, fits) refl

atoi-format_uint : (n : ℕ) → n < 2 ^ 63 → atoi (format_uint n) ≡ ok (pos n)
atoi-format_uint n h =
    atoi_digits (format_uint n) n (format_uint-ne-nil n) (format_uint-IsDigit n)
      (parse_uint-format_uint 64 n (omega arith) (omega (arith, h))) h

parse_uint8-format_uint :
    (n max : ℕ) (invalid : Error)
    → n ≤ max
    → max ≤ 256
    → parse_uint8 (format_uint n) max invalid ≡ ok (n % 256)
unfolding parse_uint8 number is_outside to_unsigned
parse_uint8-format_uint n max invalid h small =
    let inside : ltb max n ≡ false = ground arith in
    rw (atoi-format_uint n (omega arith), inside) refl

-- A line with these fields, with a length that may be any number.
abbrev pub line_of : CanBusHeader → ℕ → List ℕ → Bytes
line_of header claimed bytes =
    format_uint header.priority
    ++ separated b',' (
        format_uint header.pgn
        ∷ format_uint header.source
        ∷ format_uint header.destination
        ∷ format_uint claimed
        ∷ byte_texts bytes)

-- Numbers that the fields of a line may have.
pub record IsAllowed (header : CanBusHeader) (claimed : ℕ) (bytes : List ℕ) : Type 0 where
  pub priority_small : header.priority ≤ 7
  pub pgn_fits : header.pgn < 2 ^ 32
  pub source_small : header.source ≤ 256
  pub destination_small : header.destination ≤ 256
  pub claimed_fits : claimed < 2 ^ 63
  pub some_bytes : 0 < length bytes
  pub all_bytes : All IsByte bytes

-- A line of which every part is right gives the message of its fields, of which an address 256 becomes 0
-- and the data is as many bytes as the line says, up to the capacity of the array with the decoded
-- bytes; where it says more, the parser panics.
pub parse_line-line_of :
    (spare : List ℕ) (header : CanBusHeader) (claimed : ℕ) (bytes : List ℕ)
    → IsAllowed header claimed bytes
    → parse_line spare (line_of header claimed bytes) ≡ (
        if leb claimed (length (bytes ++ spare))
        then ok (record {
          time = 0;
          header = record header {
            source = header.source % 256;
            destination = header.destination % 256;
          };
          bytes = take claimed (bytes ++ spare);
        })
        else panic)
unfolding parse_line parse_parts number to_unsigned bytes_of first_bytes
parse_line-line_of spare header claimed bytes a =
    let texts =
      format_uint header.pgn
      ∷ format_uint header.source
      ∷ format_uint header.destination
      ∷ format_uint claimed
      ∷ byte_texts bytes in
    let parts : split b',' (line_of header claimed bytes) ≡ format_uint header.priority ∷ texts =
      split-separated b',' (format_uint header.priority) texts (number-Lacks header.priority) (
        number-Lacks _,
        (number-Lacks _, (number-Lacks _, (number-Lacks _, byte_texts-Lacks bytes))),
      ) in
    let enough : ltb (length (format_uint header.priority ∷ texts)) 6 ≡ false =
      ground (arith, length-byte_texts bytes, a.some_bytes) in
    let priority : header.priority % 256 ≡ header.priority = omega (arith, a.priority_small) in
    let pgn : header.pgn % 2 ^ 32 ≡ header.pgn = omega (arith, a.pgn_fits) in
    rw
      (
        parts,
        enough,
        parse_uint8-format_uint header.priority 7 _ a.priority_small (omega arith),
        atoi-format_uint header.pgn (omega (arith, a.pgn_fits)),
        parse_uint8-format_uint header.source 256 _ a.source_small (omega arith),
        parse_uint8-format_uint header.destination 256 _ a.destination_small (omega arith),
        atoi-format_uint claimed a.claimed_fits,
        hex_decode-concat bytes a.all_bytes,
      )
      (elim (Bool-cases (leb claimed (length (bytes ++ spare)))) [
        | inr long ↦ rw long refl
        | inl short ↦ rw short (λ i. ok (record {
          time = 0;
          header = record {
            pgn = pgn i;
            priority = priority i;
            source = header.source % 256;
            destination = header.destination % 256;
          };
          bytes = take claimed (bytes ++ spare);
        }))
      ])

take-append : (xs ys : List ℕ) → take (length xs) (xs ++ ys) ≡ xs
take-append [] ys = refl
take-append (x ∷ xs) ys = ap (◌∷◌ x) (take-append xs ys)

length-append_le : (xs ys : List ℕ) → length xs ≤ length (xs ++ ys)
length-append_le xs ys = omega (arith, length-append xs ys)

-- What `MarshalRawMessage` of canboat/inputoutput.go writes for a message behind its time and a comma, is
-- parsed as that message with no time, where the message has data, a priority of at most 7 and a length
-- that an int holds.
pub parse_line-marshal_raw_message :
    (stamp : ℕ → Bytes) (spare : List ℕ) (msg : RawMessage)
    → IsAllowed msg.header (length msg.bytes) msg.bytes
    → msg.header.source < 256
    → msg.header.destination < 256
    → (text : Bytes) × (marshal_raw_message stamp msg ≡ stamp msg.time ++ (b',' ∷ text))
      × (parse_line spare text ≡ ok (record msg { time = 0 }))
unfolding marshal_raw_message separated
parse_line-marshal_raw_message stamp spare msg a hs hd =
    let claimed = length msg.bytes in
    let short : leb claimed (length (msg.bytes ++ spare)) ≡ true =
      ground (arith, length-append_le msg.bytes spare) in
    let source : msg.header.source % 256 ≡ msg.header.source = omega (arith, hs) in
    let destination : msg.header.destination % 256 ≡ msg.header.destination = omega (arith, hd) in
    (
      line_of msg.header claimed msg.bytes,
      rw (data_text-separated msg.bytes) refl,
      parse_line-line_of spare msg.header claimed msg.bytes a
          ∙ rw short (λ i. ok (record {
            time = 0;
            header = record msg.header { source = source i; destination = destination i };
            bytes = take-append msg.bytes spare i;
          })),
    )
