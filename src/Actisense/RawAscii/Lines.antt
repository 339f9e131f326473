-- ===== src/Actisense/RawAscii/Lines.antt =====
-- actisense/rawasciidevice.go: the lengths of the frames and of the lines.
use go_nmea_client.Common.{
  ℕ, zero, suc, ◌+◌, ◌-◌, ◌*◌, ◌/◌, ◌%◌, ◌≤◌, ◌<◌, ◌≡◌, ◌≢◌, refl, sym, ap, ◌∙◌, List, [], ◌∷◌,
  ◌++◌, Option, none, some, Bool, true, false, Result, ok, err, panic, ◌>>◌, check, >>=-eq-ok, ltb,
  ◌==◌, ◌||◌, not, if◌then◌else◌, arith, u8, length, length-append, length-replicate, take, drop,
  set, get_or, replicate, overwrite, overwrite_from,
}
use mathlib.Core.Path.{subst}
use go_nmea_client.Canbus.{uint32}
use go_nmea_client.Nmea.{RawFrame, RawMessage}
use go_nmea_client.Actisense.RawAscii.{
  Error, digit, hex_decode, decode_hex_to_int, Spaces, find_spaces, from_start, data_digits,
  frame_of, parse_received, parse_raw_ascii, hex_digit, format_hex, line_template, write_bytes,
  end_line, write_raw_message, to_raw_ascii_bytes,
}

ok_eq {ℓ} : {A : Type ℓ} {a b : A} → ◌≡◌ {A = Result Error A} (ok a) (ok b) → a ≡ b
ok_eq e = cc

err_ok : {x : Error} {a : List ℕ} → ◌≢◌ {A = Result Error (List ℕ)} (err x) (ok a)
err_ok e = cc

some_eq : {a b : RawFrame} → ◌≡◌ {A = Option RawFrame} (some a) (some b) → a ≡ b
some_eq e = cc

either_received :
    (few other : Bool) (r : Result Error (Option RawFrame)) (f : RawFrame)
    → (if few then ok none else if other then ok none else r) ≡ ok (some f)
    → (r ≡ ok (some f) → f.length ≡ 8)
    → f.length ≡ 8
either_received true other r f e h = cc
either_received false true r f e h = cc
either_received false false r f e h = h e

hex_decode-length : (src bytes : List ℕ) → hex_decode src ≡ ok bytes → length bytes * 2 ≡ length src
unfolding hex_decode
hex_decode-length [] bytes e = subst (λ (b : List ℕ). length b * 2 ≡ 0) (ok_eq e) (omega arith)
hex_decode-length (p ∷ []) bytes e =
    let (high, found, rest) = >>=-eq-ok (digit p) _ e in absurd (err_ok rest)
hex_decode-length (p ∷ q ∷ src) bytes e =
    let (high, first, rest) = >>=-eq-ok (digit p) _ e in
    let (low, second, rest') = >>=-eq-ok (digit q) _ rest in
    let (bs, decoded, last) = >>=-eq-ok (hex_decode src) _ rest' in
    subst (λ (b : List ℕ). length b * 2 ≡ suc (suc (length src))) (ok_eq last)
      (omega (arith, hex_decode-length src bs decoded))

checked :
    (passed : Bool) (r : Result Error (List ℕ)) (found : List ℕ)
    → (check passed >> r) ≡ ok found
    → (passed ≡ true) × (r ≡ ok found)
checked true r found e = (refl, e)
checked false r found e = cc

either_digits :
    (space ended : Bool) (raw digits : List ℕ) (b : ℕ) (found : List ℕ)
    → length digits ≤ 16
    → (if space
        then data_digits raw (if space then digits else digits ++ (b ∷ []))
        else if ended
        then ok digits
        else check (ltb (length digits) 16)
          >> data_digits raw (if space then digits else digits ++ (b ∷ [])))
      ≡ ok found
    → (data_digits raw digits ≡ ok found → length found ≤ 16)
    → (length digits < 16 → data_digits raw (digits ++ (b ∷ [])) ≡ ok found → length found ≤ 16)
    → length found ≤ 16
either_digits true ended raw digits b found fits e same more = same e
either_digits false true raw digits b found fits e same more =
    subst (λ (d : List ℕ). length d ≤ 16) (ok_eq e) fits
either_digits false false raw digits b found fits e same more =
    let (room, rest) = checked (ltb (length digits) 16) _ found e in
    more (ground (arith, room)) rest

data_digits-length :
    (raw digits found : List ℕ)
    → length digits ≤ 16
    → data_digits raw digits ≡ ok found
    → length found ≤ 16
unfolding data_digits
data_digits-length [] digits found fits e = subst (λ (d : List ℕ). length d ≤ 16) (ok_eq e) fits
data_digits-length (b ∷ raw) digits found fits e =
    either_digits (b == b' ') ((b == 13) || (b == 10)) raw digits b found fits e
      (data_digits-length raw digits found fits)
      (λ less.
        data_digits-length raw (digits ++ (b ∷ [])) found
          (omega (arith, length-append digits (b ∷ []), less)))

parse_received-length :
    (raw : List ℕ) (now : ℕ) (s : Spaces) (f : RawFrame)
    → parse_received raw now s ≡ ok (some f)
    → f.length ≡ 8
unfolding parse_received frame_of
parse_received-length raw now s f e =
    let (can_id, identified, rest) = >>=-eq-ok (decode_hex_to_int _ 4) _ e in
    let (digits, taken, rest') = >>=-eq-ok (data_digits (drop s.space_index raw) []) _ rest in
    let (bytes, decoded, last) =
      >>=-eq-ok (hex_decode (digits ++ replicate (16 - length digits) 0)) _ rest' in
    let fits = data_digits-length (drop s.space_index raw) [] digits (omega arith) taken in
    let size : length bytes ≡ 8 = omega (
      arith,
      fits,
      hex_decode-length _ bytes decoded,
      length-append digits (replicate (16 - length digits) 0),
      length-replicate {A = ℕ} (16 - length digits) 0,
    ) in
    ap (λ (x : RawFrame). x.length) (sym (some_eq (ok_eq last))) ∙ ap u8 size

-- Every frame that a line of the RAW ASCII format gives has eight bytes, so a line with less data
-- never gives a frame.
pub parse_raw_ascii-length :
    (raw : List ℕ) (now : ℕ) (f : RawFrame) → parse_raw_ascii raw now ≡ ok (some f) → f.length ≡ 8
unfolding parse_raw_ascii
parse_raw_ascii-length raw now f e =
    either_received (not ((find_spaces raw 0 from_start).spaces_seen == 3)) _ _ f e
      (parse_received-length raw now (find_spaces raw 0 from_start) f)

length-set : (f : List ℕ) (i v : ℕ) → length (set f i v) ≡ length f
length-set [] i v = refl
length-set (x ∷ f) zero v = refl
length-set (x ∷ f) (suc i) v = ap suc (length-set f i v)

length-overwrite : (dst src : List ℕ) → length (overwrite dst src) ≡ length dst
length-overwrite [] src = refl
length-overwrite (d ∷ dst) [] = refl
length-overwrite (d ∷ dst) (s ∷ src) = ap suc (length-overwrite dst src)

length-overwrite_from : (n : ℕ) (dst src : List ℕ) → length (overwrite_from n dst src) ≡ length dst
length-overwrite_from zero dst src = length-overwrite dst src
length-overwrite_from (suc n) [] src = refl
length-overwrite_from (suc n) (d ∷ dst) src = ap suc (length-overwrite_from n dst src)

length-take : (n : ℕ) (xs : List ℕ) → n ≤ length xs → length (take n xs) ≡ n
length-take zero xs h = refl
length-take (suc n) [] h = absurd (omega (arith, h))
length-take (suc n) (x ∷ xs) h = ap suc (length-take n xs (omega (arith, h)))

write_bytes-length :
    (rounds i : ℕ) (bytes : List ℕ) (idx : ℕ) (f : List ℕ)
    → i + rounds ≤ 8
    → (f' : List ℕ) × (write_bytes rounds i bytes idx f ≡ ok f') × (length f' ≡ length f)
unfolding write_bytes
write_bytes-length zero i bytes idx f fits = (f, refl, refl)
write_bytes-length (suc rounds) i bytes idx f fits =
    let v = get_or bytes i 0 in
    let f1 = set (set f idx (hex_digit (v / 16))) (idx + 1) (hex_digit (v % 16)) in
    let (f', written, size) =
      write_bytes-length rounds (suc i) bytes (idx + 3) f1 (omega (arith, fits)) in
    (
      f',
      ground (arith, written),
      size
          ∙ length-set (set f idx (hex_digit (v / 16))) (idx + 1) (hex_digit (v % 16))
          ∙ length-set f idx (hex_digit (v / 16)),
    )

end_line-length : (len idx : ℕ) (f : List ℕ) → length (end_line len idx f) ≡ length f
unfolding end_line
end_line-length len idx f =
    ground (arith, length-set (set f (idx - 1) 13) idx 10, length-set f (idx - 1) 13)

-- The line of a frame of up to eight bytes is written, and has 25 bytes and three for each byte of the
-- frame.
to_raw_ascii_bytes-length :
    (frame : RawFrame)
    → frame.length ≤ 8
    → (line : List ℕ) × (to_raw_ascii_bytes frame ≡ ok line) × (length line ≡ 25 + 3 * frame.length)
unfolding to_raw_ascii_bytes
to_raw_ascii_bytes-length frame small =
    let id = format_hex (uint32 frame.header) in
    let start = overwrite_from (23 - length id) line_template id in
    let (f, written, size) =
      write_bytes-length frame.length 0 frame.bytes 24 start (omega (arith, small)) in
    (
      take (24 + frame.length * 3 + 1) (end_line frame.length (24 + frame.length * 3) f),
      rw written refl,
      length-take _ _ (
            omega (
              arith,
              small,
              size,
              length-overwrite_from (23 - length id) line_template id,
              end_line-length frame.length (24 + frame.length * 3) f,
            ))
          ∙ omega arith,
    )

-- A message of up to eight bytes is written as a line of 25 bytes and three for each byte of the message;
-- a longer one panics.
pub write_raw_message-length :
    (msg : RawMessage)
    → (length msg.bytes ≤ 8
        → (line : List ℕ) × (write_raw_message msg ≡ ok line)
          × (length line ≡ 25 + 3 * length msg.bytes))
      × (8 < length msg.bytes → write_raw_message msg ≡ panic)
unfolding write_raw_message
write_raw_message-length msg = (
  λ small.
      let frame : RawFrame = record {
        time = msg.time;
        header = msg.header;
        length = length msg.bytes;
        bytes = overwrite (replicate 8 0) msg.bytes;
      } in
      let (line, written, size) = to_raw_ascii_bytes-length frame small in
      (line, ground (arith, small, written), size),
  λ long. ground (arith, long),
)
