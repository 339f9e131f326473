-- ===== src/N2kReader/Loop/Printed.antt =====
-- cmd/n2kreader/main.go: what the loop prints of the messages, and when it gives up.
use go_nmea_client.Common.{
  ℕ, zero, suc, ◌+◌, ◌≡◌, refl, ap, ◌∙◌, List, [], ◌∷◌, ◌++◌, Option, none, some, Bool, true, false,
  arith, ltb, Bool-cases, inl, inr, if◌then◌else◌, map, length, replicate,
}
use go_nmea_client.Nmea.{RawMessage}
use go_nmea_client.AddressMapper.Table.{Node}
use go_nmea_client.N2kReader.Loop.{
  Library, Options, State, Received, end_of_file, failed, message, Line, read_failed, raw_line,
  finishing, goes_on, raw_text, find_node, name_of_node, node_lines, is_accepted, print_accepted,
  filtered, on_message, on_failure, step, run,
}

-- The messages of the device alone.
abbrev pub received : RawMessage × ℕ × ℕ → Received
received (raw, now, later) = message raw now later

-- The raw lines of the accepted messages, in their order.
unfoldable pub raw_lines :
    Library → Options → List (ℕ × Node) → List (RawMessage × ℕ × ℕ) → List Line
raw_lines lib options known [] = []
raw_lines lib options known ((raw, now, later) ∷ msgs) =
    let rest = raw_lines lib options known msgs in
    if is_accepted options raw
    then raw_line
        (raw_text lib options.output_format raw (name_of_node (find_node raw.header.source known)))
      ∷ rest
    else rest

-- A state after a message in this mode.
abbrev counted_on : State → State
counted_on s = record s { msg_count = s.msg_count + 1; error_count_read = 0 }

node_lines-unchanged : (o : Option Node) → node_lines false o ≡ []
unfolding node_lines
node_lines-unchanged none = refl
node_lines-unchanged (some node) = refl

step-raw :
    (lib : Library) (options : Options) (s : State) (raw : RawMessage) (now later : ℕ)
    → options.only_raw ≡ true
    → options.has_mapper ≡ false
    → step lib options s (message raw now later)
      ≡ goes_on (counted_on s) (
          if is_accepted options raw
          then raw_line (
              raw_text lib options.output_format raw
                (name_of_node (find_node raw.header.source s.nodes_by_source)))
            ∷ []
          else [])
unfolding step on_message filtered print_accepted
step-raw lib options s raw now later only no_mapper = elim (Bool-cases (is_accepted options raw)) [
  | inl y ↦ simp (only, no_mapper, y, node_lines-unchanged) refl
  | inr n ↦ simp (no_mapper, n) refl
]

run-cons :
    (lib : Library) (options : Options) (s s' : State) (r : Received) (rest : List Received)
    (lines : List Line)
    → step lib options s r ≡ goes_on s' lines
    → run lib options s (r ∷ rest)
      ≡ (lines ++ (run lib options s' rest).0, (run lib options s' rest).1)
unfolding run
run-cons lib options s s' r rest lines e = rw (run, e) refl

run-end_of_file :
    (lib : Library) (options : Options) (s : State) (rest : List Received)
    → run lib options s (end_of_file ∷ rest)
      ≡ (finishing (s.msg_count + 1) s.error_count_decode ∷ [], none)
unfolding run step
run-end_of_file lib options s rest = refl

-- Without address mapper and decoder the program prints, for the messages of a file up to its end, the
-- text of each message that the filters let through, in their order and nothing else, and then a count
-- that is one more than the number of messages.
pub run-raw_lines :
    (lib : Library) (options : Options) (msgs : List (RawMessage × ℕ × ℕ)) (s : State)
    (rest : List Received)
    → options.only_raw ≡ true
    → options.has_mapper ≡ false
    → run lib options s (map received msgs ++ (end_of_file ∷ rest)) ≡ (
      raw_lines lib options s.nodes_by_source msgs
          ++ (finishing (s.msg_count + length msgs + 1) s.error_count_decode ∷ []),
      none,
    )
unfolding raw_lines
run-raw_lines lib options [] s rest only no_mapper =
    run-end_of_file lib options s rest
    ∙ (λ i. (finishing (no_more i + 1) s.error_count_decode ∷ [], none))
  where
    no_more : s.msg_count ≡ s.msg_count + 0
    no_more = omega arith
run-raw_lines lib options ((raw, now, later) ∷ msgs) s rest only no_mapper =
    run-cons lib options s (counted_on s) (message raw now later)
      (map received msgs ++ (end_of_file ∷ rest)) _
      (step-raw lib options s raw now later only no_mapper)
    ∙ ap
        (λ (r : List Line × Option State). (
          (if is_accepted options raw
                then raw_line (
                    raw_text lib options.output_format raw
                      (name_of_node (find_node raw.header.source s.nodes_by_source)))
                  ∷ []
                else [])
              ++ r.0,
          r.1,
        ))
        (run-raw_lines lib options msgs (counted_on s) rest only no_mapper)
    ∙ joined (is_accepted options raw)
  where
    one_more : s.msg_count + 1 + length msgs ≡ s.msg_count + suc (length msgs)
    one_more = omega arith

    joined :
        (b : Bool)
        → ◌≡◌ {A = List Line × Option State}
            (
              (if b
                    then raw_line (
                        raw_text lib options.output_format raw
                          (name_of_node (find_node raw.header.source s.nodes_by_source)))
                      ∷ []
                    else [])
                  ++ (raw_lines lib options s.nodes_by_source msgs
                      ++ (finishing (s.msg_count + 1 + length msgs + 1) s.error_count_decode ∷ [])),
              none,
            )
            (
              (if b
                    then raw_line (
                        raw_text lib options.output_format raw
                          (name_of_node (find_node raw.header.source s.nodes_by_source)))
                      ∷ raw_lines lib options s.nodes_by_source msgs
                    else raw_lines lib options s.nodes_by_source msgs)
                  ++ (finishing (s.msg_count + suc (length msgs) + 1) s.error_count_decode ∷ []),
              none,
            )
    joined true = rw one_more refl
    joined false = rw one_more refl

-- Reads that fail end the program once 21 have failed with no message between them, whatever the device
-- would give then: `n` more and one end it where 20 - n have failed before.
pub run-replicate-failed :
    (lib : Library) (options : Options) (n : ℕ) (s : State) (rest : List Received)
    → s.error_count_read + n ≡ 20
    → run lib options s (replicate (suc n) failed ++ rest) ≡ (replicate (suc n) read_failed, none)
unfolding run step on_failure
run-replicate-failed lib options zero s rest h =
    let over : ltb 20 (s.error_count_read + 1) ≡ true = ground (arith, h) in rw (run, over) refl
run-replicate-failed lib options (suc n) s rest h =
    let s' = record s { msg_count = s.msg_count + 1; error_count_read = s.error_count_read + 1 } in
    let under : ltb 20 (s.error_count_read + 1) ≡ false = ground (arith, h) in
    let later = run-replicate-failed lib options n s' rest (omega (arith, h)) in
    rw (run, under) (ap (λ (r : List Line × Option State). (read_failed ∷ r.0, r.1)) later)
