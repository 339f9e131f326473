-- ===== src/N2kReader/Stdin.antt =====
-- cmd/n2kreader/main.go: what a line of the standard input asks for.
use go_nmea_client.Common.{ℕ, List, [], ◌∷◌, Bool, Result, ok, err, panic, ◌&&◌, if◌then◌else◌}
use mathlib.Core.List.{reverse}
use go_nmea_client.Nmea.{RawMessage}
use go_nmea_client.Text.{Bytes, codes, trim_space}
use go_nmea_client.N2kReader.{Error, parse_line}
use go_nmea_client.N2kReader.Csv.{starts_with}

-- `!nodes` prints the nodes, with details or not; `!addr-claim` asks for address claims.
pub data Action : Type 0 where
  skip broadcast_claim crash : Action
  print_nodes : Bool → Action
  print_error : Error → Action
  write : RawMessage → Action

-- `strings.HasSuffix`
unfoldable pub ends_with : Bytes → Bytes → Bool
ends_with suffix s = starts_with (reverse suffix) (reverse s)

unfoldable pub write_or_error : Result Error RawMessage → Action
write_or_error (ok msg) = write msg
write_or_error (err e) = print_error e
write_or_error panic = crash

unfoldable pub command : Bool → List ℕ → Bytes → Action
command has_mapper spare line =
    if starts_with (codes "!nodes") line && has_mapper
    then print_nodes (ends_with (codes "-details") line)
    else if starts_with (codes "!addr-claim") line && has_mapper
    then broadcast_claim
    else write_or_error (parse_line spare line)

-- A round of `handleSTDIO`.
unfoldable pub handle_stdio : Bool → List ℕ → Bytes → Action
handle_stdio has_mapper spare text = elim (trim_space text) [
  | [] ↦ skip
  | c ∷ s ↦ command has_mapper spare (c ∷ s)
]
