-- ===== src/N2kReader/Loop/Refused.antt =====
-- cmd/n2kreader/main.go: messages that the filters of sources or of PGNs keep out of the loop.
use go_nmea_client.Common.{ℕ, ◌+◌, ◌≡◌, ◌≢◌, List, [], some, All}
use go_nmea_client.Nmea.{RawMessage}
use go_nmea_client.N2kReader.Filters.{Admitted}
use go_nmea_client.N2kReader.Loop.{Options, State, Line, mapping_failed, Step, goes_on, ends}

-- Why a message is to be kept out: there is a list of sources without its source, or there are filters and
-- none of them admits its header.
pub data IsRefused (options : Options) (raw : RawMessage) : Type 0 where
  by_source :
      {sources : List ℕ}
      → options.source_allow_filter ≡ some sources
      → All (λ source. source ≢ raw.header.source) sources
      → IsRefused options raw
  by_filter : options.filters ≢ [] → ¬ Admitted raw.header options.filters → IsRefused options raw

-- The only line that a round may print for a message that is kept out.
abbrev pub IsFailedMapping : Line → Type 0
IsFailedMapping line = line ≡ mapping_failed

-- A round that prints nothing of its message and counts it as no message that is decoded or throttled.
-- Only a panic of the address mapper ends it.
pub data IsSilent (s : State) : Step → Type 0 where
  silent :
      {s' : State} {lines : List Line}
      → All IsFailedMapping lines
      → s'.throttled ≡ s.throttled
      → s'.error_count_decode ≡ s.error_count_decode
      → s'.msg_count ≡ s.msg_count + 1
      → IsSilent s (goes_on s' lines)
  panicked : IsSilent s (ends [])
