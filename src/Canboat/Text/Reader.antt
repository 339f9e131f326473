-- ===== src/Canboat/Text/Reader.antt =====
-- canboat/device.go: a file of lines read message after message.
use go_nmea_client.Common.{
  ℕ, ◌<◌, ◌≡◌, List, [], ◌∷◌, ◌++◌, Option, some, none, true, false, ok, length, All,
}
use go_nmea_client.Nmea.{RawMessage}
use go_nmea_client.Text.{Bytes, trim_space, is_space, is_digit}
use go_nmea_client.Text.Parts.{IsSpace}
use go_nmea_client.Canboat.Text.{marshal_raw_message, is_skipped, read_raw_message}
use go_nmea_client.Canboat.Text.RoundTrip.{IsPrintable, IsStamp}

-- A text that ends in a character that is no space.
record IsClosed (s : Bytes) : Type 0 where
  inner : Bytes
  last : ℕ
  splits : s ≡ inner ++ (last ∷ [])
  no_space : is_space last ≡ false

module _ (stamp : ℕ → Bytes) (parse_time : Bytes → Option ℕ) where
  -- The line of a message, with white space around it or not.
  pub record IsLine (msg : RawMessage) (text : Bytes) : Type 0 where
    pub before : Bytes
    pub after : Bytes
    pub padded : text ≡ before ++ (marshal_raw_message stamp msg ++ after)
    pub spaces_before : All IsSpace before
    pub spaces_after : All IsSpace after

  -- The lines of a file hold these messages, in this order, between empty lines and comments.
  pub data Holds : List Bytes → List RawMessage → Type 0 where
    ends : Holds [] []
    skips :
        {text : Bytes} {lines : List Bytes} {msgs : List RawMessage}
        → is_skipped (trim_space text) ≡ true
        → Holds lines msgs
        → Holds (text ∷ lines) msgs
    has :
        {text : Bytes} {lines : List Bytes} {msg : RawMessage} {msgs : List RawMessage}
        → IsLine msg text
        → IsPrintable msg
        → 0 < length msg.bytes
        → IsStamp stamp parse_time msg.time
        → Holds lines msgs
        → Holds (text ∷ lines) (msg ∷ msgs)

  -- One call after the other returns the messages, and the next call finds the end of the file.
  unfoldable pub ReadsAll : List Bytes → List RawMessage → Type 0
  ReadsAll lines [] = read_raw_message parse_time lines ≡ (none, [])
  ReadsAll lines (msg ∷ msgs) =
      (rest : List Bytes) × (read_raw_message parse_time lines ≡ (some (ok msg), rest))
      × ReadsAll rest msgs

  -- The line without the white space around it.
  record Shape (msg : RawMessage) : Type 0 where
    first : ℕ
    inner : Bytes
    last : ℕ
    splits : marshal_raw_message stamp msg ≡ first ∷ (inner ++ (last ∷ []))
    digit_first : is_digit first ≡ true
    no_space : is_space last ≡ false
