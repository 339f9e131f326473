-- ===== src/Actisense/Binary/Receive.antt =====
-- actisense/binaryreader.go from device bytes to messages, for a message that fits the buffer.
use go_nmea_client.Common.{
  ℕ, suc, ◌≤◌, ◌≡◌, refl, ap, ◌∙◌, ◌⊎◌, List, [], ◌∷◌, arith, ok, length, take, get_or, overwrite,
}
use go_nmea_client.Canbus.{parse_can_id}
use go_nmea_client.Nmea.{RawMessage}
use go_nmea_client.Actisense.{Config}
use go_nmea_client.Actisense.Messages.{
  from_actisense_ngt_binary_message, from_actisense_n2k_binary_message, from_raw_actisense_message,
}
use go_nmea_client.Actisense.Messages.Formats.{
  IsNgt, ngt_message, from_actisense_ngt_binary_message-ngt_message, IsN2k, n2k_message,
  from_actisense_n2k_binary_message-n2k_message, IsRaw, raw_message,
  from_raw_actisense_message-raw_message,
}
use go_nmea_client.Actisense.Binary.{finished, dispatch, conclude, read_raw_message}
use go_nmea_client.Actisense.Binary.Framing.{events, framed, waiting, read_framed}

pub take-overwrite :
    (buffer raw : List ℕ)
    → length raw ≤ length buffer
    → take (length raw) (overwrite buffer raw) ≡ raw
take-overwrite [] [] h = refl
take-overwrite [] (b ∷ raw) h = absurd (omega arith)
take-overwrite (x ∷ buffer) [] h = refl
take-overwrite (x ∷ buffer) (b ∷ raw) h = ap (λ t. b ∷ t) (take-overwrite buffer raw (omega arith))

head-overwrite :
    (buffer : List ℕ) (b : ℕ) (raw : List ℕ)
    → suc (length raw) ≤ length buffer
    → get_or (overwrite buffer (b ∷ raw)) 0 0 ≡ b
head-overwrite [] b raw h = absurd (omega arith)
head-overwrite (x ∷ buffer) b raw h = refl

module _ (config : Config) (now : ℕ) (buffer : List ℕ) (current last : ℕ) (b : ℕ) (raw : List ℕ)
    (fits : length (b ∷ raw) ≤ length buffer) where
  -- A framed message with an NGT command is parsed as an NGT message.
  read_framed_ngt :
      (b ≡ 0x93) ⊎ (b ≡ 0x94)
      → read_raw_message config (waiting buffer current last) (events now (framed (b ∷ raw)))
        ≡ finished (from_actisense_ngt_binary_message (b ∷ raw) now)
  unfolding dispatch conclude
  read_framed_ngt command =
      read_framed config now (b ∷ raw) buffer current last fits
      ∙ ground (arith, head-overwrite buffer b raw fits, take-overwrite buffer (b ∷ raw) fits)

  read_framed_n2k :
      (b ≡ 0xd0) ⊎ (b ≡ 0xd1)
      → read_raw_message config (waiting buffer current last) (events now (framed (b ∷ raw)))
        ≡ finished (from_actisense_n2k_binary_message (b ∷ raw) now)
  unfolding dispatch conclude
  read_framed_n2k command =
      read_framed config now (b ∷ raw) buffer current last fits
      ∙ ground (arith, head-overwrite buffer b raw fits, take-overwrite buffer (b ∷ raw) fits)

  read_framed_raw :
      (b ≡ 0x95) ⊎ (b ≡ 0x96)
      → read_raw_message config (waiting buffer current last) (events now (framed (b ∷ raw)))
        ≡ finished (from_raw_actisense_message (b ∷ raw) now)
  unfolding dispatch conclude
  read_framed_raw command =
      read_framed config now (b ∷ raw) buffer current last fits
      ∙ ground (arith, head-overwrite buffer b raw fits, take-overwrite buffer (b ∷ raw) fits)

module _ (config : Config) (now : ℕ) (buffer : List ℕ) (current last : ℕ) (command : ℕ) where
  -- A well-formed NGT message, escaped and framed, is read off the device as the message it carries.
  pub read_ngt :
      (m : RawMessage) (time : List ℕ)
      → (command ≡ 0x93) ⊎ (command ≡ 0x94)
      → IsNgt command m time
      → length (ngt_message command m time) ≤ length buffer
      → read_raw_message config
          (waiting buffer current last)
          (events now (framed (ngt_message command m time)))
        ≡ finished (ok (record m { time = now }))
  unfolding ngt_message
  read_ngt m time known v fits =
      read_framed_ngt config now buffer current last command _ fits known
      ∙ ap finished (from_actisense_ngt_binary_message-ngt_message command now m time v)

  -- So is a well-formed N2K message.
  pub read_n2k :
      (m : RawMessage) (ps control : ℕ) (time : List ℕ)
      → (command ≡ 0xd0) ⊎ (command ≡ 0xd1)
      → IsN2k m ps
      → length (n2k_message command m ps control time) ≤ length buffer
      → read_raw_message config
          (waiting buffer current last)
          (events now (framed (n2k_message command m ps control time)))
        ≡ finished (ok (record m { time = now }))
  unfolding n2k_message
  read_n2k m ps control time known v fits =
      read_framed_n2k config now buffer current last command _ fits known
      ∙ ap finished (from_actisense_n2k_binary_message-n2k_message command now m ps control time v)

  -- So is a well-formed raw message, its header being that of its CAN identifier.
  pub read_raw :
      (t0 t1 id : ℕ) (bytes : List ℕ)
      → (command ≡ 0x95) ⊎ (command ≡ 0x96)
      → IsRaw command t0 t1 id bytes
      → length (raw_message command t0 t1 id bytes) ≤ length buffer
      → read_raw_message config
          (waiting buffer current last)
          (events now (framed (raw_message command t0 t1 id bytes)))
        ≡ finished (ok (record { time = now; header = parse_can_id id; bytes = bytes }))
  unfolding raw_message
  read_raw t0 t1 id bytes known v fits =
      read_framed_raw config now buffer current last command _ fits known
      ∙ ap finished (from_raw_actisense_message-raw_message command now t0 t1 id bytes v)
