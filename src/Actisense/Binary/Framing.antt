-- ===== src/Actisense/Binary/Framing.antt =====
-- actisense/binaryreader.go: one framed message through the reader of BinaryFormatDevice.
use go_nmea_client.Common.{
  ℕ, zero, suc, ◌+◌, ◌≤◌, ◌<◌, ◌≡◌, ◌≢◌, refl, ap, ◌∙◌, inl, inr, List, [], ◌∷◌, ◌++◌, map, arith,
  ◌==◌, ==→eq, Bool-cases, length, set, overwrite_from,
}
use mathlib.Core.List.{map-append, append_assoc}
use native.Mathlib.Nat.{add-zero, zero-add}
use native.Mathlib.Numerals.{add-one}
use mathlib.Core.Path.{ap₂}
use go_nmea_client.Actisense.{
  Event, received, waiting_start_of_message, reading_message_data, processing_escape_sequence,
  Config,
}
use go_nmea_client.Actisense.Binary.{
  Reader, Step, more, finished, dle, stx, etx, dispatch, store, conclude, handle, read_byte,
  read_event, read_raw_message, escape,
}

-- Bytes read one after the other.
abbrev pub events : ℕ → List ℕ → List Event
events now = map (λ b. received b now)

-- A message between its start and its end marks, with each DLE of it doubled.
unfoldable pub framed : List ℕ → List ℕ
unfolding escape
framed raw = dle ∷ stx ∷ (escape raw ++ (dle ∷ etx ∷ []))

abbrev pub waiting : List ℕ → ℕ → ℕ → Reader
waiting buffer current last = record {
  state = waiting_start_of_message;
  message = buffer;
  index = 0;
  current = current;
  last_read = last;
}

abbrev pub reading : List ℕ → ℕ → ℕ → ℕ → Reader
reading buffer n current last = record {
  state = reading_message_data;
  message = buffer;
  index = n;
  current = current;
  last_read = last;
}

abbrev pub ended : List ℕ → ℕ → ℕ → Reader
ended buffer n now = record {
  state = processing_escape_sequence;
  message = buffer;
  index = n;
  current = etx;
  last_read = now;
}

abbrev pub last_or : ℕ → List ℕ → ℕ
last_or d [] = d
last_or d (b ∷ bytes) = last_or b bytes

pub overwrite_from-set :
    (n : ℕ) (buffer : List ℕ) (b : ℕ) (bytes : List ℕ)
    → overwrite_from (suc n) (set buffer n b) bytes ≡ overwrite_from n buffer (b ∷ bytes)
overwrite_from-set zero [] b bytes = refl
overwrite_from-set zero (x ∷ buffer) b bytes = refl
overwrite_from-set (suc n) [] b bytes = refl
overwrite_from-set (suc n) (x ∷ buffer) b bytes =
    ap (λ t. x ∷ t) (overwrite_from-set n buffer b bytes)

pub overwrite_from-nil : (n : ℕ) (buffer : List ℕ) → overwrite_from n buffer [] ≡ buffer
overwrite_from-nil zero [] = refl
overwrite_from-nil zero (x ∷ buffer) = refl
overwrite_from-nil (suc n) [] = refl
overwrite_from-nil (suc n) (x ∷ buffer) = ap (λ t. x ∷ t) (overwrite_from-nil n buffer)

pub length-set : (buffer : List ℕ) (n b : ℕ) → length (set buffer n b) ≡ length buffer
length-set [] n b = refl
length-set (x ∷ buffer) zero b = refl
length-set (x ∷ buffer) (suc n) b = ap suc (length-set buffer n b)

split_escape : (b : ℕ) (raw : List ℕ) → escape (b ∷ raw) ≡ escape (b ∷ []) ++ escape raw
unfolding escape
split_escape b raw = ground arith

module _ (config : Config) (now : ℕ) where
  split :
      (b : ℕ) (raw : List ℕ) (later : List Event)
      → events now (escape (b ∷ raw)) ++ later
        ≡ events now (escape (b ∷ [])) ++ (events now (escape raw) ++ later)
  split b raw later = rw (split_escape b raw, map-append, append_assoc) refl

  pub read_cons :
      (r r' : Reader) (e : Event) (later : List Event)
      → read_event config r e ≡ more r'
      → read_raw_message config r (e ∷ later) ≡ read_raw_message config r' later
  unfolding read_raw_message
  read_cons r r' e later h = rw (h, read_raw_message) refl

  pub read_last :
      (r : Reader) (e : Event) → read_raw_message config r (e ∷ []) ≡ read_event config r e
  unfolding read_raw_message
  read_last r e = go (read_event config r e)
    where
      go : (s : Step) → (elim s [ more r' ↦ more r' | finished result ↦ finished result ]) ≡ s
      go (more r') = refl
      go (finished result) = refl

  pub plain_byte :
      (buffer : List ℕ) (n current last b : ℕ)
      → n < length buffer
      → b ≢ dle
      → read_event config (reading buffer n current last) (received b now)
        ≡ more (reading (set buffer n b) (n + 1) b now)
  unfolding read_event read_byte handle store
  plain_byte buffer n current last b h ne = ground arith

  pub escaped_dle :
      (buffer : List ℕ) (n last : ℕ)
      → n < length buffer
      → read_event config
          (record {
            state = processing_escape_sequence;
            message = buffer;
            index = n;
            current = dle;
            last_read = last;
          })
          (received dle now)
        ≡ more (reading (set buffer n dle) (n + 1) dle now)
  unfolding read_event read_byte handle store
  escaped_dle buffer n last h = ground arith

  pub first_dle :
      (buffer : List ℕ) (n current last : ℕ)
      → read_event config (reading buffer n current last) (received dle now)
        ≡ more (record {
          state = processing_escape_sequence;
          message = buffer;
          index = n;
          current = dle;
          last_read = now;
        })
  unfolding read_event read_byte handle
  first_dle buffer n current last = refl

  -- A byte of the message goes to the buffer; a DLE comes twice.
  read_data :
      (buffer : List ℕ) (n current last b : ℕ) (later : List Event)
      → n < length buffer
      → read_raw_message config
          (reading buffer n current last)
          (events now (escape (b ∷ [])) ++ later)
        ≡ read_raw_message config (reading (set buffer n b) (n + 1) b now) later
  unfolding escape
  read_data buffer n current last b later h = elim (Bool-cases (b == dle)) [
    | inl marked ↦ rw (==→eq b dle marked) (
        read_cons _ _ _ _ (first_dle buffer n current last)
        ∙ read_cons _ _ _ _ (escaped_dle buffer n now h))
    | inr plain ↦ rw plain (read_cons _ _ _ _ (plain_byte buffer n current last b h (ground arith)))
  ]

  same_end :
      (b : ℕ) (raw buffer : List ℕ) (n last : ℕ)
      → reading
          (overwrite_from (n + 1) (set buffer n b) raw)
          (n + 1 + length raw)
          (last_or b raw)
          (last_or now (map (λ _. now) raw))
        ≡ reading
            (overwrite_from n buffer (b ∷ raw))
            (n + suc (length raw))
            (last_or b raw)
            (last_or now (map (λ _. now) raw))
  same_end b raw buffer n last =
      ap₂ (λ t k. reading t k (last_or b raw) (last_or now (map (λ _. now) raw)))
        (ap (λ k. overwrite_from k (set buffer n b) raw) (add-one n)
          ∙ overwrite_from-set n buffer b raw)
        (omega arith)

  pub read_escaped :
      (raw : List ℕ) (buffer : List ℕ) (n current last : ℕ) (later : List Event)
      → n + length raw ≤ length buffer
      → read_raw_message config (reading buffer n current last) (events now (escape raw) ++ later)
        ≡ read_raw_message config
            (reading
              (overwrite_from n buffer raw)
              (n + length raw)
              (last_or current raw)
              (last_or last (map (λ _. now) raw)))
            later
  unfolding escape
  read_escaped [] buffer n current last later h = rw (overwrite_from-nil n buffer, add-zero n) refl
  read_escaped (b ∷ raw) buffer n current last later h =
      ap (λ t. read_raw_message config (reading buffer n current last) t) (split b raw later)
      ∙ read_data buffer n current last b (events now (escape raw) ++ later) (omega arith)
      ∙ read_escaped raw (set buffer n b) (n + 1) b now later (omega (arith, length-set buffer n b))
      ∙ ap (λ t. read_raw_message config t later) (same_end b raw buffer n last)

  pub start_dle :
      (buffer : List ℕ) (current last : ℕ)
      → read_event config (waiting buffer current last) (received dle now)
        ≡ more (waiting buffer dle now)
  unfolding read_event read_byte handle
  start_dle buffer current last = ground arith

  pub start_stx :
      (buffer : List ℕ) (last : ℕ)
      → read_event config (waiting buffer dle last) (received stx now)
        ≡ more (reading buffer 0 stx now)
  unfolding read_event read_byte handle
  start_stx buffer last = refl

  end_etx :
      (buffer : List ℕ) (n last : ℕ)
      → read_event config
          (record {
            state = processing_escape_sequence;
            message = buffer;
            index = n;
            current = dle;
            last_read = last;
          })
          (received etx now)
        ≡ conclude (ended buffer n now) (dispatch config buffer n now)
  unfolding read_event read_byte handle
  end_etx buffer n last = refl

  -- A framed message that fits the buffer is handed to `dispatch` as it was.
  pub read_framed :
      (raw buffer : List ℕ) (current last : ℕ)
      → length raw ≤ length buffer
      → read_raw_message config (waiting buffer current last) (events now (framed raw))
        ≡ conclude
            (ended (overwrite_from 0 buffer raw) (length raw) now)
            (dispatch config (overwrite_from 0 buffer raw) (length raw) now)
  unfolding framed
  read_framed raw buffer current last h =
      read_cons _ _ _ _ (start_dle buffer current last)
      ∙ read_cons _ _ _ _ (start_stx buffer now)
      ∙ ap (read_raw_message config (reading buffer 0 stx now))
          (map-append _ (escape raw) (dle ∷ etx ∷ []))
      ∙ read_escaped raw buffer 0 stx now (events now (dle ∷ etx ∷ [])) (omega arith)
      ∙ read_cons _ _ _ _ (first_dle _ _ _ _)
      ∙ read_last _ _
      ∙ end_etx (overwrite_from 0 buffer raw) (0 + length raw) now
      ∙ ap
          (λ n.
            conclude (ended (overwrite_from 0 buffer raw) n now)
              (dispatch config (overwrite_from 0 buffer raw) n now))
          (zero-add (length raw))
