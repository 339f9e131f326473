-- ===== src/Actisense/Ebl/Framing.antt =====
-- actisense/eblreader.go: one framed message through the reader.
use go_nmea_client.Common.{
  ℕ, suc, ◌+◌, ◌≤◌, ◌<◌, ◌≡◌, ◌≢◌, refl, ap, ◌∙◌, inl, inr, List, [], ◌∷◌, ◌++◌, map, arith, ◌==◌,
  ==→eq, if◌then◌else◌, Bool-cases, length, set, overwrite_from,
}
use mathlib.Core.List.{map-append, append_assoc}
use native.Mathlib.Nat.{add-zero, zero-add}
use native.Mathlib.Numerals.{add-one}
use mathlib.Core.Path.{ap₂}
use go_nmea_client.Actisense.{Event, received, processing_escape_sequence, Config}
use go_nmea_client.Actisense.Binary.{Reader, Step, more, finished, store, conclude}
use go_nmea_client.Actisense.Binary.Framing.{
  events, waiting, reading, last_or, overwrite_from-set, overwrite_from-nil, length-set,
}
use go_nmea_client.Actisense.Ebl.{
  soh, nl, esc, dispatch_bst, handle_ebl, read_ebl_byte, read_ebl_event, read_ebl_message,
}

-- Each ESC of a message is doubled.
unfoldable pub escape : List ℕ → List ℕ
escape [] = []
escape (b ∷ bytes) = let rest = escape bytes in if b == esc then esc ∷ esc ∷ rest else b ∷ rest

-- A message between its start and its end marks.
unfoldable pub framed : List ℕ → List ℕ
unfolding escape
framed raw = esc ∷ soh ∷ (escape raw ++ (esc ∷ nl ∷ []))

abbrev pub ended : List ℕ → ℕ → ℕ → Reader
ended buffer n now = record {
  state = processing_escape_sequence;
  message = buffer;
  index = n;
  current = nl;
  last_read = now;
}

split_escape : (b : ℕ) (raw : List ℕ) → escape (b ∷ raw) ≡ escape (b ∷ []) ++ escape raw
unfolding escape
split_escape b raw = ground arith

module _ (config : Config) (now : ℕ) where
  split :
      (b : ℕ) (raw : List ℕ) (later : List Event)
      → events now (escape (b ∷ raw)) ++ later
        ≡ events now (escape (b ∷ [])) ++ (events now (escape raw) ++ later)
  split b raw later = rw (split_escape b raw, map-append, append_assoc) refl

  pub read_cons :
      (r r' : Reader) (e : Event) (later : List Event)
      → read_ebl_event config r e ≡ more r'
      → read_ebl_message config r (e ∷ later) ≡ read_ebl_message config r' later
  unfolding read_ebl_message
  read_cons r r' e later h = rw (h, read_ebl_message) refl

  pub read_last :
      (r : Reader) (e : Event) → read_ebl_message config r (e ∷ []) ≡ read_ebl_event config r e
  unfolding read_ebl_message
  read_last r e = go (read_ebl_event config r e)
    where
      go : (s : Step) → (elim s [ more r' ↦ more r' | finished result ↦ finished result ]) ≡ s
      go (more r') = refl
      go (finished result) = refl

  pub plain_byte :
      (buffer : List ℕ) (n current last b : ℕ)
      → n < length buffer
      → b ≢ esc
      → read_ebl_event config (reading buffer n current last) (received b now)
        ≡ more (reading (set buffer n b) (n + 1) b now)
  unfolding read_ebl_event read_ebl_byte handle_ebl store
  plain_byte buffer n current last b h ne = ground arith

  pub escaped_esc :
      (buffer : List ℕ) (n last : ℕ)
      → n < length buffer
      → read_ebl_event config
          (record {
            state = processing_escape_sequence;
            message = buffer;
            index = n;
            current = esc;
            last_read = last;
          })
          (received esc now)
        ≡ more (reading (set buffer n esc) (n + 1) esc now)
  unfolding read_ebl_event read_ebl_byte handle_ebl store
  escaped_esc buffer n last h = ground arith

  pub first_esc :
      (buffer : List ℕ) (n current last : ℕ)
      → read_ebl_event config (reading buffer n current last) (received esc now)
        ≡ more (record {
          state = processing_escape_sequence;
          message = buffer;
          index = n;
          current = esc;
          last_read = now;
        })
  unfolding read_ebl_event read_ebl_byte handle_ebl
  first_esc buffer n current last = refl

  -- A byte of the message goes to the buffer; an ESC comes twice.
  read_data :
      (buffer : List ℕ) (n current last b : ℕ) (later : List Event)
      → n < length buffer
      → read_ebl_message config
          (reading buffer n current last)
          (events now (escape (b ∷ [])) ++ later)
        ≡ read_ebl_message config (reading (set buffer n b) (n + 1) b now) later
  unfolding escape
  read_data buffer n current last b later h = elim (Bool-cases (b == esc)) [
    | inl marked ↦ rw (==→eq b esc marked) (
        read_cons _ _ _ _ (first_esc buffer n current last)
        ∙ read_cons _ _ _ _ (escaped_esc buffer n now h))
    | inr plain ↦ rw plain (read_cons _ _ _ _ (plain_byte buffer n current last b h (ground arith)))
  ]

  same_end :
      (b : ℕ) (raw buffer : List ℕ) (n last : ℕ)
      → reading
          (overwrite_from (n + 1) (set buffer n b) raw)
          (n + 1 + length raw)
          (last_or b raw)
          (last_or now (map (λ _. now) raw))
        ≡ reading
            (overwrite_from n buffer (b ∷ raw))
            (n + suc (length raw))
            (last_or b raw)
            (last_or now (map (λ _. now) raw))
  same_end b raw buffer n last =
      ap₂ (λ t k. reading t k (last_or b raw) (last_or now (map (λ _. now) raw)))
        (ap (λ k. overwrite_from k (set buffer n b) raw) (add-one n)
          ∙ overwrite_from-set n buffer b raw)
        (omega arith)

  pub read_escaped :
      (raw : List ℕ) (buffer : List ℕ) (n current last : ℕ) (later : List Event)
      → n + length raw ≤ length buffer
      → read_ebl_message config (reading buffer n current last) (events now (escape raw) ++ later)
        ≡ read_ebl_message config
            (reading
              (overwrite_from n buffer raw)
              (n + length raw)
              (last_or current raw)
              (last_or last (map (λ _. now) raw)))
            later
  unfolding escape
  read_escaped [] buffer n current last later h = rw (overwrite_from-nil n buffer, add-zero n) refl
  read_escaped (b ∷ raw) buffer n current last later h =
      ap (λ t. read_ebl_message config (reading buffer n current last) t) (split b raw later)
      ∙ read_data buffer n current last b (events now (escape raw) ++ later) (omega arith)
      ∙ read_escaped raw (set buffer n b) (n + 1) b now later (omega (arith, length-set buffer n b))
      ∙ ap (λ t. read_ebl_message config t later) (same_end b raw buffer n last)

  pub start_esc :
      (buffer : List ℕ) (current last : ℕ)
      → read_ebl_event config (waiting buffer current last) (received esc now)
        ≡ more (waiting buffer esc now)
  unfolding read_ebl_event read_ebl_byte handle_ebl
  start_esc buffer current last = ground arith

  pub start_soh :
      (buffer : List ℕ) (last : ℕ)
      → read_ebl_event config (waiting buffer esc last) (received soh now)
        ≡ more (reading buffer 0 soh now)
  unfolding read_ebl_event read_ebl_byte handle_ebl
  start_soh buffer last = refl

  end_nl :
      (buffer : List ℕ) (n last : ℕ)
      → read_ebl_event config
          (record {
            state = processing_escape_sequence;
            message = buffer;
            index = n;
            current = esc;
            last_read = last;
          })
          (received nl now)
        ≡ conclude (ended buffer n now) (dispatch_bst buffer n now)
  unfolding read_ebl_event read_ebl_byte handle_ebl
  end_nl buffer n last = refl

  -- A framed message that fits the buffer is handed to `dispatch_bst` as it was.
  pub read_framed :
      (raw buffer : List ℕ) (current last : ℕ)
      → length raw ≤ length buffer
      → read_ebl_message config (waiting buffer current last) (events now (framed raw))
        ≡ conclude
            (ended (overwrite_from 0 buffer raw) (length raw) now)
            (dispatch_bst (overwrite_from 0 buffer raw) (length raw) now)
  unfolding framed
  read_framed raw buffer current last h =
      read_cons _ _ _ _ (start_esc buffer current last)
      ∙ read_cons _ _ _ _ (start_soh buffer now)
      ∙ ap (read_ebl_message config (reading buffer 0 soh now))
          (map-append _ (escape raw) (esc ∷ nl ∷ []))
      ∙ read_escaped raw buffer 0 soh now (events now (esc ∷ nl ∷ [])) (omega arith)
      ∙ read_cons _ _ _ _ (first_esc _ _ _ _)
      ∙ read_last _ _
      ∙ end_nl (overwrite_from 0 buffer raw) (0 + length raw) now
      ∙ ap
          (λ n.
            conclude (ended (overwrite_from 0 buffer raw) n now)
              (dispatch_bst (overwrite_from 0 buffer raw) n now))
          (zero-add (length raw))
