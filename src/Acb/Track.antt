-- ===== src/Acb/Track.antt =====
-- The tracks of a sound bank: internal/cricodecs/acb/track.go. A table that is missing is none. Where
-- the code indexes a slice with a number of the file, an index out of range panics. The position in a
-- command is the rest of its bytes.
pub mod Ends
pub mod Waves
use moe_asset_updater_client.Base.{
  ℕ, zero, suc, ◌+◌, ◌-◌, ◌*◌, ◌/◌, ◌%◌, ◌^◌, Bool, true, false, not, ◌&&◌, ◌||◌, Option, none,
  some, List, [], ◌∷◌, ◌++◌, ltb, leb, ◌==◌, if◌then◌else◌, Bytes, codes, equal, length, take, drop,
}
use moe_asset_updater_client.Base.Int.{ℤ, pos, negsuc, ltb_ℤ, eqb_ℤ, pos_part}
use moe_asset_updater_client.Base.Outcome.{Outcome, ok, err, panic, ◌>>=◌, ◌>>◌, guard}
use moe_asset_updater_client.Acb.Utf.{Row, UtfError, UtfTable, new_utf_table}
use moe_asset_updater_client.Acb.Fields.{get_bytes_field, get_string_field, get_int_field}

pub record Track : Type 0 where
  pub cue_id : ℤ
  pub name : Bytes
  pub wav_id : ℤ
  pub enc_type : ℤ
  pub is_stream : Bool
  pub stream_awb_id : ℤ

pub record AcbTables : Type 0 where
  pub cues : UtfTable
  pub nams : UtfTable
  pub wavs : Option UtfTable
  pub syns : Option UtfTable
  pub tras : UtfTable
  pub tevs : UtfTable
  pub seqs : Option UtfTable

pub data TrackError : Type 0 where
  no_rows field_missing not_implemented : TrackError
  utf_failed : UtfError → TrackError

abbrev pub required : {A : Type 0} → Option A → Outcome TrackError A
required none = err field_missing
required (some a) = ok a

abbrev pub or_empty : Option Bytes → Bytes
or_empty none = []
or_empty (some b) = b

abbrev pub or_else : Option Bytes → Option Bytes → Option Bytes
or_else none b = b
or_else (some a) b = some a

abbrev pub parsed : Outcome UtfError UtfTable → Outcome TrackError UtfTable
parsed (ok t) = ok t
parsed (err e) = err (utf_failed e)
parsed panic = panic

-- A table from its bytes, none where there are none.
abbrev pub table_of : Bytes → Outcome TrackError (Option UtfTable)
table_of [] = ok none
table_of (b ∷ bs) =
    parsed (new_utf_table (record { content = b ∷ bs; position = 0 })) >>= λ t. ok (some t)

abbrev pub must_table : Bytes → Outcome TrackError UtfTable
must_table b = parsed (new_utf_table (record { content = b; position = 0 }))

-- An error of the sequence table is ignored.
abbrev pub ignored : Outcome TrackError (Option UtfTable) → Outcome TrackError (Option UtfTable)
ignored (ok t) = ok t
ignored (err e) = ok none
ignored panic = panic

unfoldable pub parse_acb_tables : Row → Outcome TrackError AcbTables
unfolding get_bytes_field new_utf_table
parse_acb_tables row = required (get_bytes_field row (codes "CueTable")) >>= λ cue_bytes.
    required (get_bytes_field row (codes "CueNameTable")) >>= λ name_bytes.
    required (get_bytes_field row (codes "TrackTable")) >>= λ track_bytes.
    required (
      or_else (get_bytes_field row (codes "TrackEventTable"))
        (get_bytes_field row (codes "CommandTable")))
    >>= λ event_bytes. must_table cue_bytes >>= λ cues. must_table name_bytes >>= λ nams.
        table_of (or_empty (get_bytes_field row (codes "WaveformTable"))) >>= λ wavs.
        table_of (or_empty (get_bytes_field row (codes "SynthTable"))) >>= λ syns.
        must_table track_bytes >>= λ tras. must_table event_bytes >>= λ tevs.
        ignored (table_of (or_empty (get_bytes_field row (codes "SequenceTable")))) >>= λ seqs.
        ok (record {
          cues = cues;
          nams = nams;
          wavs = wavs;
          syns = syns;
          tras = tras;
          tevs = tevs;
          seqs = seqs;
        })

abbrev pub NameMap : Type 0
NameMap = List (ℤ × Bytes)

-- The loop, with the entries of the rows before: a later row replaces an earlier one.
unfoldable pub build_name_map : NameMap → List Row → NameMap
unfolding get_int_field get_string_field
build_name_map names [] = names
build_name_map names (row ∷ rows) =
    build_name_map
      ((get_int_field row (codes "CueIndex"), get_string_field row (codes "CueName")) ∷ names) rows

-- `nameMap[index]`.
abbrev pub name_at : ℤ → NameMap → Bytes
name_at i [] = []
name_at i ((j, name) ∷ names) = let rest = name_at i names in if eqb_ℤ i j then name else rest

-- Decimal digits; twenty are enough for an `int`.
unfoldable pub digits : ℕ → ℕ → Bytes → Bytes
digits zero n taken = taken
digits (suc left) n taken =
    let rest = digits left (n / 10) ((b'0' + n % 10) ∷ taken) in
    if ltb n 10 then (b'0' + n) ∷ taken else rest

-- `%d`.
abbrev pub decimal : ℤ → Bytes
decimal (pos n) = digits 20 n []
decimal (negsuc n) = b'-' ∷ digits 20 (n + 1) []

abbrev pub has_track : Bytes → List Track → Bool
has_track name [] = false
has_track name (t ∷ ts) = equal t.name name || has_track name ts

unfoldable pub generate_unique_name : Bytes → ℤ → ℤ → List Track → List Track → Bytes
unfolding equal digits
generate_unique_name name ref_index wav_id existing current =
    let known = if equal name [] then codes "UNKNOWN-" ++ decimal ref_index else name in
    if has_track known existing || has_track known current
    then known ++ b'-' ∷ decimal wav_id
    else known

abbrev pub row_at : ℕ → List Row → Option Row
row_at i [] = none
row_at zero (row ∷ rows) = some row
row_at (suc i) (row ∷ rows) = row_at i rows

abbrev pub rows_of : Option UtfTable → List Row
rows_of none = []
rows_of (some t) = t.rows

-- `binary.BigEndian.Uint16`, on two bytes at least.
abbrev pub uint16 : Bytes → Option ℕ
uint16 (a ∷ b ∷ rest) = some (a * 256 + b)
uint16 (a ∷ []) = none
uint16 [] = none

-- The two numbers in the first four bytes, if they are there.
abbrev pub pair_of : Bytes → Option (ℕ × ℕ)
pair_of (a ∷ b ∷ c ∷ d ∷ rest) = some (a * 256 + b, c * 256 + d)
pair_of (a ∷ b ∷ c ∷ []) = none
pair_of (a ∷ b ∷ []) = none
pair_of (a ∷ []) = none
pair_of [] = none

unfoldable pub track_of_wave : Row → Bytes → ℤ → List Track → List Track → Track
unfolding get_int_field generate_unique_name
track_of_wave wave name ref_index existing current =
    let is_stream = not (eqb_ℤ (get_int_field wave (codes "Streaming")) (pos 0)) in
    let wav_id =
      if is_stream
      then get_int_field wave (codes "StreamAwbId")
      else get_int_field wave (codes "MemoryAwbId") in
    record {
      cue_id = ref_index;
      name = generate_unique_name name ref_index wav_id existing current;
      wav_id = wav_id;
      enc_type = get_int_field wave (codes "EncodeType");
      is_stream = is_stream;
      stream_awb_id = if is_stream then get_int_field wave (codes "StreamAwbPortNo") else negsuc 0;
    }

-- What stands at an index of a table and at one of its references.
abbrev pub wave_of_reference : List Row → Option (ℕ × ℕ) → Option Row
wave_of_reference waves none = none
wave_of_reference waves (some (kind, index)) = if kind == 1 then row_at index waves else none

abbrev pub wave_of_synth : List Row → Option Row → Option Row
wave_of_synth waves none = none
wave_of_synth waves (some synth) =
    wave_of_reference waves (pair_of (or_empty (get_bytes_field synth (codes "ReferenceItems"))))

abbrev pub wave_of_command : List Row → List Row → Option (ℕ × ℕ) → Option Row
wave_of_command synths waves none = none
wave_of_command synths waves (some (kind, index)) =
    if kind == 2 then wave_of_synth waves (row_at index synths) else none

-- The two parts of a track that stay the same while the commands are read.
pub record Banks : Type 0 where
  pub synths : List Row
  pub waves : List Row
  pub name : Bytes
  pub ref_index : ℤ

abbrev pub track_of : Banks → Option Row → List Track → List Track → Option Track
track_of b none existing current = none
track_of b (some wave) existing current =
    some (track_of_wave wave b.name b.ref_index existing current)

unfoldable pub extract_track_from_command : Bytes → Banks → List Track → List Track → Option Track
unfolding get_bytes_field track_of_wave
extract_track_from_command params b existing current =
    track_of b (wave_of_command b.synths b.waves (pair_of params)) existing current

-- A round: it ends the loop, or gives a track or none and the bytes after the command.
pub data Round : Type 0 where
  stop : Round
  next : Option Track → Bytes → Round

unfoldable pub process_command : Bytes → Banks → List Track → List Track → Round
unfolding extract_track_from_command
process_command (c ∷ d ∷ len ∷ rest) b existing current =
    let params = take len rest in
    if ltb (length rest) len || (c * 256 + d == 0)
    then stop
    else next
        (if c * 256 + d == 0x07D0
          then extract_track_from_command params b existing current
          else none)
        (drop len rest)
process_command (c ∷ d ∷ []) b existing current = stop
process_command (c ∷ []) b existing current = stop
process_command [] b existing current = stop

abbrev pub with_track : List Track → Option Track → List Track
with_track ts none = ts
with_track ts (some t) = ts ++ t ∷ []

-- The loop over the commands, with the rounds left; none where they do not reach.
abbrev pub after_round :
    (List Track → Bytes → Option (List Track)) → List Track → Round → Option (List Track)
after_round again current stop = some current
after_round again current (next t rest) = again (with_track current t) rest

unfoldable pub commands_loop : ℕ → Bytes → Banks → List Track → List Track → Option (List Track)
unfolding process_command
commands_loop zero [] b existing current = some current
commands_loop zero (c ∷ rest) b existing current = none
commands_loop (suc left) command b existing current =
    after_round (λ ts rest. commands_loop left rest b existing ts) current
      (process_command command b existing current)

-- The tracks of an event, with a round for each byte of the command.
unfoldable pub extract_tracks_from_event : Row → Banks → List Track → Option (List Track)
unfolding commands_loop get_bytes_field
extract_tracks_from_event event b existing =
    let command = or_empty (get_bytes_field event (codes "Command")) in
    commands_loop (length command) command b existing []
