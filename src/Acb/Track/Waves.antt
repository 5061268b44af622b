-- ===== src/Acb/Track/Waves.antt =====
-- What the tracks of a sound bank are: each one describes a row of the table of waves.
use moe_asset_updater_client.Base.{
  ℕ, zero, suc, ◌+◌, ◌*◌, ◌≡◌, refl, Bool, true, false, not, ◌||◌, Option, none, some, List, [],
  ◌∷◌, ltb, ◌==◌, if◌then◌else◌, Bytes, codes, length, take, drop, All, All-append,
}
use moe_asset_updater_client.Base.Int.{ℤ, pos, negsuc, ltb_ℤ, eqb_ℤ, pos_part}
use moe_asset_updater_client.Base.Outcome.{ok, guard, OnOk, OnOk-at, OnOk->>=, OnOk-if}
use moe_asset_updater_client.Acb.Utf.{Row, UtfTable}
use moe_asset_updater_client.Acb.Fields.{get_bytes_field, get_int_field}
use moe_asset_updater_client.Acb.Track.{
  Track, AcbTables, not_implemented, build_name_map, or_empty, NameMap, row_at, rows_of, pair_of,
  uint16, Banks, track_of_wave, track_of, wave_of_reference, wave_of_synth, wave_of_command,
  extract_track_from_command, Round, stop, next, process_command, with_track, after_round,
  commands_loop, extract_tracks_from_event,
}
use moe_asset_updater_client.Acb.Tracklist.{
  at_index, row_at_int, banks_of, extract_track_from_track_row, sequence_loop,
  extract_sequence_tracks, direct_loop, extract_direct_tracks, cue_tracks, is_known_type,
  extract_tracks_from_tables, tracks_of_tables,
}

-- The track has the data of a row of these waves.
pub record Describes (waves : List Row) (t : Track) : Type 0 where
  pub index : ℕ
  pub wave : Row
  pub at : row_at index waves ≡ some wave
  pub encoding : t.enc_type ≡ get_int_field wave (codes "EncodeType")
  pub streaming : t.is_stream ≡ not (eqb_ℤ (get_int_field wave (codes "Streaming")) (pos 0))
  pub id : t.wav_id ≡ (
      if t.is_stream
      then get_int_field wave (codes "StreamAwbId")
      else get_int_field wave (codes "MemoryAwbId"))
  pub port :
      t.stream_awb_id
      ≡ (if t.is_stream then get_int_field wave (codes "StreamAwbPortNo") else negsuc 0)

-- A row that is found stands at some index.
abbrev Stands : List Row → Row → Type 0
Stands waves wave = (i : ℕ) × (row_at i waves ≡ some wave)

abbrev OnSome : {A : Type 0} → (A → Type 0) → Option A → Type 0
OnSome P none = Unit
OnSome P (some a) = P a

OnSome-if :
    {A : Type 0} (P : A → Type 0) (b : Bool) (o : Option A)
    → OnSome P o
    → OnSome P (if b then o else none)
OnSome-if P true o h = h
OnSome-if P false o h = tt

module _ (waves : List Row) where
  row_at-Stands : (i : ℕ) (o : Option Row) → row_at i waves ≡ o → OnSome (Stands waves) o
  row_at-Stands i none e = tt
  row_at-Stands i (some wave) e = (i, e)

  reference-Stands : (pair : Option (ℕ × ℕ)) → OnSome (Stands waves) (wave_of_reference waves pair)
  reference-Stands none = tt
  reference-Stands (some (kind, index)) =
      OnSome-if (Stands waves) (kind == 1) (row_at index waves)
        (row_at-Stands index (row_at index waves) refl)

  synth-Stands : (o : Option Row) → OnSome (Stands waves) (wave_of_synth waves o)
  synth-Stands none = tt
  synth-Stands (some synth) =
      reference-Stands (pair_of (or_empty (get_bytes_field synth (codes "ReferenceItems"))))

  command-Stands :
      (synths : List Row) (pair : Option (ℕ × ℕ))
      → OnSome (Stands waves) (wave_of_command synths waves pair)
  command-Stands synths none = tt
  command-Stands synths (some (kind, index)) =
      OnSome-if (Stands waves) (kind == 2) (wave_of_synth waves (row_at index synths))
        (synth-Stands (row_at index synths))

module _ (b : Banks) (existing : List Track) where
  track_of_wave-Describes :
      (wave : Row) (current : List Track)
      → Stands b.waves wave
      → Describes b.waves (track_of_wave wave b.name b.ref_index existing current)
  unfolding track_of_wave
  track_of_wave-Describes wave current (i, e) = record {
    index = i;
    wave = wave;
    at = e;
    encoding = refl;
    streaming = refl;
    id = refl;
    port = refl;
  }

  track_of-Describes :
      (o : Option Row) (current : List Track)
      → OnSome (Stands b.waves) o
      → OnSome (Describes b.waves) (track_of b o existing current)
  track_of-Describes none current h = tt
  track_of-Describes (some wave) current h = track_of_wave-Describes wave current h

  extract_track_from_command-Describes :
      (params : Bytes) (current : List Track)
      → OnSome (Describes b.waves) (extract_track_from_command params b existing current)
  unfolding extract_track_from_command
  extract_track_from_command-Describes params current =
      track_of-Describes (wave_of_command b.synths b.waves (pair_of params)) current
        (command-Stands b.waves b.synths (pair_of params))

  -- The track of a round, if it gives one.
  abbrev Given : Round → Type 0
  Given stop = Unit
  Given (next t rest) = OnSome (Describes b.waves) t

  Given-if :
      (c : Bool) (t : Option Track) (rest : Bytes)
      → OnSome (Describes b.waves) t
      → Given (if c then stop else next t rest)
  Given-if true t rest h = tt
  Given-if false t rest h = h

  process_command-Given :
      (command : Bytes) (current : List Track) → Given (process_command command b existing current)
  unfolding process_command
  process_command-Given [] current = tt
  process_command-Given (c ∷ []) current = tt
  process_command-Given (c ∷ d ∷ []) current = tt
  process_command-Given (c ∷ d ∷ len ∷ rest) current =
      Given-if (ltb (length rest) len || (c * 256 + d == 0)) _ (drop len rest) (
        OnSome-if (Describes b.waves) (c * 256 + d == 0x07D0)
          (extract_track_from_command (take len rest) b existing current)
          (extract_track_from_command-Describes (take len rest) current))

  with_track-All :
      (ts : List Track) (t : Option Track)
      → All (Describes b.waves) ts
      → OnSome (Describes b.waves) t
      → All (Describes b.waves) (with_track ts t)
  with_track-All ts none all h = all
  with_track-All ts (some t) all h = All-append (Describes b.waves) ts (t ∷ []) all (h, tt)

  after_round-All :
      (again : List Track → Bytes → Option (List Track)) (current : List Track) (round : Round)
      → ((ts : List Track) (rest : Bytes)
          → All (Describes b.waves) ts
          → OnSome (All (Describes b.waves)) (again ts rest))
      → All (Describes b.waves) current
      → Given round
      → OnSome (All (Describes b.waves)) (after_round again current round)
  after_round-All again current stop k all h = all
  after_round-All again current (next t rest) k all h =
      k (with_track current t) rest (with_track-All current t all h)

  commands_loop-All :
      (left : ℕ) (command : Bytes) (current : List Track)
      → All (Describes b.waves) current
      → OnSome (All (Describes b.waves)) (commands_loop left command b existing current)
  unfolding commands_loop
  commands_loop-All zero [] current all = all
  commands_loop-All zero (c ∷ rest) current all = tt
  commands_loop-All (suc left) command current all =
      after_round-All (λ ts rest. commands_loop left rest b existing ts) current
        (process_command command b existing current) (λ ts rest. commands_loop-All left rest ts) all
        (process_command-Given command current)

  extract_tracks_from_event-All :
      (event : Row) → OnSome (All (Describes b.waves)) (extract_tracks_from_event event b existing)
  unfolding extract_tracks_from_event
  extract_tracks_from_event-All event =
      commands_loop-All (length (or_empty (get_bytes_field event (codes "Command"))))
        (or_empty (get_bytes_field event (codes "Command"))) [] tt

  at_index-All :
      (o : Option (List Track))
      → OnSome (All (Describes b.waves)) o
      → OnOk (All (Describes b.waves)) (at_index o)
  at_index-All none h = tt
  at_index-All (some ts) h = h

-- The tracks so far all describe waves, whatever is done next.
abbrev AllWaves : AcbTables → List Track → Type 0
AllWaves tables = All (Describes (rows_of tables.wavs))

module _ (tables : AcbTables) (names : NameMap) (ref_index : ℤ) where
  track_row-AllWaves :
      (i : ℕ) (tracks : List Track)
      → AllWaves tables tracks
      → OnOk (AllWaves tables) (extract_track_from_track_row tables names ref_index i tracks)
  unfolding extract_track_from_track_row
  track_row-AllWaves i tracks all =
      OnOk->>= (AllWaves tables) (at_index (row_at i tables.tras.rows)) _ λ track _.
        OnOk-if (AllWaves tables)
          (eqb_ℤ (get_int_field track (codes "EventIndex")) (pos 0xFFFF)
            || not
                (ltb_ℤ (get_int_field track (codes "EventIndex")) (pos (length tables.tevs.rows))))
          (ok tracks) _ (λ _. all)
          λ _.
            OnOk->>= (AllWaves tables)
              (row_at_int (get_int_field track (codes "EventIndex")) tables.tevs.rows) _
              λ event _.
                let b = banks_of tables names ref_index in
                OnOk->>= (AllWaves tables) (at_index (extract_tracks_from_event event b tracks)) _
                  λ more e. All-append (Describes (rows_of tables.wavs)) tracks more all (
                    OnOk-at (AllWaves tables) (at_index (extract_tracks_from_event event b tracks))
                      (at_index-All b tracks (extract_tracks_from_event event b tracks)
                        (extract_tracks_from_event-All b tracks event))
                      e)

  sequence_loop-AllWaves :
      (left : ℕ) (track_index : Bytes) (tracks : List Track)
      → AllWaves tables tracks
      → OnOk (AllWaves tables) (sequence_loop tables names ref_index left track_index tracks)
  unfolding sequence_loop
  sequence_loop-AllWaves zero track_index tracks all = all
  sequence_loop-AllWaves (suc left) track_index tracks all =
      OnOk->>= (AllWaves tables) (at_index (uint16 track_index)) _ λ index _.
        let round =
          if ltb index (length tables.tras.rows)
          then extract_track_from_track_row tables names ref_index index tracks
          else ok tracks in
        OnOk->>= (AllWaves tables) round _ λ after e.
          sequence_loop-AllWaves left (drop 2 track_index) after (
            OnOk-at (AllWaves tables) round
              (OnOk-if (AllWaves tables) (ltb index (length tables.tras.rows))
                (extract_track_from_track_row tables names ref_index index tracks) (ok tracks)
                (λ _. track_row-AllWaves index tracks all) (λ _. all))
              e)

  direct_loop-AllWaves :
      (left i : ℕ) (tracks : List Track)
      → AllWaves tables tracks
      → OnOk (AllWaves tables) (direct_loop tables names ref_index left i tracks)
  unfolding direct_loop
  direct_loop-AllWaves zero i tracks all = all
  direct_loop-AllWaves (suc left) i tracks all =
      OnOk->>= (AllWaves tables) (extract_track_from_track_row tables names ref_index i tracks) _
        λ after e. direct_loop-AllWaves left (i + 1) after (
          OnOk-at (AllWaves tables) (extract_track_from_track_row tables names ref_index i tracks)
            (track_row-AllWaves i tracks all) e)

  cue_tracks-AllWaves :
      (tracks : List Track) (seqs : Option UtfTable)
      → AllWaves tables tracks
      → OnOk (AllWaves tables) (cue_tracks tables names ref_index tracks seqs)
  unfolding extract_sequence_tracks extract_direct_tracks
  cue_tracks-AllWaves tracks none all = direct_loop-AllWaves (length tables.tras.rows) 0 tracks all
  cue_tracks-AllWaves tracks (some seqs) all =
      OnOk-if (AllWaves tables) (ltb_ℤ ref_index (pos (length seqs.rows))) _ _
        (λ _. OnOk->>= (AllWaves tables) (row_at_int ref_index seqs.rows) _ λ seq _.
          sequence_loop-AllWaves (pos_part (get_int_field seq (codes "NumTracks")))
            (or_empty (get_bytes_field seq (codes "TrackIndex"))) tracks all)
        (λ _. direct_loop-AllWaves (length tables.tras.rows) 0 tracks all)

tables-AllWaves :
    (tables : AcbTables) (names : NameMap) (cues : List Row) (tracks : List Track)
    → AllWaves tables tracks
    → OnOk (AllWaves tables) (extract_tracks_from_tables tables names cues tracks)
unfolding extract_tracks_from_tables
tables-AllWaves tables names [] tracks all = all
tables-AllWaves tables names (cue ∷ cues) tracks all =
    OnOk->>= (AllWaves tables)
      (guard (is_known_type (get_int_field cue (codes "ReferenceType"))) not_implemented) _
      λ _ _.
        let index = get_int_field cue (codes "ReferenceIndex") in
        OnOk->>= (AllWaves tables) (cue_tracks tables names index tracks tables.seqs) _ λ after e.
          tables-AllWaves tables names cues after (
            OnOk-at (AllWaves tables) (cue_tracks tables names index tracks tables.seqs)
              (cue_tracks-AllWaves tables names index tracks tables.seqs all) e)

-- Whatever the tables of a sound bank, each track that is extracted from them has the encoding, the
-- kind, the id and the port of a row of the table of waves, those for streams where it is streamed.
pub tracks_of_tables-Describes :
    (tables : AcbTables) {tracks : List Track}
    → tracks_of_tables tables ≡ ok tracks
    → All (Describes (rows_of tables.wavs)) tracks
tracks_of_tables-Describes tables =
    OnOk-at (AllWaves tables) (tracks_of_tables tables)
      (tables-AllWaves tables (build_name_map [] tables.nams.rows) tables.cues.rows [] tt)
