-- ===== src/Acb/Tracklist.antt =====
-- The list of the tracks of a sound bank, from its tables: `NewTrackList` and the loops that it runs,
-- of internal/cricodecs/acb/track.go.
use moe_asset_updater_client.Base.{
  ℕ, zero, suc, ◌+◌, Bool, not, ◌||◌, Option, none, some, List, [], ◌∷◌, ◌++◌, ltb, if◌then◌else◌,
  Bytes, codes, length, drop,
}
use moe_asset_updater_client.Base.Int.{ℤ, pos, negsuc, ltb_ℤ, eqb_ℤ, pos_part}
use moe_asset_updater_client.Base.Outcome.{Outcome, ok, err, panic, ◌>>=◌, ◌>>◌, guard}
use moe_asset_updater_client.Acb.Utf.{Row, UtfTable}
use moe_asset_updater_client.Acb.Fields.{get_bytes_field, get_int_field}
use moe_asset_updater_client.Acb.Track.{
  Track, AcbTables, TrackError, no_rows, not_implemented, or_empty, parse_acb_tables, NameMap,
  build_name_map, name_at, row_at, rows_of, uint16, Banks, extract_tracks_from_event,
}

-- `rows[i]` on an `int`.
abbrev pub at_index : {A : Type 0} → Option A → Outcome TrackError A
at_index none = panic
at_index (some a) = ok a

abbrev pub row_at_int : ℤ → List Row → Outcome TrackError Row
row_at_int (pos n) rows = at_index (row_at n rows)
row_at_int (negsuc n) rows = panic

abbrev pub banks_of : AcbTables → NameMap → ℤ → Banks
banks_of tables names ref_index = record {
  synths = rows_of tables.syns;
  waves = rows_of tables.wavs;
  name = name_at ref_index names;
  ref_index = ref_index;
}

unfoldable pub extract_track_from_track_row :
    AcbTables → NameMap → ℤ → ℕ → List Track → Outcome TrackError (List Track)
unfolding get_int_field extract_tracks_from_event
extract_track_from_track_row tables names ref_index track_index tracks =
    at_index (row_at track_index tables.tras.rows) >>= λ track.
    let event_index = get_int_field track (codes "EventIndex") in
    let found = row_at_int event_index tables.tevs.rows >>= λ event.
    at_index (extract_tracks_from_event event (banks_of tables names ref_index) tracks) >>= λ more.
    ok (tracks ++ more) in
    if eqb_ℤ event_index (pos 0xFFFF) || not (ltb_ℤ event_index (pos (length tables.tevs.rows)))
    then ok tracks
    else found

-- The loop, with the rounds left and the numbers that are not read.
unfoldable pub sequence_loop :
    AcbTables → NameMap → ℤ → ℕ → Bytes → List Track → Outcome TrackError (List Track)
unfolding extract_track_from_track_row
sequence_loop tables names ref_index zero track_index tracks = ok tracks
sequence_loop tables names ref_index (suc left) track_index tracks =
    at_index (uint16 track_index) >>= λ index.
    (if ltb index (length tables.tras.rows)
      then extract_track_from_track_row tables names ref_index index tracks
      else ok tracks)
    >>= λ tracks. sequence_loop tables names ref_index left (drop 2 track_index) tracks

unfoldable pub extract_sequence_tracks :
    AcbTables → NameMap → ℤ → Row → List Track → Outcome TrackError (List Track)
unfolding sequence_loop get_int_field get_bytes_field
extract_sequence_tracks tables names ref_index seq tracks =
    sequence_loop tables names ref_index (pos_part (get_int_field seq (codes "NumTracks")))
      (or_empty (get_bytes_field seq (codes "TrackIndex"))) tracks

-- The loop over the track rows from an index on, with the rows left.
unfoldable pub direct_loop :
    AcbTables → NameMap → ℤ → ℕ → ℕ → List Track → Outcome TrackError (List Track)
unfolding extract_track_from_track_row
direct_loop tables names ref_index zero index tracks = ok tracks
direct_loop tables names ref_index (suc left) index tracks =
    extract_track_from_track_row tables names ref_index index tracks >>= λ tracks.
    direct_loop tables names ref_index left (index + 1) tracks

unfoldable pub extract_direct_tracks :
    AcbTables → NameMap → ℤ → List Track → Outcome TrackError (List Track)
unfolding direct_loop
extract_direct_tracks tables names ref_index tracks =
    direct_loop tables names ref_index (length tables.tras.rows) 0 tracks

abbrev pub is_known_type : ℤ → Bool
is_known_type ref_type = eqb_ℤ ref_type (pos 3) || eqb_ℤ ref_type (pos 8)

abbrev pub cue_tracks :
    AcbTables → NameMap → ℤ → List Track → Option UtfTable → Outcome TrackError (List Track)
cue_tracks tables names ref_index tracks none = extract_direct_tracks tables names ref_index tracks
cue_tracks tables names ref_index tracks (some seqs) =
    if ltb_ℤ ref_index (pos (length seqs.rows))
    then (row_at_int ref_index seqs.rows >>= λ seq.
        extract_sequence_tracks tables names ref_index seq tracks)
    else extract_direct_tracks tables names ref_index tracks

-- The loop over the cues.
unfoldable pub extract_tracks_from_tables :
    AcbTables → NameMap → List Row → List Track → Outcome TrackError (List Track)
unfolding extract_sequence_tracks extract_direct_tracks get_int_field
extract_tracks_from_tables tables names [] tracks = ok tracks
extract_tracks_from_tables tables names (cue ∷ cues) tracks =
    guard (is_known_type (get_int_field cue (codes "ReferenceType"))) not_implemented
    >> (cue_tracks tables names (get_int_field cue (codes "ReferenceIndex")) tracks tables.seqs
        >>= λ tracks. extract_tracks_from_tables tables names cues tracks)

-- With the tables that it parsed.
abbrev pub tracks_of_tables : AcbTables → Outcome TrackError (List Track)
tracks_of_tables tables =
    extract_tracks_from_tables tables (build_name_map [] tables.nams.rows) tables.cues.rows []

unfoldable pub new_track_list : UtfTable → Outcome TrackError (List Track)
unfolding parse_acb_tables build_name_map extract_tracks_from_tables
new_track_list utf = elim utf.rows [
  | [] ↦ err no_rows
  | row ∷ rows ↦ parse_acb_tables row >>= tracks_of_tables
]
