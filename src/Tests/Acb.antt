-- ===== src/Tests/Acb.antt =====
-- Sound banks: a table, and an archive of waves.
use moe_asset_updater_client.Base.{
  ◌≡◌, refl, inl, arith, [], ◌∷◌, ◌++◌, Bytes, codes, List, some, none, true, false, All,
}
use moe_asset_updater_client.Base.Int.{pos, negsuc}
use moe_asset_updater_client.Acb.Track.{
  Track, AcbTables, rows_of, generate_unique_name, build_name_map, extract_tracks_from_event,
}
use moe_asset_updater_client.Acb.Tracklist.{banks_of, extract_tracks_from_tables, tracks_of_tables}
use moe_asset_updater_client.Acb.Track.Ends.{extract_tracks_from_event_ends}
use moe_asset_updater_client.Acb.Track.Waves.{Describes, tracks_of_tables-Describes}
use moe_asset_updater_client.Base.Outcome.{ok, panic}
use moe_asset_updater_client.Acb.Afs.{AfsArchive, new_afs_archive}
use moe_asset_updater_client.Acb.Afs.Indexed.{IsArchive, new_afs_archive-IsArchive}
use moe_asset_updater_client.Acb.Utf.{
  UtfTable, Row, uint_value, string_value, bytes_value, new_utf_table,
}
use moe_asset_updater_client.Acb.Utf.Table.{IsTable, new_utf_table-IsTable}

-- Two rows, with a byte `a` in each and a constant `b` of two bytes.
abbrev pub two_rows : Bytes
two_rows =
    codes "@UTF"
    ++ 0
      ∷ 0
      ∷ 0
      ∷ 44
      ∷ 0
      ∷ 1
      ∷ 0
      ∷ 36
      ∷ 0
      ∷ 0
      ∷ 0
      ∷ 38
      ∷ 0
      ∷ 0
      ∷ 0
      ∷ 44
      ∷ 0
      ∷ 0
      ∷ 0
      ∷ 0
      ∷ 0
      ∷ 2
      ∷ 0
      ∷ 1
      ∷ 0
      ∷ 0
      ∷ 0
      ∷ 2
      ∷ 0x50
      ∷ 0
      ∷ 0
      ∷ 0
      ∷ 2
      ∷ 0x32
      ∷ 0
      ∷ 0
      ∷ 0
      ∷ 4
      ∷ 1
      ∷ 5
      ∷ 7
      ∷ 9
      ∷ (codes "T" ++ 0 ∷ (codes "a" ++ 0 ∷ (codes "b" ++ 0 ∷ [])))

abbrev two_row_table : UtfTable
two_row_table = record {
  header = record {
    table_size = 44;
    version = 1;
    row_offset = 36;
    string_table_offset = 38;
    data_offset = 44;
    table_name_offset = 0;
    number_of_fields = 2;
    row_size = 1;
    number_of_rows = 2;
  };
  name = codes "T";
  schema = record {
    columns =
        record { flag = 0x50; typ = 0; name = codes "a"; offset = 0 }
        ∷ record { flag = 0x30; typ = 2; name = codes "b"; offset = 0 }
        ∷ [];
    dynamic_keys = codes "a" ∷ [];
    constants = (codes "b", uint_value 261) ∷ [];
    row_column_offset = 1;
  };
  rows =
      ((codes "b", uint_value 261) ∷ (codes "a", uint_value 7) ∷ [])
      ∷ ((codes "b", uint_value 261) ∷ (codes "a", uint_value 9) ∷ [])
      ∷ [];
}

two_rows_read : new_utf_table (record { content = two_rows; position = 0 }) ≡ ok two_row_table
unfolding new_utf_table
two_rows_read = refl

new_utf_table-IsTable_example : IsTable two_row_table
new_utf_table-IsTable_example =
    new_utf_table-IsTable (record { content = two_rows; position = 0 }) two_rows_read

-- Two waves, the second one after a gap.
abbrev two_waves : Bytes
two_waves =
    codes "AFS2"
    ++ 1 ∷ 2 ∷ 2 ∷ 0 ∷ 2 ∷ 0 ∷ 0 ∷ 0 ∷ 32 ∷ 0 ∷ 0 ∷ 0 ∷ 0 ∷ 0 ∷ 1 ∷ 0 ∷ 26 ∷ 0 ∷ 70 ∷ 0 ∷ 100 ∷ 0
      ∷ []

abbrev two_wave_archive : AfsArchive
two_wave_archive = record {
  alignment = 32;
  files =
      record { cue_id = 0; offset = 32; size = 38 }
      ∷ record { cue_id = 1; offset = 96; size = 4 }
      ∷ [];
  reader = record { content = two_waves; position = 26 };
}

two_waves_read :
    new_afs_archive (record { content = two_waves; position = 0 }) ≡ ok two_wave_archive
unfolding new_afs_archive
two_waves_read = refl

new_afs_archive-IsArchive_example : IsArchive two_waves two_wave_archive
new_afs_archive-IsArchive_example =
    new_afs_archive-IsArchive two_waves (inl refl) (inl refl) (omega arith) two_waves_read

-- A table of which only the rows matter.
abbrev with_rows : List Row → UtfTable
with_rows rows = record two_row_table { rows = rows }

abbrev command_bytes : Bytes
command_bytes = 0x07 ∷ 0xD0 ∷ 4 ∷ 0 ∷ 2 ∷ 0 ∷ 0 ∷ []

-- One cue, whose track plays the second wave, from a stream.
abbrev one_cue : AcbTables
one_cue = record {
  cues =
      with_rows (
        ((codes "ReferenceType", uint_value 3) ∷ (codes "ReferenceIndex", uint_value 0) ∷ []) ∷ []);
  nams =
      with_rows (
        ((codes "CueIndex", uint_value 0) ∷ (codes "CueName", string_value (codes "se")) ∷ [])
        ∷ []);
  wavs = some (
      with_rows (
        []
        ∷ ((codes "Streaming", uint_value 1)
            ∷ (codes "EncodeType", uint_value 2)
            ∷ (codes "StreamAwbId", uint_value 9)
            ∷ (codes "StreamAwbPortNo", uint_value 4)
            ∷ [])
        ∷ []));
  syns = some (with_rows (((codes "ReferenceItems", bytes_value (0 ∷ 1 ∷ 0 ∷ 1 ∷ [])) ∷ []) ∷ []));
  tras = with_rows (((codes "EventIndex", uint_value 0) ∷ []) ∷ []);
  tevs = with_rows (((codes "Command", bytes_value command_bytes) ∷ []) ∷ []);
  seqs = none;
}

abbrev one_track : List Track
one_track =
    record {
      cue_id = pos 0;
      name = codes "se";
      wav_id = pos 9;
      enc_type = pos 2;
      is_stream = true;
      stream_awb_id = pos 4;
    }
    ∷ []

one_track_extracted : tracks_of_tables one_cue ≡ ok one_track
unfolding extract_tracks_from_tables build_name_map
one_track_extracted = refl

tracks_of_tables-Describes_example : All (Describes (rows_of one_cue.wavs)) one_track
tracks_of_tables-Describes_example = tracks_of_tables-Describes one_cue one_track_extracted

extract_tracks_from_event_ends_example :
    (tracks : List Track) × (extract_tracks_from_event
        ((codes "Command", bytes_value command_bytes) ∷ [])
        (banks_of one_cue [] (pos 0))
        []
      ≡ some tracks)
extract_tracks_from_event_ends_example =
    extract_tracks_from_event_ends ((codes "Command", bytes_value command_bytes) ∷ [])
      (banks_of one_cue [] (pos 0)) []

-- A sequence that names more tracks than its index holds makes the program panic.
short_sequence_panics :
    tracks_of_tables (record one_cue {
      seqs = some (
          with_rows (
            ((codes "NumTracks", uint_value 2)
              ∷ (codes "TrackIndex", bytes_value (0 ∷ 0 ∷ []))
              ∷ [])
            ∷ []));
    })
    ≡ panic
unfolding extract_tracks_from_tables build_name_map
short_sequence_panics = refl

-- A name with the id of the wave may be taken already.
taken_twice :
    generate_unique_name
      (codes "a")
      (pos 0)
      (pos 1)
      (record {
        cue_id = pos 0;
        name = codes "a";
        wav_id = pos 0;
        enc_type = pos 2;
        is_stream = false;
        stream_awb_id = negsuc 0;
      }
        ∷ record {
          cue_id = pos 0;
          name = codes "a-1";
          wav_id = pos 1;
          enc_type = pos 2;
          is_stream = false;
          stream_awb_id = negsuc 0;
        }
        ∷ [])
      []
    ≡ codes "a-1"
unfolding generate_unique_name
taken_twice = refl
