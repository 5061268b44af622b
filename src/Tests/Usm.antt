-- ===== src/Tests/Usm.antt =====
-- The USM container on concrete files: a header without audio, and a masked video chunk.
use moe_asset_updater_client.Base.{
  ℕ, ◌+◌, ◌≡◌, ◌≢◌, refl, Bool, true, false, ◌&&◌, &&_iff, ltb, ltb→lt, arith, Option, none, some,
  [], ◌∷◌, ◌++◌, map, length, replicate, All, IsByte, Bytes, codes, equal,
}
use moe_asset_updater_client.Base.Outcome.{ok, err}
use moe_asset_updater_client.Usm.Masks.{get_mask, unmask_head}
use moe_asset_updater_client.Usm.Masks.Roundtrip.{hide_video}
use moe_asset_updater_client.Usm.Header.{
  parse_usm_header, parse_usm_header_chunks, skip_metadata_section, seek_and_check_signature,
  past_block, optional_audio, header_ends, header_end, audio_header_end,
}
use moe_asset_updater_client.Usm.Chunks.Container.{Chunk, IsChunk, is_end, encode_chunk}
use moe_asset_updater_client.Usm.Chunks.Container.Stream.{encode_stream}
use moe_asset_updater_client.Usm.Chunks.Container.Sealed.{seal, sealed, contents_of}
use moe_asset_updater_client.Usm.Extract.{create_output_files, extract_usm, out_of_rounds}
use moe_asset_updater_client.Usm.Extract.Whole.{expected_files, extract_usm-seal}
use moe_asset_updater_client.Usm.Extract.Rounds.{extract_usm-Within}
use moe_asset_updater_client.Usm.Metadata.{
  Metadata, Section, SectionData, table_data, marker_data, read_metadata, read_metadata_sections,
  read_detailed_utf_table, read_utf_section, read_signature_at, optional_audio_section,
  ended_sections, read_marker_section, audio_end_section, final_sections, read_metadata_end_section,
  normalize_rows, normalize_detailed_utf_table, extract_container_filename,
}
use moe_asset_updater_client.Usm.Metadata.Text.{
  text, number, stringify_bytes, normalize_metadata_value,
}
use moe_asset_updater_client.Acb.Utf.{uint_value, new_utf_table}
use moe_asset_updater_client.Acb.Fields.{field}
use moe_asset_updater_client.Binary.{
  read_bytes, read_uint16, read_uint32, align_stream, seek_current,
}
use moe_asset_updater_client.Usm.Table.{
  get_utf_table, utf_table_after, read_field_infos, fill_rows, extract_filename, cell,
}
use moe_asset_updater_client.Usm.Metadata.Start.{parse_usm_header-read_metadata}
use moe_asset_updater_client.Unpack.Manifest.{ext}
use moe_asset_updater_client.Unpack.Export.{join_clean}
use moe_asset_updater_client.Unpack.Wav.{trim_suffix}
use moe_asset_updater_client.Tests.Acb.{two_rows}

abbrev zeros : ℕ → Bytes
zeros n = replicate n 0

-- A block whose size stays below 256, with its contents from 0x20 on.
abbrev block : Bytes → Bytes → Bytes
block sig contents = sig ++ (0 ∷ 0 ∷ 0 ∷ (24 + length contents) ∷ (zeros 24 ++ contents))

abbrev header_of : Bytes → Bytes
header_of table =
    block (codes "CRID") table
    ++ (block (codes "@SFV") table
        ++ (block (codes "@SFV") (codes "#HEADER END")
            ++ (block (codes "@SFV") table ++ block (codes "@SFV") (codes "#METADATA END"))))

abbrev described : Bytes
described = header_of two_rows

all_bytes : Bytes → Bool
all_bytes [] = true
all_bytes (b ∷ bs) = ltb b 256 && all_bytes bs

all_bytes-IsByte : (bs : Bytes) → all_bytes bs ≡ true → All IsByte bs
unfolding all_bytes
all_bytes-IsByte [] e = tt
all_bytes-IsByte (b ∷ bs) e =
    let both = (&&_iff (ltb b 256) (all_bytes bs)).0 e in
    (ltb→lt b 256 both.0, all_bytes-IsByte bs both.1)

described-IsByte : All IsByte described
unfolding all_bytes
described-IsByte = all_bytes-IsByte described refl

-- What the metadata shows of `described`.
abbrev shown_table : SectionData
shown_table = table_data (record {
  table_name = text (codes "T");
  rows =
      ((codes "b", number (uint_value 261)) ∷ (codes "a", number (uint_value 7)) ∷ [])
      ∷ ((codes "b", number (uint_value 261)) ∷ (codes "a", number (uint_value 9)) ∷ [])
      ∷ [];
})

abbrev section : Bytes → Bytes → ℕ → ℕ → SectionData → Section
section kind sig offset size contents = record {
  kind = kind;
  signature = sig;
  offset = offset;
  block_size = size;
  contents = contents;
}

abbrev described_metadata : Metadata
described_metadata = record {
  container_filename = [];
  has_audio = false;
  stream_offset = 356;
  sections =
      section (codes "crid") (codes "CRID") 0 76 shown_table
      ∷ section (codes "video_header") (codes "@SFV") 84 76 shown_table
      ∷ section (codes "video_header_end") (codes "@SFV") 168 35 (marker_data (codes "#HEADER END"))
      ∷ section (codes "video_metadata") (codes "@SFV") 211 76 shown_table
      ∷ section (codes "video_metadata_end") (codes "@SFV") 295 37
          (marker_data (codes "#METADATA END"))
      ∷ [];
}

described-read : read_metadata (λ x. none) described [] ≡ ok described_metadata
unfolding read_metadata read_metadata_sections read_detailed_utf_table read_utf_section
    read_signature_at optional_audio_section ended_sections read_marker_section audio_end_section
    final_sections read_metadata_end_section normalize_rows normalize_detailed_utf_table
    normalize_metadata_value extract_container_filename stringify_bytes seek_and_check_signature
    past_block read_bytes read_uint32 align_stream seek_current new_utf_table equal field
described-read = refl

parse_usm_header-read_metadata_example :
    (name : Bytes) × (parse_usm_header described (codes "v.usm") ≡ ok (name, false, 356))
parse_usm_header-read_metadata_example =
    parse_usm_header-read_metadata (λ x. none) described [] (codes "v.usm") described-IsByte
      described-read

-- An empty table as usm.go reads it, in a header that ends at 232.
abbrev plain_table : Bytes
plain_table = codes "@UTF" ++ (0 ∷ 0 ∷ 0 ∷ 24 ∷ zeros 22)

abbrev plain : Bytes
plain =
    block (codes "CRID") plain_table
    ++ (block (codes "@SFV") []
        ++ (block (codes "@SFV") (codes "#HEADER END")
            ++ (block (codes "@SFV") []
                ++ (block (codes "@SFV") (codes "#METADATA END") ++ zeros 18))))

abbrev video_chunk : Chunk
video_chunk = record {
  sig = codes "@SFV";
  filler = zeros 3;
  kind = 0;
  padding = zeros 16;
  contents = replicate 600 0x41;
  footer = zeros 2;
}

abbrev end_chunk : Chunk
end_chunk = record video_chunk { contents = codes "#CONTENTS END" }

abbrev plain_file : Bytes
plain_file =
    plain
    ++ encode_stream (map (seal (get_mask 0x1234)) (video_chunk ∷ [])) (encode_chunk end_chunk [])

plain-read : parse_usm_header plain_file (codes "v.usm") ≡ ok (codes "v.usm", false, 232)
unfolding parse_usm_header parse_usm_header_chunks skip_metadata_section seek_and_check_signature
    past_block optional_audio header_ends header_end audio_header_end get_utf_table utf_table_after
    read_field_infos fill_rows extract_filename cell read_bytes read_uint16 read_uint32 align_stream
    seek_current equal
plain-read = refl

sealed-IsChunk : IsChunk (seal (get_mask 0x1234) video_chunk)
unfolding seal sealed hide_video get_mask equal unmask_head
sealed-IsChunk = record {
  sig = refl;
  filler = refl;
  padding = refl;
  footer = omega arith;
  size = omega arith;
  long = omega arith;
}

end-IsChunk : IsChunk end_chunk
end-IsChunk = record {
  sig = refl;
  filler = refl;
  padding = refl;
  footer = omega arith;
  size = omega arith;
  long = omega arith;
}

sealed-goes_on : is_end (seal (get_mask 0x1234) video_chunk) ≡ false
unfolding is_end seal sealed hide_video get_mask equal unmask_head
sealed-goes_on = refl

end-is_end : is_end end_chunk ≡ true
unfolding is_end equal
end-is_end = refl

abbrev no_faults : Bytes → Option (Unit {0})
no_faults path = none

video_path-created :
    create_output_files no_faults (codes "/out") (codes "v.usm") false false
    ≡ ok (codes "/out/v.m2v", none)
unfolding create_output_files join_clean trim_suffix ext
video_path-created = refl

extract_usm-seal_example :
    extract_usm no_faults (λ x. none) plain_file (codes "/out") (codes "v.usm") (some 0x1234) false
    ≡ ok (expected_files (codes "/out/v.m2v", none) (video_chunk ∷ []))
extract_usm-seal_example =
    extract_usm-seal no_faults (λ x. none) 0x1234 (video_chunk ∷ []) end_chunk plain []
      (codes "/out") (codes "v.usm") (codes "v.usm") false false (codes "/out/v.m2v", none)
      ((sealed-IsChunk, sealed-goes_on), tt) end-IsChunk end-is_end plain-read video_path-created

extract_usm-Within_example :
    extract_usm no_faults (λ x. none) plain_file (codes "/out") (codes "v.usm") none true
    ≢ err out_of_rounds
extract_usm-Within_example =
    extract_usm-Within no_faults (λ x. none) plain_file (codes "/out") (codes "v.usm") none true

-- The files in that example.
expected_files-example :
    expected_files (codes "/out/v.m2v", none) (video_chunk ∷ [])
    ≡ (codes "/out/v.m2v", replicate 600 0x41) ∷ []
unfolding expected_files contents_of equal
expected_files-example = refl
