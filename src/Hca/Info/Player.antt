-- ===== src/Hca/Info/Player.antt =====
-- What a caller is told of a stream whose header was accepted.
use moe_asset_updater_client.Base.{
  ◌≤◌, ◌<◌, ◌≡◌, refl, ◌⊎◌, true, le→not_ltb, length, take, Bytes, [], ◌==◌, Bool-cases, inl, inr,
}
use moe_asset_updater_client.Base.Outcome.{ok}
use moe_asset_updater_client.Hca.State.{ClHca}
use moe_asset_updater_client.Hca.Validate.{decode_header}
use moe_asset_updater_client.Hca.Validate.Configured.{IsConfigured, decode_header-IsConfigured}
use moe_asset_updater_client.Hca.Info.{CriWareHcaInfo, info_comment, info_of, get_info}

-- Blocks that can be read one after another, of channels that can be written.
pub record IsPlayable (i : CriWareHcaInfo) : Type 0 where
  pub channels_pos : 1 ≤ i.channel_count
  pub channels_le : i.channel_count ≤ 16
  pub rate_pos : 1 ≤ i.sampling_rate
  pub block_size_ge : 8 ≤ i.block_size
  pub block_size_le : i.block_size ≤ 0xFFFF
  pub blocks_pos : 0 < i.block_count
  pub samples : i.samples_per_block ≡ 1024
  pub loop :
      (i.loop_enabled ≡ 0)
      ⊎ ((i.loop_start_block ≤ i.loop_end_block) × (i.loop_end_block < i.block_count))

comment_read :
    (h : ClHca) → h.comment_len ≤ length h.comment → (c : Bytes) × (info_comment h ≡ ok c)
unfolding info_comment
comment_read h le = elim (Bool-cases (h.comment_len == 0)) [
  | inl e ↦ ([], rw e)
  | inr e ↦ (take h.comment_len h.comment, rw (e, le→not_ltb h.comment_len (length h.comment) le))
]

info_read :
    (h : ClHca) {c : Bytes}
    → h.is_valid ≡ true
    → info_comment h ≡ ok c
    → get_info h ≡ ok (info_of h c)
unfolding get_info
info_read h v e = rw (v, e)

info_of-IsPlayable : (h : ClHca) (c : Bytes) → IsConfigured h → IsPlayable (info_of h c)
info_of-IsPlayable h c k = record {
  channels_pos = k.parsed.format.channels_pos;
  channels_le = k.parsed.format.channels_le;
  rate_pos = k.parsed.format.rate_pos;
  block_size_ge = k.frame_size_ge;
  block_size_le = k.frame_size_le;
  blocks_pos = k.parsed.format.frames_pos;
  samples = refl;
  loop = k.parsed.loop;
}

-- Once `DecodeHeader` has accepted a header, `GetInfo` neither fails nor panics, and what it gives can
-- be played: 1 to 16 channels, a rate, blocks of 8 to 65535 bytes and of 1024 samples, at least one,
-- and the loop's blocks, if there is a loop, in order and inside the stream.
pub decode_header-get_info :
    (h : ClHca) (bytes : Bytes) {h' : ClHca}
    → decode_header h bytes ≡ ok h'
    → (i : CriWareHcaInfo) × (get_info h' ≡ ok i) × IsPlayable i
decode_header-get_info h bytes {h'} e =
    let k = decode_header-IsConfigured h bytes e in
    let (c, read) = comment_read h' k.parsed.comment_le in
    (info_of h' c, info_read h' k.valid read, info_of-IsPlayable h' c k)
