-- ===== src/Protocol.antt =====
-- The types of the wire protocol that the client's parts share, of internal/protocol/protocol.go.
-- Strings are lists of bytes; an `int64` is an integer.
use moe_asset_updater_client.Base.{Bool, List, Bytes}
use moe_asset_updater_client.Base.Int.{ℤ}

pub record ExportOptions : Type 0 where
  pub export_by_category : Bool
  pub unity_version : Bytes
  pub export_mesh_obj : Bool
  pub mesh_obj_path_patterns : List Bytes
  pub export_usm_files : Bool
  pub decode_usm_files : Bool
  pub export_acb_files : Bool
  pub decode_acb_files : Bool
  pub decode_hca_files : Bool
  pub convert_photo_to_webp : Bool
  pub remove_png : Bool
  pub convert_video_to_mp4 : Bool
  pub direct_usm_to_mp4_with_ffmpeg : Bool
  pub remove_m2v : Bool
  pub convert_audio_to_mp3 : Bool
  pub convert_wav_to_flac : Bool
  pub remove_wav : Bool

pub record TaskPayload : Type 0 where
  pub task_id : Bytes
  pub job_id : Bytes
  pub region : Bytes
  pub bundle_path : Bytes
  pub download_path : Bytes
  pub bundle_hash : Bytes
  pub category : Bytes
  pub download_url : Bytes
  pub headers : List (Bytes × Bytes)
  pub options : ExportOptions
  pub estimated_size_bytes : ℤ
  pub queue : Bytes
  pub priority : Bool
  pub delayed : Bool

pub record ResultFile : Type 0 where
  pub path : Bytes
  pub size : ℤ
  pub sha256 : Bytes

pub record TaskResultManifest : Type 0 where
  pub task_id : Bytes
  pub job_id : Bytes
  pub region : Bytes
  pub bundle_path : Bytes
  pub bundle_hash : Bytes
  pub files : List ResultFile
