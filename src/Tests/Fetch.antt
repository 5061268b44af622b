-- ===== src/Tests/Fetch.antt =====
-- Attempts to download a bundle, on concrete data.
use moe_asset_updater_client.Base.{
  true, false, ◌≡◌, refl, none, some, [], ◌∷◌, ◌++◌, arith, Bytes, codes, equal, if◌then◌else◌,
}
use moe_asset_updater_client.Base.Io.{copy, write}
use moe_asset_updater_client.Unpack.Obfuscator.{plain_mark, deobfuscate_to_writer}
use moe_asset_updater_client.Unpack.Fetch.{
  Files, Reply, answered, Fetched, tmp_path, not_copied, download_bundle_once,
}
use moe_asset_updater_client.Unpack.Fetch.Settled.{
  IsSettled, download_bundle_once-IsSettled, sound_system, download_bundle_once-succeeds,
}

abbrev url : Bytes
url = codes "http://a/b"

abbrev bundle : Bytes
bundle = codes "b"

-- An older bundle of the same name.
abbrev old_files : Files
old_files q = if equal q bundle then some (7 ∷ []) else none

abbrev marked_body : Bytes
marked_body = plain_mark ++ 85 ∷ 110 ∷ []

abbrev whole_answer : Reply (Unit {0})
whole_answer = answered 206 (record { content = marked_body; fault = none; cut = false })

abbrev broken_answer : Reply (Unit {0})
broken_answer = answered 200 (record { content = marked_body; fault = some tt; cut = false })

abbrev fetch : Reply (Unit {0}) → Fetched (Unit {0})
fetch answer = download_bundle_once (λ _ _. answer) (sound_system 100 tt) url [] bundle old_files

download_bundle_once-IsSettled_example :
    IsSettled old_files bundle broken_answer (fetch broken_answer)
download_bundle_once-IsSettled_example =
    download_bundle_once-IsSettled (sound_system 100 tt) old_files bundle (λ _ _. broken_answer) url
      []

download_bundle_once-succeeds_example : (fetch whole_answer).1 ≡ none
download_bundle_once-succeeds_example =
    download_bundle_once-succeeds tt 100 old_files bundle (λ _ _. whole_answer) url [] 206
      marked_body refl (omega arith) (omega arith) (omega arith)

-- The broken body leaves the older bundle; the whole one replaces it.
two_fetches :
    ((fetch broken_answer).0 bundle ≡ some (7 ∷ []))
    × ((fetch broken_answer).1 ≡ some (not_copied tt))
    × ((fetch whole_answer).0 bundle ≡ some (85 ∷ 110 ∷ []))
    × ((fetch whole_answer).0 (tmp_path bundle) ≡ none)
unfolding download_bundle_once deobfuscate_to_writer equal copy
two_fetches = (refl, refl, refl, refl)

-- A body cut short before its mark ended is stored as a bundle of two bytes.
abbrev cut_answer : Reply (Unit {0})
cut_answer = answered 200 (record { content = 16 ∷ 0 ∷ []; fault = some tt; cut = true })

cut_fetch : ((fetch cut_answer).0 bundle ≡ some (16 ∷ 0 ∷ [])) × ((fetch cut_answer).1 ≡ none)
unfolding download_bundle_once deobfuscate_to_writer equal write
cut_fetch = (refl, refl)
