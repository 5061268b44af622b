-- ===== src/Unpack/Fetch.antt =====
-- One attempt to download a bundle: `downloadBundleOnce` of internal/unpack/unpacker.go. The answer of
-- the server, and whether the system's calls fail, are arguments; a file is its content. The messages
-- of the errors are not modelled, nor is a header that `http.Header` would spell otherwise.
pub mod Taken
pub mod Settled
use moe_asset_updater_client.Base.{
  ℕ, Bool, ◌||◌, Option, none, some, List, [], ◌++◌, leb, ltb, if◌then◌else◌, Bytes, codes, equal,
}
use moe_asset_updater_client.Base.Io.{Reader, Writer, Written, written_to}
use moe_asset_updater_client.Unpack.Obfuscator.{deobfuscate_to_writer}

-- The files of the disk with their contents.
abbrev pub Files : Type 0
Files = Bytes → Option Bytes

abbrev pub set : Bytes → Option Bytes → Files → Files
set p v files q = if equal q p then v else files q

-- Of `http.NewRequestWithContext` and `http.DefaultClient.Do`.
pub data Reply (E : Type 0) : Type 0 where
  not_requested not_sent : E → Reply E
  answered : ℕ → Reader E → Reply E

-- What fails of the system's calls, the room on the disk for the bundle, and the error where there is
-- none left.
pub record System (E : Type 0) : Type 0 where
  pub open_fails : Option E
  pub close_fails : Option E
  pub rename_fails : Option E
  pub remove_fails : Option E
  pub room : ℕ
  pub no_room : E

pub data FetchError (E : Type 0) : Type 0 where
  request not_downloaded : E → FetchError E
  returned : ℕ → FetchError E
  not_opened not_copied not_closed not_renamed : E → FetchError E

-- The files after a call, and its error.
abbrev pub Fetched : Type 0 → Type 0
Fetched E = Files × Option (FetchError E)

abbrev pub tmp_path : Bytes → Bytes
tmp_path bundle = bundle ++ codes ".download"

-- `_ = os.Remove(tmpPath)`
abbrev pub remove_tmp : {E : Type 0} → Option E → Bytes → Files → Files
remove_tmp none tmp files = set tmp none files
remove_tmp (some e) tmp files = files

abbrev pub rename_tmp : {E : Type 0} → System E → Bytes → Files → Option E → Fetched E
rename_tmp s bundle files none =
    (set bundle (files (tmp_path bundle)) (set (tmp_path bundle) none files), none)
rename_tmp s bundle files (some e) =
    (remove_tmp s.remove_fails (tmp_path bundle) files, some (not_renamed e))

abbrev pub close_tmp : {E : Type 0} → System E → Bytes → Files → Option E → Fetched E
close_tmp s bundle files none = rename_tmp s bundle files s.rename_fails
close_tmp s bundle files (some e) =
    (remove_tmp s.remove_fails (tmp_path bundle) files, some (not_closed e))

-- The file is closed first, also after an error of the copy, which is then the one returned.
abbrev pub after_copy : {E : Type 0} → System E → Bytes → Files → Written E → Fetched E
after_copy s bundle files (written_to dst none) =
    close_tmp s bundle (set (tmp_path bundle) (some dst.written) files) s.close_fails
after_copy s bundle files (written_to dst (some e)) = (
  remove_tmp s.remove_fails (tmp_path bundle) (set (tmp_path bundle) (some dst.written) files),
  some (not_copied e),
)

-- The file is opened for writing, and emptied.
abbrev pub store_body : {E : Type 0} → System E → Bytes → Files → Reader E → Option E → Fetched E
store_body s bundle files body (some e) = (files, some (not_opened e))
store_body s bundle files body none =
    after_copy s bundle (set (tmp_path bundle) (some []) files)
      (deobfuscate_to_writer s.no_room (record { written = []; room = s.room }) body)

-- The two tests of the status.
abbrev pub is_refused : ℕ → Bool
is_refused status = leb 500 status || (ltb status 200 || leb 300 status)

-- What the answer leads to.
abbrev pub take_answer : {E : Type 0} → System E → Bytes → Files → Reply E → Fetched E
take_answer s bundle files (not_requested e) = (files, some (request e))
take_answer s bundle files (not_sent e) = (files, some (not_downloaded e))
take_answer s bundle files (answered status body) =
    if is_refused status
    then (files, some (returned status))
    else store_body s bundle files body s.open_fails

-- `downloadBundleOnce`, by the client's answer to a request for the address with the headers.
unfoldable pub download_bundle_once :
    {E : Type 0}
    → (Bytes → List (Bytes × Bytes) → Reply E)
    → System E
    → Bytes
    → List (Bytes × Bytes)
    → Bytes
    → Files
    → Fetched E
download_bundle_once client s url headers bundle files =
    take_answer s bundle files (client url headers)
