-- ===== src/Unpack/Export.antt =====
-- The call of the asset studio on a bundle: `assetStudioExportTypes`, `shouldExportMeshOBJ`,
-- `getExportGroup`, `resolvePostProcessExportPath` and the command line that
-- `ExtractUnityAssetBundle` builds, of internal/unpack/unpacker.go. Regular expressions and what the
-- disk says are arguments. The paths of bundles are in ASCII.
use moe_asset_updater_client.Base.{
  Bool, true, false, not, ◌&&◌, ◌||◌, List, [], ◌∷◌, ◌++◌, if◌then◌else◌, Bytes, codes, equal,
  has_prefix, to_lower,
}
use moe_asset_updater_client.Base.Outcome.{Outcome, ok, err, ◌>>=◌}
use moe_asset_updater_client.Protocol.{ExportOptions}
use moe_asset_updater_client.Unpack.Paths.{clean, join_path, split_path}

-- `strings.TrimPrefix(p, "/")`.
unfoldable pub trim_slash : Bytes → Bytes
trim_slash [] = []
trim_slash (c ∷ cs) = if equal (c ∷ []) (codes "/") then cs else c ∷ cs

-- `strings.Join`.
unfoldable pub join_with : Bytes → List Bytes → Bytes
join_with sep [] = []
join_with sep (x ∷ []) = x
join_with sep (x ∷ y ∷ ys) = x ++ sep ++ join_with sep (y ∷ ys)

abbrev pub nonempty_parts : List Bytes → List Bytes
nonempty_parts [] = []
nonempty_parts (p ∷ ps) = let rest = nonempty_parts ps in if equal p [] then rest else p ∷ rest

-- `filepath.Join`.
unfoldable pub join_clean : List Bytes → Bytes
unfolding clean join_path equal
join_clean ps = elim (nonempty_parts ps) [ [] ↦ [] | q ∷ qs ↦ clean (join_path (q ∷ qs)) ]

abbrev pub last_or : Bytes → List Bytes → Bytes
last_or x [] = x
last_or x (y ∷ ys) = last_or y ys

-- `filepath.Base`.
unfoldable pub base : Bytes → Bytes
unfolding split_path
base [] = codes "."
base (c ∷ cs) = last_or (codes "/") (nonempty_parts (split_path (c ∷ cs)))

-- The loop over the patterns, with what `regexp.MatchString` gives.
unfoldable pub match_any :
    {E : Type 0} → (Bytes → Bytes → Outcome E Bool) → Bytes → List Bytes → Outcome E Bool
match_any matches p [] = ok false
match_any matches p (x ∷ xs) =
    let rest = match_any matches p xs in
    matches x p >>= λ matched. if matched then ok true else rest

abbrev pub is_none : List Bytes → Bool
is_none [] = true
is_none (x ∷ xs) = false

unfoldable pub should_export_mesh_obj :
    {E : Type 0} → (Bytes → Bytes → Outcome E Bool) → Bytes → ExportOptions → Outcome E Bool
unfolding match_any trim_slash
should_export_mesh_obj matches export_path options =
    let checked = match_any matches (trim_slash export_path) options.mesh_obj_path_patterns in
    if not options.export_mesh_obj || is_none options.mesh_obj_path_patterns
    then ok false
    else checked

abbrev pub base_types : List Bytes
base_types =
    codes "monoBehaviour"
    ∷ codes "textAsset"
    ∷ codes "tex2d"
    ∷ codes "tex2dArray"
    ∷ codes "audio"
    ∷ []

unfoldable pub asset_studio_export_types :
    {E : Type 0} → (Bytes → Bytes → Outcome E Bool) → Bytes → ExportOptions → Outcome E Bytes
unfolding should_export_mesh_obj join_with
asset_studio_export_types matches export_path options =
    should_export_mesh_obj matches export_path options >>= λ should_export.
    ok (
      join_with (codes ",") (if should_export then base_types ++ codes "mesh" ∷ [] else base_types))

abbrev pub has_any_prefix : Bytes → List Bytes → Bool
has_any_prefix p [] = false
has_any_prefix p (x ∷ xs) = has_prefix p x || has_any_prefix p xs

abbrev pub full_groups : List Bytes
full_groups =
    codes "event/center"
    ∷ codes "event/thumbnail"
    ∷ codes "gacha/icon"
    ∷ codes "fix_prefab/mc_new"
    ∷ codes "mysekai/character/"
    ∷ []

unfoldable pub get_export_group : Bytes → Bytes
unfolding equal trim_slash has_prefix
get_export_group export_path =
    if equal export_path []
    then codes "container"
    else if has_any_prefix (to_lower (trim_slash export_path)) full_groups
    then codes "containerFull"
    else codes "container"

abbrev pub resources : Bytes
resources = codes "assets/sekai/assetbundle/resources"

unfoldable pub exclude_path_prefix : Bytes → Bytes → ExportOptions → Bytes
unfolding has_prefix
exclude_path_prefix export_path category options =
    if options.export_by_category
    then resources
    else if has_prefix export_path (codes "mysekai") && not options.export_by_category
    then resources ++ codes "/ondemand"
    else resources ++ codes "/" ++ to_lower category

unfoldable pub actual_export_path : Bytes → Bytes → Bytes → ExportOptions → Bytes
unfolding join_clean
actual_export_path output_dir export_path category options =
    if options.export_by_category
    then join_clean (output_dir ∷ to_lower category ∷ export_path ∷ [])
    else join_clean (output_dir ∷ export_path ∷ [])

-- The extensions that the studio leaves out.
abbrev pub left_out : ExportOptions → List Bytes
left_out options =
    (if options.export_usm_files then [] else codes "usm" ∷ [])
    ++ (if options.export_acb_files then [] else codes "acb" ∷ [])

abbrev pub filter_args : List Bytes → List Bytes
filter_args [] = []
filter_args (x ∷ xs) =
    codes "--filter-by-name" ∷ (codes ".*\\.(" ++ join_with (codes "|") (x ∷ xs) ++ codes ")$") ∷ []

unfoldable pub studio_args : Bytes → Bytes → Bytes → Bytes → Bytes → ExportOptions → List Bytes
unfolding get_export_group exclude_path_prefix join_with equal
studio_args file_path export_types export_path output_dir category options =
    file_path
    ∷ codes "-m"
    ∷ codes "export"
    ∷ codes "-t"
    ∷ export_types
    ∷ codes "-g"
    ∷ get_export_group export_path
    ∷ codes "-f"
    ∷ codes "assetName"
    ∷ codes "-o"
    ∷ output_dir
    ∷ codes "--strip-path-prefix"
    ∷ exclude_path_prefix export_path category options
    ∷ codes "-r"
    ∷ codes "--filter-exclude-mode"
    ∷ codes "--filter-with-regex"
    ∷ codes "--sekai-keep-single-container-filename"
    ∷ ((if equal options.unity_version []
          then []
          else codes "--unity-version" ∷ options.unity_version ∷ [])
        ++ filter_args (left_out options))

-- What `os.Stat` says of a path.
pub data Stat (E : Type 0) : Type 0 where
  present absent : Stat E
  unreadable : E → Stat E

-- What the disk holds after the studio has run: the expected directory, whether files lie outside it,
-- and whether there are any.
pub record Exported (E : Type 0) : Type 0 where
  pub expected : Stat E
  pub outside : Outcome E Bool
  pub files : Outcome E Bool

abbrev pub fall_back : {E : Type 0} → Exported E → Bytes → Bytes → Outcome E (Bytes × Bool)
fall_back disk expected_path output_dir = disk.files >>= λ has_files.
    ok (if has_files then (output_dir, true) else (expected_path, false))

unfoldable pub resolve_post_process_export_path :
    {E : Type 0} → Exported E → Bytes → Bytes → Outcome E (Bytes × Bool)
unfolding equal
resolve_post_process_export_path disk expected_path output_dir =
    if equal expected_path [] then fall_back disk expected_path output_dir else elim disk.expected [
      | present ↦ disk.outside >>= λ has_outside.
          ok (if has_outside then (output_dir, true) else (expected_path, false))
      | absent ↦ fall_back disk expected_path output_dir
      | unreadable e ↦ err e
    ]
