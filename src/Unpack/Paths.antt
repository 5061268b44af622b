-- ===== src/Unpack/Paths.antt =====
-- The names under which results are packed: `sanitizeResultRelativePath`, `sanitizeResultPathPart` and
-- `safeName` of internal/unpack/unpacker.go, with Go's `path.Clean`, `strings.Split` and `Join`. A path
-- is the list of its code points; on the systems that the client runs on, `filepath.ToSlash` changes
-- nothing.
pub mod Safe
use moe_asset_updater_client.Base.{
  ℕ, zero, suc, ◌+◌, Bool, true, false, not, ◌&&◌, ◌||◌, List, [], ◌∷◌, ◌++◌, map, reverse, ltb,
  leb, ◌==◌, if◌then◌else◌, Bytes, codes, equal, has_prefix,
}
use moe_asset_updater_client.Base.Outcome.{Outcome, ok, err, panic, ◌>>=◌}

abbrev pub Runes : Type 0
Runes = List ℕ

-- The code point of `/`.
abbrev pub slash : ℕ
slash = b'/'

abbrev pub onto_first : ℕ → List Runes → List Runes
onto_first c [] = (c ∷ []) ∷ []
onto_first c (p ∷ ps) = (c ∷ p) ∷ ps

-- `strings.Split(s, "/")` and `strings.Join(parts, "/")`.
unfoldable pub split_path : Runes → List Runes
split_path [] = [] ∷ []
split_path (c ∷ cs) =
    let rest = split_path cs in if c == slash then [] ∷ rest else onto_first c rest

unfoldable pub join_path : List Runes → Runes
join_path [] = []
join_path (p ∷ []) = p
join_path (p ∷ q ∷ ps) = p ++ slash ∷ join_path (q ∷ ps)

-- The elements that `path.Clean` keeps, the last one first.
unfoldable pub clean_parts : Bool → List Runes → List Runes → List Runes
unfolding equal
clean_parts rooted [] kept = kept
clean_parts rooted (p ∷ ps) [] =
    if equal p [] || equal p (codes ".") || (rooted && equal p (codes ".."))
    then clean_parts rooted ps []
    else clean_parts rooted ps (p ∷ [])
clean_parts rooted (p ∷ ps) (k ∷ kept) =
    if equal p [] || equal p (codes ".")
    then clean_parts rooted ps (k ∷ kept)
    else if equal p (codes "..") && not (equal k (codes ".."))
    then clean_parts rooted ps kept
    else clean_parts rooted ps (p ∷ k ∷ kept)

unfoldable pub clean : Runes → Runes
unfolding clean_parts split_path join_path has_prefix
clean p =
    let rooted = has_prefix p (codes "/") in
    let joined = join_path (reverse (clean_parts rooted (split_path p) [])) in
    if rooted then slash ∷ joined else if equal joined [] then codes "." else joined

unfoldable pub sanitize_rune : ℕ → ℕ
sanitize_rune r =
    if (r == b':') || (r == b'\\') then b'_' else if ltb r 0x20 || (r == 0x7F) then b'_' else r

unfoldable pub sanitize_result_path_part : Runes → Runes
unfolding sanitize_rune
sanitize_result_path_part part = map sanitize_rune part

pub data PathError : Type 0 where
  unsafe_path unsafe_component duplicate_path : PathError

-- The loop over the parts.
unfoldable pub sanitize_parts : List Runes → Outcome PathError (List Runes)
unfolding sanitize_result_path_part equal
sanitize_parts [] = ok []
sanitize_parts (part ∷ parts) =
    let rest = sanitize_parts parts in
    let name = sanitize_result_path_part part in
    if equal name [] || equal name (codes ".") || equal name (codes "..")
    then err unsafe_component
    else rest >>= λ names. ok (name ∷ names)

unfoldable pub sanitize_result_relative_path : Runes → Outcome PathError Runes
unfolding clean split_path join_path sanitize_parts equal has_prefix
sanitize_result_relative_path rel =
    let cleaned = clean rel in
    if equal cleaned (codes ".")
      || has_prefix cleaned (codes "../")
      || equal cleaned (codes "..")
      || has_prefix cleaned (codes "/")
    then err unsafe_path
    else sanitize_parts (split_path cleaned) >>= λ names. ok (join_path names)

abbrev pub is_safe_rune : ℕ → Bool
is_safe_rune r =
    (leb b'a' r && leb r b'z')
    || (leb b'A' r && leb r b'Z')
    || (leb b'0' r && leb r b'9')
    || (r == b'-')
    || (r == b'_')
    || (r == b'.')

unfoldable pub safe_name : Runes → Runes
safe_name s = map (λ r. if is_safe_rune r then r else b'_') s
