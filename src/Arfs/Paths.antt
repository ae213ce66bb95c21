-- ===== src/Arfs/Paths.antt =====
-- The paths of kernel/arfs.c: which are valid, the parent of one, the name that it ends in, and which
-- lie directly below another.
use arwill.Prelude.{
  ℕ, ◌+◌, ◌-◌, Bool, true, false, not, ◌&&◌, ◌||◌, if◌then◌else◌, ◌==◌, ltb, leb, Option, none,
  some, List, [], ◌∷◌, length, take, drop, get_or, codes,
}
use arwill.Text.{text_equals, starts_with}
use arwill.Arfs.Types.{is_file, Entry, find_entry, max_path_length, max_name_length}

-- `copy_token`: the text that the destination of `capacity` bytes holds then, or `none` for failure.
unfoldable pub copy_token : ℕ → List ℕ → Option (List ℕ)
copy_token capacity source =
    if capacity == 0 || leb capacity (length source) then none else some source

-- The loops that look for the last `/`: `index` is that of the first byte of the rest, `found` the
-- place found so far.
unfoldable pub last_slash : List ℕ → ℕ → ℕ → ℕ
last_slash [] index found = found
last_slash (c ∷ rest) index found = last_slash rest (index + 1) (if c == b'/' then index else found)

-- `derive_name`; `before` is what the destination holds, which stays where the name is too long.
unfoldable pub derive_name : List ℕ → List ℕ → List ℕ
derive_name path before =
    let slash = last_slash path 0 0 in
    let name = if leb (length path) (slash + 1) then codes "/" else drop (slash + 1) path in
    elim (copy_token max_name_length name) [ none ↦ before | some copied ↦ copied ]

-- The loop of `path_is_valid`, behind the byte `before`, in a segment with so many bytes so far.
unfoldable pub segments_are_valid : List ℕ → ℕ → ℕ → Bool
segments_are_valid [] before segment = ltb 0 segment && ltb segment max_name_length
segments_are_valid (c ∷ rest) before segment =
    let later = segments_are_valid rest c (if c == b'/' then 0 else segment + 1) in
    if c == b' ' || (c == b'/' && before == b'/')
    then false
    else if c == b'/' && (segment == 0 || leb max_name_length segment)
    then false
    else later

-- `path_is_valid`
unfoldable pub path_is_valid : List ℕ → Bool
path_is_valid path =
    let size = length path in
    if ltb size 2
      || (leb max_path_length size
          || (not (get_or path 0 0 == b'/') || get_or path (size - 1) 0 == b'/'))
    then false
    else segments_are_valid (drop 1 path) b'/' 0

-- `parent_directory_exists`
unfoldable pub parent_directory_exists : List Entry → List ℕ → Bool
parent_directory_exists es path =
    let slash = last_slash (drop 1 path) 1 0 in
    if slash == 0 then true else elim (copy_token max_path_length (take slash path)) [
      | none ↦ false
      | some parent ↦ elim (find_entry es parent) [ none ↦ false | some e ↦ not (is_file e.kind) ]
    ]

unfoldable pub has_slash : List ℕ → Bool
has_slash [] = false
has_slash (c ∷ rest) = c == b'/' || has_slash rest

-- The tests of `entry_is_child_of` on the tail: it is not empty and holds no `/`.
unfoldable pub is_one_segment : List ℕ → Bool
is_one_segment [] = false
is_one_segment (c ∷ rest) = not (has_slash (c ∷ rest))

-- `entry_is_child_of`, of an entry whose path is not empty
unfoldable pub is_child_of : List ℕ → List ℕ → Bool
unfolding is_one_segment
is_child_of entry path =
    if text_equals path (codes "/")
    then is_one_segment (drop 1 entry)
    else if not (starts_with entry path) || not (get_or entry (length path) 0 == b'/')
    then false
    else is_one_segment (drop (length path + 1) entry)
