-- ===== src/Arfs/Listing.antt =====
-- What `arfs_list` of kernel/arfs.c gives.
use arwill.Prelude.{
  ℕ, Bool, ◌+◌, ◌≤◌, ◌≡◌, ◌≢◌, ◌⊎◌, refl, sym, ap, ◌∙◌, inl, inr, true, false, not, leb, Bool-cases,
  Option, none, some, List, [], ◌∷◌, length, get_or, codes, All, arith,
}
use arwill.Text.{text_equals, text_equals_sound, text_equals_refl}
use arwill.Files.{EntryType, ListedEntry}
use arwill.Arfs.Types.{EntryKind, directory, file, is_file, Entry, Context, max_entries, find_entry}
use arwill.Arfs.Paths.{is_child_of}
use arwill.Arfs.Below.{IsBelow, is_child_of-IsBelow, IsBelow-is_child_of}
use arwill.Arfs.Entries.{AreApart, Pairwise}
use arwill.Arfs.Placement.{IsValid}
use arwill.Arfs.Storage.{listed, list_children, is_listable, list}

-- an entry whose path starts with `/`
abbrev pub IsAbsolute : Entry → Type 0
IsAbsolute e = get_or e.path 0 0 ≡ b'/'

abbrev pub IsTyped : EntryKind → EntryType → Type 0
IsTyped directory t = t ≡ EntryType.directory
IsTyped file t = t ≡ EntryType.file

-- The row of a listing shows an entry.
abbrev pub Shows : Entry → ListedEntry → Type 0
Shows e row = (row.name ≡ e.name) × (row.size_bytes ≡ e.size_bytes) × IsTyped e.kind row.type

-- The rows show just the entries directly below a directory, in their order.
pub data Lists (path : List ℕ) : List Entry → List ListedEntry → Type 0 where
  nothing : Lists path [] []
  skips :
      (e : Entry) (es : List Entry) (rows : List ListedEntry)
      → ¬ (IsBelow path e.path)
      → Lists path es rows
      → Lists path (e ∷ es) rows
  shows :
      (e : Entry) (es : List Entry) (row : ListedEntry) (rows : List ListedEntry)
      → IsBelow path e.path
      → Shows e row
      → Lists path es rows
      → Lists path (e ∷ es) (row ∷ rows)

-- some entry is a directory of that path
abbrev pub HasDirectory : List Entry → List ℕ → Type 0
HasDirectory [] path = ⊥
HasDirectory (e ∷ es) path = ((e.path ≡ path) × (e.kind ≡ directory)) ⊎ HasDirectory es path

listed-Shows : (e : Entry) → Shows e (listed e)
listed-Shows e = go e.kind refl
  where
    go : (k : EntryKind) → e.kind ≡ k → Shows e (listed e)
    go directory h = (refl, refl, rw h refl)
    go file h = (refl, refl, rw h refl)

list_children-Lists :
    (es : List Entry) (path : List ℕ) (count : ℕ)
    → count + length es ≤ max_entries
    → All IsAbsolute es
    → (rows : List ListedEntry) × (list_children es path count ≡ some rows) × Lists path es rows
unfolding list_children
list_children-Lists [] path count few absolute = ([], refl, nothing)
list_children-Lists (e ∷ es) path count few (here, rest) =
    elim (Bool-cases (is_child_of e.path path)) [
      | inl child ↦
          let room : leb 24 count ≡ false = ground arith in
          let (rows, made, rows_lem) = list_children-Lists es path (count + 1) (omega arith) rest in
          (
            listed e ∷ rows,
            rw (child, room, made) refl,
            shows e es (listed e) rows (is_child_of-IsBelow e.path path here child) (listed-Shows e)
                rows_lem,
          )
      | inr other ↦
          let (rows, made, rows_lem) = list_children-Lists es path count (omega arith) rest in
          (
            rows,
            rw (other, made) refl,
            skips e es rows (λ b. ground (arith, other, IsBelow-is_child_of e.path path b))
                rows_lem,
          )
    ]

-- the test on what the search for a path gives
abbrev is_directory : Option Entry → Bool
is_directory o = elim o [ none ↦ false | some e ↦ not (is_file e.kind) ]

kind_of : (e : Entry) → not (is_file e.kind) ≡ true → e.kind ≡ directory
kind_of e h = go e.kind h
  where
    go : (k : EntryKind) → not (is_file k) ≡ true → k ≡ directory
    go directory h = refl
    go file h = absurd (ground arith)

found-HasDirectory :
    (es : List Entry) (path : List ℕ)
    → is_directory (find_entry es path) ≡ true
    → HasDirectory es path
unfolding find_entry
found-HasDirectory [] path h = absurd (ground arith)
found-HasDirectory (e ∷ es) path h = elim (Bool-cases (text_equals e.path path)) [
  | inl same ↦ inl (text_equals_sound e.path path same, kind_of e (rw same at h))
  | inr other ↦ inr (found-HasDirectory es path (rw other at h))
]

other_path :
    (e : Entry) (es : List Entry) (path : List ℕ)
    → All (AreApart e) es
    → HasDirectory es path
    → e.path ≢ path
other_path e [] path apart has = absurd has
other_path e (f ∷ es) path ((ne, _), apart) (inl (same, _)) = λ h. ne (h ∙ sym same)
other_path e (f ∷ es) path (_, apart) (inr later) = other_path e es path apart later

HasDirectory-found :
    (es : List Entry) (path : List ℕ)
    → Pairwise es
    → HasDirectory es path
    → is_directory (find_entry es path) ≡ true
unfolding find_entry
HasDirectory-found [] path apart has = absurd has
HasDirectory-found (e ∷ es) path (apart, rest) (inl (same, kind)) =
    let here : text_equals e.path path ≡ true =
      ap (λ l. text_equals l path) same ∙ text_equals_refl path in
    rw (here, kind) refl
HasDirectory-found (e ∷ es) path (apart, rest) (inr later) =
    elim (Bool-cases (text_equals e.path path)) [
      | inl same ↦ absurd (other_path e es path apart later (text_equals_sound e.path path same))
      | inr other ↦ rw other (HasDirectory-found es path rest later)
    ]

-- Whether a path can be listed: it is the root, or some entry is a directory of that path.
listable_cases :
    (es : List Entry) (path : List ℕ)
    → Pairwise es
    → (((path ≡ codes "/") ⊎ HasDirectory es path) × (is_listable es path ≡ true))
      ⊎ (¬ ((path ≡ codes "/") ⊎ HasDirectory es path) × (is_listable es path ≡ false))
unfolding is_listable
listable_cases es path apart = elim (Bool-cases (text_equals path (codes "/"))) [
  | inl root ↦ inl (inl (text_equals_sound path (codes "/") root), rw root refl)
  | inr other ↦ elim (Bool-cases (is_directory (find_entry es path))) [
    | inl found ↦ inl (inr (found-HasDirectory es path found), rw other found)
    | inr missed ↦ inr (
      (λ listable. elim listable [
        | inl root ↦
            ground
              (arith, other, ap (λ l. text_equals l (codes "/")) root, text_equals_refl (codes "/"))
        | inr has ↦ ground (arith, missed, HasDirectory-found es path apart has)
      ]),
      rw other missed,
    )
  ]
]

-- In a sound file system whose entries have paths that start with `/`, the listing of `/` and of the path of
-- a directory succeeds: it has a row with the name, the size and the type of each entry whose path is that
-- of the directory and one part more, in their order, and no other row. Of any other path it fails.
pub list_lem :
    (sectors : ℕ) (c : Context) (path : List ℕ)
    → IsValid sectors c
    → All IsAbsolute c.entries
    → (((path ≡ codes "/") ⊎ HasDirectory c.entries path)
        × ((rows : List ListedEntry) × (list c path ≡ some rows) × Lists path c.entries rows))
      ⊎ (¬ ((path ≡ codes "/") ⊎ HasDirectory c.entries path) × (list c path ≡ none))
unfolding list
list_lem sectors c path v absolute = elim (listable_cases c.entries path v.apart) [
  | inl (there, listable) ↦
      let few = v.few in
      let (rows, made, shown) =
        list_children-Lists c.entries path 0 (omega (arith, few)) absolute in
      inl (there, (rows, rw (listable, made) refl, shown))
  | inr (missing, refused) ↦ inr (missing, rw refused refl)
]
