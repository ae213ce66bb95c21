-- ===== src/Catalog.antt =====
-- kernel/boot_catalog.c: a file system that cannot be changed, whose directories and files are tables. The
-- project's name and version come from macros that a build may define (include/arwill/identity.h), and are
-- parameters.
mod Tests
use arwill.Prelude.{
  ℕ, ◌+◌, ◌≤◌, ◌<◌, ◌≡◌, refl, subst, ap, sym, ◌∙◌, ◌⊎◌, inl, inr, Bool, true, false, ◌||◌,
  if◌then◌else◌, Bool-cases, Option, none, some, List, [], ◌∷◌, ◌++◌, length, codes, All, arith,
}
use arwill.Text.{text_equals, text_equals_sound}
use arwill.Files.{EntryType, directory, file, ListedEntry, FileType, text, binary}

-- `STATIC_TEXT_SIZE`
abbrev pub static_text_size : List ℕ → ℕ
static_text_size contents = length contents

-- `limine_conf_contents`
abbrev pub limine_conf_contents : List ℕ
limine_conf_contents =
    codes
      "timeout: 0\nquiet: yes\nserial: yes\n\n/Arwill\nprotocol: limine\npath: boot():/boot/kernel.elf\n"

abbrev pub entry : List ℕ → EntryType → ℕ → ListedEntry
entry name type size = record { name = name; type = type; size_bytes = size }

-- `root_entries`, `boot_entries` and `limine_entries`
abbrev pub root_entries : List ListedEntry
root_entries = entry (codes "boot") directory 0 ∷ entry (codes "system") directory 0 ∷ []

abbrev pub boot_entries : List ListedEntry
boot_entries = entry (codes "kernel.elf") file 0 ∷ entry (codes "limine") directory 0 ∷ []

abbrev pub limine_entries : List ListedEntry
limine_entries =
    entry (codes "limine.conf") file (static_text_size limine_conf_contents)
    ∷ entry (codes "limine-bios.sys") file 0
    ∷ []

-- `struct arwill_fs_file` as it is filled in here: the size is a field of its own, and the contents may be
-- null.
pub record StaticFile : Type 0 where
  pub type : FileType
  pub contents : Option (List ℕ)
  pub size_bytes : ℕ

-- `file_for`
abbrev pub file_for : FileType → Option (List ℕ) → ℕ → Option StaticFile
file_for type contents size_bytes =
    some (record { type = type; contents = contents; size_bytes = size_bytes })

module _ (project_name version : List ℕ) where
  -- `system_identity_contents`
  unfoldable pub system_identity_contents : List ℕ
  system_identity_contents =
      codes "name: "
      ++ (project_name
          ++ (codes "\nversion: " ++ (version ++ codes "\narchitecture: x86_64\nplatform: qemu\n")))

  -- `system_entries`
  abbrev pub system_entries : List ListedEntry
  system_entries = entry (codes "identity") file (static_text_size system_identity_contents) ∷ []

  -- `boot_catalog_list`
  unfoldable pub list : List ℕ → Option (List ListedEntry)
  list path =
      if text_equals path (codes "/") || text_equals path []
      then some root_entries
      else if text_equals path (codes "/boot") || text_equals path (codes "/boot/")
      then some boot_entries
      else if text_equals path (codes "/boot/limine") || text_equals path (codes "/boot/limine/")
      then some limine_entries
      else if text_equals path (codes "/system") || text_equals path (codes "/system/")
      then some system_entries
      else none

  -- `boot_catalog_read_file`
  unfoldable pub read_file : List ℕ → Option StaticFile
  read_file path =
      if text_equals path (codes "/boot/kernel.elf")
      then file_for binary none 0
      else if text_equals path (codes "/boot/limine/limine.conf")
      then file_for text (some limine_conf_contents) (static_text_size limine_conf_contents)
      else if text_equals path (codes "/boot/limine/limine-bios.sys")
      then file_for binary none 0
      else if text_equals path (codes "/system/identity")
      then file_for text (some system_identity_contents) (static_text_size system_identity_contents)
      else none

  -- the path of an entry of a directory, which is given with or without its last `/`
  unfoldable pub join : List ℕ → List ℕ → List ℕ
  join [] name = b'/' ∷ name
  join (c ∷ []) name = if text_equals (c ∷ []) (codes "/") then c ∷ name else c ∷ b'/' ∷ name
  join (c ∷ d ∷ path) name = c ∷ join (d ∷ path) name

  -- the bytes that stand behind a file's contents, none where they are null
  abbrev pub bytes_of : StaticFile → List ℕ
  bytes_of f = elim (f.contents) [ none ↦ [] | some bytes ↦ bytes ]

  -- An entry can be used by its path: a directory can be listed, and a file be read; the size that the
  -- listing shows is the one that the file gives, and its contents have as many bytes.
  abbrev pub Usable : List ℕ → ListedEntry → Type 0
  Usable path e = elim (e.type) [
    | directory ↦ (rows : List ListedEntry) × (list (join path e.name) ≡ some rows)
    | file ↦
        (f : StaticFile) × (read_file (join path e.name) ≡ some f)
        × (f.size_bytes ≡ e.size_bytes)
        × (length (bytes_of f) ≡ f.size_bytes)
  ]

  root-Usable : (path : List ℕ) → (path ≡ codes "/") ⊎ (path ≡ []) → All (Usable path) root_entries
  unfolding list join text_equals
  root-Usable path (inl e) =
      subst (λ p. All (Usable p) root_entries) (sym e)
        ((boot_entries, refl), ((system_entries, refl), tt))
  root-Usable path (inr e) =
      subst (λ p. All (Usable p) root_entries) (sym e)
        ((boot_entries, refl), ((system_entries, refl), tt))

  boot-Usable :
      (path : List ℕ)
      → (path ≡ codes "/boot") ⊎ (path ≡ codes "/boot/")
      → All (Usable path) boot_entries
  unfolding list read_file join text_equals
  boot-Usable path (inl e) =
      subst (λ p. All (Usable p) boot_entries) (sym e)
        ((_, refl, refl, refl), ((limine_entries, refl), tt))
  boot-Usable path (inr e) =
      subst (λ p. All (Usable p) boot_entries) (sym e)
        ((_, refl, refl, refl), ((limine_entries, refl), tt))

  limine-Usable :
      (path : List ℕ)
      → (path ≡ codes "/boot/limine") ⊎ (path ≡ codes "/boot/limine/")
      → All (Usable path) limine_entries
  unfolding read_file join text_equals
  limine-Usable path (inl e) =
      subst (λ p. All (Usable p) limine_entries) (sym e)
        ((_, refl, refl, refl), ((_, refl, refl, refl), tt))
  limine-Usable path (inr e) =
      subst (λ p. All (Usable p) limine_entries) (sym e)
        ((_, refl, refl, refl), ((_, refl, refl, refl), tt))

  system-Usable :
      (path : List ℕ)
      → (path ≡ codes "/system") ⊎ (path ≡ codes "/system/")
      → All (Usable path) system_entries
  unfolding read_file join text_equals
  system-Usable path (inl e) =
      subst (λ p. All (Usable p) system_entries) (sym e) ((_, refl, refl, refl), tt)
  system-Usable path (inr e) =
      subst (λ p. All (Usable p) system_entries) (sym e) ((_, refl, refl, refl), tt)

  which :
      (path a b : List ℕ)
      → (text_equals path a || text_equals path b) ≡ true
      → (path ≡ a) ⊎ (path ≡ b)
  which path a b h = elim (Bool-cases (text_equals path a)) [
    | inl this ↦ inl (text_equals_sound path a this)
    | inr other ↦ inr (text_equals_sound path b (ground (arith, h, other)))
  ]

  -- Every entry that a listing shows can be used by the path of the directory and its name: a directory is
  -- listed; a file is read, its own size is the one that the listing shows, and its contents have that many
  -- bytes, a null pointer none.
  pub list-Usable :
      (path : List ℕ) (rows : List ListedEntry) → list path ≡ some rows → All (Usable path) rows
  unfolding list
  list-Usable path rows h = subst rows_usable h listed
    where
      rows_usable : Option (List ListedEntry) → Type 0
      rows_usable o = elim o [ none ↦ Unit | some rows ↦ All (Usable path) rows ]

      listed : rows_usable (list path)
      listed = elim (Bool-cases (text_equals path (codes "/") || text_equals path [])) [
        | inl a ↦ rw a (root-Usable path (which path (codes "/") [] a))
        | inr a ↦
            elim (Bool-cases
              (text_equals path (codes "/boot") || text_equals path (codes "/boot/"))) [
                | inl b ↦
                    rw (a, b) (boot-Usable path (which path (codes "/boot") (codes "/boot/") b))
                | inr b ↦
                    elim (Bool-cases (
                      text_equals path (codes "/boot/limine")
                      || text_equals path (codes "/boot/limine/"))) [
                        | inl c ↦
                            rw (a, b, c)
                              (limine-Usable path
                                (which path (codes "/boot/limine") (codes "/boot/limine/") c))
                        | inr c ↦
                            elim (Bool-cases (
                              text_equals path (codes "/system")
                              || text_equals path (codes "/system/"))) [
                                | inl d ↦
                                    rw (a, b, c, d)
                                      (system-Usable path
                                        (which path (codes "/system") (codes "/system/") d))
                                | inr d ↦ rw (a, b, c, d) tt
                              ]
                      ]
              ]
      ]
