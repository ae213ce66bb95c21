-- ===== src/Arfs/Manifest.antt =====
-- The manifest that kernel/arfs.c writes: a line for each entry, in a buffer of two sectors.
use arwill.Prelude.{
  ℕ, ◌+◌, ◌-◌, Bool, false, if◌then◌else◌, leb, u32, Option, none, some, List, [], ◌∷◌, ◌++◌,
  length, replicate, codes,
}
use arwill.Text.Decimal.{decimal64}
use arwill.Files.{FileType, text, binary}
use arwill.Block.{Device, block_write}
use arwill.Arfs.Types.{EntryKind, directory, file, Entry, Context, manifest_capacity}

-- `write_text`: what the buffer holds up to the offset, or `none` where the text does not fit.
unfoldable pub write_text : List ℕ → List ℕ → Option (List ℕ)
write_text buffer [] = some buffer
write_text buffer (c ∷ rest) =
    let more = write_text (buffer ++ c ∷ []) rest in
    if leb manifest_capacity (length buffer + 1) then none else more

-- `write_decimal`, likewise
unfoldable pub write_decimal : List ℕ → ℕ → Option (List ℕ)
write_decimal buffer value =
    let digits = decimal64 value in
    if leb manifest_capacity (length buffer + length digits) then none else some (buffer ++ digits)

-- the next call in a chain of `||`, where those before may have failed
abbrev pub then_text : Option (List ℕ) → List ℕ → Option (List ℕ)
then_text none added = none
then_text (some buffer) added = write_text buffer added

abbrev pub then_decimal : Option (List ℕ) → ℕ → Option (List ℕ)
then_decimal none value = none
then_decimal (some buffer) value = write_decimal buffer value

abbrev pub kind_text : EntryKind → List ℕ
kind_text directory = codes "D "
kind_text file = codes "F "

abbrev pub type_text : FileType → List ℕ
type_text text = codes " text "
type_text binary = codes " binary "

-- what only a file's line holds
abbrev pub write_details : EntryKind → Entry → Option (List ℕ) → Option (List ℕ)
write_details directory e line = line
write_details file e line =
    then_decimal
      (then_text (then_decimal (then_text line (type_text e.file_type)) e.data_lba) (codes " "))
      e.size_bytes

-- One round of the loop of `persist_manifest`.
unfoldable pub write_entry : List ℕ → Entry → Option (List ℕ)
write_entry buffer e =
    let line = then_text (write_text buffer (kind_text e.kind)) e.path in
    then_text (write_details e.kind e line) (codes "\n")

-- That loop.
unfoldable pub write_entries : List ℕ → List Entry → Option (List ℕ)
write_entries buffer [] = some buffer
write_entries buffer (e ∷ es) = elim (write_entry buffer e) [
  | none ↦ none
  | some more ↦ write_entries more es
]

-- the buffer: what was written, and zeros behind it
abbrev pub padded : ℕ → List ℕ → List ℕ
padded capacity bytes = bytes ++ replicate (capacity - length bytes) 0

-- `persist_manifest`
unfoldable pub persist_manifest : {D : Type 0} → Device D → Context → D → Bool × D
persist_manifest dev c hw = elim (write_entries [] c.entries) [
  | none ↦ (false, hw)
  | some bytes ↦
      block_write dev hw c.manifest_lba (u32 c.manifest_sectors) (padded manifest_capacity bytes)
        manifest_capacity
]
