-- ===== src/Catalog/Tests.antt =====
-- The listing of a directory that is given with its last `/`.
use arwill.Prelude.{◌≡◌, refl, some, codes, All}
use arwill.Text.{text_equals}
use arwill.Catalog.{boot_entries, list, Usable, list-Usable}

boot_listed : list (codes "Arwill") (codes "1") (codes "/boot/") ≡ some boot_entries
unfolding list text_equals
boot_listed = refl

list-Usable_example : All (Usable (codes "Arwill") (codes "1") (codes "/boot/")) boot_entries
list-Usable_example =
    list-Usable (codes "Arwill") (codes "1") (codes "/boot/") boot_entries boot_listed
