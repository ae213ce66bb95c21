-- ===== src/Registry.antt =====
-- kernel/device.c: the registry of devices. The entries in use are the first `count` of the array.
mod Tests
use arwill.Prelude.{
  ℕ, zero, suc, ◌+◌, ◌-◌, ◌≤◌, ◌<◌, ◌≡◌, refl, sym, ap, ◌∙◌, Bool, true, false, ◌||◌, if◌then◌else◌,
  leb, inl, inr, Bool-cases, is_none, Option, none, some, List, [], ◌∷◌, ◌++◌, length, take, map,
  arith,
}
use mathlib.Core.List.{append-nil, append_assoc}
use arwill.Prelude.Lists.{length-append}

-- `enum arwill_device_kind`
pub data DeviceKind : Type 0 where
  console input filesystem block memory power interrupts user_runtime network : DeviceKind

-- `struct arwill_device_entry`
pub record DeviceEntry : Type 0 where
  pub name : List ℕ
  pub kind : DeviceKind
  pub driver : List ℕ
  pub status : List ℕ

abbrev pub registry_capacity : ℕ
registry_capacity = 16

-- `arwill_device_registry_init`
abbrev pub no_devices : List DeviceEntry
no_devices = []

-- `arwill_device_register`; each text may be a null pointer.
unfoldable pub register :
    List DeviceEntry
    → Option (List ℕ)
    → DeviceKind
    → Option (List ℕ)
    → Option (List ℕ)
    → Bool × List DeviceEntry
register entries (some name) kind (some driver) (some status) =
    if leb registry_capacity (length entries) then (false, entries) else (
      true,
      entries ++ record { name = name; kind = kind; driver = driver; status = status } ∷ [],
    )
register entries _ kind _ _ = (false, entries)

-- `arwill_device_kind_name`
unfoldable pub kind_name : DeviceKind → List ℕ
kind_name console = b'c' ∷ b'o' ∷ b'n' ∷ b's' ∷ b'o' ∷ b'l' ∷ b'e' ∷ []
kind_name input = b'i' ∷ b'n' ∷ b'p' ∷ b'u' ∷ b't' ∷ []
kind_name filesystem = b'f' ∷ b'i' ∷ b'l' ∷ b'e' ∷ b's' ∷ b'y' ∷ b's' ∷ b't' ∷ b'e' ∷ b'm' ∷ []
kind_name block = b'b' ∷ b'l' ∷ b'o' ∷ b'c' ∷ b'k' ∷ []
kind_name memory = b'm' ∷ b'e' ∷ b'm' ∷ b'o' ∷ b'r' ∷ b'y' ∷ []
kind_name power = b'p' ∷ b'o' ∷ b'w' ∷ b'e' ∷ b'r' ∷ []
kind_name interrupts = b'i' ∷ b'n' ∷ b't' ∷ b'e' ∷ b'r' ∷ b'r' ∷ b'u' ∷ b'p' ∷ b't' ∷ b's' ∷ []
kind_name user_runtime = b'u' ∷ b's' ∷ b'e' ∷ b'r' ∷ []
kind_name network = b'n' ∷ b'e' ∷ b't' ∷ b'w' ∷ b'o' ∷ b'r' ∷ b'k' ∷ []

-- the registrations of a list of devices, one after the other, with what each call returns
abbrev pub register_all : List DeviceEntry → List DeviceEntry → List Bool × List DeviceEntry
register_all entries [] = ([], entries)
register_all entries (d ∷ ds) =
    let (taken, more) = register entries (some d.name) d.kind (some d.driver) (some d.status) in
    let (results, all) = register_all more ds in (taken ∷ results, all)

-- as many successes as there is room for, then refusals
abbrev pub answers : ℕ → List DeviceEntry → List Bool
answers room [] = []
answers zero (d ∷ ds) = false ∷ answers zero ds
answers (suc room) (d ∷ ds) = true ∷ answers room ds

take_none : (ds : List DeviceEntry) (n : ℕ) → n ≡ 0 → take n ds ≡ []
take_none ds zero h = refl
take_none ds (suc n) h = absurd (omega arith)

one_more :
    (entries : List DeviceEntry) (d : DeviceEntry) (ds : List DeviceEntry) (n m : ℕ)
    → n ≡ suc m
    → (entries ++ d ∷ []) ++ take m ds ≡ entries ++ take n (d ∷ ds)
one_more entries d ds zero m h = absurd (omega arith)
one_more entries d ds (suc n) m h =
    append_assoc entries (d ∷ []) (take m ds) ∙ ap (λ k. entries ++ d ∷ take k ds) (omega arith)

take-nil : (n : ℕ) → take {A = DeviceEntry} n [] ≡ []
take-nil zero = refl
take-nil (suc n) = refl

answers_none :
    (d : DeviceEntry) (ds : List DeviceEntry) (n : ℕ)
    → n ≡ 0
    → answers n (d ∷ ds) ≡ false ∷ answers n ds
answers_none d ds zero h = refl
answers_none d ds (suc n) h = absurd (omega arith)

answers_one_more :
    (d : DeviceEntry) (ds : List DeviceEntry) (n m : ℕ)
    → n ≡ suc m
    → answers n (d ∷ ds) ≡ true ∷ answers m ds
answers_one_more d ds zero m h = absurd (omega arith)
answers_one_more d ds (suc n) m h = ap (λ k. true ∷ answers k ds) (omega arith)

-- Of devices, each with a name, a driver and a status, that are registered in turn, as many as there is room
-- for up to 16 in all are taken and reported so, and stand in their order behind those there were, which are
-- 16 at most; the calls for the others report failure and add nothing.
pub register_all_lem :
    (ds entries : List DeviceEntry)
    → length entries ≤ registry_capacity
    → ((register_all entries ds).0 ≡ answers (registry_capacity - length entries) ds)
      × ((register_all entries ds).1 ≡ entries ++ take (registry_capacity - length entries) ds)
unfolding register
register_all_lem [] entries fits = (
  refl,
  sym (ap (λ l. entries ++ l) (take-nil (registry_capacity - length entries)) ∙ append-nil entries),
)
register_all_lem (d ∷ ds) entries fits =
    elim (Bool-cases (leb registry_capacity (length entries))) [
      | inl full ↦ rw full (
          let none_left : registry_capacity - length entries ≡ 0 = ground arith in
          let (results, all) = register_all_lem ds entries fits in
          (
            ap (λ l. false ∷ l) results ∙ sym (answers_none d ds _ none_left),
            all
                ∙ ap (λ l. entries ++ l)
                    (take_none ds _ none_left ∙ sym (take_none (d ∷ ds) _ none_left)),
          ))
      | inr room ↦ rw room (
          let less : length entries < registry_capacity = ground arith in
          let size = length-append entries (d ∷ []) in
          let next : registry_capacity - length entries
              ≡ suc (registry_capacity - length (entries ++ d ∷ [])) =
            omega (arith, size) in
          let (results, all) = register_all_lem ds (entries ++ d ∷ []) (omega (arith, size)) in
          (
            ap (λ l. true ∷ l) results ∙ sym (answers_one_more d ds _ _ next),
            all
                ∙ one_more entries d ds (registry_capacity - length entries)
                    (registry_capacity - length (entries ++ d ∷ [])) next,
          ))
    ]
