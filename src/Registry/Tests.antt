-- ===== src/Registry/Tests.antt =====
-- Two devices in an empty registry.
use arwill.Prelude.{◌≡◌, true, List, [], ◌∷◌, arith}
use arwill.Registry.{DeviceEntry, console, block, no_devices, register_all, register_all_lem}

abbrev two_devices : List DeviceEntry
two_devices =
    record { name = b't' ∷ []; kind = console; driver = b's' ∷ []; status = b'r' ∷ [] }
    ∷ record { name = b'd' ∷ []; kind = block; driver = b'a' ∷ []; status = b'r' ∷ [] }
    ∷ []

register_all_lem_example :
    ((register_all no_devices two_devices).0 ≡ true ∷ true ∷ [])
    × ((register_all no_devices two_devices).1 ≡ two_devices)
register_all_lem_example = register_all_lem two_devices no_devices (omega arith)
