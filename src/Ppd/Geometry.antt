-- ===== src/Ppd/Geometry.antt =====
-- grage-ppd/app/src/core/ppd-utils.c: sectors by their number and by cylinder. The numbers are
-- those that a C `int` holds and that are not negative. `per_cylinder` is
-- `cantidadSectoresPorCilindro`; with 0 of them the C divisions trap.
use grage.Prelude.{ℕ, ◌+◌, ◌-◌, ◌*◌, ◌/◌, ◌<◌, ◌≡◌, arith}

-- ppd_utils_get_cilinder_from_sector
unfoldable pub cylinder_from_sector : ℕ → ℕ → ℕ
cylinder_from_sector per_cylinder sector = sector / per_cylinder

-- ppd_utils_get_sectorofcilinder_from_sector
unfoldable pub sector_of_cylinder_from_sector : ℕ → ℕ → ℕ
sector_of_cylinder_from_sector per_cylinder sector = sector - (sector / per_cylinder) * per_cylinder

-- ppd_utils_get_sector_from_sectorofcilinder
unfoldable pub sector_from_sector_of_cylinder : ℕ → ℕ → ℕ → ℕ
sector_from_sector_of_cylinder per_cylinder sector cylinder = (cylinder * per_cylinder) + sector

-- A sector's number is the one of its place, and its place in the cylinder is in range.
pub sector_from_place :
    (c sector : ℕ)
    → 0 < c
    → (sector_from_sector_of_cylinder c
          (sector_of_cylinder_from_sector c sector)
          (cylinder_from_sector c sector)
        ≡ sector)
      × (sector_of_cylinder_from_sector c sector < c)
unfolding sector_from_sector_of_cylinder sector_of_cylinder_from_sector cylinder_from_sector
sector_from_place c sector h = grind arith

-- A place's cylinder and sector are those of its number.
pub place_from_sector :
    (c sector cylinder : ℕ)
    → sector < c
    → (cylinder_from_sector c (sector_from_sector_of_cylinder c sector cylinder) ≡ cylinder)
      × (sector_of_cylinder_from_sector c (sector_from_sector_of_cylinder c sector cylinder)
          ≡ sector)
unfolding sector_from_sector_of_cylinder sector_of_cylinder_from_sector cylinder_from_sector
place_from_sector c sector cylinder h = grind arith
