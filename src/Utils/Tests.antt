-- ===== src/Utils/Tests.antt =====
-- Runs and witnesses for the conversions.
use minefield.Prelude.{◌^◌, ◌<◌, ◌≡◌, ◌↔◌, ok, arith, ℤ, pos}
use minefield.Utils.{uint32_to_str, str_to_uint32, int_to_uint32}
use minefield.Utils.Decimal.{str_to_uint32-uint32_to_str}
use minefield.Utils.Bounds.{int_to_uint32_iff}

str_to_uint32-uint32_to_str_example : str_to_uint32 (uint32_to_str 4294967295) ≡ ok 4294967295
str_to_uint32-uint32_to_str_example = str_to_uint32-uint32_to_str 4294967295 (omega arith)

int_to_uint32_iff_example :
    (int_to_uint32 (pos 4294967296) ≡ ok 0)
    ↔ (◌≡◌ {A = ℤ} (pos 4294967296) (pos 0)) × (◌<◌ 0 (2 ^ 32))
int_to_uint32_iff_example = int_to_uint32_iff (pos 4294967296) 0
