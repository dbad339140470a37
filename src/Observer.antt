-- ===== src/Observer.antt =====
-- The enumerations of include/efimon/observer-enums.hpp, and the capabilities and the base part of
-- the readings that every observer keeps (include/efimon/observer.hpp, readings.hpp).
use efimon.Prelude.{ℕ, ◌^◌}

pub data ObserverType : Type 0 where
  none_type cpu ram io network vram gpu power interval cpu_instructions psu all : ObserverType

-- Each type but `NONE` is one bit; `ALL` is the sign bit of an `int`, here its `uint` pattern.
unfoldable pub type_bits : ObserverType → ℕ
type_bits none_type = 0
type_bits cpu = 2 ^ 0
type_bits ram = 2 ^ 1
type_bits io = 2 ^ 2
type_bits network = 2 ^ 3
type_bits vram = 2 ^ 4
type_bits gpu = 2 ^ 5
type_bits power = 2 ^ 6
type_bits interval = 2 ^ 7
type_bits cpu_instructions = 2 ^ 8
type_bits psu = 2 ^ 9
type_bits all = 2 ^ 31

pub data ObserverScope : Type 0 where
  process system : ObserverScope
