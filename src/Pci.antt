-- ===== src/Pci.antt =====
-- Kernel/src/IO/PCI.cpp: the walk over the configuration space. What stands at an address there is
-- a function `config`; mapping and locking the pages of the devices is an interface.
pub mod Walks
pub mod Drivers
mod Tests
use waifu_os.Prelude.{
  ℕ, zero, suc, ◌+◌, ◌-◌, ◌*◌, ◌/◌, ◌%◌, ◌^◌, ◌≤◌, ◌<◌, bit_and, bit_or, min, max, ◌≡◌, refl, sym,
  ap, ap₂, ◌∙◌, fun_ext, ◌≢◌, ◌↔◌, ◌⊎◌, inl, inr, Bool, true, false, not, ◌&&◌, ◌||◌, Option, none,
  some, List, [], ◌∷◌, ◌++◌, map, arith, ltb, leb, ◌==◌, if◌then◌else◌, ltb→lt, lt→ltb, leb→le,
  ==_iff, tests, Bool-cases, Option-cases, length, get_elem?, get_or, take, drop, replicate,
  length-append, length-set, length-replicate, All, u8, u16, u32, u64, add64, sub64, mul64, ◌<<<◌,
  ◌>>>◌, page_size, ◌>>=◌, >>=_assoc,
}
use waifu_os.ArrayList.{ArrayList, new_list, add}

-- `PCIDeviceHeader`
pub record PciDeviceHeader : Type 0 where
  pub vendor_id : ℕ
  pub device_id : ℕ
  pub command : ℕ
  pub status : ℕ
  pub revision_id : ℕ
  pub prog_if : ℕ
  pub subclass : ℕ
  pub device_class : ℕ
  pub cache_line_size : ℕ
  pub latency_timer : ℕ
  pub header_type : ℕ
  pub bist : ℕ

-- `DeviceConfig`
pub record DeviceConfig : Type 0 where
  pub base_address : ℕ
  pub start_bus : ℕ
  pub end_bus : ℕ

-- `MapMemory(address, address); LockPage(address)`, and how many more pages it will map.
pub record DeviceMapper : Type 1 where
  pub State : Type 0
  pub map_device : State → ℕ → Option State
  pub CanMap : State → ℕ → Type 0
  pub can_less : (s : State) (n : ℕ) → CanMap s (suc n) → CanMap s n
  pub map_device_lem :
      (s : State) (n address : ℕ)
      → CanMap s (suc n)
      → (s' : State) × (map_device s address ≡ some s') × CanMap s' n

-- `!pci->DeviceID || pci->DeviceID == 0xFFFF`
abbrev pub is_absent : PciDeviceHeader → Bool
is_absent pci = (pci.device_id == 0) || (pci.device_id == 0xFFFF)

-- The cases of the `switch` of `EnumerateFunction` that call `SupportedFunctions.Add`.
unfoldable pub is_supported : PciDeviceHeader → Bool
is_supported pci =
    ((pci.device_class == 0x01) && ((pci.subclass == 0x06) && (pci.prog_if == 0x01)))
    || ((pci.device_class == 0x0C) && ((pci.subclass == 0x03) && (pci.prog_if == 0x30)))

-- `sig` of `InitializePCIDevices`
abbrev pub signature : PciDeviceHeader → ℕ
signature pci = bit_or (bit_or (pci.device_class <<< 16) (pci.subclass <<< 8)) (pci.prog_if <<< 0)

pub data Driver : Type 0 where
  ahci_driver xhci_driver : Driver

-- The driver that `InitializePCIDevices` makes.
unfoldable pub driver_for : PciDeviceHeader → Option Driver
driver_for pci =
    if signature pci == 0x010601
    then some ahci_driver
    else if signature pci == 0x0C0330
    then some xhci_driver
    else none

module _ (mapper : DeviceMapper) (config : ℕ → PciDeviceHeader) where
  pub record PciState : Type 0 where
    pub pages : mapper.State
    pub supported_functions : ArrayList ℕ

  abbrev pub map_at : PciState → ℕ → Option PciState
  map_at s address = do pages ← mapper.map_device s.pages address; some (record s { pages = pages })

  -- The end of `EnumerateFunction`.
  unfoldable pub note_function : PciState → ℕ → PciState
  note_function s address =
      if is_absent (config address)
      then s
      else if is_supported (config address)
      then record s { supported_functions = add 0 s.supported_functions address }
      else s

  -- `EnumerateFunction`
  unfoldable pub enumerate_function : ℕ → ℕ → PciState → Option PciState
  enumerate_function device_address func s = do
    let func_address = add64 device_address (u64 (func <<< 12))
    s' ← map_at s func_address
    some (note_function s' func_address)

  -- A counted loop whose rounds may fail.
  unfoldable pub for_each : ℕ → ℕ → (ℕ → PciState → Option PciState) → PciState → Option PciState
  for_each zero first body s = some s
  for_each (suc rounds) first body s = body first s >>= for_each rounds (first + 1) body

  -- `EnumerateDevice`
  unfoldable pub enumerate_device : ℕ → ℕ → PciState → Option PciState
  enumerate_device bus_address dev s = do
    let device_address = add64 bus_address (u64 (dev <<< 15))
    s' ← map_at s device_address
    if is_absent (config device_address)
        then some s'
        else for_each 8 0 (enumerate_function device_address) s'

  -- `EnumerateBus`
  unfoldable pub enumerate_bus : ℕ → ℕ → PciState → Option PciState
  enumerate_bus base_address bus s = do
    let bus_address = add64 base_address (u64 (bus <<< 20))
    s' ← map_at s bus_address
    if is_absent (config bus_address)
        then some s'
        else for_each 32 0 (enumerate_device bus_address) s'

  -- The loop of `EnumeratePCI` over the entries of the table; `cfg->EndBus` itself is left out.
  unfoldable pub enumerate_entries : List DeviceConfig → PciState → Option PciState
  enumerate_entries [] s = some s
  enumerate_entries (cfg ∷ entries) s =
      for_each (cfg.end_bus - cfg.start_bus) cfg.start_bus (enumerate_bus cfg.base_address) s
      >>= enumerate_entries entries

  -- The first call of `EnumeratePCI`, which makes the list.
  unfoldable pub enumerate_pci : List DeviceConfig → PciState → Option PciState
  enumerate_pci entries s =
      enumerate_entries entries (record s { supported_functions = new_list 0 })
