-- ===== src/Pci/Drivers.antt =====
-- The functions that the walk keeps are those that get a driver.
use waifu_os.Prelude.{◌+◌, ◌*◌, ◌^◌, ◌<◌, ◌≡◌, refl, Bool, true, false, Option, none, some, arith}
use waifu_os.Prelude.Bits.{bit_or_high}
use waifu_os.Pci.{PciDeviceHeader, is_supported, signature, Driver, driver_for}

-- The codes of a device are bytes.
pub record IsCoded (pci : PciDeviceHeader) : Type 0 where
  pub class_lt : pci.device_class < 256
  pub subclass_lt : pci.subclass < 256
  pub prog_if_lt : pci.prog_if < 256

signature_value :
    (pci : PciDeviceHeader)
    → IsCoded pci
    → signature pci ≡ (pci.device_class * 256 + pci.subclass) * 256 + pci.prog_if
signature_value pci coded =
    let c = pci.device_class in
    let b = pci.subclass in
    let place : c * 2 ^ 16 + b * 2 ^ 8 ≡ (c * 256 + b) * 2 ^ 8 = omega arith in
    let last : pci.prog_if * 2 ^ 0 ≡ pci.prog_if = omega arith in
    rw
      (
        bit_or_high 16 c (b * 2 ^ 8) (omega (arith, coded.subclass_lt)),
        place,
        last,
        bit_or_high 8 (c * 256 + b) pci.prog_if coded.prog_if_lt,
      )
      refl

abbrev pub is_some : Option Driver → Bool
is_some none = false
is_some (some d) = true

-- For codes that are bytes, `EnumerateFunction` keeps exactly the functions for which
-- `InitializePCIDevices` has a driver.
pub is_supported-driver_for :
    (pci : PciDeviceHeader) → IsCoded pci → is_supported pci ≡ is_some (driver_for pci)
unfolding is_supported driver_for
is_supported-driver_for pci coded =
    rw (signature_value pci coded)
      (ground (arith, coded.class_lt, coded.subclass_lt, coded.prog_if_lt))
