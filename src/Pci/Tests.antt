-- ===== src/Pci/Tests.antt =====
-- A bus with one device, which has an AHCI controller as its second function.
use waifu_os.Prelude.{ℕ, ◌+◌, ◌≡◌, refl, some, [], ◌∷◌, arith, ◌==◌, if◌then◌else◌}
use waifu_os.ArrayList.{ArrayList}
use waifu_os.Pci.{PciDeviceHeader, DeviceMapper, PciState, is_supported, driver_for, enumerate_bus}
use waifu_os.Pci.Walks.{Ready, Ends, bus_found, enumerate_bus-Ends}
use waifu_os.Pci.Drivers.{IsCoded}

abbrev mapper : DeviceMapper
mapper = record {
  State = ℕ;
  map_device = λ s address. some (s + 1);
  CanMap = λ s n. Unit;
  can_less = λ s n can. tt;
  map_device_lem = λ s n address can. (s + 1, refl, tt);
}

abbrev device : ℕ → ℕ → ℕ → ℕ → PciDeviceHeader
device id code sub prog = record {
  vendor_id = 0x8086;
  device_id = id;
  command = 0;
  status = 0;
  revision_id = 0;
  prog_if = prog;
  subclass = sub;
  device_class = code;
  cache_line_size = 0;
  latency_timer = 0;
  header_type = 0;
  bist = 0;
}

abbrev config : ℕ → PciDeviceHeader
config address =
    if address == 0xE000_0000
    then device 0x29C0 6 0 0
    else if address == 0xE000_1000
    then device 0x2922 1 6 1
    else device 0xFFFF 0xFF 0xFF 0xFF

abbrev nothing : ArrayList ℕ
nothing = record { array = λ i. 0; array_size = 5; count = 0 }

abbrev before : PciState mapper config
before = record { pages = 0; supported_functions = nothing }

found_functions : bus_found config 0xE000_0000 0 ≡ 0xE000_1000 ∷ []
unfolding waifu_os.Pci.Walks.collect is_supported
found_functions = refl

enumerate_bus-Ends_example :
    Ends mapper config
      (enumerate_bus mapper config 0xE000_0000 0 before)
      before
      (bus_found config 0xE000_0000 0)
      0
enumerate_bus-Ends_example =
    enumerate_bus-Ends mapper config 0xE000_0000 0 0 before
      (record { roomy = omega arith; can = tt })

ahci-IsCoded : IsCoded (device 0x2922 1 6 1)
ahci-IsCoded = record {
  class_lt = omega arith;
  subclass_lt = omega arith;
  prog_if_lt = omega arith;
}
