-- ===== src/Pci/Walks.antt =====
-- The walk ends and finds the supported functions that are present, in the order of their addresses.
use waifu_os.Prelude.{
  ℕ, zero, suc, ◌+◌, ◌*◌, ◌≡◌, refl, sym, ◌∙◌, inl, inr, Option, some, List, [], ◌∷◌, ◌++◌, arith,
  if◌then◌else◌, Bool-cases, u64, add64, ◌<<<◌, ◌>>=◌,
}
use mathlib.Core.Path.{subst}
use mathlib.Core.List.{append_assoc, append-nil}
use waifu_os.ArrayList.{add}
use waifu_os.ArrayList.Contents.{contents, IsRoomy, contents-add}
use waifu_os.Pci.{
  PciDeviceHeader, DeviceMapper, is_absent, is_supported, PciState, map_at, note_function,
  enumerate_function, for_each, enumerate_device, enumerate_bus,
}

-- What a range of a walk finds, round by round.
unfoldable pub collect : ℕ → ℕ → (ℕ → List ℕ) → List ℕ
collect zero first found = []
collect (suc rounds) first found = found first ++ collect rounds (first + 1) found

module _ (config : ℕ → PciDeviceHeader) where
  -- The functions that the walk is to find.
  abbrev pub function_found : ℕ → ℕ → List ℕ
  function_found device_address func =
      let address = add64 device_address (u64 (func <<< 12)) in
      if is_absent (config address)
      then []
      else if is_supported (config address)
      then address ∷ []
      else []

  abbrev pub device_found : ℕ → ℕ → List ℕ
  device_found bus_address dev =
      let address = add64 bus_address (u64 (dev <<< 15)) in
      if is_absent (config address) then [] else collect 8 0 (function_found address)

  abbrev pub bus_found : ℕ → ℕ → List ℕ
  bus_found base_address bus =
      let address = add64 base_address (u64 (bus <<< 20)) in
      if is_absent (config address) then [] else collect 32 0 (device_found address)

module _ (mapper : DeviceMapper) (config : ℕ → PciDeviceHeader) where
  pub record Ready (n : ℕ) (s : PciState mapper config) : Type 0 where
    pub roomy : IsRoomy s.supported_functions
    pub can : mapper.CanMap s.pages n

  -- The walk has come to an end and has found these functions.
  pub record Walked (s : PciState mapper config) (found : List ℕ) (n : ℕ)
      (r : PciState mapper config) : Type 0 where
    pub ready : Ready n r
    pub list : contents r.supported_functions ≡ contents s.supported_functions ++ found

  abbrev pub Ends : Option (PciState mapper config) → PciState mapper config → List ℕ → ℕ → Type 0
  Ends o s found n = (r : PciState mapper config) × (o ≡ some r) × Walked s found n r

  map_at-Ends :
      (s : PciState mapper config) (address n : ℕ)
      → Ready (suc n) s
      → Ends (map_at mapper config s address) s [] n
  map_at-Ends s address n ready =
      let m = mapper.map_device_lem s.pages n address ready.can in
      (
        record s { pages = m.0 },
        rw (m.1) refl,
        record {
          ready = record { roomy = ready.roomy; can = m.2 };
          list = sym (append-nil (contents s.supported_functions));
        },
      )

  spend : (s : PciState mapper config) (k n : ℕ) → Ready (k + n) s → Ready n s
  spend s zero n ready = let e : 0 + n ≡ n = omega arith in subst (λ (x : ℕ). Ready x s) e ready
  spend s (suc k) n ready =
      let e : suc k + n ≡ suc (k + n) = omega arith in
      let one : Ready (suc (k + n)) s = subst (λ (x : ℕ). Ready x s) e ready in
      spend s k n (record { roomy = one.roomy; can = mapper.can_less s.pages (k + n) one.can })

  -- A loop whose rounds all end.
  for_each-Ends :
      (cost : ℕ) (body : ℕ → PciState mapper config → Option (PciState mapper config))
      (found : ℕ → List ℕ)
      → ((i n : ℕ) (s : PciState mapper config)
          → Ready (cost + n) s
          → Ends (body i s) s (found i) n)
      → (rounds first n : ℕ) (s : PciState mapper config) → Ready (rounds * cost + n) s
      → Ends (for_each mapper config rounds first body s) s (collect rounds first found) n
  unfolding for_each collect
  for_each-Ends cost body found each zero first n s ready =
      let e : 0 * cost + n ≡ n = omega arith in
      (
        s,
        refl,
        record {
          ready = subst (λ (x : ℕ). Ready x s) e ready;
          list = sym (append-nil (contents s.supported_functions));
        },
      )
  for_each-Ends cost body found each (suc rounds) first n s ready =
      let e : suc rounds * cost + n ≡ cost + (rounds * cost + n) = omega arith in
      let one = each first (rounds * cost + n) s (subst (λ (x : ℕ). Ready x s) e ready) in
      let rest = for_each-Ends cost body found each rounds (first + 1) n one.0 one.2.ready in
      (
        rest.0,
        rw (one.1) rest.1,
        record { ready = rest.2.ready; list = rest.2.list ∙ rw (one.2.list, append_assoc) refl },
      )

  enumerate_function-Ends :
      (device_address func n : ℕ) (s : PciState mapper config)
      → Ready (1 + n) s
      → Ends
          (enumerate_function mapper config device_address func s)
          s
          (function_found config device_address func)
          n
  unfolding enumerate_function note_function
  enumerate_function-Ends device_address func n s ready =
      let address = add64 device_address (u64 (func <<< 12)) in
      let e : 1 + n ≡ suc n = omega arith in
      let m = map_at-Ends s address n (subst (λ (x : ℕ). Ready x s) e ready) in
      let s' = m.0 in
      elim (Bool-cases (is_absent (config address))) [
        | inl absent ↦
            (s', rw (m.1, absent) refl, record { ready = m.2.ready; list = rw (absent) m.2.list })
        | inr here ↦ elim (Bool-cases (is_supported (config address))) [
          | inr other ↦ (
            s',
            rw (m.1, here, other) refl,
            record { ready = m.2.ready; list = rw (here, other) m.2.list },
          )
          | inl known ↦
              let added = contents-add 0 s'.supported_functions address m.2.ready.roomy in
              (
                record s' { supported_functions = add 0 s'.supported_functions address },
                rw (m.1, here, known) refl,
                record {
                  ready = record { roomy = added.1; can = m.2.ready.can };
                  list =
                      rw
                        (
                          here,
                          known,
                          added.0,
                          m.2.list,
                          append-nil (contents s.supported_functions),
                        )
                        refl;
                },
              )
        ]
      ]

  -- A level of the walk: map the header, and go on if something is there.
  level-Ends :
      (address cost n : ℕ) (inner : PciState mapper config → Option (PciState mapper config))
      (found : List ℕ) (s : PciState mapper config)
      → ((s' : PciState mapper config) → Ready (cost + n) s' → Ends (inner s') s' found n)
      → Ready (suc (cost + n)) s
      → Ends
          (map_at mapper config s address
            >>= (λ s'. if is_absent (config address) then some s' else inner s'))
          s
          (if is_absent (config address) then [] else found)
          n
  level-Ends address cost n inner found s each ready =
      let m = map_at-Ends s address (cost + n) ready in
      elim (Bool-cases (is_absent (config address))) [
        | inl absent ↦ (
          m.0,
          rw (m.1, absent) refl,
          record { ready = spend m.0 cost n m.2.ready; list = rw (absent) m.2.list },
        )
        | inr here ↦
            let rest = each m.0 m.2.ready in
            (
              rest.0,
              rw (m.1, here) rest.1,
              record {
                ready = rest.2.ready;
                list =
                    rw (here) (
                      rest.2.list
                      ∙ rw (m.2.list, append-nil (contents s.supported_functions)) refl);
              },
            )
      ]

  enumerate_device-Ends :
      (bus_address dev n : ℕ) (s : PciState mapper config)
      → Ready (9 + n) s
      → Ends
          (enumerate_device mapper config bus_address dev s)
          s
          (device_found config bus_address dev)
          n
  unfolding enumerate_device
  enumerate_device-Ends bus_address dev n s ready =
      let address = add64 bus_address (u64 (dev <<< 15)) in
      let e : 9 + n ≡ suc (8 * 1 + n) = omega arith in
      level-Ends address (8 * 1) n
        (for_each mapper config 8 0 (enumerate_function mapper config address))
        (collect 8 0 (function_found config address)) s
        (λ s' r.
          for_each-Ends 1 (enumerate_function mapper config address) (function_found config address)
            (enumerate_function-Ends address) 8 0 n s' r)
        (subst (λ (x : ℕ). Ready x s) e ready)

  -- `EnumerateBus` ends if 289 pages can be mapped and the list of supported functions has
  -- room for its items: that list then has at its end the functions of the bus that are
  -- present and supported, in the order of the walk; a device or bus whose first function is
  -- absent is left out.
  pub enumerate_bus-Ends :
      (base_address bus n : ℕ) (s : PciState mapper config)
      → Ready (289 + n) s
      → Ends
          (enumerate_bus mapper config base_address bus s)
          s
          (bus_found config base_address bus)
          n
  unfolding enumerate_bus
  enumerate_bus-Ends base_address bus n s ready =
      let address = add64 base_address (u64 (bus <<< 20)) in
      let e : 289 + n ≡ suc (32 * 9 + n) = omega arith in
      level-Ends address (32 * 9) n
        (for_each mapper config 32 0 (enumerate_device mapper config address))
        (collect 32 0 (device_found config address)) s
        (λ s' r.
          for_each-Ends 9 (enumerate_device mapper config address) (device_found config address)
            (enumerate_device-Ends address) 32 0 n s' r)
        (subst (λ (x : ℕ). Ready x s) e ready)
