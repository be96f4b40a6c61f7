-- ===== src/Pci/Search.antt =====
-- `scan` and `find_e1000` against the list of the devices in the order of their addresses.
use sovelma_os.Prelude.{
  ℕ, zero, suc, ◌+◌, ◌≡◌, refl, sym, ◌∙◌, ap, List, [], ◌∷◌, ◌++◌, Option, none, some, bit_and,
  ◌==◌, if◌then◌else◌, arith, Bool-cases, Option-cases, inl, inr,
}
use sovelma_os.Pci.{
  PciSpace, PciAddress, PciDevice, is_e1000, read_device, read_config_u8, reg_header_type, visit,
  scan_functions, scan_device, scan_devices, scan_buses, scan, keep_first, find_e1000,
}

abbrev pub fold : {A : Type 0} → (A → PciDevice → A) → A → List PciDevice → A
fold f a [] = a
fold f a (d ∷ ds) = fold f (f a d) ds

fold-append :
    {A : Type 0} (f : A → PciDevice → A) (a : A) (ds es : List PciDevice)
    → fold f a (ds ++ es) ≡ fold f (fold f a ds) es
fold-append f a [] es = refl
fold-append f a (d ∷ ds) es = fold-append f (f a d) ds es

-- The first e1000 controller of a list.
unfoldable pub first_e1000 : List PciDevice → Option PciDevice
unfolding is_e1000
first_e1000 [] = none
first_e1000 (d ∷ ds) = if is_e1000 d then some d else first_e1000 ds

module _ (hw : PciSpace) where
  open hw use {Space}

  abbrev present : Option PciDevice → List PciDevice
  present none = []
  present (some d) = d ∷ []

  -- The devices at the functions from `function` on, `left` of them.
  unfoldable pub functions : (bus device function left : ℕ) → Space → List PciDevice
  functions bus device function zero s = []
  functions bus device function (suc left) s =
      present (read_device hw (record { bus = bus; device = device; function = function }) s)
      ++ functions bus device (function + 1) left s

  -- Function 0, if it is there; and functions 1 to 7, if its header says that there are more.
  unfoldable pub at_device : (bus device : ℕ) → Space → List PciDevice
  unfolding functions
  at_device bus device s =
      let addr : PciAddress = record { bus = bus; device = device; function = 0 } in
      elim (read_device hw addr s) [
        | none ↦ []
        | some d ↦
            if bit_and (read_config_u8 hw addr reg_header_type s) 0x80 == 0
            then d ∷ []
            else d ∷ functions bus device 1 7 s
      ]

  unfoldable pub at_bus : (bus device left : ℕ) → Space → List PciDevice
  unfolding at_device
  at_bus bus device zero s = []
  at_bus bus device (suc left) s = at_device bus device s ++ at_bus bus (device + 1) left s

  unfoldable pub at_buses : (bus left : ℕ) → Space → List PciDevice
  unfolding at_bus
  at_buses bus zero s = []
  at_buses bus (suc left) s = at_bus bus 0 32 s ++ at_buses (bus + 1) left s

  abbrev pub devices : Space → List PciDevice
  devices s = at_buses 0 256 s

  module _ {A : Type 0} (f : A → PciDevice → A) (s : Space) where
    scan_functions-fold :
        (b d g left : ℕ) (a : A)
        → scan_functions hw f b d g left s a ≡ fold f a (functions b d g left s)
    unfolding scan_functions functions visit
    scan_functions-fold b d g zero a = refl
    scan_functions-fold b d g (suc left) a =
        elim (Option-cases (read_device hw (record { bus = b; device = d; function = g }) s)) [
          | inl p ↦ rw (p, visit, functions) (scan_functions-fold b d (g + 1) left a)
          | inr (x, p) ↦ rw (p, visit, functions) (scan_functions-fold b d (g + 1) left (f a x))
        ]

    scan_device-fold : (b d : ℕ) (a : A) → scan_device hw f b d s a ≡ fold f a (at_device b d s)
    unfolding scan_device at_device
    scan_device-fold b d a =
        let addr : PciAddress = record { bus = b; device = d; function = 0 } in
        elim (Option-cases (read_device hw addr s)) [
          | inl p ↦ rw (p, scan_device, at_device) refl
          | inr (x, p) ↦
              elim (Bool-cases (bit_and (read_config_u8 hw addr reg_header_type s) 0x80 == 0)) [
                | inl q ↦ rw (p, scan_device, at_device) (rw q refl)
                | inr q ↦
                    rw (p, scan_device, at_device) (rw q (scan_functions-fold b d 1 7 (f a x)))
              ]
        ]

    scan_devices-fold :
        (b d left : ℕ) (a : A) → scan_devices hw f b d left s a ≡ fold f a (at_bus b d left s)
    unfolding scan_devices at_bus
    scan_devices-fold b d zero a = refl
    scan_devices-fold b d (suc left) a =
        scan_devices-fold b (d + 1) left _
        ∙ (ap (λ x. fold f x (at_bus b (d + 1) left s)) (scan_device-fold b d a)
            ∙ sym (fold-append f a (at_device b d s) (at_bus b (d + 1) left s)))

    scan_buses-fold :
        (b left : ℕ) (a : A) → scan_buses hw f b left s a ≡ fold f a (at_buses b left s)
    unfolding scan_buses at_buses
    scan_buses-fold b zero a = refl
    scan_buses-fold b (suc left) a =
        scan_buses-fold (b + 1) left _
        ∙ (ap (λ x. fold f x (at_buses (b + 1) left s)) (scan_devices-fold b 0 32 a)
            ∙ sym (fold-append f a (at_bus b 0 32 s) (at_buses (b + 1) left s)))

  fold-keep_first :
      (ds : List PciDevice)
      → (fold (keep_first hw) none ds ≡ first_e1000 ds)
        × ((d : PciDevice) → fold (keep_first hw) (some d) ds ≡ some d)
  unfolding keep_first first_e1000
  fold-keep_first [] = (refl, λ d. refl)
  fold-keep_first (x ∷ ds) =
      let (none_yet, kept) = fold-keep_first ds in
      (
        elim (Bool-cases (is_e1000 x)) [
          | inl q ↦ ground (arith, q, kept x)
          | inr q ↦ ground (arith, q, none_yet)
        ],
        λ d. kept d,
      )

  -- A scan calls back for exactly the devices that answer at some address, in the order of buses,
  -- devices and functions, where functions after the first are asked only of multi-function
  -- devices; so the search finds the first e1000 controller of that list, if there is one.
  pub find_e1000_lem :
      (s : Space)
      → ((A : Type 0) (f : A → PciDevice → A) (a : A) → scan hw f s a ≡ fold f a (devices s))
        × (find_e1000 hw s ≡ first_e1000 (devices s))
  unfolding scan find_e1000
  find_e1000_lem s = (
    (λ A f a. scan_buses-fold f s 0 256 a),
    scan_buses-fold (keep_first hw) s 0 256 none ∙ (fold-keep_first (devices s)).0,
  )
