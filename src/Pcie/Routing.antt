-- ===== src/Pcie/Routing.antt =====
-- The legacy interrupts of a device: pal_pcie_get_legacy_irq_map of pal_pcie.c.
use linux_acs.Prelude.{
  ℕ, ◌≡◌, ◌≤◌, ◌<◌, refl, sym, ◌∙◌, not, Bool-cases, inl, inr, List, [], ◌∷◌, ◌++◌, append-nil,
  append_assoc, ltb, leb, ◌==◌, if◌then◌else◌, length, length-append, arith,
}

-- A `struct acpi_pci_routing_table`, up to the one of length 0: the first byte of `source`.
pub record Route : Type 0 where
  pub source : ℕ
  pub pin : ℕ
  pub source_index : ℕ

-- PERIPHERAL_IRQ_MAP: for each pin the entries of irq_list that irq_count names.
abbrev pub IrqMap : Type 0
IrqMap = ℕ → List ℕ

abbrev pub add_irq : IrqMap → ℕ → ℕ → IrqMap
add_irq m pin irq p = if p == pin then m p ++ irq ∷ [] else m p

-- What the kernel has for the device: the status of pci_get_domain_bus_and_slot and of the bridge,
-- of ACPI_HANDLE, and of acpi_get_irq_routing_table with the routes.
pub data Prt : Type 0 where
  no_device no_handle no_table : Prt
  routes : (entries : List Route) → Prt

-- `max_cnt` is MAX_IRQ_CNT, of a header that is not here.
module _ (max_cnt : ℕ) where
  -- The loop over the routes: the status and the map.
  unfoldable pub route_loop : List Route → IrqMap → ℕ × IrqMap
  route_loop [] m = (0, m)
  route_loop (r ∷ rs) m =
      let rest = route_loop rs (add_irq m r.pin r.source_index) in
      if not (r.source == 0)
      then (4, m)
      else (if ltb 3 r.pin
          then (5, m)
          else (if leb max_cnt (length (m r.pin)) then (6, m) else rest))

  unfoldable pub get_legacy_irq_map : Prt → IrqMap → ℕ × IrqMap
  unfolding route_loop
  get_legacy_irq_map no_device m = (1, m)
  get_legacy_irq_map no_handle m = (2, m)
  get_legacy_irq_map no_table m = (3, m)
  get_legacy_irq_map (routes rs) m = route_loop rs m

  -- The interrupts that routes have for a pin.
  abbrev pub irqs_of : ℕ → List Route → List ℕ
  irqs_of p [] = []
  irqs_of p (r ∷ rs) = if p == r.pin then r.source_index ∷ irqs_of p rs else irqs_of p rs

  abbrev pub IsBounded : IrqMap → Type 0
  IsBounded m = (p : ℕ) → length (m p) ≤ max_cnt

  add_irq-irqs_of :
      (m : IrqMap) (r : Route) (rs : List Route) (p : ℕ)
      → add_irq m r.pin r.source_index p ++ irqs_of p rs ≡ m p ++ irqs_of p (r ∷ rs)
  add_irq-irqs_of m r rs p = elim (Bool-cases (p == r.pin)) [
    | inl e ↦ rw e (append_assoc (m p) (r.source_index ∷ []) (irqs_of p rs))
    | inr e ↦ rw e refl
  ]

  add_irq-IsBounded :
      (m : IrqMap) (pin irq : ℕ)
      → IsBounded m
      → length (m pin) < max_cnt
      → IsBounded (add_irq m pin irq)
  add_irq-IsBounded m pin irq h room p = ground (arith, h p, length-append (m pin) (irq ∷ []))

  -- The loop with status 0 and the other ends of it.
  pub route_loop-irqs_of :
      (rs : List Route) (m : IrqMap)
      → IsBounded m
      → IsBounded (route_loop rs m).1
        × ((route_loop rs m).0 ≡ 0 → (p : ℕ) → (route_loop rs m).1 p ≡ m p ++ irqs_of p rs)
  unfolding route_loop
  route_loop-irqs_of [] m h = (h, λ e p. sym (append-nil (m p)))
  route_loop-irqs_of (r ∷ rs) m h = elim (Bool-cases (not (r.source == 0))) [
    | inl a ↦ rw a (h, λ e. cc)
    | inr a ↦ elim (Bool-cases (ltb 3 r.pin)) [
      | inl b ↦ rw (a, b) (h, λ e. cc)
      | inr b ↦ elim (Bool-cases (leb max_cnt (length (m r.pin)))) [
        | inl c ↦ rw (a, b, c) (h, λ e. cc)
        | inr c ↦
            let room : length (m r.pin) < max_cnt = ground (arith, c) in
            let (bounded, all) =
              route_loop-irqs_of rs (add_irq m r.pin r.source_index)
                (add_irq-IsBounded m r.pin r.source_index h room) in
            rw (a, b, c) (bounded, λ e p. all e p ∙ add_irq-irqs_of m r rs p)
      ]
    ]
  ]

  -- Whatever the kernel has for the device, no pin gets more interrupts than its array holds; and
  -- where the status is 0 there was a routing table, and each pin has the interrupts it had before,
  -- followed by those that the table routes to it, in order.
  pub get_legacy_irq_map-irqs_of :
      (prt : Prt) (m : IrqMap)
      → IsBounded m
      → IsBounded (get_legacy_irq_map prt m).1
        × ((get_legacy_irq_map prt m).0 ≡ 0
            → (rs : List Route) × (prt ≡ routes rs)
              × ((p : ℕ) → (get_legacy_irq_map prt m).1 p ≡ m p ++ irqs_of p rs))
  unfolding get_legacy_irq_map
  get_legacy_irq_map-irqs_of no_device m h = (h, λ e. cc)
  get_legacy_irq_map-irqs_of no_handle m h = (h, λ e. cc)
  get_legacy_irq_map-irqs_of no_table m h = (h, λ e. cc)
  get_legacy_irq_map-irqs_of (routes rs) m h =
      let (bounded, all) = route_loop-irqs_of rs m h in (bounded, λ e. (rs, refl, all e))
