-- ===== src/Pci.antt =====
-- pci.c: accesses to PCI configuration space, and the search for a capability. The machine is a
-- parameter: a state H, with the port, memory-mapped and MSR accesses of include/boot.h on it. A
-- register number is a natural number, as every caller passes one.
pub mod Locate
use secure_kernel_loader.Base.{
  ℕ, zero, suc, ◌+◌, ◌-◌, ◌*◌, ◌/◌, ◌^◌, Bool, true, false, ◌||◌, Option, none, some, ltb, ◌==◌,
  ◌/=◌, if◌then◌else◌, bit_and, bit_or, u8, u16, u32, ◌<<<◌, ◌>>>◌,
}
use secure_kernel_loader.Tpm.Device.{Errno, success, einval}

-- A write takes the value and then the port or address, as the C functions do.
pub record Io (H : Type 0) : Type 0 where
  pub outb : H → ℕ → ℕ → H
  pub outw : H → ℕ → ℕ → H
  pub outl : H → ℕ → ℕ → H
  pub inb : H → ℕ → H × ℕ
  pub inw : H → ℕ → H × ℕ
  pub inl : H → ℕ → H × ℕ
  pub iowrite8 : H → ℕ → ℕ → H
  pub iowrite16 : H → ℕ → ℕ → H
  pub iowrite32 : H → ℕ → ℕ → H
  pub ioread8 : H → ℕ → H × ℕ
  pub ioread16 : H → ℕ → H × ℕ
  pub ioread32 : H → ℕ → H × ℕ
  pub rdmsr : H → ℕ → ℕ

-- What pci_read and pci_write point to; the base is mmio_base_addr.
pub data Access : Type 0 where
  conf1 : Access
  mmio : ℕ → Access

abbrev pub pci_devfn : ℕ → ℕ → ℕ
pci_devfn slot func = bit_or (bit_and slot 0x1f <<< 3) (bit_and func 0x07)

abbrev pub pci_cap_id : ℕ → ℕ
pci_cap_id c = bit_and c 0xFF

abbrev pub pci_cap_ptr : ℕ → ℕ
pci_cap_ptr c = bit_and (c >>> 8) 0xFF

abbrev pub invalid_cap : ℕ → Bool
invalid_cap c = (c == 0) || ((c == 0xFFFFFFFF) || (c == 0xFF))

abbrev pub pci_conf1_address : ℕ → ℕ → ℕ → ℕ
pci_conf1_address bus devfn reg =
    bit_or
      (bit_or (bit_or (bit_or 0x80000000 (bit_and reg 0xF00 <<< 16)) (bus <<< 16)) (devfn <<< 8))
      (bit_and reg 0xFC)

-- The sum has 64 bits, the base 32 of them; `~1UL` and `~3UL` cut the low bits off.
abbrev pub pci_mmio_address : ℕ → ℕ → ℕ → ℕ → ℕ
pci_mmio_address base bus devfn reg = bit_or (bit_or (bit_or base (bus <<< 20)) (devfn <<< 12)) reg

abbrev pub out_of_range : ℕ → ℕ → ℕ → ℕ → Bool
out_of_range seg bus devfn reg = (seg /= 0) || (ltb 255 bus || (ltb 255 devfn || ltb 4095 reg))

module _ {H : Type 0} (io : Io H) where
  -- `value` is what *value held: a length that no case names leaves it.
  unfoldable pub pci_conf1_read : H → ℕ → ℕ → ℕ → ℕ → ℕ → ℕ → H × (ℕ × Errno)
  pci_conf1_read h seg bus devfn reg len value =
      let k = io.outl h (pci_conf1_address bus devfn reg) 0xCF8 in
      let (k1, v1) = io.inb k (0xCFC + bit_and reg 3) in
      let (k2, v2) = io.inw k (0xCFC + bit_and reg 2) in
      let (k3, v3) = io.inw k 0xCFC in
      let (k4, v4) = io.inl k 0xCFC in
      if out_of_range seg bus devfn reg
      then (h, (0xFFFFFFFF, einval))
      else if len == 1
      then (k1, (v1, success))
      else if len == 2
      then (k2, (v2, success))
      else if len == 3
      then (k3, (v3, success))
      else if len == 4
      then (k4, (v4, success))
      else (k, (value, success))

  unfoldable pub pci_conf1_write : H → ℕ → ℕ → ℕ → ℕ → ℕ → ℕ → H × Errno
  pci_conf1_write h seg bus devfn reg len value =
      let k = io.outl h (pci_conf1_address bus devfn reg) 0xCF8 in
      if out_of_range seg bus devfn reg
      then (h, einval)
      else if len == 1
      then (io.outb k (u8 value) (0xCFC + bit_and reg 3), success)
      else if len == 2
      then (io.outw k (u16 value) (0xCFC + bit_and reg 2), success)
      else if len == 3
      then (io.outw k (u16 value) 0xCFC, success)
      else if len == 4
      then (io.outl k (u32 value) 0xCFC, success)
      else (k, success)

  unfoldable pub pci_mmio_read : ℕ → H → ℕ → ℕ → ℕ → ℕ → ℕ → ℕ → H × (ℕ × Errno)
  pci_mmio_read base h seg bus devfn reg len value =
      let addr = pci_mmio_address base bus devfn reg in
      let (k1, v1) = io.ioread8 h addr in
      let (k2, v2) = io.ioread16 h (addr / 2 * 2) in
      let (k3, v3) = io.ioread16 h (addr / 4 * 4) in
      let (k4, v4) = io.ioread32 h (addr / 4 * 4) in
      if out_of_range seg bus devfn reg
      then (h, (0xFFFFFFFF, einval))
      else if len == 1
      then (k1, (v1, success))
      else if len == 2
      then (k2, (v2, success))
      else if len == 3
      then (k3, (v3, success))
      else if len == 4
      then (k4, (v4, success))
      else (h, (value, success))

  unfoldable pub pci_mmio_write : ℕ → H → ℕ → ℕ → ℕ → ℕ → ℕ → ℕ → H × Errno
  pci_mmio_write base h seg bus devfn reg len value =
      let addr = pci_mmio_address base bus devfn reg in
      if out_of_range seg bus devfn reg
      then (h, einval)
      else if len == 1
      then (io.iowrite8 h (u8 value) addr, success)
      else if len == 2
      then (io.iowrite16 h (u16 value) (addr / 2 * 2), success)
      else if len == 3
      then (io.iowrite16 h (u16 value) (addr / 4 * 4), success)
      else if len == 4
      then (io.iowrite32 h (u32 value) (addr / 4 * 4), success)
      else (h, success)

  -- Calls through the two function pointers.
  unfoldable pub pci_read : Access → H → ℕ → ℕ → ℕ → ℕ → ℕ → ℕ → H × (ℕ × Errno)
  pci_read conf1 = pci_conf1_read
  pci_read (mmio base) = pci_mmio_read base

  unfoldable pub pci_write : Access → H → ℕ → ℕ → ℕ → ℕ → ℕ → ℕ → H × Errno
  pci_write conf1 = pci_conf1_write
  pci_write (mmio base) = pci_mmio_write base

  unfoldable pub pci_init : H → Access
  pci_init h =
      let eax = io.rdmsr h 0xc0010058 in
      if bit_and eax 1 /= 0 then mmio (bit_and eax 0xfff00000) else conf1

  -- The loop of pci_locate, with the value that it is left with.
  unfoldable pub cap_loop : ℕ → Access → H → ℕ → ℕ → ℕ → Option (H × ℕ)
  cap_loop zero access h bus devfn ptr = none
  cap_loop (suc fuel) access h bus devfn ptr =
      let (k, r) = pci_read access h 0 bus devfn ptr 4 0 in
      let rest = cap_loop fuel access k bus devfn (pci_cap_ptr r.0) in
      if ptr == 0 then some (h, 0) else if pci_cap_id r.0 == 0x0F then some (k, ptr) else rest

  abbrev located : Option (H × ℕ) → Option (H × ℕ)
  located none = none
  located (some (h, ptr)) = some (h, if invalid_cap ptr then 0 else ptr)

  unfoldable pub pci_locate : ℕ → Access → H → ℕ → ℕ → Option (H × ℕ)
  unfolding cap_loop
  pci_locate fuel access h bus devfn =
      let (k, r) = pci_read access h 0 bus devfn 0x34 4 0 in
      let found = located (cap_loop fuel access k bus devfn (bit_and r.0 0xFF)) in
      if invalid_cap r.0 then some (k, 0) else found
