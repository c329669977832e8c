-- ===== src/Tests/Machine.antt =====
-- The theorems on PCI and the IOMMU at a machine with one function, whose state is the latched address.
use secure_kernel_loader.Base.{
  ℕ, ◌≡◌, ◌≢◌, refl, none, some, [], ◌∷◌, arith, ◌==◌, if◌then◌else◌, Bool-cases, inl, inr,
}
use secure_kernel_loader.Base.Memory.{store}
use secure_kernel_loader.Pci.{
  Io, conf1, pci_read, pci_conf1_read, pci_conf1_address, out_of_range, pci_locate, pci_cap_id,
  pci_cap_ptr,
}
use secure_kernel_loader.Pci.Locate.{Reads, pci_locate-find, pci_locate_cycle}
use secure_kernel_loader.Iommu.{Mmio, Tables, Command, Machine, send_command, command_bytes}
use secure_kernel_loader.Iommu.Commands.{send_command_lem}

-- Configuration space by its address: `words` is what a read of the data port gives.
abbrev machine : (ℕ → ℕ) → Io ℕ
machine words = record {
  outb = λ h v p. h;
  outw = λ h v p. h;
  outl = λ h v p. v;
  inb = λ h p. (h, 0);
  inw = λ h p. (h, 0);
  inl = λ h p. (h, words h);
  iowrite8 = λ h v a. h;
  iowrite16 = λ h v a. h;
  iowrite32 = λ h v a. h;
  ioread8 = λ h a. (h, 0);
  ioread16 = λ h a. (h, 0);
  ioread32 = λ h a. (h, 0);
  rdmsr = λ h i. 0;
}

abbrev space : (ℕ → ℕ) → ℕ → ℕ
space words reg = if out_of_range 0 0 2 reg then 0xFFFFFFFF else words (pci_conf1_address 0 2 reg)

machine-Reads : (words : ℕ → ℕ) → Reads (machine words) conf1 0 2 (space words)
unfolding pci_read pci_conf1_read
machine-Reads words h reg = elim (Bool-cases (out_of_range 0 0 2 reg)) [
  | inl out ↦ rw out refl
  | inr fine ↦ rw fine refl
]

-- Capabilities 0x05 at 0x40 and 0x0F at 0x60.
abbrev two_caps : ℕ → ℕ
two_caps a =
    if a == 0x80000234
    then 0x40
    else if a == 0x80000240
    then 0x6005
    else if a == 0x80000260
    then 0x0F
    else 0

pci_locate-find_example : (k : ℕ) × (pci_locate (machine two_caps) 8 conf1 0 0 2 ≡ some (k, 0x60))
pci_locate-find_example =
    pci_locate-find (machine two_caps) conf1 0 2 (space two_caps) (machine-Reads two_caps) 8
      (0x40 ∷ 0x60 ∷ []) 0 (omega arith) (refl, omega arith, (refl, omega arith, refl))

-- A capability that names itself as the next.
abbrev own_tail : ℕ → ℕ
own_tail a = if a == 0x80000234 then 0x40 else if a == 0x80000240 then 0x4005 else 0

abbrev AtOwn : ℕ → Type 0
AtOwn x = x ≡ 0x40

own_step :
    (x : ℕ)
    → AtOwn x
    → (x ≢ 0) × (pci_cap_id (space own_tail x) ≢ 0x0F) × AtOwn (pci_cap_ptr (space own_tail x))
own_step x e = rw e (omega arith, omega arith, refl)

pci_locate_cycle_example : pci_locate (machine own_tail) 1000 conf1 0 0 2 ≡ none
pci_locate_cycle_example =
    pci_locate_cycle (machine own_tail) conf1 0 2 (space own_tail) AtOwn (machine-Reads own_tail)
      own_step refl refl 1000 0

-- The command buffer 64 bytes behind the start of a page, and the tail set as the code sets it.
abbrev tail_only : Mmio ℕ
tail_only = record { get = λ h base i. h; put = λ h base i v. v }

abbrev tables : Tables
tables = record { device_table = 0x2000; command_buf = 0x5040; event_log = 0x4000 }

abbrev before : Machine ℕ
before = record { hardware = 0x40; memory = λ x. 0 }

abbrev flush_all : Command
flush_all = record { u0 = 0; u1 = 0x80000000; u2 = 0; u3 = 0 }

send_command_lem_example :
    (send_command (machine two_caps) tail_only tables 0 before flush_all).memory
    ≡ store (λ x. 0) 0x5080 (command_bytes flush_all)
send_command_lem_example =
    send_command_lem (machine two_caps) tail_only tables 0 before flush_all refl refl
