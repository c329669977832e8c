-- ===== src/Tests/Trail.antt =====
-- The kernel of the Linux test, with an event log and a digest of SKINIT in the bootloader's data.
use secure_kernel_loader.Base.{
  ℕ, ◌≡◌, refl, Option, none, some, List, [], ◌∷◌, ◌++◌, arith, le32, replicate,
}
use secure_kernel_loader.Base.Memory.{Memory, store}
use secure_kernel_loader.Pci.{pci_locate, pci_conf1_read, pci_read, pci_init}
use secure_kernel_loader.Iommu.{iommu_setup, Machine}
use secure_kernel_loader.Iommu.Frame.{iommu_setup-keeps}
use secure_kernel_loader.Loader.{linux_boot, Loader, Outcome, returns}
use secure_kernel_loader.Loader.Boot.{Places, skl_main}
use secure_kernel_loader.Tests.Linux.{taking, tpm, no_iommu, regs, places, memory}

abbrev behind : Places
behind = record places { image = record { start = 64; data_at = 0x9000 } }

-- TAGS_SIZE, the boot tag, the log of 512 bytes at 0x20000, a SHA-1 digest, and END.
abbrev tag_bytes : List ℕ
tag_bytes =
    0x0F ∷ 4 ∷ 46 ∷ 0 ∷ 0x10 ∷ 6 ∷ []
    ++ (le32 0x3000
        ++ (0x20 ∷ 10 ∷ []
            ++ (le32 0x20000
                ++ (le32 512 ++ (0x21 ∷ 24 ∷ 4 ∷ 0 ∷ [] ++ (replicate 20 7 ++ 0 ∷ 2 ∷ []))))))

unfoldable tagged : Memory
unfolding store memory
tagged = store (store memory 0x8020 (le32 0xDEADBEEF)) 0x9000 tag_bytes

abbrev starting : Loader ℕ ℕ
starting = record {
  hardware = 0;
  boot_protocol = linux_boot;
  tpm = record tpm { memory = tagged };
  log = record { evtlog_base = 0; ptr_current = 0; limit = 0; memory = tagged };
}

abbrev left : Option (Outcome ℕ ℕ) → Loader ℕ ℕ
left (some (returns k entry zero_page)) = k
left o = starting

unfoldable entered : Loader ℕ ℕ
unfolding skl_main
entered = left (skl_main taking no_iommu regs (λ s. s) behind 6 starting)

-- iommu_setup on the same machine, which has no IOMMU.
abbrev machine : Machine ℕ
machine = record { hardware = 0; memory = tagged }

abbrev or_machine : Option (Machine ℕ) → Machine ℕ
or_machine none = machine
or_machine (some k) = k

unfoldable set_up : Machine ℕ
set_up = or_machine (iommu_setup no_iommu regs places.tables (λ s. s) 4 machine 0x8000)

set_up_lem : iommu_setup no_iommu regs places.tables (λ s. s) 4 machine 0x8000 ≡ some set_up
unfolding set_up iommu_setup pci_locate pci_read pci_init pci_conf1_read
set_up_lem = refl

iommu_setup-keeps_example : set_up.memory 0x9000 ≡ machine.memory 0x9000
iommu_setup-keeps_example =
    iommu_setup-keeps no_iommu regs places.tables (λ s. s) 0x8000 1 0x9000
      (record {
        tail = λ h base. omega arith;
        polled = λ s. refl;
        unwritten = omega arith;
        not_done = omega arith;
      })
      4 machine set_up set_up_lem
