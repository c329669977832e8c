-- ===== src/Loader/Enable.antt =====
-- skl_main of main.c from its format test on, with enable_tpm.
use secure_kernel_loader.Base.{ℕ, Bool, true, false, Option, none, some}
use secure_kernel_loader.Tags.{check_format}
use secure_kernel_loader.Tpm.Mmio.{Registers, Port}
use secure_kernel_loader.Tpm.Enable.{Enabled, no_tpm, enabled, enable_tpm}
use secure_kernel_loader.Pci.{Io}
use secure_kernel_loader.Iommu.{Mmio, Machine}
use secure_kernel_loader.Loader.{Loader, Outcome, reboots, faults}
use secure_kernel_loader.Loader.Boot.{Places, main_format}

module _ {C H : Type 0} (tpm_regs : Registers C) (junk : C → ℕ) (io : Io H) (regs : Mmio H)
    (poll : Machine H → Machine H) (places : Places) (fuel : ℕ) where
  -- Behind enable_tpm: tpm_request_locality calls through its pointer without a test for NULL.
  unfoldable pub main_enabled : Loader (Port C) H → Enabled C → Option (Outcome (Port C) H)
  main_enabled s (no_tpm p) = some faults
  main_enabled s (enabled ops t vendor) =
      main_format ops io regs poll places fuel (record s { tpm = t }) (some true)

  unfoldable pub main_checked : Loader (Port C) H → Option Bool → Option (Outcome (Port C) H)
  unfolding main_enabled
  main_checked s none = none
  main_checked s (some false) = some reboots
  main_checked s (some true) = main_enabled s (enable_tpm tpm_regs junk fuel s.tpm)

  -- The state holds the static struct tpm and struct tpmbuff as they are at the start. The call of
  -- pci_init in front of the test stands in iommu_setup, the only one to use what it chooses: it
  -- reads an MSR of the hardware, which nothing touches in between.
  unfoldable pub whole_main : Loader (Port C) H → Option (Outcome (Port C) H)
  unfolding main_checked
  whole_main s = main_checked s (check_format places.image s.tpm.memory fuel)
