-- ===== src/Loader.antt =====
-- main.c: the whole boot path. Its state is the machine behind PCI and the IOMMU, the TPM with memory,
-- and the event log. `none` is a loop that still runs.
pub mod Measure
pub mod Logged
pub mod Text
pub mod Sequence
pub mod Modules
pub mod Mbi
pub mod Trail
pub mod Whole
pub mod Multiboot
pub mod Boot
pub mod Kernel
pub mod Main
pub mod Enable
use secure_kernel_loader.Tpm.Device.{Tpm}
use secure_kernel_loader.EventLog.{Log}
use secure_kernel_loader.Base.{ℕ}

-- Memory is that of the TPM's field; the log's copy is brought up to date where the log is used.
-- `boot_protocol` is the variable of main.c that head.S tests.
pub record Loader (D H : Type 0) : Type 0 where
  pub hardware : H
  pub tpm : Tpm D
  pub log : Log
  pub boot_protocol : ℕ

abbrev pub linux_boot : ℕ
linux_boot = 0

abbrev pub multiboot2 : ℕ
multiboot2 = 2

-- How a function of main.c ends: a reboot, a use of NULL as a pointer, or the entry point and the address
-- that the kernel is given.
pub data Outcome (D H : Type 0) : Type 0 where
  reboots : Outcome D H
  faults : Outcome D H
  returns : Loader D H → ℕ → ℕ → Outcome D H
