-- ===== src/Loader/Boot.antt =====
-- skl_linux and skl_main of main.c.
use secure_kernel_loader.Base.{
  ℕ, ◌+◌, Bool, true, false, Option, none, some, List, bit_and, ◌==◌, if◌then◌else◌,
}
use secure_kernel_loader.Base.Memory.{load32}
use secure_kernel_loader.Tags.{
  Image, tag_type, tags_size, only_where, check_format, skl_tag_class_mask, skl_tag_boot_class,
  skl_tag_boot_linux, skl_tag_boot_mb2,
}
use secure_kernel_loader.Tpm.Device.{Ops, Tpm}
use secure_kernel_loader.Tpm.Front.{tpm_request_locality}
use secure_kernel_loader.EventLog.Records.{codes}
use secure_kernel_loader.EventLog.Init.{event_log_init}
use secure_kernel_loader.EventLog.{Log}
use secure_kernel_loader.Pci.{Io}
use secure_kernel_loader.Iommu.{Mmio, Tables, Machine, iommu_setup}
use secure_kernel_loader.Linux.{BootParams, boot_params, code_size, find_entry}
use secure_kernel_loader.Loader.{Loader, Outcome, reboots, faults, returns}
use secure_kernel_loader.Loader.Measure.{extend_pcr, release}
use secure_kernel_loader.Loader.Multiboot.{mbi_of, skl_multiboot2, measured_kernel}

-- Where the linker and the stack put things: `iommu_done` and `tag` are local variables.
pub record Places : Type 0 where
  pub image : Image
  pub tables : Tables
  pub tis_buff : ℕ
  pub iommu_done : ℕ
  pub tag : ℕ
  pub skl_stack_canary : ℕ

abbrev pub measured_data : List ℕ
measured_data = codes "Measured bootloader data into PCR18"

module _ {D H : Type 0} (ops : Ops D) (io : Io H) (regs : Mmio H) (poll : Machine H → Machine H)
    (places : Places) (fuel : ℕ) where
  -- iommu_setup on the loader's state.
  unfoldable pub setup : Loader D H → Option (Loader D H)
  setup s =
      elim (iommu_setup io regs places.tables poll fuel
        (record { hardware = s.hardware; memory = s.tpm.memory }) places.iommu_done) [
          | none ↦ none
          | some k ↦
              some (record s { hardware = k.hardware; tpm = record s.tpm { memory = k.memory } })
        ]

  -- The end of skl_linux and of skl_main: the TPM was let go, or NULL was written through.
  unfoldable pub enter : Option (Loader D H) → ℕ → ℕ → Outcome D H
  enter none entry zero_page = faults
  enter (some k) entry zero_page = returns k entry zero_page

  unfoldable pub linux_measured : Option (Loader D H) → ℕ → ℕ → Option (Outcome D H)
  unfolding enter
  linux_measured none entry zero_page = none
  linux_measured (some k) entry zero_page = some (enter (release ops k) entry zero_page)

  -- Behind the search for the entry point: measure the code and let the TPM go.
  unfoldable pub measure_linux : Loader D H → BootParams → ℕ → Option ℕ → Option (Outcome D H)
  unfolding linux_measured
  measure_linux s b zero_page none = some reboots
  measure_linux s b zero_page (some entry) =
      linux_measured (extend_pcr ops s b.code32_start (code_size b) 17 measured_kernel) entry
        zero_page

  unfoldable pub linux_set_up : Option (Loader D H) → ℕ → Option (Outcome D H)
  unfolding measure_linux
  linux_set_up none zero_page = none
  linux_set_up (some k) zero_page =
      let b = boot_params k.tpm.memory zero_page in
      measure_linux k b zero_page (find_entry k.tpm.memory b)

  -- The address of the boot parameters is read before iommu_setup.
  unfoldable pub skl_linux : Loader D H → ℕ → Option (Outcome D H)
  unfolding linux_set_up
  skl_linux s skl_tag = linux_set_up (setup s) (load32 s.tpm.memory (skl_tag + 2))

  boot_mb2 : Loader D H → ℕ → Option (Outcome D H)
  unfolding setup
  boot_mb2 s skl_tag = elim (setup s) [
    | none ↦ none
    | some k ↦
        let m = s.tpm.memory in
        skl_multiboot2 ops fuel places.tag k skl_tag (mbi_of m skl_tag) (load32 m (skl_tag + 6))
          (load32 m (skl_tag + 10))
  ]

  -- The switch over the boot tag; NULL stands for none or more than one of them.
  unfoldable pub boot_tag : Loader D H → Option ℕ → Option (Outcome D H)
  unfolding skl_linux boot_mb2
  boot_tag s none = none
  boot_tag s (some t) =
      let linux = skl_linux s t in
      let mb2 = boot_mb2 s t in
      if t == 0
      then some reboots
      else if tag_type s.tpm.memory t == skl_tag_boot_linux
      then linux
      else if tag_type s.tpm.memory t == skl_tag_boot_mb2
      then mb2
      else some reboots

  -- The test of the canary, once the TPM was let go.
  unfoldable pub check_canary : Option (Loader D H) → ℕ → ℕ → Outcome D H
  check_canary none entry zero_page = faults
  check_canary (some k) entry zero_page =
      if load32 k.tpm.memory places.skl_stack_canary == 0xDEADBEEF
      then returns k entry zero_page
      else reboots

  -- What follows the switch.
  unfoldable pub finish_main : Option (Outcome D H) → Option (Outcome D H)
  unfolding check_canary
  finish_main none = none
  finish_main (some reboots) = some reboots
  finish_main (some faults) = some faults
  finish_main (some (returns s entry zero_page)) =
      some (check_canary (release ops s) entry zero_page)

  -- The search for the boot tag, behind the measurement of the bootloader's data.
  unfoldable pub main_measured : Option (Loader D H) → Option (Outcome D H)
  unfolding boot_tag finish_main
  main_measured none = none
  main_measured (some s) = finish_main (
      boot_tag s (
        only_where places.image s.tpm.memory
          (λ c. bit_and c skl_tag_class_mask == skl_tag_boot_class) fuel places.image.data_at))

  -- The measurement, behind event_log_init with its result, which is not looked at.
  unfoldable pub main_logged : Loader D H → Tpm D → Option (Log × ℕ) → Option (Outcome D H)
  unfolding main_measured
  main_logged s t none = none
  main_logged s t (some (l, code)) =
      let k = record s { tpm = record t { memory = l.memory }; log = l } in
      main_measured (
        extend_pcr ops k places.image.data_at (tags_size places.image k.tpm.memory) 18
          measured_data)

  -- Behind the format test: locality 2 and the event log.
  unfoldable pub main_format : Loader D H → Option Bool → Option (Outcome D H)
  unfolding main_logged
  main_format s none = none
  main_format s (some false) = some reboots
  main_format s (some true) =
      let t = (tpm_request_locality ops places.tis_buff s.tpm 2).0 in
      main_logged s t
        (event_log_init places.image fuel t.family (record s.log { memory = t.memory }))

  -- The state is the one that enable_tpm leaves: its family and interface are set.
  unfoldable pub skl_main : Loader D H → Option (Outcome D H)
  unfolding main_format
  skl_main s = main_format s (check_format places.image s.tpm.memory fuel)
