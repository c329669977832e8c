-- ===== src/Loader/Multiboot.antt =====
-- skl_multiboot2 of main.c, and multiboot_next_tag of include/multiboot2.h.
use secure_kernel_loader.Base.{
  ℕ, zero, suc, ◌+◌, ◌*◌, ◌/◌, ◌&&◌, ◌||◌, Option, none, some, List, ltb, ◌==◌, ◌/=◌, if◌then◌else◌,
  u32, sub32, le64, ◌>>=◌,
}
use secure_kernel_loader.Base.Memory.{Memory, load, load32, store, strlen}
use secure_kernel_loader.EventLog.Records.{codes}
use secure_kernel_loader.Tpm.Device.{Ops}
use secure_kernel_loader.Loader.{Loader, Outcome, multiboot2, reboots, returns}
use secure_kernel_loader.Loader.Measure.{extend_text, extend_pcr}

-- The types of the tags.
abbrev pub multiboot_tag_type_end : ℕ
multiboot_tag_type_end = 0

abbrev pub multiboot_tag_type_module : ℕ
multiboot_tag_type_module = 3

abbrev pub multiboot_tag_type_elf_sections : ℕ
multiboot_tag_type_elf_sections = 9

abbrev pub multiboot_tag_type_load_base_addr : ℕ
multiboot_tag_type_load_base_addr = 21

-- The fields of struct multiboot_tag_module; the command line is the characters from an address on.
abbrev pub mod_start : Memory → ℕ → ℕ
mod_start m t = load32 m (t + 8)

abbrev pub mod_end : Memory → ℕ → ℕ
mod_end m t = load32 m (t + 12)

abbrev pub cmdline_at : ℕ → ℕ
cmdline_at t = t + 16

abbrev pub mb_type : Memory → ℕ → ℕ
mb_type m t = load32 m t

abbrev pub mb_size : Memory → ℕ → ℕ
mb_size m t = load32 m (t + 4)

abbrev pub multiboot_next_tag : Memory → ℕ → ℕ
multiboot_next_tag m t = t + u32 (mb_size m t + 7) / 8 * 8

-- The sh_size of the first PROGBITS section from index i on, with the sections left; else `none`.
unfoldable pub progbits : ℕ → Memory → ℕ → ℕ → ℕ → Option ℕ
progbits zero m sections entsize i = none
progbits (suc left) m sections entsize i =
    let sh = sections + u32 (entsize * i) in
    let rest = progbits left m sections entsize (i + 1) in
    if load32 m (sh + 4) == 1 then some (load32 m (sh + 20)) else rest

-- kernel_size behind a tag of ELF sections.
abbrev pub elf_size : Memory → ℕ → ℕ → ℕ
unfolding progbits
elf_size m tag size = elim (progbits (load32 m (tag + 8)) m (tag + 20) (load32 m (tag + 12)) 0) [
  | none ↦ size
  | some n ↦ n
]

-- The first loop, with kernel_entry and kernel_size.
unfoldable pub find_kernel : ℕ → Memory → ℕ → ℕ → ℕ → Option (ℕ × ℕ)
unfolding elf_size
find_kernel zero m tag entry size = none
find_kernel (suc fuel) m tag entry size =
    let entry' =
      if (entry == 0) && (mb_type m tag == multiboot_tag_type_load_base_addr)
      then load32 m (tag + 8)
      else entry in
    let size' =
      if (size == 0) && (mb_type m tag == multiboot_tag_type_elf_sections)
      then elf_size m tag size
      else size in
    let rest = find_kernel fuel m (multiboot_next_tag m tag) entry' size' in
    if (mb_type m tag == multiboot_tag_type_end) || ((entry /= 0) && (size /= 0))
    then some (entry, size)
    else rest

-- The field mbi of struct skl_tag_boot_mb2.
abbrev pub mbi_of : Memory → ℕ → ℕ
mbi_of m skl_tag = load32 m (skl_tag + 2)

abbrev pub measured_kernel : List ℕ
measured_kernel = codes "Measured Kernel into PCR17"

-- The characters of a C string.
abbrev pub read_string : ℕ → Memory → ℕ → Option (List ℕ)
read_string fuel m a = strlen fuel m a 0 >>= λ n. some (load m a n)

module _ {D H : Type 0} (ops : Ops D) where
  -- One module: its bytes into PCR17, its command line as the event's text.
  unfoldable pub measure_module : ℕ → Loader D H → ℕ → Option (Loader D H)
  measure_module fuel s tag =
      let m = s.tpm.memory in
      extend_text ops s (mod_start m tag) (sub32 (mod_end m tag) (mod_start m tag)) 17
        (λ k. read_string fuel k (cmdline_at tag))

  -- The second loop, with the tag that ends it.
  unfoldable pub measure_modules : ℕ → Loader D H → ℕ → Option (Loader D H × ℕ)
  unfolding measure_module
  measure_modules zero s tag = none
  measure_modules (suc fuel) s tag =
      let m = s.tpm.memory in
      let skipped = measure_modules fuel s (multiboot_next_tag m tag) in
      let measured : Option (Loader D H × ℕ) = elim (measure_module fuel s tag) [
        | none ↦ none
        | some k ↦ measure_modules fuel k (multiboot_next_tag k.tpm.memory tag)
      ] in
      if mb_type m tag == multiboot_tag_type_end
      then some (s, tag)
      else if mb_type m tag == multiboot_tag_type_module
      then measured
      else skipped

  -- The safety checks on the tag behind the last, and the end of the function.
  unfoldable pub check_mbi : Loader D H → ℕ → ℕ → ℕ → ℕ → Outcome D H
  check_mbi s skl_tag mbi_len entry tag =
      let mbi = mbi_of s.tpm.memory skl_tag in
      if (mb_size s.tpm.memory tag /= 8)
        || ltb (mbi + mbi_len) (multiboot_next_tag s.tpm.memory tag)
      then reboots
      else returns (record s { boot_protocol = multiboot2 }) entry mbi

  -- The pointer to the MBI is read again behind the measurement of the kernel, and at the end.
  unfoldable pub measure_kernel : ℕ → Loader D H → ℕ → ℕ → Option (ℕ × ℕ) → Option (Outcome D H)
  unfolding measure_modules check_mbi
  measure_kernel fuel s skl_tag mbi_len none = none
  measure_kernel fuel s skl_tag mbi_len (some (entry, size)) =
      elim (extend_pcr ops s entry size 17 measured_kernel) [
        | none ↦ none
        | some k ↦ elim (measure_modules fuel k (mbi_of k.tpm.memory skl_tag + 8)) [
          | none ↦ none
          | some (j, tag) ↦ some (check_mbi j skl_tag mbi_len entry tag)
        ]
      ]

  -- Behind iommu_setup, with the boot tag and the fields of it that are read before. `tag_at` is the
  -- address of the variable `tag`, at which the first measurement begins, as the code says &tag; it
  -- holds the pointer to the MBI.
  unfoldable pub skl_multiboot2 : ℕ → ℕ → Loader D H → ℕ → ℕ → ℕ → ℕ → Option (Outcome D H)
  unfolding measure_kernel
  skl_multiboot2 fuel tag_at s skl_tag mbi kernel_entry kernel_size =
      let mbi_len = mb_type s.tpm.memory mbi in
      let spilled = record s {
        tpm = record s.tpm { memory = store s.tpm.memory tag_at (le64 mbi) };
      } in
      elim (extend_pcr ops spilled tag_at mbi_len 18 (codes "Measured MBI into PCR18")) [
        | none ↦ none
        | some k ↦
            measure_kernel fuel k skl_tag mbi_len
              (find_kernel fuel k.tpm.memory (mbi + 8) kernel_entry kernel_size)
      ]
