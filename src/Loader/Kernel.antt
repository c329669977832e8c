-- ===== src/Loader/Kernel.antt =====
-- What holds when skl_linux gives the Linux entry point back.
use secure_kernel_loader.Base.{ℕ, ◌+◌, ◌≡◌, refl, Option, none, some}
use secure_kernel_loader.Base.Memory.{load32}
use secure_kernel_loader.Tpm.Device.{Ops}
use secure_kernel_loader.Pci.{Io}
use secure_kernel_loader.Iommu.{Mmio, Machine}
use secure_kernel_loader.Linux.{boot_params, code_size, find_entry}
use secure_kernel_loader.Linux.Entry.{InCode, find_entry-InCode}
use secure_kernel_loader.Loader.{Loader, returns}
use secure_kernel_loader.Loader.Measure.{extend_pcr, release}
use secure_kernel_loader.Loader.Multiboot.{measured_kernel}
use secure_kernel_loader.Loader.Boot.{
  Places, setup, enter, linux_measured, linux_set_up, measure_linux, skl_linux,
}

module _ {D H : Type 0} (ops : Ops D) (io : Io H) (regs : Mmio H) (poll : Machine H → Machine H)
    (places : Places) (fuel : ℕ) where
  -- `p` is the state behind iommu_setup, `q` the one behind the measurement.
  pub record IsMeasured (s : Loader D H) (k : Loader D H) (entry zero_page : ℕ) : Type 0 where
    pub p : Loader D H
    pub q : Loader D H
    pub set_up : setup ops io regs poll places fuel s ≡ some p
    pub in_code : InCode (boot_params p.tpm.memory zero_page) entry
    pub measured :
        extend_pcr ops p
          (boot_params p.tpm.memory zero_page).code32_start
          (code_size (boot_params p.tpm.memory zero_page))
          17
          measured_kernel
        ≡ some q
    pub released : release ops q ≡ some k

  entered :
      (o : Option (Loader D H)) (k : Loader D H) (found entry z zero_page : ℕ)
      → some (enter ops io regs poll places fuel o found z) ≡ some (returns k entry zero_page)
      → (o ≡ some k) × (found ≡ entry) × (z ≡ zero_page)
  unfolding enter
  entered none k found entry z zero_page h = absurd cc
  entered (some q) k found entry z zero_page h = (cc, cc, cc)

  extended_step :
      (s p k : Loader D H) (found entry z zero_page : ℕ) (o : Option (Loader D H))
      → setup ops io regs poll places fuel s ≡ some p
      → find_entry p.tpm.memory (boot_params p.tpm.memory z) ≡ some found
      → extend_pcr ops p
          (boot_params p.tpm.memory z).code32_start
          (code_size (boot_params p.tpm.memory z))
          17
          measured_kernel
        ≡ o
      → linux_measured ops io regs poll places fuel o found z ≡ some (returns k entry zero_page)
      → IsMeasured s k entry zero_page
  unfolding linux_measured
  extended_step s p k found entry z zero_page none e f m h = absurd cc
  extended_step s p k found entry z zero_page (some q) e f m h =
      let (r, fe, ze) = entered (release ops q) k found entry z zero_page h in
      let f' : find_entry p.tpm.memory (boot_params p.tpm.memory zero_page) ≡ some entry =
        rw (← fe, ← ze) f in
      record {
        p = p;
        q = q;
        set_up = e;
        in_code = (find_entry-InCode p.tpm.memory (boot_params p.tpm.memory zero_page) entry f').1;
        measured = rw (← ze) m;
        released = r;
      }

  found_step :
      (s p k : Loader D H) (entry z zero_page : ℕ) (o : Option ℕ)
      → setup ops io regs poll places fuel s ≡ some p
      → find_entry p.tpm.memory (boot_params p.tpm.memory z) ≡ o
      → measure_linux ops io regs poll places fuel p (boot_params p.tpm.memory z) z o
        ≡ some (returns k entry zero_page)
      → IsMeasured s k entry zero_page
  unfolding measure_linux
  found_step s p k entry z zero_page none e f h = absurd cc
  found_step s p k entry z zero_page (some found) e f h =
      extended_step s p k found entry z zero_page _ e f refl h

  set_up_step :
      (s k : Loader D H) (entry z zero_page : ℕ) (o : Option (Loader D H))
      → setup ops io regs poll places fuel s ≡ o
      → linux_set_up ops io regs poll places fuel o z ≡ some (returns k entry zero_page)
      → IsMeasured s k entry zero_page
  unfolding linux_set_up
  set_up_step s k entry z zero_page none e h = absurd cc
  set_up_step s k entry z zero_page (some p) e h = found_step s p k entry z zero_page _ e refl h

  -- If skl_linux gives an entry point back, then iommu_setup returned before that; the entry point
  -- starts in the code that was then measured, and the TPM was let go.
  pub skl_linux-IsMeasured :
      (s k : Loader D H) (skl_tag entry zero_page : ℕ)
      → skl_linux ops io regs poll places fuel s skl_tag ≡ some (returns k entry zero_page)
      → IsMeasured s k entry zero_page
  unfolding skl_linux
  skl_linux-IsMeasured s k skl_tag entry zero_page h =
      set_up_step s k entry (load32 s.tpm.memory (skl_tag + 2)) zero_page _ refl h
