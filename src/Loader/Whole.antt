-- ===== src/Loader/Whole.antt =====
-- The log behind skl_main: SKINIT, the bootloader's data, and the Linux kernel.
use secure_kernel_loader.Base.{ℕ, ◌+◌, ◌^◌, ◌≤◌, ◌<◌, ◌≡◌, ◌≢◌, ◌⊎◌, some, List}
use secure_kernel_loader.Base.Memory.{Memory}
use secure_kernel_loader.Tags.{tags_size, tag_type, slb_size, skl_tag_boot_linux}
use secure_kernel_loader.Tpm.Buff.{header_size}
use secure_kernel_loader.Tpm.Buff.Room.{IsHeld}
use secure_kernel_loader.Tpm.Device.{Ops, Tpm}
use secure_kernel_loader.Tpm.Front.{tpm_request_locality}
use secure_kernel_loader.Tpm.Keeps.{IsContained}
use secure_kernel_loader.EventLog.{Log}
use secure_kernel_loader.EventLog.Records.{Event20}
use secure_kernel_loader.EventLog.Kept.{Logs}
use secure_kernel_loader.EventLog.Headed.{headed_memory}
use secure_kernel_loader.EventLog.Skinit.{IsSkinit}
use secure_kernel_loader.Pci.{Io}
use secure_kernel_loader.Iommu.{Mmio, Machine}
use secure_kernel_loader.Iommu.Frame.{IsQuiet}
use secure_kernel_loader.Loader.{Loader}
use secure_kernel_loader.Linux.{boot_params}
use secure_kernel_loader.Loader.Boot.{Places, setup, measured_data}
use secure_kernel_loader.Loader.Logged.{Request, event_of, log_of, IsClear}
use secure_kernel_loader.Loader.Trail.{IsNext, IsTraced, linux_request}

abbrev pub data_request : ℕ → ℕ → Request
data_request data_at size = record {
  address = data_at;
  size = size;
  pcr = 18;
  text = measured_data;
}

module _ {D H : Type 0} (ops : Ops D) (io : Io H) (regs : Mmio H) (poll : Machine H → Machine H)
    (places : Places) (fuel h z : ℕ) (wide : z < 2 ^ 32) (room : header_size ≤ z)
    (c : IsContained ops) where
  -- The buffer lies in the SLB, apart from the bootloader's data; nothing but the SLB is written
  -- while the IOMMU is set up, whose buffer has n commands.
  pub record IsLaidOut (n : ℕ) (s : Loader D H) : Type 0 where
    pub bytes : (x : ℕ) → s.tpm.memory x < 256
    pub held : IsHeld h z (tpm_request_locality ops places.tis_buff s.tpm 2).0.buff
    pub above : places.image.start ≤ h
    pub below : h + z ≤ places.image.start + slb_size
    pub behind : h + z ≤ places.image.data_at
    pub quiet :
        (x : ℕ)
        → (x < places.image.start) ⊎ (places.image.start + slb_size < x)
        → IsQuiet regs places.tables poll places.iommu_done n x

  -- `before` is the memory before event_log_init, `code` its result, of a log of `size` bytes; `l` is
  -- the state with the log as event_log_init leaves it, and `m` the one behind the measurement
  -- of the data. The kernel is the next, unless the boot tag is not that of Linux, or its code meets
  -- the TPM's buffer.
  pub record IsRecorded (before : Memory) (code : ℕ) (l m k : Loader D H) (tag zero_page : ℕ)
      : Type 0 where
    pub size : ℕ
    pub sized : l.log.limit ≡ l.log.evtlog_base + size
    pub es0 : List Event20
    pub es1 : List Event20
    pub first :
        IsSkinit places.image fuel
          (headed_memory l.tpm.family before l.log.evtlog_base size)
          l.tpm.family
          es0
          code
    pub next :
        IsNext l es0
          (event_of l.tpm.memory
            (data_request places.image.data_at (tags_size places.image l.tpm.memory)))
          es1
    pub kernel :
        ((j : Loader D H) × (es2 : List Event20) × IsTraced ops io regs poll places fuel h z wide
            room c m j es1 es2 zero_page
          × Logs k.tpm.family (log_of k) es2)
        ⊎ ((tag_type m.tpm.memory tag ≢ skl_tag_boot_linux)
            ⊎ ((p : Loader D H) × (setup ops io regs poll places fuel m ≡ some p)
                × (¬ IsClear h z (linux_request (boot_params p.tpm.memory zero_page)))))

  -- The state behind event_log_init.
  abbrev pub logging : Loader D H → Tpm D → Log → Loader D H
  logging s t l = record s { tpm = record t { memory = l.memory }; log = l }
