-- ===== src/Iommu.antt =====
-- iommu.c, and iommu_setup of main.c. The registers of the IOMMU are words of 64 bits at a base: the
-- machine's state H gives and takes them. Commands are written into memory at the address of
-- command_buf. Reads that are only printed are left out.
pub mod Commands
pub mod Dma
pub mod Frame
use secure_kernel_loader.Base.{
  ℕ, zero, suc, ◌+◌, ◌*◌, ◌/◌, Bool, not, ◌||◌, Option, none, some, List, ◌++◌, bit_and, bit_or,
  not64, u32, u64, le32, ◌<<<◌, ◌>>>◌, ◌==◌, ◌/=◌, if◌then◌else◌,
}
use secure_kernel_loader.Base.Memory.{Memory, store, load32}
use secure_kernel_loader.Pci.{Io, Access, pci_read, pci_devfn, pci_locate, pci_init}
use secure_kernel_loader.Dev.{disable_memory_protection}

-- mmio_base[i] for a base address and an index into the table of words.
pub record Mmio (H : Type 0) : Type 0 where
  pub get : H → ℕ → ℕ → ℕ
  pub put : H → ℕ → ℕ → ℕ → H

-- The addresses of device_table, command_buf and event_log.
pub record Tables : Type 0 where
  pub device_table : ℕ
  pub command_buf : ℕ
  pub event_log : ℕ

-- iommu_command_t, with opcode as the upper four bits of u1.
pub record Command : Type 0 where
  pub u0 : ℕ
  pub u1 : ℕ
  pub u2 : ℕ
  pub u3 : ℕ

abbrev pub command_bytes : Command → List ℕ
command_bytes c = le32 c.u0 ++ (le32 c.u1 ++ (le32 c.u2 ++ le32 c.u3))

abbrev pub device_table_ba : ℕ
device_table_ba = 0x00

abbrev pub command_buf_ba : ℕ
command_buf_ba = 0x01

abbrev pub event_log_ba : ℕ
event_log_ba = 0x02

abbrev pub control_register : ℕ
control_register = 0x03

abbrev pub extended_feature : ℕ
extended_feature = 0x06

abbrev pub command_buf_head : ℕ
command_buf_head = 0x400

abbrev pub command_buf_tail : ℕ
command_buf_tail = 0x401

abbrev pub event_log_head : ℕ
event_log_head = 0x402

abbrev pub event_log_tail : ℕ
event_log_tail = 0x403

abbrev pub status_register : ℕ
status_register = 0x404

-- The bits 0 to 4, 12 to 17, 22, 24, and 28 to 42.
abbrev pub cr_enable_all_mask : ℕ
cr_enable_all_mask = 0x7FFF143F01F

abbrev pub iommu_function : ℕ
iommu_function = pci_devfn 0 2

-- The machine, and memory.
pub record Machine (H : Type 0) : Type 0 where
  pub hardware : H
  pub memory : Memory

module _ {H : Type 0} (io : Io H) (regs : Mmio H) (tables : Tables) where
  unfoldable pub iommu_locate : ℕ → Access → H → Option (H × ℕ)
  iommu_locate fuel access h = pci_locate io fuel access h 0 iommu_function

  -- The tail counts bytes, and the index into command_buf entries of 16 bytes; C does not bound it.
  unfoldable pub send_command : ℕ → Machine H → Command → Machine H
  send_command base s cmd =
      let cmd_ptr = u32 (regs.get s.hardware base command_buf_tail >>> 4) in
      record {
        hardware = regs.put s.hardware base command_buf_tail (u32 (u32 (cmd_ptr + 1) <<< 4));
        memory = store s.memory (tables.command_buf + 16 * cmd_ptr) (command_bytes cmd);
      }

  -- The writes up to the last one that enables the IOMMU.
  unfoldable pub program : ℕ → H → H
  program base h =
      let control = regs.get h base control_register in
      let h1 = regs.put h base control_register (bit_and control (not64 cr_enable_all_mask)) in
      let h2 = regs.put h1 base device_table_ba (bit_or tables.device_table 1) in
      let h3 =
        regs.put h2 base command_buf_ba
          (bit_or (bit_and tables.command_buf (not64 0xfff)) (0x9 <<< 56)) in
      let h4 = regs.put h3 base command_buf_tail (bit_and tables.command_buf 0xff0) in
      let h5 = regs.put h4 base command_buf_head (bit_and tables.command_buf 0xff0) in
      let h6 = regs.put h5 base event_log_ba (bit_or tables.event_log (0x8 <<< 56)) in
      let h7 = regs.put h6 base event_log_head 0 in
      let h8 = regs.put h7 base event_log_tail 0 in
      let h9 =
        regs.put h8 base status_register (bit_and (regs.get h8 base status_register) (not64 2)) in
      let h10 =
        regs.put h9 base control_register
          (bit_or (regs.get h9 base control_register) (bit_or (1 <<< 12) (1 <<< 2))) in
      regs.put h10 base control_register (bit_or (regs.get h10 base control_register) 1)

  -- INVALIDATE_IOMMU_ALL where the IOMMU has it, then COMPLETION_WAIT that stores to `completed`.
  unfoldable pub flush : ℕ → Machine H → ℕ → Machine H
  unfolding send_command
  flush base s completed =
      let invalidated = send_command base s (record { u0 = 0; u1 = 8 <<< 28; u2 = 0; u3 = 0 }) in
      let ready =
        if bit_and (regs.get s.hardware base extended_feature) (1 <<< 6) /= 0
        then invalidated
        else s in
      send_command base ready
        (record { u0 = u32 (bit_or completed 1); u1 = 1 <<< 28; u2 = 0x656e6f64; u3 = 0 })

  unfoldable pub iommu_load_device_table : Access → Machine H → ℕ → ℕ → Machine H × ℕ
  unfolding program flush
  iommu_load_device_table access s cap completed =
      let (k, low) = pci_read io access s.hardware 0 0 iommu_function (u32 (cap + 4)) 4 0 in
      let (j, hi) = pci_read io access k 0 0 iommu_function (u32 (cap + 8)) 4 0 in
      let base = bit_or (hi.0 <<< 32) (bit_and low.0 0xffffc000) in
      if bit_and low.0 1 == 0
      then (record s { hardware = k }, 1)
      else (flush base (record s { hardware = program base j }) completed, 0)

  -- The second load, once the protection of the SLB is off, and the wait for iommu_done, which takes
  -- fuel: `poll` lets the machine go on by one look at the variable.
  wait : (Machine H → Machine H) → ℕ → ℕ → Machine H → Option (Machine H)
  wait poll zero done s = none
  wait poll (suc fuel) done s =
      let rest = wait poll fuel done (poll s) in
      if (load32 s.memory done /= 0) || (load32 s.memory (done + 4) /= 0) then some s else rest

  finish_setup :
      (Machine H → Machine H) → ℕ → Access → Machine H → ℕ → ℕ → Option H → Option (Machine H)
  unfolding iommu_load_device_table wait
  finish_setup poll fuel access s cap done none = none
  finish_setup poll fuel access s cap done (some h) =
      wait poll fuel done (iommu_load_device_table access (record s { hardware = h }) cap done).0

  -- `done` is the address of iommu_done, which is cleared first.
  setup_at :
      (Machine H → Machine H) → ℕ → Access → Machine H → ℕ → Option (H × ℕ) → Option (Machine H)
  unfolding finish_setup iommu_load_device_table
  setup_at poll fuel access s done none = none
  setup_at poll fuel access s done (some (h, cap)) =
      let found = record s { hardware = h } in
      let (k, failed) = iommu_load_device_table access found cap done in
      let finished =
        finish_setup poll fuel access k cap done
          (disable_memory_protection io access fuel k.hardware) in
      if cap == 0 then some found else if failed /= 0 then some k else finished

  unfoldable pub iommu_setup : (Machine H → Machine H) → ℕ → Machine H → ℕ → Option (Machine H)
  unfolding iommu_locate setup_at
  iommu_setup poll fuel s done =
      let access = pci_init io s.hardware in
      let cleared = record s { memory = store s.memory done (le32 0 ++ le32 0) } in
      setup_at poll fuel access cleared done (iommu_locate fuel access s.hardware)
