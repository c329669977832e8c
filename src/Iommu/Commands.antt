-- ===== src/Iommu/Commands.antt =====
-- Where the commands to the IOMMU land. The IOMMU fetches them from the page of command_buf plus the
-- tail that was set, which is command_buf itself.
use secure_kernel_loader.Base.{ℕ, ◌+◌, ◌*◌, ◌/◌, ◌%◌, ◌^◌, ◌≡◌, refl, arith, u32}
use secure_kernel_loader.Base.Memory.{store}
use secure_kernel_loader.Pci.{Io}
use secure_kernel_loader.Iommu.{
  Mmio, Tables, Command, Machine, send_command, command_bytes, command_buf_tail,
}

module _ {H : Type 0} (io : Io H) (regs : Mmio H) (tables : Tables) where
  -- With the tail that the code sets for a buffer aligned to its entries, the offset of
  -- command_buf in its page, send_command stores the command that much behind command_buf.
  pub send_command_lem :
      (base : ℕ) (s : Machine H) (cmd : Command)
      → tables.command_buf % 16 ≡ 0
      → regs.get s.hardware base command_buf_tail ≡ tables.command_buf % 4096
      → (send_command io regs tables base s cmd).memory
        ≡ store s.memory (tables.command_buf + tables.command_buf % 4096) (command_bytes cmd)
  unfolding send_command
  send_command_lem base s cmd aligned tail =
      let index : 16 * u32 (tables.command_buf % 4096 / 2 ^ 4) ≡ tables.command_buf % 4096 =
        omega arith in
      rw (tail, index) refl
