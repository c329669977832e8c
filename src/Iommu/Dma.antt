-- ===== src/Iommu/Dma.antt =====
-- do_dma of main.c, which the TEST_DMA code calls: ten writes to ports. As outb of include/boot.h has
-- it, the value stands before the port.
use secure_kernel_loader.Pci.{Io}

module _ {H : Type 0} (io : Io H) where
  unfoldable pub do_dma : H → H
  do_dma h =
      let masked = io.outb h 0x0a 0x05 in
      let cleared = io.outb masked 0x0c 0x00 in
      let mode = io.outb cleared 0x0b 0x45 in
      let offset = io.outb (io.outb mode 0x02 0x00) 0x02 0x00 in
      let page = io.outb offset 0x83 0x00 in
      let size = io.outb (io.outb page 0x03 0x20) 0x03 0x00 in
      let enabled = io.outb size 0x0a 0x01 in io.outb enabled 0x09 0x05
