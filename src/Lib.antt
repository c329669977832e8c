-- ===== src/Lib.antt =====
-- Secure kernel loader: a verification library for the loader that AMD's SKINIT starts. It tests what
-- the bootloader passed, sets up the TPM event log, protects memory from devices, measures the kernel
-- into the TPM and enters it.
--
-- The parts, and the code that each models:
--   Base        helpers; Base/Memory is string.c, Base/Words the byte orders of include/byteswap.h.
--   Tags        include/tags.h and the format test of skl_main: the bootloader's list of tags.
--               Tags/Chain and Tags/Unique say what the iterators compute, Tags/Check what the test
--               establishes and where the iterators go wrong.
--   EventLog    event_log.c: the three static pointers with memory. EventLog/Records has its packed
--               structs, EventLog/Init event_log_init; Entries, Header, Headed, Safety, Skinit, Start and
--               Kept are proofs: Headed has the headers of the specifications, Skinit what the searches
--               for hash tags come to. Parse is a reader of the log, and the proof that it reads back
--               what was written.
--   Sha         sha1sum.c and sha256.c. The loop over blocks and the padding are the same in both files
--               and are written once, in Sha/Stream, over the block function. Padding states that of
--               FIPS 180, Loop and Finish prove the two halves. Sha/Fips has the standard's block
--               functions and the proofs that the transforms, with their rings of 16 words, are these;
--               Fips/Constants has its initial values, and its words K, computed from roots of primes;
--               Digest has the result. Tables is test-sha1.c and test-sha256.c; Expects is a proof.
--   Tpm         tpmlib: Buff is tpm_buff.c, Tpm1 is tpm1_cmds.c, Tpm2 is tpm2_cmds.c and tpm2_auth.c,
--               Front is tpm.c and Enable its enable_tpm, Mmio is tpmio.c, Tis is tis.c with tis.h and
--               Crb is crb.c. Tpm/Tpm2/Wire and Tpm/Tpm1/Command have the commands as the TPM
--               specifications lay them out. Tis/Polls, Send, Returns, Bounds and Sizes, Crb/Writes and
--               Enable/Holds are proofs. Keeps has the law of recv under which a command stays inside the
--               buffer, Keeps/Drivers fills it for tis.c and crb.c, and Tpm1/Keeps, Tpm2/Keeps and
--               Front/Keeps use it.
--   Pci         pci.c: accesses to configuration space and the search for a capability.
--   Dev         dev.c: lifting the protection that SKINIT gives the loader's block.
--   Iommu       iommu.c, and iommu_setup of main.c; Iommu/Dma is do_dma of main.c, and
--               Commands and Frame are proofs.
--   Linux       include/linux-bootparams.h and the search for the entry point in main.c.
--   Printk      printk.c: the characters that each function prints; Printk/Hex reads numbers back.
--   Loader      main.c as a whole: Measure is extend_pcr, Multiboot skl_multiboot2, Boot skl_linux and
--               skl_main behind enable_tpm, Kernel and Main the proofs about them; Enable is skl_main
--               from its format test on, with enable_tpm; the call of pci_init before that stands in
--               iommu_setup. Logged, Text, Sequence, Modules and Mbi prove what the
--               measurements leave in the log, and which ones skl_multiboot2 makes; Trail and Whole what
--               the log holds behind skl_linux and skl_main.
--   Tests       the two test programs with their own tables, and each theorem at a concrete input.
--
-- How the state is modelled: memory is a function from addresses to bytes, a pointer is its address,
-- and NULL is 0; the loader runs identity mapped below 4 GB. Words are natural numbers with their
-- wrap-around written out. Where C reads a struct, the model reads its bytes. A digest's message is the
-- list of its bytes; its length is below 2 ^ 32 in the code, and any in the model.
--
-- Parameters, since they are hardware: the registers of the TPM (Tpm/Mmio.Registers), ports,
-- memory-mapped accesses and the MSR (Pci.Io), the registers of the IOMMU (Iommu.Mmio), and the serial
-- port (Printk.Serial). Most of Tpm and Loader is over any operations of the TPM interface
-- (Tpm/Device.Ops, the pointers of struct tpm_hw_ops); Tpm/Enable fills them from Tis or Crb. Addresses
-- that the linker or the stack chooses, and what the stack leaves in a union that crb.c does not
-- initialise, are parameters as well. The buffer of the CRB interface is a range of memory; what the TPM
-- itself reads and writes there is not described.
--
-- Fuel: the pointer loops over tags, capabilities, Multiboot tags, strings and polls take fuel, and
-- `none` is a loop that still runs. For tags and capabilities the number of elements and one more is
-- proved to be enough, and for the modules of an MBI one more than its tags and the bytes of its
-- longest command line together; for strlen, more fuel than the string has bytes; for the polls of tis_send, one
-- round where the registers answer. The loop of tis_send over bursts has a round for each byte, the one
-- of recv_data one more.
--
-- The variable boot_protocol of main.c, which head.S tests, is a field of the loader's state. The
-- pointer to the MBI is read from the boot tag wherever skl_multiboot2 reads it. The command line of
-- a module is read behind the extension of the PCR, where event_log.c reads it.
--
-- Not modelled: the calls of printk.c in the other files; the TEST_DMA
-- code but for do_dma; what the variable `tag` of skl_multiboot2 holds in memory behind the first
-- measurement; include/boot.h, which has
-- single instructions; head.S, which sets up paging and the stack; and the scripts.
pub mod Base
pub mod Tags
pub mod Tpm
pub mod EventLog
pub mod Sha
pub mod Pci
pub mod Dev
pub mod Iommu
pub mod Linux
pub mod Printk
pub mod Loader
pub mod Tests
