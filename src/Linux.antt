-- ===== src/Linux.antt =====
-- include/linux-bootparams.h, and the kernel's side of main.c: where the Linux entry point is found.
-- Sums of 32-bit fields wrap; NULL is the address 0.
pub mod Entry
use secure_kernel_loader.Base.{
  ℕ, ◌+◌, Bool, ◌||◌, ◌&&◌, Option, none, some, ltb, leb, ◌==◌, ◌/=◌, if◌then◌else◌, u32, ◌<<<◌,
}
use secure_kernel_loader.Base.Memory.{Memory, load16, load32}

-- The fields of struct boot_params that are read.
pub record BootParams : Type 0 where
  pub syssize : ℕ
  pub version : ℕ
  pub code32_start : ℕ
  pub payload_offset : ℕ
  pub payload_length : ℕ
  pub kern_info_offset : ℕ

abbrev pub boot_params : Memory → ℕ → BootParams
boot_params m bp = record {
  syssize = load32 m (bp + 0x1f4);
  version = load16 m (bp + 0x206);
  code32_start = load32 m (bp + 0x214);
  payload_offset = load32 m (bp + 0x248);
  payload_length = load32 m (bp + 0x24c);
  kern_info_offset = load32 m (bp + 0x268);
}

-- The size of the kernel's code in bytes, as main.c computes it.
abbrev pub code_size : BootParams → ℕ
code_size b = u32 (b.syssize <<< 4)

unfoldable pub is_in_kernel : BootParams → ℕ → ℕ
is_in_kernel b ptr =
    if ltb ptr b.code32_start
      || (leb (u32 (b.code32_start + code_size b)) ptr
          || (leb (u32 (b.code32_start + b.payload_offset)) ptr
              && ltb ptr (u32 (b.code32_start + b.payload_offset + b.payload_length))))
    then 0
    else ptr

abbrev pub get_kernel_info : BootParams → ℕ
unfolding is_in_kernel
get_kernel_info b = is_in_kernel b (u32 (b.code32_start + b.kern_info_offset))

-- kernel_info.mle_header_offset, and mle_header.sl_stub_entry.
abbrev pub get_mle_hdr : Memory → BootParams → ℕ → ℕ
unfolding is_in_kernel
get_mle_hdr m b ki = is_in_kernel b (u32 (b.code32_start + load32 m (ki + 16)))

abbrev pub get_kernel_entry : Memory → BootParams → ℕ → ℕ
unfolding is_in_kernel
get_kernel_entry m b mle_hdr = is_in_kernel b (u32 (b.code32_start + load32 m (mle_hdr + 24)))

abbrev pub has_mle_uuid : Memory → ℕ → Bool
has_mle_uuid m h =
    (load32 m h == 0x9082ac5a)
    && ((load32 m (h + 4) == 0x74a7476f)
        && ((load32 m (h + 8) == 0xa2555c0f) && (load32 m (h + 12) == 0x42b651cb)))

-- The tests of skl_linux up to the entry point; `none` is a reboot.
unfoldable pub find_entry : Memory → BootParams → Option ℕ
unfolding is_in_kernel
find_entry m b =
    let ki = get_kernel_info b in
    let mle_header = get_mle_hdr m b ki in
    let pm_kernel_entry = get_kernel_entry m b mle_header in
    let entered = if pm_kernel_entry == 0 then none else some pm_kernel_entry in
    if ltb b.version 0x020f || ((ki == 0) || ((load32 m ki /= 0x506f544c) || (mle_header == 0)))
    then none
    else if has_mle_uuid m mle_header
    then entered
    else none
