-- ===== src/Linux/Entry.antt =====
-- The entry point lies in what is measured.
use mathlib.Core.Path.{subst}
use secure_kernel_loader.Base.{
  sym, ◌∙◌, ℕ, ◌+◌, ◌^◌, ◌≤◌, ◌<◌, ◌≡◌, ◌≢◌, ◌⊎◌, true, some, arith, u32,
}
use secure_kernel_loader.Base.Memory.{Memory, load32}
use secure_kernel_loader.Linux.{
  BootParams, code_size, is_in_kernel, get_kernel_info, get_mle_hdr, get_kernel_entry, has_mle_uuid,
  find_entry,
}

-- Inside the code that is measured, and outside the payload unless that wraps.
abbrev pub InCode : BootParams → ℕ → Type 0
InCode b p =
    (b.code32_start ≤ p)
    × (p < b.code32_start + code_size b)
    × ((p < b.code32_start + b.payload_offset)
        ⊎ (b.code32_start + b.payload_offset + b.payload_length ≤ p)
        ⊎ (2 ^ 32 ≤ b.code32_start + b.payload_offset + b.payload_length))

is_in_kernel-InCode :
    (b : BootParams) (p : ℕ) → is_in_kernel b p ≢ 0 → InCode b p × (is_in_kernel b p ≡ p)
unfolding is_in_kernel
is_in_kernel-InCode b p h = ground arith

-- The tests that an accepted entry point has passed.
find_entry_passed :
    (m : Memory) (b : BootParams) (entry : ℕ)
    → find_entry m b ≡ some entry
    → let ki = get_kernel_info b in
      let mle = get_mle_hdr m b ki in
      (ki ≢ 0)
      × (mle ≢ 0)
      × (entry ≢ 0)
      × (get_kernel_entry m b mle ≡ entry)
      × (0x020f ≤ b.version)
      × (has_mle_uuid m mle ≡ true)
unfolding find_entry
find_entry_passed m b entry h = ground arith

-- An entry point that skl_linux accepts is the one that the MLE header names; the first bytes of
-- it, of the header and of the kernel_info that names the header, but not the fields behind these,
-- lie in the code that is measured into PCR17 and outside its payload unless that wraps; and the
-- version and the header's UUID are as asked for.
pub find_entry-InCode :
    (m : Memory) (b : BootParams) (entry : ℕ)
    → find_entry m b ≡ some entry
    → let ki = u32 (b.code32_start + b.kern_info_offset) in
      let mle = u32 (b.code32_start + load32 m (ki + 16)) in
      (entry ≡ u32 (b.code32_start + load32 m (mle + 24)))
      × InCode b entry
      × InCode b mle
      × InCode b ki
      × (0x020f ≤ b.version)
      × (has_mle_uuid m mle ≡ true)
unfolding get_kernel_info get_mle_hdr get_kernel_entry
find_entry-InCode m b entry h =
    let (nk, nm, ne, found, version, uuid) = find_entry_passed m b entry h in
    let ki : ℕ = u32 (b.code32_start + b.kern_info_offset) in
    let mle : ℕ = u32 (b.code32_start + load32 m (ki + 16)) in
    let stub : ℕ = u32 (b.code32_start + load32 m (mle + 24)) in
    let (in_ki, ek) = is_in_kernel-InCode b ki nk in
    let (in_mle, em) = is_in_kernel-InCode b mle (rw ek at nm) in
    let found' : is_in_kernel b stub ≡ entry = rw (ek, em) at found in
    let (in_stub, es) = is_in_kernel-InCode b stub (rw found' ne) in
    let same : entry ≡ stub = sym found' ∙ es in
    (same, subst (InCode b) (sym same) in_stub, in_mle, in_ki, version, rw (ek, em) at uuid)
