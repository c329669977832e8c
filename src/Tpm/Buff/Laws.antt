-- ===== src/Tpm/Buff/Laws.antt =====
-- The buffer's invariant, and its operations on every branch.
use secure_kernel_loader.Base.{ℕ, ◌+◌, ◌^◌, ◌≤◌, ◌<◌, ◌≡◌, ◌⊎◌, false, arith}
use secure_kernel_loader.Base.Memory.{Memory}
use secure_kernel_loader.Tpm.Types.{Interface, tpm_tis, tpm_crb}
use secure_kernel_loader.Tpm.Buff.{
  TpmBuff, tpmb_reserve, tpmb_free, tpmb_put, tpmb_trim, alloc_tpmbuff, header_size,
}

-- The bytes in use lie between head and tail, inside the room that head has.
pub record IsBuff (b : TpmBuff) : Type 0 where
  pub at_tail : b.tail ≡ b.head + b.len
  pub fits : b.len ≤ b.truesize
  pub placed : 0 < b.head
  pub wide : b.truesize < 2 ^ 32

-- A buffer that no command uses yet.
abbrev pub IsFree : TpmBuff → Type 0
IsFree b =
    (b.locked ≡ false)
    × (b.len ≡ 0)
    × (0 < b.head)
    × (header_size ≤ b.truesize)
    × (b.truesize < 2 ^ 32)

-- Allocation gives a free buffer: on the TIS interface where the static buffer was not yet placed,
-- and on the CRB interface always.
pub alloc_tpmbuff-IsFree :
    (tis_buff : ℕ) (b : TpmBuff) (intf : Interface) (locality : ℕ)
    → 0 < tis_buff
    → b.head ≡ 0
    → IsFree (alloc_tpmbuff tis_buff b intf locality)
unfolding alloc_tpmbuff
alloc_tpmbuff-IsFree tis_buff b tpm_tis locality p h = ground arith
alloc_tpmbuff-IsFree tis_buff b tpm_crb locality p h = ground arith

-- tpmb_reserve of a free buffer returns its head and leaves the header's bytes in use and the
-- invariant, and a second call returns NULL and changes nothing.
pub tpmb_reserve_lem :
    (b : TpmBuff)
    → IsFree b
    → let r = tpmb_reserve b in
      IsBuff r.0 × (r.1 ≡ b.head) × (r.0.len ≡ header_size) × (tpmb_reserve r.0 ≡ (r.0, 0))
unfolding tpmb_reserve
tpmb_reserve_lem b f = ground arith

-- On a buffer that satisfies the invariant, tpmb_put of fewer than 2 ^ 32 bytes returns the old
-- tail, grows the length and keeps the invariant if the bytes fit, and otherwise returns NULL and
-- changes nothing.
pub tpmb_put_lem :
    (b : TpmBuff) (size : ℕ)
    → IsBuff b
    → size < 2 ^ 32
    → let r = tpmb_put b size in
      ((b.len + size ≤ b.truesize)
        × (r.1 ≡ b.head + b.len)
        × (r.0.len ≡ b.len + size)
        × (r.0.head ≡ b.head)
        × IsBuff r.0)
      ⊎ ((b.truesize < b.len + size) × (r ≡ (b, 0)))
unfolding tpmb_put
tpmb_put_lem b size v h = ground arith

-- On a buffer that satisfies the invariant, tpmb_trim takes back what a tpmb_put that fits has
-- added.
pub tpmb_trim-tpmb_put :
    (b : TpmBuff) (size : ℕ)
    → IsBuff b
    → b.len + size ≤ b.truesize
    → tpmb_trim (tpmb_put b size).0 size ≡ (b, size)
unfolding tpmb_put tpmb_trim
tpmb_trim-tpmb_put b size v h = ground arith

pub tpmb_trim-IsBuff :
    (b : TpmBuff) (size : ℕ)
    → IsBuff b
    → IsBuff (tpmb_trim b size).0 × ((tpmb_trim b size).1 ≤ b.len)
unfolding tpmb_trim
tpmb_trim-IsBuff b size v = ground arith

-- Freeing a used buffer makes it free again, whatever was in it.
pub tpmb_free-IsFree :
    (m : Memory) (b : TpmBuff) → IsBuff b → header_size ≤ b.truesize → IsFree (tpmb_free m b).1
unfolding tpmb_free
tpmb_free-IsFree m b v h = ground arith
