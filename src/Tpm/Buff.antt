-- ===== src/Tpm/Buff.antt =====
-- tpmlib/tpm_buff.c: the buffer that a command is built in and a response is read into. The bytes
-- lie in memory at `head`; a returned pointer is an address, and 0 is NULL.
pub mod Laws
pub mod Room
use secure_kernel_loader.Base.{ℕ, ◌+◌, ◌-◌, ◌*◌, Bool, ltb, ◌/=◌, if◌then◌else◌, u64, ◌<<<◌}
use secure_kernel_loader.Base.Memory.{Memory, memset}
use secure_kernel_loader.Tpm.Types.{Interface, tpm_tis, tpm_crb}

-- struct tpmbuff.
pub record TpmBuff : Type 0 where
  pub truesize : ℕ
  pub len : ℕ
  pub locked : Bool
  pub head : ℕ
  pub body : ℕ
  pub tail : ℕ
  pub end_at : ℕ

-- sizeof(struct tpm_header).
abbrev pub header_size : ℕ
header_size = 10

unfoldable pub tpmb_reserve : TpmBuff → TpmBuff × ℕ
tpmb_reserve b = if b.locked then (b, 0) else (
  record b {
    len = header_size;
    locked = Bool.true;
    body = b.head + header_size;
    tail = b.head + header_size;
  },
  b.head,
)

unfoldable pub tpmb_free : Memory → TpmBuff → Memory × TpmBuff
tpmb_free m b =
    (memset m b.head 0 b.len, record b { len = 0; locked = Bool.false; body = 0; tail = 0 })

unfoldable pub tpmb_put : TpmBuff → ℕ → TpmBuff × ℕ
tpmb_put b size =
    if ltb b.truesize (u64 (b.len + size))
    then (b, 0)
    else (record b { tail = b.tail + size; len = b.len + size }, b.tail)

unfoldable pub tpmb_trim : TpmBuff → ℕ → TpmBuff × ℕ
tpmb_trim b size =
    let cut = if ltb b.len size then b.len else size in
    (record b { tail = b.tail - cut; len = b.len - cut }, cut)

abbrev pub tpmb_size : TpmBuff → ℕ
tpmb_size b = b.len

abbrev pub tpm_mmio_base : ℕ
tpm_mmio_base = 0xFED40000

-- The label reset of alloc_tpmbuff.
reset : TpmBuff → TpmBuff
reset b = record b {
  len = 0;
  locked = Bool.false;
  body = 0;
  tail = 0;
  end_at = b.head + (b.truesize - 1);
}

-- `tis_buff` is the address of the static buffer of 1024 bytes.
unfoldable pub alloc_tpmbuff : ℕ → TpmBuff → Interface → ℕ → TpmBuff
unfolding reset
alloc_tpmbuff tis_buff b tpm_tis locality =
    if b.head /= 0 then reset b else reset (record b { head = tis_buff; truesize = 1024 })
alloc_tpmbuff tis_buff b tpm_crb locality =
    reset (record b { head = tpm_mmio_base + locality <<< 12 + 0x80; truesize = 3966 })

unfoldable pub free_tpmbuff : TpmBuff → TpmBuff
free_tpmbuff b = record b { head = 0 }
