-- ===== src/Tpm/Tis/Recv.antt =====
-- tpmlib/tis.c: tis_recv with recv_data, and tis_init.
use secure_kernel_loader.Base.{
  ◌>>=◌, ℕ, zero, suc, ◌+◌, ◌-◌, not, Option, none, some, ◌==◌, ◌/=◌, ltb, leb, ◌&&◌, ◌++◌,
  if◌then◌else◌, List, get_be32, le16, le32, get_or, ◌<<<◌, bit_and,
}
use secure_kernel_loader.Base.Memory.{Memory, store8, store, load, load32}
use secure_kernel_loader.Tpm.Types.{Family, tpm12, tpm20, tpm_max_locality, tpm_no_locality}
use secure_kernel_loader.Tpm.Buff.{TpmBuff, header_size, tpmb_put}
use secure_kernel_loader.Tpm.Device.{Received, Ops}
use secure_kernel_loader.Tpm.Mmio.{
  Registers, Port, tpm_read8, tpm_write8, tpm_read32, tpm1_timeout_d, tpm2_timeout_d,
}
use secure_kernel_loader.Tpm.Tis.{
  sts, data_fifo, did_vid, sts_command_ready, tis_data_available, burst_wait, tis_send,
  tis_request_locality, tis_relinquish_locality,
}

-- be16_to_cpu and be32_to_cpu on the three fields of a header.
abbrev pub host_header : List ℕ → List ℕ
host_header bytes =
    le16 (get_or bytes 0 0 <<< 8 + get_or bytes 1 0)
    ++ (le32 (get_be32 bytes 2) ++ le32 (get_be32 bytes 6))

unfoldable pub convert_header : Memory → ℕ → Memory
convert_header m hdr = store m hdr (host_header (load m hdr header_size))

module _ {C : Type 0} (io : Registers C) where
  -- for (; burstcnt > 0 && size < len; burstcnt--): the bytes go to `ptr` on.
  unfoldable pub read_burst : ℕ → C → ℕ → Memory → ℕ → ℕ → ℕ → C × Memory × ℕ
  read_burst zero c l m ptr len size = (c, m, size)
  read_burst (suc burstcnt) c l m ptr len size =
      let (c1, byte) = tpm_read8 io c (data_fifo l) in
      let rest = read_burst burstcnt c1 l (store8 m (ptr + size) byte) ptr len (size + 1) in
      if ltb size len then rest else (c, m, size)

-- The answer with a size, 0 being a failure.
abbrev pub received : {C : Type 0} → ℕ → C → Memory → TpmBuff → ℕ → Received (Port C)
received l c m b n = record {
  device = record { locality = l; chip = c };
  memory = m;
  buff = b;
  size = n;
}

module _ {C : Type 0} (io : Registers C) (fuel : ℕ) where
  -- while (tis_data_available(locality) && size < len), where a round reads at least one byte: one
  -- round more than `len` is enough.
  unfoldable pub read_rounds : ℕ → C → ℕ → Memory → ℕ → ℕ → ℕ → Option (C × Memory × ℕ)
  read_rounds zero c l m ptr len size = none
  read_rounds (suc rounds) c l m ptr len size =
      let (c1, available) = tis_data_available io c l in
      let more = do
        (c2, burstcnt) ← burst_wait io fuel c1 l
        let (c3, m3, size3) = read_burst io burstcnt c2 l m ptr len size
        read_rounds rounds c3 l m3 ptr len size3
      in if available && ltb size len then more else some (c1, m, size)

  unfoldable pub recv_data : C → ℕ → Memory → ℕ → ℕ → Option (C × Memory × ℕ)
  unfolding read_rounds
  recv_data c l m ptr len = read_rounds (suc len) c l m ptr len 0

  -- From the test for receive underflow on: the last byte goes to `ptr`.
  unfoldable pub recv_last : C → ℕ → Memory → TpmBuff → ℕ → Option (Received (Port C))
  unfolding recv_data
  recv_last c l m b ptr =
      let (c1, available) = tis_data_available io c l in
      let last = do
        (c2, m2, n) ← recv_data c1 l m ptr 1
        let (c3, more) = tis_data_available io c2 l
        some (
            if n /= 1
            then received l c2 m2 b 0
            else if more
            then received l c3 m2 b 0
            else received l (tpm_write8 io c3 sts_command_ready (sts l)) m2 b
                (load32 m2 (b.head + 2)))
      in if not available then some (received l c1 m b 0) else last

  -- From the test of the size on, which stands in the converted header.
  unfoldable pub recv_body : C → ℕ → Memory → TpmBuff → Option (Received (Port C))
  unfolding recv_data recv_last
  recv_body c l m b =
      let size = load32 m (b.head + 2) in
      let expected = size - header_size in
      let (b1, ptr) = tpmb_put b expected in
      let body = do
        (c1, m1, n) ← recv_data c l m ptr (expected - 1)
        let last = recv_last c1 l m1 b1 ptr
        if ltb n (expected - 1) then some (received l c1 m1 b1 0) else last
      in if leb size header_size
        then some (received l c m b 0)
        else if ptr == 0
        then some (received l c m b1 0)
        else body

  -- From the read of the header on.
  unfoldable pub recv_header : C → ℕ → Memory → TpmBuff → Option (Received (Port C))
  unfolding recv_data recv_body convert_header
  recv_header c l m b = do
    (c1, m1, n) ← recv_data c l m b.head header_size
    let body = recv_body c1 l (convert_header m1 b.head) b
    if ltb n header_size then some (received l c1 m1 b 0) else body

  abbrev pub timeout_d : Family → C → C
  timeout_d tpm12 c = tpm1_timeout_d io c
  timeout_d tpm20 c = tpm2_timeout_d io c

  unfoldable pub tis_recv : Family → Port C → Memory → TpmBuff → Option (Received (Port C))
  unfolding recv_header
  tis_recv f p m b =
      let (c1, ready) = tis_data_available io p.chip p.locality in
      let (c2, late) = tis_data_available io (timeout_d f c1) p.locality in
      let first = recv_header c1 p.locality m b in
      let second = recv_header c2 p.locality m b in
      if ltb tpm_max_locality p.locality
      then some (received p.locality p.chip m b 0)
      else if ready
      then first
      else if late
      then second
      else some (received p.locality c2 m b 0)

  -- The operations that tis_init puts into struct tpm_hw_ops.
  abbrev pub tis_ops : Ops (Port C)
  tis_ops = record {
    request_locality = tis_request_locality io;
    relinquish_locality = tis_relinquish_locality io;
    send = tis_send io fuel;
    recv = tis_recv;
  }

module _ {C : Type 0} (io : Registers C) where
  -- The state after the calls, the vendor where it has been read, and the u8 that is returned.
  unfoldable pub tis_init : Port C → ℕ → Port C × ℕ × ℕ
  tis_init p vendor =
      let (p1, l) = tis_request_locality io (record p { locality = tpm_no_locality }) 0 in
      let (c, v) = tpm_read32 io p1.chip (did_vid 0) in
      let p2 : Port C = record p1 { chip = c } in
      if l /= 0
      then (p1, vendor, 0)
      else if bit_and v 0xFFFF == 0xFFFF
      then (p2, v, 0)
      else (p2, v, 1)
