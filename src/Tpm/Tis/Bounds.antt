-- ===== src/Tpm/Tis/Bounds.antt =====
-- tis_recv writes inside the buffer, whatever the TPM answers.
use mathlib.Core.Path.{subst}
use secure_kernel_loader.Base.{
  bind_some, Bool-cases, u32, u64, get_be32, if_eq, if_elim, ℕ, zero, suc, ◌+◌, ◌-◌, ◌^◌, ◌≤◌, ◌<◌,
  ◌≡◌, refl, ◌∙◌, Bool, false, not, ◌&&◌, Option, some, inl, inr, ◌==◌, ◌/=◌, ltb, leb, ltb→lt,
  if◌then◌else◌, arith,
}
use secure_kernel_loader.Base.Memory.{
  Memory, Outside, store8, store, load, load32, store-Outside, load32-store_inside,
}
use secure_kernel_loader.Tpm.Types.{Family, tpm_max_locality}
use secure_kernel_loader.Tpm.Buff.{TpmBuff, header_size, tpmb_put}
use secure_kernel_loader.Tpm.Device.{Received}
use secure_kernel_loader.Tpm.Mmio.{Registers, Port, tpm_read8, tpm_write8}
use secure_kernel_loader.Tpm.Tis.{tis_data_available, burst_wait, data_fifo, sts, sts_command_ready}
use secure_kernel_loader.Tpm.Tis.Recv.{
  host_header, convert_header, read_burst, read_rounds, recv_data, recv_last, recv_body,
  recv_header, tis_recv, timeout_d, received,
}

module _ {C : Type 0} (io : Registers C) (fuel : ℕ) (l x : ℕ) where
  -- A burst that fills up `len` bytes at `ptr` keeps the byte at x, which is not one of them.
  read_burst-Outside :
      (burstcnt : ℕ) (c : C) (m : Memory) (ptr len size : ℕ)
      → Outside ptr len x
      → (read_burst io burstcnt c l m ptr len size).1 x ≡ m x
  unfolding read_burst
  read_burst-Outside zero c m ptr len size o = refl
  read_burst-Outside (suc burstcnt) c m ptr len size o =
      let (c1, byte) = tpm_read8 io c (data_fifo l) in
      let m1 = store8 m (ptr + size) byte in
      if_elim (λ (r : C × Memory × ℕ). r.1 x ≡ m x) (ltb size len)
        (read_burst io burstcnt c1 l m1 ptr len (size + 1)) (c, m, size)
        (λ t.
          let lt : size < len = ltb→lt size len t in
          read_burst-Outside burstcnt c1 m1 ptr len (size + 1) o ∙ ground arith)
        (λ f. refl)

  pub read_rounds-Outside :
      (rounds : ℕ) (c : C) (m : Memory) (ptr len size : ℕ) (r : C × Memory × ℕ)
      → Outside ptr len x
      → read_rounds io fuel rounds c l m ptr len size ≡ some r
      → r.1 x ≡ m x
  unfolding read_rounds
  read_rounds-Outside zero c m ptr len size r o e = absurd cc
  read_rounds-Outside (suc rounds) c m ptr len size r o e =
      let (c1, available) = tis_data_available io c l in
      elim (if_eq (available && ltb size len) _ (some (c1, m, size)) (some r) e) [
        | inl (t, e') ↦
            let ((c2, burstcnt), e1, e2) = bind_some (burst_wait io fuel c1 l) _ _ e' in
            let (c3, m3, size3) = read_burst io burstcnt c2 l m ptr len size in
            read_rounds-Outside rounds c3 m3 ptr len size3 r o e2
            ∙ read_burst-Outside burstcnt c2 m ptr len size o
        | inr (f, e') ↦
            let q : (c1, m, size) ≡ r = cc in subst (λ (r : C × Memory × ℕ). r.1 x ≡ m x) q refl
      ]

  -- A header stays inside its ten bytes when it is converted.
  convert_header-Outside :
      (m : Memory) (hdr : ℕ) → Outside hdr header_size x → convert_header m hdr x ≡ m x
  unfolding convert_header load
  convert_header-Outside m hdr o = store-Outside m hdr _ x o

  pub convert_header_size :
      (m : Memory) (hdr : ℕ) → load32 (convert_header m hdr) (hdr + 2) < 2 ^ 32
  unfolding convert_header
  convert_header_size m hdr =
      let bytes = load m hdr header_size in
      let e : load32 (store m hdr (host_header bytes)) (hdr + 2) ≡ u32 (get_be32 bytes 2) =
        load32-store_inside m hdr (host_header bytes) 2 (omega arith) ∙ omega arith in
      omega (arith, e)

  -- An answer keeps the byte at x.
  abbrev IsKept : Memory → Received (Port C) → Type 0
  IsKept m r = r.memory x ≡ m x

  pub recv_last-IsKept :
      (c : C) (m : Memory) (b : TpmBuff) (ptr : ℕ) (r : Received (Port C))
      → Outside ptr 1 x
      → recv_last io fuel c l m b ptr ≡ some r
      → IsKept m r
  unfolding recv_last recv_data
  recv_last-IsKept c m b ptr r o e =
      let (c1, available) = tis_data_available io c l in
      elim (if_eq (not available) (some (received l c1 m b 0)) _ (some r) e) [
        | inl (t, e') ↦ let q : received l c1 m b 0 ≡ r = cc in subst (IsKept m) q refl
        | inr (f, e') ↦
            let ((c2, m2, n), e1, e2) = bind_some (recv_data io fuel c1 l m ptr 1) _ _ e' in
            let (c3, more) = tis_data_available io c2 l in
            let kept : m2 x ≡ m x = read_rounds-Outside 2 c1 m ptr 1 0 (c2, m2, n) o e1 in
            let whole : Received (Port C) =
              received l (tpm_write8 io c3 sts_command_ready (sts l)) m2 b
                (load32 m2 (b.head + 2)) in
            let end : Received (Port C) =
              (if n /= 1
                then received l c2 m2 b 0
                else if more
                then received l c3 m2 b 0
                else whole) in
            let q : end ≡ r = cc in
            subst (IsKept m) q (
              if_elim (IsKept m) (n /= 1) (received l c2 m2 b 0)
                (if more then received l c3 m2 b 0 else whole) (λ t. kept)
                (λ f. if_elim (IsKept m) more (received l c3 m2 b 0) whole (λ t. kept) (λ f. kept)))
      ]

  -- Where tpmb_put finds room, it is behind the tail and inside the buffer.
  pub tpmb_put_room :
      (b : TpmBuff) (n : ℕ)
      → ((tpmb_put b n).1 == 0) ≡ false
      → b.len < 2 ^ 32
      → n < 2 ^ 32
      → ((tpmb_put b n).1 ≡ b.tail) × (b.len + n ≤ b.truesize)
  unfolding tpmb_put
  tpmb_put_room b n h small small' = elim (Bool-cases (ltb b.truesize (u64 (b.len + n)))) [
    | inl t ↦ absurd (ground (arith, t))
    | inr f ↦ rw f (refl, ground arith)
  ]

  recv_body-IsKept :
      (c : C) (m : Memory) (b : TpmBuff) (r : Received (Port C))
      → b.tail ≡ b.head + b.len
      → b.len < 2 ^ 32
      → load32 m (b.head + 2) < 2 ^ 32
      → Outside b.head b.truesize x
      → recv_body io fuel c l m b ≡ some r
      → IsKept m r
  unfolding recv_body recv_data
  recv_body-IsKept c m b r tail small size_small o e =
      elim (if_eq (leb size header_size) (some (received l c m b 0)) _ (some r) e) [
        | inl (t, e') ↦ let q : received l c m b 0 ≡ r = cc in subst (IsKept m) q refl
        | inr (f, e') ↦ elim (if_eq (ptr == 0) (some (received l c m b1 0)) _ (some r) e') [
          | inl (t, e'') ↦ let q : received l c m b1 0 ≡ r = cc in subst (IsKept m) q refl
          | inr (g, e'') ↦
              let ((c1, m1, n), e1, e2) =
                bind_some (recv_data io fuel c l m ptr (expected - 1)) _ _ e'' in
              let (at, room) = tpmb_put_room b expected g small (omega arith) in
              let kept : m1 x ≡ m x =
                read_rounds-Outside (suc (expected - 1)) c m ptr (expected - 1) 0 (c1, m1, n)
                  (inside at room (expected - 1) (omega arith)) e1 in
              elim (if_eq (ltb n (expected - 1)) (some (received l c1 m1 b1 0)) _ (some r) e2) [
                | inl (t, e3) ↦ let q : received l c1 m1 b1 0 ≡ r = cc in subst (IsKept m) q kept
                | inr (k, e3) ↦
                    recv_last-IsKept c1 m1 b1 ptr r (inside at room 1 (ground (arith, f))) e3 ∙ kept
              ]
        ]
      ]
    where
      size : ℕ
      size = load32 m (b.head + 2)

      expected : ℕ
      expected = size - header_size

      b1 : TpmBuff
      b1 = (tpmb_put b expected).0

      ptr : ℕ
      ptr = (tpmb_put b expected).1

      inside :
          ptr ≡ b.tail → b.len + expected ≤ b.truesize → (n : ℕ) → n ≤ expected → Outside ptr n x
      inside at room n h = omega arith

  recv_header-IsKept :
      (c : C) (m : Memory) (b : TpmBuff) (r : Received (Port C))
      → b.tail ≡ b.head + b.len
      → b.len < 2 ^ 32
      → header_size ≤ b.truesize
      → Outside b.head b.truesize x
      → recv_header io fuel c l m b ≡ some r
      → IsKept m r
  unfolding recv_header recv_data
  recv_header-IsKept c m b r tail small room o e =
      let ((c1, m1, n), e1, e2) = bind_some (recv_data io fuel c l m b.head header_size) _ _ e in
      let kept : m1 x ≡ m x =
        read_rounds-Outside 11 c m b.head header_size 0 (c1, m1, n) (omega arith) e1 in
      elim (if_eq (ltb n header_size) (some (received l c1 m1 b 0)) _ (some r) e2) [
        | inl (t, e3) ↦ let q : received l c1 m1 b 0 ≡ r = cc in subst (IsKept m) q kept
        | inr (f, e3) ↦
            recv_body-IsKept c1 (convert_header m1 b.head) b r tail small
              (convert_header_size m1 b.head) o e3
            ∙ (convert_header-Outside m1 b.head (omega arith) ∙ kept)
      ]

module _ {C : Type 0} where
  -- Whatever the registers answer, a tis_recv that returns leaves memory outside the buffer as it
  -- was, where the tail of the buffer is its length behind its head, the length is below 2 ^ 32,
  -- and the buffer has room for a header.
  pub tis_recv-Outside :
      (io : Registers C) (fuel : ℕ) (f : Family) (p : Port C) (m : Memory) (b : TpmBuff)
      (r : Received (Port C))
      → b.tail ≡ b.head + b.len
      → b.len < 2 ^ 32
      → header_size ≤ b.truesize
      → tis_recv io fuel f p m b ≡ some r
      → (x : ℕ) → Outside b.head b.truesize x
      → r.memory x ≡ m x
  unfolding tis_recv
  tis_recv-Outside io fuel f p m b r tail small room e x o =
      elim (if_eq (ltb tpm_max_locality l) (some (received l p.chip m b 0)) _ (some r) e) [
        | inl (t, e') ↦
            let q : received l p.chip m b 0 ≡ r = cc in subst (IsKept io fuel l x m) q refl
        | inr (u, e') ↦ elim (if_eq ready first _ (some r) e') [
          | inl (t, e'') ↦ recv_header-IsKept io fuel l x c1 m b r tail small room o e''
          | inr (v, e'') ↦ elim (if_eq late second (some (received l c2 m b 0)) (some r) e'') [
            | inl (t, e3) ↦ recv_header-IsKept io fuel l x c2 m b r tail small room o e3
            | inr (w, e3) ↦
                let q : received l c2 m b 0 ≡ r = cc in subst (IsKept io fuel l x m) q refl
          ]
        ]
      ]
    where
      l : ℕ
      l = p.locality

      c1 : C
      c1 = (tis_data_available io p.chip l).0

      ready : Bool
      ready = (tis_data_available io p.chip l).1

      c2 : C
      c2 = (tis_data_available io (timeout_d io fuel f c1) l).0

      late : Bool
      late = (tis_data_available io (timeout_d io fuel f c1) l).1

      first : Option (Received (Port C))
      first = recv_header io fuel c1 l m b

      second : Option (Received (Port C))
      second = recv_header io fuel c2 l m b
