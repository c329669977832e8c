-- ===== src/Tpm/Tpm1/Keeps.antt =====
-- tpm1_pcr_extend stays inside the buffer.
use secure_kernel_loader.Base.{
  ℕ, ◌+◌, ◌^◌, ◌≤◌, ◌<◌, ◌≡◌, refl, not, some, List, length, arith, if_elim, Option-cases, if_eq,
  ◌==◌, ◌/=◌, if◌then◌else◌, inl, inr, be16, be32,
}
use secure_kernel_loader.Base.Memory.{Memory, load32, store}
use secure_kernel_loader.Tpm.Buff.{
  TpmBuff, header_size, tpmb_free, tpmb_reserve, tpmb_put, tpmb_trim,
}
use secure_kernel_loader.Tpm.Buff.Room.{
  Agrees, Agrees-trans, IsHeld, IsUsed, store-Agrees, tpmb_free-Agrees, tpmb_reserve_freed,
  tpmb_put-IsUsed, tpmb_put_placed, tpmb_trim-IsUsed,
}
use secure_kernel_loader.Tpm.Device.{Ops, Tpm, Errno, success, eagain, einval, enomem}
use secure_kernel_loader.Tpm.Tpm1.{
  build_extend, extend_cmd_size, receive, send_extend, run_extend, tpm1_pcr_extend,
  tpm_tag_rqu_command, tpm_ord_extend,
}
use secure_kernel_loader.Tpm.Tpm2.{Build, built, no_room, no_header, finish}
use secure_kernel_loader.Tpm.Keeps.{
  IsContained, Builds, KeepsResult, KeepsResult-some, finish-Keeps, Keeps-refl,
}

module _ (h z : ℕ) (wide : z < 2 ^ 32) (room : header_size ≤ z) where
  build_extend-Builds :
      (m : Memory) (b : TpmBuff) (pcr : ℕ) (digest : List ℕ)
      → length digest ≤ 20
      → IsHeld h z b
      → Builds h z m (build_extend m b pcr digest)
  unfolding build_extend
  build_extend-Builds m b pcr digest short p =
      if_elim (Builds h z m) (hdr == 0) (no_header m1 b2) _ (λ t. (freed, reserved_used.held))
        (λ f.
          if_elim (Builds h z m) (cmd == 0) (no_room named b3)
            (built (store filled (hdr + 2) (be32 b3.len)) b3) (λ t. (named-Agrees, put.held))
            (λ g.
              let (at, len, fits) =
                tpmb_put_placed h z wide b2 extend_cmd_size (omega arith) reserved_used g in
              let first =
                store-Agrees h z m named cmd (be32 pcr) named-Agrees (omega (arith, at))
                  (omega (arith, at, fits, reserved.1)) in
              let second =
                store-Agrees h z m (store named cmd (be32 pcr)) (cmd + 4) digest first
                  (omega (arith, at)) (omega (arith, at, fits, reserved.1, short)) in
              (
                store-Agrees h z m filled (hdr + 2) (be32 b3.len) second (omega (arith, reserved.0))
                    (omega (arith, reserved.0, room)),
                put,
              )))
    where
      m1 : Memory
      m1 = (tpmb_free m b).0

      b1 : TpmBuff
      b1 = (tpmb_free m b).1

      b2 : TpmBuff
      b2 = (tpmb_reserve b1).0

      hdr : ℕ
      hdr = (tpmb_reserve b1).1

      b3 : TpmBuff
      b3 = (tpmb_put b2 extend_cmd_size).0

      cmd : ℕ
      cmd = (tpmb_put b2 extend_cmd_size).1

      named : Memory
      named = store (store m1 hdr (be16 tpm_tag_rqu_command)) (hdr + 6) (be32 tpm_ord_extend)

      filled : Memory
      filled = store (store named cmd (be32 pcr)) (cmd + 4) digest

      freed : Agrees h z m m1
      freed = tpmb_free-Agrees h z wide m m b (λ x o. refl) p

      reserved : (hdr ≡ h) × (b2.len ≡ header_size) × IsUsed h z b2
      reserved = tpmb_reserve_freed h z wide m b room p

      reserved_used : IsUsed h z b2
      reserved_used = let (at, len, used) = reserved in used

      put : IsUsed h z b3
      put = tpmb_put-IsUsed h z wide b2 extend_cmd_size (omega arith) reserved_used

      named-Agrees : Agrees h z m named
      named-Agrees =
          store-Agrees h z m (store m1 hdr (be16 tpm_tag_rqu_command)) (hdr + 6)
            (be32 tpm_ord_extend)
            (store-Agrees h z m m1 hdr (be16 tpm_tag_rqu_command) freed (omega (arith, reserved.0))
              (omega (arith, reserved.0, room)))
            (omega (arith, reserved.0)) (omega (arith, reserved.0, room))

module _ {D : Type 0} (ops : Ops D) (h z : ℕ) (wide : z < 2 ^ 32) (room : header_size ≤ z)
    (c : IsContained ops) (t : Tpm D) where
  receive-KeepsResult :
      (m : Memory) (b : TpmBuff) (d : D)
      → Agrees h z t.memory m
      → IsUsed h z b
      → KeepsResult h z t (receive ops t m b d)
  unfolding receive
  receive-KeepsResult m b d a p r e = elim (Option-cases (ops.recv t.family d m headed)) [
    | inl e1 ↦ absurd (let e2 = (rw (receive, e1) at e) in cc)
    | inr (q, e1) ↦
        let (agrees, held) = c.contained h z t.family d m headed q room wide used e1 in
        let code : Errno =
          if q.buff.len /= q.size
          then eagain
          else if load32 q.memory (trimmed.head + 6) /= 0
          then eagain
          else success in
        let k =
          finish-Keeps ops h z wide t q.memory q.buff q.device code
            (Agrees-trans h z t.memory m q.memory a agrees) held in
        KeepsResult-some h z t (finish ops t q.memory q.buff q.device code) k r
          (rw (receive, e1) at e)
  ]
    where
      trimmed : TpmBuff
      trimmed = (tpmb_trim b b.len).0

      headed : TpmBuff
      headed = (tpmb_put trimmed header_size).0

      used : IsUsed h z headed
      used =
          tpmb_put-IsUsed h z wide trimmed header_size (omega arith)
            (tpmb_trim-IsUsed h z wide b b.len p)

  send_extend-KeepsResult :
      (m : Memory) (b : TpmBuff)
      → Agrees h z t.memory m
      → IsUsed h z b
      → KeepsResult h z t (send_extend ops t m b)
  unfolding send_extend
  send_extend-KeepsResult m b a p r e = elim (Option-cases (ops.send t.device m b)) [
    | inl e1 ↦ absurd (let e2 = (rw (send_extend, e1) at e) in cc)
    | inr (s, e1) ↦
        let failed : Tpm D × Errno = finish ops t m b s.device eagain in
        elim (if_eq (b.len /= s.size) (some failed) _ (some r) (rw (send_extend, e1) at e)) [
          | inl (u, e3) ↦
              KeepsResult-some h z t failed
                (finish-Keeps ops h z wide t m b s.device eagain a p.held) r e3
          | inr (v, e3) ↦ receive-KeepsResult m b s.device a p r e3
        ]
  ]

  run_extend-KeepsResult :
      (b : Build) → Builds h z t.memory b → KeepsResult h z t (run_extend ops t b)
  unfolding run_extend
  run_extend-KeepsResult (built m b) (a, p) = send_extend-KeepsResult m b a p
  run_extend-KeepsResult (no_room m b) (a, p) =
      KeepsResult-some h z t _ (finish-Keeps ops h z wide t m b t.device enomem a p)
  run_extend-KeepsResult (no_header m b) (a, p) =
      KeepsResult-some h z t (record t { memory = m; buff = b }, enomem)
        (record { agrees = a; held = p; family = refl; intf = refl; has_buff = refl })

  pub tpm1_pcr_extend-KeepsResult :
      (pcr : ℕ) (digest : List ℕ)
      → length digest ≤ 20
      → IsHeld h z t.buff
      → KeepsResult h z t (tpm1_pcr_extend ops t pcr digest)
  unfolding tpm1_pcr_extend
  tpm1_pcr_extend-KeepsResult pcr digest short p =
      if_elim (KeepsResult h z t) (not t.has_buff) (some (t, einval)) _
        (λ u. KeepsResult-some h z t (t, einval) (Keeps-refl h z t p))
        (λ v.
          run_extend-KeepsResult (build_extend t.memory t.buff pcr digest)
            (build_extend-Builds h z wide room t.memory t.buff pcr digest short p))
