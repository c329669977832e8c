-- ===== src/Tpm/Tpm2/Keeps.antt =====
-- tpm2_extend_pcr stays inside the buffer.
use secure_kernel_loader.Base.{
  ℕ, zero, suc, ◌+◌, ◌^◌, ◌≤◌, ◌<◌, ◌≡◌, refl, not, some, List, arith, if_elim, Option-cases, ◌==◌,
  if◌then◌else◌, inl, inr, be16, be32, u16, take, length-take, get_le16, get_le32,
}
use secure_kernel_loader.Base.Memory.{Memory, store, memset}
use secure_kernel_loader.Tpm.Buff.{TpmBuff, header_size, tpmb_free, tpmb_reserve, tpmb_put}
use secure_kernel_loader.Tpm.Buff.Room.{
  Agrees, IsHeld, IsUsed, store-Agrees, memset-Agrees, tpmb_free-Agrees, tpmb_reserve_freed,
  tpmb_put-IsUsed, tpmb_put_placed,
}
use secure_kernel_loader.Tpm.Device.{Ops, Tpm, Errno, success, eagain, einval, enomem}
use secure_kernel_loader.Tpm.Types.{tpm_st_sessions, tpm_cc_pcr_extend, tpm_rs_pw}
use secure_kernel_loader.Tpm.Tpm2.{
  Build, built, no_room, no_header, finish, send_command, run_build, tpm2_extend_pcr, build_params,
  build_auth, build_command, tpm2_null_auth, null_auth_size, convert_loop, convert_digest_list,
  digest_step, swap16,
}
use secure_kernel_loader.Tpm.Keeps.{Builds, KeepsResult, KeepsResult-some, finish-Keeps, Keeps-refl}

convert_loop_small :
    (rounds h size : ℕ) (ds : List ℕ) → size < 2 ^ 16 → (convert_loop rounds h size ds).1 < 2 ^ 16
unfolding convert_loop
convert_loop_small zero h size ds s = s
convert_loop_small (suc rounds) h size ds s = elim (Option-cases (digest_step (get_le16 ds h))) [
  | inl e ↦ rw (convert_loop, e) (omega arith)
  | inr ((advance, digest), e) ↦
      rw (convert_loop, e)
        (convert_loop_small rounds (h + advance) (u16 (size + (2 + digest))) (swap16 ds h)
          (omega arith))
]

convert_digest_list_small : (ds : List ℕ) → (convert_digest_list ds).1 < 2 ^ 16
unfolding convert_digest_list
convert_digest_list_small ds = convert_loop_small (get_le32 ds 0) 4 4 ds (omega arith)

module _ (h z : ℕ) (wide : z < 2 ^ 32) (room : header_size ≤ z) where
  build_params-Builds :
      (m0 m : Memory) (b : TpmBuff) (header : ℕ) (ds : List ℕ) (size : ℕ)
      → header ≡ h
      → size < 2 ^ 16
      → Agrees h z m0 m
      → IsUsed h z b
      → Builds h z m0 (build_params m b header ds size)
  unfolding build_params
  build_params-Builds m0 m b header ds size eq small a p =
      if_elim (Builds h z m0) (size == 0) (no_room m b) _ (λ t. (a, p.held))
        (λ f.
          if_elim (Builds h z m0) (params == 0) (no_room m b')
            (built (store copied (header + 2) (be32 b'.len)) b') (λ t. (a, put.held))
            (λ g.
              let (at, len, fits) = tpmb_put_placed h z wide b size (omega arith) p g in
              let copied-Agrees =
                store-Agrees h z m0 m params (take size ds) a (omega (arith, at))
                  (omega (arith, at, fits, length-take size ds)) in
              (
                store-Agrees h z m0 copied (header + 2) (be32 b'.len) copied-Agrees
                    (omega (arith, eq)) (omega (arith, eq, room)),
                put,
              )))
    where
      b' : TpmBuff
      b' = (tpmb_put b size).0

      params : ℕ
      params = (tpmb_put b size).1

      copied : Memory
      copied = store m params (take size ds)

      put : IsUsed h z b'
      put = tpmb_put-IsUsed h z wide b size (omega arith) p

  build_auth-Builds :
      (m0 m : Memory) (b : TpmBuff) (header : ℕ) (ds : List ℕ)
      → header ≡ h
      → Agrees h z m0 m
      → IsUsed h z b
      → Builds h z m0 (build_auth m b header ds)
  unfolding build_auth
  build_auth-Builds m0 m b header ds eq a p =
      if_elim (Builds h z m0) (auth_size == 0) (no_room m b1) _ (λ t. (a, put1.held))
        (λ f.
          if_elim (Builds h z m0) (auth == 0) (no_room m b2) _ (λ t. (a, put2.held))
            (λ g.
              let (at1, len1, fits1) = tpmb_put_placed h z wide b 4 (omega arith) p f in
              let (at2, len2, fits2) =
                tpmb_put_placed h z wide b1 null_auth_size (omega arith) put1 g in
              let wiped =
                memset-Agrees h z m0 m auth 0 null_auth_size a (omega (arith, at2))
                  (omega (arith, at2, fits2)) in
              let named =
                store-Agrees h z m0 (memset m auth 0 null_auth_size) auth (be32 tpm_rs_pw) wiped
                  (omega (arith, at2)) (omega (arith, at2, fits2)) in
              let sized =
                store-Agrees h z m0 (tpm2_null_auth m auth) auth_size (be32 null_auth_size) named
                  (omega (arith, at1)) (omega (arith, at1, fits1)) in
              build_params-Builds m0 _ b2 header (convert_digest_list ds).0
                (convert_digest_list ds).1 eq (convert_digest_list_small ds) sized put2))
    where
      b1 : TpmBuff
      b1 = (tpmb_put b 4).0

      auth_size : ℕ
      auth_size = (tpmb_put b 4).1

      b2 : TpmBuff
      b2 = (tpmb_put b1 null_auth_size).0

      auth : ℕ
      auth = (tpmb_put b1 null_auth_size).1

      put1 : IsUsed h z b1
      put1 = tpmb_put-IsUsed h z wide b 4 (omega arith) p

      put2 : IsUsed h z b2
      put2 = tpmb_put-IsUsed h z wide b1 null_auth_size (omega arith) put1

  build_command-Builds :
      (m : Memory) (b : TpmBuff) (pcr : ℕ) (ds : List ℕ)
      → IsHeld h z b
      → Builds h z m (build_command m b pcr ds)
  unfolding build_command
  build_command-Builds m b pcr ds p =
      if_elim (Builds h z m) (header == 0) (no_header m1 b2) _ (λ t. (freed, used.held))
        (λ f.
          if_elim (Builds h z m) (handles == 0) (no_room named b3) _ (λ t. (named-Agrees, put.held))
            (λ g.
              let (at, len, fits) = tpmb_put_placed h z wide b2 4 (omega arith) used g in
              build_auth-Builds m (store named handles (be32 pcr)) b3 header ds reserved.0
                (store-Agrees h z m named handles (be32 pcr) named-Agrees (omega (arith, at))
                  (omega (arith, at, fits)))
                put))
    where
      m1 : Memory
      m1 = (tpmb_free m b).0

      b1 : TpmBuff
      b1 = (tpmb_free m b).1

      b2 : TpmBuff
      b2 = (tpmb_reserve b1).0

      header : ℕ
      header = (tpmb_reserve b1).1

      b3 : TpmBuff
      b3 = (tpmb_put b2 4).0

      handles : ℕ
      handles = (tpmb_put b2 4).1

      named : Memory
      named = store (store m1 header (be16 tpm_st_sessions)) (header + 6) (be32 tpm_cc_pcr_extend)

      freed : Agrees h z m m1
      freed = tpmb_free-Agrees h z wide m m b (λ x o. refl) p

      reserved : (header ≡ h) × (b2.len ≡ header_size) × IsUsed h z b2
      reserved = tpmb_reserve_freed h z wide m b room p

      used : IsUsed h z b2
      used = let (at, len, used) = reserved in used

      put : IsUsed h z b3
      put = tpmb_put-IsUsed h z wide b2 4 (omega arith) used

      named-Agrees : Agrees h z m named
      named-Agrees =
          store-Agrees h z m (store m1 header (be16 tpm_st_sessions)) (header + 6)
            (be32 tpm_cc_pcr_extend)
            (store-Agrees h z m m1 header (be16 tpm_st_sessions) freed (omega (arith, reserved.0))
              (omega (arith, reserved.0, room)))
            (omega (arith, reserved.0)) (omega (arith, reserved.0, room))

module _ {D : Type 0} (ops : Ops D) (h z : ℕ) (wide : z < 2 ^ 32) (room : header_size ≤ z)
    (t : Tpm D) where
  send_command-KeepsResult :
      (m : Memory) (b : TpmBuff)
      → Agrees h z t.memory m
      → IsHeld h z b
      → KeepsResult h z t (send_command ops t m b)
  send_command-KeepsResult m b a p r e = elim (Option-cases (ops.send t.device m b)) [
    | inl e1 ↦ absurd (let e2 = (rw (send_command, e1) at e) in cc)
    | inr (s, e1) ↦
        let code : Errno = if u16 s.size == b.len then success else eagain in
        KeepsResult-some h z t (finish ops t m b s.device code)
          (finish-Keeps ops h z wide t m b s.device code a p) r (rw (send_command, e1) at e)
  ]

  run_build-KeepsResult :
      (b : Build) → Builds h z t.memory b → KeepsResult h z t (run_build ops t b)
  unfolding run_build
  run_build-KeepsResult (built m b) (a, p) = send_command-KeepsResult m b a p.held
  run_build-KeepsResult (no_room m b) (a, p) =
      KeepsResult-some h z t (finish ops t m b t.device enomem)
        (finish-Keeps ops h z wide t m b t.device enomem a p)
  run_build-KeepsResult (no_header m b) (a, p) =
      KeepsResult-some h z t (record t { memory = m; buff = b }, enomem)
        (record { agrees = a; held = p; family = refl; intf = refl; has_buff = refl })

  pub tpm2_extend_pcr-KeepsResult :
      (pcr : ℕ) (ds : List ℕ) → IsHeld h z t.buff → KeepsResult h z t (tpm2_extend_pcr ops t pcr ds)
  unfolding tpm2_extend_pcr
  tpm2_extend_pcr-KeepsResult pcr ds p =
      if_elim (KeepsResult h z t) (not t.has_buff) (some (t, einval)) _
        (λ u. KeepsResult-some h z t (t, einval) (Keeps-refl h z t p))
        (λ v.
          run_build-KeepsResult (build_command t.memory t.buff pcr ds)
            (build_command-Builds h z wide room t.memory t.buff pcr ds p))
