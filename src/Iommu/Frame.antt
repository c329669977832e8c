-- ===== src/Iommu/Frame.antt =====
-- What iommu_setup leaves alone in memory.
use secure_kernel_loader.Base.{
  ℕ, zero, suc, ◌+◌, ◌*◌, ◌<◌, ◌≡◌, refl, ◌∙◌, inl, inr, Bool, Option, none, some, if_elim, if_eq,
  arith, u32, ◌>>>◌, ◌<<<◌, ◌==◌, ◌/=◌, ◌||◌, bit_and, bit_or, ◌++◌, le32, if◌then◌else◌,
}
use mathlib.Core.Path.{subst}
use secure_kernel_loader.Base.Memory.{Outside, store, store-Outside, load32}
use secure_kernel_loader.Pci.{Io, Access, pci_read, pci_init}
use secure_kernel_loader.Dev.{disable_memory_protection}
use secure_kernel_loader.Iommu.{
  Mmio, Tables, Command, command_bytes, Machine, command_buf_tail, extended_feature, send_command,
  flush, program, iommu_load_device_table, iommu_locate, wait, finish_setup, setup_at, iommu_setup,
  iommu_function,
}

-- The hardware gives back tails inside the buffer of n commands, and writes nothing to x while it is
-- polled; x is outside that buffer and outside iommu_done.
pub record IsQuiet {H : Type 0} (regs : Mmio H) (tables : Tables) (poll : Machine H → Machine H)
    (done n x : ℕ) : Type 0 where
  pub tail : (h : H) (base : ℕ) → u32 (regs.get h base command_buf_tail >>> 4) < n
  pub polled : (s : Machine H) → (poll s).memory x ≡ s.memory x
  pub unwritten : Outside tables.command_buf (16 * n) x
  pub not_done : Outside done 8 x

module _ {H : Type 0} (io : Io H) (regs : Mmio H) (tables : Tables) (poll : Machine H → Machine H)
    (done n x : ℕ) (q : IsQuiet regs tables poll done n x) where
  send_command-keeps :
      (base : ℕ) (s : Machine H) (c : Command)
      → (send_command io regs tables base s c).memory x ≡ s.memory x
  unfolding send_command
  send_command-keeps base s c =
      let cmd_ptr = u32 (regs.get s.hardware base command_buf_tail >>> 4) in
      store-Outside s.memory (tables.command_buf + 16 * cmd_ptr) (command_bytes c) x
        (omega (arith, q.tail s.hardware base, q.unwritten))

  flush-keeps :
      (base : ℕ) (s : Machine H) (completed : ℕ)
      → (flush io regs tables base s completed).memory x ≡ s.memory x
  unfolding flush
  flush-keeps base s completed =
      let all : Command = record { u0 = 0; u1 = 8 <<< 28; u2 = 0; u3 = 0 } in
      let invalidated = send_command io regs tables base s all in
      let b : Bool = bit_and (regs.get s.hardware base extended_feature) (1 <<< 6) /= 0 in
      let last : Command = record {
        u0 = u32 (bit_or completed 1);
        u1 = 1 <<< 28;
        u2 = 0x656e6f64;
        u3 = 0;
      } in
      send_command-keeps base (if b then invalidated else s) last
      ∙ if_elim (λ (k : Machine H). k.memory x ≡ s.memory x) b invalidated s
          (λ t. send_command-keeps base s all) (λ f. refl)

  load-keeps :
      (access : Access) (s : Machine H) (cap completed : ℕ)
      → (iommu_load_device_table io regs tables access s cap completed).0.memory x ≡ s.memory x
  unfolding iommu_load_device_table
  load-keeps access s cap completed =
      let (k, low) = pci_read io access s.hardware 0 0 iommu_function (u32 (cap + 4)) 4 0 in
      let (j, hi) = pci_read io access k 0 0 iommu_function (u32 (cap + 8)) 4 0 in
      let base = bit_or (hi.0 <<< 32) (bit_and low.0 0xffffc000) in
      if_elim (λ (r : Machine H × ℕ). r.0.memory x ≡ s.memory x) (bit_and low.0 1 == 0)
        (record s { hardware = k }, 1)
        (
          flush io regs tables base (record s { hardware = program io regs tables base j })
              completed,
          0,
        )
        (λ t. refl)
        (λ f. flush-keeps base (record s { hardware = program io regs tables base j }) completed)

  wait-keeps :
      (fuel : ℕ) (s k : Machine H)
      → wait io regs tables poll fuel done s ≡ some k
      → k.memory x ≡ s.memory x
  unfolding wait
  wait-keeps zero s k e = absurd cc
  wait-keeps (suc fuel) s k e =
      elim (if_eq ((load32 s.memory done /= 0) || (load32 s.memory (done + 4) /= 0)) (some s) _
        (some k) e) [
          | inl (t, e') ↦
              let p : s ≡ k = cc in subst (λ (k : Machine H). k.memory x ≡ s.memory x) p refl
          | inr (f, e') ↦ wait-keeps fuel (poll s) k e' ∙ q.polled s
        ]

  finish_setup-keeps :
      (fuel : ℕ) (access : Access) (s k : Machine H) (cap : ℕ) (o : Option H)
      → finish_setup io regs tables poll fuel access s cap done o ≡ some k
      → k.memory x ≡ s.memory x
  unfolding finish_setup
  finish_setup-keeps fuel access s k cap none e = absurd cc
  finish_setup-keeps fuel access s k cap (some h) e =
      wait-keeps fuel
        (iommu_load_device_table io regs tables access (record s { hardware = h }) cap done).0 k e
      ∙ load-keeps access (record s { hardware = h }) cap done

  setup_at-keeps :
      (fuel : ℕ) (access : Access) (s k : Machine H) (o : Option (H × ℕ))
      → setup_at io regs tables poll fuel access s done o ≡ some k
      → k.memory x ≡ s.memory x
  unfolding setup_at
  setup_at-keeps fuel access s k none e = absurd cc
  setup_at-keeps fuel access s k (some (h, cap)) e =
      let found = record s { hardware = h } in
      let (j, failed) = iommu_load_device_table io regs tables access found cap done in
      let loaded : j.memory x ≡ s.memory x = load-keeps access found cap done in
      elim (if_eq (cap == 0) (some found) _ (some k) e) [
        | inl (t, e') ↦
            let p : found ≡ k = cc in subst (λ (k : Machine H). k.memory x ≡ s.memory x) p refl
        | inr (f, e') ↦ elim (if_eq (failed /= 0) (some j) _ (some k) e') [
          | inl (t, e2) ↦
              let p : j ≡ k = cc in subst (λ (k : Machine H). k.memory x ≡ s.memory x) p loaded
          | inr (g, e2) ↦
              finish_setup-keeps fuel access j k cap
                (disable_memory_protection io access fuel j.hardware) e2
              ∙ loaded
        ]
      ]

  -- Where the tail register gives back places inside the buffer of n commands and polling does not
  -- write the byte at x, an iommu_setup that returns leaves the byte at x, outside that buffer and
  -- iommu_done, as it was.
  pub iommu_setup-keeps :
      (fuel : ℕ) (s k : Machine H)
      → iommu_setup io regs tables poll fuel s done ≡ some k
      → k.memory x ≡ s.memory x
  unfolding iommu_setup
  iommu_setup-keeps fuel s k e =
      setup_at-keeps fuel (pci_init io s.hardware)
        (record s { memory = store s.memory done (le32 0 ++ le32 0) }) k
        (iommu_locate io regs tables fuel (pci_init io s.hardware) s.hardware) e
      ∙ store-Outside s.memory done (le32 0 ++ le32 0) x (omega (arith, q.not_done))
