-- ===== src/Loader/Main.antt =====
-- What holds when skl_main returns to the assembly code that enters the kernel.
use mathlib.Core.Path.{subst}
use secure_kernel_loader.Base.{
  ℕ, zero, suc, ap, ◌≡◌, ◌≢◌, refl, Bool, true, false, Option, none, some, bit_and, ◌==◌, arith,
  Bool-cases, inl, inr,
}
use secure_kernel_loader.Base.Memory.{load32}
use secure_kernel_loader.Tags.{
  tags_size, check_format, only_where, skl_tag_class_mask, skl_tag_boot_class,
}
use secure_kernel_loader.Tpm.Device.{Ops, Tpm}
use secure_kernel_loader.Tpm.Front.{tpm_request_locality}
use secure_kernel_loader.EventLog.{Log}
use secure_kernel_loader.EventLog.Init.{event_log_init}
use secure_kernel_loader.Pci.{Io}
use secure_kernel_loader.Iommu.{Mmio, Machine}
use secure_kernel_loader.Loader.{Loader, Outcome, reboots, faults, returns}
use secure_kernel_loader.Loader.Measure.{extend_pcr, release}
use secure_kernel_loader.Loader.Boot.{
  Places, boot_tag, check_canary, finish_main, main_measured, main_logged, main_format, skl_main,
  measured_data,
}

module _ {D H : Type 0} (ops : Ops D) (io : Io H) (regs : Mmio H) (poll : Machine H → Machine H)
    (places : Places) (fuel : ℕ) where
  -- The end of the path: the switch over the one boot tag returned, the TPM was let go, and the canary
  -- was whole.
  pub record IsEntered (s k : Loader D H) (entry zero_page : ℕ) : Type 0 where
    pub tag : ℕ
    pub j : Loader D H
    pub one_tag :
        only_where places.image s.tpm.memory
          (λ c. bit_and c skl_tag_class_mask == skl_tag_boot_class)
          fuel
          places.image.data_at
        ≡ some tag
    pub present : tag ≢ 0
    pub switched :
        boot_tag ops io regs poll places fuel s (some tag) ≡ some (returns j entry zero_page)
    pub released : release ops j ≡ some k
    pub canary : load32 k.tpm.memory places.skl_stack_canary ≡ 0xDEADBEEF

  -- The whole path: `t` is the TPM with its locality, `l` the log that event_log_init left.
  pub record IsBooted (s k : Loader D H) (entry zero_page : ℕ) : Type 0 where
    pub accepted : check_format places.image s.tpm.memory fuel ≡ some true
    pub t : Tpm D
    pub l : Log
    pub code : ℕ
    pub measured : Loader D H
    pub granted : t ≡ (tpm_request_locality ops places.tis_buff s.tpm 2).0
    pub logged :
        event_log_init places.image fuel t.family (record s.log { memory = t.memory })
        ≡ some (l, code)
    pub extended :
        extend_pcr ops
          (record s { tpm = record t { memory = l.memory }; log = l })
          places.image.data_at
          (tags_size places.image l.memory)
          18
          measured_data
        ≡ some measured
    pub entered : IsEntered measured k entry zero_page

  returned :
      (q k : Loader D H) (e entry z zero_page : ℕ)
      → some (returns q e z) ≡ some (returns k entry zero_page)
      → (q ≡ k) × (e ≡ entry) × (z ≡ zero_page)
  returned q k e entry z zero_page h = (cc, cc, cc)

  checked_canary :
      (o : Option (Loader D H)) (k : Loader D H) (e entry z zero_page : ℕ)
      → some (check_canary ops io regs poll places fuel o e z) ≡ some (returns k entry zero_page)
      → (o ≡ some k)
        × (e ≡ entry)
        × (z ≡ zero_page)
        × (load32 k.tpm.memory places.skl_stack_canary ≡ 0xDEADBEEF)
  unfolding check_canary
  checked_canary none k e entry z zero_page h = absurd cc
  checked_canary (some q) k e entry z zero_page h =
      elim (Bool-cases (load32 q.tpm.memory places.skl_stack_canary == 0xDEADBEEF)) [
        | inl whole ↦
            let (qk, ee, ze) = returned q k e entry z zero_page (rw whole at h) in
            let kept : load32 q.tpm.memory places.skl_stack_canary ≡ 0xDEADBEEF =
              ground (arith, whole) in
            (
              ap some qk,
              ee,
              ze,
              subst (λ (x : Loader D H). load32 x.tpm.memory places.skl_stack_canary ≡ 0xDEADBEEF)
                  qk kept,
            )
        | inr broken ↦ absurd (let h' = (rw broken at h) in cc)
      ]

  finished_step :
      (o : Option (Outcome D H)) (k : Loader D H) (entry zero_page : ℕ)
      → finish_main ops io regs poll places fuel o ≡ some (returns k entry zero_page)
      → (j : Loader D H) × (o ≡ some (returns j entry zero_page))
        × (release ops j ≡ some k)
        × (load32 k.tpm.memory places.skl_stack_canary ≡ 0xDEADBEEF)
  unfolding finish_main
  finished_step none k entry zero_page h = absurd cc
  finished_step (some reboots) k entry zero_page h = absurd cc
  finished_step (some faults) k entry zero_page h = absurd cc
  finished_step (some (returns j e z)) k entry zero_page h =
      let (r, ee, ze, canary) = checked_canary (release ops j) k e entry z zero_page h in
      (j, rw (ee, ze) refl, r, canary)

  boot_tag-some :
      (s j : Loader D H) (o : Option ℕ) (entry zero_page : ℕ)
      → boot_tag ops io regs poll places fuel s o ≡ some (returns j entry zero_page)
      → (tag : ℕ) × (o ≡ some tag) × (tag ≢ 0)
  unfolding boot_tag
  boot_tag-some s j none entry zero_page h = absurd cc
  boot_tag-some s j (some zero) entry zero_page h = absurd cc
  boot_tag-some s j (some (suc tag)) entry zero_page h = (suc tag, refl, omega arith)

  entered_step :
      (o : Option (Loader D H)) (k : Loader D H) (entry zero_page : ℕ)
      → main_measured ops io regs poll places fuel o ≡ some (returns k entry zero_page)
      → (m : Loader D H) × (o ≡ some m) × IsEntered m k entry zero_page
  unfolding main_measured
  entered_step none k entry zero_page h = absurd cc
  entered_step (some s) k entry zero_page h =
      let (j, switched, released, canary) = finished_step _ k entry zero_page h in
      let (tag, one, present) = boot_tag-some s j _ entry zero_page switched in
      (
        s,
        refl,
        record {
          tag = tag;
          j = j;
          one_tag = one;
          present = present;
          switched =
              subst
                (λ (o : Option ℕ).
                  boot_tag ops io regs poll places fuel s o ≡ some (returns j entry zero_page))
                one switched;
          released = released;
          canary = canary;
        },
      )

  logged_step :
      (s k : Loader D H) (t : Tpm D) (o : Option (Log × ℕ)) (entry zero_page : ℕ)
      → check_format places.image s.tpm.memory fuel ≡ some true
      → t ≡ (tpm_request_locality ops places.tis_buff s.tpm 2).0
      → event_log_init places.image fuel t.family (record s.log { memory = t.memory }) ≡ o
      → main_logged ops io regs poll places fuel s t o ≡ some (returns k entry zero_page)
      → IsBooted s k entry zero_page
  unfolding main_logged
  logged_step s k t none entry zero_page a g e h = absurd cc
  logged_step s k t (some (l, code)) entry zero_page a g e h =
      let (m, extended, entered) = entered_step _ k entry zero_page h in
      record {
        accepted = a;
        t = t;
        l = l;
        code = code;
        measured = m;
        granted = g;
        logged = e;
        extended = extended;
        entered = entered;
      }

  format_step :
      (s k : Loader D H) (o : Option Bool) (entry zero_page : ℕ)
      → check_format places.image s.tpm.memory fuel ≡ o
      → main_format ops io regs poll places fuel s o ≡ some (returns k entry zero_page)
      → IsBooted s k entry zero_page
  unfolding main_format
  format_step s k none entry zero_page e h = absurd cc
  format_step s k (some false) entry zero_page e h = absurd cc
  format_step s k (some true) entry zero_page e h =
      logged_step s k _ _ entry zero_page e refl refl h

  -- The states that a skl_main that returns went through.
  pub skl_main-IsBooted :
      (s k : Loader D H) (entry zero_page : ℕ)
      → skl_main ops io regs poll places fuel s ≡ some (returns k entry zero_page)
      → IsBooted s k entry zero_page
  unfolding skl_main
  skl_main-IsBooted s k entry zero_page h = format_step s k _ entry zero_page refl h
