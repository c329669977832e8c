-- ===== src/Loader/Mbi.antt =====
-- The whole of skl_multiboot2: its measurements, its checks, and the log behind it.
use mathlib.Core.Path.{subst}
use secure_kernel_loader.Base.{
  ℕ, ◌+◌, ◌^◌, ◌≤◌, ◌<◌, ◌≡◌, refl, ◌⊎◌, inl, inr, Option, some, Option-cases, List, ◌∷◌, ◌++◌, map,
  arith, ◌>>=◌, ◌∙◌, sym, ap, le64, bind_some, Bool, Bool-cases, ◌||◌, ltb, ◌/=◌,
}
use secure_kernel_loader.Base.Memory.{store, store-Outside}
use secure_kernel_loader.Tpm.Buff.{header_size}
use secure_kernel_loader.Tpm.Device.{Ops}
use secure_kernel_loader.Tpm.Keeps.{IsContained}
use secure_kernel_loader.EventLog.Records.{Event20, codes}
use secure_kernel_loader.EventLog.Kept.{Logs-kept}
use secure_kernel_loader.Loader.{Loader, Outcome, multiboot2, returns}
use secure_kernel_loader.Loader.Measure.{extend_pcr}
use secure_kernel_loader.Loader.Multiboot.{
  mb_type, mb_size, multiboot_next_tag, find_kernel, measured_kernel, check_mbi, measure_kernel,
  skl_multiboot2, mbi_of,
}
use secure_kernel_loader.Loader.Logged.{
  Request, event_of, log_of, IsReady, IsFramed, IsFramed-trans, extend_pcr-Logged, ready_next,
}
use secure_kernel_loader.Loader.Sequence.{
  IsSeparate, AllSeparate, AllSeparate-kept, extend_all, extend_all-Logged, needed,
}
use secure_kernel_loader.Loader.Modules.{
  Modules, IsMbi, IsMbi-kept, load32_same, measure_modules-extend_all,
}

-- The state once the variable `tag` at `tag_at` holds the pointer to the MBI.
abbrev pub spilled : {D H : Type 0} → ℕ → Loader D H → ℕ → Loader D H
spilled tag_at s mbi = record s {
  tpm = record s.tpm { memory = store s.tpm.memory tag_at (le64 mbi) };
}

abbrev pub mbi_request : ℕ → ℕ → Request
mbi_request tag_at mbi_len = record {
  address = tag_at;
  size = mbi_len;
  pcr = 18;
  text = codes "Measured MBI into PCR18";
}

abbrev pub kernel_request : ℕ → ℕ → Request
kernel_request entry size = record {
  address = entry;
  size = size;
  pcr = 17;
  text = measured_kernel;
}

-- The modules' measurements `qs` of the MBI, whose END tag is `last`; the MBI, up to `top`, the
-- variable `tag`, the field of the boot tag that points to the MBI, the log and the buffer of z bytes
-- at h are apart from one another.
pub record IsBootable {D H : Type 0} (h z fuel tag_at skl_tag mbi top : ℕ) (s : Loader D H)
    (es : List Event20) (qs : List Request) (last : ℕ) : Type 0 where
  pub rounds : ℕ
  pub longest : ℕ
  pub ready : IsReady h z s es
  pub clear : (top ≤ h) ⊎ (h + z ≤ mbi)
  pub unlogged : (top ≤ s.log.evtlog_base) ⊎ (s.log.limit ≤ mbi)
  pub variable : (tag_at + 8 ≤ mbi) ⊎ (top ≤ tag_at)
  pub variable_unlogged : (tag_at + 8 ≤ s.log.evtlog_base) ⊎ (s.log.limit ≤ tag_at)
  pub passed : mbi_of s.tpm.memory skl_tag ≡ mbi
  pub passed_clear : (skl_tag + 6 ≤ h) ⊎ (h + z ≤ skl_tag + 2)
  pub passed_unlogged : (skl_tag + 6 ≤ s.log.evtlog_base) ⊎ (s.log.limit ≤ skl_tag + 2)
  pub passed_variable : (tag_at + 8 ≤ skl_tag + 2) ⊎ (skl_tag + 6 ≤ tag_at)
  pub modules : Modules s.tpm.memory top longest rounds (mbi + 8) qs last
  pub enough : rounds + longest < fuel
  pub separate : AllSeparate h z s.log (mbi_request tag_at (mb_type s.tpm.memory mbi) ∷ qs)

module _ {D H : Type 0} (ops : Ops D) (h z : ℕ) (wide : z < 2 ^ 32) (room : header_size ≤ z)
    (c : IsContained ops) (fuel tag_at skl_tag mbi top : ℕ) (s : Loader D H) (es : List Event20)
    (qs : List Request) (last : ℕ) (b : IsBootable h z fuel tag_at skl_tag mbi top s es qs last)
    (entry size : ℕ) (k_separate : IsSeparate h z s.log (kernel_request entry size)) where
  begun : Loader D H
  begun = spilled tag_at s mbi

  mbi_len : ℕ
  mbi_len = mb_type s.tpm.memory mbi

  outcome : Loader D H × ℕ → Option (Outcome D H)
  outcome (j, tag) = some (check_mbi ops j skl_tag mbi_len entry tag)

  -- The pointer to the MBI stays where it is.
  passed_same : (k : Loader D H) → IsFramed h z begun k → mbi_of k.tpm.memory skl_tag ≡ mbi
  unfolding begun
  passed_same k f =
      load32_same (skl_tag + 2) (skl_tag + 6) s.tpm.memory k.tpm.memory (skl_tag + 2)
        (λ x l u.
          f.outside x (omega (arith, b.passed_clear)) (omega (arith, b.passed_unlogged))
          ∙ store-Outside s.tpm.memory tag_at (le64 mbi) x (omega (arith, b.passed_variable)))
        (omega arith) (omega arith)
      ∙ b.passed

  begun-IsMbi : IsMbi h z s.tpm.memory mbi top begun
  unfolding begun
  begun-IsMbi = record {
    clear = b.clear;
    unlogged = b.unlogged;
    same = λ x l u. store-Outside s.tpm.memory tag_at (le64 mbi) x (omega (arith, b.variable));
  }

  begun-IsReady : IsReady h z begun es
  unfolding begun
  begun-IsReady = record {
    held = b.ready.held;
    apart = b.ready.apart;
    logs =
        Logs-kept s.tpm.family (log_of s) es (store s.tpm.memory tag_at (le64 mbi)) b.ready.logs
          (λ x l u.
            store-Outside s.tpm.memory tag_at (le64 mbi) x (omega (arith, b.variable_unlogged)));
  }

  -- The outcome of the loop's end, behind measurements that are all made.
  after_modules :
      (k : Loader D H) (es' : List Event20)
      → IsFramed h z begun k
      → IsReady h z k es'
      → measure_kernel ops fuel k skl_tag mbi_len (some (entry, size)) ≡ (
          extend_all ops h z wide room c k (kernel_request entry size ∷ qs) >>= λ j.
          outcome (j, last))
  unfolding begun measure_kernel extend_all outcome
  after_modules k es' f r = elim (Option-cases (extend_pcr ops k entry size 17 measured_kernel)) [
    | inl e1 ↦ rw (measure_kernel, extend_all, e1) refl
    | inr (j, e1) ↦
        let p =
          AllSeparate-kept h z begun k (kernel_request entry size ∷ qs) f
            (k_separate, b.separate.1) in
        let (l, g) =
          extend_pcr-Logged ops h z wide room c k (kernel_request entry size) es' j p.0.short
            p.0.clear r e1 in
        let (es2, r2) = ready_next k.tpm.family h z k es' _ j l in
        let framed = IsFramed-trans h z begun k j f g in
        let loop =
          measure_modules-extend_all ops h z wide room c s.tpm.memory mbi top b.longest fuel
            b.rounds (mbi + 8) last qs b.modules j es2 b.enough (omega arith)
            (IsMbi-kept h z s.tpm.memory mbi top begun j framed begun-IsMbi) r2
            (AllSeparate-kept h z k j qs g p.1) in
        elim (Option-cases (extend_all ops h z wide room c j qs)) [
          | inl e2 ↦ rw (measure_kernel, extend_all, e1, passed_same j framed, loop, e2) refl
          | inr (i, e2) ↦ rw (measure_kernel, extend_all, e1, passed_same j framed, loop, e2) refl
        ]
  ]

  -- Where the MBI is as described, it, the pointer to it in the boot tag and the variable tag are
  -- apart from the log, and the first two from the TPM's buffer and that variable, what is
  -- measured is apart from the log and that buffer, and find_kernel gives the kernel,
  -- skl_multiboot2 measures as many bytes as the MBI has, but from the variable tag on, then the
  -- kernel, and then the modules in their order, and what it does behind them is check_mbi at the
  -- END tag; it does not return where one of them does not.
  pub skl_multiboot2-extend_all :
      (kernel_entry kernel_size : ℕ)
      → ((k : Loader D H)
          → extend_pcr ops
              (spilled tag_at s mbi)
              tag_at
              (mb_type s.tpm.memory mbi)
              18
              (codes "Measured MBI into PCR18")
            ≡ some k
          → find_kernel fuel k.tpm.memory (mbi + 8) kernel_entry kernel_size ≡ some (entry, size))
      → skl_multiboot2 ops fuel tag_at s skl_tag mbi kernel_entry kernel_size ≡ (
          extend_all ops h z wide room c
            (spilled tag_at s mbi)
            (mbi_request tag_at (mb_type s.tpm.memory mbi) ∷ kernel_request entry size ∷ qs)
          >>= λ j. some (check_mbi ops j skl_tag (mb_type s.tpm.memory mbi) entry last))
  unfolding skl_multiboot2 begun mbi_len outcome extend_all
  skl_multiboot2-extend_all kernel_entry kernel_size found =
      let q = mbi_request tag_at mbi_len in
      elim (Option-cases (extend_pcr ops begun tag_at mbi_len 18 q.text)) [
        | inl e1 ↦ rw (skl_multiboot2, extend_all, e1) refl
        | inr (k, e1) ↦
            let (l, f) =
              extend_pcr-Logged ops h z wide room c begun q es k b.separate.0.short
                b.separate.0.clear begun-IsReady e1 in
            let (es', r) = ready_next s.tpm.family h z begun es _ k l in
            rw (skl_multiboot2, extend_all, e1, found k e1) (after_modules k es' f r)
      ]

  -- What skl_multiboot2 has done when it returns: all measurements are in the log, and the END tag
  -- is 8 bytes long and inside the MBI.
  pub record IsBootedMbi (k : Loader D H) (entry' zero_page : ℕ) : Type 0 where
    pub started : entry' ≡ entry
    pub boot_data : zero_page ≡ mbi
    pub logged : IsReady h z k (
        es
        ++ map
            (event_of (spilled tag_at s mbi).tpm.memory)
            (mbi_request tag_at (mb_type s.tpm.memory mbi) ∷ kernel_request entry size ∷ qs))
    pub framed : IsFramed h z (spilled tag_at s mbi) k
    pub protocol : k.boot_protocol ≡ multiboot2
    pub end_size : mb_size k.tpm.memory last ≡ 8
    pub end_inside : multiboot_next_tag k.tpm.memory last ≤ mbi + mb_type s.tpm.memory mbi

  checked :
      (j k : Loader D H) (entry' zero_page : ℕ)
      → IsFramed h z begun j
      → outcome (j, last) ≡ some (returns k entry' zero_page)
      → (record j { boot_protocol = multiboot2 } ≡ k)
        × (entry' ≡ entry)
        × (zero_page ≡ mbi)
        × (mb_size k.tpm.memory last ≡ 8)
        × (multiboot_next_tag k.tpm.memory last ≤ mbi + mbi_len)
  unfolding outcome check_mbi
  checked j k entry' zero_page f e = elim (Bool-cases bad) [
    | inl t ↦ absurd (let e' = (rw (check_mbi, t) at e) in cc)
    | inr good ↦
        let e' : some (returns (record j { boot_protocol = multiboot2 }) entry pointer)
            ≡ some (returns k entry' zero_page) =
          rw (check_mbi, good) at e in
        let q : record j { boot_protocol = multiboot2 } ≡ k = cc in
        let found : zero_page ≡ pointer = cc in
        let same : pointer ≡ mbi = passed_same j f in
        (
          q,
          cc,
          found ∙ same,
          rw (← q) (ground (arith, good)),
          rw (← q) (ground (arith, good, same)),
        )
  ]
    where
      pointer : ℕ
      pointer = mbi_of j.tpm.memory skl_tag

      bad : Bool
      bad =
          (mb_size j.tpm.memory last /= 8)
          || ltb (pointer + mbi_len) (multiboot_next_tag j.tpm.memory last)

  -- Where the MBI, the pointer to it in the boot tag, the log, the variable tag and the TPM's
  -- buffer are apart from one another, the kernel and the modules from the log and that buffer,
  -- the MBI is as described, find_kernel gives the kernel, and the events fit into the log with
  -- one byte more, a skl_multiboot2 that returns gives the kernel's entry point and the MBI back
  -- and has set boot_protocol to MULTIBOOT2; the log has got, in this order, an event for as many
  -- bytes as the MBI has, but from the variable tag on, as the code measures &tag, one for the
  -- kernel and one for every module, with the digests of the bytes as they were before; once the
  -- variable holds the pointer, no byte of memory outside the log and the TPM's buffer was
  -- written; and the END tag is 8 bytes long and ends inside the MBI.
  pub skl_multiboot2-IsBootedMbi :
      (kernel_entry kernel_size : ℕ) (k : Loader D H) (entry' zero_page : ℕ)
      → ((k : Loader D H)
          → extend_pcr ops
              (spilled tag_at s mbi)
              tag_at
              (mb_type s.tpm.memory mbi)
              18
              (codes "Measured MBI into PCR18")
            ≡ some k
          → find_kernel fuel k.tpm.memory (mbi + 8) kernel_entry kernel_size ≡ some (entry, size))
      → s.log.ptr_current
          + needed s.tpm.family
              (spilled tag_at s mbi).tpm.memory
              (mbi_request tag_at (mb_type s.tpm.memory mbi) ∷ kernel_request entry size ∷ qs)
        < s.log.limit
      → skl_multiboot2 ops fuel tag_at s skl_tag mbi kernel_entry kernel_size
        ≡ some (returns k entry' zero_page)
      → IsBootedMbi k entry' zero_page
  unfolding outcome begun mbi_len
  skl_multiboot2-IsBootedMbi kernel_entry kernel_size k entry' zero_page found fits e =
      let same = skl_multiboot2-extend_all kernel_entry kernel_size found in
      let (j, e1, e2) =
        bind_some
          (extend_all ops h z wide room c begun
            (mbi_request tag_at mbi_len ∷ kernel_request entry size ∷ qs))
          (λ j. outcome (j, last)) (returns k entry' zero_page) (rw same at e) in
      let (logged, framed) =
        extend_all-Logged ops h z wide room c
          (mbi_request tag_at mbi_len ∷ kernel_request entry size ∷ qs) begun j es begun-IsReady
          (b.separate.0, (k_separate, b.separate.1)) fits e1 in
      let (q, started, boot_data, end_size, end_inside) = checked j k entry' zero_page framed e2 in
      record {
        started = started;
        boot_data = boot_data;
        logged =
            subst
              (λ (k : Loader D H). IsReady h z k (
                es
                ++ map (event_of begun.tpm.memory)
                    (mbi_request tag_at mbi_len ∷ kernel_request entry size ∷ qs)))
              q (record { held = logged.held; apart = logged.apart; logs = logged.logs });
        framed =
            subst (λ (k : Loader D H). IsFramed h z begun k) q
              (record {
                base = framed.base;
                limit = framed.limit;
                family = framed.family;
                outside = framed.outside;
              });
        protocol = sym (ap (λ (k : Loader D H). k.boot_protocol) q);
        end_size = end_size;
        end_inside = end_inside;
      }
