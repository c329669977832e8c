-- ===== src/Loader/Modules.antt =====
-- skl_multiboot2 against a description of the MBI: which measurements it makes, in which order.
use secure_kernel_loader.Base.{
  ℕ, zero, suc, ◌+◌, ◌^◌, ◌≤◌, ◌<◌, ◌≡◌, ◌≢◌, refl, ◌∙◌, sym, ap, ◌⊎◌, inl, inr, some, Option-cases,
  List, [], ◌∷◌, arith, ◌>>=◌, sub32, ==_ne,
}
use secure_kernel_loader.Base.Memory.{Memory, load, load_agree, load32, strlen, strlen_lem}
use secure_kernel_loader.Tpm.Buff.{header_size}
use secure_kernel_loader.Tpm.Device.{Ops, Tpm}
use secure_kernel_loader.Tpm.Keeps.{IsContained, Keeps}
use secure_kernel_loader.Tpm.Buff.Room.{IsHeld}
use secure_kernel_loader.EventLog.Records.{Event20}
use secure_kernel_loader.Loader.{Loader}
use secure_kernel_loader.Loader.Measure.{extend_pcr}
use secure_kernel_loader.Loader.Multiboot.{
  mb_type, multiboot_next_tag, measure_module, measure_modules, read_string,
}
use secure_kernel_loader.Loader.Logged.{Request, IsReady, IsFramed, extend_pcr-Logged, ready_next}
use secure_kernel_loader.Loader.Text.{extend_text-constant}
use secure_kernel_loader.Loader.Sequence.{AllSeparate, AllSeparate-kept, extend_all}

-- The n bytes of a C string before its end.
pub record IsString (m : Memory) (a n : ℕ) : Type 0 where
  pub filled : (i : ℕ) → i < n → m (a + i) ≢ 0
  pub ended : m (a + n) ≡ 0

-- The measurement of the module behind a tag, whose command line has n bytes.
abbrev pub module_request : Memory → ℕ → ℕ → Request
module_request m t n = record {
  address = load32 m (t + 8);
  size = sub32 (load32 m (t + 12)) (load32 m (t + 8));
  pcr = 17;
  text = load m (t + 16) n;
}

-- From the tag at t on, `rounds` tags lead to the END tag `last`, every one and its command line
-- lies before `top`, no command line is longer than `longest`, and the modules are these.
pub data Modules (m : Memory) (top longest : ℕ) : ℕ → ℕ → List Request → ℕ → Type 0 where
  end_tag : {t : ℕ} → mb_type m t ≡ 0 → t + 8 ≤ top → Modules m top longest 0 t [] t
  other_tag :
      {rounds t last : ℕ} {qs : List Request}
      → mb_type m t ≢ 0
      → mb_type m t ≢ 3
      → t + 8 ≤ top
      → Modules m top longest rounds (multiboot_next_tag m t) qs last
      → Modules m top longest (suc rounds) t qs last
  module_tag :
      {rounds t last n : ℕ} {qs : List Request}
      → mb_type m t ≡ 3
      → IsString m (t + 16) n
      → n ≤ longest
      → t + 16 + n < top
      → Modules m top longest rounds (multiboot_next_tag m t) qs last
      → Modules m top longest (suc rounds) t (module_request m t n ∷ qs) last

-- The memories read alike from lo to top.
abbrev pub SameFrom : ℕ → ℕ → Memory → Memory → Type 0
SameFrom lo top m k = (x : ℕ) → lo ≤ x → x < top → k x ≡ m x

pub load32_same :
    (lo top : ℕ) (m k : Memory) (a : ℕ)
    → SameFrom lo top m k
    → lo ≤ a
    → a + 4 ≤ top
    → load32 k a ≡ load32 m a
load32_same lo top m k a same l h = simp (
  same a (omega arith) (omega arith),
  same (a + 1) (omega arith) (omega arith),
  same (a + 2) (omega arith) (omega arith),
  same (a + 3) (omega arith) (omega arith),
)

strlen-IsString :
    (fuel : ℕ) (m k : Memory) (a n : ℕ)
    → n < fuel
    → SameFrom a (a + n + 1) m k
    → IsString m a n
    → strlen fuel k a 0 ≡ some n
strlen-IsString fuel m k a n lt same s =
    strlen_lem fuel k a 0 n lt
      (λ i l e. s.filled i l (sym (same (a + i) (omega arith) (omega arith)) ∙ e))
      (same (a + n) (omega arith) (omega arith) ∙ s.ended)
    ∙ ap some (omega arith)

module _ {D H : Type 0} (h z : ℕ) (m : Memory) (lo top : ℕ) where
  -- The MBI is apart from the buffer and from the log, and reads as at first.
  pub record IsMbi (s : Loader D H) : Type 0 where
    pub clear : (top ≤ h) ⊎ (h + z ≤ lo)
    pub unlogged : (top ≤ s.log.evtlog_base) ⊎ (s.log.limit ≤ lo)
    pub same : SameFrom lo top m s.tpm.memory

  pub IsMbi-kept : (s k : Loader D H) → IsFramed h z s k → IsMbi s → IsMbi k
  IsMbi-kept s k f p = record {
    clear = p.clear;
    unlogged = omega (arith, p.unlogged, f.base, f.limit);
    same = λ x l u. f.outside x (omega (arith, p.clear)) (omega (arith, p.unlogged)) ∙ p.same x l u;
  }

  next_same :
      (s : Loader D H) (t : ℕ)
      → IsMbi s
      → lo ≤ t
      → t + 8 ≤ top
      → (mb_type s.tpm.memory t ≡ mb_type m t)
        × (multiboot_next_tag s.tpm.memory t ≡ multiboot_next_tag m t)
  next_same s t p l u =
      let size = load32_same lo top m s.tpm.memory (t + 4) p.same (omega arith) (omega arith) in
      (load32_same lo top m s.tpm.memory t p.same l (omega arith), rw size refl)

module _ {D H : Type 0} (ops : Ops D) (h z : ℕ) (wide : z < 2 ^ 32) (room : header_size ≤ z)
    (c : IsContained ops) (m : Memory) (lo top longest : ℕ) where
  measure_module_lem :
      (fuel : ℕ) (s : Loader D H) (t n : ℕ)
      → IsMbi h z m lo top s
      → IsHeld h z s.tpm.buff
      → lo ≤ t
      → t + 16 + n < top
      → n < fuel
      → IsString m (t + 16) n
      → let q = module_request m t n in
        measure_module ops fuel s t ≡ extend_pcr ops s q.address q.size q.pcr q.text
  unfolding measure_module
  measure_module_lem fuel s t n p held l u lt str =
      let start = load32_same lo top m s.tpm.memory (t + 8) p.same (omega arith) (omega arith) in
      let end = load32_same lo top m s.tpm.memory (t + 12) p.same (omega arith) (omega arith) in
      rw (measure_module, start, end)
        (extend_text-constant ops h z wide room c s held (load32 m (t + 8))
          (sub32 (load32 m (t + 12)) (load32 m (t + 8))) 17 (λ k. read_string fuel k (t + 16))
          (load m (t + 16) n) reads)
    where
      reads :
          (u : Tpm D)
          → Keeps h z s.tpm u
          → read_string fuel u.memory (t + 16) ≡ some (load m (t + 16) n)
      reads v kept =
          let same : (x : ℕ) → lo ≤ x → x < top → v.memory x ≡ m x =
            λ x a b. kept.agrees x (omega (arith, p.clear)) ∙ p.same x a b in
          let text =
            load_agree v.memory m (t + 16) n (λ x a b. same x (omega arith) (omega arith)) in
          let found =
            strlen-IsString fuel m v.memory (t + 16) n lt
              (λ x a b. same x (omega arith) (omega arith)) str in
          rw (found, text) refl

  -- The loop makes the measurements of the MBI as it was, and ends at the END tag.
  pub measure_modules-extend_all :
      (fuel rounds t last : ℕ) (qs : List Request)
      → Modules m top longest rounds t qs last
      → (s : Loader D H) (es : List Event20) → rounds + longest < fuel
      → lo ≤ t
      → IsMbi h z m lo top s
      → IsReady h z s es
      → AllSeparate h z s.log qs
      → measure_modules ops fuel s t ≡ (extend_all ops h z wide room c s qs >>= λ k. some (k, last))
  unfolding measure_modules extend_all
  measure_modules-extend_all zero rounds t last qs d s es lt l p r a = absurd (omega arith)
  measure_modules-extend_all (suc fuel) zero t last [] (end_tag e u) s es lt l p r a =
      let (type, next) = next_same h z m lo top s t p l u in rw (measure_modules, type, e) refl
  measure_modules-extend_all (suc fuel) zero t last (q ∷ qs) d s es lt l p r a = elim d [ ]
  measure_modules-extend_all (suc fuel) (suc rounds) t last qs (other_tag ne0 ne3 u d) s es lt l p r
        a =
      let (type, next) = next_same h z m lo top s t p l u in
      let rest =
        measure_modules-extend_all fuel rounds (multiboot_next_tag m t) last qs d s es (omega arith)
          (omega arith) p r a in
      rw (measure_modules, type, ==_ne (mb_type m t) 0 ne0, ==_ne (mb_type m t) 3 ne3, next) rest
  measure_modules-extend_all (suc fuel) (suc rounds) t last (q ∷ qs)
        (module_tag {n = n} e str short u d) s es lt l p r (a, rest) =
      let (type, next) = next_same h z m lo top s t p l (omega arith) in
      let one = measure_module_lem fuel s t n p r.held l u (omega arith) str in
      elim (Option-cases (extend_pcr ops s q.address q.size q.pcr q.text)) [
        | inl e1 ↦ rw (measure_modules, type, e, one, extend_all, e1) refl
        | inr (k, e1) ↦
            let (logged, f) =
              extend_pcr-Logged ops h z wide room c s (module_request m t n) es k a.short a.clear r
                e1 in
            let p' = IsMbi-kept h z m lo top s k f p in
            let (type', next) = next_same h z m lo top k t p' l (omega arith) in
            let (es', r') = ready_next s.tpm.family h z s es _ k logged in
            let on =
              measure_modules-extend_all fuel rounds (multiboot_next_tag m t) last qs d k es'
                (omega arith) (omega arith) p' r' (AllSeparate-kept h z s k qs f rest) in
            rw (measure_modules, type, e, one, extend_all, e1, next) on
      ]
