-- ===== src/Tests/Mbi.antt =====
-- An MBI at 0x2000 with one module, a kernel of four bytes at 0x1000, and a TPM 1.2 with its log.
use mathlib.Core.Path.{subst}
use secure_kernel_loader.Base.{
  ℕ, ◌+◌, ◌<◌, ◌≡◌, refl, inl, inr, Option, none, some, List, [], ◌∷◌, ◌++◌, arith, le32, replicate,
  ◌>>=◌,
}
use secure_kernel_loader.Base.Memory.{Memory, store, memset, load, load32, strlen}
use secure_kernel_loader.Sha.Sha1.{sha1sum}
use secure_kernel_loader.Sha.Stream.{once_loop}
use secure_kernel_loader.Tpm.Types.{tpm12, tpm_alg_sha1}
use secure_kernel_loader.Tpm.Buff.{tpmb_trim, tpmb_free, tpmb_reserve, tpmb_put}
use secure_kernel_loader.Tpm.Tpm1.{build_extend, send_extend, tpm1_pcr_extend}
use secure_kernel_loader.Tpm.Front.{tpm_extend_pcr}
use secure_kernel_loader.Tpm.Buff.Room.{Agrees, IsHeld}
use secure_kernel_loader.Tpm.Device.{Received, Tpm, Errno, success}
use secure_kernel_loader.Tpm.Keeps.{IsContained, Keeps}
use secure_kernel_loader.Tpm.Front.Keeps.{tpm_extend_pcr-Keeps}
use secure_kernel_loader.EventLog.{Log, log_event_tpm12, log_record, log_write}
use secure_kernel_loader.EventLog.Init.{write_header}
use secure_kernel_loader.EventLog.Header.{write_header-Logs12}
use secure_kernel_loader.EventLog.Records.{codes}
use secure_kernel_loader.Tags.{EventLogTag}
use secure_kernel_loader.Loader.{linux_boot, Loader, Outcome, returns}
use secure_kernel_loader.Loader.Measure.{extend_pcr}
use secure_kernel_loader.Loader.Multiboot.{
  skl_multiboot2, find_kernel, measured_kernel, measure_modules, measure_module, measure_kernel,
  check_mbi,
}
use secure_kernel_loader.Loader.Logged.{
  Request, event_of, IsReady, IsLogged, IsFramed, extend_pcr-Logged,
}
use secure_kernel_loader.Loader.Sequence.{IsSeparate, needed, extend_all}
use secure_kernel_loader.Loader.Modules.{Modules, end_tag, module_tag, module_request, IsString}
use secure_kernel_loader.Loader.Mbi.{
  IsBootable, spilled, mbi_request, kernel_request, IsBootedMbi, skl_multiboot2-IsBootedMbi,
  skl_multiboot2-extend_all,
}
use secure_kernel_loader.Tests.Linux.{taking, tpm}

abbrev mbi_bytes : List ℕ
mbi_bytes =
    le32 40
    ++ (le32 0
        ++ (le32 3
            ++ (le32 18
                ++ (le32 0x1010
                    ++ (le32 0x1014
                        ++ (codes "m"
                            ++ (0 ∷ 0 ∷ 0 ∷ 0 ∷ 0 ∷ 0 ∷ 0 ∷ [] ++ (le32 0 ++ le32 8))))))))

unfoldable loaded : Memory
unfolding store
loaded = store (store (λ x. 0) 0x2000 mbi_bytes) 0x3002 (le32 0x2000)

abbrev place : EventLogTag
place = record { address = 0x20000; size = 256 }

abbrev placed : Log
placed = record { evtlog_base = 0x20000; ptr_current = 0x20000; limit = 0x20100; memory = loaded }

unfoldable log : Log
unfolding write_header
log = write_header tpm12 place placed

abbrev start : Loader ℕ ℕ
start = record {
  hardware = 0;
  tpm = record tpm { memory = log.memory };
  log = log;
  boot_protocol = linux_boot;
}

pub taking-IsContained : IsContained taking
taking-IsContained = record {
  contained = λ h z f d m b r room wide u e.
      (let q : record { device = d; memory = m; buff = b; size = b.len } ≡ r = cc in
        subst (λ (r : Received ℕ). Agrees h z m r.memory × IsHeld h z r.buff) q
          ((λ x o. refl), u.held));
}

modules : List Request
modules = module_request start.tpm.memory 0x2008 1 ∷ []

text : IsString start.tpm.memory 0x2018 1
unfolding log loaded write_header log_write memset store
text = record {
  filled = λ i l e.
      let first : i ≡ 0 = omega arith in let e' = (rw first at e) in absurd (omega (arith, e'));
  ended = refl;
}

chain : Modules start.tpm.memory 0x2028 1 1 0x2008 modules 0x2020
unfolding log loaded write_header log_write memset store modules
chain = module_tag refl text (omega arith) (omega arith) (end_tag refl (omega arith))

ready : IsReady 0x4000 1024 start []
unfolding log log_write
ready = record {
  held = record { head = refl; truesize = refl; fits = omega arith };
  apart = inl (omega arith);
  logs = write_header-Logs12 place placed (ground arith);
}

bootable : IsBootable 0x4000 1024 4 0x8010 0x3000 0x2000 0x2028 start [] modules 0x2020
unfolding log loaded write_header log_write memset store modules load
bootable = record {
  rounds = 1;
  longest = 1;
  ready = ready;
  clear = inl (omega arith);
  unlogged = inl (omega arith);
  variable = inr (omega arith);
  variable_unlogged = inl (omega arith);
  passed = refl;
  passed_clear = inl (omega arith);
  passed_unlogged = inl (omega arith);
  passed_variable = inr (omega arith);
  modules = chain;
  enough = omega arith;
  separate = (
    record { clear = inr (omega arith); unlogged = inl (omega arith); short = omega arith },
    (record { clear = inl (omega arith); unlogged = inl (omega arith); short = omega arith }, tt),
  );
}

kernel-IsSeparate : IsSeparate 0x4000 1024 log (kernel_request 0x1000 4)
unfolding log log_write
kernel-IsSeparate = record {
  clear = inl (omega arith);
  unlogged = inl (omega arith);
  short = omega arith;
}

abbrev left : Option (Outcome ℕ ℕ) → Loader ℕ ℕ
left (some (returns k entry zero_page)) = k
left o = start

unfoldable booted : Loader ℕ ℕ
booted = left (skl_multiboot2 taking 4 0x8010 start 0x3000 0x2000 0x1000 4)

booted_lem :
    skl_multiboot2 taking 4 0x8010 start 0x3000 0x2000 0x1000 4
    ≡ some (returns booted 0x1000 0x2000)
unfolding skl_multiboot2 booted log loaded write_header log_write memset store find_kernel
    measure_modules measure_module measure_kernel check_mbi extend_pcr tpm_extend_pcr
    tpm1_pcr_extend build_extend tpmb_reserve tpmb_free tpmb_put tpmb_trim send_extend
    log_event_tpm12 log_record sha1sum once_loop load strlen
booted_lem = refl

found : (k : Loader ℕ ℕ) → find_kernel 4 k.tpm.memory 0x2008 0x1000 4 ≡ some (0x1000, 4)
unfolding find_kernel
found k = ground arith

fits :
    log.ptr_current
      + needed tpm12
          (spilled 0x8010 start 0x2000).tpm.memory
          (mbi_request 0x8010 (load32 start.tpm.memory 0x2000) ∷ kernel_request 0x1000 4 ∷ modules)
    < log.limit
unfolding log loaded write_header log_write memset store modules sha1sum once_loop load
fits = omega arith

skl_multiboot2-IsBootedMbi_example :
    IsBootedMbi taking 0x4000 1024
      (omega arith)
      (omega arith)
      taking-IsContained
      4
      0x8010
      0x3000
      0x2000
      0x2028
      start
      []
      modules
      0x2020
      bootable
      0x1000
      4
      kernel-IsSeparate
      booted
      0x1000
      0x2000
skl_multiboot2-IsBootedMbi_example =
    skl_multiboot2-IsBootedMbi taking 0x4000 1024 (omega arith) (omega arith) taking-IsContained 4
      0x8010 0x3000 0x2000 0x2028 start [] modules 0x2020 bootable 0x1000 4 kernel-IsSeparate 0x1000
      4 booted 0x1000 0x2000 (λ k e. found k) fits booted_lem

-- The first measurement of the same boot, as a call of the driver, and all three of them.
abbrev mbi_hash : List ℕ
mbi_hash = replicate 20 7

abbrev or_start : Option (Tpm ℕ × Errno) → Tpm ℕ × Errno
or_start none = (start.tpm, success)
or_start (some r) = r

unfoldable extended : Tpm ℕ × Errno
extended = or_start (tpm_extend_pcr taking start.tpm 18 tpm_alg_sha1 mbi_hash)

extended_lem : tpm_extend_pcr taking start.tpm 18 tpm_alg_sha1 mbi_hash ≡ some extended
unfolding extended tpm_extend_pcr tpm1_pcr_extend build_extend tpmb_reserve tpmb_free tpmb_put
    tpmb_trim send_extend
extended_lem = refl

tpm_extend_pcr-Keeps_example : Keeps 0x4000 1024 start.tpm extended.0
tpm_extend_pcr-Keeps_example =
    tpm_extend_pcr-Keeps taking 0x4000 1024 (omega arith) (omega arith) taking-IsContained start.tpm
      18 tpm_alg_sha1 mbi_hash (record { head = refl; truesize = refl; fits = omega arith })
      extended extended_lem

abbrev at_call : Loader ℕ ℕ
at_call = spilled 0x8010 start 0x2000

skl_multiboot2-extend_all_example : skl_multiboot2 taking 4 0x8010 start 0x3000 0x2000 0x1000 4 ≡ (
    extend_all taking 0x4000 1024
      (omega arith)
      (omega arith)
      taking-IsContained
      at_call
      (mbi_request 0x8010 (load32 start.tpm.memory 0x2000) ∷ kernel_request 0x1000 4 ∷ modules)
    >>= λ j. some (check_mbi taking j 0x3000 (load32 start.tpm.memory 0x2000) 0x1000 0x2020))
skl_multiboot2-extend_all_example =
    skl_multiboot2-extend_all taking 0x4000 1024 (omega arith) (omega arith) taking-IsContained 4
      0x8010 0x3000 0x2000 0x2028 start [] modules 0x2020 bootable 0x1000 4 kernel-IsSeparate 0x1000
      4 (λ k e. found k)

-- The kernel alone.
abbrev or_begun : Option (Loader ℕ ℕ) → Loader ℕ ℕ
or_begun none = start
or_begun (some k) = k

unfoldable measured : Loader ℕ ℕ
measured = or_begun (extend_pcr taking start 0x1000 4 17 measured_kernel)

measured_lem : extend_pcr taking start 0x1000 4 17 measured_kernel ≡ some measured
unfolding measured extend_pcr tpm_extend_pcr tpm1_pcr_extend build_extend tpmb_reserve tpmb_free
    tpmb_put tpmb_trim send_extend
measured_lem = refl

extend_pcr-Logged_example :
    IsLogged tpm12 0x4000 1024 start []
      (event_of start.tpm.memory (kernel_request 0x1000 4))
      measured
    × IsFramed 0x4000 1024 start measured
extend_pcr-Logged_example =
    extend_pcr-Logged taking 0x4000 1024 (omega arith) (omega arith) taking-IsContained start
      (kernel_request 0x1000 4) [] measured (omega arith) (inl (omega arith)) ready measured_lem
