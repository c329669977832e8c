-- ===== src/Tests/Interface.antt =====
-- A TPM behind the FIFO interface that takes commands of three bytes, one that has a response of
-- twelve bytes, and one behind the command response buffer.
use secure_kernel_loader.Base.{
  ◌⊎◌, ◌≤◌, ℕ, ◌+◌, ◌∷◌, [], ◌≡◌, refl, true, false, Option, none, some, List, ◌++◌, arith, ltb,
  ◌==◌, length, if◌then◌else◌, get_or, inr,
}
use secure_kernel_loader.Base.Memory.{Memory, load, store}
use secure_kernel_loader.EventLog.Records.{codes}
use secure_kernel_loader.Tpm.Types.{tpm12, tpm20, tpm_tis}
use secure_kernel_loader.Tpm.Buff.{TpmBuff, tpmb_put}
use secure_kernel_loader.Tpm.Device.{Sent, Received, Tpm}
use secure_kernel_loader.Tpm.Mmio.{Log, logged, Registers, Port}
use secure_kernel_loader.Tpm.Tis.{
  tis_send, wait_ready, wait_valid, burst_wait, write_burst, write_round, tis_data_available,
  tis_request_locality,
}
use secure_kernel_loader.Tpm.Tis.Recv.{tis_ops, tis_recv, tis_init, read_burst}
use secure_kernel_loader.Tpm.Tis.Send.{IsAnswer, tis_send-IsAnswer}
use secure_kernel_loader.Tpm.Tis.Returns.{Returns, tis_send-Returns}
use secure_kernel_loader.Tpm.Tis.Bounds.{tis_recv-Outside}
use secure_kernel_loader.Tpm.Tis.Sizes.{tis_recv-IsSized}
use secure_kernel_loader.Tpm.Crb.{crb_send}
use secure_kernel_loader.Tpm.Crb.Writes.{IsSend, crb_send-IsSend}
use secure_kernel_loader.Tpm.Enable.{Enabled, no_tpm, enabled, enable_tpm}
use secure_kernel_loader.Tpm.Enable.Holds.{IsEnabled, enable_tpm-IsEnabled}
use secure_kernel_loader.Printk.{print_u64}
use secure_kernel_loader.Printk.Hex.{read_hex, print_u64-read_hex}

abbrev get : {A : Type 0} → Option A → A → A
get none a = a
get (some x) a = x

-- The state is the number of bytes in the FIFO. Each register reads as a status that expects data
-- until there are three, and the words as 1.
abbrev taking : Registers ℕ
taking = record {
  ioread8 = λ c a. (c, 0xE0 + (if ltb c 3 then 8 else 0));
  iowrite8 = λ c v a. if a == 0xFED40024 then c + 1 else c;
  ioread32 = λ c a. (c, 1);
  iowrite32 = λ c v a. c;
  io_delay = λ c. c;
}

abbrev memory : Memory
memory = λ x. if x == 0x1000 then 7 else if x == 0x1001 then 8 else 9

abbrev buff : TpmBuff
buff = record {
  truesize = 1024;
  len = 3;
  locked = true;
  head = 0x1000;
  body = 0x100A;
  tail = 0x1003;
  end_at = 0x13FF;
}

abbrev nothing : Sent (Port (Log × ℕ))
nothing = record { device = record { locality = 0; chip = ([], 0) }; size = 0 }

unfoldable sending : Sent (Port (Log × ℕ))
unfolding tis_send
sending =
    get (tis_send (logged taking) 2 (record { locality = 0; chip = ([], 0) }) memory buff) nothing

-- The command arrives, with the go bit behind it.
sending_size : sending.size ≡ 3
unfolding sending wait_ready burst_wait write_burst wait_valid write_round
sending_size = refl

sending_lem :
    tis_send (logged taking) 2 (record { locality = 0; chip = ([], 0) }) memory buff ≡ some sending
unfolding tis_send sending wait_ready burst_wait write_burst wait_valid write_round
sending_lem = refl

tis_send-IsAnswer_example : IsAnswer taking 2 0 memory buff sending
tis_send-IsAnswer_example =
    tis_send-IsAnswer taking 2 0 0 memory buff sending (omega arith) (omega arith) (omega arith)
      sending_lem

-- A status that expects data for ever still answers.
abbrev always : Registers ℕ
always = record taking { ioread8 = λ c a. (c, 0xE8) }

tis_send-Returns_example :
    Returns (tis_send always 1 (record { locality = 0; chip = 0 }) memory buff)
tis_send-Returns_example =
    tis_send-Returns always 0 0 ((λ c. refl), (λ c. refl), (λ c. refl)) 0 memory buff (omega arith)
      (omega arith)

abbrev response : List ℕ
response = 0 ∷ 0xC4 ∷ 0 ∷ 0 ∷ 0 ∷ 12 ∷ 0 ∷ 0 ∷ 0 ∷ 0 ∷ 0xAA ∷ 0xBB ∷ []

-- The state is the number of bytes read from the FIFO.
abbrev answering : Registers ℕ
answering = record taking {
  ioread8 = λ c a.
      if a == 0xFED40024
      then (c + 1, get_or response c 0)
      else (c, 0xE0 + (if ltb c 12 then 0x10 else 0));
}

abbrev empty_buff : TpmBuff
empty_buff = record buff { len = 10; tail = 0x100A }

unfoldable receiving : Received (Port ℕ)
unfolding tis_recv
receiving =
    get (tis_recv answering 2 tpm12 (record { locality = 0; chip = 0 }) memory empty_buff) (record {
      device = record { locality = 0; chip = 0 };
      memory = memory;
      buff = buff;
      size = 0;
    })

receiving_lem :
    tis_recv answering 2 tpm12 (record { locality = 0; chip = 0 }) memory empty_buff
    ≡ some receiving
unfolding tis_recv receiving tis_data_available burst_wait read_burst store load tpmb_put
receiving_lem = refl

-- The whole response is taken, and its last byte lies where its first byte of data was.
receiving_size : (receiving.size ≡ 12) × (receiving.memory 0x100A ≡ 0xBB)
unfolding receiving tis_data_available burst_wait read_burst store load tpmb_put
receiving_size = (refl, refl)

tis_recv-Outside_example : receiving.memory 0x5000 ≡ memory 0x5000
tis_recv-Outside_example =
    tis_recv-Outside answering 2 tpm12 (record { locality = 0; chip = 0 }) memory empty_buff
      receiving refl (omega arith) (omega arith) receiving_lem 0x5000 (inr (omega arith))

tis_recv-IsSized_example :
    (receiving.size ≡ 0)
    ⊎ ((receiving.buff.len + 10 ≡ 10 + receiving.size) × (receiving.buff.len ≤ 1024))
tis_recv-IsSized_example =
    tis_recv-IsSized answering 2 tpm12 (record { locality = 0; chip = 0 }) memory empty_buff
      receiving refl (omega arith) (omega arith) receiving_lem

-- Registers that read as a TPM 1.2 behind the FIFO interface, whose vendor is 1.
abbrev blank : Tpm (Port ℕ)
blank = record {
  family = tpm20;
  intf = tpm_tis;
  has_buff = false;
  buff = record { truesize = 0; len = 0; locked = false; head = 0; body = 0; tail = 0; end_at = 0 };
  memory = memory;
  device = record { locality = 0xFF; chip = 0 };
}

abbrev found : Enabled ℕ → Tpm (Port ℕ)
found (no_tpm p) = blank
found (enabled ops t vendor) = t

unfoldable ready : Tpm (Port ℕ)
unfolding enable_tpm
ready = found (enable_tpm always (λ c. 0) 5 blank)

ready_lem : enable_tpm always (λ c. 0) 5 blank ≡ enabled (tis_ops always 5) ready 1
unfolding enable_tpm ready tis_init tis_request_locality
ready_lem = refl

enable_tpm-IsEnabled_example : IsEnabled always (λ c. 0) 5 ready blank (tis_ops always 5) 1
enable_tpm-IsEnabled_example =
    enable_tpm-IsEnabled always (λ c. 0) 5 (tis_ops always 5) blank ready 1 ready_lem

-- A TPM behind the other interface: it is assigned to locality 2.
abbrev assigned : Registers ℕ
assigned = record taking { ioread8 = λ c a. (c, 0x0A); ioread32 = λ c a. (c, 0) }

abbrev third : Port (Log × ℕ)
third = record { locality = 3; chip = ([], 0) }

crb_send-IsSend_example :
    (r : Sent (Port (Log × ℕ))) × (crb_send (logged assigned) (λ c. 0) third memory buff ≡ some r)
    × IsSend assigned (λ c. 0) third buff r
crb_send-IsSend_example = crb_send-IsSend assigned (λ c. 0) third memory buff

print_u64-read_hex_example :
    (ds : List ℕ) × (print_u64 0xFED40000 ≡ codes "0x" ++ (ds ++ codes ": "))
    × (length ds ≡ 16)
    × (read_hex ds 0 ≡ some 0xFED40000)
print_u64-read_hex_example = print_u64-read_hex 0xFED40000 (omega arith)
