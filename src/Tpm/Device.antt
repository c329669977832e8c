-- ===== src/Tpm/Device.antt =====
-- struct tpm of tpmlib/tpm.h. The TPM behind the interface is a parameter: a state D, and the
-- operations of struct tpm_hw_ops on it. An operation that polls may not return; that is `none`.
use secure_kernel_loader.Base.{ℕ, Bool, Option}
use secure_kernel_loader.Base.Memory.{Memory}
use secure_kernel_loader.Tpm.Types.{Family, Interface}
use secure_kernel_loader.Tpm.Buff.{TpmBuff}

-- What `recv` leaves: the device, memory, the buffer, and the size that it returns.
pub record Received (D : Type 0) : Type 0 where
  pub device : D
  pub memory : Memory
  pub buff : TpmBuff
  pub size : ℕ

pub record Sent (D : Type 0) : Type 0 where
  pub device : D
  pub size : ℕ

pub record Ops (D : Type 0) : Type 0 where
  pub request_locality : D → ℕ → D × ℕ
  pub relinquish_locality : D → D
  pub send : D → Memory → TpmBuff → Option (Sent D)
  pub recv : Family → D → Memory → TpmBuff → Option (Received D)

-- `has_buff` is `buff != NULL`: the pointer is NULL or that of the one static buffer.
pub record Tpm (D : Type 0) : Type 0 where
  pub family : Family
  pub intf : Interface
  pub has_buff : Bool
  pub buff : TpmBuff
  pub memory : Memory
  pub device : D

-- The int that a command returns: 0, -EINVAL, -ENOMEM or -EAGAIN.
pub data Errno : Type 0 where
  success einval enomem eagain : Errno
