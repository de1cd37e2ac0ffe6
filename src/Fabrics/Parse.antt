-- ===== src/Fabrics/Parse.antt =====
-- shell/nvme-of_setup/nvme-modified/host/fabrics.c: nvmf_parse_options, from what match_token and the
-- match functions make of each option of the string, and nvmf_free_options.
pub mod Values
pub mod Loop
pub mod Held
pub mod Limits
pub mod Wrap
use net_cas.Common.{
  ℕ, ◌+◌, ◌-◌, ◌/◌, ◌%◌, Bool, true, false, not, ◌||◌, List, [], ◌∷◌, Option, none, some, ltb, ◌==◌,
  if◌then◌else◌, min,
}
use net_cas.Common.Code.{ℤ, pos, negsuc, is_neg, is_zero, is_pos, success, enomem, einval}
use net_cas.Common.Ledger.{Ledger, gain, give}
use net_cas.Common.Lists.{update}

-- The options whose value is kept as text, and that only set a flag.
pub data TextOpt : Type 0 where
  opt_transport opt_traddr opt_trsvcid opt_host_traddr : TextOpt

pub data FlagOpt : Type 0 where
  opt_dup_connect opt_disable_sqflow opt_hdr_digest opt_data_digest : FlagOpt

pub data IntOpt : Type 0 where
  opt_queue_size opt_nr_io_queues opt_kato opt_ctrl_loss_tmo opt_reconnect_delay : IntOpt
  opt_nr_write_queues opt_nr_poll_queues opt_tos : IntOpt

-- One option of the string, with the answers that it brings: a text that match_strdup copies, `none`
-- when it has no memory; whether a name has NVMF_NQN_SIZE bytes or more and whether it is that of a
-- discovery subsystem; the number of match_int; the host that nvmf_host_add finds or makes; and the
-- number that uuid_parse reads.
pub data Token : Type 0 where
  text : TextOpt → Option ℕ → Token
  nqn : Option ℕ → (too_long is_discovery : Bool) → Token
  int : IntOpt → Option ℤ → Token
  hostnqn : Option ℕ → (too_long : Bool) → Option ℕ → Token
  hostid : Option ℕ → Option ℕ → Token
  flag : FlagOpt → Token
  unknown : Token

-- `struct nvmf_ctrl_options`; `mask` by the number of the bit. `strings` counts the copies of texts,
-- and `hosts` the references to hosts.
pub record CtrlOptions : Type 0 where
  pub mask : ℕ → Bool
  pub transport : Option ℕ
  pub subsysnqn : Option ℕ
  pub traddr : Option ℕ
  pub trsvcid : Option ℕ
  pub host_traddr : Option ℕ
  pub queue_size : ℕ
  pub nr_io_queues : ℕ
  pub reconnect_delay : ℕ
  pub discovery_nqn : Bool
  pub duplicate_connect : Bool
  pub kato : ℕ
  pub host : Option ℕ
  pub max_reconnects : ℤ
  pub disable_sqflow : Bool
  pub hdr_digest : Bool
  pub data_digest : Bool
  pub nr_write_queues : ℕ
  pub nr_poll_queues : ℕ
  pub tos : ℤ
  pub strings : Ledger
  pub hosts : Ledger

-- The local variables `ctrl_loss_tmo` and `hostid` beside the options.
pub record Parsing : Type 0 where
  pub opts : CtrlOptions
  pub ctrl_loss_tmo : ℤ
  pub host_id : ℕ

-- Whether kstrdup has memory, num_online_cpus, the default host, and uuid_gen.
pub record ParseEnv : Type 0 where
  pub kstrdup : Bool
  pub online : ℕ
  pub default_host : ℕ
  pub generated : ℕ
