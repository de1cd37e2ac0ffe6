-- ===== src/Fabrics/Parse/Values.antt =====
-- shell/nvme-of_setup/nvme-modified/host/fabrics.c: the cases of nvmf_parse_options that
-- set a text, a number, a name or a flag.
use net_cas.Common.{ℕ, Bool, true, ◌||◌, Option, none, some, ltb, ◌==◌, if◌then◌else◌, min}
use net_cas.Common.Code.{ℤ, pos, negsuc, success, enomem, einval}
use net_cas.Common.Ledger.{Ledger, gain, give}
use net_cas.Common.Lists.{update}
use net_cas.Fabrics.Parse.{
  TextOpt, opt_transport, opt_traddr, opt_trsvcid, opt_host_traddr, FlagOpt, opt_dup_connect,
  opt_disable_sqflow, opt_hdr_digest, opt_data_digest, IntOpt, opt_queue_size, opt_nr_io_queues,
  opt_kato, opt_ctrl_loss_tmo, opt_reconnect_delay, opt_nr_write_queues, opt_nr_poll_queues,
  opt_tos, CtrlOptions, Parsing, ParseEnv,
}

-- `kfree(old)` after a copy was made.
abbrev replaced : Option ℕ → Ledger → Ledger
replaced none l = gain 1 l
replaced (some old) l = give 1 (gain 1 l)

-- The numbers of the bits NVMF_OPT_*.
unfoldable pub text_bit : TextOpt → ℕ
text_bit opt_transport = 0
text_bit opt_traddr = 2
text_bit opt_trsvcid = 3
text_bit opt_host_traddr = 10

unfoldable pub int_bit : IntOpt → ℕ
int_bit opt_queue_size = 4
int_bit opt_nr_io_queues = 5
int_bit opt_kato = 7
int_bit opt_reconnect_delay = 9
int_bit opt_ctrl_loss_tmo = 11
int_bit opt_nr_write_queues = 17
int_bit opt_nr_poll_queues = 18
int_bit opt_tos = 19

unfoldable pub flag_bit : FlagOpt → ℕ
flag_bit opt_dup_connect = 13
flag_bit opt_disable_sqflow = 14
flag_bit opt_hdr_digest = 15
flag_bit opt_data_digest = 16

unfoldable pub masked : ℕ → CtrlOptions → CtrlOptions
masked bit o = record o { mask = update o.mask bit true }

unfoldable pub set_text : TextOpt → ℕ → CtrlOptions → CtrlOptions
set_text opt_transport p o = record o {
  transport = some p;
  strings = replaced o.transport o.strings;
}
set_text opt_traddr p o = record o { traddr = some p; strings = replaced o.traddr o.strings }
set_text opt_trsvcid p o = record o { trsvcid = some p; strings = replaced o.trsvcid o.strings }
set_text opt_host_traddr p o = record o {
  host_traddr = some p;
  strings = replaced o.host_traddr o.strings;
}

unfoldable pub set_flag : FlagOpt → CtrlOptions → CtrlOptions
set_flag opt_dup_connect o = record o { duplicate_connect = true }
set_flag opt_disable_sqflow o = record o { disable_sqflow = true }
set_flag opt_hdr_digest o = record o { hdr_digest = true }
set_flag opt_data_digest o = record o { data_digest = true }

-- The options with a number that is not negative: 0 with what is set, or -EINVAL. A negative one is
-- refused by all of them but the timeout.
unfoldable pub set_nat : ParseEnv → IntOpt → ℕ → Parsing → ℤ × Parsing
set_nat e opt_queue_size n p =
    if ltb n 16 || ltb 1024 n
    then (einval, p)
    else (success, record p { opts = record (p.opts) { queue_size = n } })
set_nat e opt_nr_io_queues n p =
    if n == 0
    then (einval, p)
    else if p.opts.discovery_nqn
    then (success, p)
    else (success, record p { opts = record (p.opts) { nr_io_queues = min e.online n } })
set_nat e opt_kato n p = (success, record p { opts = record (p.opts) { kato = n } })
set_nat e opt_ctrl_loss_tmo n p = (success, record p { ctrl_loss_tmo = pos n })
set_nat e opt_reconnect_delay n p =
    if n == 0
    then (einval, p)
    else (success, record p { opts = record (p.opts) { reconnect_delay = n } })
set_nat e opt_nr_write_queues n p =
    if n == 0
    then (einval, p)
    else (success, record p { opts = record (p.opts) { nr_write_queues = n } })
set_nat e opt_nr_poll_queues n p =
    if n == 0
    then (einval, p)
    else (success, record p { opts = record (p.opts) { nr_poll_queues = n } })
set_nat e opt_tos n p = (success, record p { opts = record (p.opts) { tos = pos (min n 255) } })

unfoldable pub set_int : ParseEnv → IntOpt → ℤ → Parsing → ℤ × Parsing
set_int e i (pos n) p = set_nat e i n p
set_int e opt_ctrl_loss_tmo (negsuc n) p = (success, record p { ctrl_loss_tmo = negsuc n })
set_int e _ (negsuc n) p = (einval, p)

-- The case of the subsystem's name: the new text is kept also when it is too long.
unfoldable pub set_nqn : ℕ → Bool → Bool → CtrlOptions → ℤ × CtrlOptions
set_nqn p too_long is_discovery o =
    let kept = record o { subsysnqn = some p; strings = replaced o.subsysnqn o.strings } in
    if too_long then (einval, kept) else (success, record kept { discovery_nqn = is_discovery })

-- The case of the host's name; -EADDRINUSE is -98. The text is freed again.
unfoldable pub set_hostnqn : Option ℕ → Bool → Option ℕ → CtrlOptions → ℤ × CtrlOptions
set_hostnqn p too_long added o =
    let freed = record o { strings = give 1 (gain 1 o.strings) } in
    elim (o.host) [
      | some host ↦ (negsuc 97, o)
      | none ↦ elim p [
        | none ↦ (enomem, o)
        | some name ↦ if too_long then (einval, freed) else elim added [
          | none ↦ (enomem, freed)
          | some host ↦ (success, record freed { host = some host; hosts = gain 1 freed.hosts })
        ]
      ]
    ]
