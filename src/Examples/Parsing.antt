-- ===== src/Examples/Parsing.antt =====
-- Strings of options for nvmf_parse_options, of shell/nvme-of_setup/nvme-modified/host/fabrics.c.
use net_cas.Common.{◌-◌, ◌<◌, ◌≡◌, refl, true, false, List, [], ◌∷◌, none, some, arith}
use net_cas.Common.Code.{pos, is_zero}
use net_cas.Common.Ledger.{nothing, Holds}
use net_cas.Common.Lists.{All}
use net_cas.Counts.{QueueCounts, allocated_queues, count_io_queues}
use net_cas.Fabrics.Parse.{
  Token, text, nqn, int, hostnqn, CtrlOptions, ParseEnv, opt_transport, opt_traddr, opt_queue_size,
  opt_nr_io_queues, opt_ctrl_loss_tmo,
}
use net_cas.Fabrics.Parse.Values.{set_text, set_nqn, set_int, set_nat, masked}
use net_cas.Fabrics.Parse.Loop.{
  parse_options, free_options, parse_loop, parse_option, defaults, finish_options,
}
use net_cas.Fabrics.Parse.Held.{IsHeld, parse_options-free_options}
use net_cas.Fabrics.Parse.Limits.{IsInt, Checked, queue_options, parse_options-Checked}
use net_cas.Fabrics.Parse.Wrap.{asking, parse_options-wraps}
use net_cas.Examples.{two_shared, all_granted}

abbrev machine : ParseEnv
machine = record { kstrdup = true; online = 8; default_host = 1; generated = 77 }

abbrev zeroed_options : CtrlOptions
zeroed_options = record {
  mask = λ i. false;
  transport = none;
  subsysnqn = none;
  traddr = none;
  trsvcid = none;
  host_traddr = none;
  queue_size = 0;
  nr_io_queues = 0;
  reconnect_delay = 0;
  discovery_nqn = false;
  duplicate_connect = false;
  kato = 0;
  host = none;
  max_reconnects = pos 0;
  disable_sqflow = false;
  hdr_digest = false;
  data_digest = false;
  nr_write_queues = 0;
  nr_poll_queues = 0;
  tos = pos 0;
  strings = nothing;
  hosts = nothing;
}

zeroed_options-IsHeld : IsHeld zeroed_options
zeroed_options-IsHeld = record { strings = refl; hosts = refl }

-- The address is given twice, the host's name is too long.
abbrev refused : List Token
refused =
    text opt_transport (some 1)
    ∷ nqn (some 2) false false
    ∷ text opt_traddr (some 3)
    ∷ text opt_traddr (some 4)
    ∷ hostnqn (some 5) true (some 6)
    ∷ []

parse_options-free_options_example :
    Holds 0 (free_options (parse_options machine refused zeroed_options).1.opts).strings
    × Holds 0 (free_options (parse_options machine refused zeroed_options).1.opts).hosts
parse_options-free_options_example =
    parse_options-free_options machine refused zeroed_options zeroed_options-IsHeld

abbrev accepted : List Token
accepted =
    text opt_transport (some 1)
    ∷ nqn (some 2) false false
    ∷ int opt_queue_size (some (pos 64))
    ∷ int opt_nr_io_queues (some (pos 100))
    ∷ int opt_ctrl_loss_tmo (some (pos 605))
    ∷ []

accepted-IsInt : All IsInt accepted
accepted-IsInt = (tt, (tt, (omega arith, (omega arith, (omega arith, tt)))))

parse_options-Checked_example :
    Checked machine.online (parse_options machine accepted zeroed_options).1
unfolding parse_options parse_loop parse_option defaults finish_options set_text set_nqn set_int
    set_nat masked
parse_options-Checked_example =
    parse_options-Checked machine accepted zeroed_options accepted-IsInt refl refl refl

abbrev counts : QueueCounts
counts = record { queue_count = 4; io_queues = two_shared }

parse_options-wraps_example :
    (is_zero (parse_options machine (asking 5) zeroed_options).0 ≡ true)
    × (allocated_queues (queue_options (parse_options machine (asking 5) zeroed_options).1.opts)
        ≡ 5 - 1)
    × (5
        < (count_io_queues
            (queue_options (parse_options machine (asking 5) zeroed_options).1.opts)
            4
            8
            all_granted
            counts).1.queue_count)
parse_options-wraps_example =
    parse_options-wraps machine 5 zeroed_options 4 all_granted counts refl refl (omega arith)
      (omega arith) (omega arith) refl (omega arith)
