-- ===== src/Fabrics/Parse/Loop.antt =====
-- shell/nvme-of_setup/nvme-modified/host/fabrics.c: the loop of nvmf_parse_options, what
-- comes before and after it, and nvmf_free_options.
use net_cas.Common.{ℕ, ◌+◌, ◌/◌, ◌%◌, true, false, List, [], ◌∷◌, Option, none, some, if◌then◌else◌}
use net_cas.Common.Code.{ℤ, pos, negsuc, is_zero, success, enomem, einval}
use net_cas.Common.Ledger.{Ledger, gain, give}
use net_cas.Fabrics.Parse.{
  Token, text, nqn, int, hostnqn, hostid, flag, unknown, CtrlOptions, Parsing, ParseEnv,
}
use net_cas.Fabrics.Parse.Values.{
  text_bit, int_bit, flag_bit, masked, set_text, set_flag, set_int, set_nqn, set_hostnqn,
}

-- The case of one option.
unfoldable pub parse_option : ParseEnv → Token → Parsing → ℤ × Parsing
parse_option e (text t none) p = (enomem, record p { opts = masked (text_bit t) p.opts })
parse_option e (text t (some s)) p =
    (success, record p { opts = set_text t s (masked (text_bit t) p.opts) })
parse_option e (nqn none too_long is_discovery) p = (enomem, record p { opts = masked 1 p.opts })
parse_option e (nqn (some s) too_long is_discovery) p =
    let (ret, o) = set_nqn s too_long is_discovery (masked 1 p.opts) in (ret, record p { opts = o })
parse_option e (int i none) p = (einval, record p { opts = masked (int_bit i) p.opts })
parse_option e (int i (some z)) p = set_int e i z (record p { opts = masked (int_bit i) p.opts })
parse_option e (hostnqn name too_long added) p =
    let (ret, o) = set_hostnqn name too_long added (masked 8 p.opts) in (ret, record p { opts = o })
parse_option e (hostid none parsed) p = (enomem, record p { opts = masked 12 p.opts })
parse_option e (hostid (some s) none) p =
    let o = masked 12 p.opts in
    (einval, record p { opts = record o { strings = give 1 (gain 1 o.strings) } })
parse_option e (hostid (some s) (some id)) p =
    let o = masked 12 p.opts in
    (success, record p { opts = record o { strings = give 1 (gain 1 o.strings) }; host_id = id })
parse_option e (flag f) p = (success, record p { opts = set_flag f (masked (flag_bit f) p.opts) })
parse_option e unknown p = (einval, p)

unfoldable pub parse_loop : ParseEnv → List Token → Parsing → ℤ × Parsing
parse_loop e [] p = (success, p)
parse_loop e (t ∷ tokens) p =
    let (ret, p') = parse_option e t p in
    let rest = parse_loop e tokens p' in if is_zero ret then rest else (ret, p')

-- The defaults, for options that are zero otherwise.
unfoldable pub defaults : ParseEnv → CtrlOptions → Parsing
defaults e o = record {
  opts = record o {
    queue_size = 128;
    nr_io_queues = e.online;
    reconnect_delay = 10;
    kato = 5;
    duplicate_connect = false;
    hdr_digest = false;
    data_digest = false;
    tos = negsuc 0;
  };
  ctrl_loss_tmo = pos 600;
  host_id = e.generated;
}

unfoldable pub attempts_in : ℤ → ℕ → ℤ
attempts_in (negsuc n) delay = negsuc 0
attempts_in (pos n) delay = pos ((n + delay + 4294967295) % 4294967296 / delay)

-- From the end of the loop on; the identifier of the host, which is copied into it, is the result's
-- `host_id`.
unfoldable pub finish_options : ParseEnv → Parsing → Parsing
finish_options e p =
    let o = p.opts in
    let counts =
      if o.discovery_nqn
      then record o {
        nr_io_queues = 0;
        nr_write_queues = 0;
        nr_poll_queues = 0;
        duplicate_connect = true;
      }
      else o in
    let timed = record counts {
      max_reconnects = attempts_in p.ctrl_loss_tmo counts.reconnect_delay;
    } in
    record p {
      opts = elim (timed.host) [
        | some host ↦ timed
        | none ↦ record timed { host = some e.default_host; hosts = gain 1 timed.hosts }
      ];
    }

unfoldable pub parse_options : ParseEnv → List Token → CtrlOptions → ℤ × Parsing
parse_options e tokens o =
    let (ret, p) = parse_loop e tokens (defaults e o) in
    if e.kstrdup
    then if is_zero ret then (success, finish_options e p) else (ret, p)
    else (enomem, defaults e o)

-- nvmf_free_options: nvmf_host_put, and the kfree of each text.
abbrev dropped : Option ℕ → Ledger → Ledger
dropped none l = l
dropped (some x) l = give 1 l

unfoldable pub free_options : CtrlOptions → CtrlOptions
free_options o = record o {
  hosts = dropped o.host o.hosts;
  strings = dropped o.transport (
      dropped o.traddr (dropped o.trsvcid (dropped o.subsysnqn (dropped o.host_traddr o.strings))));
}
