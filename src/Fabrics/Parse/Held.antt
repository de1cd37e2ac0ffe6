-- ===== src/Fabrics/Parse/Held.antt =====
-- The texts and the host that nvmf_parse_options, of
-- shell/nvme-of_setup/nvme-modified/host/fabrics.c, leaves in the options.
use net_cas.Common.{ℕ, ◌+◌, Bool, List, [], ◌∷◌, Option, none, some, if◌then◌else◌, if_ind, arith}
use net_cas.Common.Code.{ℤ, is_zero, success, enomem}
use net_cas.Common.Ledger.{Holds}
use net_cas.Fabrics.Parse.{
  TextOpt, FlagOpt, IntOpt, Token, text, nqn, int, hostnqn, hostid, flag, unknown, CtrlOptions,
  Parsing, ParseEnv,
}
use net_cas.Fabrics.Parse.Values.{
  masked, set_text, set_flag, set_nat, set_int, set_nqn, set_hostnqn,
}
use net_cas.Fabrics.Parse.Loop.{
  parse_option, parse_loop, defaults, finish_options, parse_options, free_options,
}

abbrev set_fields : Option ℕ → ℕ
set_fields none = 0
set_fields (some x) = 1

abbrev texts : CtrlOptions → ℕ
texts o =
    set_fields o.transport
    + set_fields o.traddr
    + set_fields o.trsvcid
    + set_fields o.subsysnqn
    + set_fields o.host_traddr

-- Each text that is set was copied once, and the host is referred to once.
pub record IsHeld (o : CtrlOptions) : Type 0 where
  pub strings : Holds (texts o) o.strings
  pub hosts : Holds (set_fields o.host) o.hosts

set_text-IsHeld : (t : TextOpt) (s : ℕ) (o : CtrlOptions) → IsHeld o → IsHeld (set_text t s o)
unfolding set_text
set_text-IsHeld t s o h = ground arith

set_flag-IsHeld : (f : FlagOpt) (o : CtrlOptions) → IsHeld o → IsHeld (set_flag f o)
unfolding set_flag
set_flag-IsHeld f o h = ground arith

masked-IsHeld : (bit : ℕ) (o : CtrlOptions) → IsHeld o → IsHeld (masked bit o)
unfolding masked
masked-IsHeld bit o h = record { strings = h.strings; hosts = h.hosts }

set_int-IsHeld :
    (e : ParseEnv) (i : IntOpt) (z : ℤ) (p : Parsing)
    → IsHeld p.opts
    → IsHeld (set_int e i z p).1.opts
unfolding set_int set_nat
set_int-IsHeld e i z p h = ground arith

set_nqn-IsHeld :
    (s : ℕ) (too_long is_discovery : Bool) (o : CtrlOptions)
    → IsHeld o
    → IsHeld (set_nqn s too_long is_discovery o).1
unfolding set_nqn
set_nqn-IsHeld s too_long is_discovery o h = ground arith

set_hostnqn-IsHeld :
    (name : Option ℕ) (too_long : Bool) (added : Option ℕ) (o : CtrlOptions)
    → IsHeld o
    → IsHeld (set_hostnqn name too_long added o).1
unfolding set_hostnqn
set_hostnqn-IsHeld name too_long added o h = ground arith

parse_option-IsHeld :
    (e : ParseEnv) (t : Token) (p : Parsing) → IsHeld p.opts → IsHeld (parse_option e t p).1.opts
unfolding parse_option
parse_option-IsHeld e (text t none) p h = masked-IsHeld _ p.opts h
parse_option-IsHeld e (text t (some s)) p h =
    set_text-IsHeld t s (masked _ p.opts) (masked-IsHeld _ p.opts h)
parse_option-IsHeld e (nqn none too_long is_discovery) p h = masked-IsHeld 1 p.opts h
parse_option-IsHeld e (nqn (some s) too_long is_discovery) p h =
    set_nqn-IsHeld s too_long is_discovery (masked 1 p.opts) (masked-IsHeld 1 p.opts h)
parse_option-IsHeld e (int i none) p h = masked-IsHeld _ p.opts h
parse_option-IsHeld e (int i (some z)) p h = set_int-IsHeld e i z _ (masked-IsHeld _ p.opts h)
parse_option-IsHeld e (hostnqn name too_long added) p h =
    set_hostnqn-IsHeld name too_long added (masked 8 p.opts) (masked-IsHeld 8 p.opts h)
parse_option-IsHeld e (hostid none parsed) p h = masked-IsHeld 12 p.opts h
parse_option-IsHeld e (hostid (some s) none) p h =
    let g = masked-IsHeld 12 p.opts h in
    let l = g.strings in record { strings = omega arith; hosts = g.hosts }
parse_option-IsHeld e (hostid (some s) (some id)) p h =
    let g = masked-IsHeld 12 p.opts h in
    let l = g.strings in record { strings = omega arith; hosts = g.hosts }
parse_option-IsHeld e (flag f) p h = set_flag-IsHeld f (masked _ p.opts) (masked-IsHeld _ p.opts h)
parse_option-IsHeld e unknown p h = h

parse_loop-IsHeld :
    (e : ParseEnv) (tokens : List Token) (p : Parsing)
    → IsHeld p.opts
    → IsHeld (parse_loop e tokens p).1.opts
unfolding parse_loop
parse_loop-IsHeld e [] p h = h
parse_loop-IsHeld e (t ∷ tokens) p h =
    let (ret, p') = parse_option e t p in
    let g = parse_option-IsHeld e t p h in
    if_ind (λ (r : ℤ × Parsing). IsHeld r.1.opts) (is_zero ret) (parse_loop e tokens p') (ret, p')
      (λ ok. parse_loop-IsHeld e tokens p' g) (λ bad. g)

finish_options-IsHeld :
    (e : ParseEnv) (p : Parsing) → IsHeld p.opts → IsHeld (finish_options e p).opts
unfolding finish_options
finish_options-IsHeld e p h = ground arith

free_options-IsHeld :
    (o : CtrlOptions) → IsHeld o → Holds 0 (free_options o).strings × Holds 0 (free_options o).hosts
unfolding free_options
free_options-IsHeld o h = ground arith

-- Whatever options are given, in whatever order and how often, and whatever is answered:
-- nvmf_parse_options, whether it fails or not, leaves options of which nvmf_free_options frees every
-- text and gives back every reference to a host, if that held before.
pub parse_options-free_options :
    (e : ParseEnv) (tokens : List Token) (o : CtrlOptions)
    → IsHeld o
    → Holds 0 (free_options (parse_options e tokens o).1.opts).strings
      × Holds 0 (free_options (parse_options e tokens o).1.opts).hosts
unfolding parse_options defaults
parse_options-free_options e tokens o h =
    let begun : IsHeld (defaults e o).opts = record { strings = h.strings; hosts = h.hosts } in
    let (ret, p) = parse_loop e tokens (defaults e o) in
    let parsed = parse_loop-IsHeld e tokens (defaults e o) begun in
    free_options-IsHeld (parse_options e tokens o).1.opts (
      if_ind (λ (r : ℤ × Parsing). IsHeld r.1.opts) e.kstrdup
        (if is_zero ret then (success, finish_options e p) else (ret, p)) (enomem, defaults e o)
        (λ copied.
          if_ind (λ (r : ℤ × Parsing). IsHeld r.1.opts) (is_zero ret) (success, finish_options e p)
            (ret, p) (λ ok. finish_options-IsHeld e p parsed) (λ bad. parsed))
        (λ lacking. begun))
