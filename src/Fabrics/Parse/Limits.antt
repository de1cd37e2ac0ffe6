-- ===== src/Fabrics/Parse/Limits.antt =====
-- The numbers that nvmf_parse_options, of shell/nvme-of_setup/nvme-modified/host/fabrics.c, lets
-- through.
use net_cas.Common.{
  ℕ, ◌+◌, ◌-◌, ◌*◌, ◌/◌, ◌%◌, ◌≤◌, ◌<◌, ◌≡◌, refl, sym, ◌∙◌, true, false, List, [], ◌∷◌, none, some,
  if◌then◌else◌, if_ind, arith,
}
use mathlib.Core.Bool.{false≢true}
use native.Mathlib.Nat.{div-add-mod', mod-lt}
use net_cas.Common.Code.{ℤ, pos, negsuc, is_zero, is_neg, success, enomem}
use net_cas.Common.Lists.{All}
use net_cas.Counts.{QueueOptions}
use net_cas.Fabrics.Parse.{
  TextOpt, IntOpt, Token, text, nqn, int, hostnqn, hostid, flag, unknown, CtrlOptions, Parsing,
  ParseEnv,
}
use net_cas.Fabrics.Parse.Values.{
  masked, set_text, set_flag, set_nat, set_int, set_nqn, set_hostnqn, int_bit, text_bit,
}
use net_cas.Fabrics.Parse.Loop.{
  parse_option, parse_loop, defaults, attempts_in, finish_options, parse_options,
}

-- What nvme_rdma_create_ctrl counts the queues by.
abbrev pub queue_options : CtrlOptions → QueueOptions
queue_options o = record {
  nr_io_queues = o.nr_io_queues;
  nr_write_queues = o.nr_write_queues;
  nr_poll_queues = o.nr_poll_queues;
}

abbrev magnitude : ℤ → ℕ
magnitude (pos n) = n
magnitude (negsuc n) = 0

-- match_int reads an `int`.
abbrev pub IsInt : Token → Type 0
IsInt (int i (some z)) = magnitude z < 2147483648
IsInt _ = Unit

pub record Limited (online : ℕ) (p : Parsing) : Type 0 where
  pub smallest : 16 ≤ p.opts.queue_size
  pub largest : p.opts.queue_size ≤ 1024
  pub delay : 0 < p.opts.reconnect_delay
  pub delay_int : p.opts.reconnect_delay < 2147483648
  pub io : p.opts.nr_io_queues ≤ online
  pub write : p.opts.nr_write_queues < 2147483648
  pub poll : p.opts.nr_poll_queues < 2147483648
  pub timeout : magnitude p.ctrl_loss_tmo < 2147483648

set_int-Limited :
    (e : ParseEnv) (i : IntOpt) (z : ℤ) (p : Parsing)
    → magnitude z < 2147483648
    → Limited e.online p
    → Limited e.online (set_int e i z p).1
unfolding set_int set_nat
set_int-Limited e i z p small h = ground arith

set_text-numbers :
    (t : TextOpt) (s : ℕ) (o : CtrlOptions)
    → ((set_text t s o).queue_size ≡ o.queue_size)
      × ((set_text t s o).reconnect_delay ≡ o.reconnect_delay)
      × ((set_text t s o).nr_io_queues ≡ o.nr_io_queues)
      × ((set_text t s o).nr_write_queues ≡ o.nr_write_queues)
      × ((set_text t s o).nr_poll_queues ≡ o.nr_poll_queues)
unfolding set_text
set_text-numbers t s o = ground arith

parse_option-Limited :
    (e : ParseEnv) (t : Token) (p : Parsing)
    → IsInt t
    → Limited e.online p
    → Limited e.online (parse_option e t p).1
unfolding parse_option set_nqn set_hostnqn set_flag masked
parse_option-Limited e (text t none) p small h = ground arith
parse_option-Limited e (text t (some s)) p small h =
    let n = set_text-numbers t s (masked (text_bit t) p.opts) in ground arith
parse_option-Limited e (nqn s too_long is_discovery) p small h = ground arith
parse_option-Limited e (int i none) p small h = ground arith
parse_option-Limited e (int i (some z)) p small h =
    set_int-Limited e i z (record p { opts = masked (int_bit i) p.opts }) small (ground arith)
parse_option-Limited e (hostnqn s too_long added) p small h = ground arith
parse_option-Limited e (hostid s parsed) p small h = ground arith
parse_option-Limited e (flag f) p small h = ground arith
parse_option-Limited e unknown p small h = h

parse_loop-Limited :
    (e : ParseEnv) (tokens : List Token) (p : Parsing)
    → All IsInt tokens
    → Limited e.online p
    → Limited e.online (parse_loop e tokens p).1
unfolding parse_loop
parse_loop-Limited e [] p small h = h
parse_loop-Limited e (t ∷ tokens) p (small, smalls) h =
    let (ret, p') = parse_option e t p in
    let g = parse_option-Limited e t p small h in
    if_ind (λ (r : ℤ × Parsing). Limited e.online r.1) (is_zero ret) (parse_loop e tokens p')
      (ret, p') (λ ok. parse_loop-Limited e tokens p' smalls g) (λ bad. g)

-- The number of reconnects for a timeout and a delay: as many delays as cover the timeout and no more;
-- without end for a timeout below 0.
abbrev Covering : ℤ → ℕ → ℤ → Type 0
Covering (negsuc n) delay reconnects = is_neg reconnects ≡ true
Covering (pos n) delay (pos reconnects) =
    (n ≤ reconnects * delay) × (reconnects * delay < n + delay)
Covering (pos n) delay (negsuc reconnects) = false ≡ true

round_up : (n d : ℕ) → 0 < d → (n ≤ (n + d - 1) / d * d) × ((n + d - 1) / d * d < n + d)
round_up n d some_delay =
    let whole = div-add-mod' (n + d - 1) d in
    let part = mod-lt (n + d - 1) some_delay in (omega arith, omega arith)

attempts_in-Covering :
    (z : ℤ) (delay : ℕ)
    → 0 < delay
    → delay < 2147483648
    → magnitude z < 2147483648
    → Covering z delay (attempts_in z delay)
unfolding attempts_in
attempts_in-Covering (negsuc n) delay some_delay small small_int = refl
attempts_in-Covering (pos n) delay some_delay small small_int =
    let exact : (n + delay + 4294967295) % 4294967296 ≡ n + delay - 1 = omega arith in
    rw (exact) (round_up n delay some_delay)

-- Options that were let through: the queue size between 16 and 1024, a positive delay, no more I/O
-- queues than processors, none for a discovery subsystem, and reconnects that cover the timeout.
pub record Checked (online : ℕ) (p : Parsing) : Type 0 where
  pub limited : Limited online p
  pub discovery :
      p.opts.discovery_nqn ≡ true
      → (p.opts.nr_io_queues ≡ 0) × (p.opts.nr_write_queues ≡ 0) × (p.opts.nr_poll_queues ≡ 0)
  pub reconnects : Covering p.ctrl_loss_tmo p.opts.reconnect_delay p.opts.max_reconnects

finish_options-numbers :
    (e : ParseEnv) (p : Parsing)
    → Limited e.online p
    → Limited e.online (finish_options e p)
      × ((finish_options e p).opts.discovery_nqn ≡ true
          → ((finish_options e p).opts.nr_io_queues ≡ 0)
            × ((finish_options e p).opts.nr_write_queues ≡ 0)
            × ((finish_options e p).opts.nr_poll_queues ≡ 0))
      × ((finish_options e p).opts.max_reconnects
          ≡ attempts_in p.ctrl_loss_tmo p.opts.reconnect_delay)
      × ((finish_options e p).opts.reconnect_delay ≡ p.opts.reconnect_delay)
      × ((finish_options e p).ctrl_loss_tmo ≡ p.ctrl_loss_tmo)
unfolding finish_options
finish_options-numbers e p h = ground arith

finish_options-Checked :
    (e : ParseEnv) (p : Parsing) → Limited e.online p → Checked e.online (finish_options e p)
finish_options-Checked e p h =
    let (limited, discovery, reconnects, delay, timeout) = finish_options-numbers e p h in
    record {
      limited = limited;
      discovery = discovery;
      reconnects =
          rw (reconnects, delay, timeout)
            (attempts_in-Covering p.ctrl_loss_tmo p.opts.reconnect_delay h.delay h.delay_int
              h.timeout);
    }

-- When nvmf_parse_options returns 0 for options that ask for no queues yet, it lets only such numbers
-- through, whatever options are given, in whatever order and how often, their numbers being ints.
pub parse_options-Checked :
    (e : ParseEnv) (tokens : List Token) (o : CtrlOptions)
    → All IsInt tokens
    → o.nr_write_queues ≡ 0
    → o.nr_poll_queues ≡ 0
    → is_zero (parse_options e tokens o).0 ≡ true
    → Checked e.online (parse_options e tokens o).1
unfolding parse_options defaults
parse_options-Checked e tokens o small no_write no_poll =
    let begun : Limited e.online (defaults e o) = ground arith in
    let (ret, p) = parse_loop e tokens (defaults e o) in
    if_ind (λ (r : ℤ × Parsing). is_zero r.0 ≡ true → Checked e.online r.1) e.kstrdup
      (if is_zero ret then (success, finish_options e p) else (ret, p)) (enomem, defaults e o)
      (λ copied.
        if_ind (λ (r : ℤ × Parsing). is_zero r.0 ≡ true → Checked e.online r.1) (is_zero ret)
          (success, finish_options e p) (ret, p)
          (λ ok h.
            finish_options-Checked e p (parse_loop-Limited e tokens (defaults e o) small begun))
          (λ bad h. absurd (false≢true (sym bad ∙ h))))
      (λ lacking h. absurd (false≢true h))
