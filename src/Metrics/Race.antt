-- ===== src/Metrics/Race.antt =====
-- `total_bytes` in nvme_rdma_complete_rq, of shell/nvme-of_setup/nvme-modified/host/rdma.c, on two
-- processors at once: the load and the store of `total_bytes += bytes`, then `total_bytes = 0` on a
-- processor that finds the interval over, with no lock and no atomic operation between them. The
-- answer of each test of the interval is given, and `first_time` is false.
use net_cas.Common.{
  ◌+◌, ℕ, ◌≡◌, refl, sym, ap, ◌⊎◌, ◌↔◌, inl, inr, Bool, true, false, List, [], ◌∷◌, if◌then◌else◌,
  leb, arith,
}
use mathlib.Core.Path.{subst}
use net_cas.Metrics.{u64, Metrics, Ktime, Completion, complete, measure_interval}

-- Where a processor stands: before the load, with what it loaded, after the store, and after the test
-- of the interval with what it leads to.
pub data Adding : Type 0 where
  ready : Adding
  loaded : ℕ → Adding
  stored : Adding
  finished : Adding

-- The next access of a processor that adds `bytes`, and that publishes if its test says so.
unfoldable access : ℕ → Bool → ℕ → Adding → ℕ × Adding
access bytes over total ready = (total, loaded total)
access bytes over total (loaded v) = (u64 (v + bytes), stored)
access bytes over total stored = (if over then 0 else total, finished)
access bytes over total finished = (total, finished)

pub record Shared : Type 0 where
  pub total_bytes : ℕ
  pub first : Adding
  pub second : Adding

-- Two completions: the bytes of each, and whether each finds the interval over.
pub record Pair : Type 0 where
  pub first_bytes : ℕ
  pub second_bytes : ℕ
  pub first_over : Bool
  pub second_over : Bool

abbrev step_first : Pair → Shared → Shared
step_first c s =
    let (n, p) = access c.first_bytes c.first_over s.total_bytes s.first in
    record s { total_bytes = n; first = p }

abbrev step_second : Pair → Shared → Shared
step_second c s =
    let (n, p) = access c.second_bytes c.second_over s.total_bytes s.second in
    record s { total_bytes = n; second = p }

-- A schedule: `true` for an access of the first processor, `false` for one of the second.
pub play : Pair → List Bool → Shared → Shared
play c [] s = s
play c (true ∷ later) s = play c later (step_first c s)
play c (false ∷ later) s = play c later (step_second c s)

abbrev pub both_ready : ℕ → Shared
both_ready m = record { total_bytes = m; first = Adding.ready; second = Adding.ready }

abbrev pub both_finished : ℕ → Shared
both_finished n = record { total_bytes = n; first = finished; second = finished }

-- Neither is reset: both count, or the first alone, or the second alone.
abbrev Unreset : ℕ → ℕ → ℕ → ℕ → Type 0
Unreset m a b n = (n ≡ u64 (u64 (m + a) + b)) ⊎ (n ≡ u64 (m + a)) ⊎ (n ≡ u64 (m + b))

-- The one that adds `a` resets: nothing is left, or `b` alone, or `b` with what was to be reset.
abbrev Reset : ℕ → ℕ → ℕ → ℕ → Type 0
Reset m a b n = (n ≡ 0) ⊎ (n ≡ u64 b) ⊎ (n ≡ u64 (m + b)) ⊎ (n ≡ u64 (u64 (m + a) + b))

-- What can be left of `m`, by whether the one that adds `a` and the one that adds `b` find the
-- interval over.
abbrev Leaves : ℕ → ℕ → ℕ → Bool → Bool → ℕ → Type 0
Leaves m a b true true n = n ≡ 0
Leaves m a b true false n = Reset m a b n
Leaves m a b false true n = Reset m b a n
Leaves m a b false false n = Unreset m a b n

abbrev pub Left : ℕ → Pair → ℕ → Type 0
Left m c n = Leaves m c.first_bytes c.second_bytes c.first_over c.second_over n

abbrev after : Bool → ℕ → ℕ
after over n = if over then 0 else n

-- What is so between two accesses, by where each processor stands; `p` and `q` say whether they find
-- the interval over.
abbrev Standing : ℕ → ℕ → ℕ → Bool → Bool → ℕ → Adding → Adding → Type 0
Standing m a b p q n Adding.ready Adding.ready = n ≡ m
Standing m a b p q n (loaded v) Adding.ready = (n ≡ m) × (v ≡ m)
Standing m a b p q n Adding.ready (loaded w) = (n ≡ m) × (w ≡ m)
Standing m a b p q n (loaded v) (loaded w) = (n ≡ m) × (v ≡ m) × (w ≡ m)
Standing m a b p q n stored Adding.ready = n ≡ u64 (m + a)
Standing m a b p q n Adding.ready stored = n ≡ u64 (m + b)
Standing m a b p q n stored (loaded w) = (n ≡ u64 (m + a)) × ((w ≡ m) ⊎ (w ≡ u64 (m + a)))
Standing m a b p q n (loaded v) stored = (n ≡ u64 (m + b)) × ((v ≡ m) ⊎ (v ≡ u64 (m + b)))
Standing m a b p q n finished Adding.ready = n ≡ after p (u64 (m + a))
Standing m a b p q n Adding.ready finished = n ≡ after q (u64 (m + b))
Standing m a b p q n finished (loaded w) =
    (n ≡ after p (u64 (m + a))) × ((w ≡ m) ⊎ (w ≡ u64 (m + a)) ⊎ (w ≡ after p (u64 (m + a))))
Standing m a b p q n (loaded v) finished =
    (n ≡ after q (u64 (m + b))) × ((v ≡ m) ⊎ (v ≡ u64 (m + b)) ⊎ (v ≡ after q (u64 (m + b))))
Standing m a b p q n stored stored = Unreset m a b n
Standing m a b true q n finished stored = Reset m a b n
Standing m a b false q n finished stored = Unreset m a b n
Standing m a b p true n stored finished = Reset m b a n
Standing m a b p false n stored finished = Unreset m a b n
Standing m a b p q n finished finished = Leaves m a b p q n

abbrev StandsIn : ℕ → Pair → Shared → Type 0
StandsIn m c s =
    Standing m c.first_bytes c.second_bytes c.first_over c.second_over s.total_bytes s.first
      s.second

step_first-StandsIn :
    (m : ℕ) (c : Pair) (s : Shared) → StandsIn m c s → StandsIn m c (step_first c s)
unfolding access
step_first-StandsIn m c s h = ground arith

step_second-StandsIn :
    (m : ℕ) (c : Pair) (s : Shared) → StandsIn m c s → StandsIn m c (step_second c s)
unfolding access
step_second-StandsIn m c s h = ground arith

play-StandsIn :
    (m : ℕ) (c : Pair) (w : List Bool) (s : Shared) → StandsIn m c s → StandsIn m c (play c w s)
unfolding play
play-StandsIn m c [] s h = h
play-StandsIn m c (true ∷ w) s h =
    play-StandsIn m c w (step_first c s) (step_first-StandsIn m c s h)
play-StandsIn m c (false ∷ w) s h =
    play-StandsIn m c w (step_second c s) (step_second-StandsIn m c s h)

-- What is added after a reset.
from_zero : (a n : ℕ) → n ≡ u64 a → n ≡ u64 (0 + a)
from_zero a n e = omega arith

-- The schedules that leave each of the sums: one after the other, and both loading before either
-- stores.
reaches :
    (m a b : ℕ) (p q : Bool) (n : ℕ)
    → Leaves m a b p q n
    → (w : List Bool) × (play
          (record { first_bytes = a; second_bytes = b; first_over = p; second_over = q })
          w
          (both_ready m)
        ≡ both_finished n)
unfolding play access
reaches m a b true true n e =
    (true ∷ true ∷ false ∷ false ∷ true ∷ false ∷ [], ap both_finished (sym e))
reaches m a b true false n (inl e) =
    (true ∷ true ∷ false ∷ false ∷ false ∷ true ∷ [], ap both_finished (sym e))
reaches m a b true false n (inr (inl e)) =
    (true ∷ true ∷ true ∷ false ∷ false ∷ false ∷ [], ap both_finished (sym (from_zero _ n e)))
reaches m a b true false n (inr (inr (inl e))) =
    (false ∷ true ∷ true ∷ true ∷ false ∷ false ∷ [], ap both_finished (sym e))
reaches m a b true false n (inr (inr (inr e))) =
    (true ∷ true ∷ false ∷ true ∷ false ∷ false ∷ [], ap both_finished (sym e))
reaches m a b false true n (inl e) =
    (false ∷ false ∷ true ∷ true ∷ true ∷ false ∷ [], ap both_finished (sym e))
reaches m a b false true n (inr (inl e)) =
    (false ∷ false ∷ false ∷ true ∷ true ∷ true ∷ [], ap both_finished (sym (from_zero _ n e)))
reaches m a b false true n (inr (inr (inl e))) =
    (true ∷ false ∷ false ∷ false ∷ true ∷ true ∷ [], ap both_finished (sym e))
reaches m a b false true n (inr (inr (inr e))) =
    (false ∷ false ∷ true ∷ false ∷ true ∷ true ∷ [], ap both_finished (sym e))
reaches m a b false false n (inl e) =
    (true ∷ true ∷ true ∷ false ∷ false ∷ false ∷ [], ap both_finished (sym e))
reaches m a b false false n (inr (inl e)) =
    (true ∷ false ∷ false ∷ true ∷ true ∷ false ∷ [], ap both_finished (sym e))
reaches m a b false false n (inr (inr e)) =
    (true ∷ false ∷ true ∷ false ∷ true ∷ false ∷ [], ap both_finished (sym e))

-- A processor that is alone leaves what `complete` leaves.
alone-complete :
    (k : Ktime) (m : Metrics) (c : Completion) (other : ℕ)
    → m.first_time ≡ false
    → (play
        (record {
          first_bytes = c.bytes;
          second_bytes = other;
          first_over = leb measure_interval (k.sub_ms c.now m.last_print_time);
          second_over = false;
        })
        (true ∷ true ∷ true ∷ [])
        (both_ready m.total_bytes)).total_bytes
      ≡ (complete k m c).total_bytes
unfolding play access complete net_cas.Metrics.accumulate net_cas.Metrics.publish
alone-complete k m c other h = ground arith

-- Of two completions on two processors, with `m` in `total_bytes` before and whatever their tests of
-- the interval answer, exactly these sums can be left, modulo 2^64. Neither test finds the interval
-- over: the bytes of both with `m`, or of the first alone with it, or of the second alone. Both find
-- it over: zero. One does: zero, the bytes of the other, these with `m`, which were to be reset, or
-- these with `m` and the bytes of the one that resets.
pub play-Left :
    (m : ℕ) (c : Pair) (n : ℕ)
    → ((w : List Bool) × (play c w (both_ready m) ≡ both_finished n)) ↔ Left m c n
play-Left m c n = (
  λ (w, e). subst (StandsIn m c) e (play-StandsIn m c w (both_ready m) refl),
  reaches m c.first_bytes c.second_bytes c.first_over c.second_over n,
)
