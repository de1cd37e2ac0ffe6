-- ===== src/Metrics/Versions/Printed.antt =====
-- What the driver's earlier versions, rdma_throughput.c, rdma_throughput_latency_2.c and
-- rdma_throughput_laency_3.c in shell/nvme-of_setup/nvme-modified/host, print.
use net_cas.Common.{
  ℕ, ◌+◌, ◌/◌, ◌≡◌, refl, true, false, List, [], ◌∷◌, ◌++◌, map, Option, none, some, arith,
  if◌then◌else◌, Bool-cases, inl, inr, ◌∙◌, sym, ap,
}
use net_cas.Common.Lists.{sum}
use net_cas.Metrics.{Metrics, Ktime, Completion, u64, mbps, complete}
use net_cas.Metrics.Versions.{
  Jiffies, Throughput, Submitted, Totals, Sums, second_over, measure_submit, printed, count_submit,
  measure_complete, print_complete,
}

abbrev add_first : ℕ → List (List ℕ) → List (List ℕ)
add_first b [] = (b ∷ []) ∷ []
add_first b (i ∷ is) = (b ∷ i) ∷ is

-- The bytes of the requests, cut after each that comes a second or more after the last cut; what is
-- after the last cut stands at the end.
pub seconds : Jiffies → ℕ → List Submitted → List (List ℕ)
seconds j last [] = [] ∷ []
seconds j last (rq ∷ rqs) =
    let cut = (rq.bytes ∷ []) ∷ seconds j rq.now rqs in
    let kept = add_first rq.bytes (seconds j last rqs) in
    if second_over j rq.now last then cut else kept

-- One number for each part but the last; `m` bytes were there before the first.
pub rates : ℕ → List (List ℕ) → List ℕ
rates m [] = []
rates m (i ∷ []) = []
rates m (i ∷ (i' ∷ is)) = mbps (u64 (m + sum i)) ∷ rates 0 (i' ∷ is)

all_of : List (List ℕ) → List ℕ
all_of [] = []
all_of (i ∷ is) = i ++ all_of is

rates-add_first : (m b : ℕ) (is : List (List ℕ)) → rates m (add_first b is) ≡ rates (u64 (m + b)) is
unfolding rates
rates-add_first m b [] = refl
rates-add_first m b (i ∷ []) = refl
rates-add_first m b (i ∷ (i' ∷ is)) = ap (λ n. mbps n ∷ rates 0 (i' ∷ is)) (omega arith)

add_first-cons :
    (b : ℕ) (is : List (List ℕ)) → (i : List ℕ) × (is' : List (List ℕ)) × (add_first b is ≡ i ∷ is')
add_first-cons b [] = (b ∷ [], [], refl)
add_first-cons b (i ∷ is) = (b ∷ i, is, refl)

seconds-cons :
    (j : Jiffies) (last : ℕ) (rqs : List Submitted)
    → (i : List ℕ) × (is : List (List ℕ)) × (seconds j last rqs ≡ i ∷ is)
unfolding seconds
seconds-cons j last [] = ([], [], refl)
seconds-cons j last (rq ∷ rqs) = elim (Bool-cases (second_over j rq.now last)) [
  | inl over ↦ (rq.bytes ∷ [], seconds j rq.now rqs, rw (over) refl)
  | inr soon ↦ let (i, is, e) = add_first-cons rq.bytes (seconds j last rqs) in (i, is, rw (soon) e)
]

rates-cons :
    (m b : ℕ) (j : Jiffies) (last : ℕ) (rqs : List Submitted)
    → rates m ((b ∷ []) ∷ seconds j last rqs) ≡ mbps (u64 (m + b)) ∷ rates 0 (seconds j last rqs)
unfolding rates
rates-cons m b j last rqs =
    let (i, is, e) = seconds-cons j last rqs in
    rw (e) (ap (λ n. mbps n ∷ rates 0 (i ∷ is)) (omega arith))

-- What rdma_throughput.c prints is, for each second that is over, the MiB of its requests: the
-- numbers of bytes, cut where a second is over, with what was counted before in the first part, and
-- the open part left out.
pub printed-rates :
    (j : Jiffies) (t : Throughput) (rqs : List Submitted)
    → printed j t rqs ≡ rates t.total_bytes (seconds j t.last_jiffies rqs)
unfolding printed measure_submit seconds rates
printed-rates j t [] = refl
printed-rates j t (rq ∷ rqs) = elim (Bool-cases (second_over j rq.now t.last_jiffies)) [
  | inl over ↦ rw (over) (
      ap (λ ns. mbps (u64 (t.total_bytes + rq.bytes)) ∷ ns)
        (printed-rates j (record { total_bytes = 0; last_jiffies = rq.now }) rqs)
      ∙ sym (rates-cons t.total_bytes rq.bytes j rq.now rqs))
  | inr soon ↦ rw (soon) (
      printed-rates j (record t { total_bytes = u64 (t.total_bytes + rq.bytes) }) rqs
      ∙ sym (rates-add_first t.total_bytes rq.bytes (seconds j t.last_jiffies rqs)))
]

all_of-add_first : (b : ℕ) (is : List (List ℕ)) → all_of (add_first b is) ≡ b ∷ all_of is
unfolding all_of
all_of-add_first b [] = refl
all_of-add_first b (i ∷ is) = refl

-- The cut leaves no request out and takes none twice.
all_of-seconds :
    (j : Jiffies) (last : ℕ) (rqs : List Submitted)
    → all_of (seconds j last rqs) ≡ map (λ rq. rq.bytes) rqs
unfolding all_of seconds
all_of-seconds j last [] = refl
all_of-seconds j last (rq ∷ rqs) = elim (Bool-cases (second_over j rq.now last)) [
  | inl over ↦ rw (over) (ap (λ bs. rq.bytes ∷ bs) (all_of-seconds j rq.now rqs))
  | inr soon ↦ rw (soon) (
      all_of-add_first rq.bytes (seconds j last rqs)
      ∙ ap (λ bs. rq.bytes ∷ bs) (all_of-seconds j last rqs))
]

-- When a second is over at a submission, rdma_throughput_latency_2.c reports its bytes nowhere: what
-- was counted before makes no difference to the state after, and a completion at the same time
-- prints nothing, if `time_after` does not hold of a time and the same time a second later.
pub count_submit-forgets :
    (j : Jiffies) (k : Ktime) (t : Totals) (rq : Submitted) (c : Completion) (m : ℕ)
    → second_over j rq.now t.last_jiffies ≡ true
    → second_over j rq.now rq.now ≡ false
    → (count_submit j (record t { total_bytes = m }) rq ≡ count_submit j t rq)
      × ((measure_complete j k rq.now (count_submit j t rq) c).0.total_bytes ≡ 0)
      × ((measure_complete j k rq.now (count_submit j t rq) c).1 ≡ none)
unfolding count_submit measure_complete
count_submit-forgets j k t rq c m over soon = ground arith

-- A clock that runs ten times slower, in milliseconds.
abbrev slowed : Ktime → Ktime
slowed k = record k { sub_ms = λ a b. k.sub_ms a b / 10 }

-- The variables of rdma.c, with the two numbers that were printed last.
abbrev pub published : Sums → ℕ × ℕ → Metrics
published m last = record {
  total_bytes = m.total_bytes;
  total_latency_ns = m.total_latency_ns;
  total_latency_count = m.total_latency_count;
  last_print_time = m.last_print_time;
  first_time = m.first_time;
  last_throughput_mbps = last.0;
  last_avg_latency_us = last.1;
}

abbrev latest : Option (ℕ × ℕ) → ℕ × ℕ → ℕ × ℕ
latest none last = last
latest (some line) last = line

-- rdma_throughput_laency_3.c is rdma.c with an interval of 1000 instead of 100 ms: it prints what
-- rdma.c publishes under a clock that runs ten times slower, and the sums stay the same.
print_complete-complete :
    (k : Ktime) (m : Sums) (c : Completion) (last : ℕ × ℕ)
    → complete (slowed k) (published m last) c
      ≡ published (print_complete k m c).0 (latest (print_complete k m c).1 last)
unfolding complete print_complete
print_complete-complete k m c last = ground arith
