-- ===== src/Command/Pages/Invariant.antt =====
-- The discard page and the lists of ranges after any sequence of submissions and completions, of
-- shell/nvme-of_setup/nvme-modified/host/core.c and rdma.c.
use net_cas.Common.{
  ℕ, ◌+◌, ◌-◌, ◌≤◌, ◌≡◌, inl, inr, sym, ◌∙◌, Bool, true, ◌&&◌, List, [], ◌∷◌, ◌++◌, if◌then◌else◌,
  arith, if_ind,
}
use mathlib.Core.Bool.{false≢true}
use net_cas.Common.Lists.{All}
use net_cas.Fabrics.{check_ready}
use net_cas.Metrics.{Metrics, Ktime}
use net_cas.Request.{Request}
use net_cas.Request.Submit.{is_ok, queue_rq, complete_rq}
use net_cas.Command.{Shared}
use net_cas.Command.Extents.{is_special}
use net_cas.Command.Pages.{
  Stale, cleaned, Flying, World, Dispatch, launched, dispatch, retire, Segmented, Step, submit,
  complete, Reach, here, next, pages, ranges, IsPaged,
}
use net_cas.Command.Pages.Took.{
  setup_cmd-Took, queue_rq-cleanups, complete_rq-cleanups, cleaned_once-released,
}

both-true : (a b : Bool) → (a && b) ≡ true → (a ≡ true) × (b ≡ true)
both-true a b h = ground arith

pages-++ : (xs ys : List Flying) → pages (xs ++ ys) ≡ pages xs + pages ys
pages-++ [] ys = omega arith
pages-++ (x ∷ xs) ys = let ih = pages-++ xs ys in omega arith

ranges-++ : (xs ys : List Flying) → ranges (xs ++ ys) ≡ ranges xs + ranges ys
ranges-++ [] ys = omega arith
ranges-++ (x ∷ xs) ys = let ih = ranges-++ xs ys in omega arith

abbrev AllSegmented : List Flying → Type 0
AllSegmented flights = All (λ (f : Flying). Segmented f.rq f.req) flights

without :
    (xs : List Flying) (f : Flying) (ys : List Flying)
    → AllSegmented (xs ++ (f ∷ ys))
    → Segmented f.rq f.req × AllSegmented (xs ++ ys)
without [] f ys (h, hs) = (h, hs)
without (x ∷ xs) f ys (h, hs) = let (g, gs) = without xs f ys hs in (g, (h, gs))

retire-IsPaged :
    (xs ys : List Flying) (s : Shared) (f : Flying) (k : Ktime) (now : ℕ) (m : Metrics)
    (r : Request)
    → IsPaged (record { flights = xs ++ (f ∷ ys); shared = s })
    → IsPaged (record { flights = xs ++ ys; shared = retire k now m r f s })
unfolding retire
retire-IsPaged xs ys s f k now m r h =
    let (special, others) = without xs f ys h.segmented in
    let n = (complete_rq k now f.rq (m, r)).1.cleanups - r.cleanups in
    let calls = complete_rq-cleanups k now f.rq m r in
    let once : is_special f.req.payload ≡ true → n ≡ 1 = λ x. let y = special x in ground arith in
    let few : n ≤ 1 = ground arith in
    let page = h.page in
    let held = h.held in
    let p = pages-++ xs (f ∷ ys) in
    let q = pages-++ xs ys in
    let a = ranges-++ xs (f ∷ ys) in
    let b = ranges-++ xs ys in
    let (freed, gets, puts) = cleaned_once-released n f.req s once few (omega arith) in
    record { page = omega arith; held = omega arith; segmented = others }

dispatch-IsPaged :
    (d : Dispatch) (w : World)
    → Stale d.ns d.block.op d.req
    → Segmented d.submission.rq (launched d w.shared).req
    → IsPaged w
    → IsPaged (dispatch d w)
unfolding dispatch
dispatch-IsPaged d w stale special h =
    let t = launched d w.shared in
    let e = record (d.env) { setup_cmd = t.status } in
    let took = setup_cmd-Took d.ns d.memory d.block d.req w.shared stale in
    let (status, ended, r) = queue_rq d.submission e d.request in
    let n = r.cleanups - d.request.cleanups in
    let after = cleaned n t.req t.shared in
    let page = h.page in
    let held = h.held in
    let ready = check_ready d.submission.ctrl_state d.submission.flags d.submission.queue_live in
    if_ind IsPaged (ready && d.env.dma_mapped)
      (if is_ok status
        then record {
          flights = record { rq = d.submission.rq; req = t.req } ∷ w.flights;
          shared = after;
        }
        else record { flights = w.flights; shared = after })
      w
      (λ tried.
        let (a, b) = both-true ready d.env.dma_mapped tried in
        if_ind IsPaged (is_ok status) _ _
          (λ ok. elim (queue_rq-cleanups d.submission e d.request a b) [
            | inl up ↦
                let (more, gained) = took.taken up.1 in
                let zero_calls : n ≡ 0 = omega (arith, up.2) in
                rw (zero_calls) (record {
                  page = omega arith;
                  held = omega arith;
                  segmented = (special, h.segmented);
                })
            | inr down ↦ absurd (false≢true (sym down.0 ∙ ok))
          ])
          (λ bad. elim (queue_rq-cleanups d.submission e d.request a b) [
            | inl up ↦ absurd (false≢true (sym bad ∙ up.0))
            | inr (failed, inl early) ↦
                let (same, kept) = took.left early.0 in
                let zero_calls : n ≡ 0 = omega (arith, early.1) in
                rw (zero_calls)
                  (record { page = omega arith; held = omega arith; segmented = h.segmented })
            | inr (failed, inr late) ↦
                let (more, gained) = took.taken late.0 in
                let once : is_special t.req.payload ≡ true → n ≡ 1 =
                  λ x. let y = late.1 (special x) in omega arith in
                let (freed, gets, puts) =
                  cleaned_once-released n t.req t.shared once (omega (arith, late.2))
                    (omega arith) in
                record { page = omega arith; held = omega arith; segmented = h.segmented }
          ]))
      (λ refused. h)

Step-IsPaged : (w w' : World) → Step w w' → IsPaged w → IsPaged w'
Step-IsPaged w w' (submit d stale special) h = dispatch-IsPaged d w stale special h
Step-IsPaged w w' (complete xs ys {s = s} f k now m r) h = retire-IsPaged xs ys s f k now m r h

-- From a controller whose discard page is free, whatever is submitted and completed and whatever is
-- answered: the discard page is busy exactly while one request with the device uses it, and the lists
-- of ranges that are held are those of the requests with the device.
pub Reach-IsPaged : (w w' : World) → IsPaged w → Reach w w' → IsPaged w'
Reach-IsPaged w w' h here = h
Reach-IsPaged w w' h (next {t = t} steps s) = Step-IsPaged t w' s (Reach-IsPaged w t h steps)
