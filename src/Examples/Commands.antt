-- ===== src/Examples/Commands.antt =====
-- Commands of shell/nvme-of_setup/nvme-modified/host/core.c for concrete requests.
use net_cas.Common.{◌≡◌, ◌↔◌, refl, true, false, inl, [], ◌∷◌, some, arith}
use net_cas.Common.Lists.{All}
use net_cas.Common.Ledger.{nothing}
use net_cas.Request.Submit.{is_ok}
use net_cas.Command.{
  Namespace, pi_type1, op_discard, op_write, BlockRq, no_payload, Memory, RqState, Shared,
}
use net_cas.Command.Discard.{fill, finish_discard, setup_discard}
use net_cas.Command.Kinds.{setup_cmd}
use net_cas.Command.Extents.{IsAligned, Discards, setup_discard-Discards}
use net_cas.Command.Transfers.{extent, IsWhole, is_covered, setup_cmd-extent}
use net_cas.Command.Pages.{World, Dispatch, dispatch, submit, Reach, here, next, IsPaged}
use net_cas.Command.Pages.Invariant.{Reach-IsPaged}
use net_cas.Examples.Requests.{idle, submission, answers}

-- Blocks of 4 KiB, with metadata and protection information.
abbrev space : Namespace
space = record {
  ns_id = 1;
  lba_shift = 12;
  ms = 8;
  pi_type = pi_type1;
  deallocate = false;
  nr_streams = 4;
}

abbrev writing : BlockRq
writing = record {
  op = op_write;
  fua = true;
  failfast_dev = false;
  rahead = false;
  hint = 3;
  pos = 80;
  bytes = 8192;
  bios = [];
  segments = 1;
  integrity = false;
  ref_tag = 10;
  cmd = 0;
}

abbrev discarding : BlockRq
discarding = record writing {
  op = op_discard;
  bios = record { sector = 16; size = 4096 } ∷ record { sector = 800; size = 40960 } ∷ [];
  segments = 2;
}

abbrev unused : RqState
unused = record { payload = no_payload; dontprep = false; retries = 0; flags = 0 }

abbrev quiet : Shared
quiet = record { page_busy = false; ranges = nothing; write_hints = λ i. 0 }

abbrev no_memory : Memory
no_memory = record { kzalloc = false; entries = λ i. record { slba = 0; nlb = 0 } }

writing-IsWhole : IsWhole space writing
writing-IsWhole = record {
  block = 10;
  more = 1;
  pos_is = refl;
  bytes_is = refl;
  fits = omega arith;
}

setup_cmd-extent_example :
    (extent space (setup_cmd space no_memory writing unused quiet).command ≡ some (80, 8192))
    × ((is_ok (setup_cmd space no_memory writing unused quiet).status ≡ true)
        ↔ (is_covered space writing op_write ≡ true))
setup_cmd-extent_example =
    setup_cmd-extent space no_memory writing unused quiet refl writing-IsWhole

discarding-IsAligned : All (IsAligned space) discarding.bios
discarding-IsAligned = (
  record { block = 2; blocks = 1; sector_is = refl; size_is = refl; fits = omega arith },
  (record { block = 100; blocks = 10; sector_is = refl; size_is = refl; fits = omega arith }, tt),
)

setup_discard-Discards_example :
    Discards space discarding.bios (setup_discard space no_memory discarding unused quiet)
unfolding setup_discard fill finish_discard
setup_discard-Discards_example =
    setup_discard-Discards space no_memory discarding unused quiet (omega arith) (omega arith)
      discarding-IsAligned refl

-- No memory for the ranges: the discard page is used.
abbrev first : Dispatch
first = record {
  ns = space;
  memory = no_memory;
  block = discarding;
  req = unused;
  submission = submission;
  env = answers;
  request = idle;
}

abbrev idle_world : World
idle_world = record { flights = []; shared = quiet }

idle_world-IsPaged : IsPaged idle_world
idle_world-IsPaged = record { page = refl; held = refl; segmented = tt }

-- A second discard is submitted while the first uses the page.
twice-Reach : Reach idle_world (dispatch first (dispatch first idle_world))
twice-Reach =
    next (next here (submit first (inl refl) (λ special. omega arith)))
      (submit first (inl refl) (λ special. omega arith))

Reach-IsPaged_example : IsPaged (dispatch first (dispatch first idle_world))
Reach-IsPaged_example =
    Reach-IsPaged idle_world (dispatch first (dispatch first idle_world)) idle_world-IsPaged
      twice-Reach
