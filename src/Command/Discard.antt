-- ===== src/Command/Discard.antt =====
-- shell/nvme-of_setup/nvme-modified/host/core.c: nvme_setup_discard.
use net_cas.Common.{ℕ, ◌+◌, ◌/◌, ◌%◌, true, false, List, [], ◌∷◌, ltb, ◌==◌, if◌then◌else◌}
use Prim.Native.Nat.{◌^◌}
use net_cas.Common.Lists.{update}
use net_cas.Common.Ledger.{gain, give}
use net_cas.Fabrics.{sts_ok, sts_resource, sts_ioerr}
use net_cas.Command.{
  Namespace, Bio, BlockRq, Range, Ranges, zeroed, dsm, Payload, discard_page, allocated, RqState,
  Shared, Memory, Setup, block_nr,
}

-- The assignments to `range[n]`.
unfoldable pub put_range : ℕ → Range → Ranges → Ranges
put_range n range r =
    if ltb n 256
    then record r { entry = update r.entry n range }
    else record r { overrun = r.overrun + 1 }

-- The loop over the bios; `n` is an unsigned short.
unfoldable pub fill : Namespace → ℕ → ℕ → List Bio → Ranges → ℕ × Ranges
fill ns segments n [] ranges = (n, ranges)
fill ns segments n (b ∷ bios) ranges =
    let range : Range = record {
      slba = block_nr ns b.sector;
      nlb = (b.size / 2 ^ ns.lba_shift) % 4294967296;
    } in
    fill ns segments ((n + 1) % 65536) bios
      (if ltb n segments then put_range n range ranges else ranges)

-- nvme_setup_discard from the loop on, with the memory for the ranges in hand: the request's payload
-- and what is shared when it is used, and what is shared when it is given up.
unfoldable pub finish_discard :
    Namespace → BlockRq → ℕ × Ranges → (Ranges → Payload) → RqState → Shared → Shared → Setup
finish_discard ns b filled payload q used unused =
    if filled.0 == b.segments
    then record {
      status = sts_ok;
      command = dsm ns.ns_id ((b.segments + 4294967295) % 4294967296);
      req = record q { payload = payload filled.1 };
      shared = used;
    }
    else record { status = sts_ioerr; command = zeroed; req = q; shared = unused }

unfoldable pub setup_discard : Namespace → Memory → BlockRq → RqState → Shared → Setup
setup_discard ns m b q s =
    let filled = fill ns b.segments 0 b.bios (record { entry = m.entries; overrun = 0 }) in
    let held = record s { ranges = gain 1 s.ranges } in
    if m.kzalloc
    then finish_discard ns b filled allocated q held (record held { ranges = give 1 held.ranges })
    else if s.page_busy
    then record { status = sts_resource; command = zeroed; req = q; shared = s }
    else finish_discard ns b filled discard_page q (record s { page_busy = true })
        (record s { page_busy = false })
