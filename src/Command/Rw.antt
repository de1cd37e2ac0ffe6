-- ===== src/Command/Rw.antt =====
-- shell/nvme-of_setup/nvme-modified/host/core.c: nvme_setup_write_zeroes and
-- nvme_setup_rw.
use net_cas.Common.{
  ℕ, ◌+◌, ◌-◌, ◌/◌, ◌%◌, Bool, true, false, not, ◌&&◌, ◌||◌, ltb, ◌==◌, if◌then◌else◌,
}
use Prim.Native.Nat.{◌^◌}
use net_cas.Common.Lists.{update}
use net_cas.Fabrics.{sts_ok, sts_notsupp}
use net_cas.Command.{
  Namespace, no_pi, pi_type1, pi_type2, pi_type3, BlockRq, Control, Dsmgmt, RwCommand, write_zeroes,
  read_write, RqState, Shared, Memory, Setup, has_pi, block_nr,
}
use net_cas.Command.Discard.{setup_discard}

-- `cpu_to_le16((blk_rq_bytes(req) >> ns->lba_shift) - 1)`
unfoldable pub blocks_less_one : Namespace → BlockRq → ℕ
blocks_less_one ns b = (b.bytes / 2 ^ ns.lba_shift + 65535) % 65536

unfoldable pub setup_write_zeroes : Namespace → Memory → BlockRq → RqState → Shared → Setup
setup_write_zeroes ns m b q s = if ns.deallocate then setup_discard ns m b q s else record {
  status = sts_ok;
  command = write_zeroes ns.ns_id (block_nr ns b.pos) (blocks_less_one ns b);
  req = q;
  shared = s;
}

abbrev count_hint : ℕ → BlockRq → Shared → Shared
count_hint id b s =
    if ltb id 5
    then record s { write_hints = update s.write_hints id (s.write_hints id + b.bytes / 512) }
    else s

-- WRITE_LIFE_NOT_SET and WRITE_LIFE_NONE are 0 and 1, and the queue has BLK_MAX_WRITE_HINTS = 5
-- entries.
unfoldable pub assign_write_stream :
    Namespace → BlockRq → Control → Dsmgmt → Shared → Control × Dsmgmt × Shared
assign_write_stream ns b c d s =
    if ltb b.hint 2
    then (c, d, count_hint 0 b s)
    else if ltb ns.nr_streams (b.hint - 1)
    then (c, d, s)
    else (
      record c { dtype_streams = true },
      record d { stream = b.hint - 1 },
      count_hint (b.hint - 1) b s,
    )

-- The switch over `pi_type`: the checks and the reference tag.
unfoldable pub protect : Namespace → BlockRq → Control → Control × ℕ
protect ns b c =
    let both = record c { prchk_guard = true; prchk_ref = true } in
    elim (ns.pi_type) [
      | pi_type3 ↦ (record c { prchk_guard = true }, 0)
      | pi_type1 ↦ (both, b.ref_tag)
      | pi_type2 ↦ (both, b.ref_tag)
      | no_pi ↦ (c, 0)
    ]

abbrev no_control : Control
no_control = record {
  rw_fua = false;
  rw_lr = false;
  dtype_streams = false;
  prinfo_pract = false;
  prchk_guard = false;
  prchk_ref = false;
}

abbrev no_dsmgmt : Dsmgmt
no_dsmgmt = record { freq_prefetch = false; stream = 0 }

-- The fields that are set at once; `control` and `dsmgmt` come last.
abbrev rw_command : Namespace → BlockRq → Bool → RwCommand
rw_command ns b write = record {
  write = write;
  ns_id = ns.ns_id;
  slba = block_nr ns b.pos;
  length = blocks_less_one ns b;
  reftag = 0;
  control = no_control;
  dsmgmt = no_dsmgmt;
}

unfoldable pub setup_rw : Namespace → BlockRq → Bool → RqState → Shared → Setup
setup_rw ns b write q s =
    let c = record no_control { rw_fua = b.fua; rw_lr = b.failfast_dev || b.rahead } in
    let d = record no_dsmgmt { freq_prefetch = b.rahead } in
    let (c', d', s') =
      if write && not (ns.nr_streams == 0) then assign_write_stream ns b c d s else (c, d, s) in
    let (protected, reftag) =
      protect ns b (if b.integrity then c' else record c' { prinfo_pract = true }) in
    if ns.ms == 0
    then record {
      status = sts_ok;
      command = read_write (record (rw_command ns b write) { control = c'; dsmgmt = d' });
      req = q;
      shared = s';
    }
    else if not b.integrity && not (has_pi ns)
    then record {
      status = sts_notsupp;
      command = read_write (rw_command ns b write);
      req = q;
      shared = s';
    }
    else record {
      status = sts_ok;
      command =
          read_write
            (record (rw_command ns b write) { reftag = reftag; control = protected; dsmgmt = d' });
      req = q;
      shared = s';
    }
