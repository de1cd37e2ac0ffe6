-- ===== src/Command/Kinds.antt =====
-- shell/nvme-of_setup/nvme-modified/host/core.c: nvme_setup_cmd and nvme_cleanup_cmd.
use net_cas.Common.{true, false}
use net_cas.Common.Ledger.{give}
use net_cas.Fabrics.{sts_ok, sts_ioerr}
use net_cas.Command.{
  Namespace, Op, op_drv, op_flush, op_write_zeroes, op_discard, op_read, op_write, op_other,
  BlockRq, zeroed, copied, flush, no_payload, discard_page, allocated, RqState, Shared, Memory,
  Setup, clear_nvme_request,
}
use net_cas.Command.Discard.{setup_discard}
use net_cas.Command.Rw.{setup_write_zeroes, setup_rw}

-- The switch over the kind of the request.
unfoldable pub setup_op : Op → Namespace → Memory → BlockRq → RqState → Shared → Setup
setup_op op_drv ns m b q s = record { status = sts_ok; command = copied b.cmd; req = q; shared = s }
setup_op op_flush ns m b q s = record {
  status = sts_ok;
  command = flush ns.ns_id;
  req = q;
  shared = s;
}
setup_op op_write_zeroes ns m b q s = setup_write_zeroes ns m b q s
setup_op op_discard ns m b q s = setup_discard ns m b q s
setup_op op_read ns m b q s = setup_rw ns b false q s
setup_op op_write ns m b q s = setup_rw ns b true q s
setup_op op_other ns m b q s = record { status = sts_ioerr; command = zeroed; req = q; shared = s }

-- The command's identifier, the request's tag, is left out.
unfoldable pub setup_cmd : Namespace → Memory → BlockRq → RqState → Shared → Setup
setup_cmd ns m b q s = setup_op b.op ns m b (clear_nvme_request q) s

-- nvme_cleanup_cmd
unfoldable pub cleanup_cmd : RqState → Shared → Shared
cleanup_cmd q s = elim (q.payload) [
  | no_payload ↦ s
  | discard_page r ↦ record s { page_busy = false }
  | allocated r ↦ record s { ranges = give 1 s.ranges }
]
