-- ===== src/Command/Transfers.antt =====
-- The blocks that a read, a write or a write of zeroes names after nvme_setup_cmd, of
-- shell/nvme-of_setup/nvme-modified/host/core.c.
use net_cas.Common.{
  ℕ, ◌+◌, ◌-◌, ◌*◌, ◌%◌, ◌<◌, ◌≡◌, ◌↔◌, refl, ◌∙◌, ap, Bool, true, false, not, ◌||◌, ◌&&◌, Option,
  none, some, ◌==◌, arith, if_ind,
}
use Prim.Native.Nat.{◌^◌}
use mathlib.Core.Bool.{false≢true}
use net_cas.Request.Submit.{is_ok}
use net_cas.Command.{
  Namespace, Op, op_drv, op_flush, op_write_zeroes, op_discard, op_read, op_write, op_other,
  BlockRq, Command, write_zeroes, read_write, Memory, RqState, Shared, Setup, has_pi, block_nr,
  clear_nvme_request,
}
use net_cas.Command.Rw.{blocks_less_one, setup_write_zeroes, setup_rw}
use net_cas.Command.Kinds.{setup_op, setup_cmd}
use net_cas.Command.Extents.{unscale}

-- The first sector and the number of bytes that a command names.
abbrev pub extent : Namespace → Command → Option (ℕ × ℕ)
extent ns (read_write c) = some (c.slba * 2 ^ (ns.lba_shift - 9), (c.length + 1) * 2 ^ ns.lba_shift)
extent ns (write_zeroes ns_id slba length) =
    some (slba * 2 ^ (ns.lba_shift - 9), (length + 1) * 2 ^ ns.lba_shift)
extent ns _ = none

-- The command is a read, a write or a write of zeroes, and not a list of ranges.
abbrev names_blocks : Namespace → Op → Bool
names_blocks ns op_read = true
names_blocks ns op_write = true
names_blocks ns op_write_zeroes = not ns.deallocate
names_blocks ns _ = false

-- Between 1 and 2^16 whole blocks.
pub record IsWhole (ns : Namespace) (b : BlockRq) : Type 0 where
  pub block : ℕ
  pub more : ℕ
  pub pos_is : b.pos ≡ block * 2 ^ (ns.lba_shift - 9)
  pub bytes_is : b.bytes ≡ (more + 1) * 2 ^ ns.lba_shift
  pub fits : more < 65536

abbrev named : Namespace → BlockRq → Option (ℕ × ℕ)
named ns b =
    some (block_nr ns b.pos * 2 ^ (ns.lba_shift - 9), (blocks_less_one ns b + 1) * 2 ^ ns.lba_shift)

less_one : (n : ℕ) → n < 65536 → (n + 1 + 65535) % 65536 ≡ n
less_one n h = omega arith

named-IsWhole : (ns : Namespace) (b : BlockRq) → IsWhole ns b → named ns b ≡ some (b.pos, b.bytes)
unfolding block_nr blocks_less_one
named-IsWhole ns b h =
    rw (h.pos_is, h.bytes_is, unscale h.block (ns.lba_shift - 9), unscale (h.more + 1) ns.lba_shift)
      (ap (λ n. some (h.block * 2 ^ (ns.lba_shift - 9), (n + 1) * 2 ^ ns.lba_shift))
        (less_one h.more h.fits))

setup_rw-named :
    (ns : Namespace) (b : BlockRq) (write : Bool) (q : RqState) (s : Shared)
    → (extent ns (setup_rw ns b write q s).command ≡ named ns b)
      × ((is_ok (setup_rw ns b write q s).status ≡ true)
          ↔ (((ns.ms == 0) || (b.integrity || has_pi ns)) ≡ true))
unfolding setup_rw
setup_rw-named ns b write q s =
    if_ind
      (λ (t : Setup).
        (extent ns t.command ≡ named ns b)
        × ((is_ok t.status ≡ true) ↔ (((ns.ms == 0) || (b.integrity || has_pi ns)) ≡ true)))
      (ns.ms == 0) _ _ (λ flat. (refl, ground (arith, flat)))
      (λ meta.
        if_ind
          (λ (t : Setup).
            (extent ns t.command ≡ named ns b)
            × ((is_ok t.status ≡ true) ↔ (((ns.ms == 0) || (b.integrity || has_pi ns)) ≡ true)))
          (not b.integrity && not (has_pi ns)) _ _ (λ bare. (refl, ground (arith, bare, meta)))
          (λ covered. (refl, ground (arith, covered, meta))))

setup_write_zeroes-named :
    (ns : Namespace) (m : Memory) (b : BlockRq) (q : RqState) (s : Shared)
    → not ns.deallocate ≡ true
    → (extent ns (setup_write_zeroes ns m b q s).command ≡ named ns b)
      × (is_ok (setup_write_zeroes ns m b q s).status ≡ true)
unfolding setup_write_zeroes
setup_write_zeroes-named ns m b q s h =
    let kept : ns.deallocate ≡ false = ground (arith, h) in rw (kept) (refl, refl)

-- Reads and writes of a namespace with metadata need metadata in the request, or protection
-- information.
abbrev pub is_covered : Namespace → BlockRq → Op → Bool
is_covered ns b op_write_zeroes = true
is_covered ns b _ = (ns.ms == 0) || (b.integrity || has_pi ns)

setup_op-named :
    (op : Op) (ns : Namespace) (m : Memory) (b : BlockRq) (q : RqState) (s : Shared)
    → names_blocks ns op ≡ true
    → (extent ns (setup_op op ns m b q s).command ≡ named ns b)
      × ((is_ok (setup_op op ns m b q s).status ≡ true) ↔ (is_covered ns b op ≡ true))
unfolding setup_op
setup_op-named op_read ns m b q s h = setup_rw-named ns b false q s
setup_op-named op_write ns m b q s h = setup_rw-named ns b true q s
setup_op-named op_write_zeroes ns m b q s h =
    let (names, good) = setup_write_zeroes-named ns m b q s h in (names, (λ x. refl, λ x. good))
setup_op-named op_drv ns m b q s h = absurd (false≢true h)
setup_op-named op_flush ns m b q s h = absurd (false≢true h)
setup_op-named op_discard ns m b q s h = absurd (false≢true h)
setup_op-named op_other ns m b q s h = absurd (false≢true h)

-- For a read, a write, or a write of zeroes where zeroes are not deallocated, of between 1 and 2^16
-- whole blocks, the command that nvme_setup_cmd makes names the sectors and bytes of the request; and
-- it succeeds exactly if it is a write of zeroes, or the namespace has no metadata or protection
-- information, or the request brings metadata.
pub setup_cmd-extent :
    (ns : Namespace) (m : Memory) (b : BlockRq) (q : RqState) (s : Shared)
    → names_blocks ns b.op ≡ true
    → IsWhole ns b
    → (extent ns (setup_cmd ns m b q s).command ≡ some (b.pos, b.bytes))
      × ((is_ok (setup_cmd ns m b q s).status ≡ true) ↔ (is_covered ns b b.op ≡ true))
unfolding setup_cmd
setup_cmd-extent ns m b q s h whole =
    let (names, covered) = setup_op-named b.op ns m b (clear_nvme_request q) s h in
    (names ∙ named-IsWhole ns b whole, covered)
