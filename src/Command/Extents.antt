-- ===== src/Command/Extents.antt =====
-- What the commands of nvme_setup_cmd, of shell/nvme-of_setup/nvme-modified/host/core.c, say of the
-- blocks of the request.
use net_cas.Common.{
  ℕ, zero, suc, ◌+◌, ◌-◌, ◌*◌, ◌/◌, ◌%◌, ◌≤◌, ◌<◌, ◌≡◌, refl, sym, ◌∙◌, ap, Bool, true, false, List,
  [], ◌∷◌, ltb, ◌==◌, arith, if_ind,
}
use Prim.Native.Nat.{◌^◌}
use mathlib.Core.Path.{subst}
use mathlib.Core.Bool.{false≢true}
use native.Mathlib.Nat.{mul-div_cancel, one-le-pow}
use net_cas.Common.Lists.{length, All, take}
use net_cas.Request.Submit.{is_ok}
use net_cas.Command.{
  Namespace, Bio, BlockRq, Range, Ranges, Payload, discard_page, allocated, no_payload, Memory,
  RqState, Shared, Setup, dsm, block_nr,
}
use net_cas.Command.Discard.{fill, put_range, finish_discard, setup_discard}

-- A sector and a number of bytes that are whole blocks, with the number of blocks in 32 bits.
pub record IsAligned (ns : Namespace) (b : Bio) : Type 0 where
  pub block : ℕ
  pub blocks : ℕ
  pub sector_is : b.sector ≡ block * 2 ^ (ns.lba_shift - 9)
  pub size_is : b.size ≡ blocks * 2 ^ ns.lba_shift
  pub fits : blocks < 4294967296

-- The entries from `n` on are the bios: read back, each gives its sector and its size.
abbrev Describe : Namespace → Ranges → ℕ → List Bio → Type 0
Describe ns ranges n [] = Unit
Describe ns ranges n (b ∷ bios) =
    ((ranges.entry n).slba * 2 ^ (ns.lba_shift - 9) ≡ b.sector)
    × ((ranges.entry n).nlb * 2 ^ ns.lba_shift ≡ b.size)
    × Describe ns ranges (n + 1) bios

mod-eq : (a : ℕ) → a < 4294967296 → a % 4294967296 ≡ a
mod-eq a h = omega arith

-- A multiple of a power of 2, divided by it.
pub unscale : (a n : ℕ) → a * 2 ^ n / 2 ^ n ≡ a
unscale a n = mul-div_cancel a (one-le-pow n 2 (omega arith))

fill-count :
    (ns : Namespace) (segments n : ℕ) (bios : List Bio) (ranges : Ranges)
    → n + length bios < 65536
    → (fill ns segments n bios ranges).0 ≡ n + length bios
unfolding fill
fill-count ns segments n [] ranges few = omega arith
fill-count ns segments n (b ∷ bios) ranges few =
    let next : (n + 1) % 65536 ≡ n + 1 = omega arith in
    rw (fill, next) (fill-count ns segments (n + 1) bios _ (omega arith) ∙ omega arith)

abbrev range_of : Namespace → Bio → Range
range_of ns b = record {
  slba = block_nr ns b.sector;
  nlb = (b.size / 2 ^ ns.lba_shift) % 4294967296;
}

put_range-here :
    (n : ℕ) (range : Range) (r : Ranges) → n < 256 → (put_range n range r).entry n ≡ range
unfolding put_range
put_range-here n range r h = ground arith

put_range-before :
    (n j : ℕ) (range : Range) (r : Ranges) → j < n → (put_range n range r).entry j ≡ r.entry j
unfolding put_range
put_range-before n j range r h = ground arith

fill-before :
    (ns : Namespace) (segments n j : ℕ) (bios : List Bio) (ranges : Ranges)
    → n + length bios < 65536
    → j < n
    → (fill ns segments n bios ranges).1.entry j ≡ ranges.entry j
unfolding fill
fill-before ns segments n j [] ranges few below = refl
fill-before ns segments n j (b ∷ bios) ranges few below =
    let kept = put_range-before n j (range_of ns b) ranges below in
    let next : (n + 1) % 65536 ≡ n + 1 = omega arith in
    rw (fill, next)
      (fill-before ns segments (n + 1) j bios _ (omega arith) (omega arith) ∙ ground arith)

range_of-IsAligned :
    (ns : Namespace) (b : Bio)
    → IsAligned ns b
    → ((range_of ns b).slba * 2 ^ (ns.lba_shift - 9) ≡ b.sector)
      × ((range_of ns b).nlb * 2 ^ ns.lba_shift ≡ b.size)
unfolding block_nr
range_of-IsAligned ns b h =
    rw (h.sector_is, h.size_is, unscale h.block (ns.lba_shift - 9), unscale h.blocks ns.lba_shift)
      (refl, ap (λ x. x * 2 ^ ns.lba_shift) (mod-eq h.blocks h.fits))

fill-cons :
    (ns : Namespace) (segments n : ℕ) (b : Bio) (bios : List Bio) (ranges : Ranges)
    → n + 1 < 65536
    → n < segments
    → fill ns segments n (b ∷ bios) ranges
      ≡ fill ns segments (n + 1) bios (put_range n (range_of ns b) ranges)
unfolding fill
fill-cons ns segments n b bios ranges few room =
    let next : (n + 1) % 65536 ≡ n + 1 = omega arith in
    let here : ltb n segments ≡ true = ground arith in rw (fill, next, here) refl

fill-overrun :
    (ns : Namespace) (segments n : ℕ) (bios : List Bio) (ranges : Ranges)
    → n + length bios < 65536
    → n + length bios ≤ segments
    → (fill ns segments n bios ranges).1.overrun + (n - 256)
      ≡ ranges.overrun + (n + length bios - 256)
unfolding fill put_range
fill-overrun ns segments n [] ranges few room = omega arith
fill-overrun ns segments n (b ∷ bios) ranges few room =
    let later = put_range n (range_of ns b) ranges in
    let ih = fill-overrun ns segments (n + 1) bios later (omega arith) (omega arith) in
    let one : later.overrun + (n - 256) ≡ ranges.overrun + (n + 1 - 256) = ground arith in
    rw (fill-cons ns segments n b bios ranges (omega arith) (omega arith)) (omega arith)

-- The bios that have a place in the buffer from `n` on, where `k` are left.
fill-Describe :
    (ns : Namespace) (segments n k : ℕ) (bios : List Bio) (ranges : Ranges)
    → n + k ≡ 256
    → n + length bios < 65536
    → n + length bios ≤ segments
    → All (IsAligned ns) bios
    → Describe ns (fill ns segments n bios ranges).1 n (take k bios)
fill-Describe ns segments n zero bios ranges fits few room all = tt
fill-Describe ns segments n (suc k) [] ranges fits few room all = tt
fill-Describe ns segments n (suc k) (b ∷ bios) ranges fits few room (a, all) =
    let later = put_range n (range_of ns b) ranges in
    let same : (fill ns segments (n + 1) bios later).1.entry n ≡ range_of ns b =
      fill-before ns segments (n + 1) n bios later (omega arith) (omega arith)
      ∙ put_range-here n (range_of ns b) ranges (omega arith) in
    let (start, size) = range_of-IsAligned ns b a in
    subst (λ (f : ℕ × Ranges). Describe ns f.1 n (b ∷ take k bios))
      (sym (fill-cons ns segments n b bios ranges (omega arith) (omega arith)))
      (
        ap (λ (r : Range). r.slba * 2 ^ (ns.lba_shift - 9)) same ∙ start,
        ap (λ (r : Range). r.nlb * 2 ^ ns.lba_shift) same ∙ size,
        fill-Describe ns segments (n + 1) k bios later (omega arith) (omega arith) (omega arith)
            all,
      )

-- The entries of a payload.
abbrev pub entries : Payload → Ranges
entries no_payload = record { entry = λ i. record { slba = 0; nlb = 0 }; overrun = 0 }
entries (discard_page r) = r
entries (allocated r) = r

abbrev pub is_special : Payload → Bool
is_special no_payload = false
is_special (discard_page r) = true
is_special (allocated r) = true

-- A discard as a command with its payload: the entries of the buffer give the blocks of the bios, as
-- far as they fit, and the rest were written past its end.
abbrev pub Discards : Namespace → List Bio → Setup → Type 0
Discards ns bios t =
    (t.command ≡ dsm ns.ns_id (length bios - 1))
    × (is_special t.req.payload ≡ true)
    × Describe ns (entries t.req.payload) 0 (take 256 bios)
    × ((entries t.req.payload).overrun ≡ length bios - 256)

abbrev empty_buffer : Memory → Ranges
empty_buffer m = record { entry = m.entries; overrun = 0 }

finish_discard-Discards :
    (ns : Namespace) (m : Memory) (b : BlockRq) (payload : Ranges → Payload) (q : RqState)
    (used unused : Shared)
    → ((r : Ranges) → (is_special (payload r) ≡ true) × (entries (payload r) ≡ r))
    → length b.bios < 65536
    → 0 < length b.bios
    → All (IsAligned ns) b.bios
    → is_ok
        (finish_discard ns b
          (fill ns b.segments 0 b.bios (empty_buffer m))
          payload
          q
          used
          unused).status
      ≡ true
    → Discards ns b.bios
        (finish_discard ns b (fill ns b.segments 0 b.bios (empty_buffer m)) payload q used unused)
unfolding finish_discard
finish_discard-Discards ns m b payload q used unused holds few some_bio all =
    let f = fill ns b.segments 0 b.bios (empty_buffer m) in
    let t = record q { payload = payload f.1 } in
    let count : f.0 ≡ length b.bios =
      fill-count ns b.segments 0 b.bios (empty_buffer m) (omega arith) ∙ omega arith in
    if_ind (λ (t : Setup). is_ok t.status ≡ true → Discards ns b.bios t) (f.0 == b.segments) _ _
      (λ fits ok.
        let same : b.segments ≡ length b.bios = ground arith in
        let over =
          fill-overrun ns b.segments 0 b.bios (empty_buffer m) (omega arith) (omega arith) in
        let past : f.1.overrun ≡ length b.bios - 256 = omega arith in
        (
          ap (λ n. dsm ns.ns_id n) (omega arith),
          (holds f.1).0,
          subst (λ r. Describe ns r 0 (take 256 b.bios)) (sym (holds f.1).1)
              (fill-Describe ns b.segments 0 256 b.bios (empty_buffer m) refl (omega arith)
                (omega arith) all),
          ap (λ (r : Ranges). r.overrun) (holds f.1).1 ∙ past,
        ))
      (λ other bad. absurd (false≢true bad))

-- When nvme_setup_discard succeeds, for a request of between 1 and 2^16 - 1 bios of whole blocks: the
-- command's number of ranges is that of the bios, less one; the entries of the buffer, read back, give
-- the sector and the size of each of the first 256 bios; and one entry is written past the buffer for
-- each bio beyond those, so none for up to 256 bios.
pub setup_discard-Discards :
    (ns : Namespace) (m : Memory) (b : BlockRq) (q : RqState) (s : Shared)
    → length b.bios < 65536
    → 0 < length b.bios
    → All (IsAligned ns) b.bios
    → is_ok (setup_discard ns m b q s).status ≡ true
    → Discards ns b.bios (setup_discard ns m b q s)
unfolding setup_discard
setup_discard-Discards ns m b q s few some_bio all =
    if_ind (λ (t : Setup). is_ok t.status ≡ true → Discards ns b.bios t) m.kzalloc _ _
      (λ memory.
        finish_discard-Discards ns m b allocated q _ _ (λ r. (refl, refl)) few some_bio all)
      (λ lacking.
        if_ind (λ (t : Setup). is_ok t.status ≡ true → Discards ns b.bios t) s.page_busy _ _
          (λ busy bad. absurd (false≢true bad))
          (λ free.
            finish_discard-Discards ns m b discard_page q _ _ (λ r. (refl, refl)) few some_bio all))
