-- ===== src/Shards/Tiling.antt =====
-- FixedBounds: the pages that its windows hold.
use lybrix.Base.{
  ℕ, zero, suc, ◌+◌, ◌-◌, ◌≤◌, ◌<◌, ◌≡◌, refl, inl, inr, Bool, ◌&&◌, List, [], ◌∷◌, arith, leb,
  Bool-cases, count_if,
}
use lybrix.Base.Results.{ok}
use lybrix.Shards.{ShardBound, window_end, next_start, fixed_loop, fixed_bounds}

-- Behind pages 1 to `reach`, the last of them in a window that starts at `prev`, the bounds cover
-- the rest up to `stop`: numbered from `idx` on, at most `size` pages each, each further than the
-- one before and over at most `overlap` pages of it.
abbrev pub Covers : ℕ → ℕ → ℕ → ℕ → ℕ → ℕ → List ShardBound → Type 0
Covers size overlap idx prev reach stop [] = reach ≡ stop
Covers size overlap idx prev reach stop (b ∷ bs) =
    (b.idx ≡ idx)
    × (prev < b.page_start)
    × (b.page_start ≤ reach + 1)
    × (reach + 1 ≤ b.page_start + overlap)
    × (reach < b.page_end)
    × (b.page_end < b.page_start + size)
    × (b.page_end ≤ stop)
    × Covers size overlap (idx + 1) b.page_start b.page_end stop bs

-- The loop's state between two rounds, with `start` the next window's first page.
record Ready (pages size overlap prev reach start : ℕ) : Type 0 where
  prev_lt : prev < start
  start_le : start ≤ reach + 1
  overlap_le : reach + 1 ≤ start + overlap
  reach_le : reach ≤ pages
  grows : reach < start + size - 1
  at_end : reach ≡ pages → start ≡ pages + 1

Ready-next :
    (pages size overlap prev reach start : ℕ)
    → Ready pages size overlap prev reach start
    → start ≤ pages
    → let last = window_end pages size start in
      Ready pages size overlap start last (next_start pages overlap start last)
      × (reach < last)
      × (last < start + size)
      × (last ≤ pages)
Ready-next pages size overlap prev reach start r h = ground arith

fixed_loop-Covers :
    (fuel pages size overlap prev reach start idx : ℕ)
    → Ready pages size overlap prev reach start
    → pages + 1 < start + fuel
    → (bs : List ShardBound) × (fixed_loop fuel pages size overlap start idx ≡ ok bs)
      × Covers size overlap idx prev reach pages bs
unfolding fixed_loop
fixed_loop-Covers zero pages size overlap prev reach start idx r h = absurd (omega arith)
fixed_loop-Covers (suc fuel) pages size overlap prev reach start idx r h =
    elim (Bool-cases (leb start pages)) [
      | inl more ↦
          let last = window_end pages size start in
          let (r', grows, small, fits) =
            Ready-next pages size overlap prev reach start r (ground arith) in
          let (bs, e, c) =
            fixed_loop-Covers fuel pages size overlap start last
              (next_start pages overlap start last) (idx + 1) r' (omega arith) in
          (
            record { idx = idx; page_start = start; page_end = last } ∷ bs,
            rw (more, e),
            (refl, r.prev_lt, r.start_le, r.overlap_le, grows, small, fits, c),
          )
      | inr done ↦ ([], rw done, ground arith)
    ]

-- A document with a page and windows of a page at least are always cut: FixedBounds returns bounds,
-- numbered from 0, that cover pages 1 to `page_count` in windows of at most `shard_pages` pages,
-- each window starting and ending later than the one before, and over at most `overlap` of its
-- pages.
pub fixed_bounds-Covers :
    (page_count shard_pages overlap : ℕ)
    → 1 ≤ page_count
    → 1 ≤ shard_pages
    → (bs : List ShardBound) × (fixed_bounds page_count shard_pages overlap ≡ ok bs)
      × Covers shard_pages overlap 0 0 0 page_count bs
unfolding fixed_bounds
fixed_bounds-Covers page_count shard_pages overlap h k =
    let (bs, e, c) =
      fixed_loop-Covers (page_count + 1) page_count shard_pages overlap 0 0 1 0
        (record {
          prev_lt = omega arith;
          start_le = omega arith;
          overlap_le = omega arith;
          reach_le = omega arith;
          grows = omega arith;
          at_end = omega arith;
        })
        (omega arith) in
    (bs, ground arith, c)

abbrev pub holds_page : ℕ → ShardBound → Bool
holds_page p b = leb b.page_start p && leb p b.page_end

-- How many of the shards hold page `p`.
abbrev pub holders : ℕ → List ShardBound → ℕ
holders p = count_if (holds_page p)

pub Covers-holders_pos :
    (size overlap idx prev reach stop p : ℕ) (bs : List ShardBound)
    → Covers size overlap idx prev reach stop bs
    → reach < p
    → p ≤ stop
    → 1 ≤ holders p bs
Covers-holders_pos size overlap idx prev reach stop p [] c h k = absurd (omega arith)
Covers-holders_pos size overlap idx prev reach stop p (b ∷ bs) c h k =
    ground
      (arith, c, Covers-holders_pos size overlap (idx + 1) b.page_start b.page_end stop p bs c.7)

pub Covers-holders_zero :
    (size idx prev reach stop p : ℕ) (bs : List ShardBound)
    → Covers size 0 idx prev reach stop bs
    → p ≤ reach
    → holders p bs ≡ 0
Covers-holders_zero size idx prev reach stop p [] c h = refl
Covers-holders_zero size idx prev reach stop p (b ∷ bs) c h =
    ground (arith, c, Covers-holders_zero size (idx + 1) b.page_start b.page_end stop p bs c.7)

pub Covers-holders_one :
    (size idx prev reach stop p : ℕ) (bs : List ShardBound)
    → Covers size 0 idx prev reach stop bs
    → reach < p
    → p ≤ stop
    → holders p bs ≡ 1
Covers-holders_one size idx prev reach stop p [] c h k = absurd (omega arith)
Covers-holders_one size idx prev reach stop p (b ∷ bs) c h k = ground (
  arith,
  c,
  Covers-holders_zero size (idx + 1) b.page_start b.page_end stop p bs c.7,
  Covers-holders_one size (idx + 1) b.page_start b.page_end stop p bs c.7,
)
