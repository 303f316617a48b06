-- ===== src/Shards/Ranges.antt =====
-- ChapterAlignedBounds: the shards that one range of pages adds to those before it.
use lybrix.Base.{
  ℕ, suc, ◌+◌, ◌-◌, ◌≤◌, ◌<◌, ◌≡◌, refl, sym, ap, subst, ◌∙◌, ◌⊎◌, inl, inr, true, List, [], ◌∷◌,
  ◌++◌, append_assoc, append-nil, arith, ltb, ◌==◌, Bool-cases, length, length-append, any_of,
}
use lybrix.Base.Results.{ok}
use lybrix.Shards.{ShardBound, Partial, append_shifted, append_range, chapter_step}
use lybrix.Shards.Tiling.{Covers, fixed_bounds-Covers}

-- The list `append_shifted` appends.
abbrev pub shifted : ℕ → ℕ → List ShardBound → List ShardBound
shifted prev_start idx [] = []
shifted prev_start idx (b ∷ bs) =
    record {
      idx = idx;
      page_start = b.page_start + prev_start - 1;
      page_end = b.page_end + prev_start - 1;
    }
    ∷ shifted prev_start (idx + 1) bs

pub append_shifted-shifted :
    (prev_start : ℕ) (bs : List ShardBound) (acc : Partial)
    → append_shifted prev_start bs acc ≡ record {
      bounds = acc.bounds ++ shifted prev_start acc.next_idx bs;
      next_idx = acc.next_idx + length bs;
    }
unfolding append_shifted
append_shifted-shifted prev_start [] acc = ground (arith, append-nil acc.bounds)
append_shifted-shifted prev_start (b ∷ bs) acc = rw (append_shifted-shifted prev_start bs _) (
    ground (arith, append_assoc acc.bounds (first ∷ []) (shifted prev_start (acc.next_idx + 1) bs)))
  where
    first : ShardBound
    first = record {
      idx = acc.next_idx;
      page_start = b.page_start + prev_start - 1;
      page_end = b.page_end + prev_start - 1;
    }

pub length-shifted :
    (prev_start idx : ℕ) (bs : List ShardBound) → length (shifted prev_start idx bs) ≡ length bs
length-shifted prev_start idx [] = refl
length-shifted prev_start idx (b ∷ bs) = ap suc (length-shifted prev_start (idx + 1) bs)

-- Without overlap it does not matter where the window before started.
pub Covers-prev :
    (size idx prev prev' reach stop : ℕ) (bs : List ShardBound)
    → prev' ≤ reach
    → Covers size 0 idx prev reach stop bs
    → Covers size 0 idx prev' reach stop bs
Covers-prev size idx prev prev' reach stop [] h c = c
Covers-prev size idx prev prev' reach stop (b ∷ bs) h c =
    (c.0, omega arith, c.2, c.3, c.4, c.5, c.6, c.7)

pub Covers-cast :
    (size idx idx' prev reach reach' stop stop' : ℕ) (bs : List ShardBound)
    → idx ≡ idx'
    → reach ≡ reach'
    → stop ≡ stop'
    → Covers size 0 idx prev reach stop bs
    → Covers size 0 idx' prev reach' stop' bs
Covers-cast size idx idx' prev reach reach' stop stop' bs p q r c =
    subst (λ n. Covers size 0 n prev reach' stop' bs) p
      (subst (λ n. Covers size 0 idx prev n stop' bs) q
        (subst (λ n. Covers size 0 idx prev reach n bs) r c))

-- Moved behind page `at - 1`, a tiling of pages 1 to `span` tiles the pages from `at` on.
pub shifted-Covers :
    (size idx i prev prev' reach span at : ℕ) (bs : List ShardBound)
    → 1 ≤ at
    → prev' < reach + at
    → Covers size 0 i prev reach span bs
    → Covers size 0 idx prev' (reach + at - 1) (span + at - 1) (shifted at idx bs)
shifted-Covers size idx i prev prev' reach span at [] h k c = omega arith
shifted-Covers size idx i prev prev' reach span at (b ∷ bs) h k c = (
  refl,
  omega (arith, c.3),
  omega (arith, c.2),
  omega (arith, c.3),
  omega (arith, c.4),
  omega (arith, c.5, c.3),
  omega (arith, c.6),
  shifted-Covers size (idx + 1) (i + 1) b.page_start (b.page_start + at - 1) b.page_end span at bs h
      (omega (arith, c.4, c.3, c.2)) c.7,
)

pub Covers-append :
    (size idx prev reach mid stop : ℕ) (xs ys : List ShardBound)
    → prev ≤ reach
    → mid ≤ stop
    → Covers size 0 idx prev reach mid xs
    → Covers size 0 (idx + length xs) mid mid stop ys
    → Covers size 0 idx prev reach stop (xs ++ ys)
Covers-append size idx prev reach mid stop [] ys h k c d =
    Covers-prev size idx mid prev reach stop ys h
      (Covers-cast size (idx + 0) idx mid mid reach stop stop ys (omega arith) (sym c) refl d)
Covers-append size idx prev reach mid stop (x ∷ xs) ys h k c d = (
  c.0,
  c.1,
  c.2,
  c.3,
  c.4,
  c.5,
  omega (arith, c.6),
  Covers-append size (idx + 1) x.page_start x.page_end mid stop xs ys (omega (arith, c.2, c.4)) k
      c.7
      (Covers-cast size (idx + length (x ∷ xs)) (idx + 1 + length xs) mid mid mid stop stop ys
        (omega arith) refl refl d),
)

-- The shards so far tile the pages before `next`.
pub record Tiled (size next : ℕ) (acc : Partial) : Type 0 where
  pub tiles : Covers size 0 0 0 0 (next - 1) acc.bounds
  pub numbered : acc.next_idx ≡ length acc.bounds

pub append_range-Tiled :
    (size span next : ℕ) (acc : Partial)
    → 1 ≤ size
    → 1 ≤ span
    → 1 ≤ next
    → Tiled size next acc
    → (acc' : Partial) × (append_range size span next acc ≡ ok acc') × Tiled size (next + span) acc'
unfolding append_range
append_range-Tiled size span next acc h k l t =
    let (fb, e, c) = fixed_bounds-Covers span size 0 k h in
    let moved = shifted-Covers size acc.next_idx 0 0 (next - 1) 0 span next fb l (omega arith) c in
    (
      record {
        bounds = acc.bounds ++ shifted next acc.next_idx fb;
        next_idx = acc.next_idx + length fb;
      },
      rw e (ap ok (append_shifted-shifted next fb acc)),
      record {
        tiles =
            Covers-append size 0 0 0 (next - 1) (next + span - 1) acc.bounds
              (shifted next acc.next_idx fb) (omega arith) (omega arith) t.tiles
              (Covers-cast size acc.next_idx (0 + length acc.bounds) (next - 1) (0 + next - 1)
                (next - 1) (span + next - 1) (next + span - 1) (shifted next acc.next_idx fb)
                (omega arith) (omega arith) (omega arith) moved);
        numbered = omega (
          arith,
          t.numbered,
          length-append acc.bounds (shifted next acc.next_idx fb),
          length-shifted next acc.next_idx fb,
        );
      },
    )

pub chapter_step-Tiled :
    (size page next : ℕ) (acc : Partial)
    → 1 ≤ size
    → 1 ≤ next
    → next ≤ page
    → Tiled size next acc
    → (acc' : Partial) × (chapter_step size page next acc ≡ ok acc') × Tiled size page acc'
unfolding chapter_step
chapter_step-Tiled size page next acc h k l t = elim (Bool-cases (ltb next page)) [
  | inl more ↦
      let (acc', e, t') = append_range-Tiled size (page - next) next acc h (ground arith) k t in
      let at : next + (page - next) ≡ page = omega arith in
      (acc', rw more e, subst (λ n. Tiled size n acc') at t')
  | inr same ↦
      let at : next ≡ page = ground arith in (acc, rw same, subst (λ n. Tiled size n acc) at t)
]

-- Some shard starts at page `p`.
abbrev pub Starts : ℕ → List ShardBound → Type 0
Starts p bs = any_of (λ b. b.page_start == p) bs ≡ true

Starts-append : (p : ℕ) (xs ys : List ShardBound) → Starts p xs ⊎ Starts p ys → Starts p (xs ++ ys)
Starts-append p [] ys (inl h) = absurd (cc)
Starts-append p [] ys (inr h) = h
Starts-append p (x ∷ xs) ys h = ground (arith, Starts-append p xs ys)

Starts-shifted :
    (size i span next idx : ℕ) (fb : List ShardBound)
    → 1 ≤ span
    → Covers size 0 i 0 0 span fb
    → Starts next (shifted next idx fb)
Starts-shifted size i span next idx [] h c = absurd (omega arith)
Starts-shifted size i span next idx (b ∷ fb) h c =
    let at : b.page_start + next - 1 ≡ next = omega (arith, c.2, c.1) in ground arith

pub append_range-Starts :
    (size span next p : ℕ) (acc acc' : Partial)
    → 1 ≤ size
    → 1 ≤ span
    → append_range size span next acc ≡ ok acc'
    → Starts p acc.bounds ⊎ (p ≡ next)
    → Starts p acc'.bounds
unfolding append_range
append_range-Starts size span next p acc acc' h k e s =
    let (fb, ef, c) = fixed_bounds-Covers span size 0 k h in
    let out : Partial = record {
      bounds = acc.bounds ++ shifted next acc.next_idx fb;
      next_idx = acc.next_idx + length fb;
    } in
    let same : out ≡ acc' = cc (append_shifted-shifted next fb acc, rw ef at e) in
    let opened : Starts next (shifted next acc.next_idx fb) =
      Starts-shifted size 0 span next acc.next_idx fb k c in
    subst (λ (a : Partial). Starts p a.bounds) same
      (Starts-append p acc.bounds (shifted next acc.next_idx fb) (elim s [
        | inl old ↦ inl old
        | inr at ↦ inr (subst (λ q. Starts q (shifted next acc.next_idx fb)) (sym at) opened)
      ]))

pub chapter_step-Starts :
    (size page next p : ℕ) (acc acc' : Partial)
    → 1 ≤ size
    → next ≤ page
    → chapter_step size page next acc ≡ ok acc'
    → Starts p acc.bounds ⊎ (p ≡ next)
    → Starts p acc'.bounds ⊎ (p ≡ page)
unfolding chapter_step
chapter_step-Starts size page next p acc acc' h k e s = elim (Bool-cases (ltb next page)) [
  | inl more ↦
      inl (append_range-Starts size (page - next) next p acc acc' h (ground arith) (rw more at e) s)
  | inr same ↦
      let kept : ok acc ≡ ok acc' = rw same at e in
      let at : next ≡ page = ground arith in
      elim s [
        | inl old ↦ inl (subst (λ (a : Partial). Starts p a.bounds) {x = acc} {y = acc'} (cc) old)
        | inr here ↦ inr (here ∙ at)
      ]
]
