-- ===== src/Chunker/Overlap/Kept.antt =====
-- computeOverlap of internal/chunker/splitter.go: the overlap is source text up to where the next unit
-- starts.
use lybrix.Base.{
  ℕ, ◌+◌, ◌-◌, ◌≤◌, ◌<◌, ◌≡◌, refl, ap, sym, subst, ◌∙◌, inl, inr, true, false, not, ◌||◌, Option,
  none, some, List, [], ◌∷◌, ltb, leb, ◌==◌, length, min, arith, length-drop, Bool-cases,
}
use lybrix.Chunker.Runes.{Text, has_text}
use lybrix.Chunker.Runes.Places.{StandsAt-drop}
use lybrix.Chunker.Units.{Patterns, SplitUnit, is_synthetic, units_text}
use lybrix.Chunker.Units.Built.{IsSource, Run, Packed, source, header, source_not_synthetic}
use lybrix.Chunker.Overlap.{
  cut_front, Window, window_step, window_loop, semantic_overlap_window, trim_from,
  trim_units_prefix, units_len, checked_overlap, overlap_at, overlap_in, compute_overlap,
  semantic_overlap_lookbehind,
}
use lybrix.Chunker.Overlap.Boundary.{find_boundary}

cut_front-IsSource :
    (doc : Text) (n : ℕ) (u : SplitUnit)
    → n < length u.text
    → IsSource doc u
    → IsSource doc (cut_front n u)
unfolding cut_front
cut_front-IsSource doc n u h s = record {
  filled = omega (arith, length-drop n u.text, h);
  measured = omega (arith, length-drop n u.text, s.measured, h);
  copied = StandsAt-drop doc u.start n u.text (omega (arith, h)) s.copied;
}

cut_front-end : (n : ℕ) (u : SplitUnit) → (cut_front n u).end ≡ u.end
unfolding cut_front
cut_front-end n u = refl

-- The window is source text up to the offset b, and reaches down to the offset `at` if it has neither
-- stopped nor been filled.
record IsTail (doc : Text) (b at : ℕ) (w : Window) : Type 0 where
  from : ℕ
  run : Run doc w.units from b
  joins : w.stopped ≡ false → 1 ≤ w.remaining → from ≡ at

window_step-source :
    (doc : Text) (b : ℕ) (u : SplitUnit) (w : Window)
    → IsSource doc u
    → IsTail doc b u.end w
    → IsTail doc b u.start (window_step u w)
unfolding window_step
window_step-source doc b u w s t = elim (Bool-cases (w.stopped || (w.remaining == 0))) [
  | inl over ↦ rw over (record {
    from = t.from;
    run = t.run;
    joins = λ (h : w.stopped ≡ false) (k : 1 ≤ w.remaining). ground (arith, over);
  })
  | inr on ↦
      let filled : (length u.text == 0) ≡ false = ground (arith, s.filled) in
      elim (Bool-cases (leb (length u.text) w.remaining)) [
        | inl fits ↦
            rw (on, filled, source_not_synthetic doc u s, fits)
              (record {
                from = u.start;
                run = (
                  s,
                  refl,
                  subst (λ p. Run doc w.units p b)
                      (t.joins (ground (arith, on)) (ground (arith, on))) t.run,
                );
                joins = λ h k. refl;
              })
        | inr large ↦
            let n = length u.text - w.remaining in
            rw (on, filled, source_not_synthetic doc u s, large)
              (record {
                from = (cut_front n u).start;
                run = (
                  cut_front-IsSource doc n u (ground (arith, on, large)) s,
                  refl,
                  subst (λ p. Run doc w.units p b)
                      (t.joins (ground (arith, on)) (ground (arith, on)) ∙ sym (cut_front-end n u))
                      t.run,
                );
                joins = λ h k. absurd (omega (arith, k));
              })
      ]
]

window_step-header :
    (doc : Text) (b at : ℕ) (u : SplitUnit) (w : Window)
    → is_synthetic u ≡ true
    → IsTail doc b at w
    → IsTail doc b at (window_step u w)
unfolding window_step
window_step-header doc b at u w e t = elim (Bool-cases (w.stopped || (w.remaining == 0))) [
  | inl over ↦ rw over t
  | inr on ↦ elim (Bool-cases (length u.text == 0)) [
    | inl blank ↦ rw (on, blank) t
    | inr filled ↦ rw (on, filled, e) (record { from = t.from; run = t.run; joins = λ h k. cc h })
  ]
]

window_loop-Run :
    (doc : Text) (n a b : ℕ) (units : List SplitUnit)
    → Run doc units a b
    → IsTail doc b a (window_loop n units)
unfolding window_loop
window_loop-Run doc n a b [] r = record { from = b; run = refl; joins = λ h k. sym r }
window_loop-Run doc n a b (u ∷ units) (s, at, r) =
    subst (λ p. IsTail doc b p (window_step u (window_loop n units))) at
      (window_step-source doc b u (window_loop n units) s (window_loop-Run doc n u.end b units r))

window_loop-packed :
    (doc : Text) (n b : ℕ) (units : List SplitUnit)
    → Packed doc b units
    → (at : ℕ) × IsTail doc b at (window_loop n units)
unfolding window_loop
window_loop-packed doc n b units (source a r) = (a, window_loop-Run doc n a b units r)
window_loop-packed doc n b (u ∷ units) (header v e p) =
    let (at, t) = window_loop-packed doc n b units p in
    (at, window_step-header doc b at u (window_loop n units) e t)

trim_from-zero :
    (doc : Text) (a b : ℕ) (units : List SplitUnit) → Run doc units a b → trim_from 0 units ≡ units
unfolding trim_from
trim_from-zero doc a b [] r = refl
trim_from-zero doc a b (u ∷ units) (s, at, r) =
    let filled : leb (length u.text) 0 ≡ false = ground (arith, s.filled) in
    rw filled (ap (◌∷◌ u) (trim_from-zero doc u.end b units r))

trim_from-Run :
    (doc : Text) (n a b : ℕ) (units : List SplitUnit)
    → Run doc units a b
    → (a' : ℕ) × Run doc (trim_from n units) a' b
unfolding trim_from
trim_from-Run doc n a b [] r = (b, refl)
trim_from-Run doc n a b (u ∷ units) (s, at, r) = elim (Bool-cases (leb (length u.text) n)) [
  | inl passed ↦ rw passed (trim_from-Run doc (n - length u.text) u.end b units r)
  | inr kept ↦
      rw (kept, trim_from-zero doc u.end b units r)
        (elim (Bool-cases (ltb 0 n)) [
          | inl cut ↦ rw cut (
            (cut_front n u).start,
            (
              cut_front-IsSource doc n u (ground (arith, kept)) s,
              refl,
              subst (λ p. Run doc units p b) (sym (cut_front-end n u)) r,
            ),
          )
          | inr whole ↦ rw whole (u.start, (s, refl, r))
        ])
]

-- The overlap is source text up to the offset b, as long as it says and at most as long as it may be.
abbrev pub IsOverlap : Text → ℕ → ℕ → List SplitUnit × ℕ → Type 0
IsOverlap doc b longest (units, n) =
    ((a : ℕ) × Run doc units a b) × (n ≡ units_len units) × (n ≤ longest)

none-IsOverlap : (doc : Text) (b longest : ℕ) → IsOverlap doc b longest ([], 0)
unfolding units_len
none-IsOverlap doc b longest = ((b, refl), refl, omega arith)

trim_units_prefix-Run :
    (doc : Text) (n a b : ℕ) (units : List SplitUnit)
    → Run doc units a b
    → (a' : ℕ) × Run doc (trim_units_prefix units n) a' b
unfolding trim_units_prefix
trim_units_prefix-Run doc n a b units r = elim (Bool-cases (n == 0)) [
  | inl all ↦ rw all (a, r)
  | inr part ↦ rw part (trim_from-Run doc n a b units r)
]

checked_overlap-IsOverlap :
    (doc : Text) (a b longest : ℕ) (units : List SplitUnit)
    → Run doc units a b
    → IsOverlap doc b longest (checked_overlap longest units)
unfolding checked_overlap
checked_overlap-IsOverlap doc a b longest units r =
    elim (Bool-cases (
      (units_len units == 0)
      || (ltb longest (units_len units) || not (has_text (units_text units))))) [
        | inl bad ↦ rw bad (none-IsOverlap doc b longest)
        | inr good ↦ rw good ((a, r), refl, ground (arith, good))
      ]

overlap_at-IsOverlap :
    (doc : Text) (a b longest : ℕ) (window : List SplitUnit) (boundary : Option ℕ)
    → Run doc window a b
    → IsOverlap doc b longest (overlap_at longest window boundary)
unfolding overlap_at
overlap_at-IsOverlap doc a b longest window none r = none-IsOverlap doc b longest
overlap_at-IsOverlap doc a b longest window (some n) r =
    let (a', r') = trim_units_prefix-Run doc n a b window r in
    checked_overlap-IsOverlap doc a' b longest (trim_units_prefix window n) r'

overlap_in-IsOverlap :
    (ps : Patterns) (doc : Text) (a b longest : ℕ) (window : List SplitUnit)
    → Run doc window a b
    → IsOverlap doc b longest (overlap_in ps longest window)
unfolding overlap_in
overlap_in-IsOverlap ps doc a b longest [] r = none-IsOverlap doc b longest
overlap_in-IsOverlap ps doc a b longest (u ∷ window) r =
    let text = units_text (u ∷ window) in
    overlap_at-IsOverlap doc a b longest (u ∷ window)
      (find_boundary ps text (length text - longest)) r

-- The overlap leaves room for the next unit.
pub compute_overlap-IsOverlap :
    (ps : Patterns) (doc : Text) (b chunk_overlap chunk_size next_len : ℕ)
    (current : List SplitUnit)
    → Packed doc b current
    → IsOverlap doc b
        (min chunk_overlap (chunk_size - next_len))
        (compute_overlap ps current chunk_overlap chunk_size next_len)
unfolding compute_overlap semantic_overlap_window
compute_overlap-IsOverlap ps doc b chunk_overlap chunk_size next_len current p =
    let longest = min chunk_overlap (chunk_size - next_len) in
    let n = longest + semantic_overlap_lookbehind in
    elim (Bool-cases (longest == 0)) [
      | inl nothing ↦ rw nothing (none-IsOverlap doc b longest)
      | inr room ↦
          let (at, t) = window_loop-packed doc n b current p in
          rw room (overlap_in-IsOverlap ps doc t.from b longest (window_loop n current).units t.run)
    ]
