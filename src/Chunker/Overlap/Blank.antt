-- ===== src/Chunker/Overlap/Blank.antt =====
-- computeOverlap of internal/chunker/splitter.go: white space alone leaves no overlap.
use lybrix.Base.{
  ℕ, zero, suc, ◌+◌, ◌-◌, ◌≡◌, refl, inl, inr, true, false, not, ◌||◌, Option, none, some, List, [],
  ◌∷◌, ◌++◌, ltb, leb, ◌==◌, length, drop, min, arith, Bool-cases, All,
}
use lybrix.Chunker.Runes.{Text, has_text}
use lybrix.Chunker.Units.{Patterns, SplitUnit, is_synthetic, units_text, has_content}
use lybrix.Chunker.Overlap.{
  cut_front, Window, window_step, window_loop, semantic_overlap_window, trim_from,
  trim_units_prefix, units_len, checked_overlap, overlap_at, overlap_in, compute_overlap,
  semantic_overlap_lookbehind,
}
use lybrix.Chunker.Overlap.Boundary.{find_boundary}

abbrev Blank : List SplitUnit → Type 0
Blank = All (λ (u : SplitUnit). has_text u.text ≡ false)

has_text-drop : (n : ℕ) (t : Text) → has_text t ≡ false → has_text (drop n t) ≡ false
unfolding has_text
has_text-drop zero t h = h
has_text-drop (suc n) [] h = refl
has_text-drop (suc n) (r ∷ t) h = has_text-drop n t (ground (arith, h))

has_text-append : (s t : Text) → has_text s ≡ false → has_text t ≡ false → has_text (s ++ t) ≡ false
unfolding has_text
has_text-append [] t h k = k
has_text-append (r ∷ s) t h k =
    let rest = has_text-append s t (ground (arith, h)) k in ground (arith, h, rest)

has_content-Blank : (units : List SplitUnit) → has_content units ≡ false → Blank units
unfolding has_content
has_content-Blank [] h = tt
has_content-Blank (u ∷ units) h = (ground (arith, h), has_content-Blank units (ground (arith, h)))

window_step-Blank :
    (u : SplitUnit) (w : Window)
    → has_text u.text ≡ false
    → Blank w.units
    → Blank (window_step u w).units
unfolding window_step cut_front
window_step-Blank u w h k = elim (Bool-cases (w.stopped || (w.remaining == 0))) [
  | inl over ↦ rw over k
  | inr on ↦ elim (Bool-cases (length u.text == 0)) [
    | inl empty ↦ rw (on, empty) k
    | inr filled ↦ elim (Bool-cases (is_synthetic u)) [
      | inl made ↦ rw (on, filled, made) k
      | inr copied ↦ elim (Bool-cases (leb (length u.text) w.remaining)) [
        | inl fits ↦ rw (on, filled, copied, fits) (h, k)
        | inr long ↦
            rw (on, filled, copied, long) (has_text-drop (length u.text - w.remaining) u.text h, k)
      ]
    ]
  ]
]

window_loop-Blank :
    (n : ℕ) (units : List SplitUnit) → Blank units → Blank (window_loop n units).units
unfolding window_loop
window_loop-Blank n [] h = tt
window_loop-Blank n (u ∷ units) (h, k) =
    window_step-Blank u (window_loop n units) h (window_loop-Blank n units k)

trim_from-Blank : (n : ℕ) (units : List SplitUnit) → Blank units → Blank (trim_from n units)
unfolding trim_from cut_front
trim_from-Blank n [] h = tt
trim_from-Blank n (u ∷ units) (h, k) = elim (Bool-cases (leb (length u.text) n)) [
  | inl passed ↦ rw passed (trim_from-Blank (n - length u.text) units k)
  | inr kept ↦ elim (Bool-cases (ltb 0 n)) [
    | inl cut ↦ rw (kept, cut) (has_text-drop n u.text h, trim_from-Blank 0 units k)
    | inr whole ↦ rw (kept, whole) (h, trim_from-Blank 0 units k)
  ]
]

trim_units_prefix-Blank :
    (n : ℕ) (units : List SplitUnit) → Blank units → Blank (trim_units_prefix units n)
unfolding trim_units_prefix
trim_units_prefix-Blank n units h = elim (Bool-cases (n == 0)) [
  | inl all ↦ rw all h
  | inr part ↦ rw part (trim_from-Blank n units h)
]

units_text-Blank : (units : List SplitUnit) → Blank units → has_text (units_text units) ≡ false
unfolding units_text has_text
units_text-Blank [] h = refl
units_text-Blank (u ∷ units) (h, k) =
    has_text-append u.text (units_text units) h (units_text-Blank units k)

checked_overlap-Blank :
    (longest : ℕ) (units : List SplitUnit) → Blank units → checked_overlap longest units ≡ ([], 0)
unfolding checked_overlap
checked_overlap-Blank longest units h =
    let nothing : has_text (units_text units) ≡ false = units_text-Blank units h in
    let refused : ((units_len units == 0)
          || (ltb longest (units_len units) || not (has_text (units_text units))))
        ≡ true =
      ground (arith, nothing) in
    rw refused refl

overlap_at-Blank :
    (longest : ℕ) (window : List SplitUnit) (boundary : Option ℕ)
    → Blank window
    → overlap_at longest window boundary ≡ ([], 0)
unfolding overlap_at
overlap_at-Blank longest window none h = refl
overlap_at-Blank longest window (some n) h =
    checked_overlap-Blank longest (trim_units_prefix window n) (trim_units_prefix-Blank n window h)

overlap_in-Blank :
    (ps : Patterns) (longest : ℕ) (window : List SplitUnit)
    → Blank window
    → overlap_in ps longest window ≡ ([], 0)
unfolding overlap_in
overlap_in-Blank ps longest [] h = refl
overlap_in-Blank ps longest (u ∷ window) h =
    let text = units_text (u ∷ window) in
    overlap_at-Blank longest (u ∷ window) (find_boundary ps text (length text - longest)) h

-- Where there is no content, there is no overlap.
pub compute_overlap-blank :
    (ps : Patterns) (current : List SplitUnit) (chunk_overlap chunk_size next_len : ℕ)
    → has_content current ≡ false
    → compute_overlap ps current chunk_overlap chunk_size next_len ≡ ([], 0)
unfolding compute_overlap semantic_overlap_window
compute_overlap-blank ps current chunk_overlap chunk_size next_len h =
    let longest = min chunk_overlap (chunk_size - next_len) in
    let n = longest + semantic_overlap_lookbehind in
    elim (Bool-cases (longest == 0)) [
      | inl nothing ↦ rw nothing refl
      | inr room ↦ rw room (
          overlap_in-Blank ps longest (window_loop n current).units
            (window_loop-Blank n current (has_content-Blank current h)))
    ]
