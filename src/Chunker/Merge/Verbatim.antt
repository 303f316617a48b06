-- ===== src/Chunker/Merge/Verbatim.antt =====
-- mergeUnits of internal/chunker/splitter.go: every chunk is a slice of the text, and none is too long.
use lybrix.Base.{
  ℕ, ◌+◌, ◌-◌, ◌≤◌, ◌≡◌, refl, sym, subst, inl, inr, Bool, true, false, not, ◌&&◌, List, [], ◌∷◌,
  ◌++◌, ltb, leb, ◌==◌, length, max, arith, Bool-cases, All,
}
use lybrix.Chunker.Runes.{Text}
use lybrix.Chunker.Units.{Patterns, SplitUnit, is_synthetic, units_text}
use lybrix.Chunker.Units.Built.{IsSource, Run, Packed, source, header}
use lybrix.Chunker.Overlap.{units_len, compute_overlap}
use lybrix.Chunker.Overlap.Kept.{IsOverlap, compute_overlap-IsOverlap}
use lybrix.Chunker.Headers.{update, get_headers, header_already_present, header_column_mismatch}
use lybrix.Chunker.Merge.{
  Merging, absolute_max_size, flush, shrink, start_of, header_unit, with_header, inject,
  is_none_left, turn_over, add_unit, usable_headers, flush_if, pack_unit, merge_step, merge_loop,
  nothing_merged, merge_units,
}
use lybrix.Chunker.Merge.Closing.{
  IsSound, Numbered, IsMerging, flush-IsMerging, chop_unit-IsMerging, units_len-append,
}

-- Source units before the offset b, behind the synthetic ones, as long as they say.
abbrev pub IsNext : Text → ℕ → ℕ → List SplitUnit × ℕ → Type 0
IsNext doc b longest (units, n) = Packed doc b units × (n ≡ units_len units) × (n ≤ longest)

pub Run-snoc :
    (doc : Text) (a : ℕ) (u : SplitUnit) (units : List SplitUnit)
    → IsSource doc u
    → Run doc units a u.start
    → Run doc (units ++ u ∷ []) a u.end
Run-snoc doc a u [] s r = (s, sym r, refl)
Run-snoc doc a u (v ∷ units) s (t, at, r) = (t, at, Run-snoc doc v.end u units s r)

Packed-snoc :
    (doc : Text) (u : SplitUnit) (units : List SplitUnit)
    → IsSource doc u
    → Packed doc u.start units
    → Packed doc u.end (units ++ u ∷ [])
Packed-snoc doc u units s (source a r) = source a (Run-snoc doc a u units s r)
Packed-snoc doc u (v ∷ units) s (header w e p) = header v e (Packed-snoc doc u units s p)

-- What is left of an overlap that is shortened to fit.
pub shrink-fits :
    (doc : Text) (a b longest chunk_size extra n : ℕ) (units : List SplitUnit)
    → Run doc units a b
    → n ≡ units_len units
    → n ≤ longest
    → extra ≤ chunk_size
    → IsOverlap doc b longest (shrink chunk_size extra units n)
      × ((shrink chunk_size extra units n).1 + extra ≤ chunk_size)
unfolding shrink units_len
shrink-fits doc a b longest chunk_size extra n [] r e h k = (((b, refl), e, h), omega (arith, e, k))
shrink-fits doc a b longest chunk_size extra n (u ∷ units) (s, at, r) e h k =
    elim (Bool-cases (ltb chunk_size (n + extra))) [
      | inl long ↦ rw long (
          shrink-fits doc u.end b longest chunk_size extra (n - length u.text) units r
            (omega (arith, e)) (omega (arith, h)) k)
      | inr fits ↦ rw fits (((a, (s, at, r)), e, h), ground (arith, fits))
    ]

with_header-IsNext :
    (ps : Patterns) (doc headers : Text) (b longest : ℕ) (u : SplitUnit) (next : List SplitUnit × ℕ)
    → IsNext doc b longest next
    → next.1 + length headers ≤ longest
    → IsNext doc b longest (with_header ps headers u next)
unfolding with_header units_len is_synthetic
with_header-IsNext ps doc headers b longest u (units, n) (p, e, h) k =
    elim (Bool-cases (
      not (header_already_present headers (units_text units) u.text)
      && not (header_column_mismatch ps headers u.text))) [
        | inl wanted ↦ rw wanted (
          header (header_unit headers (start_of u.start units)) (ground arith) p,
          omega (arith, e),
          k,
        )
        | inr left_out ↦ rw left_out (p, e, h)
      ]

IsOverlap-IsNext :
    (doc : Text) (b longest : ℕ) (next : List SplitUnit × ℕ)
    → IsOverlap doc b longest next
    → IsNext doc b longest next
IsOverlap-IsNext doc b longest (units, n) ((a, r), e, h) = (source a r, e, h)

inject-IsNext :
    (ps : Patterns) (doc headers : Text) (b longest chunk_size : ℕ) (u : SplitUnit)
    (next : List SplitUnit × ℕ)
    → chunk_size ≤ longest
    → IsOverlap doc b longest next
    → IsNext doc b longest (inject ps chunk_size headers u next)
unfolding inject
inject-IsNext ps doc headers b longest chunk_size u (units, n) small ((a, r), e, h) =
    let extra = length u.text + length headers in
    elim (Bool-cases
      (not (length headers == 0) && leb (length headers + length u.text) chunk_size)) [
        | inl room ↦
            let fit =
              shrink-fits doc a b longest chunk_size extra n units r e h (ground (arith, room)) in
            rw room (
              with_header-IsNext ps doc headers b longest u (shrink chunk_size extra units n)
                (IsOverlap-IsNext doc b longest (shrink chunk_size extra units n) fit.0)
                (omega (arith, fit.1, small)))
        | inr none_fits ↦ rw none_fits (source a r, e, h)
      ]

pub turn_over-IsMerging :
    (ps : Patterns) (doc headers : Text) (longest b chunk_size chunk_overlap : ℕ) (u : SplitUnit)
    (m : Merging)
    → chunk_size ≤ longest
    → IsMerging doc longest b m
    → IsMerging doc longest b (turn_over ps chunk_size chunk_overlap headers u m)
unfolding turn_over
turn_over-IsMerging ps doc headers longest b chunk_size chunk_overlap u m small h =
    let full = ltb chunk_size (m.cur_len + length u.text + length headers) in
    let closed = flush-IsMerging doc longest b b m h in
    let overlap = compute_overlap ps m.current chunk_overlap chunk_size (length u.text) in
    let kept =
      compute_overlap-IsOverlap ps doc b chunk_overlap chunk_size (length u.text) m.current
        h.packed in
    let next =
      inject-IsNext ps doc headers b longest chunk_size u overlap small
        (kept.0, kept.1, omega (arith, kept.2, small)) in
    elim (Bool-cases (full && not (is_none_left m.current))) [
      | inr on ↦ rw on h
      | inl over ↦ rw over (record {
        sound = closed.sound;
        numbered = closed.numbered;
        packed = next.0;
        measured = next.1;
        short = next.2;
      })
    ]

pub flush_if-IsMerging :
    (doc : Text) (longest b : ℕ) (full : Bool) (m : Merging)
    → IsMerging doc longest b m
    → IsMerging doc longest b (flush_if full m)
flush_if-IsMerging doc longest b true m h = flush-IsMerging doc longest b b m h
flush_if-IsMerging doc longest b false m h = h

flush_if-room :
    (n : ℕ) (m : Merging)
    → n ≤ absolute_max_size
    → (flush_if (ltb absolute_max_size (m.cur_len + n)) m).cur_len + n ≤ absolute_max_size
unfolding flush
flush_if-room n m h = elim (Bool-cases (ltb absolute_max_size (m.cur_len + n))) [
  | inl full ↦ rw full (omega (arith, h))
  | inr fits ↦ rw fits (ground (arith, fits))
]

add_unit-IsMerging :
    (doc : Text) (longest : ℕ) (u : SplitUnit) (m : Merging)
    → IsSource doc u
    → m.cur_len + length u.text ≤ longest
    → IsMerging doc longest u.start m
    → IsMerging doc longest u.end (add_unit u m)
unfolding add_unit units_len
add_unit-IsMerging doc longest u m s room h = record {
  sound = h.sound;
  numbered = h.numbered;
  packed = Packed-snoc doc u m.current s h.packed;
  measured = omega (arith, h.measured, units_len-append m.current (u ∷ []));
  short = room;
}

pack_unit-IsMerging :
    (ps : Patterns) (doc : Text) (longest chunk_size chunk_overlap : ℕ) (u : SplitUnit)
    (m : Merging)
    → absolute_max_size ≤ longest
    → chunk_size ≤ longest
    → length u.text ≤ absolute_max_size
    → IsSource doc u
    → IsMerging doc longest u.start m
    → IsMerging doc longest u.end (pack_unit ps chunk_size chunk_overlap u m)
unfolding pack_unit
pack_unit-IsMerging ps doc longest chunk_size chunk_overlap u m large small fits s h =
    let headers = usable_headers chunk_size (get_headers m.tracker) in
    let f = flush_if m.tracker.header_ended_this_unit m in
    let t = turn_over ps chunk_size chunk_overlap headers u f in
    let full = ltb absolute_max_size (t.cur_len + length u.text) in
    let turned =
      turn_over-IsMerging ps doc headers longest u.start chunk_size chunk_overlap u f small
        (flush_if-IsMerging doc longest u.start m.tracker.header_ended_this_unit m h) in
    add_unit-IsMerging doc longest u (flush_if full t) s
      (omega (arith, flush_if-room (length u.text) t fits, large))
      (flush_if-IsMerging doc longest u.start full t turned)

pub with_tracker-IsMerging :
    (ps : Patterns) (doc t : Text) (longest b : ℕ) (m : Merging)
    → IsMerging doc longest b m
    → IsMerging doc longest b (record m { tracker = update ps t m.tracker })
with_tracker-IsMerging ps doc t longest b m h = record {
  sound = h.sound;
  numbered = h.numbered;
  packed = h.packed;
  measured = h.measured;
  short = h.short;
}

pub merge_step-IsMerging :
    (ps : Patterns) (doc : Text) (longest chunk_size chunk_overlap : ℕ) (u : SplitUnit)
    (m : Merging)
    → absolute_max_size ≤ longest
    → chunk_size ≤ longest
    → IsSource doc u
    → IsMerging doc longest u.start m
    → IsMerging doc longest u.end (merge_step ps chunk_size chunk_overlap u m)
unfolding merge_step
merge_step-IsMerging ps doc longest chunk_size chunk_overlap u m large small s h =
    let seen = record m { tracker = update ps u.text m.tracker } in
    let k = with_tracker-IsMerging ps doc u.text longest u.start m h in
    elim (Bool-cases (ltb absolute_max_size (length u.text))) [
      | inl oversize ↦ rw oversize (chop_unit-IsMerging doc longest u.start u.end u seen large s k)
      | inr fits ↦ rw fits (
          pack_unit-IsMerging ps doc longest chunk_size chunk_overlap u seen large small
            (ground (arith, fits)) s k)
    ]

merge_loop-IsMerging :
    (ps : Patterns) (doc : Text) (longest chunk_size chunk_overlap a b : ℕ) (units : List SplitUnit)
    (m : Merging)
    → absolute_max_size ≤ longest
    → chunk_size ≤ longest
    → Run doc units a b
    → IsMerging doc longest a m
    → IsMerging doc longest b (merge_loop ps chunk_size chunk_overlap units m)
unfolding merge_loop
merge_loop-IsMerging ps doc longest chunk_size chunk_overlap a b [] m large small r h =
    subst (λ p. IsMerging doc longest p m) r h
merge_loop-IsMerging ps doc longest chunk_size chunk_overlap a b (u ∷ units) m large small
      (s, at, r) h =
    merge_loop-IsMerging ps doc longest chunk_size chunk_overlap u.end b units
      (merge_step ps chunk_size chunk_overlap u m) large small r
      (merge_step-IsMerging ps doc longest chunk_size chunk_overlap u m large small s
        (subst (λ p. IsMerging doc longest p m) (sym at) h))

pub nothing_merged-IsMerging : (doc : Text) (longest a : ℕ) → IsMerging doc longest a nothing_merged
unfolding units_len
nothing_merged-IsMerging doc longest a = record {
  sound = tt;
  numbered = tt;
  packed = source a refl;
  measured = refl;
  short = omega arith;
}

pub merge_units-IsSound :
    (ps : Patterns) (doc : Text) (chunk_size chunk_overlap a b : ℕ) (units : List SplitUnit)
    → Run doc units a b
    → All
        (IsSound doc (max absolute_max_size chunk_size))
        (merge_units ps units chunk_size chunk_overlap)
      × Numbered 0 (merge_units ps units chunk_size chunk_overlap)
unfolding merge_units
merge_units-IsSound ps doc chunk_size chunk_overlap a b units r =
    let longest = max absolute_max_size chunk_size in
    let m = merge_loop ps chunk_size chunk_overlap units nothing_merged in
    let merged =
      merge_loop-IsMerging ps doc longest chunk_size chunk_overlap a b units nothing_merged
        (omega arith) (omega arith) r (nothing_merged-IsMerging doc longest a) in
    let closed = flush-IsMerging doc longest b b m merged in (closed.sound, closed.numbered)
