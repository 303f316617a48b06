-- ===== src/Chunker/Merge/Rounds.antt =====
-- mergeUnits of internal/chunker/splitter.go: with a chunk size of at most 7500, each chunk that starts
-- with a header stands apart from the one before.
use lybrix.Base.{
  ℕ, ◌+◌, ◌≤◌, ◌<◌, ◌≡◌, refl, sym, subst, inl, inr, Bool, true, false, not, ◌&&◌, Option, none,
  some, List, [], ◌∷◌, ◌++◌, ltb, length, arith, Bool-cases,
}
use lybrix.Chunker.Runes.{Text}
use lybrix.Chunker.Units.{Patterns, SplitUnit, Chunk, build_chunk, has_content}
use lybrix.Chunker.Units.Built.{IsSource, Run}
use lybrix.Chunker.Overlap.{units_len, compute_overlap}
use lybrix.Chunker.Overlap.Kept.{compute_overlap-IsOverlap}
use lybrix.Chunker.Overlap.Blank.{compute_overlap-blank}
use lybrix.Chunker.Headers.{update, get_headers}
use lybrix.Chunker.Merge.{
  Merging, absolute_max_size, flush, is_none_left, turn_over, add_unit, usable_headers, flush_if,
  pack_unit, chop_unit, merge_step, merge_loop, nothing_merged, merge_units,
}
use lybrix.Chunker.Merge.Closing.{IsMerging, build_chunk-length, units_len-append}
use lybrix.Chunker.Merge.Verbatim.{
  Run-snoc, turn_over-IsMerging, flush_if-IsMerging, with_tracker-IsMerging, merge_step-IsMerging,
  nothing_merged-IsMerging,
}
use lybrix.Chunker.Merge.Tight.{
  Apart, Tight, last_of, last_of-append, EndsBy, EndsBefore, EndsBy-le, EndsBy-before,
  EndsBefore-Apart,
}
use lybrix.Chunker.Merge.Turns.{
  Opens, plain, headed, IsTight, Apart-more, flush-IsTight, chop_unit-IsTight, StaysApart,
  inject-Opens,
}

-- The chunk before the units ends before they do.
abbrev EndsEarly : ℕ → Merging → Type 0
EndsEarly b m = is_none_left m.current ≡ false → EndsBefore b (last_of none m.chunks)

Opens-more :
    (doc : Text) (size b len : ℕ) (prev : Option Chunk) (units : List SplitUnit)
    → 1 ≤ len
    → (is_none_left units ≡ false → units_len units + len ≤ size)
    → Opens doc size b 0 prev units
    → Opens doc size b len prev units
unfolding units_len
Opens-more doc size b len prev units filled fits (plain a r) = plain a r
Opens-more doc size b len prev (u ∷ units) filled fits (headed v a made r filled' fits' apart) =
    headed v a made r (omega (arith, filled)) (omega (arith, fits refl)) (
      Apart-more size a (length u.text + units_len units + 0)
        (length u.text + units_len units + len) prev (omega arith) apart)

-- Behind a chunk that is closed, any start stands apart; behind blank units, their end.
closed-StaysApart :
    (doc headers : Text) (size b n : ℕ) (u : SplitUnit) (m : Merging)
    → m.cur_len ≡ units_len m.current
    → size < m.cur_len + length u.text + length headers
    → EndsBefore b (last_of none m.chunks)
    → (has_content m.current ≡ false → n ≡ 0)
    → StaysApart size b (last_of none (flush m).chunks) headers u n
unfolding flush
closed-StaysApart doc headers size b n u m e over early blank_n a k h at =
    elim (Bool-cases (has_content m.current)) [
      | inl full ↦
          let d = build_chunk m.current (length m.chunks) in
          let last : last_of none (m.chunks ++ d ∷ []) ≡ some d =
            last_of-append none m.chunks (d ∷ []) in
          let long = build_chunk-length m.current (length m.chunks) in
          rw full (
            subst (λ prev. Apart size prev a (length headers + k + length u.text)) (sym last)
              (λ here. omega (arith, long, e, over)))
      | inr blank ↦
          let here : b ≡ a = omega (arith, at, h, blank_n blank) in
          rw blank (
            subst (λ p. Apart size (last_of none m.chunks) p (length headers + k + length u.text))
              here
              (EndsBefore-Apart size b (length headers + k + length u.text) (last_of none m.chunks)
                early))
    ]

turn_over-IsTight :
    (ps : Patterns) (doc headers : Text) (longest size chunk_overlap b : ℕ) (u : SplitUnit)
    (m : Merging)
    → 1 ≤ length u.text
    → IsMerging doc longest b m
    → IsTight doc size b 0 m
    → EndsEarly b m
    → IsTight doc size b (length u.text) (turn_over ps size chunk_overlap headers u m)
unfolding turn_over
turn_over-IsTight ps doc headers longest size chunk_overlap b u m filled g h early =
    let full = ltb size (m.cur_len + length u.text + length headers) in
    let overlap = compute_overlap ps m.current chunk_overlap size (length u.text) in
    let closed = flush-IsTight doc size b 0 m h in
    let kept =
      compute_overlap-IsOverlap ps doc b chunk_overlap size (length u.text) m.current g.packed in
    elim (Bool-cases (full && not (is_none_left m.current))) [
      | inr on ↦ rw on (record {
        tight = h.tight;
        opens =
            Opens-more doc size b (length u.text) (last_of none m.chunks) m.current filled
              (λ some_left. ground (arith, on, some_left, g.measured)) h.opens;
        behind = h.behind;
      })
      | inl over ↦
          let some_left : is_none_left m.current ≡ false = ground (arith, over) in
          let long : size < m.cur_len + length u.text + length headers = ground (arith, over) in
          let apart =
            closed-StaysApart doc headers size b overlap.1 u m g.measured long (early some_left)
              (λ blank.
                subst (λ (next : List SplitUnit × ℕ). next.1 ≡ 0)
                  (sym
                    (compute_overlap-blank ps m.current chunk_overlap size (length u.text) blank))
                  refl) in
          rw over (record {
            tight = closed.tight;
            opens =
                inject-Opens ps doc headers size b overlap.1 (last_of none (flush m).chunks) u
                  overlap.0 filled (kept.0, kept.1, omega arith) apart;
            behind = closed.behind;
          })
    ]

flush_full-Opens :
    (doc : Text) (size b len : ℕ) (m : Merging) (units : List SplitUnit)
    → size ≤ absolute_max_size
    → m.current ≡ units
    → m.cur_len ≡ units_len units
    → IsTight doc size b len m
    → Opens doc size b len (last_of none m.chunks) units
    → IsTight doc size b len (flush_if (ltb absolute_max_size (m.cur_len + len)) m)
unfolding units_len
flush_full-Opens doc size b len m units small e measured h (plain a r) =
    elim (Bool-cases (ltb absolute_max_size (m.cur_len + len))) [
      | inl full ↦ rw full (
          flush-IsTight doc size b len m (record {
            tight = h.tight;
            opens = subst (Opens doc size b 0 (last_of none m.chunks)) (sym e) (plain a r);
            behind = h.behind;
          }))
      | inr room ↦ rw room h
    ]
flush_full-Opens doc size b len m (u ∷ units) small e measured h
      (headed v a made r filled fits apart) =
    let room : ltb absolute_max_size (m.cur_len + len) ≡ false =
      ground (arith, measured, fits, small) in
    rw room h

-- There is nothing to flush behind a header, as what follows fits.
flush_full-IsTight :
    (doc : Text) (longest size b len : ℕ) (m : Merging)
    → size ≤ absolute_max_size
    → IsMerging doc longest b m
    → IsTight doc size b len m
    → IsTight doc size b len (flush_if (ltb absolute_max_size (m.cur_len + len)) m)
flush_full-IsTight doc longest size b len m small g h =
    flush_full-Opens doc size b len m m.current small refl g.measured h h.opens

Opens-snoc :
    (doc : Text) (size : ℕ) (u : SplitUnit) (prev : Option Chunk) (units : List SplitUnit)
    → IsSource doc u
    → Opens doc size u.start (length u.text) prev units
    → Opens doc size u.end 0 prev (units ++ u ∷ [])
unfolding units_len
Opens-snoc doc size u prev units s (plain a r) = plain a (Run-snoc doc a u units s r)
Opens-snoc doc size u prev (w ∷ units) s (headed v a made r filled fits apart) =
    let long : units_len (units ++ u ∷ []) ≡ units_len units + length u.text =
      omega (arith, units_len-append units (u ∷ [])) in
    headed v a made (Run-snoc doc a u units s r) (omega (arith, long, filled))
      (omega (arith, long, fits))
      (Apart-more size a (length w.text + units_len units + length u.text)
        (length w.text + units_len (units ++ u ∷ []) + 0) prev (omega (arith, long)) apart)

add_unit-IsTight :
    (doc : Text) (size : ℕ) (u : SplitUnit) (m : Merging)
    → IsSource doc u
    → IsTight doc size u.start (length u.text) m
    → IsTight doc size u.end 0 (add_unit u m) × EndsEarly u.end (add_unit u m)
unfolding add_unit
add_unit-IsTight doc size u m s h =
    let later : u.start < u.end = omega (arith, s.measured, s.filled) in
    (
      record {
        tight = h.tight;
        opens = Opens-snoc doc size u (last_of none m.chunks) m.current s h.opens;
        behind = EndsBy-le u.start u.end (last_of none m.chunks) (omega (arith, later)) h.behind;
      },
      λ some_left. EndsBy-before u.start u.end (last_of none m.chunks) later h.behind,
    )

flush_if-IsTight :
    (doc : Text) (size b : ℕ) (ended : Bool) (m : Merging)
    → IsTight doc size b 0 m
    → EndsEarly b m
    → IsTight doc size b 0 (flush_if ended m) × EndsEarly b (flush_if ended m)
unfolding flush
flush_if-IsTight doc size b true m h early =
    (flush-IsTight doc size b 0 m h, λ some_left. cc some_left)
flush_if-IsTight doc size b false m h early = (h, early)

pack_unit-IsTight :
    (ps : Patterns) (doc : Text) (longest size chunk_overlap : ℕ) (u : SplitUnit) (m : Merging)
    → size ≤ absolute_max_size
    → size ≤ longest
    → IsSource doc u
    → IsMerging doc longest u.start m
    → IsTight doc size u.start 0 m
    → EndsEarly u.start m
    → IsTight doc size u.end 0 (pack_unit ps size chunk_overlap u m)
      × EndsEarly u.end (pack_unit ps size chunk_overlap u m)
unfolding pack_unit
pack_unit-IsTight ps doc longest size chunk_overlap u m small low s g h early =
    let headers = usable_headers size (get_headers m.tracker) in
    let ended = m.tracker.header_ended_this_unit in
    let f = flush_if ended m in
    let f_merging = flush_if-IsMerging doc longest u.start ended m g in
    let f_tight = flush_if-IsTight doc size u.start ended m h early in
    let t = turn_over ps size chunk_overlap headers u f in
    let t_merging =
      turn_over-IsMerging ps doc headers longest u.start size chunk_overlap u f low f_merging in
    let t_tight =
      turn_over-IsTight ps doc headers longest size chunk_overlap u.start u f s.filled f_merging
        f_tight.0 f_tight.1 in
    add_unit-IsTight doc size u (flush_if (ltb absolute_max_size (t.cur_len + length u.text)) t) s
      (flush_full-IsTight doc longest size u.start (length u.text) t small t_merging t_tight)

merge_step-IsTight :
    (ps : Patterns) (doc : Text) (longest size chunk_overlap : ℕ) (u : SplitUnit) (m : Merging)
    → size ≤ absolute_max_size
    → size ≤ longest
    → IsSource doc u
    → IsMerging doc longest u.start m
    → IsTight doc size u.start 0 m
    → EndsEarly u.start m
    → IsTight doc size u.end 0 (merge_step ps size chunk_overlap u m)
      × EndsEarly u.end (merge_step ps size chunk_overlap u m)
unfolding merge_step chop_unit flush
merge_step-IsTight ps doc longest size chunk_overlap u m small low s g h early =
    let seen = record m { tracker = update ps u.text m.tracker } in
    let seen_tight : IsTight doc size u.start 0 seen = record {
      tight = h.tight;
      opens = h.opens;
      behind = h.behind;
    } in
    elim (Bool-cases (ltb absolute_max_size (length u.text))) [
      | inl oversize ↦
          rw oversize (chop_unit-IsTight doc size u seen s seen_tight, λ some_left. cc some_left)
      | inr fits ↦ rw fits (
          pack_unit-IsTight ps doc longest size chunk_overlap u seen small low s
            (with_tracker-IsMerging ps doc u.text longest u.start m g) seen_tight early)
    ]

merge_loop-IsTight :
    (ps : Patterns) (doc : Text) (longest size chunk_overlap a b : ℕ) (units : List SplitUnit)
    (m : Merging)
    → size ≤ absolute_max_size
    → absolute_max_size ≤ longest
    → Run doc units a b
    → IsMerging doc longest a m
    → IsTight doc size a 0 m
    → EndsEarly a m
    → IsTight doc size b 0 (merge_loop ps size chunk_overlap units m)
unfolding merge_loop
merge_loop-IsTight ps doc longest size chunk_overlap a b [] m small large r g h early =
    subst (λ p. IsTight doc size p 0 m) r h
merge_loop-IsTight ps doc longest size chunk_overlap a b (u ∷ units) m small large (s, at, r) g h
      early =
    let g' = subst (λ p. IsMerging doc longest p m) (sym at) g in
    let step =
      merge_step-IsTight ps doc longest size chunk_overlap u m small (omega (arith, small, large)) s
        g' (subst (λ p. IsTight doc size p 0 m) (sym at) h)
        (subst (λ p. EndsEarly p m) (sym at) early) in
    merge_loop-IsTight ps doc longest size chunk_overlap u.end b units
      (merge_step ps size chunk_overlap u m) small large r
      (merge_step-IsMerging ps doc longest size chunk_overlap u m large
        (omega (arith, small, large)) s g')
      step.0 step.1

-- With a chunk size of at most 7500, the chunks that start with a header stand apart, and the last
-- chunk ends where the units do, or before.
pub merge_units-Tight :
    (ps : Patterns) (doc : Text) (size chunk_overlap a b : ℕ) (units : List SplitUnit)
    → size ≤ absolute_max_size
    → Run doc units a b
    → Tight size none (merge_units ps units size chunk_overlap)
      × EndsBy b (last_of none (merge_units ps units size chunk_overlap))
unfolding merge_units
merge_units-Tight ps doc size chunk_overlap a b units small r =
    let m = merge_loop ps size chunk_overlap units nothing_merged in
    let merged =
      merge_loop-IsTight ps doc absolute_max_size size chunk_overlap a b units nothing_merged small
        (omega arith) r (nothing_merged-IsMerging doc absolute_max_size a)
        (record { tight = tt; opens = plain a refl; behind = tt }) (λ some_left. cc some_left) in
    let closed = flush-IsTight doc size b 0 m merged in (closed.tight, closed.behind)
