-- ===== src/Chunker/Merge/Covers.antt =====
-- mergeUnits of internal/chunker/splitter.go loses white space alone.
use lybrix.Base.{
  ℕ, ◌+◌, ◌≤◌, ◌<◌, sym, subst, ◌⊎◌, inl, inr, Bool, true, false, not, ◌&&◌, List, [], ◌∷◌, ◌++◌,
  ltb, length, max, arith, Bool-cases,
}
use lybrix.Chunker.Runes.{Text}
use lybrix.Chunker.Runes.Ink.{IsInk}
use lybrix.Chunker.Units.{Patterns, SplitUnit, Chunk, build_chunk, has_content}
use lybrix.Chunker.Units.Built.{IsSource, Run, Packed, source_not_synthetic}
use lybrix.Chunker.Units.Ranges.{In, build_chunk-holds, Packed-blank, In-append}
use lybrix.Chunker.Cuts.{cuts}
use lybrix.Chunker.Cuts.Whole.{Pieces, cuts-Pieces}
use lybrix.Chunker.Headers.{update, get_headers}
use lybrix.Chunker.Merge.{
  Merging, absolute_max_size, flush, chop_from, chop_oversize, is_none_left, turn_over, add_unit,
  usable_headers, flush_if, pack_unit, chop_unit, merge_step, merge_loop, nothing_merged,
  merge_units,
}
use lybrix.Chunker.Merge.Closing.{IsMerging}
use lybrix.Chunker.Merge.Verbatim.{
  turn_over-IsMerging, flush_if-IsMerging, with_tracker-IsMerging, merge_step-IsMerging,
  nothing_merged-IsMerging,
}

-- One of the chunks holds the place p of the text.
abbrev pub Holds : ℕ → List Chunk → Type 0
Holds p [] = ⊥
Holds p (c ∷ chunks) = ((c.start ≤ p) × (p < c.end)) ⊎ Holds p chunks

Holds-append : (p : ℕ) (cs ds : List Chunk) → Holds p cs ⊎ Holds p ds → Holds p (cs ++ ds)
Holds-append p [] ds (inl h) = absurd h
Holds-append p [] ds (inr h) = h
Holds-append p (c ∷ cs) ds (inl (inl here)) = inl here
Holds-append p (c ∷ cs) ds (inl (inr h)) = inr (Holds-append p cs ds (inl h))
Holds-append p (c ∷ cs) ds (inr h) = inr (Holds-append p cs ds (inr h))

-- Each rune before b that is not white space is in a chunk or in the units that are not yet one.
abbrev Covered : Text → ℕ → Merging → Type 0
Covered doc b m = (p : ℕ) → p < b → IsInk doc p → Holds p m.chunks ⊎ In p m.current

flush-Holds :
    (doc : Text) (b p : ℕ) (m : Merging)
    → Packed doc b m.current
    → IsInk doc p
    → Holds p m.chunks ⊎ In p m.current
    → Holds p (flush m).chunks
unfolding flush
flush-Holds doc b p m packed ink seen = elim (Bool-cases (has_content m.current)) [
  | inl full ↦ rw full (
      Holds-append p m.chunks (build_chunk m.current (length m.chunks) ∷ []) (elim seen [
        | inl h ↦ inl h
        | inr i ↦ inr (inl (build_chunk-holds doc b p (length m.chunks) m.current packed i))
      ]))
  | inr blank ↦
      rw blank (elim seen [
        | inl h ↦ h
        | inr i ↦ absurd (Packed-blank doc b p m.current packed blank i ink)
      ])
]

flush-Covered :
    (doc : Text) (b : ℕ) (m : Merging)
    → Packed doc b m.current
    → Covered doc b m
    → Covered doc b (flush m)
flush-Covered doc b m packed seen p low ink =
    inl (flush-Holds doc b p m packed ink (seen p low ink))

chop_from-Holds :
    (a p : ℕ) (u : SplitUnit) (seq : ℕ) (pieces : List (ℕ × ℕ))
    → Pieces absolute_max_size a (length u.text) pieces
    → u.start + a ≤ p
    → p < u.start + length u.text
    → Holds p (chop_from u seq pieces)
unfolding chop_from
chop_from-Holds a p u seq [] e low high = absurd (omega (arith, e, low, high))
chop_from-Holds a p u seq ((o, e) ∷ pieces) (at, grows, fits, room, ps) low high =
    elim (Bool-cases (ltb p (u.start + e))) [
      | inl here ↦ inl (omega (arith, at, low), ground (arith, here))
      | inr later ↦ inr (chop_from-Holds e p u (seq + 1) pieces ps (ground (arith, later)) high)
    ]

chop_unit-Covered :
    (doc : Text) (u : SplitUnit) (m : Merging)
    → IsSource doc u
    → Packed doc u.start m.current
    → Covered doc u.start m
    → Covered doc u.end (chop_unit u m)
unfolding chop_unit chop_oversize
chop_unit-Covered doc u m s packed seen p low ink =
    let t = flush m in
    let chopped = chop_oversize u (length t.chunks) in
    inl (
      Holds-append p t.chunks chopped (elim (Bool-cases (ltb p u.start)) [
        | inl before ↦
            inl (flush-Holds doc u.start p m packed ink (seen p (ground (arith, before)) ink))
        | inr inside ↦ inr (
            chop_from-Holds 0 p u (length t.chunks) (cuts absolute_max_size u.text)
              (cuts-Pieces absolute_max_size u.text (omega arith)) (ground (arith, inside))
              (omega (arith, low, s.measured)))
      ]))

flush_if-Covered :
    (doc : Text) (b : ℕ) (full : Bool) (m : Merging)
    → Packed doc b m.current
    → Covered doc b m
    → Covered doc b (flush_if full m)
flush_if-Covered doc b true m packed seen = flush-Covered doc b m packed seen
flush_if-Covered doc b false m packed seen = seen

turn_over-Covered :
    (ps : Patterns) (doc headers : Text) (b chunk_size chunk_overlap : ℕ) (u : SplitUnit)
    (m : Merging)
    → Packed doc b m.current
    → Covered doc b m
    → Covered doc b (turn_over ps chunk_size chunk_overlap headers u m)
unfolding turn_over
turn_over-Covered ps doc headers b chunk_size chunk_overlap u m packed seen =
    elim (Bool-cases (
      ltb chunk_size (m.cur_len + length u.text + length headers)
      && not (is_none_left m.current))) [
        | inr on ↦ rw on seen
        | inl over ↦ rw over (λ (p : ℕ) (low : p < b) (ink : IsInk doc p).
            inl (flush-Holds doc b p m packed ink (seen p low ink)))
      ]

add_unit-Covered :
    (doc : Text) (u : SplitUnit) (m : Merging)
    → IsSource doc u
    → Covered doc u.start m
    → Covered doc u.end (add_unit u m)
unfolding add_unit
add_unit-Covered doc u m s seen p low ink = elim (Bool-cases (ltb p u.start)) [
  | inl before ↦ elim (seen p (ground (arith, before)) ink) [
    | inl h ↦ inl h
    | inr i ↦ inr (In-append p m.current (u ∷ []) (inl i))
  ]
  | inr inside ↦ inr (
      In-append p m.current (u ∷ [])
        (inr (inl (source_not_synthetic doc u s, ground (arith, inside), low))))
]

pack_unit-Covered :
    (ps : Patterns) (doc : Text) (longest chunk_size chunk_overlap : ℕ) (u : SplitUnit)
    (m : Merging)
    → chunk_size ≤ longest
    → IsSource doc u
    → IsMerging doc longest u.start m
    → Covered doc u.start m
    → Covered doc u.end (pack_unit ps chunk_size chunk_overlap u m)
unfolding pack_unit
pack_unit-Covered ps doc longest chunk_size chunk_overlap u m small s h seen =
    let headers = usable_headers chunk_size (get_headers m.tracker) in
    let ended = m.tracker.header_ended_this_unit in
    let f = flush_if ended m in
    let t = turn_over ps chunk_size chunk_overlap headers u f in
    let full = ltb absolute_max_size (t.cur_len + length u.text) in
    let kept = flush_if-IsMerging doc longest u.start ended m h in
    let turned =
      turn_over-IsMerging ps doc headers longest u.start chunk_size chunk_overlap u f small kept in
    add_unit-Covered doc u (flush_if full t) s (
      flush_if-Covered doc u.start full t turned.packed (
        turn_over-Covered ps doc headers u.start chunk_size chunk_overlap u f kept.packed
          (flush_if-Covered doc u.start ended m h.packed seen)))

merge_step-Covered :
    (ps : Patterns) (doc : Text) (longest chunk_size chunk_overlap : ℕ) (u : SplitUnit)
    (m : Merging)
    → chunk_size ≤ longest
    → IsSource doc u
    → IsMerging doc longest u.start m
    → Covered doc u.start m
    → Covered doc u.end (merge_step ps chunk_size chunk_overlap u m)
unfolding merge_step
merge_step-Covered ps doc longest chunk_size chunk_overlap u m small s h seen =
    let next = record m { tracker = update ps u.text m.tracker } in
    elim (Bool-cases (ltb absolute_max_size (length u.text))) [
      | inl oversize ↦ rw oversize (chop_unit-Covered doc u next s h.packed seen)
      | inr fits ↦ rw fits (
          pack_unit-Covered ps doc longest chunk_size chunk_overlap u next small s
            (with_tracker-IsMerging ps doc u.text longest u.start m h) seen)
    ]

merge_loop-Holds :
    (ps : Patterns) (doc : Text) (longest chunk_size chunk_overlap a b p : ℕ)
    (units : List SplitUnit) (m : Merging)
    → absolute_max_size ≤ longest
    → chunk_size ≤ longest
    → Run doc units a b
    → IsMerging doc longest a m
    → Covered doc a m
    → p < b
    → IsInk doc p
    → Holds p (flush (merge_loop ps chunk_size chunk_overlap units m)).chunks
unfolding merge_loop
merge_loop-Holds ps doc longest chunk_size chunk_overlap a b p [] m large small r h seen low ink =
    flush-Holds doc a p m h.packed ink (seen p (omega (arith, r, low)) ink)
merge_loop-Holds ps doc longest chunk_size chunk_overlap a b p (u ∷ units) m large small (s, at, r)
      h seen low ink =
    let h' = subst (λ q. IsMerging doc longest q m) (sym at) h in
    let seen' = subst (λ q. Covered doc q m) (sym at) seen in
    merge_loop-Holds ps doc longest chunk_size chunk_overlap u.end b p units
      (merge_step ps chunk_size chunk_overlap u m) large small r
      (merge_step-IsMerging ps doc longest chunk_size chunk_overlap u m large small s h')
      (merge_step-Covered ps doc longest chunk_size chunk_overlap u m small s h' seen') low ink

-- Every rune of the units that is not white space is in the range of a chunk.
pub merge_units-Holds :
    (ps : Patterns) (doc : Text) (chunk_size chunk_overlap b p : ℕ) (units : List SplitUnit)
    → Run doc units 0 b
    → p < b
    → IsInk doc p
    → Holds p (merge_units ps units chunk_size chunk_overlap)
unfolding merge_units
merge_units-Holds ps doc chunk_size chunk_overlap b p units r low ink =
    let longest = max absolute_max_size chunk_size in
    merge_loop-Holds ps doc longest chunk_size chunk_overlap 0 b p units nothing_merged
      (omega arith) (omega arith) r (nothing_merged-IsMerging doc longest 0)
      (λ q early inked. absurd (omega (arith, early))) low ink
