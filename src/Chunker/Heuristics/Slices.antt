-- ===== src/Chunker/Heuristics/Slices.antt =====
-- The tier of internal/chunker/heuristic_splitter.go makes chunks that are slices of the text.
use Prim.Native.String.{String}
use lybrix.Base.{
  ℕ, ◌+◌, ◌-◌, ◌≤◌, ◌<◌, inl, inr, Bool, true, false, ◌&&◌, ◌||◌, List, [], ◌∷◌, ◌++◌, ltb, leb,
  ◌==◌, if◌then◌else◌, length, max, ◌/◌, arith, Bool-cases, All, All-append,
}
use lybrix.Chunker.Runes.{Text, has_text}
use lybrix.Chunker.Runes.Places.{StandsAt, StandsAt-trans}
use lybrix.Chunker.Units.{Patterns, Chunk}
use lybrix.Chunker.Units.Built.{IsVerbatim}
use lybrix.Chunker.Spans.{protected_spans}
use lybrix.Chunker.Spans.Disjoint.{InText}
use lybrix.Chunker.Cuts.{slice}
use lybrix.Chunker.Cuts.Whole.{length-slice}
use lybrix.Chunker.Sources.Tiled.{slice-StandsAt}
use lybrix.Chunker.Merge.Closing.{IsSound}
use lybrix.Chunker.Splitter.{SplitterConfig, split_text}
use lybrix.Chunker.Splitter.Slices.{split_text-IsSound}
use lybrix.Chunker.Profile.{LinePatterns}
use lybrix.Chunker.Heuristics.{
  Marker, marker, find_heuristic_boundaries, drop_bounds_inside_spans, Packing, append_chunk,
  shifted, shift_all, append_oversize_block, pack_step, pack_loop, pack_all, from_zero, no_markers,
  split_by_heuristics,
}
use lybrix.Chunker.Heuristics.Within.{Within, drop_bounds-Within, find_boundaries-Within}

pub sound-All-IsVerbatim :
    (doc : Text) (longest : ℕ) (cs : List Chunk)
    → All (IsSound doc longest) cs
    → All (IsVerbatim doc) cs
sound-All-IsVerbatim doc longest [] h = tt
sound-All-IsVerbatim doc longest (c ∷ cs) (h, k) = (h.0, sound-All-IsVerbatim doc longest cs k)

-- A slice of a part of the text is a slice of the text.
pub shifted-IsVerbatim :
    (doc part : Text) (start seq : ℕ) (c : Chunk)
    → StandsAt doc start part
    → IsVerbatim part c
    → IsVerbatim doc (shifted start seq c)
shifted-IsVerbatim doc part start seq c h v = record {
  prefixed = v.prefixed;
  measured = omega (arith, v.measured);
  copied = StandsAt-trans doc part start c.start _ h v.copied;
}

shift_all-IsVerbatim :
    (doc part : Text) (start seq : ℕ) (cs : List Chunk)
    → StandsAt doc start part
    → All (IsVerbatim part) cs
    → All (IsVerbatim doc) (shift_all start seq cs)
shift_all-IsVerbatim doc part start seq [] h v = tt
shift_all-IsVerbatim doc part start seq (c ∷ cs) h (v, w) = (
  shifted-IsVerbatim doc part start seq c h v,
  shift_all-IsVerbatim doc part start (seq + 1) cs h w,
)

append_chunk-IsVerbatim :
    (doc : Text) (start end : ℕ) (out : List Chunk)
    → end ≤ length doc
    → All (IsVerbatim doc) out
    → All (IsVerbatim doc) (append_chunk doc start end out)
unfolding append_chunk
append_chunk-IsVerbatim doc start end out h v =
    elim (Bool-cases (ltb start end && has_text (slice doc start end))) [
      | inr nothing ↦ rw nothing v
      | inl filled ↦
          let grows : start < end = ground (arith, filled) in
          rw filled (
            All-append (IsVerbatim doc) out _ v (
              record {
                prefixed = omega arith;
                measured = omega (arith, length-slice doc start end h, grows);
                copied = slice-StandsAt doc start end (omega (arith, grows)) h;
              },
              tt,
            ))
    ]

pub choice-IsVerbatim :
    (doc : Text) (empty plain : Bool) (cs ds : List Chunk)
    → All (IsVerbatim doc) cs
    → All (IsVerbatim doc) ds
    → All (IsVerbatim doc) (if empty then [] else if plain then cs else ds)
choice-IsVerbatim doc true plain cs ds h k = tt
choice-IsVerbatim doc false true cs ds h k = h
choice-IsVerbatim doc false false cs ds h k = k

module _ (chars_for_token_limit : ℕ → String → ℕ) (ps : Patterns)
    (matched : (t : Text) → All (InText t) (ps.protected t)) where
  append_oversize-IsVerbatim :
      (doc : Text) (start end : ℕ) (cfg : SplitterConfig) (out : List Chunk)
      → end ≤ length doc
      → All (IsVerbatim doc) out
      → All (IsVerbatim doc) (append_oversize_block chars_for_token_limit ps doc start end cfg out)
  unfolding append_oversize_block
  append_oversize-IsVerbatim doc start end cfg out h v = elim (Bool-cases (ltb start end)) [
    | inr nothing ↦ rw nothing v
    | inl filled ↦
        let part = slice doc start end in
        let sound = split_text-IsSound chars_for_token_limit ps part cfg (matched part) in
        rw filled (
          All-append (IsVerbatim doc) out _ v (
            shift_all-IsVerbatim doc part start (length out)
              (split_text chars_for_token_limit ps part cfg)
              (slice-StandsAt doc start end (ground (arith, filled)) h)
              (sound-All-IsVerbatim part _ (split_text chars_for_token_limit ps part cfg) sound.0)))
  ]

  -- Slices so far, and an end in the text.
  record IsPacking (doc : Text) (p : Packing) : Type 0 where
    verbatim : All (IsVerbatim doc) p.out
    within : p.cur_end ≤ length doc

  pack_step-IsPacking :
      (doc : Text) (cfg : SplitterConfig) (bounds : List Marker) (next_end : ℕ) (p : Packing)
      → next_end ≤ length doc
      → IsPacking doc p
      → IsPacking doc (pack_step chars_for_token_limit ps doc cfg bounds next_end p)
  unfolding pack_step
  pack_step-IsPacking doc cfg bounds next_end p h k =
      let closed = append_chunk doc p.chunk_start p.cur_end p.out in
      let closed_sound =
        append_chunk-IsVerbatim doc p.chunk_start p.cur_end p.out k.within k.verbatim in
      elim (Bool-cases (ltb cfg.chunk_size (next_end - p.cur_end))) [
        | inl large ↦ rw large (record {
          verbatim = append_oversize-IsVerbatim doc p.cur_end next_end cfg closed h closed_sound;
          within = h;
        })
        | inr small ↦
            elim (Bool-cases (
              ltb cfg.chunk_size (next_end - p.chunk_start)
              && leb (max (cfg.chunk_size / 4) 50) (p.cur_end - p.chunk_start))) [
                | inl full ↦ rw (small, full) (record { verbatim = closed_sound; within = h })
                | inr room ↦ rw (small, room) (record { verbatim = k.verbatim; within = h })
              ]
      ]

  pack_loop-IsPacking :
      (doc : Text) (cfg : SplitterConfig) (bounds rest : List Marker) (p : Packing)
      → All (Within doc) rest
      → IsPacking doc p
      → IsPacking doc (pack_loop chars_for_token_limit ps doc cfg bounds rest p)
  unfolding pack_loop
  pack_loop-IsPacking doc cfg bounds [] p h k = k
  pack_loop-IsPacking doc cfg bounds (m ∷ rest) p (h, hs) k =
      pack_loop-IsPacking doc cfg bounds rest
        (pack_step chars_for_token_limit ps doc cfg bounds m.rune_start p) hs
        (pack_step-IsPacking doc cfg bounds m.rune_start p h k)

  pack_all-IsVerbatim :
      (doc : Text) (cfg : SplitterConfig) (bounds : List Marker)
      → All (Within doc) bounds
      → All (IsVerbatim doc) (pack_all chars_for_token_limit ps doc cfg bounds)
  unfolding pack_all
  pack_all-IsVerbatim doc cfg [] h = tt
  pack_all-IsVerbatim doc cfg (m ∷ rest) (h, hs) =
      let start : Packing = record {
        out = [];
        chunk_start = m.rune_start;
        cur_end = m.rune_start;
      } in
      let packed =
        pack_loop-IsPacking doc cfg (m ∷ rest) rest start hs
          (record { verbatim = tt; within = h }) in
      let p = pack_loop chars_for_token_limit ps doc cfg (m ∷ rest) rest start in
      append_chunk-IsVerbatim doc p.chunk_start p.cur_end p.out packed.within packed.verbatim

  from_zero-Within :
      (doc : Text) (bounds : List Marker)
      → All (Within doc) bounds
      → All (Within doc) (from_zero bounds)
  from_zero-Within doc [] h = tt
  from_zero-Within doc (m ∷ bounds) h = elim (Bool-cases (m.rune_start == 0)) [
    | inl at_zero ↦ rw at_zero h
    | inr later ↦ rw later (omega arith, h)
  ]

  -- If the matches of the patterns lie in the text, each chunk of the tier by heuristics is, behind its
  -- synthetic prefix, the slice of the text from its start to its end.
  pub split_by_heuristics-IsVerbatim :
      (lp : LinePatterns) (text : Text) (cfg : SplitterConfig)
      → All (λ (n : ℕ). n ≤ length text) (lp.blank_run_ends text)
      → All (IsVerbatim text) (split_by_heuristics chars_for_token_limit ps lp text cfg)
  unfolding split_by_heuristics
  split_by_heuristics-IsVerbatim lp text cfg h =
      let found = find_heuristic_boundaries lp cfg.languages text in
      let bounds = drop_bounds_inside_spans (protected_spans ps text) found in
      let all = bounds ++ marker (length text) 0 ∷ [] in
      let within =
        All-append (Within text) bounds (marker (length text) 0 ∷ [])
          (drop_bounds-Within text (protected_spans ps text) found
            (find_boundaries-Within lp cfg.languages text h))
          (omega arith, tt) in
      choice-IsVerbatim text (length text == 0)
        (leb (length text) cfg.chunk_size || no_markers bounds)
        (split_text chars_for_token_limit ps text cfg)
        (pack_all chars_for_token_limit ps text cfg (from_zero all))
        (sound-All-IsVerbatim text _ (split_text chars_for_token_limit ps text cfg)
          (split_text-IsSound chars_for_token_limit ps text cfg (matched text)).0)
        (pack_all-IsVerbatim text cfg (from_zero all) (from_zero-Within text all within))
