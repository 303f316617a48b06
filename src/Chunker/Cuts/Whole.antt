-- ===== src/Chunker/Cuts/Whole.antt =====
-- The pieces of an oversize text lie one behind the other, and there is fuel enough for all of it.
use lybrix.Base.{
  ℕ, zero, suc, ◌+◌, ◌-◌, ◌≤◌, ◌<◌, ◌≡◌, refl, inl, inr, List, [], ◌∷◌, ltb, length, drop,
  get_elem?, max, arith, length-take, length-drop, Bool-cases,
}
use lybrix.Chunker.Runes.{Text}
use lybrix.Chunker.Runes.Places.{StandsAt, StandsAt-take, StandsAt-drop}
use lybrix.Chunker.Cuts.{look_back, cut_end, cut_loop, cuts, slice, is_break}

-- Pieces of a rune at least and max_size runes at most, from the first offset up to the second.
abbrev pub Pieces : ℕ → ℕ → ℕ → List (ℕ × ℕ) → Type 0
Pieces max_size a b [] = a ≡ b
Pieces max_size a b ((offset, chunk_end) ∷ pieces) =
    (offset ≡ a)
    × (a < chunk_end)
    × (chunk_end ≤ a + max_size)
    × (chunk_end ≤ b)
    × Pieces max_size chunk_end b pieces

look_back_bounds :
    (runes : Text) (chunk_end low k : ℕ)
    → low + k < chunk_end
    → (low < look_back runes chunk_end low k) × (look_back runes chunk_end low k ≤ chunk_end)
unfolding look_back
look_back_bounds runes chunk_end low zero h = omega (arith, h)
look_back_bounds runes chunk_end low (suc k) h =
    elim (Bool-cases (is_break (get_elem? runes (low + suc k)))) [
      | inl found ↦ rw found (omega (arith, h))
      | inr other ↦ rw other (look_back_bounds runes chunk_end low k (omega (arith, h)))
    ]

cut_end_bounds :
    (max_size : ℕ) (runes : Text) (offset : ℕ)
    → 1 ≤ max_size
    → offset < length runes
    → (offset < cut_end max_size runes offset)
      × (cut_end max_size runes offset ≤ offset + max_size)
      × (cut_end max_size runes offset ≤ length runes)
unfolding cut_end
cut_end_bounds max_size runes offset h k =
    let chunk_end = offset + max_size in
    let low = max offset (chunk_end - 200) in
    elim (Bool-cases (ltb (length runes) chunk_end)) [
      | inl last ↦ rw last (omega (arith, k), ground (arith, last), omega arith)
      | inr more ↦
          let found =
            look_back_bounds runes chunk_end low (chunk_end - 1 - low) (omega (arith, h)) in
          let within : chunk_end ≤ length runes = ground (arith, more) in
          rw more (omega (arith, found), found.1, omega (arith, found, within))
    ]

cut_loop-Pieces :
    (fuel max_size : ℕ) (runes : Text) (offset : ℕ)
    → 1 ≤ max_size
    → length runes ≤ offset + fuel
    → offset ≤ length runes
    → Pieces max_size offset (length runes) (cut_loop fuel max_size runes offset)
unfolding cut_loop
cut_loop-Pieces zero max_size runes offset h enough k = omega (arith, enough, k)
cut_loop-Pieces (suc fuel) max_size runes offset h enough k =
    let chunk_end = cut_end max_size runes offset in
    elim (Bool-cases (ltb offset (length runes))) [
      | inr over ↦ rw over (ground (arith, over, k))
      | inl more ↦
          let found = cut_end_bounds max_size runes offset h (ground (arith, more)) in
          rw more (
            refl,
            found.0,
            found.1,
            found.2,
            cut_loop-Pieces fuel max_size runes chunk_end h (omega (arith, enough, found)) found.2,
          )
    ]

-- With a size of a rune at least, the loop that cuts a text comes to its end in as many rounds as the
-- text has runes: its pieces lie one behind the other from the start of the text to its end, each of a
-- rune at least and of the size at most.
pub cuts-Pieces :
    (max_size : ℕ) (runes : Text)
    → 1 ≤ max_size
    → Pieces max_size 0 (length runes) (cuts max_size runes)
unfolding cuts
cuts-Pieces max_size runes h =
    cut_loop-Pieces (length runes) max_size runes 0 h (omega arith) (omega arith)

pub length-slice : (runes : Text) (a b : ℕ) → b ≤ length runes → length (slice runes a b) ≡ b - a
unfolding slice
length-slice runes a b h = omega (arith, h, length-take (b - a) (drop a runes), length-drop a runes)

-- A slice of a text that stands in the document stands in it.
pub StandsAt-slice :
    (doc : Text) (pos a b : ℕ) (runes : Text)
    → a ≤ b
    → b ≤ length runes
    → StandsAt doc pos runes
    → StandsAt doc (pos + a) (slice runes a b)
unfolding slice
StandsAt-slice doc pos a b runes h k s =
    StandsAt-take doc (pos + a) (b - a) (drop a runes) (omega (arith, length-drop a runes, h, k))
      (StandsAt-drop doc pos a runes (omega (arith, h, k)) s)
