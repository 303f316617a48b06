-- ===== src/Chunker/Cuts.antt =====
-- The loop by which chopOversize of internal/chunker/splitter.go and buildUnitsWithProtection of
-- protected.go cut an oversize text: at most `max_size` runes at a time, and behind a newline or a
-- space among the last 200 where there is one. The loop is on fuel: a round takes a rune at least.
pub mod Whole
use lybrix.Base.{
  ℕ, zero, suc, ◌+◌, ◌-◌, Bool, true, false, ◌||◌, Option, none, some, List, [], ◌∷◌, ltb, leb,
  ◌==◌, if◌then◌else◌, length, take, drop, get_elem?, max,
}
use lybrix.Chunker.Runes.{Text}

abbrev pub is_break : Option ℕ → Bool
is_break none = false
is_break (some r) = (r == 10) || (r == 32)

-- Looks at the runes low + k, ..., low + 1.
unfoldable pub look_back : Text → ℕ → ℕ → ℕ → ℕ
look_back runes chunk_end low zero = chunk_end
look_back runes chunk_end low (suc k) =
    let rest = look_back runes chunk_end low k in
    if is_break (get_elem? runes (low + suc k)) then low + suc k + 1 else rest

-- The end of the piece that starts at the offset.
unfoldable pub cut_end : ℕ → Text → ℕ → ℕ
unfolding look_back
cut_end max_size runes offset =
    let chunk_end = offset + max_size in
    let low = max offset (chunk_end - 200) in
    if ltb (length runes) chunk_end
    then length runes
    else look_back runes chunk_end low (chunk_end - 1 - low)

unfoldable pub cut_loop : ℕ → ℕ → Text → ℕ → List (ℕ × ℕ)
unfolding cut_end
cut_loop zero max_size runes offset = []
cut_loop (suc fuel) max_size runes offset =
    let chunk_end = cut_end max_size runes offset in
    let rest = cut_loop fuel max_size runes chunk_end in
    if ltb offset (length runes) then (offset, chunk_end) ∷ rest else []

-- The pieces, as the offsets of their first rune and of the first rune behind them.
unfoldable pub cuts : ℕ → Text → List (ℕ × ℕ)
unfolding cut_loop
cuts max_size runes = cut_loop (length runes) max_size runes 0

-- `runes[a:b]`.
unfoldable pub slice : Text → ℕ → ℕ → Text
slice runes a b = take (b - a) (drop a runes)
