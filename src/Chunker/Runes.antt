-- ===== src/Chunker/Runes.antt =====
-- Texts of internal/chunker as lists of runes: strings.TrimSpace, Contains and Split, as far as the
-- chunker uses them. A rune is its code point, and a text is valid UTF-8.
pub mod Places
pub mod Ink
use mathlib.Core.List.{reverse}
use lybrix.Base.{
  ℕ, suc, Bool, true, false, not, ◌&&◌, ◌||◌, List, [], ◌∷◌, ltb, leb, ◌==◌, if◌then◌else◌, any_of,
}

abbrev pub Text : Type 0
Text = List ℕ

-- unicode.IsSpace.
unfoldable pub is_space : ℕ → Bool
is_space r =
    (leb 9 r && leb r 13)
    || ((r == 32)
        || ((r == 0x85)
            || ((r == 0xa0)
                || ((r == 0x1680)
                    || ((leb 0x2000 r && leb r 0x200a)
                        || ((r == 0x2028)
                            || ((r == 0x2029)
                                || ((r == 0x202f) || ((r == 0x205f) || (r == 0x3000))))))))))

-- `strings.TrimSpace(text) != ""`.
unfoldable pub has_text : Text → Bool
unfolding is_space
has_text = any_of (λ r. not (is_space r))

unfoldable pub trim_left : Text → Text
unfolding is_space
trim_left [] = []
trim_left (r ∷ rs) = let rest = trim_left rs in if is_space r then rest else r ∷ rs

-- strings.TrimSpace.
unfoldable pub trim_space : Text → Text
unfolding trim_left
trim_space t = reverse (trim_left (reverse (trim_left t)))

-- `strings.HasPrefix(t, p)`.
unfoldable pub has_prefix : Text → Text → Bool
has_prefix [] t = true
has_prefix (p ∷ ps) [] = false
has_prefix (p ∷ ps) (r ∷ rs) = let rest = has_prefix ps rs in if p == r then rest else false

-- `strings.Contains(t, p)`.
unfoldable pub contains : Text → Text → Bool
unfolding has_prefix
contains p [] = has_prefix p []
contains p (r ∷ rs) = let later = contains p rs in if has_prefix p (r ∷ rs) then true else later

abbrev pub onto_first : ℕ → List Text → List Text
onto_first r [] = (r ∷ []) ∷ []
onto_first r (line ∷ lines) = (r ∷ line) ∷ lines

-- `strings.Split(t, sep)` for a separator of one rune.
unfoldable pub split_at : ℕ → Text → List Text
split_at sep [] = [] ∷ []
split_at sep (r ∷ rs) =
    let rest = split_at sep rs in if r == sep then [] ∷ rest else onto_first r rest
