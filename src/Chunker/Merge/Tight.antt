-- ===== src/Chunker/Merge/Tight.antt =====
-- mergeUnits of internal/chunker/splitter.go: a chunk that starts with a header does not fit into the
-- chunk before it.
use lybrix.Base.{
  ℕ, ◌+◌, ◌≤◌, ◌<◌, ◌≡◌, refl, Option, none, some, List, [], ◌∷◌, ◌++◌, length, arith, All,
}
use lybrix.Chunker.Units.{Chunk}

-- Something of `len` runes that starts at `start` does not join the chunk before it: it stands away
-- from it, or the two are longer than the chunk size. Before the first chunk is the text's start.
abbrev pub Apart : ℕ → Option Chunk → ℕ → ℕ → Type 0
Apart size none start len = 0 < start
Apart size (some c) start len = c.end ≡ start → size < length c.content + len

-- Chunks of which those with a synthetic prefix stand apart from the one before.
abbrev pub Tight : ℕ → Option Chunk → List Chunk → Type 0
Tight size prev [] = Unit
Tight size prev (c ∷ chunks) =
    (0 < c.synthetic_prefix_runes → Apart size prev c.start (length c.content))
    × Tight size (some c) chunks

abbrev pub last_of : Option Chunk → List Chunk → Option Chunk
last_of prev [] = prev
last_of prev (c ∷ chunks) = last_of (some c) chunks

pub last_of-append :
    (prev : Option Chunk) (cs ds : List Chunk)
    → last_of prev (cs ++ ds) ≡ last_of (last_of prev cs) ds
last_of-append prev [] ds = refl
last_of-append prev (c ∷ cs) ds = last_of-append (some c) cs ds

pub Tight-append :
    (size : ℕ) (prev : Option Chunk) (cs ds : List Chunk)
    → Tight size prev cs
    → Tight size (last_of prev cs) ds
    → Tight size prev (cs ++ ds)
Tight-append size prev [] ds h k = k
Tight-append size prev (c ∷ cs) ds (h, hs) k = (h, Tight-append size (some c) cs ds hs k)

abbrev pub IsPlain : Chunk → Type 0
IsPlain c = c.synthetic_prefix_runes ≡ 0

pub plain-Tight :
    (size : ℕ) (prev : Option Chunk) (cs : List Chunk) → All IsPlain cs → Tight size prev cs
plain-Tight size prev [] h = tt
plain-Tight size prev (c ∷ cs) (h, hs) =
    (λ made. absurd (omega (arith, h, made)), plain-Tight size (some c) cs hs)

-- The chunk before ends at the offset or before it.
abbrev pub EndsBy : ℕ → Option Chunk → Type 0
EndsBy b none = Unit
EndsBy b (some c) = c.end ≤ b

-- It ends before the offset, which is not the text's start.
abbrev pub EndsBefore : ℕ → Option Chunk → Type 0
EndsBefore b none = 0 < b
EndsBefore b (some c) = c.end < b

pub EndsBy-le : (a b : ℕ) (prev : Option Chunk) → a ≤ b → EndsBy a prev → EndsBy b prev
EndsBy-le a b none h k = tt
EndsBy-le a b (some c) h k = omega (arith, h, k)

pub EndsBy-before : (a b : ℕ) (prev : Option Chunk) → a < b → EndsBy a prev → EndsBefore b prev
EndsBy-before a b none h k = omega (arith, h)
EndsBy-before a b (some c) h k = omega (arith, h, k)

-- What starts behind the end stands apart, however long it is.
pub EndsBefore-Apart :
    (size b len : ℕ) (prev : Option Chunk) → EndsBefore b prev → Apart size prev b len
EndsBefore-Apart size b len none h = h
EndsBefore-Apart size b len (some c) h = λ at. absurd (omega (arith, h, at))

pub All-EndsBy :
    (b : ℕ) (prev : Option Chunk) (cs : List Chunk)
    → EndsBy b prev
    → All (λ (c : Chunk). c.end ≤ b) cs
    → EndsBy b (last_of prev cs)
All-EndsBy b prev [] h k = h
All-EndsBy b prev (c ∷ cs) h (k, ks) = All-EndsBy b (some c) cs k ks
