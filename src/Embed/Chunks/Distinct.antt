-- ===== src/Embed/Chunks/Distinct.antt =====
-- The hashes and the numbers of the chunks that the deduplication of HandleEmbed keeps.
use Prim.Native.String.{String}
use text.Mathlib.TextEquality.{path_by_compare}
use text.Mathlib.Text.{◌==◌ as str_eq}
use lybrix.Base.{
  ℕ, zero, suc, ◌+◌, ◌≡◌, refl, subst, ap, sym, ◌∙◌, inl, inr, Bool, true, false, ◌||◌, List, [],
  ◌∷◌, ◌++◌, if◌then◌else◌, arith, length, map, Bool-cases,
}
use lybrix.Embed.Chunks.{
  Piece, has_hash, drop_seen, drop_duplicate_chunks, hashes_of, drop_parents_hashes, renumber_from,
  renumber_global, settle_chunks,
}

-- No hash twice, and none of those in `taken`.
unfoldable pub distinct_from : List String → List String → Bool
distinct_from taken [] = true
distinct_from taken (h ∷ hs) =
    let rest = distinct_from (h ∷ taken) hs in if has_hash h taken then false else rest

drop_seen-distinct :
    (seen : List String) (seq : ℕ) (chunks : List Piece)
    → distinct_from seen (hashes_of (drop_seen seen seq chunks)) ≡ true
unfolding drop_seen distinct_from
drop_seen-distinct seen seq [] = refl
drop_seen-distinct seen seq (c ∷ chunks) = elim (Bool-cases (has_hash c.hash seen)) [
  | inl again ↦ rw again (drop_seen-distinct seen seq chunks)
  | inr new ↦ rw (new, new) (drop_seen-distinct (c.hash ∷ seen) (seq + 1) chunks)
]

-- The numbers `n`, `n + 1` and so on, `k` of them.
unfoldable pub count_from : ℕ → ℕ → List ℕ
count_from n zero = []
count_from n (suc k) = n ∷ count_from (n + 1) k

abbrev pub seqs_of : List Piece → List ℕ
seqs_of = map (λ (c : Piece). c.seq)

renumber_from-seqs :
    (n : ℕ) (cs : List Piece) → seqs_of (renumber_from n cs) ≡ count_from n (length cs)
unfolding renumber_from count_from
renumber_from-seqs n [] = refl
renumber_from-seqs n (c ∷ cs) = ap (◌∷◌ n) (renumber_from-seqs (n + 1) cs)

pub has_hash-append :
    (h : String) (xs ys : List String) → has_hash h (xs ++ ys) ≡ has_hash h xs || has_hash h ys
has_hash-append h [] ys = refl
has_hash-append h (x ∷ xs) ys = ground (arith, has_hash-append h xs ys)

-- Only which hashes are taken matters, not their order.
pub distinct_from-ext :
    (t u hs : List String)
    → ((h : String) → has_hash h t ≡ has_hash h u)
    → distinct_from t hs ≡ true
    → distinct_from u hs ≡ true
unfolding distinct_from
distinct_from-ext t u [] same d = refl
distinct_from-ext t u (h ∷ hs) same d = elim (Bool-cases (has_hash h t)) [
  | inl taken ↦ absurd (ground (arith, taken, d))
  | inr free ↦
      rw (sym (same h) ∙ free)
        (distinct_from-ext (h ∷ t) (h ∷ u) hs (λ k. ground (arith, same k)) (rw free at d))
]

distinct_from-append :
    (t xs ys : List String)
    → distinct_from t xs ≡ true
    → distinct_from (xs ++ t) ys ≡ true
    → distinct_from t (xs ++ ys) ≡ true
unfolding distinct_from
distinct_from-append t [] ys d e = e
distinct_from-append t (x ∷ xs) ys d e = elim (Bool-cases (has_hash x t)) [
  | inl taken ↦ absurd (ground (arith, taken, d))
  | inr free ↦ rw free (
      distinct_from-append (x ∷ t) xs ys (rw free at d) (
        distinct_from-ext (x ∷ (xs ++ t)) (xs ++ (x ∷ t)) ys
          (λ h. ground (arith, has_hash-append h xs t, has_hash-append h xs (x ∷ t))) e))
]

-- A list that is distinct with one more hash taken is so without it.
fewer_taken :
    (x : String) (t hs : List String) → distinct_from (x ∷ t) hs ≡ true → distinct_from t hs ≡ true
unfolding distinct_from
fewer_taken x t [] d = refl
fewer_taken x t (h ∷ hs) d = elim (Bool-cases (has_hash h (x ∷ t))) [
  | inl taken ↦ absurd (ground (arith, taken, d))
  | inr free ↦
      let also : has_hash h t ≡ false = ground (arith, free) in
      rw also (
        fewer_taken x (h ∷ t) hs
          (distinct_from-ext (h ∷ (x ∷ t)) (x ∷ (h ∷ t)) hs (λ k. ground arith) (rw free at d)))
]

drop_parents-distinct :
    (taken seen : List String) (n : ℕ) (cs : List Piece)
    → distinct_from seen (hashes_of cs) ≡ true
    → distinct_from (taken ++ seen) (hashes_of (drop_parents_hashes taken n cs)) ≡ true
unfolding drop_parents_hashes distinct_from
drop_parents-distinct taken seen n [] d = refl
drop_parents-distinct taken seen n (c ∷ cs) d = elim (Bool-cases (has_hash c.hash seen)) [
  | inl twice ↦ absurd (ground (arith, twice, d))
  | inr once ↦ elim (Bool-cases (has_hash c.hash taken)) [
    | inl parent ↦ rw parent (
        drop_parents-distinct taken seen n cs
          (fewer_taken c.hash seen (hashes_of cs) (rw once at d)))
    | inr free ↦
        rw (free, has_hash-append c.hash taken seen, free, once)
          (distinct_from-ext (taken ++ (c.hash ∷ seen)) (c.hash ∷ (taken ++ seen)) _
            (λ h.
              ground (arith, has_hash-append h taken seen, has_hash-append h taken (c.hash ∷ seen)))
            (drop_parents-distinct taken (c.hash ∷ seen) (n + 1) cs (rw once at d)))
  ]
]

str_eq-path : (a b : String) → str_eq a b ≡ true → a ≡ b
str_eq-path a b h = path_by_compare a b (ground (arith, h))

same_hash-taken :
    (k h : String) (taken : List String)
    → has_hash k taken ≡ true
    → str_eq k h ≡ true
    → has_hash h taken ≡ true
same_hash-taken k h taken there same =
    subst (λ x. has_hash x taken ≡ true) (str_eq-path k h same) there

drop_parents-same_hash :
    (h : String) (taken : List String) (n : ℕ) (cs : List Piece)
    → has_hash h taken || has_hash h (hashes_of (drop_parents_hashes taken n cs))
      ≡ has_hash h taken || has_hash h (hashes_of cs)
unfolding drop_parents_hashes
drop_parents-same_hash h taken n [] = refl
drop_parents-same_hash h taken n (c ∷ cs) = elim (Bool-cases (has_hash c.hash taken)) [
  | inl parent ↦
      rw parent
        (ground (arith, same_hash-taken c.hash h taken parent, drop_parents-same_hash h taken n cs))
  | inr free ↦ rw free (ground (arith, drop_parents-same_hash h taken (n + 1) cs))
]

drop_seen-same_hash :
    (h : String) (seen : List String) (seq : ℕ) (cs : List Piece)
    → has_hash h seen || has_hash h (hashes_of (drop_seen seen seq cs))
      ≡ has_hash h seen || has_hash h (hashes_of cs)
unfolding drop_seen
drop_seen-same_hash h seen seq [] = refl
drop_seen-same_hash h seen seq (c ∷ cs) = elim (Bool-cases (has_hash c.hash seen)) [
  | inl again ↦
      rw again
        (ground (arith, same_hash-taken c.hash h seen again, drop_seen-same_hash h seen seq cs))
  | inr new ↦ rw new (ground (arith, drop_seen-same_hash h (c.hash ∷ seen) (seq + 1) cs))
]

renumber_from-hashes : (n : ℕ) (cs : List Piece) → hashes_of (renumber_from n cs) ≡ hashes_of cs
unfolding renumber_from
renumber_from-hashes n [] = refl
renumber_from-hashes n (c ∷ cs) = ap (◌∷◌ c.hash) (renumber_from-hashes (n + 1) cs)

length-renumber_from : (n : ℕ) (cs : List Piece) → length (renumber_from n cs) ≡ length cs
unfolding renumber_from
length-renumber_from n [] = refl
length-renumber_from n (c ∷ cs) = ap suc (length-renumber_from (n + 1) cs)

count_from-add : (n j k m : ℕ) → m ≡ n + j → count_from n (j + k) ≡ count_from n j ++ count_from m k
unfolding count_from
count_from-add n zero k m h =
    let all_left : 0 + k ≡ k = omega arith in
    let here : n ≡ m = omega (arith, h) in rw all_left (ap (λ x. count_from x k) here)
count_from-add n (suc j) k m h =
    let one_more : suc j + k ≡ suc (j + k) = omega arith in
    rw one_more (ap (◌∷◌ n) (count_from-add (n + 1) j k m (omega (arith, h))))

-- After the deduplication the rows of a document, its parents and then its children, have no hash
-- twice and are numbered 0, 1 and so on; and a hash is among them precisely if a chunk has it.
pub settle_chunks-distinct :
    (parents children : List Piece) (h : String)
    → let (ps, cs) = settle_chunks parents children in
      (distinct_from [] (hashes_of ps ++ hashes_of cs) ≡ true)
      × (seqs_of ps ++ seqs_of cs ≡ count_from 0 (length ps + length cs))
      × (has_hash h (hashes_of ps ++ hashes_of cs)
          ≡ has_hash h (hashes_of parents ++ hashes_of children))
unfolding settle_chunks drop_duplicate_chunks renumber_global
settle_chunks-distinct parents children h =
    let ps = drop_seen [] 0 parents in
    let once = drop_seen [] 0 children in
    let cs = drop_parents_hashes (hashes_of ps) 0 once in
    (
      rw (renumber_from-hashes 0 ps, renumber_from-hashes (length ps) cs)
          (distinct_from-append [] (hashes_of ps) (hashes_of cs) (drop_seen-distinct [] 0 parents)
            (drop_parents-distinct (hashes_of ps) [] 0 once (drop_seen-distinct [] 0 children))),
      rw
          (
            renumber_from-seqs 0 ps,
            renumber_from-seqs (length ps) cs,
            length-renumber_from 0 ps,
            length-renumber_from (length ps) cs,
          )
          (sym (count_from-add 0 (length ps) (length cs) (length ps) (omega arith))),
      rw (renumber_from-hashes 0 ps, renumber_from-hashes (length ps) cs)
          (ground (
            arith,
            has_hash-append h (hashes_of ps) (hashes_of cs),
            has_hash-append h (hashes_of parents) (hashes_of children),
            drop_seen-same_hash h [] 0 parents,
            drop_seen-same_hash h [] 0 children,
            drop_parents-same_hash h (hashes_of ps) 0 once,
          )),
    )
