-- ===== src/Chunker/Headings/Sections.antt =====
-- splitByHeadingsImpl of internal/chunker/heading_splitter.go: the chunks of a section in the text.
use lybrix.Base.{
  ℕ, ◌+◌, ◌<◌, ◌≡◌, refl, sym, subst, Option, none, some, List, [], ◌∷◌, ◌++◌, length, arith, All,
  All-append,
}
use lybrix.Chunker.Runes.{Text}
use lybrix.Chunker.Runes.Places.{StandsAt, StandsAt-trans}
use lybrix.Chunker.Units.{Chunk}
use lybrix.Chunker.Units.Built.{IsVerbatim}
use lybrix.Chunker.Merge.Tight.{Apart, Tight, last_of, last_of-append, Tight-append, EndsBy}
use lybrix.Chunker.Headings.{SectionBreadcrumb, section_chunks}

-- The chunks of a section, moved to its place.
pub section_chunks-IsVerbatim :
    (doc part : Text) (start : ℕ) (bcs : List SectionBreadcrumb) (breadcrumb : Text) (seq : ℕ)
    (subs : List Chunk)
    → StandsAt doc start part
    → All (IsVerbatim part) subs
    → All (IsVerbatim doc) (section_chunks start bcs breadcrumb seq subs)
unfolding section_chunks
section_chunks-IsVerbatim doc part start bcs breadcrumb seq [] h vs = tt
section_chunks-IsVerbatim doc part start bcs breadcrumb seq (sub ∷ subs) h (v, vs) = (
  record {
    prefixed = v.prefixed;
    measured = omega (arith, v.measured);
    copied = StandsAt-trans doc part start sub.start _ h v.copied;
  },
  section_chunks-IsVerbatim doc part start bcs breadcrumb (seq + 1) subs h vs,
)

-- Their first one starts behind the section's start if it starts with a header.
moved-Apart :
    (size start s len : ℕ) (prev : Option Chunk)
    → EndsBy start prev
    → 0 < s
    → Apart size prev (start + s) len
moved-Apart size start s len none h k = omega (arith, k)
moved-Apart size start s len (some c) h k = λ at. absurd (omega (arith, h, k, at))

section_chunks-next :
    (size start : ℕ) (bcs : List SectionBreadcrumb) (breadcrumb : Text) (seq : ℕ) (c c' : Chunk)
    (subs : List Chunk)
    → c'.end ≡ start + c.end
    → c'.content ≡ c.content
    → Tight size (some c) subs
    → Tight size (some c') (section_chunks start bcs breadcrumb seq subs)
unfolding section_chunks
section_chunks-next size start bcs breadcrumb seq c c' [] at same t = tt
section_chunks-next size start bcs breadcrumb seq c c' (sub ∷ subs) at same (apart, t) = (
  λ made here.
      subst (λ r. size < length r + length sub.content) (sym same)
        (apart made (omega (arith, at, here))),
  section_chunks-next size start bcs breadcrumb (seq + 1) sub _ subs refl refl t,
)

pub section_chunks-Tight :
    (size start : ℕ) (bcs : List SectionBreadcrumb) (breadcrumb : Text) (seq : ℕ)
    (prev : Option Chunk) (subs : List Chunk)
    → EndsBy start prev
    → Tight size none subs
    → Tight size prev (section_chunks start bcs breadcrumb seq subs)
unfolding section_chunks
section_chunks-Tight size start bcs breadcrumb seq prev [] h t = tt
section_chunks-Tight size start bcs breadcrumb seq prev (sub ∷ subs) h (first, t) = (
  λ made. moved-Apart size start sub.start (length sub.content) prev h (first made),
  section_chunks-next size start bcs breadcrumb (seq + 1) sub _ subs refl refl t,
)

pub section_chunks-EndsBy :
    (n start : ℕ) (bcs : List SectionBreadcrumb) (breadcrumb : Text) (seq : ℕ)
    (prev moved : Option Chunk) (subs : List Chunk)
    → (EndsBy n prev → EndsBy (start + n) moved)
    → EndsBy n (last_of prev subs)
    → EndsBy (start + n) (last_of moved (section_chunks start bcs breadcrumb seq subs))
unfolding section_chunks
section_chunks-EndsBy n start bcs breadcrumb seq prev moved [] h k = h k
section_chunks-EndsBy n start bcs breadcrumb seq prev moved (sub ∷ subs) h k =
    section_chunks-EndsBy n start bcs breadcrumb (seq + 1) (some sub) _ subs (λ e. omega (arith, e))
      k

-- Slices so far, with those that start with a header apart, up to an offset.
pub record IsPlaced (doc : Text) (size b : ℕ) (out : List Chunk) : Type 0 where
  pub verbatim : All (IsVerbatim doc) out
  pub tight : Tight size none out
  pub behind : EndsBy b (last_of none out)

pub IsPlaced-append :
    (doc : Text) (size a b : ℕ) (out more : List Chunk)
    → IsPlaced doc size a out
    → All (IsVerbatim doc) more
    → Tight size (last_of none out) more
    → EndsBy b (last_of (last_of none out) more)
    → IsPlaced doc size b (out ++ more)
IsPlaced-append doc size a b out more h v t e = record {
  verbatim = All-append (IsVerbatim doc) out more h.verbatim v;
  tight = Tight-append size none out more h.tight t;
  behind = subst (EndsBy b) (sym (last_of-append none out more)) e;
}
