-- ===== src/Store/Counters/Lists.antt =====
-- Counting the rows that pass a test, before and after an update.
use lybrix.Base.{
  ◌+◌, ◌≤◌, ◌≡◌, inl, inr, Bool, true, false, ◌&&◌, List, [], ◌∷◌, arith, Bool-cases, count_if, All,
}
use lybrix.Store.Rows.{update_where}

module _ {ℓ} {A : Type ℓ} where
  -- An update moves the count of `q` by the rows that it makes pass and those that it takes away.
  pub count_if-update_where :
      (p q : A → Bool) (f : A → A) (xs : List A)
      → count_if q (update_where p f xs) + count_if (λ x. p x && q x) xs
        ≡ count_if q xs + count_if (λ x. p x && q (f x)) xs
  count_if-update_where p q f [] = omega arith
  count_if-update_where p q f (x ∷ xs) = ground (arith, count_if-update_where p q f xs)

  pub count_if-zero : (p : A → Bool) (xs : List A) → ((x : A) → p x ≡ false) → count_if p xs ≡ 0
  count_if-zero p [] h = omega arith
  count_if-zero p (x ∷ xs) h = rw (h x) (count_if-zero p xs h)

  pub count_if-ext :
      (p q : A → Bool) (xs : List A) → ((x : A) → p x ≡ q x) → count_if p xs ≡ count_if q xs
  count_if-ext p q [] h = omega arith
  count_if-ext p q (x ∷ xs) h = ground (arith, h x, count_if-ext p q xs h)

  pub count_if_mono :
      (p q : A → Bool) (xs : List A)
      → ((x : A) → p x ≡ true → q x ≡ true)
      → count_if p xs ≤ count_if q xs
  count_if_mono p q [] h = omega arith
  count_if_mono p q (x ∷ xs) h = ground (arith, h x, count_if_mono p q xs h)

  pub All-update_where {κ ι} :
      (P : A → Type κ) (Q : A → Type ι) (p : A → Bool) (f : A → A) (xs : List A)
      → ((x : A) → p x ≡ true → P x → Q (f x))
      → ((x : A) → p x ≡ false → P x → Q x)
      → All P xs
      → All Q (update_where p f xs)
  All-update_where P Q p f [] hit miss a = tt
  All-update_where P Q p f (x ∷ xs) hit miss (px, a) =
      let rest = All-update_where P Q p f xs hit miss a in
      elim (Bool-cases (p x)) [
        | inl yes' ↦ rw yes' (hit x yes' px, rest)
        | inr no' ↦ rw no' (miss x no' px, rest)
      ]

  pub All-map {κ ι} :
      (P : A → Type κ) (Q : A → Type ι) (xs : List A) → ((x : A) → P x → Q x) → All P xs → All Q xs
  All-map P Q [] h a = tt
  All-map P Q (x ∷ xs) h (px, a) = (h x px, All-map P Q xs h a)
