-- ===== src/Go/Text/Order.antt =====
-- `cmp.Compare` of two strings: the order by their codes, which is that of UTF-8.
use Prim.Native.Nat.compare as compare_ℕ
use Prim.Native.Nat.{Ordering, compare as compare_ℕ}
use Prim.Native.Char.{code}
use Prim.Native.String.compare
use Prim.Native.String.{[], ◌∷◌, compare, then}
use text.Mathlib.TextEquality.{path_by_compare}
use io_t_fleet_management.Prelude.{
  Bool-cases, eq_iff, ◌==◌, false, subst, ℕ, zero, suc, ◌<◌, ◌≡◌, refl, sym, ap, ◌∙◌, String, inl,
  inr, ◌⊎◌, arith,
}

-- One text comes after another.
pub After : String → String → Type 0
After [] t = ⊥
After (c ∷ s) [] = Unit
After (c ∷ s) (d ∷ t) = (code d < code c) ⊎ ((code c ≡ code d) × After s t)

pub After-trans : (s t u : String) → After s t → After t u → After s u
unfolding After
After-trans [] t u h k = absurd h
After-trans (c ∷ s) [] u h k = absurd k
After-trans (c ∷ s) (d ∷ t) [] h k = tt
After-trans (c ∷ s) (d ∷ t) (e ∷ u) (inl h) (inl k) = inl (omega arith)
After-trans (c ∷ s) (d ∷ t) (e ∷ u) (inl h) (inr k) = inl (let p = k.0 in omega arith)
After-trans (c ∷ s) (d ∷ t) (e ∷ u) (inr h) (inl k) = inl (let p = h.0 in omega arith)
After-trans (c ∷ s) (d ∷ t) (e ∷ u) (inr h) (inr k) = inr (h.0 ∙ k.0, After-trans s t u h.1 k.1)

pub After-irrefl : (s : String) → ¬ After s s
unfolding After
After-irrefl [] h = h
After-irrefl (c ∷ s) (inl h) = omega arith
After-irrefl (c ∷ s) (inr h) = After-irrefl s h.1

numbers :
    (a b : ℕ)
    → ((a < b) × (compare_ℕ a b ≡ Ordering.lt))
      ⊎ ((a ≡ b) × (compare_ℕ a b ≡ Ordering.eq))
      ⊎ ((b < a) × (compare_ℕ a b ≡ Ordering.gt))
numbers zero zero = inr (inl (refl, compare_ℕ.zero-zero))
numbers zero (suc b) = inl (omega arith, compare_ℕ.zero-suc b)
numbers (suc a) zero = inr (inr (omega arith, compare_ℕ.suc-zero a))
numbers (suc a) (suc b) = elim (numbers a b) [
  | inl h ↦ let (n, e) = h in inl (omega arith, compare_ℕ.suc-suc a b ∙ e)
  | inr (inl h) ↦ inr (inl (ap suc h.0, compare_ℕ.suc-suc a b ∙ h.1))
  | inr (inr h) ↦ let (n, e) = h in inr (inr (omega arith, compare_ℕ.suc-suc a b ∙ e))
]

-- The three answers of the comparison.
pub compare_cases :
    (s t : String)
    → ((compare s t ≡ Ordering.lt) × After t s)
      ⊎ ((compare s t ≡ Ordering.eq) × (s ≡ t))
      ⊎ ((compare s t ≡ Ordering.gt) × After s t)
unfolding After
compare_cases [] [] = inr (inl (refl, refl))
compare_cases [] (d ∷ t) = inl (compare.nil-cons d t, tt)
compare_cases (c ∷ s) [] = inr (inr (compare.cons-nil c s, tt))
compare_cases (c ∷ s) (d ∷ t) = elim (numbers (code c) (code d)) [
  | inl n ↦ inl (compare.cons-cons c d s t ∙ ap (λ o. then o (compare s t)) n.1, inl n.0)
  | inr (inr n) ↦
      inr (inr (compare.cons-cons c d s t ∙ ap (λ o. then o (compare s t)) n.1, inl n.0))
  | inr (inl n) ↦
      let first = compare.cons-cons c d s t ∙ ap (λ o. then o (compare s t)) n.1 in
      elim (compare_cases s t) [
        | inl h ↦ inl (first ∙ h.0, inr (sym n.0, h.1))
        | inr (inl h) ↦ let e = first ∙ h.0 in inr (inl (e, path_by_compare (c ∷ s) (d ∷ t) e))
        | inr (inr h) ↦ inr (inr (first ∙ h.0, inr (n.0, h.1)))
      ]
]

pub not_equal : (s t : String) → ¬ s ≡ t → s == t ≡ false
not_equal s t h = elim (Bool-cases (s == t)) [ inl e ↦ absurd (h ((eq_iff s t).0 e)) | inr e ↦ e ]

pub decide-After : (s t : String) → After s t ⊎ (¬ After s t)
decide-After s t = elim (compare_cases s t) [
  | inl k ↦ inr (λ h. After-irrefl s (After-trans s t s h k.1))
  | inr (inl k) ↦ inr (λ h. After-irrefl t (subst (λ u. After u t) k.1 h))
  | inr (inr k) ↦ inl k.1
]
