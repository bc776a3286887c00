-- ===== src/Telemetry/Charts/Insertion.antt =====
-- analytics.go: sorting the points of a chart.
use mathlib.Core.List.{Permᴰ}
use Prim.Native.Nat.{Ordering}
use io_t_fleet_management.Prelude.{
  [], ◌∷◌, refl, inl, inr, List, ◌≡◌, ◌∙◌, ap, sym, subst, All, All-perm,
}
use io_t_fleet_management.Go.Text.Order.{
  decide-After, After, After-trans, After-irrefl, compare_cases,
}
use io_t_fleet_management.Telemetry.Charts.{ChartPoint, insert_point, sort_points}

module _ {F : Type 0} where
  -- Where a point goes, for the comparison with the first one.
  abbrev placed : ChartPoint F → ChartPoint F → List (ChartPoint F) → Ordering → List (ChartPoint F)
  placed p q chart o = elim o [ Ordering.gt ↦ p ∷ q ∷ chart | _ ↦ q ∷ insert_point p chart ]

  insert_before :
      (p q : ChartPoint F) (chart : List (ChartPoint F))
      → After q.label p.label
      → insert_point p (q ∷ chart) ≡ p ∷ q ∷ chart
  unfolding insert_point
  insert_before p q chart h = elim (compare_cases q.label p.label) [
    | inl k ↦ absurd (After-irrefl p.label (After-trans p.label q.label p.label k.1 h))
    | inr (inl k) ↦ absurd (After-irrefl p.label (subst (λ s. After s p.label) k.1 h))
    | inr (inr k) ↦ ap (placed p q chart) k.0
  ]

  insert-After :
      (p q : ChartPoint F) (chart : List (ChartPoint F))
      → ¬ After q.label p.label
      → insert_point p (q ∷ chart) ≡ q ∷ insert_point p chart
  unfolding insert_point
  insert-After p q chart h = elim (compare_cases q.label p.label) [
    | inl k ↦ ap (placed p q chart) k.0
    | inr (inl k) ↦ ap (placed p q chart) k.0
    | inr (inr k) ↦ absurd (h k.1)
  ]

  insert_first :
      (p q r : ChartPoint F) (chart : List (ChartPoint F))
      → After p.label q.label
      → After r.label q.label
      → insert_point q (insert_point p (r ∷ chart)) ≡ q ∷ insert_point p (r ∷ chart)
  insert_first p q r chart h k = elim (decide-After r.label p.label) [
    | inl j ↦
        let e = insert_before p r chart j in
        ap (insert_point q) e ∙ insert_before q p (r ∷ chart) h ∙ ap (λ xs. q ∷ xs) (sym e)
    | inr j ↦
        let e = insert-After p r chart j in
        ap (insert_point q) e
        ∙ insert_before q r (insert_point p chart) k
        ∙ ap (λ xs. q ∷ xs) (sym e)
  ]

  insert_swap-After :
      (p q : ChartPoint F) (chart : List (ChartPoint F))
      → After p.label q.label
      → insert_point p (insert_point q chart) ≡ insert_point q (insert_point p chart)
  unfolding insert_point
  insert_swap-After p q [] h =
      insert-After p q [] (λ k. After-irrefl p.label (After-trans p.label q.label p.label h k))
      ∙ sym (insert_before q p [] h)
  insert_swap-After p q (r ∷ chart) h =
      let later = insert_swap-After p q chart h in
      elim (decide-After r.label q.label) [
        | inl k ↦
            ap (insert_point p) (insert_before q r chart k)
            ∙ insert-After p q (r ∷ chart)
                (λ j. After-irrefl p.label (After-trans p.label q.label p.label h j))
            ∙ sym (insert_first p q r chart h k)
        | inr k ↦
            let j : ¬ After r.label p.label = λ i. k (After-trans r.label p.label q.label i h) in
            ap (insert_point p) (insert-After q r chart k)
            ∙ insert-After p r (insert_point q chart) j
            ∙ ap (λ xs. r ∷ xs) later
            ∙ sym (insert-After q r (insert_point p chart) k)
            ∙ sym (ap (insert_point q) (insert-After p r chart j))
      ]

  insert_swap :
      (p q : ChartPoint F) (chart : List (ChartPoint F))
      → (p.label ≡ q.label → p ≡ q)
      → insert_point p (insert_point q chart) ≡ insert_point q (insert_point p chart)
  insert_swap p q chart same = elim (compare_cases p.label q.label) [
    | inl k ↦ sym (insert_swap-After q p chart k.1)
    | inr (inl k) ↦
        ap (λ x. insert_point x (insert_point q chart)) (same k.1)
        ∙ ap (λ x. insert_point q (insert_point x chart)) (sym (same k.1))
    | inr (inr k) ↦ insert_swap-After p q chart k.1
  ]

  module _ (P : ChartPoint F → Type 0)
      (agree : (p q : ChartPoint F) → P p → P q → p.label ≡ q.label → p ≡ q) where
    pub sort_points-perm :
        (xs ys : List (ChartPoint F)) → Permᴰ xs ys → All P xs → sort_points xs ≡ sort_points ys
    unfolding sort_points
    sort_points-perm _ _ Permᴰ.nil h = refl
    sort_points-perm _ _ (Permᴰ.cons {a = a} {b = b} {l₁ = xs} {l₂ = ys} e p) h =
        ap (insert_point a) (sort_points-perm xs ys p h.1)
        ∙ ap (λ x. insert_point x (sort_points ys)) e
    sort_points-perm _ _ (Permᴰ.swap {a = a} {b = b} {a' = a'} {l = l} e f) h =
        insert_swap a b (sort_points l) (agree a b h.0 h.1.0)
        ∙ ap (λ x. insert_point x (insert_point a (sort_points l))) f
        ∙ ap (λ x. insert_point a' (insert_point x (sort_points l))) e
    sort_points-perm _ _ (Permᴰ.trans {l₁ = xs} {l₂ = ys} {l₃ = zs} p q) h =
        sort_points-perm xs ys p h ∙ sort_points-perm ys zs q (All-perm P p h)
