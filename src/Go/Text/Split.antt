-- ===== src/Go/Text/Split.antt =====
-- `strings.Split(s, "/")`, and joining the parts again.
use Prim.Native.Char.{Char, code}
use Prim.Native.String
use Prim.Native.String.{[], ◌∷◌}
use mathlib.Core.Path.{ap₂}
use text.Mathlib.TextEquality.{Char-path}
use text.Mathlib.TextLemmas.{nil-append, cons-append}
use io_t_fleet_management.Prelude.{
  ◌≡◌, ◌↔◌, refl, ◌≢◌, sym, ap, ◌∙◌, false, All, arith, nat_eq, if◌then◌else◌, String, List, [],
  ◌∷◌, Bool-cases, inl, inr,
}

abbrev pub slash : Char
slash = "/"

-- The first part and the others.
cut : String → String × List String
cut [] = ([], [])
cut (c ∷ s) = let (p, ps) = cut s in if nat_eq (code c) b'/' then ([], p ∷ ps) else (c ∷ p, ps)

unfoldable pub split : String → List String
unfolding cut
split s = let (p, ps) = cut s in p ∷ ps

-- The parts with a separator between any two.
unfoldable pub join : String → List String → String
join p [] = p
join p (q ∷ ps) = String.◌++◌ p (slash ∷ join q ps)

abbrev pub NoSlash : String → Type 0
NoSlash [] = Unit
NoSlash (c ∷ s) = (code c ≢ b'/') × NoSlash s

cut-NoSlash : (s : String) → NoSlash (cut s).0 × All NoSlash (cut s).1
unfolding cut
cut-NoSlash [] = (tt, tt)
cut-NoSlash (c ∷ s) = elim (Bool-cases (nat_eq (code c) b'/')) [
  | inl e ↦ rw e (tt, cut-NoSlash s)
  | inr e ↦ rw e ((ground arith, (cut-NoSlash s).0), (cut-NoSlash s).1)
]

join-cons : (c : Char) (p : String) (ps : List String) → join (c ∷ p) ps ≡ c ∷ join p ps
unfolding join
join-cons c p [] = refl
join-cons c p (q ∷ ps) = cons-append c p _

join-nil : (p : String) (ps : List String) → join [] (p ∷ ps) ≡ slash ∷ join p ps
unfolding join
join-nil p ps = nil-append _

join-cut : (s : String) → join (cut s).0 (cut s).1 ≡ s
unfolding cut
join-cut [] = unfold join in refl
join-cut (c ∷ s) = elim (Bool-cases (nat_eq (code c) b'/')) [
  | inl e ↦
      let same : c ≡ slash = Char-path c slash (ground arith) in
      rw e (join-nil _ _ ∙ ap₂ String.◌∷◌ (sym same) (join-cut s))
  | inr e ↦ rw e (join-cons c _ _ ∙ ap (String.◌∷◌ c) (join-cut s))
]

cut_of_NoSlash : (p : String) → NoSlash p → cut p ≡ (p, [])
unfolding cut
cut_of_NoSlash [] h = refl
cut_of_NoSlash (c ∷ p) (h, hs) =
    let e : nat_eq (code c) b'/' ≡ false = ground arith in rw (e, cut_of_NoSlash p hs)

cut_at_slash :
    (p rest : String)
    → NoSlash p
    → cut (String.◌++◌ p (slash ∷ rest)) ≡ (p, (cut rest).0 ∷ (cut rest).1)
unfolding cut
cut_at_slash [] rest h = rw nil-append
cut_at_slash (c ∷ p) rest (h, hs) =
    let e : nat_eq (code c) b'/' ≡ false = ground arith in
    rw (cons-append c p _, e, cut_at_slash p rest hs)

cut-join : (p : String) (ps : List String) → NoSlash p → All NoSlash ps → cut (join p ps) ≡ (p, ps)
unfolding join
cut-join p [] h hs = cut_of_NoSlash p h
cut-join p (q ∷ ps) h (k, ks) = rw (cut_at_slash p (join q ps) h, cut-join q ps k ks)

-- A text splits into the given parts exactly when it is those parts, none of which holds a
-- separator, with separators between them.
pub split_iff :
    (s p : String) (ps : List String)
    → (split s ≡ p ∷ ps) ↔ ((s ≡ join p ps) × NoSlash p × All NoSlash ps)
unfolding split
split_iff s p ps = (
  λ e.
      let first : (cut s).0 ≡ p = cc in
      let others : (cut s).1 ≡ ps = cc in
      let (a, b) = cut-NoSlash s in
      (rw (← first, ← others) (sym (join-cut s)), rw first at a, rw others at b),
  λ (e, h, hs). rw (e, cut-join p ps h hs),
)
