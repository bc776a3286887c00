-- ===== src/Go/Text.antt =====
-- What the source uses of `strings` and of `fmt` on texts: `Split` at one character, `ToLower`, and
-- `%d`.
pub mod Order
pub mod Split
pub mod Decimal
use Prim.Native.Char.{code}
use Prim.Native.String.{[], ◌∷◌}
use io_t_fleet_management.Prelude.{
  ℕ, ◌+◌, Bool, true, false, ◌&&◌, String, List, [], ◌∷◌, leb, nat_eq, if◌then◌else◌,
}

-- The code points of a text.
abbrev pub codes : String → List ℕ
codes [] = []
codes (c ∷ s) = code c ∷ codes s

abbrev lower : ℕ → ℕ
lower c = if leb b'A' c && leb c b'Z' then c + 32 else c

-- `strings.ToLower`, as code points. Only the letters A to Z are changed: of the other characters,
-- those with a lower case form in ASCII are U+0130 (i) and U+212A (k), and the source compares the
-- result with "true" and "open" only.
unfoldable pub to_lower : String → List ℕ
to_lower [] = []
to_lower (c ∷ s) = lower (code c) ∷ to_lower s

unfoldable pub eq_codes : List ℕ → List ℕ → Bool
eq_codes [] [] = true
eq_codes (a ∷ xs) (b ∷ ys) = nat_eq a b && eq_codes xs ys
eq_codes _ _ = false

-- `strings.ToLower(s) == t`, for a text `t` of lower case letters.
abbrev pub lower_eq : String → String → Bool
lower_eq s t = eq_codes (to_lower s) (codes t)
