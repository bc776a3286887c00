-- ===== src/Go/Text/Decimal.antt =====
-- `%d`: the decimal digits of a number, behind a minus sign if it is negative.
use Prim.Native.Char.{Char, code}
use Prim.Native.String
use Prim.Native.String.{[], ◌∷◌}
use mathlib.Core.Path.{ap₂}
use text.Mathlib.TextLemmas.{
  nil-append, cons-append, append_cancel_left, tail-eq_of_cons-eq, head-eq_of_cons-eq,
}
use io_t_fleet_management.Prelude.{
  ℕ, zero, suc, ◌+◌, ◌-◌, ◌*◌, ◌/◌, ◌%◌, ◌<◌, ◌≤◌, ◌≡◌, ◌≢◌, refl, sym, ap, ◌∙◌, arith, ltb,
  if◌then◌else◌, String, Bool-cases, inl, inr, nat_eq, false,
}
use io_t_fleet_management.Prelude.Int.{ℤ, pos, negsuc}

abbrev digit : ℕ → String
digit zero = "0"
digit (suc zero) = "1"
digit (suc (suc zero)) = "2"
digit (suc (suc (suc zero))) = "3"
digit (suc (suc (suc (suc zero)))) = "4"
digit (suc (suc (suc (suc (suc zero))))) = "5"
digit (suc (suc (suc (suc (suc (suc zero)))))) = "6"
digit (suc (suc (suc (suc (suc (suc (suc zero))))))) = "7"
digit (suc (suc (suc (suc (suc (suc (suc (suc zero)))))))) = "8"
digit (suc (suc (suc (suc (suc (suc (suc (suc (suc n))))))))) = "9"

-- The digits of `n`, if `n` is below the fuel.
digits : ℕ → ℕ → String
digits zero n = ""
digits (suc f) n =
    let front = digits f (n / 10) in
    if ltb n 10 then digit n else String.◌++◌ front (digit (n % 10))

unfoldable pub decimal : ℕ → String
unfolding digits
decimal n = digits (suc n) n

unfoldable pub decimal_ℤ : ℤ → String
unfolding decimal
decimal_ℤ (pos n) = decimal n
decimal_ℤ (negsuc n) = String.◌++◌ "-" (decimal (suc n))

-- The number that a text of digits spells, behind the number `acc`.
value : ℕ → String → ℕ
value acc [] = acc
value acc (c ∷ s) = value (acc * 10 + (code c - b'0')) s

value-append : (s t : String) (acc : ℕ) → value acc (String.◌++◌ s t) ≡ value (value acc s) t
unfolding value
value-append [] t acc = rw nil-append
value-append (c ∷ s) t acc = rw cons-append (value-append s t _)

value-digit : (d acc : ℕ) → d < 10 → value acc (digit d) ≡ acc * 10 + d
unfolding value
value-digit zero acc h = refl
value-digit (suc zero) acc h = refl
value-digit (suc (suc zero)) acc h = refl
value-digit (suc (suc (suc zero))) acc h = refl
value-digit (suc (suc (suc (suc zero)))) acc h = refl
value-digit (suc (suc (suc (suc (suc zero))))) acc h = refl
value-digit (suc (suc (suc (suc (suc (suc zero)))))) acc h = refl
value-digit (suc (suc (suc (suc (suc (suc (suc zero))))))) acc h = refl
value-digit (suc (suc (suc (suc (suc (suc (suc (suc zero)))))))) acc h = refl
value-digit (suc (suc (suc (suc (suc (suc (suc (suc (suc zero))))))))) acc h = refl
value-digit (suc (suc (suc (suc (suc (suc (suc (suc (suc (suc n)))))))))) acc h =
    absurd (omega arith)

value-digits : (f n : ℕ) → n < f → value 0 (digits f n) ≡ n
unfolding digits
value-digits zero n h = absurd (omega arith)
value-digits (suc f) n h = elim (Bool-cases (ltb n 10)) [
  | inl small ↦ rw small (rw (value-digit n 0 (ground arith)) (omega arith))
  | inr large ↦
      rw (large, value-append, value-digits f (n / 10) (ground arith))
        (rw (value-digit (n % 10) (n / 10) (omega arith)) (omega arith))
]

pub decimal-injective : (m n : ℕ) → decimal m ≡ decimal n → m ≡ n
unfolding decimal
decimal-injective m n e =
    sym (value-digits (suc m) m (omega arith))
    ∙ ap (value 0) e
    ∙ value-digits (suc n) n (omega arith)

-- Every character has a code in the given set.
abbrev pub AllCodes : (ℕ → Type 0) → String → Type 0
AllCodes P [] = Unit
AllCodes P (c ∷ s) = P (code c) × AllCodes P s

abbrev pub IsDigit : ℕ → Type 0
IsDigit c = (b'0' ≤ c) × (c ≤ b'9')

AllCodes-append :
    (P : ℕ → Type 0) (s t : String) → AllCodes P s → AllCodes P t → AllCodes P (String.◌++◌ s t)
AllCodes-append P [] t _ q = rw nil-append q
AllCodes-append P (c ∷ s) t (p, ps) q = rw cons-append (p, AllCodes-append P s t ps q)

digit-IsDigit : (d : ℕ) → AllCodes IsDigit (digit d)
digit-IsDigit zero = omega arith
digit-IsDigit (suc zero) = omega arith
digit-IsDigit (suc (suc zero)) = omega arith
digit-IsDigit (suc (suc (suc zero))) = omega arith
digit-IsDigit (suc (suc (suc (suc zero)))) = omega arith
digit-IsDigit (suc (suc (suc (suc (suc zero))))) = omega arith
digit-IsDigit (suc (suc (suc (suc (suc (suc zero)))))) = omega arith
digit-IsDigit (suc (suc (suc (suc (suc (suc (suc zero))))))) = omega arith
digit-IsDigit (suc (suc (suc (suc (suc (suc (suc (suc zero)))))))) = omega arith
digit-IsDigit (suc (suc (suc (suc (suc (suc (suc (suc (suc n))))))))) = omega arith

digits-IsDigit : (f n : ℕ) → AllCodes IsDigit (digits f n)
unfolding digits
digits-IsDigit zero n = tt
digits-IsDigit (suc f) n = elim (Bool-cases (ltb n 10)) [
  | inl small ↦ rw small (digit-IsDigit n)
  | inr large ↦
      rw large (AllCodes-append IsDigit _ _ (digits-IsDigit f (n / 10)) (digit-IsDigit (n % 10)))
]

pub decimal-IsDigit : (n : ℕ) → AllCodes IsDigit (decimal n)
unfolding decimal
decimal-IsDigit n = digits-IsDigit (suc n) n

-- A decimal text never starts with a minus sign.
minus-ne-decimal : (m : ℕ) (s : String) → String.◌++◌ "-" s ≢ decimal m
minus-ne-decimal m s e =
    let h : AllCodes IsDigit (String.◌++◌ "-" s) = rw e (decimal-IsDigit m) in
    let h' : AllCodes IsDigit ("-" ∷ String.◌++◌ [] s) = rw cons-append at h in absurd (omega arith)

pub decimal_ℤ-injective : (a b : ℤ) → decimal_ℤ a ≡ decimal_ℤ b → a ≡ b
unfolding decimal_ℤ
decimal_ℤ-injective (pos m) (pos n) e = ap pos (decimal-injective m n e)
decimal_ℤ-injective (pos m) (negsuc n) e = absurd (minus-ne-decimal m _ (sym e))
decimal_ℤ-injective (negsuc m) (pos n) e = absurd (minus-ne-decimal n _ e)
decimal_ℤ-injective (negsuc m) (negsuc n) e =
    let same = decimal-injective (suc m) (suc n) (append_cancel_left "-" _ _ e) in
    ap negsuc (omega arith)

AllCodes-mono :
    (P Q : ℕ → Type 0) → ((c : ℕ) → P c → Q c) → (s : String) → AllCodes P s → AllCodes Q s
AllCodes-mono P Q h [] _ = tt
AllCodes-mono P Q h (c ∷ s) (p, ps) = (h (code c) p, AllCodes-mono P Q h s ps)

abbrev pub IsNot : ℕ → ℕ → Type 0
IsNot a c = c ≢ a

pub decimal_ℤ-IsNot_hash : (a : ℤ) → AllCodes (IsNot b'#') (decimal_ℤ a)
unfolding decimal_ℤ
decimal_ℤ-IsNot_hash (pos n) =
    AllCodes-mono IsDigit (IsNot b'#') (λ c h. omega arith) _ (decimal-IsDigit n)
decimal_ℤ-IsNot_hash (negsuc n) =
    AllCodes-append (IsNot b'#') "-" _ (omega arith)
      (AllCodes-mono IsDigit (IsNot b'#') (λ c h. omega arith) _ (decimal-IsDigit (suc n)))

abbrev pub hash : Char
hash = "#"

AllCodes-suffix : (P : ℕ → Type 0) (s t : String) → AllCodes P (String.◌++◌ s t) → AllCodes P t
AllCodes-suffix P [] t h = rw nil-append at h
AllCodes-suffix P (c ∷ s) t h =
    let h' : AllCodes P (c ∷ String.◌++◌ s t) = rw cons-append at h in AllCodes-suffix P s t h'.1

hash_inside_false : (s d e : String) → d ≡ String.◌++◌ s (hash ∷ e) → ¬ AllCodes (IsNot b'#') d
hash_inside_false s d e h k = (AllCodes-suffix (IsNot b'#') s (hash ∷ e) (rw h at k)).0 refl

-- The last `#` tells where a key ends.
pub append-hash-injective :
    (a b d e : String)
    → AllCodes (IsNot b'#') d
    → AllCodes (IsNot b'#') e
    → String.◌++◌ a (hash ∷ d) ≡ String.◌++◌ b (hash ∷ e)
    → (a ≡ b) × (d ≡ e)
append-hash-injective [] [] d e hd he h =
    (refl, tail-eq_of_cons-eq (sym (nil-append _) ∙ h ∙ nil-append _))
append-hash-injective [] (c ∷ b) d e hd he h =
    let t = tail-eq_of_cons-eq (sym (nil-append _) ∙ h ∙ cons-append c b _) in
    absurd (hash_inside_false b d e t hd)
append-hash-injective (c ∷ a) [] d e hd he h =
    let t = tail-eq_of_cons-eq (sym (nil-append _) ∙ sym h ∙ cons-append c a _) in
    absurd (hash_inside_false a e d t he)
append-hash-injective (c ∷ a) (c' ∷ b) d e hd he h =
    let eq = sym (cons-append c a _) ∙ h ∙ cons-append c' b _ in
    let (same, rest) = append-hash-injective a b d e hd he (tail-eq_of_cons-eq eq) in
    (ap₂ String.◌∷◌ (head-eq_of_cons-eq eq) same, rest)

-- The number that a text spells, with its sign.
unfoldable pub parse_ℤ : String → ℤ
unfolding value
parse_ℤ [] = pos 0
parse_ℤ (c ∷ s) = if nat_eq (code c) b'-' then negsuc (value 0 s - 1) else pos (value 0 (c ∷ s))

parse-digits : (s : String) → AllCodes IsDigit s → parse_ℤ s ≡ pos (value 0 s)
unfolding parse_ℤ value
parse-digits [] h = refl
parse-digits (c ∷ s) (h, hs) = let e : nat_eq (code c) b'-' ≡ false = ground arith in rw e refl

value-decimal : (n : ℕ) → value 0 (decimal n) ≡ n
unfolding decimal
value-decimal n = value-digits (suc n) n (omega arith)

parse-minus : (s : String) → parse_ℤ (String.◌++◌ "-" s) ≡ negsuc (value 0 s - 1)
unfolding parse_ℤ
parse-minus s = rw cons-append (rw nil-append refl)

pub parse_ℤ-decimal_ℤ : (a : ℤ) → parse_ℤ (decimal_ℤ a) ≡ a
unfolding decimal_ℤ
parse_ℤ-decimal_ℤ (pos n) = parse-digits (decimal n) (decimal-IsDigit n) ∙ ap pos (value-decimal n)
parse_ℤ-decimal_ℤ (negsuc n) =
    let less : value 0 (decimal (suc n)) - 1 ≡ n = rw (value-decimal (suc n)) (omega arith) in
    parse-minus (decimal (suc n)) ∙ ap negsuc less
