-- ===== src/Http/Range.antt =====
-- The value of a Range header as adapters/http.go writes it, and a reader of such values.
use webfs.Base.{
  ℕ, zero, suc, ◌+◌, ◌-◌, ◌*◌, ◌/◌, ◌%◌, ◌<◌, ◌≡◌, refl, ap, sym, ◌∙◌, inl, inr, Bool, true, ◌&&◌,
  Option, none, some, [], ◌∷◌, ◌++◌, leb, ltb, nat_beq, if◌then◌else◌, All, Bool-cases, arith,
}
use mathlib.Core.List.{append-nil}
use webfs.Base.Int.{ℤ, pos, negsuc}
use webfs.Base.Maps.{Text}
use webfs.Paths.{codes}

-- The digits of a number, as fmt's %d writes them; fuel above the number is enough.
unfoldable pub digits : ℕ → ℕ → Text
digits zero n = []
digits (suc fuel) n =
    let front = digits fuel (n / 10) in (if ltb n 10 then [] else front) ++ (b'0' + n % 10) ∷ []

unfoldable pub decimal : ℕ → Text
unfolding digits
decimal n = digits (suc n) n

unfoldable pub signed_decimal : ℤ → Text
unfolding decimal
signed_decimal (pos n) = decimal n
signed_decimal (negsuc n) = b'-' ∷ decimal (suc n)

-- fmt.Sprintf("bytes=%d-%d", first, last)
unfoldable pub range_text : ℤ → ℤ → Text
unfolding signed_decimal
range_text first last = codes "bytes=" ++ (signed_decimal first ++ (b'-' ∷ signed_decimal last))

-- A reader of such a value, as RFC 9110 describes an int-range.
abbrev is_digit : ℕ → Bool
is_digit c = leb b'0' c && leb c b'9'

unfoldable pub read_number : ℕ → Text → ℕ × Text
read_number acc [] = (acc, [])
read_number acc (c ∷ s) =
    let rest = read_number (acc * 10 + (c - b'0')) s in if is_digit c then rest else (acc, c ∷ s)

skip_prefix : Text → Text → Option Text
skip_prefix [] s = some s
skip_prefix (c ∷ p) [] = none
skip_prefix (c ∷ p) (d ∷ s) = let rest = skip_prefix p s in if nat_beq c d then rest else none

after_first : ℕ × Text → Option (ℕ × ℕ)
after_first (first, []) = none
after_first (first, c ∷ s) =
    if nat_beq c b'-'
    then (let (last, rest) = read_number 0 s in
        elim rest [ [] ↦ some (first, last) | d ∷ r ↦ none ])
    else none

unfoldable pub parse_range : Text → Option (ℕ × ℕ)
unfolding skip_prefix after_first read_number
parse_range s = elim (skip_prefix (codes "bytes=") s) [
  | none ↦ none
  | some t ↦ after_first (read_number 0 t)
]

abbrev IsDigits : Text → Type 0
IsDigits = All (λ c. is_digit c ≡ true)

-- The value that the digits of a text give after `acc`.
value : ℕ → Text → ℕ
value acc [] = acc
value acc (c ∷ s) = value (acc * 10 + (c - b'0')) s

value-snoc : (acc : ℕ) (s : Text) (c : ℕ) → value acc (s ++ c ∷ []) ≡ value acc s * 10 + (c - b'0')
unfolding value
value-snoc acc [] c = refl
value-snoc acc (d ∷ s) c = value-snoc (acc * 10 + (d - b'0')) s c

read_number-append :
    (acc : ℕ) (s rest : Text)
    → IsDigits s
    → read_number acc (s ++ rest) ≡ read_number (value acc s) rest
unfolding read_number value
read_number-append acc [] rest h = refl
read_number-append acc (c ∷ s) rest h =
    rw (h.0) (read_number-append (acc * 10 + (c - b'0')) s rest h.1)

IsDigits-snoc : (s : Text) (c : ℕ) → IsDigits s → is_digit c ≡ true → IsDigits (s ++ c ∷ [])
IsDigits-snoc [] c h e = (e, tt)
IsDigits-snoc (d ∷ s) c h e = (h.0, IsDigits-snoc s c h.1 e)

digits-IsDigits : (fuel n : ℕ) → IsDigits (digits fuel n)
unfolding digits
digits-IsDigits zero n = tt
digits-IsDigits (suc fuel) n = elim (Bool-cases (ltb n 10)) [
  | inl small ↦ rw small ((ground arith, tt))
  | inr more ↦ rw more (
      IsDigits-snoc (digits fuel (n / 10)) (b'0' + n % 10) (digits-IsDigits fuel (n / 10))
        (ground arith))
]

value-digits : (fuel n : ℕ) → n < fuel → value 0 (digits fuel n) ≡ n
unfolding digits value
value-digits zero n h = elim h [ ]
value-digits (suc fuel) n h = elim (Bool-cases (ltb n 10)) [
  | inl small ↦ rw small (ground arith)
  | inr more ↦
      let front : value 0 (digits fuel (n / 10)) ≡ n / 10 =
        value-digits fuel (n / 10) (ground arith) in
      rw (more, value-snoc 0 (digits fuel (n / 10)) (b'0' + n % 10)) (omega (arith, front))
]

read_number-decimal : (n : ℕ) (rest : Text) → read_number 0 (decimal n ++ rest) ≡ read_number n rest
unfolding decimal
read_number-decimal n rest =
    read_number-append 0 (digits (suc n) n) rest (digits-IsDigits (suc n) n)
    ∙ ap (λ k. read_number k rest) (value-digits (suc n) n (omega arith))

-- The value of the Range header that asks for non-negative positions is read back as these two
-- positions.
pub parse_range-range_text :
    (first last : ℕ) → parse_range (range_text (pos first) (pos last)) ≡ some (first, last)
unfolding parse_range range_text signed_decimal skip_prefix
parse_range-range_text first last =
    let front = read_number-decimal first (b'-' ∷ decimal last) in
    let back = read_number-decimal last [] in
    let whole : decimal last ++ [] ≡ decimal last = append-nil (decimal last) in
    let final : read_number 0 (decimal last) ≡ (last, []) =
      ap (read_number 0) (sym whole) ∙ back ∙ (unfold read_number in refl) in
    let stop : read_number first (b'-' ∷ decimal last) ≡ (first, b'-' ∷ decimal last) =
      unfold read_number in refl in
    ap after_first (front ∙ stop)
    ∙ (unfold after_first in rw (ap (λ x. x.1) final, ap (λ x. x.0) final))
