-- ===== src/Text/Normal.antt =====
-- `strings.TrimSpace`, `strings.ToLower` and `==` on strings.
use Prim.Native.Char.{code}
use pulsesyn.Prelude.{
  ℕ, ◌+◌, ◌≡◌, refl, ◌↔◌, Bool, true, false, ◌&&◌, ◌||◌, List, [], ◌∷◌, map, String, arith, leb,
  ltb, Eq, nat_beq, if◌then◌else◌,
}

abbrev pub Text : Type 0
Text = List ℕ

-- A literal.
abbrev pub codes : String → Text
codes String.[] = []
codes (String.◌∷◌ c s) = code c ∷ codes s

abbrev text_beq : Text → Text → Bool
text_beq [] [] = true
text_beq [] (y ∷ ys) = false
text_beq (x ∷ xs) [] = false
text_beq (x ∷ xs) (y ∷ ys) = nat_beq x y && text_beq xs ys

pub text_beq_iff : (s t : Text) → (text_beq s t ≡ true) ↔ (s ≡ t)
text_beq_iff [] [] = (λ _. refl, λ _. refl)
text_beq_iff [] (y ∷ ys) = ground arith
text_beq_iff (x ∷ xs) [] = ground arith
text_beq_iff (x ∷ xs) (y ∷ ys) = ground (arith, text_beq_iff xs ys)

instance abbrev pub text_eq : Eq Text
text_eq = record { beq = text_beq; beq_iff = text_beq_iff }

-- `unicode.IsSpace`: the Latin-1 cases, and the table `White_Space` beyond them.
unfoldable pub is_space : ℕ → Bool
is_space c =
    (leb 9 c && leb c 13)
    || nat_beq c 32
    || nat_beq c 0x85
    || nat_beq c 0xA0
    || nat_beq c 0x1680
    || (leb 0x2000 c && leb c 0x200A)
    || nat_beq c 0x2028
    || nat_beq c 0x2029
    || nat_beq c 0x202F
    || nat_beq c 0x205F
    || nat_beq c 0x3000

unfoldable pub trim_left : Text → Text
trim_left [] = []
trim_left (c ∷ s) = if is_space c then trim_left s else c ∷ s

-- `c` before what is left of the text after it.
abbrev pub keep : ℕ → Text → Text
keep c [] = if is_space c then [] else c ∷ []
keep c (d ∷ r) = c ∷ d ∷ r

unfoldable pub trim_right : Text → Text
trim_right [] = []
trim_right (c ∷ s) = keep c (trim_right s)

-- `strings.TrimSpace`
unfoldable pub trim_space : Text → Text
unfolding is_space trim_left trim_right
trim_space s = trim_right (trim_left s)

-- The table of `unicode.ToLower` beyond ASCII, and what the program relies on: a lower case letter
-- is its own lower case, and only white space is mapped to white space.
pub record CaseTable : Type 0 where
  pub beyond_ascii : ℕ → ℕ

-- `unicode.ToLower`
unfoldable pub lower_rune : CaseTable → ℕ → ℕ
lower_rune u c =
    if ltb c 128 then (if leb b'A' c && leb c b'Z' then c + 32 else c) else u.beyond_ascii c

-- `strings.ToLower`
abbrev pub to_lower : ⦃u : CaseTable⦄ → Text → Text
to_lower ⦃u⦄ s = map (lower_rune u) s

-- `strings.ToLower(strings.TrimSpace(s))`
unfoldable pub normalise : ⦃u : CaseTable⦄ → Text → Text
unfolding trim_space lower_rune
normalise s = to_lower (trim_space s)

pub record IsCaseTable (u : CaseTable) : Type 0 where
  pub lower_idem : (c : ℕ) → lower_rune u (lower_rune u c) ≡ lower_rune u c
  pub lower_space : (c : ℕ) → is_space (lower_rune u c) ≡ is_space c

-- Texts of ASCII and of scripts with one case.
instance abbrev pub ascii : CaseTable
ascii = record { beyond_ascii = λ c. c }

pub ascii-IsCaseTable : IsCaseTable ascii
unfolding lower_rune is_space
ascii-IsCaseTable = record { lower_idem = λ c. ground arith; lower_space = λ c. ground arith }
