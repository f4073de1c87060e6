-- ===== src/Base58/Alphabet.antt =====
-- The alphabets of CoinCore/src/encodings.h.
use coin_vault.Common.{
  Bytes, length, at, ℕ, ◌<◌, ◌≡◌, refl, ap, Bool, true, false, Option, none, some, [], ◌∷◌, ◌==◌,
  ==-true, passes_below, passes_below-at, Result, fault, stuck, err, ok,
}
use Prim.Native.Char.{code}
use Prim.Native.String.{String}
use coin_vault.Base58.{strchr}

-- The alphabet has 58 different characters.
abbrev pub IsAlphabet : Bytes → Type 0
IsAlphabet chars =
    (length chars ≡ 58)
    × ((d : ℕ) → d < 58 → (c : ℕ) × (at chars d ≡ ok c) × (strchr chars c ≡ some d))

-- The characters of a text.
abbrev codes : String → Bytes
codes String.[] = []
codes (String.◌∷◌ c s) = code c ∷ codes s

abbrev pub bitcoin_base58_chars : Bytes
bitcoin_base58_chars = codes "123456789ABCDEFGHJKLMNPQRSTUVWXYZabcdefghijkmnopqrstuvwxyz"

abbrev pub ripple_base58_chars : Bytes
ripple_base58_chars = codes "rpshnaf39wBUDNEGHJKLM4PQRST7VWXYZ2bcdeCg65jkm8oFqi1tuvAxyz"

is_position : ℕ → Option ℕ → Bool
is_position d none = false
is_position d (some p) = p == d

is_digit : Bytes → ℕ → Result ℕ → Bool
unfolding is_position
is_digit chars d (ok c) = is_position d (strchr chars c)
is_digit chars d fault = false
is_digit chars d stuck = false
is_digit chars d (err e) = false

position_lem : (d : ℕ) (o : Option ℕ) → is_position d o ≡ true → o ≡ some d
unfolding is_position
position_lem d none e = cc
position_lem d (some p) e = ap some (==-true p d e)

digit_lem :
    (chars : Bytes) (d : ℕ) (r : Result ℕ)
    → is_digit chars d r ≡ true
    → (c : ℕ) × (r ≡ ok c) × (strchr chars c ≡ some d)
unfolding is_digit
digit_lem chars d (ok c) e = (c, refl, position_lem d (strchr chars c) e)
digit_lem chars d fault e = cc
digit_lem chars d stuck e = cc
digit_lem chars d (err x) e = cc

-- Every character of a list of 58 characters is where it is looked for.
table-IsAlphabet :
    (chars : Bytes)
    → length chars ≡ 58
    → passes_below (λ d. is_digit chars d (at chars d)) 58 ≡ true
    → IsAlphabet chars
table-IsAlphabet chars l table = (
  l,
  λ d h.
      digit_lem chars d (at chars d)
        (passes_below-at (λ d. is_digit chars d (at chars d)) 58 d h table),
)

pub bitcoin_base58_chars-IsAlphabet : IsAlphabet bitcoin_base58_chars
unfolding passes_below is_digit at strchr
bitcoin_base58_chars-IsAlphabet = table-IsAlphabet bitcoin_base58_chars refl refl

pub ripple_base58_chars-IsAlphabet : IsAlphabet ripple_base58_chars
unfolding passes_below is_digit at strchr
ripple_base58_chars-IsAlphabet = table-IsAlphabet ripple_base58_chars refl refl
