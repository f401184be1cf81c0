-- ===== src/Prelude/Text.antt =====
-- Texts as lists of bytes, and what the code uses of the packages strings, strconv and path/filepath
-- on ASCII.
use Prim.Native.Char.{code}
use Prim.Native.String.{String}
use Prim.Native.Nat.{ℕ, zero, suc, ◌+◌, ◌-◌, ◌/◌, ◌%◌}
use mathlib.Core.Path.{◌≡◌, refl, ap₂}
use mathlib.Core.Logic.{◌↔◌}
use mathlib.Core.Bool.{Bool, true, false, not, ◌&&◌, ◌||◌}
use mathlib.Core.Option.{Option, none, some}
use mathlib.Core.List.{List, [], ◌∷◌, ◌++◌, map}
use native.Mathlib.Omega.{arith}
use bytevault.Prelude.Tests.{ltb, leb, ◌==◌, if◌then◌else◌}
use bytevault.Prelude.Lists.{length, take}

abbrev pub Text : Type 0
Text = List ℕ

-- The bytes of a literal.
abbrev pub bytes : String → Text
bytes String.[] = []
bytes (String.◌∷◌ c s) = code c ∷ bytes s

abbrev pub is_empty : Text → Bool
is_empty [] = true
is_empty (c ∷ s) = false

unfoldable pub same : Text → Text → Bool
same [] [] = true
same [] (d ∷ t) = false
same (c ∷ s) [] = false
same (c ∷ s) (d ∷ t) = c == d && same s t

pub same_iff : (s t : Text) → (same s t ≡ true) ↔ (s ≡ t)
unfolding same
same_iff [] [] = ((λ e. refl), λ e. refl)
same_iff [] (d ∷ t) = ((λ e. cc), λ e. cc)
same_iff (c ∷ s) [] = ((λ e. cc), λ e. cc)
same_iff (c ∷ s) (d ∷ t) =
    let (to, from) = same_iff s t in
    ((λ e. ap₂ ◌∷◌ (first e) (to (rest e))), λ e. both (head_eq e) (from (tail_eq e)))
  where
    first : (c == d && same s t) ≡ true → c ≡ d
    first e = ground arith

    rest : (c == d && same s t) ≡ true → same s t ≡ true
    rest e = ground arith

    head_eq : c ∷ s ≡ d ∷ t → c ≡ d
    head_eq e = cc

    tail_eq : c ∷ s ≡ d ∷ t → s ≡ t
    tail_eq e = cc

    both : c ≡ d → same s t ≡ true → (c == d && same s t) ≡ true
    both e f = ground arith

-- `m[s]` of a set of texts.
unfoldable pub member : Text → List Text → Bool
member s [] = false
member s (t ∷ ts) = same s t || member s ts

-- `strings.ToLower`
abbrev pub lower_byte : ℕ → ℕ
lower_byte c = if leb b'A' c && leb c b'Z' then c + 32 else c

unfoldable pub lower : Text → Text
lower s = map lower_byte s

-- `strings.HasPrefix`
unfoldable pub has_prefix : Text → Text → Bool
has_prefix s [] = true
has_prefix [] (d ∷ t) = false
has_prefix (c ∷ s) (d ∷ t) = c == d && has_prefix s t

-- `strings.Contains`
unfoldable pub contains : Text → Text → Bool
contains [] t = is_empty t
contains (c ∷ s) t = has_prefix (c ∷ s) t || contains s t

-- `strings.Split(s, sep)[0]`, for a separator of one byte.
unfoldable pub before_byte : ℕ → Text → Text
before_byte sep [] = []
before_byte sep (c ∷ s) = if c == sep then [] else c ∷ before_byte sep s

abbrev pub is_space : ℕ → Bool
is_space c = c == 32 || leb 9 c && leb c 13

unfoldable pub trim_left : Text → Text
trim_left [] = []
trim_left (c ∷ s) = if is_space c then trim_left s else c ∷ s

unfoldable pub trim_right : Text → Text
trim_right [] = []
trim_right (c ∷ s) = let rest = trim_right s in if is_space c && is_empty rest then [] else c ∷ rest

-- `strings.TrimSpace`
unfoldable pub trim_space : Text → Text
trim_space s = trim_right (trim_left s)

unfoldable pub has_byte : ℕ → Text → Bool
has_byte b [] = false
has_byte b (c ∷ s) = c == b || has_byte b s

-- The part from the last dot after the last slash.
unfoldable pub last_dot : Text → Option Text
last_dot [] = none
last_dot (c ∷ s) = go (last_dot s)
  where
    go : Option Text → Option Text
    go (some e) = some e
    go none = if c == b'.' && not (has_byte b'/' s) then some (c ∷ s) else none

-- `filepath.Ext`
unfoldable pub ext : Text → Text
ext s = elim (last_dot s) [ some e ↦ e | none ↦ [] ]

-- `strings.TrimSuffix(s, filepath.Ext(s))`
unfoldable pub without_ext : Text → Text
without_ext s = take (length s - length (ext s)) s

unfoldable pub decimal_of : ℕ → ℕ → Text
decimal_of zero n = []
decimal_of (suc fuel) n =
    let rest = decimal_of fuel (n / 10) in
    if ltb n 10 then (b'0' + n) ∷ [] else rest ++ ((b'0' + n % 10) ∷ [])

-- `%d`: a number has at most as many digits as its value and one more.
unfoldable pub decimal : ℕ → Text
decimal n = decimal_of (suc n) n
