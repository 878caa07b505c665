-- ===== src/Common/Text.antt =====
-- Texts: `String.prototype.trim` over ASCII white space, and printed numbers.
use Prim.Native.Char.{Char, code}
use Prim.Native.String.{String, [], ◌∷◌, ◌++◌}
use Prim.Native.Nat.{ℕ, zero, suc, ◌/◌, ◌%◌}
use mathlib.Core.Bool.{Bool, true, false, ◌&&◌, ◌||◌}
use mathlib.Core.List.{List}
use k_pos_be.Common.Tests.{eqb, leb, ltb, if◌then◌else◌}

-- `!s`, for a text
unfoldable pub is_empty : String → Bool
is_empty [] = true
is_empty (c ∷ s) = false

is_space : Char → Bool
is_space c = eqb (code c) 32 || leb 9 (code c) && leb (code c) 13

trim_start : String → String
trim_start [] = []
trim_start (c ∷ s) = if is_space c then trim_start s else c ∷ s

trim_end : String → String
trim_end [] = []
trim_end (c ∷ s) = let r = trim_end s in if is_space c && is_empty r then [] else c ∷ r

unfoldable pub trim : String → String
unfolding trim_start trim_end is_space is_empty
trim s = trim_end (trim_start s)

digit : ℕ → String
digit zero = "0"
digit (suc zero) = "1"
digit (suc (suc zero)) = "2"
digit (suc (suc (suc zero))) = "3"
digit (suc (suc (suc (suc zero)))) = "4"
digit (suc (suc (suc (suc (suc zero))))) = "5"
digit (suc (suc (suc (suc (suc (suc zero)))))) = "6"
digit (suc (suc (suc (suc (suc (suc (suc zero))))))) = "7"
digit (suc (suc (suc (suc (suc (suc (suc (suc zero)))))))) = "8"
digit _ = "9"

show_from : ℕ → ℕ → String
show_from zero n = ""
show_from (suc f) n =
    let rest = show_from f (n / 10) in if ltb n 10 then digit n else rest ++ digit (n % 10)

-- `${n}`; a number has at most as many digits as its value plus one
unfoldable pub show_ℕ : ℕ → String
unfolding show_from digit
show_ℕ n = show_from (suc n) n

-- puts a character in front of the first line
abbrev add_char : Char → List String → List String
add_char c List.[] = List.◌∷◌ (c ∷ []) List.[]
add_char c (List.◌∷◌ line lines) = List.◌∷◌ (c ∷ line) lines

-- `split` at a character, by its code
unfoldable pub split_on : ℕ → String → List String
split_on mark [] = List.◌∷◌ "" List.[]
split_on mark (c ∷ s) =
    let rest = split_on mark s in if eqb (code c) mark then List.◌∷◌ "" rest else add_char c rest

-- `split('\n')`
unfoldable pub split_lines : String → List String
unfolding split_on
split_lines s = split_on 10 s
