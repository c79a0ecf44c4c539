-- ===== src/Common/Text.antt =====
-- Python's `+` and `[a:b]` on texts.
use Prim.Native.Nat.{ℕ}
use Prim.Native.Char.{Char, code}
use Prim.Native.String.{String, slice, ◌++◌}
use mathlib.Core.Bool.{Bool, true, false, ◌&&◌, ◌||◌}
use mathlib.Core.List.{List, [], ◌∷◌}
use multi_agent_aidlc.Common.Tests.{nat_beq, leb, if◌then◌else◌}

abbrev pub concat : String → String → String
concat s t = s ++ t

-- `s[:n]`, where the first `n` characters of `s` are ASCII
abbrev pub first_chars : ℕ → String → String
first_chars n s = slice s 0 n

-- The code points of a text.
abbrev pub codes : String → List ℕ
codes String.[] = []
codes (String.◌∷◌ c s) = code c ∷ codes s

-- `s.split(c)`, with the part that is being read in front.
abbrev pub split_on : ℕ → List ℕ → List (List ℕ)
split_on c [] = [] ∷ []
split_on c (x ∷ xs) = cut (split_on c xs)
  where
    cut : List (List ℕ) → List (List ℕ)
    cut [] = (x ∷ []) ∷ []
    cut (part ∷ parts) = if nat_beq x c then [] ∷ part ∷ parts else (x ∷ part) ∷ parts

abbrev pub same_codes : List ℕ → List ℕ → Bool
same_codes [] [] = true
same_codes [] (_ ∷ _) = false
same_codes (_ ∷ _) [] = false
same_codes (x ∷ xs) (y ∷ ys) = nat_beq x y && same_codes xs ys

-- Python's white space, as `str.rstrip` and `str.strip` read it.
abbrev pub is_space : ℕ → Bool
is_space c =
    (leb 9 c && leb c 13)
    || ((leb 28 c && leb c 32)
        || (nat_beq c 133
            || (nat_beq c 160
                || (nat_beq c 5760
                    || ((leb 8192 c && leb c 8202)
                        || (nat_beq c 8232
                            || (nat_beq c 8233
                                || (nat_beq c 8239 || (nat_beq c 8287 || nat_beq c 12288)))))))))

pub keep_char : Char → String → String
keep_char c String.[] = if is_space (code c) then String.[] else String.◌∷◌ c String.[]
keep_char c (String.◌∷◌ d s) = String.◌∷◌ c (String.◌∷◌ d s)

unfoldable pub rstrip : String → String
unfolding keep_char
rstrip String.[] = String.[]
rstrip (String.◌∷◌ c s) = keep_char c (rstrip s)
