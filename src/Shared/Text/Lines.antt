-- ===== src/Shared/Text/Lines.antt =====
-- The lines of a text (bufio.ScanLines, strings.Cut at a newline), and strconv.Atoi with its error
-- ignored.
use Prim.Native.Nat.{ℕ, ◌+◌, ◌*◌, ◌-◌}
use mathlib.Core.Path.{◌≡◌, refl}
use mathlib.Core.Bool.{Bool, true, false, not}
use mathlib.Core.List.{List, [], ◌∷◌, ◌++◌}
use mathlib.Core.Option.{none, some}
use native.Mathlib.Omega.{arith}
use archiver.Shared.Tests.{nat_beq, ltb, if◌then◌else◌}
use archiver.Shared.Int.{ℤ, pos, negsuc, max_int}
use archiver.Shared.Lists.{all_of}
use archiver.Shared.Text.{Bytes, is_digit, atoi}

abbrev pub newline : ℕ
newline = 10

-- A byte before the lines that follow it.
abbrev pub push_byte : ℕ → List Bytes → List Bytes
push_byte c [] = (c ∷ []) ∷ []
push_byte c (l ∷ ls) = (c ∷ l) ∷ ls

-- The lines of a text; the last one may lack its newline.
unfoldable pub split_lines : Bytes → List Bytes
split_lines [] = []
split_lines (c ∷ s) =
    let rest = split_lines s in if nat_beq c newline then [] ∷ rest else push_byte c rest

-- What strings.Cut leaves after the first newline.
unfoldable pub after_line : Bytes → Bytes
after_line [] = []
after_line (c ∷ s) = let rest = after_line s in if nat_beq c newline then s else rest

abbrev pub in_line : ℕ → Bool
in_line c = not (nat_beq c newline)

pub split_lines-line :
    (l s : Bytes) → all_of in_line l ≡ true → split_lines (l ++ newline ∷ s) ≡ l ∷ split_lines s
unfolding split_lines
split_lines-line [] s h = refl
split_lines-line (c ∷ l) s h = ground (arith, split_lines-line l s)

pub after_line-line : (l s : Bytes) → all_of in_line l ≡ true → after_line (l ++ newline ∷ s) ≡ s
unfolding after_line
after_line-line [] s h = refl
after_line-line (c ∷ l) s h = ground (arith, after_line-line l s)

-- Whether strconv reports a value out of range: a digit takes the value past 64 bits, or it ends
-- past the limit. Another byte before that is a syntax error.
unfoldable pub overflows : ℕ → ℕ → Bytes → Bool
overflows limit acc [] = ltb limit acc
overflows limit acc (c ∷ cs) =
    let next = acc * 10 + (c - b'0') in
    let rest = overflows limit next cs in
    if is_digit c then (if ltb 18446744073709551615 next then true else rest) else false

-- The value that strconv.Atoi returns with an error.
unfoldable pub clamped : Bytes → ℤ
unfolding overflows
clamped [] = pos 0
clamped (c ∷ cs) =
    if nat_beq c b'-'
    then (if overflows (max_int + 1) 0 cs then negsuc max_int else pos 0)
    else (if overflows max_int 0 (if nat_beq c b'+' then cs else c ∷ cs)
        then pos max_int
        else pos 0)

-- strconv.Atoi, its error ignored.
unfoldable pub atoi_value : Bytes → ℤ
unfolding clamped
atoi_value w = elim (atoi w) [ none ↦ clamped w | some z ↦ z ]
