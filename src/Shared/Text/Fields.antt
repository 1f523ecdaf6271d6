-- ===== src/Shared/Text/Fields.antt =====
-- strings.Fields on ASCII text, and the words of a line that is joined by spaces.
use Prim.Native.Nat.{ℕ}
use mathlib.Core.Path.{◌≡◌, refl}
use mathlib.Core.Bool.{Bool, true, not, ◌||◌, ◌&&◌}
use mathlib.Core.List.{List, [], ◌∷◌, ◌++◌}
use native.Mathlib.Omega.{arith}
use mathlib.Core.Logic.{inl, inr}
use archiver.Shared.Tests.{Bool-cases, nat_beq, leb, if◌then◌else◌}
use archiver.Shared.Lists.{all_of, All}
use archiver.Shared.Text.{Bytes}

-- unicode.IsSpace on ASCII: tab, newline, vertical tab, form feed, carriage return and space.
abbrev pub is_space : ℕ → Bool
is_space c = leb 9 c && leb c 13 || nat_beq c 32

abbrev push_word : Bytes → List Bytes → List Bytes
push_word [] ws = ws
push_word (c ∷ w) ws = (c ∷ w) ∷ ws

-- The word that a text begins with, if any, and the words after it.
scan_fields : Bytes → Bytes × List Bytes
scan_fields [] = ([], [])
scan_fields (c ∷ s) =
    let (w, ws) = scan_fields s in if is_space c then ([], push_word w ws) else (c ∷ w, ws)

unfoldable pub fields : Bytes → List Bytes
unfolding scan_fields
fields s = let (w, ws) = scan_fields s in push_word w ws

-- strings.TrimSpace on ASCII text.
unfoldable pub trim_left : Bytes → Bytes
trim_left [] = []
trim_left (c ∷ s) = let rest = trim_left s in if is_space c then rest else c ∷ s

push_unless_space : ℕ → Bytes → Bytes
push_unless_space c [] = if is_space c then [] else c ∷ []
push_unless_space c (b ∷ s) = c ∷ b ∷ s

unfoldable pub trim_right : Bytes → Bytes
unfolding push_unless_space
trim_right [] = []
trim_right (c ∷ s) = push_unless_space c (trim_right s)

unfoldable pub trim_space : Bytes → Bytes
unfolding trim_left trim_right
trim_space s = trim_right (trim_left s)

-- A word: not empty, and no space in it.
abbrev pub IsWord : Bytes → Type 0
IsWord [] = ⊥
IsWord (c ∷ w) = all_of (λ b. not (is_space b)) (c ∷ w) ≡ true

abbrev no_space : ℕ → Bool
no_space b = not (is_space b)

scan_fields-word :
    (w s : Bytes) → all_of no_space w ≡ true → scan_fields (w ++ 32 ∷ s) ≡ (w, fields s)
unfolding fields
scan_fields-word [] s h = refl
scan_fields-word (c ∷ w) s h = ground (arith, scan_fields-word w s)

scan_fields-last : (w : Bytes) → all_of no_space w ≡ true → scan_fields w ≡ (w, [])
unfolding scan_fields
scan_fields-last [] h = refl
scan_fields-last (c ∷ w) h = ground (arith, scan_fields-last w)

pub fields-word : (w s : Bytes) → IsWord w → fields (w ++ 32 ∷ s) ≡ w ∷ fields s
unfolding fields
fields-word [] s h = absurd h
fields-word (c ∷ w) s h = rw (scan_fields-word (c ∷ w) s h)

pub fields-last : (w : Bytes) → IsWord w → fields w ≡ w ∷ []
unfolding fields
fields-last [] h = absurd h
fields-last (c ∷ w) h = rw (scan_fields-last (c ∷ w) h)

push_word-IsWord :
    (w : Bytes) (ws : List Bytes)
    → all_of no_space w ≡ true
    → All IsWord ws
    → All IsWord (push_word w ws)
push_word-IsWord [] ws h hs = hs
push_word-IsWord (c ∷ w) ws h hs = (h, hs)

scan_fields-words :
    (s : Bytes) → (all_of no_space (scan_fields s).0 ≡ true) × All IsWord (scan_fields s).1
unfolding scan_fields
scan_fields-words [] = (refl, tt)
scan_fields-words (c ∷ s) =
    let (w, ws) = scan_fields-words s in
    elim (Bool-cases (is_space c)) [
      | inl blank ↦ rw blank (refl, push_word-IsWord (scan_fields s).0 (scan_fields s).1 w ws)
      | inr inside ↦ rw inside (ground (arith, w), ws)
    ]

pub fields-IsWord : (s : Bytes) → All IsWord (fields s)
unfolding fields
fields-IsWord s =
    push_word-IsWord (scan_fields s).0 (scan_fields s).1 (scan_fields-words s).0
      (scan_fields-words s).1
