-- ===== src/Shared/Texts.antt =====
-- sort.Strings: byte-wise order, and the sorted list of the same texts.

use mathlib.Core.Path.{◌≡◌, refl, sym, ap, ◌∙◌}
use mathlib.Core.Bool.{Bool, true, false, ◌||◌}
use mathlib.Core.List.{List, [], ◌∷◌}
use native.Mathlib.Omega.{arith}
use archiver.Shared.Tests.{ltb, if◌then◌else◌, ◌==◌}
use archiver.Shared.Lists.{any_of, contains}
use archiver.Shared.Text.{Bytes, bytes_eq}

-- `a <= b` on strings
unfoldable pub bytes_leb : Bytes → Bytes → Bool
bytes_leb [] b = true
bytes_leb (x ∷ xs) [] = false
bytes_leb (x ∷ xs) (y ∷ ys) =
    let rest = bytes_leb xs ys in if ltb x y then true else if ltb y x then false else rest

unfoldable pub insert_text : Bytes → List Bytes → List Bytes
unfolding bytes_leb
insert_text t [] = t ∷ []
insert_text t (u ∷ us) = if bytes_leb t u then t ∷ u ∷ us else u ∷ insert_text t us

unfoldable pub sort_texts : List Bytes → List Bytes
unfolding insert_text
sort_texts [] = []
sort_texts (t ∷ ts) = insert_text t (sort_texts ts)

any_of-insert_text :
    (p : Bytes → Bool) (t : Bytes) (us : List Bytes)
    → any_of p (insert_text t us) ≡ (p t || any_of p us)
unfolding insert_text
any_of-insert_text p t [] = refl
any_of-insert_text p t (u ∷ us) = ground (arith, any_of-insert_text p t us)

pub any_of-sort_texts :
    (p : Bytes → Bool) (ts : List Bytes) → any_of p (sort_texts ts) ≡ any_of p ts
unfolding sort_texts
any_of-sort_texts p [] = refl
any_of-sort_texts p (t ∷ ts) =
    any_of-insert_text p t (sort_texts ts) ∙ ap (λ b. p t || b) (any_of-sort_texts p ts)

contains-any_of : (ts : List Bytes) (a : Bytes) → contains ts a ≡ any_of (λ t. t == a) ts
contains-any_of [] a = refl
contains-any_of (t ∷ ts) a = ap (λ b. t == a || b) (contains-any_of ts a)

pub contains-sort_texts : (ts : List Bytes) (a : Bytes) → contains (sort_texts ts) a ≡ contains ts a
contains-sort_texts ts a =
    contains-any_of (sort_texts ts) a
    ∙ (any_of-sort_texts (λ t. t == a) ts ∙ sym (contains-any_of ts a))
