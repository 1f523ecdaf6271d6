-- ===== src/Config/Glob/Expressions/Classes.antt =====
-- That each class of internal/config/glob.go (`classes`) is the set of bytes that it should be.
use archiver.Shared.{
  Bool, Bool-cases, Bytes, Option, [], ap, arith, codes, contains, contains-append, false,
  if◌then◌else◌, inl, inr, is_digit, leb, ltb, none, not, refl, some, suc, sym, true, zero, ℕ, ◌&&◌,
  ◌++◌, ◌+◌, ◌==◌, ◌||◌, ◌∙◌, ◌∷◌, ◌≡◌, nat_eq, bytes_eq, int_eq,
}
use archiver.Config.Glob.{is_alpha, class_of}
use archiver.Config.Glob.Expressions.{bytes_from, letters, digits, class_bytes}

pub contains-bytes_from : (lo n c : ℕ) → contains (bytes_from lo n) c ≡ (leb lo c && ltb c (lo + n))
unfolding bytes_from
contains-bytes_from lo zero c = ground arith
contains-bytes_from lo (suc n) c = ground (arith, contains-bytes_from (suc lo) n c)

abbrev pub in_class : ℕ → Option Bytes → Option Bool
in_class c o = elim o [ none ↦ none | some set ↦ some (contains set c) ]

both_if :
    (b : Bool) (c : ℕ) (x y : Option Bool) (x' y' : Option Bytes)
    → x ≡ in_class c x'
    → y ≡ in_class c y'
    → (if b then x else y) ≡ in_class c (if b then x' else y')
both_if true c x y x' y' h k = h
both_if false c x y x' y' h k = k

contains-letters : (c : ℕ) → contains letters c ≡ is_alpha c
unfolding is_alpha letters
contains-letters c =
    contains-append (bytes_from b'a' 26) (bytes_from b'A' 26) c
    ∙ ground (arith, contains-bytes_from b'a' 26 c, contains-bytes_from b'A' 26 c)

contains-digits : (c : ℕ) → contains digits c ≡ is_digit c
unfolding digits
contains-digits c = contains-bytes_from b'0' 10 c ∙ ground arith

punct_lem :
    (c : ℕ)
    → (ltb 32 c && (ltb c 127 && (not (is_alpha c) && not (is_digit c))))
      ≡ contains (bytes_from 33 15 ++ bytes_from 58 7 ++ bytes_from 91 6 ++ bytes_from 123 4) c
unfolding is_alpha
punct_lem c =
    rw
      (
        contains-append (bytes_from 33 15 ++ bytes_from 58 7 ++ bytes_from 91 6) (bytes_from 123 4)
            c,
        contains-append (bytes_from 33 15 ++ bytes_from 58 7) (bytes_from 91 6) c,
        contains-append (bytes_from 33 15) (bytes_from 58 7) c,
        contains-bytes_from 33 15 c,
        contains-bytes_from 58 7 c,
        contains-bytes_from 91 6 c,
        contains-bytes_from 123 4 c,
      )
      (elim (Bool-cases (leb b'a' c && leb c b'z' || leb b'A' c && leb c b'Z')) [
        | inl letter ↦ rw letter (ground (arith, letter))
        | inr other ↦ rw other (ground (arith, other))
      ])

-- Each class is the set that it should be.
pub class_of-in_class : (name : Bytes) (c : ℕ) → class_of name c ≡ in_class c (class_bytes name)
unfolding class_of class_bytes is_alpha
class_of-in_class name c =
    let alpha = contains-letters c in
    let digit = contains-digits c in
    let alnum = contains-append letters digits c in
    both_if (name == codes "alnum") c _ _ _ _ (ap some (ground (arith, alnum, alpha, digit))) (
      both_if (name == codes "alpha") c _ _ _ _ (ap some (sym alpha)) (
        both_if (name == codes "blank") c _ _ _ _ (ap some (ground arith)) (
          both_if (name == codes "cntrl") c _ _ _ _
            (ap some (
              ground (
                arith,
                contains-append (bytes_from 0 32) (127 ∷ []) c,
                contains-bytes_from 0 32 c,
              )))
            (both_if (name == codes "digit") c _ _ _ _ (ap some (sym digit)) (
              both_if (name == codes "graph") c _ _ _ _
                (ap some (ground (arith, contains-bytes_from 33 94 c)))
                (both_if (name == codes "lower") c _ _ _ _
                  (ap some (ground (arith, contains-bytes_from b'a' 26 c)))
                  (both_if (name == codes "print") c _ _ _ _
                    (ap some (ground (arith, contains-bytes_from 32 95 c)))
                    (both_if (name == codes "punct") c _ _ _ _ (ap some (punct_lem c)) (
                      both_if (name == codes "space") c _ _ _ _
                        (ap some (ground (arith, contains-bytes_from 9 5 c)))
                        (both_if (name == codes "upper") c _ _ _ _
                          (ap some (ground (arith, contains-bytes_from b'A' 26 c)))
                          (both_if (name == codes "xdigit") c _ _ _ _
                            (ap some (
                              ground (
                                arith,
                                digit,
                                contains-append (digits ++ bytes_from b'a' 6) (bytes_from b'A' 6) c,
                                contains-append digits (bytes_from b'a' 6) c,
                                contains-bytes_from b'a' 6 c,
                                contains-bytes_from b'A' 6 c,
                              )))
                            (both_if (name == codes "word") c _ _ _ _
                              (ap some (
                                ground (
                                  arith,
                                  alpha,
                                  digit,
                                  contains-append (letters ++ digits) (b'_' ∷ []) c,
                                  contains-append letters digits c,
                                )))
                              refl))))))))))))
