-- ===== src/ArgumentParser/RoundTrip.antt =====
-- `str2arg` after `arg2str`.
use pexec.Base.{
  ℕ, Bytes, true, false, List, [], ◌∷◌, ◌++◌, append_assoc, append-nil, ◌≡◌, ◌≢◌, refl, Bool-cases,
  inl, inr, arith, Lacks, All,
}
use pexec.ArgumentParser.{
  quote, space, push_nonempty, ends_in_backslash, merge, merge_all, str2arg, contains_space, quoted,
  arg2str,
}
use pexec.ArgumentParser.Scan.{scan, tokens-scan}

-- An argument that can be printed: it is not empty and has no quote.
abbrev pub IsPlain : Bytes → Type 0
IsPlain p = (p ≢ []) × Lacks quote p

-- No argument but the last ends in a backslash.
abbrev pub IsSeparate : List Bytes → Type 0
IsSeparate [] = Unit
IsSeparate (p ∷ []) = Unit
IsSeparate (p ∷ q ∷ args) = (ends_in_backslash p ≡ false) × IsSeparate (q ∷ args)

pub scan_unquoted :
    (p cur rest : Bytes)
    → contains_space p ≡ false
    → Lacks quote p
    → scan true cur (p ++ rest) ≡ scan true (cur ++ p) rest
unfolding scan contains_space
scan_unquoted [] cur rest h l = rw append-nil
scan_unquoted (c ∷ p) cur rest h l =
    ground (arith, scan_unquoted p (cur ++ c ∷ []) rest, append_assoc cur (c ∷ []) p)

scan_inside :
    (p cur rest : Bytes)
    → Lacks quote p
    → scan false cur (p ++ quote ∷ rest) ≡ push_nonempty (cur ++ p) (scan true [] rest)
unfolding scan
scan_inside [] cur rest l = rw append-nil
scan_inside (c ∷ p) cur rest l =
    ground (arith, scan_inside p (cur ++ c ∷ []) rest, append_assoc cur (c ∷ []) p)

quoted_spaced : (p : Bytes) → contains_space p ≡ true → quoted p ≡ quote ∷ (p ++ quote ∷ [])
unfolding quoted
quoted_spaced p h = rw h

quoted_bare : (p : Bytes) → contains_space p ≡ false → quoted p ≡ p
unfolding quoted
quoted_bare p h = rw h

scan-quoted_end : (p : Bytes) → IsPlain p → scan true [] (quoted p) ≡ p ∷ []
unfolding scan
scan-quoted_end [] (h, l) = absurd (h refl)
scan-quoted_end (c ∷ p) (h, l) = elim (Bool-cases (contains_space (c ∷ p))) [
  | inl e ↦ rw (quoted_spaced (c ∷ p) e) (scan_inside (c ∷ p) [] [] l)
  | inr e ↦ rw (quoted_bare (c ∷ p) e) (cc (scan_unquoted (c ∷ p) [] [] e l, append-nil (c ∷ p)))
]

scan_open : (s : Bytes) → scan true [] (quote ∷ s) ≡ scan false [] s
unfolding scan
scan_open s = refl

pub scan-space :
    (c : ℕ) (p rest : Bytes) → scan true (c ∷ p) (space ∷ rest) ≡ (c ∷ p) ∷ scan true [] rest
unfolding scan
scan-space c p rest = refl

scan_blank : (rest : Bytes) → scan true [] (space ∷ rest) ≡ scan true [] rest
unfolding scan
scan_blank rest = refl

scan-quoted :
    (p rest : Bytes) → IsPlain p → scan true [] (quoted p ++ space ∷ rest) ≡ p ∷ scan true [] rest
scan-quoted [] rest (h, l) = absurd (h refl)
scan-quoted (c ∷ p) rest (h, l) = elim (Bool-cases (contains_space (c ∷ p))) [
  | inl e ↦ rw (
    quoted_spaced (c ∷ p) e,
    scan_open,
    append_assoc p (quote ∷ []) (space ∷ rest),
    scan_inside (c ∷ p) [] (space ∷ rest) l,
    scan_blank,
  )
  | inr e ↦ rw (quoted_bare (c ∷ p) e, scan_unquoted (c ∷ p) [] (space ∷ rest) e l, scan-space)
]

scan-arg2str : (args : List Bytes) → All IsPlain args → scan true [] (arg2str args) ≡ args
unfolding arg2str
scan-arg2str [] h = unfold scan in refl
scan-arg2str (p ∷ []) h = scan-quoted_end p h.0
scan-arg2str (p ∷ q ∷ args) h =
    rw (scan-quoted p (arg2str (q ∷ args)) h.0, scan-arg2str (q ∷ args) h.1)

merge_separate :
    (p : Bytes) (args : List Bytes)
    → All IsPlain (p ∷ args)
    → IsSeparate (p ∷ args)
    → merge p args ≡ p ∷ args
unfolding merge
merge_separate p [] h s = refl
merge_separate [] (q ∷ args) h s = absurd (h.0.0 refl)
merge_separate (c ∷ p) (q ∷ args) h s = ground (arith, merge_separate q args h.1 s.1)

merge_all-arg2str : (args : List Bytes) → All IsPlain args → IsSeparate args → merge_all args ≡ args
unfolding merge_all
merge_all-arg2str [] h s = refl
merge_all-arg2str (p ∷ args) h s = merge_separate p args h s

pub str2arg_lem : (ss : Bytes) → str2arg ss ≡ merge_all (scan true [] ss)
unfolding str2arg scan
str2arg_lem [] = refl
str2arg_lem (c ∷ ss) = rw (← tokens-scan (c ∷ ss))

-- Arguments that are not empty, have no quote and of which none but the last ends in a backslash
-- are read back from their print, spaces in them included.
pub str2arg-arg2str :
    (args : List Bytes) → All IsPlain args → IsSeparate args → str2arg (arg2str args) ≡ args
str2arg-arg2str args h s =
    rw (str2arg_lem (arg2str args), scan-arg2str args h) (merge_all-arg2str args h s)
