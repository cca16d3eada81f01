-- ===== src/ArgumentParser/Shape.antt =====
-- What every result of `str2arg` looks like, and which texts give none.
use pexec.Base.{
  ℕ, Bytes, Bool, true, false, List, [], ◌∷◌, ◌++◌, append-nil, ◌≡◌, ◌≢◌, refl, ◌⊎◌, Bool-cases,
  inl, inr, arith, Lacks, Lacks-append, All,
}
use pexec.ArgumentParser.{
  quote, space, backslash, push_nonempty, ends_in_backslash, drop_last, merge, merge_all, str2arg,
  contains_space,
}
use pexec.ArgumentParser.Scan.{scan}
use pexec.ArgumentParser.RoundTrip.{IsPlain, scan_unquoted, scan-space, str2arg_lem}

push_nonempty-IsPlain :
    (cur : Bytes) (ret : List Bytes)
    → Lacks quote cur
    → All IsPlain ret
    → All IsPlain (push_nonempty cur ret)
push_nonempty-IsPlain [] ret l h = h
push_nonempty-IsPlain (c ∷ cur) ret l h = ((cc, l), h)

scan-IsPlain : (outside : Bool) (s cur : Bytes) → Lacks quote cur → All IsPlain (scan outside cur s)
unfolding scan
scan-IsPlain true [] cur l = push_nonempty-IsPlain cur [] l tt
scan-IsPlain false [] cur l = push_nonempty-IsPlain cur [] l tt
scan-IsPlain true (c ∷ s) cur l = ground (
  arith,
  push_nonempty-IsPlain cur (scan false [] s) l (scan-IsPlain false s [] tt),
  push_nonempty-IsPlain cur (scan true [] s) l (scan-IsPlain true s [] tt),
  λ (n : c ≢ quote).
      scan-IsPlain true s (cur ++ c ∷ []) (Lacks-append quote cur (c ∷ []) l (n, tt)),
)
scan-IsPlain false (c ∷ s) cur l = ground (
  arith,
  push_nonempty-IsPlain cur (scan true [] s) l (scan-IsPlain true s [] tt),
  λ (n : c ≢ quote).
      scan-IsPlain false s (cur ++ c ∷ []) (Lacks-append quote cur (c ∷ []) l (n, tt)),
)

drop_last-Lacks : (b : ℕ) (p : Bytes) → Lacks b p → Lacks b (drop_last p)
unfolding drop_last
drop_last-Lacks b [] l = tt
drop_last-Lacks b (c ∷ []) l = tt
drop_last-Lacks b (c ∷ d ∷ p) l = (l.0, drop_last-Lacks b (d ∷ p) l.1)

join-IsPlain : (p q : Bytes) → IsPlain p → IsPlain q → IsPlain (drop_last p ++ space ∷ q)
unfolding drop_last
join-IsPlain [] q hp hq = absurd (hp.0 refl)
join-IsPlain (c ∷ []) q hp hq = (cc, (omega arith, hq.1))
join-IsPlain (c ∷ d ∷ p) q hp hq = (
  cc,
  Lacks-append quote (drop_last (c ∷ d ∷ p)) (space ∷ q) (drop_last-Lacks quote (c ∷ d ∷ p) hp.1)
      (omega arith, hq.1),
)

merge-IsPlain :
    (args : List Bytes) (p : Bytes) → All IsPlain (p ∷ args) → All IsPlain (merge p args)
unfolding merge
merge-IsPlain [] p h = h
merge-IsPlain (q ∷ args) [] h = absurd (h.0.0 refl)
merge-IsPlain (q ∷ args) (c ∷ p) h = elim (Bool-cases (ends_in_backslash (c ∷ p))) [
  | inl e ↦ rw (e, All) (merge-IsPlain args _ (join-IsPlain (c ∷ p) q h.0 h.1.0, h.1.1))
  | inr e ↦ rw (e, All) (h.0, merge-IsPlain args q h.1)
]

-- No argument that `str2arg` returns is empty or has a quote, whatever the text.
pub str2arg-IsPlain : (ss : Bytes) → All IsPlain (str2arg ss)
unfolding merge_all
str2arg-IsPlain ss = rw (str2arg_lem ss) (go (scan true [] ss) (scan-IsPlain true ss [] tt))
  where
    go : (args : List Bytes) → All IsPlain args → All IsPlain (merge_all args)
    go [] h = h
    go (p ∷ args) h = merge-IsPlain args p h

ends_in_backslash-append : (p : Bytes) → ends_in_backslash (p ++ backslash ∷ []) ≡ true
unfolding ends_in_backslash
ends_in_backslash-append [] = refl
ends_in_backslash-append (c ∷ []) = refl
ends_in_backslash-append (c ∷ d ∷ p) = ends_in_backslash-append (d ∷ p)

drop_last-append : (p : Bytes) (b : ℕ) → drop_last (p ++ b ∷ []) ≡ p
unfolding drop_last
drop_last-append [] b = refl
drop_last-append (c ∷ []) b = refl
drop_last-append (c ∷ d ∷ p) b = rw (drop_last-append (d ∷ p) b)

scan-backslash :
    (cur s : Bytes) → scan true cur (backslash ∷ s) ≡ scan true (cur ++ backslash ∷ []) s
unfolding scan
scan-backslash cur s = refl

scan_word : (q : Bytes) → IsPlain q → contains_space q ≡ false → scan true [] q ≡ q ∷ []
unfolding scan
scan_word [] h s = absurd (h.0 refl)
scan_word (c ∷ q) h s = cc (scan_unquoted (c ∷ q) [] [] s h.1, append-nil (c ∷ q))

merge_escaped : (p q : Bytes) → merge (p ++ backslash ∷ []) (q ∷ []) ≡ (p ++ space ∷ q) ∷ []
unfolding merge
merge_escaped [] q = refl
merge_escaped (c ∷ p) q = rw (ends_in_backslash-append (c ∷ p), drop_last-append (c ∷ p) backslash)

-- A backslash before a space keeps two words, with no space or quote of their own, one argument,
-- with the space in it and no backslash.
pub str2arg_escaped :
    (p q : Bytes)
    → IsPlain p
    → IsPlain q
    → contains_space p ≡ false
    → contains_space q ≡ false
    → str2arg (p ++ backslash ∷ space ∷ q) ≡ (p ++ space ∷ q) ∷ []
unfolding merge_all
str2arg_escaped [] q hp hq sp sq = absurd (hp.0 refl)
str2arg_escaped (c ∷ p) q hp hq sp sq =
    rw
      (
        str2arg_lem ((c ∷ p) ++ backslash ∷ space ∷ q),
        scan_unquoted (c ∷ p) [] (backslash ∷ space ∷ q) sp hp.1,
        scan-backslash,
        scan-space,
        scan_word q hq sq,
      )
      (merge_escaped (c ∷ p) q)

abbrev pub IsSpace : ℕ → Type 0
IsSpace c = c ≡ space

abbrev pub IsMark : ℕ → Type 0
IsMark c = (c ≡ space) ⊎ (c ≡ quote)

scan_blank : (s : Bytes) → All IsSpace s → scan true [] s ≡ []
unfolding scan
scan_blank [] h = refl
scan_blank (c ∷ s) h = ground (arith, scan_blank s)

scan_nothing :
    (outside : Bool) (s cur : Bytes) → scan outside cur s ≡ [] → (cur ≡ []) × All IsMark s
unfolding scan
scan_nothing true [] [] h = (refl, tt)
scan_nothing true [] (b ∷ cur) h = cc
scan_nothing false [] [] h = (refl, tt)
scan_nothing false [] (b ∷ cur) h = cc
scan_nothing true (c ∷ s) [] h =
    ground (arith, scan_nothing false s [], scan_nothing true s [], scan_nothing true s (c ∷ []))
scan_nothing true (c ∷ s) (b ∷ cur) h = ground (arith, scan_nothing true s ((b ∷ cur) ++ c ∷ []))
scan_nothing false (c ∷ s) [] h =
    ground (arith, scan_nothing true s [], scan_nothing false s (c ∷ []))
scan_nothing false (c ∷ s) (b ∷ cur) h = ground (arith, scan_nothing false s ((b ∷ cur) ++ c ∷ []))

merge-ne-nil : (args : List Bytes) (p : Bytes) → merge p args ≢ []
unfolding merge
merge-ne-nil [] p = ground arith
merge-ne-nil (q ∷ args) p =
    ground (
      arith,
      merge-ne-nil args p,
      merge-ne-nil args (drop_last p ++ space ∷ q),
      merge-ne-nil args q,
    )

merge_all-nil : (args : List Bytes) → merge_all args ≡ [] → args ≡ []
unfolding merge_all
merge_all-nil [] h = refl
merge_all-nil (p ∷ args) h = absurd (merge-ne-nil args p h)

-- A text of spaces alone has no argument, and a text with no argument holds only spaces and quotes.
pub str2arg-nil :
    (ss : Bytes) → (All IsSpace ss → str2arg ss ≡ []) × (str2arg ss ≡ [] → All IsMark ss)
unfolding merge_all
str2arg-nil ss = rw str2arg_lem (
  λ h. rw (scan_blank ss h),
  λ h. (scan_nothing true ss [] (merge_all-nil (scan true [] ss) h)).1,
)
