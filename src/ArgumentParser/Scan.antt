-- ===== src/ArgumentParser/Scan.antt =====
-- The first half of `str2arg` against a scanner that reads the text once, a byte at a time.
use pexec.Base.{
  Bytes, Bool, true, false, List, [], ◌∷◌, ◌++◌, append_assoc, append-nil, ◌==◌, ◌≡◌, ◌≢◌, refl,
  sym, arith, Lacks, Lacks-append,
}
use pexec.ArgumentParser.{
  quote, space, read_items, split, push_nonempty, push_words, collect, tokens,
}

-- A quote ends a token and switches the mode, a space ends one outside quotes only, any other byte
-- joins the token; an empty token is dropped.
unfoldable pub scan : Bool → Bytes → Bytes → List Bytes
scan outside cur [] = push_nonempty cur []
scan true cur (c ∷ s) = elim (c == quote) [
  | true ↦ push_nonempty cur (scan false [] s)
  | false ↦ elim (c == space) [
    | true ↦ push_nonempty cur (scan true [] s)
    | false ↦ scan true (cur ++ c ∷ []) s
  ]
]
scan false cur (c ∷ s) = elim (c == quote) [
  | true ↦ push_nonempty cur (scan true [] s)
  | false ↦ scan false (cur ++ c ∷ []) s
]

words_end :
    (item cur : Bytes)
    → Lacks quote item
    → scan true cur item ≡ push_words (read_items item space cur) []
unfolding scan push_words read_items
words_end [] [] h = refl
words_end [] (b ∷ cur) h = refl
words_end (c ∷ item) cur h = ground (arith, words_end item [], words_end item (cur ++ c ∷ []))

words_quote :
    (item cur s : Bytes)
    → Lacks quote item
    → scan true cur (item ++ quote ∷ s) ≡ push_words (read_items item space cur) (scan false [] s)
unfolding scan push_words read_items
words_quote [] [] s h = refl
words_quote [] (b ∷ cur) s h = refl
words_quote (c ∷ item) cur s h =
    ground (arith, words_quote item [] s, words_quote item (cur ++ c ∷ []) s)

abbrev Collected : Bytes → Bytes → Type 0
Collected s item =
    (Lacks quote item → collect true (read_items s quote item) ≡ scan true [] (item ++ s))
    × (collect false (read_items s quote item) ≡ scan false item s)

collect-read_items : (s item : Bytes) → Collected s item
unfolding collect read_items scan push_words split
collect-read_items [] [] = (λ _. refl, refl)
collect-read_items [] (b ∷ item) = (λ h. rw append-nil (sym (words_end (b ∷ item) [] h)), refl)
collect-read_items (c ∷ s) item =
    let now = collect-read_items s [] in
    let later = collect-read_items s (item ++ c ∷ []) in
    (
      λ h. ground (
        arith,
        words_quote item [] s h,
        now.1,
        append_assoc item (c ∷ []) s,
        λ (n : c ≢ quote). later.0 (Lacks-append quote item (c ∷ []) h (n, tt)),
      ),
      ground (arith, now.0 tt, later.1),
    )

-- The split at quotes, the parity of the parts and the split at spaces together are one scan.
pub tokens-scan : (ss : Bytes) → tokens ss ≡ scan true [] ss
unfolding tokens
tokens-scan ss = (collect-read_items ss []).0 tt
