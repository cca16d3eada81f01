-- ===== src/ArgumentParser.antt =====
-- src/pexec/argument_parser.cpp: splitting a command line into arguments, and printing one. A
-- `std::string` is the list of its bytes, and a loop with `push_back` builds its list in order.
pub mod Scan
pub mod RoundTrip
pub mod Shape
mod Examples
use pexec.Base.{
  ℕ, Bytes, Bool, true, false, not, List, [], ◌∷◌, ◌++◌, ◌==◌, ◌||◌, if◌then◌else◌, is_empty,
}

abbrev pub quote : ℕ
quote = b'"'

abbrev pub space : ℕ
space = b' '

abbrev pub backslash : ℕ
backslash = b'\\'

-- `while (std::getline(ss, item, delim)) *(result++) = item;`, `item` holding what the current
-- `getline` has extracted. At the end of the text a `getline` that has extracted nothing fails.
read_items : Bytes → ℕ → Bytes → List Bytes
read_items [] delim [] = []
read_items [] delim (b ∷ item) = (b ∷ item) ∷ []
read_items (c ∷ s) delim item = elim (c == delim) [
  | true ↦ item ∷ read_items s delim []
  | false ↦ read_items s delim (item ++ c ∷ [])
]

pub split : Bytes → ℕ → List Bytes
unfolding read_items
split s delim = read_items s delim []

-- `if(proc.empty()) continue; ret.push_back(proc);`
abbrev pub push_nonempty : Bytes → List Bytes → List Bytes
push_nonempty [] ret = ret
push_nonempty (b ∷ proc) ret = (b ∷ proc) ∷ ret

-- The inner loop, over the parts between spaces.
push_words : List Bytes → List Bytes → List Bytes
push_words [] ret = ret
push_words (sub ∷ subs) ret = push_nonempty sub (push_words subs ret)

-- The outer loop, over the parts between quotes; the flag is `i % 2 == 0`.
collect : Bool → List Bytes → List Bytes
unfolding push_words split
collect even [] = []
collect true (sub ∷ subs) = push_words (split sub space) (collect false subs)
collect false (sub ∷ subs) = push_nonempty sub (collect true subs)

-- What `ret` holds after the first half of `str2arg`.
pub tokens : Bytes → List Bytes
unfolding collect split
tokens ss = collect true (split ss quote)

-- `prev[prev.size()-1] == '\\'`
pub ends_in_backslash : Bytes → Bool
ends_in_backslash [] = false
ends_in_backslash (c ∷ []) = c == backslash
ends_in_backslash (c ∷ d ∷ s) = ends_in_backslash (d ∷ s)

-- `prev.substr(0, prev.size()-1)`
pub drop_last : Bytes → Bytes
drop_last [] = []
drop_last (c ∷ []) = []
drop_last (c ∷ d ∷ s) = c ∷ drop_last (d ∷ s)

-- The second loop: an argument that ends in a backslash takes the next one in, behind a space.
merge : Bytes → List Bytes → List Bytes
unfolding ends_in_backslash drop_last
merge prev [] = prev ∷ []
merge prev (now ∷ rest) = elim (is_empty prev) [
  | true ↦ merge prev rest
  | false ↦ elim (ends_in_backslash prev) [
    | true ↦ merge (drop_last prev ++ space ∷ now) rest
    | false ↦ prev ∷ merge now rest
  ]
]

pub merge_all : List Bytes → List Bytes
unfolding merge
merge_all [] = []
merge_all (prev ∷ rest) = merge prev rest

unfoldable pub str2arg : Bytes → List Bytes
unfolding tokens merge_all
str2arg [] = []
str2arg (c ∷ ss) = merge_all (tokens (c ∷ ss))

-- `contains_space`
pub contains_space : Bytes → Bool
contains_space [] = false
contains_space (c ∷ p) = c == space || contains_space p

quoted : Bytes → Bytes
unfolding contains_space
quoted p = if contains_space p then quote ∷ p ++ quote ∷ [] else p

unfoldable pub arg2str : List Bytes → Bytes
unfolding quoted
arg2str [] = []
arg2str (p ∷ []) = quoted p
arg2str (p ∷ q ∷ args) = quoted p ++ space ∷ arg2str (q ∷ args)
