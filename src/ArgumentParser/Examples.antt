-- ===== src/ArgumentParser/Examples.antt =====
-- Runs of the parser, the two of test/arg_parsing.cpp among them, and instances of its theorems.
use pexec.Base.{Bytes, Bool, List, [], ◌∷◌, ◌++◌, ◌≡◌, refl, arith, codes, All}
use pexec.ArgumentParser.{
  space, backslash, tokens, ends_in_backslash, contains_space, str2arg, arg2str,
}
use pexec.ArgumentParser.Scan.{scan}
use pexec.ArgumentParser.RoundTrip.{IsPlain, str2arg-arg2str}
use pexec.ArgumentParser.Scan.{tokens-scan}
use pexec.ArgumentParser.Shape.{IsMark, IsSpace, str2arg-IsPlain, str2arg_escaped, str2arg-nil}

ls_la : str2arg (codes "ls -la") ≡ codes "ls" ∷ codes "-la" ∷ []
unfolding str2arg
ls_la = refl

abbrev copy_args : List Bytes
copy_args = codes "cp" ∷ codes "./file with spaces.txt" ∷ codes "./output.txt" ∷ []

copy : str2arg (codes "cp \"./file with spaces.txt\" ./output.txt") ≡ copy_args
unfolding str2arg
copy = refl

-- An unfinished quote takes the rest of the text in.
unfinished : str2arg (codes "a \"b  c") ≡ codes "a" ∷ codes "b  c" ∷ []
unfolding str2arg
unfinished = refl

-- Quotes always end an argument.
glued : str2arg (codes "a\"b\"c") ≡ codes "a" ∷ codes "b" ∷ codes "c" ∷ []
unfolding str2arg
glued = refl

str2arg-arg2str_example : str2arg (arg2str copy_args) ≡ copy_args
unfolding ends_in_backslash
str2arg-arg2str_example =
    str2arg-arg2str copy_args ((cc, omega arith), ((cc, omega arith), ((cc, omega arith), tt)))
      (refl, (refl, tt))

tokens-scan_example : tokens (codes "a \"b c\"") ≡ scan Bool.true [] (codes "a \"b c\"")
tokens-scan_example = tokens-scan (codes "a \"b c\"")

three_words : All IsPlain (str2arg (codes "a\\ b \"\" c"))
three_words = str2arg-IsPlain (codes "a\\ b \"\" c")

escaped_space :
    str2arg (codes "my" ++ backslash ∷ space ∷ codes "file")
    ≡ (codes "my" ++ space ∷ codes "file") ∷ []
unfolding contains_space
escaped_space =
    str2arg_escaped (codes "my") (codes "file") (cc, omega arith) (cc, omega arith) refl refl

no_words :
    (All IsSpace (codes "  ") → str2arg (codes "  ") ≡ [])
    × (str2arg (codes "  ") ≡ [] → All IsMark (codes "  "))
no_words = str2arg-nil (codes "  ")
