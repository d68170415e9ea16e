-- ===== src/Server/Exec/Shell/Words.antt =====
-- exec.rs, `shell_quote`: what a shell makes of a quoted command line.
use Prim.Native.Char.{Char, code}
use Prim.Native.String.{[] as nil, ◌∷◌ as ◌▹◌}
use text.Mathlib.TextLemmas.{cons-append, nil-append, append-nil, append_assoc}
use text.Mathlib.TextEquality.{Char-path}
use remote_workspace.Prelude.{
  ℕ, String, ◌≡◌, ◌∙◌, ap, sym, refl, Bool, ◌||◌, ◌&&◌, leb, Option, none, some, List, [], ◌∷◌, map,
  ◌==◌, str_eq, ◌<>◌, if◌then◌else◌, inl, inr, Bool-cases, arith,
}
use remote_workspace.Server.Exec.Shell.{shell_quote, replace_quotes, join_spaced, profile_script}

-- Where the reader of a command line stands: between words, in a word, in single quotes, or after a
-- backslash.
pub data Place : Type 0 where
  between in_word quoted escaped : Place

-- A character goes to the front of the first word.
abbrev pub onto : Char → Option (List String) → Option (List String)
onto c none = none
onto c (some []) = none
onto c (some (w ∷ ws)) = some ((c ▹ w) ∷ ws)

abbrev pub new_word : Option (List String) → Option (List String)
new_word none = none
new_word (some ws) = some (nil ∷ ws)

-- Letters, digits, and the characters of which no shell makes anything else.
abbrev pub is_plain : ℕ → Bool
is_plain c =
    (leb 97 c && leb c 122)
    || ((leb 65 c && leb c 90)
        || ((leb 48 c && leb c 57) || (c == 45 || (c == 46 || (c == 47 || c == 95)))))

-- The words of a command line by the rules of POSIX for backslashes and single quotes (Shell Command
-- Language, 2.2.1 and 2.2.2); a line that needs any other rule has none.
unfoldable pub words : Place → String → Option (List String)
words between nil = some []
words in_word nil = some (nil ∷ [])
words quoted nil = none
words escaped nil = none
words between (c ▹ s) =
    let skip = words between s in
    let quote = words quoted s in
    let escape = words escaped s in
    let word = onto c (words in_word s) in
    if code c == 32
    then skip
    else if code c == 39
    then quote
    else if code c == 92
    then escape
    else if is_plain (code c)
    then word
    else none
words in_word (c ▹ s) =
    let end = new_word (words between s) in
    let quote = words quoted s in
    let escape = words escaped s in
    let word = onto c (words in_word s) in
    if code c == 32
    then end
    else if code c == 39
    then quote
    else if code c == 92
    then escape
    else if is_plain (code c)
    then word
    else none
words quoted (c ▹ s) =
    let close = words in_word s in
    let inside = onto c (words quoted s) in if code c == 39 then close else inside
words escaped (c ▹ s) = if code c == 10 then none else onto c (words in_word s)

abbrev pub words_of : String → Option (List String)
words_of s = words between s

-- A text goes to the front of the first word.
onto_all : String → Option (List String) → Option (List String)
onto_all nil ws = ws
onto_all (c ▹ s) ws = onto c (onto_all s ws)

-- The escape of a quote, read in quotes, is the quote.
words-escape : (t : String) → words quoted ("'\\''" <> t) ≡ onto "'" (words quoted t)
unfolding words
words-escape t = rw cons-append (rw cons-append (rw cons-append (rw cons-append (rw nil-append))))

onto-at : (c d : Char) (ws : Option (List String)) → code c ≡ code d → onto c ws ≡ onto d ws
onto-at c d ws e = ap (λ x. onto x ws) (Char-path c d e)

words-replace_quotes :
    (s rest : String)
    → words quoted (replace_quotes s <> ("'" <> rest)) ≡ onto_all s (words in_word rest)
unfolding words replace_quotes onto_all
words-replace_quotes nil rest = rw nil-append (rw cons-append (rw nil-append))
words-replace_quotes (c ▹ s) rest = elim (Bool-cases (code c == 39)) [
  | inl mark ↦ rw mark (
      ap (words quoted) (append_assoc "'\\''" (replace_quotes s) ("'" <> rest))
      ∙ words-escape (replace_quotes s <> ("'" <> rest))
      ∙ ap (onto "'") (words-replace_quotes s rest)
      ∙ onto-at "'" c (onto_all s (words in_word rest)) (ground arith))
  | inr other ↦ rw other (
      ap (words quoted) (cons-append c (replace_quotes s) ("'" <> rest))
      ∙ rw other (ap (onto c) (words-replace_quotes s rest)))
]

-- A quoted text, where a word may begin, is the beginning of a word.
words-shell_quote :
    (s rest : String) → words between (shell_quote s <> rest) ≡ onto_all s (words in_word rest)
unfolding words shell_quote onto_all
words-shell_quote nil rest = rw cons-append (rw cons-append (rw nil-append))
words-shell_quote (c ▹ s) rest =
    ap (words between) (append_assoc "'" (replace_quotes (c ▹ s) <> "'") rest)
    ∙ rw cons-append (
        rw nil-append (
          ap (words quoted) (append_assoc (replace_quotes (c ▹ s)) "'" rest)
          ∙ words-replace_quotes (c ▹ s) rest))

onto_all-some :
    (s w : String) (ws : List String) → onto_all s (some (w ∷ ws)) ≡ some ((s <> w) ∷ ws)
unfolding onto_all
onto_all-some nil w ws = rw nil-append
onto_all-some (c ▹ s) w ws = rw (onto_all-some s w ws) (rw cons-append)

words-join_spaced :
    (argv : List String) → words between (join_spaced (map shell_quote argv)) ≡ some argv
unfolding join_spaced words
words-join_spaced [] = refl
words-join_spaced (s ∷ []) =
    ap (words between) (sym (append-nil (shell_quote s)))
    ∙ words-shell_quote s nil
    ∙ onto_all-some s nil []
    ∙ ap (λ t. some (t ∷ [])) (append-nil s)
words-join_spaced (s ∷ t ∷ rest) =
    words-shell_quote s (" " <> join_spaced (map shell_quote (t ∷ rest)))
    ∙ ap (onto_all s) (rw cons-append (rw nil-append (ap new_word (words-join_spaced (t ∷ rest)))))
    ∙ onto_all-some s nil (t ∷ rest)
    ∙ ap (λ w. some (w ∷ t ∷ rest)) (append-nil s)

-- What stands in front of the command line in a script.
abbrev pub preamble : (setup : String) → String
preamble setup = if str_eq setup "" then "" else setup <> "\n"

-- A script is its setup, on lines of its own, and a last line of which a shell makes the word exec and
-- the argv, whatever characters are in it.
pub profile_script-words :
    (setup : String) (argv : List String)
    → (line : String) × (profile_script setup argv ≡ preamble setup <> line)
      × (words between line ≡ some ("exec" ∷ argv))
unfolding profile_script words
profile_script-words setup argv = (
  "exec " <> join_spaced (map shell_quote argv),
  elim (Bool-cases (str_eq setup "")) [
    | inl bare ↦ rw bare (rw nil-append)
    | inr given ↦ rw given (
        ap (λ t. setup <> t) (append_assoc "\n" "exec " (join_spaced (map shell_quote argv)))
        ∙ sym (append_assoc setup "\n" ("exec " <> join_spaced (map shell_quote argv))))
  ],
  rw cons-append (
      rw cons-append (
        rw cons-append
          (rw cons-append (rw cons-append (rw nil-append (rw (words-join_spaced argv))))))),
)
