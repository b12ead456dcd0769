-- ===== src/Shell/Line.antt =====
-- The command line of minishell_glibc.c: what `main` makes of the bytes that `fgets` stored.
pub mod Words
use linux_system_programming.Ipc.SeqServer.{more}
use linux_system_programming.Prelude.{
  Bool, List, Option, [], false, if◌then◌else◌, none, replicate, some, suc, true, zero, ℕ, ◌&&◌,
  ◌++◌, ◌+◌, ◌==◌, ◌||◌, ◌∷◌,
}
use linux_system_programming.RefCount.{done}
use mathlib.Core.Option

abbrev pub newline : ℕ
newline = 10

abbrev pub space : ℕ
space = 32

-- The text in the buffer after `line[strcspn (line, "\n")] = '\0'`: it ends at the first newline or
-- zero byte.
unfoldable pub until_newline : List ℕ → List ℕ
until_newline [] = []
until_newline (c ∷ cs) = if (c == newline) || (c == 0) then [] else c ∷ until_newline cs

-- `strcmp (a, b) == 0`
unfoldable pub same_text : List ℕ → List ℕ → Bool
same_text [] [] = true
same_text (a ∷ r) (b ∷ q) = (a == b) && same_text r q
same_text _ _ = false

unfoldable pub emit : List ℕ → List (List ℕ) → List (List ℕ)
emit [] ws = ws
emit (c ∷ cs) ws = (c ∷ cs) ∷ ws

-- The tokens of `strtok (line, " ")`; `word` is the token being read.
unfoldable pub words_from : List ℕ → List ℕ → List (List ℕ)
words_from word [] = emit word []
words_from word (c ∷ cs) =
    let done = emit word (words_from [] cs) in
    let more = words_from (word ++ c ∷ []) cs in if c == space then done else more

abbrev pub words : List ℕ → List (List ℕ)
words = words_from []

-- What is left of `line` as a C string: `strtok` ends its first token by a zero byte.
unfoldable pub first_word : List ℕ → List ℕ
first_word [] = []
first_word (c ∷ cs) = if c == space then [] else c ∷ first_word cs

unfoldable pub left_of_line : List ℕ → List ℕ
left_of_line [] = []
left_of_line (c ∷ cs) =
    let skipped = c ∷ left_of_line cs in if c == space then skipped else first_word (c ∷ cs)

-- `argv` has 64 places, the last of them for NULL.
abbrev pub argv_places : ℕ
argv_places = 64

-- A place of `argv`: not written, NULL, or a copy of a token.
pub data Place : Type 0 where
  unset null : Place
  copied : List ℕ → Place

-- `argv[i] = v`: none if that is a write past the end of the array.
unfoldable pub store : {A : Type 0} → List A → ℕ → A → Option (List A)
store [] i v = none
store (a ∷ argv) zero v = some (v ∷ argv)
store (a ∷ argv) (suc i) v = Option.map (λ rest. a ∷ rest) (store argv i v)

-- The loop over the tokens, and the NULL behind them.
unfoldable pub fill_argv : List Place → ℕ → List (List ℕ) → Option (List Place)
fill_argv argv argc [] = store argv argc null
fill_argv argv argc (token ∷ tokens) = elim (store argv argc (copied token)) [
  | none ↦ none
  | some argv' ↦ fill_argv argv' (argc + 1) tokens
]

-- What `execvp` reads of the array: the words before the NULL.
unfoldable pub argv_words : List Place → List (List ℕ)
argv_words (copied w ∷ argv) = w ∷ argv_words argv
argv_words _ = []

-- From the allocation of `argv` to its NULL.
unfoldable pub parse_args : List ℕ → Option (List (List ℕ))
parse_args line = Option.map argv_words (fill_argv (replicate argv_places unset) 0 (words line))
