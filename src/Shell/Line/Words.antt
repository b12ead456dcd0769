-- ===== src/Shell/Line/Words.antt =====
-- The words of a command line: what `parse_args` keeps, loses and has room for.
use linux_system_programming.Prelude.{
  List, Option, [], ap, append-nil, append_assoc, arith, false, length, none, refl, replicate, some,
  suc, zero, ℕ, ◌*◌, ◌++◌, ◌+◌, ◌<◌, ◌==◌, ◌∙◌, ◌∷◌, ◌≡◌, ◌≢◌, ◌≤◌,
}
use linux_system_programming.Shell.Line.{
  Place, argv_places, argv_words, copied, emit, fill_argv, first_word, left_of_line, null,
  parse_args, space, store, unset, words, words_from,
}
use mathlib.Core.Option

abbrev pub Spaceless : List ℕ → Type 0
Spaceless [] = Unit
Spaceless (c ∷ cs) = (c ≢ space) × Spaceless cs

-- A word is not empty and has no space.
abbrev pub IsWord : List ℕ → Type 0
IsWord [] = ⊥
IsWord (c ∷ cs) = Spaceless (c ∷ cs)

abbrev pub AllWords : List (List ℕ) → Type 0
AllWords [] = Unit
AllWords (w ∷ ws) = IsWord w × AllWords ws

-- The words with one space behind each.
abbrev pub unwords : List (List ℕ) → List ℕ
unwords [] = []
unwords (w ∷ ws) = w ++ space ∷ unwords ws

≢→==_false : (a b : ℕ) → a ≢ b → (a == b) ≡ false
≢→==_false a b h = ground arith

words_from-append :
    (word w rest : List ℕ) → Spaceless w → words_from word (w ++ rest) ≡ words_from (word ++ w) rest
unfolding words_from
words_from-append word [] rest h = simp append-nil
words_from-append word (c ∷ cs) rest h =
    simp (≢→==_false c space h.0, words_from-append (word ++ c ∷ []) cs rest h.1, append_assoc)

-- Splitting the words of a line, written with a space behind each, gives the same words again: no
-- word is lost, merged or reordered.
pub words-unwords : (ws : List (List ℕ)) → AllWords ws → words (unwords ws) ≡ ws
unfolding words_from emit
words-unwords [] h = refl
words-unwords ([] ∷ ws) h = absurd h.0
words-unwords ((c ∷ cs) ∷ ws) h =
    rw (words_from-append [] (c ∷ cs) (space ∷ unwords ws) h.0) (rw (words-unwords ws h.1))

abbrev pub slack : List ℕ → ℕ
slack [] = 1
slack (_ ∷ _) = 2

pub slack-append : (word : List ℕ) (c : ℕ) → slack (word ++ c ∷ []) ≡ 2
slack-append [] c = refl
slack-append (_ ∷ _) c = refl

pub length-emit :
    (word : List ℕ) (ws : List (List ℕ))
    → 2 * length (emit word ws) + 2 ≤ 2 * length ws + 2 * slack word
unfolding emit
length-emit [] ws = omega arith
length-emit (_ ∷ _) ws = omega arith

length-words_from :
    (line word : List ℕ) → 2 * length (words_from word line) ≤ length line + slack word
unfolding words_from
length-words_from [] word = ground (arith, length-emit word [])
length-words_from (c ∷ cs) word = ground (
  arith,
  length-emit word (words_from [] cs),
  length-words_from cs [],
  length-words_from cs (word ++ c ∷ []),
  slack-append word c,
)

-- The places with the words `ws` in front and `k` places behind them that are not written.
abbrev filled : List (List ℕ) → ℕ → List Place
filled [] k = replicate k unset
filled (w ∷ ws) k = copied w ∷ filled ws k

store-filled :
    (ws : List (List ℕ)) (w : List ℕ) (k i : ℕ)
    → i ≡ length ws
    → store (filled ws (suc k)) i (copied w) ≡ some (filled (ws ++ w ∷ []) k)
unfolding store
store-filled [] w k zero e = refl
store-filled [] w k (suc i) e = absurd (omega arith)
store-filled (v ∷ ws) w k zero e = absurd (omega arith)
store-filled (v ∷ ws) w k (suc i) e = rw (store-filled ws w k i (omega arith))

length-append_one : (ws : List (List ℕ)) (w : List ℕ) → length (ws ++ w ∷ []) ≡ length ws + 1
length-append_one [] w = refl
length-append_one (v ∷ ws) w = omega (arith, length-append_one ws w)

map-cons_word :
    (w : List ℕ) (o : Option (List Place)) (ws : List (List ℕ))
    → Option.map argv_words o ≡ some ws
    → Option.map argv_words (Option.map (λ rest. copied w ∷ rest) o) ≡ some (w ∷ ws)
unfolding argv_words
map-cons_word w none ws h = absurd (ground arith)
map-cons_word w (some argv) ws h = ground arith

-- Storing the NULL behind the words leaves an array with these words.
store-null :
    (ws : List (List ℕ)) (k i : ℕ)
    → i ≡ length ws
    → Option.map argv_words (store (filled ws (suc k)) i null) ≡ some ws
unfolding store argv_words
store-null [] k zero e = refl
store-null [] k (suc i) e = absurd (omega arith)
store-null (w ∷ ws) k zero e = absurd (omega arith)
store-null (w ∷ ws) k (suc i) e =
    map-cons_word w (store (filled ws (suc k)) i null) ws (store-null ws k i (omega arith))

fill_argv-fits :
    (tokens ws : List (List ℕ)) (k i : ℕ)
    → i ≡ length ws
    → length tokens < k
    → Option.map argv_words (fill_argv (filled ws k) i tokens) ≡ some (ws ++ tokens)
unfolding fill_argv
fill_argv-fits tokens ws zero i e h = absurd (omega arith)
fill_argv-fits [] ws (suc k) i e h = rw (append-nil ws) (store-null ws k i e)
fill_argv-fits (w ∷ tokens) ws (suc k) i e h =
    rw (store-filled ws w k i e, fill_argv, Option.map)
      (fill_argv-fits tokens (ws ++ w ∷ []) k (i + 1) (rw (length-append_one ws w) (omega arith))
          (omega arith)
        ∙ ap some (append_assoc ws (w ∷ []) tokens))

-- `argv` has room for the words of every line of at most 126 bytes.
pub parse_args-fits : (line : List ℕ) → length line ≤ 126 → parse_args line ≡ some (words line)
unfolding parse_args
parse_args-fits line h =
    fill_argv-fits (words line) [] argv_places 0 refl (omega (arith, length-words_from line []))

first_word-append : (w rest : List ℕ) → Spaceless w → first_word (w ++ space ∷ rest) ≡ w
unfolding first_word
first_word-append [] rest h = refl
first_word-append (c ∷ cs) rest h = simp (≢→==_false c space h.0, first_word-append cs rest h.1)

-- The text that the job list keeps of a command with arguments is its first word alone: `strdup`
-- runs after `strtok` has cut the line.
pub left_of_line_lem : (w rest : List ℕ) → IsWord w → left_of_line (w ++ space ∷ rest) ≡ w
unfolding left_of_line
left_of_line_lem [] rest h = absurd h
left_of_line_lem (c ∷ cs) rest h = rw (≢→==_false c space h.0) (first_word-append (c ∷ cs) rest h)
