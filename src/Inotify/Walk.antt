-- ===== src/Inotify/Walk.antt =====
-- The loop over the buffer of inotify.c, on the events that the kernel writes.
use linux_system_programming.Inotify.{
  c_string, event_header, flag_names, int_of, number_of, print_event, print_flags, print_kind,
  print_name, print_path, walk, word_at,
}
use linux_system_programming.Inotify.Shown.{
  FileEvent, event_bits, paths_of, print_flags_lem, print_kind_lem, print_path_lem, say_all,
  say_all-append, shown, shown_all, shown_flags, shown_kind, shown_name, shown_path,
}
use linux_system_programming.Prelude.{
  List, [], ap, append_assoc, arith, drop, false, length, ltb, refl, replicate, some, suc, sym,
  zero, ℕ, ◌%◌, ◌++◌, ◌+◌, ◌-◌, ◌/◌, ◌<◌, ◌==◌, ◌^◌, ◌∙◌, ◌∷◌, ◌≡◌, ◌≢◌, ◌≤◌, ◌⊎◌,
}
use linux_system_programming.Prelude.Int.{neg_part, negsuc, pos, pos_part, ℤ}
use linux_system_programming.Sys.{call, choose, fault, pure, ◌>>◌}
use linux_system_programming.Sys.Calls.{Call, printf_text}
use native.Mathlib.Numerals.{unary_clauses}

abbrev name_bytes : FileEvent → ℕ
name_bytes e = length e.name + e.padding

-- The four bytes of a number, the lowest first.
abbrev pub word_bytes : ℕ → List ℕ
word_bytes v = v % 256 ∷ v / 256 % 256 ∷ v / 65536 % 256 ∷ v / 16777216 % 256 ∷ []

abbrev two_complement : ℤ → ℕ
two_complement (pos n) = n
two_complement (negsuc n) = 2 ^ 32 - 1 - n

-- What the kernel stores of an event.
unfoldable pub encode : FileEvent → List ℕ
encode e =
    word_bytes (two_complement e.wd)
    ++ word_bytes e.mask
    ++ word_bytes e.cookie
    ++ word_bytes (name_bytes e)
    ++ e.name
    ++ replicate e.padding 0

unfoldable pub encode_all : List FileEvent → List ℕ
encode_all [] = []
encode_all (e ∷ es) = encode e ++ encode_all es

abbrev pub NoZero : List ℕ → Type 0
NoZero [] = Unit
NoZero (c ∷ cs) = (c ≢ 0) × NoZero cs

-- The fields fit their words; a name is followed by a zero, and without a name nothing follows.
abbrev pub WellFormed : FileEvent → Type 0
WellFormed e =
    (pos_part e.wd < 2 ^ 31)
    × (neg_part e.wd ≤ 2 ^ 31)
    × (e.mask < 2 ^ 32)
    × (length e.name + e.padding < 2 ^ 32)
    × NoZero e.name
    × (((length e.name ≡ 0) × (e.padding ≡ 0)) ⊎ ((1 ≤ length e.name) × (1 ≤ e.padding)))

abbrev pub AllWellFormed : List FileEvent → Type 0
AllWellFormed [] = Unit
AllWellFormed (e ∷ es) = WellFormed e × AllWellFormed es

number_of-word_bytes : (v : ℕ) → v < 2 ^ 32 → number_of (word_bytes v) ≡ v
unfolding number_of
number_of-word_bytes v h = omega arith

int_of-two_complement :
    (z : ℤ) → pos_part z < 2 ^ 31 → neg_part z ≤ 2 ^ 31 → int_of (two_complement z) ≡ z
int_of-two_complement z h k = ground arith

two_complement-bound :
    (z : ℤ) → pos_part z < 2 ^ 31 → neg_part z ≤ 2 ^ 31 → two_complement z < 2 ^ 32
two_complement-bound z h k = ground arith

c_string-append_zero : (name rest : List ℕ) → NoZero name → c_string (name ++ 0 ∷ rest) ≡ some name
unfolding c_string
c_string-append_zero [] rest h = refl
c_string-append_zero (c ∷ cs) rest h = ground (arith, c_string-append_zero cs rest h.1)

==_zero : (len : ℕ) → 1 ≤ len → (len == 0) ≡ false
==_zero len h = ground arith

ltb-false : (a b : ℕ) → b ≤ a → ltb a b ≡ false
ltb-false a b h = ground arith

print_name-some :
    (len : ℕ) (at w : List ℕ)
    → 1 ≤ len
    → c_string at ≡ some w
    → print_name len at ≡ call (printf_text "%s" w) >> pure tt
unfolding print_name
print_name-some len at w h e = rw (==_zero len h, e)

print_name-encode :
    (name rest : List ℕ) (padding : ℕ)
    → NoZero name
    → (((length name ≡ 0) × (padding ≡ 0)) ⊎ ((1 ≤ length name) × (1 ≤ padding)))
    → print_name (length name + padding) ((name ++ replicate padding 0) ++ rest)
      ≡ say_all (shown_name name)
unfolding print_name shown_name say_all
print_name-encode [] rest zero h k = refl
print_name-encode [] rest (suc padding) h k = absurd (omega arith)
print_name-encode (c ∷ cs) rest zero h k = absurd (omega arith)
print_name-encode (c ∷ cs) rest (suc padding) h k =
    print_name-some (length (c ∷ cs) + suc padding) _ (c ∷ cs) (omega arith) (
      rw (
        append_assoc (c ∷ cs) (0 ∷ replicate padding 0) rest,
        c_string-append_zero (c ∷ cs) (replicate padding 0 ++ rest) h,
      ))

drop-nil : {A : Type 0} (k : ℕ) → drop {A = A} k [] ≡ []
drop-nil zero = refl
drop-nil (suc k) = refl

drop_cons : {A : Type 0} (i j : ℕ) (x : A) (xs : List A) → j ≡ suc i → drop j (x ∷ xs) ≡ drop i xs
drop_cons i j x xs e = rw e

drop_add : {A : Type 0} (i k : ℕ) (xs : List A) → drop (i + k) xs ≡ drop k (drop i xs)
drop_add zero k xs = ap (λ i. drop i xs) (omega arith)
drop_add (suc i) k (x ∷ xs) = drop_cons (i + k) (suc i + k) x xs (omega arith) ∙ drop_add i k xs
drop_add (suc i) k [] = drop-nil (suc i + k) ∙ sym (drop-nil k)

drop-length :
    (name rest : List ℕ) (padding : ℕ)
    → drop (length name + padding) ((name ++ replicate padding 0) ++ rest) ≡ rest
drop-length [] rest zero = refl
drop-length [] rest (suc padding) = simp unary_clauses (drop-length [] rest padding)
drop-length (c ∷ cs) rest padding =
    drop_cons (length cs + padding) (suc (length cs) + padding) c _ (omega arith)
    ∙ drop-length cs rest padding

say_all-four :
    (ks bs cs ds : List Call)
    → say_all ks >> (say_all bs >> (say_all cs >> say_all ds)) ≡ say_all (ks ++ bs ++ cs ++ ds)
say_all-four ks bs cs ds =
    rw
      (
        say_all-append cs ds,
        say_all-append bs (cs ++ ds),
        append_assoc (ks ++ bs) cs ds,
        append_assoc ks bs (cs ++ ds),
      )
      (say_all-append ks (bs ++ (cs ++ ds)))

print_event-encode :
    (watches : List (ℤ × List ℕ)) (e : FileEvent) (rest : List ℕ)
    → WellFormed e
    → print_event watches (encode e ++ rest) ≡ say_all (shown watches e)
unfolding print_event encode shown
print_event-encode watches e rest (h1, h2, h3, h4, h5, h6) =
    rw
      (
        number_of-word_bytes e.mask h3,
        number_of-word_bytes (name_bytes e) h4,
        number_of-word_bytes (two_complement e.wd) (two_complement-bound e.wd h1 h2),
        int_of-two_complement e.wd h1 h2,
      )
      (ap
          (λ p.
            print_flags e.mask flag_names >> (print_path e.wd watches >> (p >> print_kind e.mask)))
          (print_name-encode e.name rest e.padding h5 h6)
        ∙ rw (print_flags_lem e.mask, print_path_lem e.wd watches, print_kind_lem e.mask)
            (say_all-four (shown_flags e.mask event_bits) (shown_path (paths_of e.wd watches))
              (shown_name e.name) (shown_kind e.mask)))

drop-encode :
    (e : FileEvent) (rest : List ℕ)
    → WellFormed e
    → drop (event_header + word_at 12 (encode e ++ rest)) (encode e ++ rest) ≡ rest
unfolding encode
drop-encode e rest (h1, h2, h3, h4, h5, h6) =
    drop_add event_header (word_at 12 (encode e ++ rest)) (encode e ++ rest)
    ∙ rw (number_of-word_bytes (name_bytes e) h4) (drop-length e.name rest e.padding)

walk-step :
    (fuel : ℕ) (watches : List (ℤ × List ℕ)) (buf : List ℕ)
    → event_header ≤ length buf
    → walk (suc fuel) watches buf
      ≡ print_event watches buf >> walk fuel watches (drop (event_header + word_at 12 buf) buf)
unfolding walk
walk-step fuel watches [] h = absurd (omega arith)
walk-step fuel watches (b ∷ bs) h =
    ap
      (λ c.
        choose c fault (print_event watches (b ∷ bs))
        >> walk fuel watches (drop (event_header + word_at 12 (b ∷ bs)) (b ∷ bs)))
      (ltb-false (length (b ∷ bs)) event_header h)

length-encode : (e : FileEvent) (rest : List ℕ) → event_header ≤ length (encode e ++ rest)
unfolding encode
length-encode e rest = omega arith

walk-encode :
    (fuel : ℕ) (watches : List (ℤ × List ℕ)) (e : FileEvent) (rest : List ℕ)
    → WellFormed e
    → walk (suc fuel) watches (encode e ++ rest)
      ≡ say_all (shown watches e) >> walk fuel watches rest
walk-encode fuel watches e rest h =
    walk-step fuel watches (encode e ++ rest) (length-encode e rest)
    ∙ rw (print_event-encode watches e rest h, drop-encode e rest h)

-- Of a buffer with any list of events as the kernel writes them, the loop of `handle_events` makes
-- these calls and no others: for each event in turn it prints the names of the bits that are set in
-- the mask, in the order of the table, the first watched path with the event's descriptor, the name
-- if there is one, and whether bit 30 of the mask tells a directory; it reads nothing past the
-- buffer, and needs one round more than there are events.
pub walk-encode_all :
    (es : List FileEvent) (fuel : ℕ) (watches : List (ℤ × List ℕ))
    → AllWellFormed es
    → length es < fuel
    → walk fuel watches (encode_all es) ≡ say_all (shown_all watches es)
unfolding walk encode_all shown_all say_all
walk-encode_all es zero watches h k = absurd (omega arith)
walk-encode_all [] (suc fuel) watches h k = refl
walk-encode_all (e ∷ es) (suc fuel) watches h k =
    walk-encode fuel watches e (encode_all es) h.0
    ∙ ap (λ p. say_all (shown watches e) >> p) (walk-encode_all es fuel watches h.1 (omega arith))
    ∙ say_all-append (shown watches e) (shown_all watches es)
