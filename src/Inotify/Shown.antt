-- ===== src/Inotify/Shown.antt =====
-- What inotify.c is to print of a list of events, as the calls in order, without its loops.
use linux_system_programming.Inotify.{flag_names, has_bit, print_flags, print_kind, print_path}
use linux_system_programming.Ipc.SeqServer.{text}
use linux_system_programming.Prelude.{
  Bool, List, String, [], ap, arith, false, if◌then◌else◌, refl, suc, sym, true, zero, ℕ, ◌%◌, ◌*◌,
  ◌++◌, ◌+◌, ◌/◌, ◌==◌, ◌^◌, ◌∙◌, ◌∷◌, ◌≡◌, ◌≤◌,
}
use linux_system_programming.Prelude.Int.{eq_ℤ, ℤ}
use linux_system_programming.Sys.{Prog, call, choose, pure, when, ◌>>◌}
use linux_system_programming.Sys.Calls.{Call, printf, printf_text}
use Prim.Native.Nat.{bit_and, bit_and-bitwise, digits, min}

-- An event, before it is written; `padding` counts the zeros after the name.
pub record FileEvent : Type 0 where
  pub wd : ℤ
  pub mask : ℕ
  pub cookie : ℕ
  pub name : List ℕ
  pub padding : ℕ

-- Bit `k` of a number.
pub bit : ℕ → ℕ → Bool
bit zero m = m % 2 == 1
bit (suc k) m = bit k (m / 2)

-- The bits of the events in the order in which they are printed.
abbrev pub event_bits : List (ℕ × String)
event_bits =
    (0, "IN_ACCESS: ")
    ∷ (2, "IN_ATTRIB: ")
    ∷ (3, "IN_CLOSE_WRITE: ")
    ∷ (4, "IN_CLOSE_NOWRITE: ")
    ∷ (8, "IN_CREATE: ")
    ∷ (9, "IN_DELETE: ")
    ∷ (10, "IN_DELETE_SELF: ")
    ∷ (1, "IN_MODIFY: ")
    ∷ (11, "IN_MOVE_SELF: ")
    ∷ (6, "IN_MOVED_FROM: ")
    ∷ (7, "IN_MOVED_TO: ")
    ∷ (5, "IN_OPEN: ")
    ∷ []

pub shown_flags : ℕ → List (ℕ × String) → List Call
shown_flags mask [] = []
shown_flags mask ((k, text) ∷ ks) =
    let rest = shown_flags mask ks in if bit k mask then printf text ∷ rest else rest

-- All paths with the watch descriptor.
pub paths_of : ℤ → List (ℤ × List ℕ) → List (List ℕ)
paths_of wd [] = []
paths_of wd ((d, path) ∷ watches) =
    let rest = paths_of wd watches in if eq_ℤ d wd then path ∷ rest else rest

-- Only the first of the paths is shown.
pub shown_path : List (List ℕ) → List Call
shown_path [] = []
shown_path (path ∷ _) = printf_text "%s/" path ∷ []

unfoldable pub shown_name : List ℕ → List Call
shown_name [] = []
shown_name (c ∷ cs) = printf_text "%s" (c ∷ cs) ∷ []

-- Bit 30 tells a directory.
pub shown_kind : ℕ → List Call
shown_kind mask = printf (if bit 30 mask then " [directory]\n" else " [file]\n") ∷ []

unfoldable pub shown : List (ℤ × List ℕ) → FileEvent → List Call
shown watches e =
    shown_flags e.mask event_bits
    ++ shown_path (paths_of e.wd watches)
    ++ shown_name e.name
    ++ shown_kind e.mask

unfoldable pub shown_all : List (ℤ × List ℕ) → List FileEvent → List Call
shown_all watches [] = []
shown_all watches (e ∷ es) = shown watches e ++ shown_all watches es

-- The calls in order, and nothing else.
unfoldable pub say_all : List Call → Prog (Unit {0})
say_all [] = pure tt
say_all (c ∷ cs) = call c >> say_all cs

pub say_all-append : (cs ds : List Call) → say_all cs >> say_all ds ≡ say_all (cs ++ ds)
unfolding say_all
say_all-append [] ds = refl
say_all-append (c ∷ cs) ds = ap (λ p. call c >> p) (say_all-append cs ds)

-- `bit_and` as the digits with the fuel `n`; more fuel than `a` changes nothing.
abbrev land : ℕ → ℕ → ℕ → ℕ
land n a b = digits (λ _. zero) min n a b

land-zero : (n b : ℕ) → land n 0 b ≡ 0
land-zero zero b = refl
land-zero (suc n) b = refl

land_more : (n m a b : ℕ) → a ≤ n → n ≤ m → land m a b ≡ land n a b
land_more n m zero b h k = land-zero m b ∙ sym (land-zero n b)
land_more zero m (suc a) b h k = absurd (omega arith)
land_more (suc n) zero (suc a) b h k = absurd (omega arith)
land_more (suc n) (suc m) (suc a) b h k =
    omega (arith, land_more n m (suc a / 2) (b / 2) (omega arith) (omega arith))

bit_and-halves : (a b : ℕ) → bit_and a b ≡ min (a % 2) (b % 2) + 2 * bit_and (a / 2) (b / 2)
bit_and-halves zero b = omega (arith, bit_and-bitwise 0 b, bit_and-bitwise 0 (b / 2))
bit_and-halves (suc a) b =
    let h : ℕ = suc a / 2 in
    omega (
      arith,
      bit_and-bitwise (suc a) b,
      bit_and-bitwise h (b / 2),
      land_more h a h (b / 2) (omega arith) (omega arith),
    )

no_bits : (n a : ℕ) → a ≤ n → bit_and a 0 ≡ 0
no_bits zero zero h = refl
no_bits zero (suc a) h = absurd (omega arith)
no_bits (suc n) a h = omega (arith, bit_and-halves a 0, no_bits n (a / 2) (omega arith))

half_power : (k : ℕ) → 2 ^ suc k / 2 ≡ 2 ^ k
half_power k = omega arith

has_bit_lem : (k mask : ℕ) → has_bit mask (2 ^ k) ≡ bit k mask
unfolding bit
has_bit_lem zero mask =
    ground (arith, bit_and-halves mask 1, no_bits (mask / 2) (mask / 2) (omega arith))
has_bit_lem (suc k) mask = ground (
  arith,
  bit_and-halves mask (2 ^ suc k),
  ap (bit_and (mask / 2)) (half_power k),
  has_bit_lem k (mask / 2),
)

-- The table of the program, by bits.
raised : List (ℕ × String) → List (ℕ × String)
raised [] = []
raised ((k, text) ∷ ks) = (2 ^ k, text) ∷ raised ks

print_flag_lem :
    (b : Bool) (text : String) (p : Prog (Unit {0})) (cs : List Call)
    → p ≡ say_all cs
    → when b (call (printf text)) >> p ≡ say_all (if b then printf text ∷ cs else cs)
unfolding say_all
print_flag_lem true text p cs h = ap (λ q. call (printf text) >> q) h
print_flag_lem false text p cs h = h

print_flags-raised :
    (mask : ℕ) (ks : List (ℕ × String))
    → print_flags mask (raised ks) ≡ say_all (shown_flags mask ks)
unfolding print_flags raised shown_flags say_all
print_flags-raised mask [] = refl
print_flags-raised mask ((k, text) ∷ ks) =
    ap (λ b. when b (call (printf text)) >> print_flags mask (raised ks)) (has_bit_lem k mask)
    ∙ print_flag_lem (bit k mask) text (print_flags mask (raised ks)) (shown_flags mask ks)
        (print_flags-raised mask ks)

pub print_flags_lem :
    (mask : ℕ) → print_flags mask flag_names ≡ say_all (shown_flags mask event_bits)
unfolding raised
print_flags_lem mask = print_flags-raised mask event_bits

path_choice :
    (b : Bool) (path : List ℕ) (p : Prog (Unit {0})) (paths : List (List ℕ))
    → p ≡ say_all (shown_path paths)
    → choose b (call (printf_text "%s/" path) >> pure tt) p
      ≡ say_all (shown_path (if b then path ∷ paths else paths))
unfolding say_all shown_path
path_choice true path p paths h = refl
path_choice false path p paths h = h

pub print_path_lem :
    (wd : ℤ) (watches : List (ℤ × List ℕ))
    → print_path wd watches ≡ say_all (shown_path (paths_of wd watches))
unfolding print_path paths_of say_all shown_path
print_path_lem wd [] = refl
print_path_lem wd ((d, path) ∷ watches) =
    path_choice (eq_ℤ d wd) path (print_path wd watches) (paths_of wd watches)
      (print_path_lem wd watches)

kind_choice :
    (b : Bool)
    → choose b (call (printf " [directory]\n")) (call (printf " [file]\n")) >> pure tt
      ≡ say_all (printf (if b then " [directory]\n" else " [file]\n") ∷ [])
unfolding say_all
kind_choice true = refl
kind_choice false = refl

pub print_kind_lem : (mask : ℕ) → print_kind mask ≡ say_all (shown_kind mask)
unfolding print_kind shown_kind
print_kind_lem mask =
    ap (λ b. choose b (call (printf " [directory]\n")) (call (printf " [file]\n")) >> pure tt)
      (has_bit_lem 30 mask)
    ∙ kind_choice (bit 30 mask)
