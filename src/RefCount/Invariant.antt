-- ===== src/RefCount/Invariant.antt =====
-- What holds in every reachable state.
use linux_system_programming.Prelude.{
  Bool, List, [], ap, arith, false, get_elem?, if◌then◌else◌, inl, inr, refl, set, some, suc, sym,
  true, ℕ, ◌∷◌, ◌≡◌, ◌≢◌, ◌⊎◌,
}
use linux_system_programming.Prelude.Int.{pos, ◌+ℤ◌, ◌-ℤ◌}
use linux_system_programming.RefCount.{
  Pc, Reach, Shared, Step, System, all_done, by_main, by_worker, done, find_count, find_lock_hash,
  find_lock_obj, find_miss, find_scan, find_unlock_hash, find_unlock_obj, init, joined, joining,
  later, rele_count, rele_destroy, rele_drop, rele_free, rele_keep, rele_keep_hash, rele_lock,
  rele_lock_hash, rele_relock, rele_test, rele_unlink, rele_unlock, rele_unlock_hash,
  rele_unlock_last, start, step, to, working,
}
use linux_system_programming.RefCount.Totals.{le-total, total, total-replicate, total-set}

-- A thread that holds the table's lock, the object's lock, a reference that it has counted.
abbrev pub has_hash : Pc → ℕ
has_hash find_scan = 1
has_hash find_lock_obj = 1
has_hash find_count = 1
has_hash find_unlock_hash = 1
has_hash find_miss = 1
has_hash rele_relock = 1
has_hash rele_test = 1
has_hash rele_keep = 1
has_hash rele_keep_hash = 1
has_hash rele_unlink = 1
has_hash rele_unlock_hash = 1
has_hash _ = 0

abbrev pub has_obj : Pc → ℕ
has_obj find_count = 1
has_obj find_unlock_hash = 1
has_obj find_unlock_obj = 1
has_obj rele_count = 1
has_obj rele_unlock = 1
has_obj rele_drop = 1
has_obj rele_test = 1
has_obj rele_keep = 1
has_obj rele_unlink = 1
has_obj rele_unlock_hash = 1
has_obj rele_unlock_last = 1
has_obj _ = 0

abbrev pub has_ref : Pc → ℕ
has_ref find_unlock_hash = 1
has_ref find_unlock_obj = 1
has_ref working = 1
has_ref rele_lock = 1
has_ref rele_count = 1
has_ref _ = 0

-- A worker that has found nothing, or that has seen the count at 0.
abbrev pub astray : Pc → ℕ
astray find_miss = 1
astray rele_drop = 1
astray rele_lock_hash = 1
astray rele_relock = 1
astray rele_test = 1
astray rele_keep = 1
astray rele_keep_hash = 1
astray rele_unlink = 1
astray rele_unlock_hash = 1
astray rele_unlock_last = 1
astray rele_destroy = 1
astray rele_free = 1
astray joining = 1
astray _ = 0

abbrev pub busy : Pc → ℕ
busy done = 0
busy _ = 1

abbrev pub bit : Bool → ℕ
bit b = if b then 1 else 0

-- While `main` waits for the workers it holds one reference.
pub record SharedOk (m : Shared) (ps : List Pc) : Type 0 where
  pub lives : m.alive ≡ true
  pub links : m.linked ≡ true
  pub counts : m.f_count ≡ pos (suc (total has_ref ps))
  pub hash : bit m.hashlock ≡ total has_hash ps
  pub obj : bit m.f_lock ≡ total has_obj ps
  pub calm : total astray ps ≡ 0

-- When they are done, `main` is alone, and its step says what the shared state is.
abbrev pub left : Pc → ℕ
left rele_lock = 1
left rele_count = 1
left _ = 0

abbrev pub still_linked : Pc → Bool
still_linked rele_lock = true
still_linked rele_count = true
still_linked rele_drop = true
still_linked rele_lock_hash = true
still_linked rele_relock = true
still_linked rele_test = true
still_linked rele_unlink = true
still_linked _ = false

abbrev pub still_alive : Pc → Bool
still_alive done = false
still_alive _ = true

abbrev pub on_way : Pc → Bool
on_way rele_lock = true
on_way rele_count = true
on_way rele_drop = true
on_way rele_lock_hash = true
on_way rele_relock = true
on_way rele_test = true
on_way rele_unlink = true
on_way rele_unlock_hash = true
on_way rele_unlock_last = true
on_way rele_destroy = true
on_way rele_free = true
on_way done = true
on_way _ = false

pub record Last (p : Pc) (m : Shared) : Type 0 where
  pub way : on_way p ≡ true
  pub alive : m.alive ≡ still_alive p
  pub linked : m.linked ≡ still_linked p
  pub counted : m.f_count ≡ pos (left p)
  pub hash_own : bit m.hashlock ≡ has_hash p
  pub obj_own : bit m.f_lock ≡ has_obj p

abbrev pub Inv : System → Type 0
Inv s =
    ((s.main_pc ≡ joining) × SharedOk s.shared s.workers)
    ⊎ ((total busy s.workers ≡ 0) × Last s.main_pc s.shared)

pub worker-SharedOk :
    (p q : Pc) (m m' : Shared) (ps : List Pc) (i : ℕ)
    → get_elem? ps i ≡ some p
    → SharedOk m ps
    → step p m ≡ to m' q
    → SharedOk m' (set ps i q)
unfolding step ◌+ℤ◌ ◌-ℤ◌
worker-SharedOk p q m m' ps i g v e = ground (
  arith,
  total-set has_ref ps i p q g,
  total-set has_hash ps i p q g,
  total-set has_obj ps i p q g,
  total-set astray ps i p q g,
  le-total astray ps i p g,
)

pub main-Last : (p q : Pc) (m m' : Shared) → Last p m → step p m ≡ to m' q → Last q m'
unfolding step ◌-ℤ◌
main-Last p q m m' v e = ground arith

all_done-busy : (ps : List Pc) → all_done ps ≡ true → total busy ps ≡ 0
unfolding all_done total
all_done-busy [] h = refl
all_done-busy (p ∷ ps) h = ground (arith, all_done-busy ps)

-- A thread that is done holds nothing.
none_held :
    (ps : List Pc)
    → total busy ps ≡ 0
    → (total has_hash ps ≡ 0) × (total has_obj ps ≡ 0) × (total has_ref ps ≡ 0)
unfolding total
none_held [] h = (refl, refl, refl)
none_held (p ∷ ps) h = ground (arith, none_held ps)

init-Inv : (n : ℕ) → Inv (init n)
init-Inv n = inl (
  refl,
  record {
    lives = refl;
    links = refl;
    counts = ap (λ k. pos (suc k)) (sym (total-replicate has_ref find_lock_hash n refl));
    hash = sym (total-replicate has_hash find_lock_hash n refl);
    obj = sym (total-replicate has_obj find_lock_hash n refl);
    calm = total-replicate astray find_lock_hash n refl;
  },
)

idle-still :
    (p q : Pc) (m m' : Shared) (ps : List Pc) (i : ℕ)
    → get_elem? ps i ≡ some p
    → total busy ps ≡ 0
    → step p m ≢ to m' q
unfolding step
idle-still p q m m' ps i g h e = ground (arith, le-total busy ps i p g)

joined-Last : (m : Shared) (ps : List Pc) → SharedOk m ps → total busy ps ≡ 0 → Last rele_lock m
joined-Last m ps v h = ground (arith, none_held ps h)

joining_stuck : (p q : Pc) (m m' : Shared) → p ≡ joining → step p m ≢ to m' q
unfolding step
joining_stuck p q m m' j e = ground arith

pub Last-not_joining : (p : Pc) (m : Shared) → p ≡ joining → ¬ Last p m
Last-not_joining p m j v = ground arith

Step-Inv : {s t : System} → Step s t → Inv s → Inv t
Step-Inv {s} (by_worker i {p} {q} {m} g e) (inl (j, v)) =
    inl (j, worker-SharedOk p q s.shared m s.workers i g v e)
Step-Inv {s} (by_worker i {p} {q} {m} g e) (inr (h, v)) =
    absurd (idle-still p q s.shared m s.workers i g h e)
Step-Inv {s} (by_main {q} {m} e) (inl (j, v)) = absurd (joining_stuck s.main_pc q s.shared m j e)
Step-Inv {s} (by_main {q} {m} e) (inr (h, v)) = inr (h, main-Last s.main_pc q s.shared m v e)
Step-Inv {s} (joined j d) (inl (_, v)) =
    inr (all_done-busy s.workers d, joined-Last s.shared s.workers v (all_done-busy s.workers d))
Step-Inv {s} (joined j d) (inr (h, v)) = absurd (Last-not_joining s.main_pc s.shared j v)

pub Reach-Inv : {n : ℕ} {s : System} → Reach n s → Inv s
Reach-Inv {n} start = init-Inv n
Reach-Inv (later r st) = Step-Inv st (Reach-Inv r)
