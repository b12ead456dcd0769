-- ===== src/RefCount.antt =====
-- Code/Mastering Processes and Threads/mutexdual.c: a counted object in a hash table, used by
-- threads that find and release it. The object is the only one of the program, so its bucket holds
-- it or nothing. A step is one lock call or one access to shared memory; the threads interleave in
-- any order. An access to the object after `free` is `misuse`.
pub mod Totals
pub mod Invariant
pub mod Safety
pub mod Progress
use linux_system_programming.Prelude.{
  Bool, List, [], false, get_elem?, if◌then◌else◌, replicate, set, some, true, ℕ, ◌∷◌, ◌≡◌,
}
use linux_system_programming.Prelude.Int.{is_zero, pos, ℤ, ◌+ℤ◌, ◌-ℤ◌}

-- `hashlock`, the bucket, and the object with its lock.
pub record Shared : Type 0 where
  pub hashlock : Bool
  pub linked : Bool
  pub alive : Bool
  pub f_lock : Bool
  pub f_count : ℤ

-- Before which step of `worker`, `foo_find` or `foo_rele` a thread stands; `joining` is `main`
-- before its last `pthread_join` has returned.
pub data Pc : Type 0 where
  find_lock_hash find_scan find_lock_obj find_count find_unlock_hash find_unlock_obj : Pc
  find_miss working : Pc
  rele_lock rele_count rele_unlock rele_drop rele_lock_hash rele_relock rele_test : Pc
  rele_keep rele_keep_hash rele_unlink rele_unlock_hash rele_unlock_last : Pc
  rele_destroy rele_free joining done : Pc

pub data Move : Type 0 where
  blocked : Move
  to : Shared → Pc → Move
  misuse : Move

-- An access to the object.
abbrev pub touch : Shared → Move → Move
touch m k = if m.alive then k else misuse

-- `pthread_mutex_lock (&fp->f_lock)`, `pthread_mutex_unlock (&fp->f_lock)`, the same of `hashlock`.
abbrev pub lock_obj : Shared → Pc → Move
lock_obj m p = touch m (if m.f_lock then blocked else to (record m { f_lock = true }) p)

abbrev pub unlock_obj : Shared → Pc → Move
unlock_obj m p = touch m (to (record m { f_lock = false }) p)

abbrev pub lock_hash : Shared → Pc → Move
lock_hash m p = if m.hashlock then blocked else to (record m { hashlock = true }) p

abbrev pub unlock_hash : Shared → Pc → Move
unlock_hash m p = to (record m { hashlock = false }) p

unfoldable pub foo_find : Pc → Shared → Move
foo_find find_lock_hash m = lock_hash m find_scan
foo_find find_scan m = if m.linked then touch m (to m find_lock_obj) else to m find_miss
foo_find find_lock_obj m = lock_obj m find_count
foo_find find_count m = touch m (to (record m { f_count = m.f_count +ℤ pos 1 }) find_unlock_hash)
foo_find find_unlock_hash m = unlock_hash m find_unlock_obj
foo_find find_unlock_obj m = unlock_obj m working
foo_find find_miss m = unlock_hash m done
foo_find _ m = blocked

unfoldable pub foo_rele : Pc → Shared → Move
foo_rele rele_lock m = lock_obj m rele_count
foo_rele rele_count m =
    let c = m.f_count -ℤ pos 1 in
    touch m (to (record m { f_count = c }) (if is_zero c then rele_drop else rele_unlock))
foo_rele rele_unlock m = unlock_obj m done
foo_rele rele_drop m = unlock_obj m rele_lock_hash
foo_rele rele_lock_hash m = lock_hash m rele_relock
foo_rele rele_relock m = lock_obj m rele_test
foo_rele rele_test m = touch m (to m (if is_zero m.f_count then rele_unlink else rele_keep))
foo_rele rele_keep m = unlock_obj m rele_keep_hash
foo_rele rele_keep_hash m = unlock_hash m done
foo_rele rele_unlink m =
    touch m (if m.linked then to (record m { linked = false }) rele_unlock_hash else misuse)
foo_rele rele_unlock_hash m = unlock_hash m rele_unlock_last
foo_rele rele_unlock_last m = unlock_obj m rele_destroy
foo_rele rele_destroy m = touch m (to m rele_free)
foo_rele rele_free m = touch m (to (record m { alive = false }) done)
foo_rele _ m = blocked

-- A step of a thread, `main` after its joins included.
unfoldable pub step : Pc → Shared → Move
unfolding foo_find foo_rele
step find_lock_hash m = foo_find find_lock_hash m
step find_scan m = foo_find find_scan m
step find_lock_obj m = foo_find find_lock_obj m
step find_count m = foo_find find_count m
step find_unlock_hash m = foo_find find_unlock_hash m
step find_unlock_obj m = foo_find find_unlock_obj m
step find_miss m = foo_find find_miss m
step working m = to m rele_lock
step p m = foo_rele p m

pub record System : Type 0 where
  pub shared : Shared
  pub main_pc : Pc
  pub workers : List Pc

unfoldable pub all_done : List Pc → Bool
all_done [] = true
all_done (done ∷ ps) = all_done ps
all_done (_ ∷ ps) = false

-- After `foo_alloc`, with `n` workers created.
abbrev pub init : ℕ → System
init n = record {
  shared = record {
    hashlock = false;
    linked = true;
    alive = true;
    f_lock = false;
    f_count = pos 1;
  };
  main_pc = joining;
  workers = replicate n find_lock_hash;
}

pub data Step (s : System) : System → Type 0 where
  by_worker :
      (i : ℕ) {p q : Pc} {m : Shared}
      → get_elem? s.workers i ≡ some p
      → step p s.shared ≡ to m q
      → Step s (record s { shared = m; workers = set s.workers i q })
  by_main :
      {q : Pc} {m : Shared}
      → step s.main_pc s.shared ≡ to m q
      → Step s (record s { shared = m; main_pc = q })
  joined :
      s.main_pc ≡ joining → all_done s.workers ≡ true → Step s (record s { main_pc = rele_lock })

pub data Reach (n : ℕ) : System → Type 0 where
  start : Reach n (init n)
  later : {s t : System} → Reach n s → Step s t → Reach n t
