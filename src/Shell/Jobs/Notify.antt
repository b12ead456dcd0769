-- ===== src/Shell/Jobs/Notify.antt =====
-- `do_job_notification` against what it promises: completed jobs leave the list, the others stay in
-- order, and a stopped job is reported once.
use linux_system_programming.Prelude.{
  Bool-cases, List, [], ap, append-nil, append_assoc, arith, if◌then◌else◌, inl, inr, not, refl,
  reverse, reverse-cons, sym, true, ◌&&◌, ◌++◌, ◌∷◌, ◌≡◌,
}
use linux_system_programming.Shell.Jobs.{
  Job, Notice, Shell, completed_notice, do_job_notification, job_is_completed, job_is_stopped,
  notify_loop, stopped_notice,
}

-- The jobs that stay, each marked if it has been reported as stopped by now.
unfoldable pub remaining : List Job → List Job
remaining [] = []
remaining (j ∷ js) =
    if job_is_completed j
    then remaining js
    else if job_is_stopped j
    then record j { notified = true } ∷ remaining js
    else j ∷ remaining js

pub reports : List Job → List Notice
reports [] = []
reports (j ∷ js) =
    if job_is_completed j
    then completed_notice j ∷ reports js
    else if job_is_stopped j && not j.notified
    then stopped_notice j ∷ reports js
    else reports js

Job-eta : (j : Job) → j.notified ≡ true → record j { notified = true } ≡ j
Job-eta j e = λ i. record j { notified = sym e i }

notify_loop_lem :
    (kept js : List Job) (out : List Notice)
    → notify_loop kept js out ≡ (reverse kept ++ remaining js, reverse out ++ reports js)
unfolding notify_loop remaining reports
notify_loop_lem kept [] out = simp append-nil
notify_loop_lem kept (j ∷ js) out = elim (Bool-cases (job_is_completed j)) [
  | inl c ↦
      rw c (
        rw (notify_loop_lem kept js (completed_notice j ∷ out)) (simp (reverse-cons, append_assoc)))
  | inr r ↦ elim (Bool-cases (job_is_stopped j)) [
    | inr q ↦ rw (r, q) (rw (notify_loop_lem (j ∷ kept) js out) (simp (reverse-cons, append_assoc)))
    | inl q ↦ elim (Bool-cases j.notified) [
      | inl m ↦
          simp (r, q, m)
            (simp (notify_loop_lem (j ∷ kept) js out, reverse-cons, append_assoc)
              (ap (λ (k : Job). (reverse kept ++ (k ∷ remaining js), reverse out ++ reports js))
                (sym (Job-eta j m))))
      | inr m ↦
          simp (r, q, m)
            (simp (
              notify_loop_lem (record j { notified = true } ∷ kept) js (stopped_notice j ∷ out),
              reverse-cons,
              append_assoc,
            ))
    ]
  ]
]

-- For every list of jobs the function leaves those of `remaining` in their order and reports those
-- of `reports`, and nothing else of the shell changes.
pub do_job_notification_lem :
    (sh : Shell)
    → do_job_notification sh
      ≡ (record sh { first_job = remaining sh.first_job }, reports sh.first_job)
unfolding do_job_notification
do_job_notification_lem sh = rw (notify_loop_lem [] sh.first_job [])

remaining-settled :
    (js : List Job) → (remaining (remaining js) ≡ remaining js) × (reports (remaining js) ≡ [])
unfolding remaining reports job_is_completed job_is_stopped
remaining-settled [] = (refl, refl)
remaining-settled (j ∷ js) = ground (arith, remaining-settled js)

-- A second notification with no change in between reports nothing and leaves the shell as it is:
-- no job is announced twice.
pub do_job_notification-once :
    (sh : Shell) → do_job_notification (do_job_notification sh).0 ≡ ((do_job_notification sh).0, [])
do_job_notification-once sh = rw (do_job_notification_lem sh) (
    rw (do_job_notification_lem (record sh { first_job = remaining sh.first_job }))
      (let (a, b) = remaining-settled sh.first_job in simp (a, b)))
