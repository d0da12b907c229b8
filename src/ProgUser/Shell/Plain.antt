-- ===== src/ProgUser/Shell/Plain.antt =====
-- The calls of src/prog_user.c that have nothing to do with a mutex or with input.
use phase1_myunivos.Base.{Option, refl, ℕ, ◌≡◌}
use phase1_myunivos.ProgUser.{
  Answer, UserCall, io_flush, mutex_init, proc_exit, proc_get_name, proc_get_pid, proc_sleep,
  sys_get_name, sys_get_time,
}
use phase1_myunivos.ProgUser.Shell.Locks.{IsPlain, after_call, broken, free, holds}

-- A call that changes nothing in either state.
unruled :
    (c : UserCall)
    → ((o : Option Answer) → after_call c o free ≡ free)
    → ((o : Option Answer) (n : ℕ) → after_call c o (holds n) ≡ holds n)
    → IsPlain c
unfolding after_call
unruled c a b o free = a o
unruled c a b o (holds n) = b o n
unruled c a b o broken = refl

pub sys_get_time-IsPlain : IsPlain sys_get_time
unfolding after_call
sys_get_time-IsPlain = unruled sys_get_time (λ o. refl) (λ o n. refl)

pub proc_sleep-IsPlain : (n : ℕ) → IsPlain (proc_sleep n)
unfolding after_call
proc_sleep-IsPlain n = unruled (proc_sleep n) (λ o. refl) (λ o m. refl)

pub proc_exit-IsPlain : (n : ℕ) → IsPlain (proc_exit n)
unfolding after_call
proc_exit-IsPlain n = unruled (proc_exit n) (λ o. refl) (λ o m. refl)

pub proc_get_pid-IsPlain : IsPlain proc_get_pid
unfolding after_call
proc_get_pid-IsPlain = unruled proc_get_pid (λ o. refl) (λ o m. refl)

pub proc_get_name-IsPlain : IsPlain proc_get_name
unfolding after_call
proc_get_name-IsPlain = unruled proc_get_name (λ o. refl) (λ o m. refl)

pub sys_get_name-IsPlain : IsPlain sys_get_name
unfolding after_call
sys_get_name-IsPlain = unruled sys_get_name (λ o. refl) (λ o m. refl)

pub mutex_init-IsPlain : IsPlain mutex_init
unfolding after_call
mutex_init-IsPlain = unruled mutex_init (λ o. refl) (λ o m. refl)

pub io_flush-IsPlain : (n : ℕ) → IsPlain (io_flush n)
unfolding after_call
io_flush-IsPlain n = unruled (io_flush n) (λ o. refl) (λ o m. refl)
