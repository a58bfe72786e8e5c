-- ===== src/Scheduler/Fairness.antt =====
-- Round robin: every waiting thread gets the processor after those before it, with the state that
-- it had saved.
use waifu_os.Prelude.{
  ℕ, zero, suc, ◌≡◌, refl, ◌∙◌, ◌≢◌, Option, some, List, [], ◌∷◌, ◌++◌, length, All, ◌>>=◌,
}
use mathlib.Core.List.{append_assoc}
use waifu_os.ArrayList.Contents.{IsRoomy}
use waifu_os.Scheduler.{Cpu, Scheduler, task_switch}
use waifu_os.Scheduler.Switching.{waiting, saved, task_switch-Switched}

-- That many task switches, each with the processor as the one before left it.
unfoldable pub switches : ℕ → Scheduler × Cpu → Option (Scheduler × Cpu)
switches zero r = some r
switches (suc n) r = task_switch r.0 r.1 >>= switches n

-- The thread is none of those in the list.
abbrev pub IsOutside : ℕ → List ℕ → Type 0
IsOutside thread l = All (λ other. thread ≢ other) l

-- What holds once the thread has the processor.
pub record Served (s : Scheduler) (thread : ℕ) (queue : List ℕ) (r : Scheduler × Cpu) : Type 0 where
  pub current : r.0.current_thread ≡ thread
  pub line : waiting r.0 ≡ queue
  pub roomy : IsRoomy r.0.ready_queue
  pub resumes : r.1 ≡ saved s thread

-- For a queue with room for its items, a thread that waits behind `front`, and is neither
-- current nor in `front`, gets the processor after one switch for each thread of `front` and
-- one more, with the state that it had saved; the others wait in their old order, the former
-- current thread and `front` at the end.
pub switches-Served :
    (s : Scheduler) (cpu : Cpu) (front : List ℕ) (thread : ℕ) (back : List ℕ)
    → IsRoomy s.ready_queue
    → waiting s ≡ front ++ thread ∷ back
    → IsOutside thread (s.current_thread ∷ front)
    → (r : Scheduler × Cpu) × (switches (suc (length front)) (s, cpu) ≡ some r)
      × Served s thread (back ++ s.current_thread ∷ front) r
unfolding switches
switches-Served s cpu [] thread back roomy e outside =
    let one = task_switch-Switched s cpu thread (back ++ s.current_thread ∷ []) roomy (rw e refl) in
    (
      one.0,
      rw (one.1) refl,
      record {
        current = one.2.current;
        line = one.2.queue;
        roomy = one.2.roomy;
        resumes = one.2.resumes outside.0;
      },
    )
switches-Served s cpu (next ∷ front) thread back roomy e outside =
    let one =
      task_switch-Switched s cpu next (front ++ thread ∷ (back ++ s.current_thread ∷ [])) roomy
        (rw (e, append_assoc) refl) in
    let rest =
      switches-Served one.0.0 one.0.1 front thread (back ++ s.current_thread ∷ []) one.2.roomy
        one.2.queue (rw (one.2.current) (outside.1.0, outside.1.1)) in
    (
      rest.0,
      rw (one.1) rest.1,
      record {
        current = rest.2.current;
        line = rest.2.line ∙ rw (one.2.current, append_assoc) refl;
        roomy = rest.2.roomy;
        resumes = rest.2.resumes ∙ one.2.keeps thread outside.0;
      },
    )
