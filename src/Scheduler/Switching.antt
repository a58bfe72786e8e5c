-- ===== src/Scheduler/Switching.antt =====
-- `TaskSwitch` hands the processor to the first waiting thread and loses no thread.
use waifu_os.Prelude.{
  ℕ, suc, ◌<◌, ◌≡◌, refl, ap, ◌∙◌, ◌≢◌, inl, inr, false, some, List, [], ◌∷◌, ◌++◌, arith, ◌==◌,
  ==_iff, Bool-cases, length,
}
use waifu_os.ArrayList.{ArrayList, remove_at}
use waifu_os.ArrayList.Contents.{contents, length-items, IsRoomy, contents-add}
use waifu_os.ArrayList.Removal.{contents-removed, remove_at-IsRoomy, get_first}
use waifu_os.Scheduler.{
  Cpu, Scheduler, store, get_time_quantum, task_switch_on_end, save_current, task_switch,
}

abbrev pub waiting : Scheduler → List ℕ
waiting s = contents s.ready_queue

-- The state of the processor that a thread keeps while it waits.
abbrev pub saved : Scheduler → ℕ → Cpu
saved s thread = record {
  registers = (s.threads thread).registers;
  frame = (s.threads thread).interrupt_frame;
}

-- What handing the processor to `next` does.
pub record Resumed (s : Scheduler) (next : ℕ) (rest : List ℕ) (r : Scheduler × Cpu) : Type 0 where
  pub current : r.0.current_thread ≡ next
  pub queue : waiting r.0 ≡ rest
  pub roomy : IsRoomy r.0.ready_queue
  pub cpu : r.1 ≡ saved s next
  pub keeps : (thread : ℕ) → saved r.0 thread ≡ saved s thread

length-positive :
    (l : ArrayList ℕ) (next : ℕ) (rest : List ℕ) → contents l ≡ next ∷ rest → 0 < l.count
unfolding contents
length-positive l next rest e =
    let sizes : length (contents l) ≡ suc (length rest) = ap (λ (t : List ℕ). length t) e in
    omega (arith, length-items l.array l.count 0, sizes)

store-saved :
    (s : Scheduler) (next quantum thread : ℕ)
    → saved
        (record s {
          threads =
              store s.threads next (record (s.threads next) { current_time_quantum = quantum });
        })
        thread
      ≡ saved s thread
store-saved s next quantum thread = elim (Bool-cases (thread == next)) [
  | inl same ↦
      let e : thread ≡ next = (==_iff thread next).0 same in rw (e, (==_iff next next).1 refl) refl
  | inr other ↦ rw other refl
]

pub task_switch_on_end-Resumed :
    (s : Scheduler) (cpu : Cpu) (next : ℕ) (rest : List ℕ)
    → IsRoomy s.ready_queue
    → waiting s ≡ next ∷ rest
    → (r : Scheduler × Cpu) × (task_switch_on_end s cpu ≡ some r) × Resumed s next rest r
unfolding task_switch_on_end
task_switch_on_end-Resumed s cpu next rest roomy e =
    let queue = remove_at 0 s.ready_queue 0 in
    (
      (
        record s {
          ready_queue = queue;
          current_thread = next;
          threads =
              store s.threads next
                (record (s.threads next) { current_time_quantum = get_time_quantum queue });
        },
        saved s next,
      ),
      rw (get_first 0 s.ready_queue next rest e) refl,
      record {
        current = refl;
        queue =
            rw
              (
                contents-removed 0 s.ready_queue 0 (length-positive s.ready_queue next rest e)
                    (omega arith),
                e,
              )
              refl;
        roomy = remove_at-IsRoomy 0 s.ready_queue 0 (omega arith) roomy;
        cpu = refl;
        keeps = store-saved s next (get_time_quantum queue);
      },
    )

-- `TaskSwitch`: the processor goes to the first thread of the queue with the old one at its end;
-- that thread gets the state back that it had saved, the old one saves the state of the processor,
-- and every other thread keeps what it had saved.
pub record Switched (s : Scheduler) (cpu : Cpu) (next : ℕ) (rest : List ℕ) (r : Scheduler × Cpu)
    : Type 0 where
  pub current : r.0.current_thread ≡ next
  pub queue : waiting r.0 ≡ rest
  pub roomy : IsRoomy r.0.ready_queue
  pub resumes : next ≢ s.current_thread → r.1 ≡ saved s next
  pub own : saved r.0 s.current_thread ≡ cpu
  pub keeps : (thread : ℕ) → thread ≢ s.current_thread → saved r.0 thread ≡ saved s thread

save_current-saved :
    (s : Scheduler) (cpu : Cpu) (thread : ℕ)
    → thread ≢ s.current_thread
    → saved (save_current s cpu) thread ≡ saved s thread
unfolding save_current
save_current-saved s cpu thread ne =
    let other : (thread == s.current_thread) ≡ false = ground arith in rw other refl

save_current-own : (s : Scheduler) (cpu : Cpu) → saved (save_current s cpu) s.current_thread ≡ cpu
unfolding save_current
save_current-own s cpu = rw ((==_iff s.current_thread s.current_thread).1 refl) refl

-- For a queue with room for its items whose list, with the current thread put at its end, is
-- `next ∷ rest`, `TaskSwitch` succeeds: `next` is current and `rest` waits; the processor gets
-- the state that `next` had saved, if that was not the current thread; the old thread has
-- saved the state of the processor, and every other thread keeps what it had saved.
pub task_switch-Switched :
    (s : Scheduler) (cpu : Cpu) (next : ℕ) (rest : List ℕ)
    → IsRoomy s.ready_queue
    → waiting s ++ s.current_thread ∷ [] ≡ next ∷ rest
    → (r : Scheduler × Cpu) × (task_switch s cpu ≡ some r) × Switched s cpu next rest r
unfolding task_switch save_current
task_switch-Switched s cpu next rest roomy e =
    let added = contents-add 0 s.ready_queue s.current_thread roomy in
    let half =
      task_switch_on_end-Resumed (save_current s cpu) cpu next rest added.1 (added.0 ∙ e) in
    (
      half.0,
      half.1,
      record {
        current = half.2.current;
        queue = half.2.queue;
        roomy = half.2.roomy;
        resumes = λ ne. half.2.cpu ∙ save_current-saved s cpu next ne;
        own = half.2.keeps s.current_thread ∙ save_current-own s cpu;
        keeps = λ thread ne. half.2.keeps thread ∙ save_current-saved s cpu thread ne;
      },
    )
