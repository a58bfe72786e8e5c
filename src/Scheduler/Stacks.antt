-- ===== src/Scheduler/Stacks.antt =====
-- The stack that `CreateThread` gives to a thread.
use waifu_os.Prelude.{ℕ, ◌+◌, ◌*◌, ◌^◌, ◌<◌, ◌≡◌, refl, true, Option, [], ◌∷◌, ◌++◌, arith, ◌==◌}
use waifu_os.ArrayList.Contents.{IsRoomy, contents-add}
use waifu_os.Cstr.{CString}
use waifu_os.Scheduler.{Allocation, Scheduler, create_thread, new_thread, default_stack_size}
use waifu_os.Scheduler.Switching.{waiting}

-- While the scheduler runs and the queue has room for its items, `CreateThread` puts the new
-- thread at the end of the queue with its entry as the instruction pointer; its stack pointer
-- stands behind the stack that was allocated, if that ends well below 2^64.
pub create_thread_lem :
    (stack : ℕ) (new : Allocation) (s : Scheduler) (entry0 : ℕ) (title : Option CString)
    → s.running ≡ true
    → IsRoomy s.ready_queue
    → stack + 4 * default_stack_size < 2 ^ 64
    → (waiting (create_thread stack new s entry0 title) ≡ waiting s ++ new.address ∷ [])
      × (((create_thread stack new s entry0 title).threads new.address).interrupt_frame.rip
          ≡ entry0)
      × (stack + default_stack_size
          < ((create_thread stack new s entry0 title).threads new.address).interrupt_frame.rsp)
unfolding create_thread new_thread
create_thread_lem stack new s entry0 title running roomy h =
    let same : (new.address == new.address) ≡ true = ground arith in
    (
      rw running ((contents-add 0 s.ready_queue new.address roomy).0),
      rw (running, same) refl,
      rw (running, same) (omega arith),
    )
