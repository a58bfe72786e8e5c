-- ===== src/Scheduler/Tests.antt =====
-- Three threads: 1 has the processor, 2 and 3 wait.
use waifu_os.Prelude.{
  ℕ, ◌+◌, ◌*◌, ◌<◌, ◌≡◌, refl, ◌≢◌, true, false, none, some, [], ◌∷◌, ◌++◌, arith, ◌==◌,
  if◌then◌else◌,
}
use waifu_os.ArrayList.{ArrayList}
use waifu_os.ArrayList.Contents.{contents, items}
use waifu_os.Cstr.{reverse, reverse_loop}
use waifu_os.Cstr.Numbers.{to_string, to_str, to_str_loop}
use waifu_os.Cstr.Format.{format, format_loop, format_round, put_string}
use waifu_os.Cstr.Copy.{strncpy, strncpy_loop}
use waifu_os.Scheduler.{
  Allocation, new_thread, set_name, Thread, Cpu, Scheduler, no_registers, create_thread,
  task_switch, default_stack_size,
}
use waifu_os.Scheduler.Switching.{waiting, Switched, task_switch-Switched}
use waifu_os.Scheduler.Fairness.{switches, Served, switches-Served}
use waifu_os.Scheduler.Stacks.{create_thread_lem}

abbrev thread : ℕ → Thread
thread p = record {
  thread_id = p;
  current_time_quantum = 66;
  stack_base_address = 0x1000 * p;
  registers = record no_registers { rax = p };
  interrupt_frame = record { rip = p; cs = 8; rflags = 0x202; rsp = 0x1000 * p; ss = 0x10 };
  name = λ i. 0;
}

abbrev queue : ArrayList ℕ
queue = record {
  array = λ i. if i == 0 then 2 else if i == 1 then 3 else 0;
  array_size = 5;
  count = 2;
}

abbrev machine : Scheduler
machine = record {
  running = true;
  yielded_time = 0;
  next_thread_id = 3;
  ready_queue = queue;
  current_thread = 1;
  threads = thread;
}

abbrev processor : Cpu
processor = record { registers = no_registers; frame = (thread 9).interrupt_frame }

queue_items : contents queue ≡ 2 ∷ 3 ∷ []
unfolding contents items
queue_items = refl

task_switch-Switched_example :
    (r : Scheduler × Cpu) × (task_switch machine processor ≡ some r)
    × Switched machine processor 2 (3 ∷ 1 ∷ []) r
unfolding contents items
task_switch-Switched_example =
    task_switch-Switched machine processor 2 (3 ∷ 1 ∷ []) (omega arith) refl

apart : (a b : ℕ) → (a == b) ≡ false → a ≢ b
apart a b e same = ground (arith, e, same)

switches-Served_example :
    (r : Scheduler × Cpu) × (switches 2 (machine, processor) ≡ some r)
    × Served machine 3 (1 ∷ 2 ∷ []) r
switches-Served_example =
    switches-Served machine processor (2 ∷ []) 3 [] (omega arith) queue_items
      (apart 3 1 refl, (apart 3 2 refl, tt))

-- A thread at 7, with its name at 0x7C.
abbrev place : Allocation
place = record { address = 7; name_address = 0x7C; fresh = λ i. 0xCC }

-- A thread without a title is named by its number.
unnamed_thread : ((create_thread 0x10000 place machine 0x400000 none).threads 7).name 16 ≡ b'3'
unfolding create_thread new_thread set_name strncpy strncpy_loop format format_loop format_round
    put_string to_string to_str to_str_loop reverse reverse_loop
unnamed_thread = refl

create_thread_lem_example :
    (waiting (create_thread 0x10000 place machine 0x400000 none) ≡ waiting machine ++ 7 ∷ [])
    × (((create_thread 0x10000 place machine 0x400000 none).threads 7).interrupt_frame.rip
        ≡ 0x400000)
    × (0x10000 + default_stack_size
        < ((create_thread 0x10000 place machine 0x400000 none).threads 7).interrupt_frame.rsp)
create_thread_lem_example =
    create_thread_lem 0x10000 place machine 0x400000 none refl (omega arith) (omega arith)
