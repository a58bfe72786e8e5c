-- ===== src/Scheduler.antt =====
-- Kernel/src/Scheduling/Scheduling.cpp and Headers/Scheduling.h: the threads and the queue of those
-- that wait. Pointers to threads are numbers, 0 is null, and `threads` is the memory behind them.
pub mod Switching
pub mod Fairness
pub mod Stacks
mod Tests
use waifu_os.Prelude.{
  ℕ, zero, suc, ◌+◌, ◌-◌, ◌*◌, ◌/◌, ◌%◌, ◌^◌, ◌≤◌, ◌<◌, bit_and, bit_or, min, max, ◌≡◌, refl, sym,
  ap, ap₂, ◌∙◌, fun_ext, ◌≢◌, ◌↔◌, ◌⊎◌, inl, inr, Bool, true, false, not, ◌&&◌, ◌||◌, Option, none,
  some, List, [], ◌∷◌, ◌++◌, map, arith, ltb, leb, ◌==◌, if◌then◌else◌, ltb→lt, lt→ltb, leb→le,
  ==_iff, tests, Bool-cases, Option-cases, length, get_elem?, get_or, take, drop, replicate,
  length-append, length-set, length-replicate, All, u8, u16, u32, u64, add64, sub64, mul64, ◌<<<◌,
  ◌>>>◌, page_size, ◌>>=◌, >>=_assoc,
}
use waifu_os.Cstr.{CString, Buffer, write, char_at}
use waifu_os.Cstr.Format.{format}
use waifu_os.Cstr.Copy.{strncpy}
use waifu_os.ArrayList.{ArrayList, new_list, add, remove_at, get}

-- `Interrupts::InterruptFrame`
pub record InterruptFrame : Type 0 where
  pub rip : ℕ
  pub cs : ℕ
  pub rflags : ℕ
  pub rsp : ℕ
  pub ss : ℕ

-- `Interrupts::RegisterState`; `vectors` holds the words of the floating-point registers.
pub record RegisterState : Type 0 where
  pub rax : ℕ
  pub rbx : ℕ
  pub rcx : ℕ
  pub rdx : ℕ
  pub rsi : ℕ
  pub rdi : ℕ
  pub rbp : ℕ
  pub r8 : ℕ
  pub r9 : ℕ
  pub r10 : ℕ
  pub r11 : ℕ
  pub r12 : ℕ
  pub r13 : ℕ
  pub r14 : ℕ
  pub r15 : ℕ
  pub ds : ℕ
  pub es : ℕ
  pub fs : ℕ
  pub gs : ℕ
  pub vectors : ℕ → ℕ

-- `struct Thread`; the quantum is an `int64`, given by its 64 bits.
pub record Thread : Type 0 where
  pub thread_id : ℕ
  pub current_time_quantum : ℕ
  pub stack_base_address : ℕ
  pub registers : RegisterState
  pub interrupt_frame : InterruptFrame
  pub name : Buffer

-- What the interrupt handlers read and write: `registers[0]` and `frame[0]`.
pub record Cpu : Type 0 where
  pub registers : RegisterState
  pub frame : InterruptFrame

pub record Scheduler : Type 0 where
  pub running : Bool
  pub yielded_time : ℕ
  pub next_thread_id : ℕ
  pub ready_queue : ArrayList ℕ
  pub current_thread : ℕ
  pub threads : ℕ → Thread

abbrev pub store : (ℕ → Thread) → ℕ → Thread → ℕ → Thread
store threads thread value p = if p == thread then value else threads p

-- `GetTimeQuantum`
unfoldable pub get_time_quantum : ArrayList ℕ → ℕ
get_time_quantum queue = 200 / (queue.count + 1)

-- The second half of `TaskSwitch`, which is all of `TaskSwitchOnEnd`: the first thread of the queue
-- gets the processor.
unfoldable pub task_switch_on_end : Scheduler → Cpu → Option (Scheduler × Cpu)
task_switch_on_end s cpu = do
  next ← get 0 s.ready_queue 0
  let queue = remove_at 0 s.ready_queue 0
  let thread = s.threads next
  some (
    record s {
      ready_queue = queue;
      current_thread = next;
      threads =
          store s.threads next (record thread { current_time_quantum = get_time_quantum queue });
    },
    record { registers = thread.registers; frame = thread.interrupt_frame },
  )

-- The first half of `TaskSwitch`: the current thread keeps the state of the processor and waits at
-- the end of the queue.
unfoldable pub save_current : Scheduler → Cpu → Scheduler
save_current s cpu = record s {
  ready_queue = add 0 s.ready_queue s.current_thread;
  threads = store s.threads s.current_thread (record (s.threads s.current_thread) {
    interrupt_frame = cpu.frame;
    registers = cpu.registers;
    current_time_quantum = 0;
  });
}

-- `TaskSwitch`
unfoldable pub task_switch : Scheduler → Cpu → Option (Scheduler × Cpu)
task_switch s cpu = task_switch_on_end (save_current s cpu) cpu

-- `CurrentThread->CurrentTimeQuantum <= 0` on an `int64`.
abbrev pub is_used_up : ℕ → Bool
is_used_up quantum = (quantum == 0) || leb (2 ^ 63) quantum

-- The end of `TimerInterrupt`.
unfoldable pub charge : Scheduler → Cpu → ℕ → Option (Scheduler × Cpu)
charge s cpu time_ms =
    let time = if time_ms == 0 then 1 else time_ms in
    let thread = s.threads s.current_thread in
    let quantum = sub64 thread.current_time_quantum time in
    let charged = record s {
      threads = store s.threads s.current_thread (record thread { current_time_quantum = quantum });
    } in
    if is_used_up quantum then task_switch charged cpu else some (charged, cpu)

-- `TimerInterrupt`; `time_ms` is `(1.0 / PIT::GetFrequency()) * 1000`.
unfoldable pub timer_interrupt : Scheduler → Cpu → ℕ → Option (Scheduler × Cpu)
timer_interrupt s cpu time_ms =
    if not s.running || (s.ready_queue.count == 0)
    then some (s, cpu)
    else if s.current_thread == 0
    then task_switch_on_end s cpu
    else charge s cpu time_ms

-- `hTaskYield`
unfoldable pub task_yield : Scheduler → Cpu → Option (Scheduler × Cpu)
task_yield s cpu =
    if not s.running || (s.current_thread == 0)
    then some (s, cpu)
    else (let thread = s.threads s.current_thread in
        task_switch
          (record s {
            yielded_time = add64 s.yielded_time thread.current_time_quantum;
            threads = store s.threads s.current_thread (record thread { current_time_quantum = 0 });
          })
          cpu)

abbrev pub no_registers : RegisterState
no_registers = record {
  rax = 0;
  rbx = 0;
  rcx = 0;
  rdx = 0;
  rsi = 0;
  rdi = 0;
  rbp = 0;
  r8 = 0;
  r9 = 0;
  r10 = 0;
  r11 = 0;
  r12 = 0;
  r13 = 0;
  r14 = 0;
  r15 = 0;
  ds = 0;
  es = 0;
  fs = 0;
  gs = 0;
  vectors = λ i. 0;
}

-- `PAGE_SIZE * 4`
abbrev pub default_stack_size : ℕ
default_stack_size = page_size * 4

-- `stack += defaultStackSize - 3`, where `stack` is a `uint32*`.
abbrev pub stack_top : ℕ → ℕ
stack_top stack = add64 stack (4 * (default_stack_size - 3))

-- "Unnamed Thread #%0"
abbrev pub unnamed : CString
unnamed =
    b'U' ∷ b'n' ∷ b'n' ∷ b'a' ∷ b'm' ∷ b'e' ∷ b'd' ∷ b' ' ∷ b'T' ∷ b'h' ∷ b'r' ∷ b'e' ∷ b'a' ∷ b'd'
    ∷ b' ' ∷ b'#' ∷ b'%' ∷ b'0' ∷ []

-- `SetName` behind the constructor, which clears `Name[0]`; none is null, `name_address` is the place
-- of `Name`, and `fresh` is what stands there.
unfoldable pub set_name : ℕ → Buffer → ℕ → Option CString → Buffer
set_name name_address fresh id none =
    strncpy name_address (write fresh 0 0) (format unnamed (λ i. if i == 0 then id else 0)) 64
set_name name_address fresh id (some name) =
    strncpy name_address (write fresh 0 0) (char_at name) 64

-- The thread that `CreateThread` makes.
unfoldable pub new_thread : ℕ → ℕ → ℕ → ℕ → Buffer → Thread
new_thread id quantum stack entry0 name = record {
  thread_id = id;
  current_time_quantum = quantum;
  stack_base_address = stack;
  registers = record no_registers {
    rbp = add64 (stack_top stack) 4;
    ds = 0x10;
    es = 0x10;
    fs = 0x10;
    gs = 0x10;
    rdi = id;
  };
  interrupt_frame = record {
    rip = entry0;
    cs = 0x08;
    rflags = 0x202;
    rsp = stack_top stack;
    ss = 0x10;
  };
  name = name;
}

-- What `new Thread` returns: the thread's address, that of its `Name`, and the bytes there.
pub record Allocation : Type 0 where
  pub address : ℕ
  pub name_address : ℕ
  pub fresh : Buffer

-- `CreateThread`: `stack` is the answer of `calloc`.
unfoldable pub create_thread : ℕ → Allocation → Scheduler → ℕ → Option CString → Scheduler
create_thread stack new s entry0 title = if not s.running then s else record s {
  next_thread_id = add64 s.next_thread_id 1;
  threads = store s.threads new.address (
      new_thread s.next_thread_id (get_time_quantum s.ready_queue) stack entry0
        (set_name new.name_address new.fresh s.next_thread_id title));
  ready_queue = add 0 s.ready_queue new.address;
}

-- `GetThreadCount`
unfoldable pub get_thread_count : Scheduler → ℕ
get_thread_count s = s.ready_queue.count + 1

-- `ThreadExit`, up to the `Yield`, which finds no thread and returns.
unfoldable pub thread_exit : Scheduler → Scheduler
thread_exit s = record s { current_thread = 0 }

-- `hStartScheduler`: the name is "Kernel".
unfoldable pub start_scheduler : Allocation → Scheduler → Cpu → Scheduler
start_scheduler new s cpu = record s {
  next_thread_id = add64 s.next_thread_id 1;
  current_thread = new.address;
  threads = store s.threads new.address (record {
    thread_id = 0;
    current_time_quantum = get_time_quantum s.ready_queue;
    stack_base_address = 0;
    registers = cpu.registers;
    interrupt_frame = cpu.frame;
    name =
        set_name new.name_address new.fresh 0 (some (b'K' ∷ b'e' ∷ b'r' ∷ b'n' ∷ b'e' ∷ b'l' ∷ []));
  });
}

-- `Start`
unfoldable pub start : Allocation → Scheduler → Cpu → Scheduler
start new s cpu =
    if s.running
    then s
    else record (start_scheduler new (record s { ready_queue = new_list 0 }) cpu) { running = true }
