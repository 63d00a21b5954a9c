-- ===== src/Task.antt =====
-- The classes `TaskContext` and `Task` of Kernel/task.hpp and Kernel/task.cpp. Those of `Task`'s
-- methods that go through the task manager are in TaskManager.
use Prim.Native.Nat.{bit_and}
use mikanos_copy.Common.{
  ℕ, ◌+◌, ◌*◌, ◌-◌, ◌/◌, ◌%◌, ◌^◌, Bool, false, Option, none, some, List, [], ◌∷◌, ◌++◌, set,
  replicate,
}
use mikanos_copy.Common.Bits.{complement64}
use mikanos_copy.Message.{Message}

pub record TaskContext : Type 0 where
  pub cr3 : ℕ
  pub rip : ℕ
  pub rflags : ℕ
  pub reserved1 : ℕ
  pub cs : ℕ
  pub ss : ℕ
  pub fs : ℕ
  pub gs : ℕ
  pub rax : ℕ
  pub rbx : ℕ
  pub rcx : ℕ
  pub rdx : ℕ
  pub rdi : ℕ
  pub rsi : ℕ
  pub rsp : ℕ
  pub rbp : ℕ
  pub r8 : ℕ
  pub r9 : ℕ
  pub r10 : ℕ
  pub r11 : ℕ
  pub r12 : ℕ
  pub r13 : ℕ
  pub r14 : ℕ
  pub r15 : ℕ
  pub fxsave_area : List ℕ

-- `stack_` is kept as the number of its words; what they hold is written by the running task only.
pub record Task : Type 0 where
  pub id : ℕ
  pub stack : ℕ
  pub os_stack_ptr : ℕ
  pub context : TaskContext
  pub messages : List Message
  pub level : ℕ
  pub running : Bool

abbrev pub default_level : ℕ
default_level = 1

abbrev pub default_stack_bytes : ℕ
default_stack_bytes = 4096

-- `memset(&context_, 0, sizeof(context_))`.
abbrev pub zero_context : TaskContext
zero_context = record {
  cr3 = 0;
  rip = 0;
  rflags = 0;
  reserved1 = 0;
  cs = 0;
  ss = 0;
  fs = 0;
  gs = 0;
  rax = 0;
  rbx = 0;
  rcx = 0;
  rdx = 0;
  rdi = 0;
  rsi = 0;
  rsp = 0;
  rbp = 0;
  r8 = 0;
  r9 = 0;
  r10 = 0;
  r11 = 0;
  r12 = 0;
  r13 = 0;
  r14 = 0;
  r15 = 0;
  fxsave_area = replicate 512 0;
}

-- A new task. Its context is indeterminate in the source until `init_context` or a switch writes
-- it; here it is zero.
unfoldable pub new : ℕ → Task
new id = record {
  id = id;
  stack = 0;
  os_stack_ptr = 0;
  context = zero_context;
  messages = [];
  level = default_level;
  running = false;
}

abbrev pub kernel_cs : ℕ
kernel_cs = 1 * 2 ^ 3

abbrev pub kernel_ss : ℕ
kernel_ss = 2 * 2 ^ 3

-- A 32-bit store into bytes, the lowest byte first, of 0x1F80 at offset 24.
abbrev pub store_mxcsr : List ℕ → List ℕ
store_mxcsr area = set (set (set (set area 24 0x80) 25 0x1F) 26 0) 27 0

-- `cr3` is what the register holds and `stack_end` is where the allocator puts the end of the
-- resized stack.
unfoldable pub init_context : (cr3 stack_end : ℕ) → (f argument : ℕ) → Task → Task
init_context cr3 stack_end f argument task = record task {
  stack = default_stack_bytes / 8;
  context = record zero_context {
    cr3 = cr3;
    rflags = 0x202;
    cs = kernel_cs;
    ss = kernel_ss;
    rsp = (bit_and stack_end (complement64 0xF) + 2 ^ 64 - 8) % 2 ^ 64;
    rip = f;
    rdi = task.id;
    rsi = argument;
    fxsave_area = store_mxcsr (replicate 512 0);
  };
}

unfoldable pub set_level : ℕ → Task → Task
set_level level task = record task { level = level }

unfoldable pub set_running : Bool → Task → Task
set_running running task = record task { running = running }

unfoldable pub set_context : TaskContext → Task → Task
set_context context task = record task { context = context }

-- `messages_.push_back`, the first half of `Task::SendMessage`.
unfoldable pub push_message : Message → Task → Task
push_message message task = record task { messages = task.messages ++ message ∷ [] }

unfoldable pub receive_message : Task → Option Message × Task
receive_message task = elim task.messages [
  | [] ↦ (none, task)
  | m ∷ rest ↦ (some m, record task { messages = rest })
]
