-- ===== src/Cpu/Kernel.antt =====
-- What src/cpu/interrupt.c works on: the kernel's state, the caller's memory, and the ends of a
-- handler.
use loss_os.Prelude.{
  ℕ, ◌-◌, ◌^◌, Bool, ℤ, pos, negsuc, Bytes, List, ◌∷◌, ltb, if◌then◌else◌, none, some,
}
use loss_os.Ext2.Layout.{DriverRequest}
use loss_os.Process.{
  Machine, Context, process_count_max, process_destroy, process_get_current_running_pcb_pointer,
}
use loss_os.Process.Scheduler.{scheduler_switch_to_next_process}
use loss_os.Drivers.Console.{Console}
use loss_os.Drivers.Clock.{Sample}
use loss_os.Cpu.Controller.{PortWrites}

-- What the system keeps. `clock` is what the clock's chip answers: the first pass, those that
-- follow, and register B; `junk` is what an uninitialised variable holds.
pub record Kernel : Type 0 where
  pub machine : Machine
  pub console : Console
  pub pit_ticks : ℕ
  pub ports : PortWrites
  pub clock : Sample × List Sample × ℕ
  pub junk : ℕ

pub record DrawInfo : Type 0 where
  pub x : ℕ
  pub y : ℕ
  pub color : ℕ
  pub character : ℕ

-- The caller's memory, read through the addresses that it hands over: a request and the address in
-- its `buf`, a text, and what is to be drawn.
pub record UserMemory : Type 0 where
  pub request_at : ℕ → DriverRequest
  pub buffer_at : ℕ → ℕ
  pub string_at : ℕ → Bytes
  pub draw_info_at : ℕ → DrawInfo

-- What a system call stores in the caller's memory.
pub data Store : Type 0 where
  store_byte : ℕ → ℤ → Store
  store_buffer : Bytes → Store
  store_char : ℕ → ℕ → Store
  store_time : ℕ → Sample → Store

-- How a handler ends: it returns, it leaves for another process, it halts, or it waits in a loop.
pub data Outcome : Type 0 where
  returns : Kernel → List Store → Outcome
  switches : Kernel → Context → Outcome
  halts : Kernel → Outcome
  waits : Kernel → Outcome

-- A C `bool` as the `int8_t` that is stored.
abbrev pub flag : Bool → ℤ
flag b = if b then pos 1 else pos 0

-- `(int) n` for a `uint32_t`
unfoldable pub as_int : ℕ → ℤ
as_int n = if ltb n (2 ^ 31) then pos n else negsuc (2 ^ 32 - 1 - n)

unfoldable pub with_machine : Kernel → Machine → Kernel
with_machine k m = record k { machine = m }

unfoldable pub with_files : Kernel → ℤ → ℕ → Machine → List Store → Outcome
with_files k code at m stores = returns (with_machine k m) (store_byte at code ∷ stores)

-- The switch at the end of a time slice or of a process. The loop of the scheduler has no end if no
-- process is active.
unfoldable pub switch_away : Kernel → Outcome
switch_away k =
    let m = k.machine in
    elim (scheduler_switch_to_next_process process_count_max m.table) [
      | none ↦ waits k
      | some (pid, context, t) ↦
          switches
            (with_machine k
              (record m { table = t; directory = context.page_directory_virtual_addr }))
            context
    ]

-- System call 10: the running process ends.
unfoldable pub exit_process : Kernel → Outcome
exit_process k =
    let m = k.machine in
    elim (process_get_current_running_pcb_pointer m.table) [
      | none ↦ halts k
      | some i ↦ switch_away (with_machine k (process_destroy m ((m.table).process_list i).pid).1)
    ]
