-- ===== src/Cpu/Interrupts.antt =====
-- The interrupt handler of src/cpu/interrupt.c.
use loss_os.Prelude.{ℕ, ◌+◌, ◌-◌, ◌&&◌, ◌||◌, [], ◌++◌, u32, ltb, leb, ◌==◌, if◌then◌else◌}
use loss_os.Process.{CpuRegister}
use loss_os.Process.Scheduler.{scheduler_save_context_to_current_running_pcb}
use loss_os.Drivers.Keyboard.{keyboard_isr}
use loss_os.Cpu.Controller.{pic_ack}
use loss_os.Cpu.Kernel.{Kernel, UserMemory, Outcome, returns, halts, with_machine, switch_away}
use loss_os.Cpu.SystemCalls.{syscall}

pub record InterruptFrame : Type 0 where
  pub cpu : CpuRegister
  pub int_number : ℕ
  pub eip : ℕ
  pub eflags : ℕ

unfoldable pub acknowledge : Kernel → ℕ → Kernel
acknowledge k irq = record k { ports = k.ports ++ pic_ack irq }

-- The timer's part of the handler; the directory of the saved context is not read.
unfoldable pub timer : Kernel → InterruptFrame → Outcome
timer k frame =
    let m = k.machine in
    let saved = scheduler_save_context_to_current_running_pcb m.table (record {
      cpu = frame.cpu;
      eip = frame.eip;
      eflags = frame.eflags;
      page_directory_virtual_addr = 0;
    }) in
    let k1 = acknowledge (with_machine k (record m { table = saved })) 0 in
    switch_away (record k1 { pit_ticks = u32 (k1.pit_ticks + 1) })

-- `main_interrupt_handler`, with the scancode that the keyboard's port would yield.
unfoldable pub main_interrupt_handler : UserMemory → ℕ → Kernel → InterruptFrame → Outcome
main_interrupt_handler u scancode k frame =
    let n = frame.int_number in
    let c = k.console in
    let typed = record k { console = record c { keyboard = keyboard_isr c.keyboard scancode } } in
    if (n == 0xD) || (n == 0xE)
    then halts k
    else if n == 0x21
    then returns (acknowledge typed 1) []
    else if n == 0x20
    then timer k frame
    else if n == 0x30
    then syscall u k frame.cpu
    else if ltb n 32
    then halts k
    else if leb 0x20 n && ltb n 0x30
    then returns (acknowledge k (n - 0x20)) []
    else returns k []
