-- ===== src/Cpu/Tests.antt =====
-- Runs of the theorems on src/cpu.
use loss_os.Prelude.{
  ℕ, ◌+◌, ◌*◌, ◌^◌, ◌≤◌, ◌<◌, ◌≡◌, refl, inr, zeroes, codes, false, negsuc, [], length, some, ◌==◌,
  if◌then◌else◌, arith,
}
use loss_os.Process.{
  ProcessTable, ProcessState, Context, blank_pcb, blank_cpu, running_from,
  process_get_current_running_pcb_pointer,
}
use loss_os.Process.Rotation.{slot, IsScheduled}
use loss_os.Process.Tests.{two_active, kernel}
use loss_os.Drivers.Tests.{fresh_console, noon}
use loss_os.Shell.Files.{atoi}
use loss_os.Cpu.Decimal.{itoa, atoi-itoa}
use loss_os.Cpu.Descriptors.{IdtGate, initialize_idt, initialize_idt_lem, kernel_code_selector}
use loss_os.Shell.{request}
use loss_os.Cpu.Kernel.{Kernel, UserMemory, switches}
use loss_os.Cpu.Interrupts.{InterruptFrame, timer, main_interrupt_handler}
use loss_os.Cpu.Isolation.{kernel_after, files_of, main_interrupt_handler-files_of}
use loss_os.Cpu.Preemption.{Preempted, timer_lem}

atoi-itoa_example : (atoi (itoa (negsuc 1204)) ≡ negsuc 1204) × (length (itoa (negsuc 1204)) ≤ 11)
atoi-itoa_example = atoi-itoa (negsuc 1204) (omega arith)

abbrev stubs : ℕ → ℕ
stubs i = 0xC0100000 + i

abbrev no_gates : ℕ → IdtGate
no_gates i = record {
  offset_low = 0;
  segment = 0;
  reserved = 0;
  r_bit_1 = 0;
  r_bit_2 = 0;
  gate_32 = 0;
  r_bit_3 = 0;
  dpl = 0;
  seg_present = 0;
  offset_high = 0;
}

initialize_idt_example :
    let gate = initialize_idt stubs no_gates 0x30 in
    (gate.offset_high * 2 ^ 16 + gate.offset_low ≡ stubs 0x30)
    × (gate.segment ≡ kernel_code_selector)
    × (gate.seg_present ≡ 1)
    × (gate.dpl ≡ 3)
initialize_idt_example = initialize_idt_lem stubs no_gates 0x30 (omega arith) (omega arith)

-- Process 2 runs, and process 0 is ready.
abbrev busy : ProcessTable
busy = record two_active {
  process_list =
      λ i. if i == 2 then record blank_pcb { process_state = ProcessState.running } else blank_pcb;
  current_running_pid = 2;
}

busy_pointer : process_get_current_running_pcb_pointer busy ≡ some 2
unfolding process_get_current_running_pcb_pointer running_from
busy_pointer = refl

busy-IsScheduled : IsScheduled busy
busy-IsScheduled pid h = ground arith

abbrev system : Kernel
system = record {
  machine = record kernel { table = busy };
  console = fresh_console;
  pit_ticks = 7;
  ports = [];
  clock = (noon, [], 0);
  junk = 0;
}

abbrev tick : InterruptFrame
tick = record { cpu = blank_cpu; int_number = 0x20; eip = 0x1234; eflags = 0x202 }

timer_example :
    (d : ℕ) × (k' : Kernel) × (ctx : Context) × (timer system tick ≡ switches k' ctx)
    × ((e : ℕ) → e < d → busy.is_process_active (slot 2 e) ≡ false)
    × Preempted system tick 2 (slot 2 d) k' ctx
timer_example = timer_lem system tick 2 busy_pointer busy-IsScheduled

abbrev caller : UserMemory
caller = record {
  request_at = λ at. request zeroes (codes "clock") 2 0x100000 false;
  buffer_at = λ at. 0;
  string_at = λ at. zeroes;
  draw_info_at = λ at. record { x = 0; y = 0; color = 0xF; character = b'A' };
}

-- The running process ends: the switch leads to another one.
abbrev leaving : InterruptFrame
leaving = record {
  cpu = record blank_cpu { eax = 10 };
  int_number = 0x30;
  eip = 0x1234;
  eflags = 0x202;
}

main_interrupt_handler-files_of_example :
    files_of (kernel_after (main_interrupt_handler caller 0 system leaving)) ≡ files_of system
main_interrupt_handler-files_of_example =
    main_interrupt_handler-files_of caller 0 system leaving (inr (omega arith, omega arith))
