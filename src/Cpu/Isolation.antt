-- ===== src/Cpu/Isolation.antt =====
-- Which interrupts of src/cpu/interrupt.c reach the file system.
use loss_os.Prelude.{
  pick, ℕ, ◌<◌, ◌≡◌, ◌≢◌, ◌⊎◌, inl, inr, ◌∙◌, refl, Bool-cases, ltb, ◌==◌, arith, ne→==, Option,
  none, some,
}
use loss_os.Ext2.Layout.{DriverRequest}
use loss_os.Ext2.Device.{Fs}
use loss_os.Process.{
  Machine, CpuRegister, process_create_user_process, process_destroy,
  process_get_current_running_pcb_pointer, process_count_max,
}
use loss_os.Process.Scheduler.{scheduler_switch_to_next_process}
use loss_os.Drivers.Clock.{read_rtc}
use loss_os.Cpu.Kernel.{
  Kernel, UserMemory, Outcome, returns, switches, halts, waits, with_machine, with_files,
  switch_away, exit_process,
}
use loss_os.Cpu.SystemCalls.{
  file_call, console_call, process_call, screen_call, system_time, syscall,
}
use loss_os.Cpu.Interrupts.{InterruptFrame, acknowledge, timer, main_interrupt_handler}

-- The kernel as a handler leaves it.
unfoldable pub kernel_after : Outcome → Kernel
kernel_after (returns k stores) = k
kernel_after (switches k context) = k
kernel_after (halts k) = k
kernel_after (waits k) = k

abbrev pub files_of : Kernel → Fs
files_of k = (k.machine).file_system

abbrev Keeps : Fs → Outcome → Type 0
Keeps fs o = files_of (kernel_after o) ≡ fs

Keeps-elim :
    {A : Type 0} (fs : Fs) (x : Option A) (o : Outcome) (f : A → Outcome)
    → Keeps fs o
    → ((a : A) → Keeps fs (f a))
    → Keeps fs (elim x [ none ↦ o | some a ↦ f a ])
Keeps-elim fs none o f ho hf = ho
Keeps-elim fs (some a) o f ho hf = hf a

file_system-process_create_user_process :
    (m : Machine) (r : DriverRequest) (entry : ℕ)
    → ((process_create_user_process m r entry).1).file_system ≡ m.file_system
unfolding process_create_user_process
file_system-process_create_user_process m r entry = ground arith

file_system-process_destroy :
    (m : Machine) (pid : ℕ) → ((process_destroy m pid).1).file_system ≡ m.file_system
unfolding process_destroy
file_system-process_destroy m pid = ground arith

Keeps-switch_away : (k : Kernel) → Keeps (files_of k) (switch_away k)
unfolding switch_away with_machine kernel_after
Keeps-switch_away k =
    Keeps-elim (files_of k) (scheduler_switch_to_next_process process_count_max (k.machine).table) _
      _ refl (λ x. refl)

Keeps-exit_process : (k : Kernel) → Keeps (files_of k) (exit_process k)
unfolding exit_process kernel_after with_machine
Keeps-exit_process k =
    let m = k.machine in
    Keeps-elim (files_of k) (process_get_current_running_pcb_pointer m.table) _ _ refl (λ i.
      let destroyed = (process_destroy m ((m.table).process_list i).pid).1 in
      Keeps-switch_away (with_machine k destroyed)
      ∙ file_system-process_destroy m ((m.table).process_list i).pid)

Keeps-system_time : (k : Kernel) (at : ℕ) → Keeps (files_of k) (system_time k at)
unfolding system_time kernel_after
Keeps-system_time k at =
    Keeps-elim (files_of k) (read_rtc 0 (k.clock).0 (k.clock).1 (k.clock).2) _ _ refl (λ t. refl)

Keeps-file_call :
    (u : UserMemory) (k : Kernel) (eax ebx ecx : ℕ)
    → eax < 4
    → eax ≢ 2
    → eax ≢ 3
    → Keeps (files_of k) (file_call u k eax ebx ecx)
unfolding file_call with_files with_machine kernel_after
Keeps-file_call u k eax ebx ecx h h2 h3 = ground arith

Keeps-console_call :
    (u : UserMemory) (k : Kernel) (eax ebx ecx edx : ℕ)
    → Keeps (files_of k) (console_call u k eax ebx ecx edx)
unfolding console_call kernel_after
Keeps-console_call u k eax ebx ecx edx = ground arith

Keeps-process_call :
    (u : UserMemory) (k : Kernel) (eax ebx ecx : ℕ)
    → Keeps (files_of k) (process_call u k eax ebx ecx)
unfolding process_call with_files with_machine kernel_after
Keeps-process_call u k eax ebx ecx =
    let m = k.machine in
    pick (Keeps (files_of k)) (eax == 9) _ _
      (file_system-process_create_user_process m (u.request_at ebx) (u.buffer_at ebx))
      (pick (Keeps (files_of k)) (eax == 10) _ _ (Keeps-exit_process k)
        (file_system-process_destroy m ebx))

Keeps-screen_call :
    (u : UserMemory) (k : Kernel) (eax ebx ecx edx : ℕ)
    → Keeps (files_of k) (screen_call u k eax ebx ecx edx)
unfolding screen_call kernel_after
Keeps-screen_call u k eax ebx ecx edx = ground (arith, Keeps-system_time k ebx)

Keeps-syscall :
    (u : UserMemory) (k : Kernel) (r : CpuRegister)
    → r.eax ≢ 2
    → r.eax ≢ 3
    → Keeps (files_of k) (syscall u k r)
unfolding syscall
Keeps-syscall u k r h2 h3 = elim (Bool-cases (ltb r.eax 4)) [
  | inl low ↦ rw low (Keeps-file_call u k r.eax r.ebx r.ecx (ground arith) h2 h3)
  | inr high ↦ rw high (
      pick (Keeps (files_of k)) (ltb r.eax 9) _ _ (Keeps-console_call u k r.eax r.ebx r.ecx r.edx) (
        pick (Keeps (files_of k)) (ltb r.eax 12) _ _ (Keeps-process_call u k r.eax r.ebx r.ecx)
          (Keeps-screen_call u k r.eax r.ebx r.ecx r.edx)))
]

Keeps-timer : (k : Kernel) (frame : InterruptFrame) → Keeps (files_of k) (timer k frame)
unfolding timer acknowledge with_machine
Keeps-timer k frame = Keeps-switch_away _

-- An interrupt changes the disk and the caches by its own work only as system call 2, a write, or
-- 3, a removal: every other system call, a key, a tick of the timer with its switch, and an
-- exception leave them as they were. What a system call stores at an address that its caller hands
-- over is a list of stores in the answer; the source does not check these addresses, and the
-- theorem says nothing of a store that hits the caches.
pub main_interrupt_handler-files_of :
    (u : UserMemory) (scancode : ℕ) (k : Kernel) (frame : InterruptFrame)
    → (frame.int_number ≢ 0x30) ⊎ ((frame.cpu).eax ≢ 2) × ((frame.cpu).eax ≢ 3)
    → files_of (kernel_after (main_interrupt_handler u scancode k frame)) ≡ files_of k
unfolding main_interrupt_handler acknowledge kernel_after
main_interrupt_handler-files_of u scancode k frame (inl other) =
    rw (ne→== frame.int_number 0x30 other) (ground (arith, Keeps-timer k frame))
main_interrupt_handler-files_of u scancode k frame (inr (h2, h3)) =
    ground (arith, Keeps-timer k frame, Keeps-syscall u k frame.cpu h2 h3)
