-- ===== src/Cpu/Preemption.antt =====
-- The timer interrupt of src/cpu/interrupt.c: what is saved, and what is resumed.
use loss_os.Prelude.{
  ℕ, zero, suc, ◌+◌, ◌≡◌, ◌≢◌, ◌<◌, refl, sym, ap, ◌∙◌, true, false, ◌&&◌, some, [], ◌∷◌, ◌++◌,
  Bool-cases, inl, inr, arith, ℕ_discrete, u32, subst, update, eq→==, ne→==,
}
use loss_os.Process.{
  ProcessTable, ProcessState, Context, process_count_max, is_running, running_from,
  process_get_current_running_pcb_pointer,
}
use loss_os.Process.Scheduler.{
  scheduler_save_context_to_current_running_pcb, switch_to, set_state,
  scheduler_switch_to_next_process,
}
use loss_os.Process.Rotation.{
  slot, IsScheduled, scheduler_switch_to_next_process_lem, switch_to-IsScheduled,
}
use loss_os.Cpu.Controller.{pic_ack}
use loss_os.Cpu.Kernel.{Kernel, switches, switch_away, with_machine}
use loss_os.Cpu.Interrupts.{InterruptFrame, timer, acknowledge}

running_from-IsRunning :
    (rounds i : ℕ) (t : ProcessTable) {j : ℕ}
    → running_from rounds i t ≡ some j
    → (j < i + rounds)
      × (t.is_process_active j ≡ true)
      × (is_running (t.process_list j).process_state ≡ true)
unfolding running_from
running_from-IsRunning zero i t h = cc
running_from-IsRunning (suc rounds) i t {j = j} h =
    elim (Bool-cases (t.is_process_active i && is_running (t.process_list i).process_state)) [
      | inl on ↦
          let here : running_from (suc rounds) i t ≡ some i = rw on refl in
          let same : i ≡ j = cc in
          subst
            (λ n.
              (n < i + suc rounds)
              × (t.is_process_active n ≡ true)
              × (is_running (t.process_list n).process_state ≡ true))
            same (omega arith, ground arith, ground arith)
      | inr off ↦
          let further : running_from (suc rounds) i t ≡ running_from rounds (i + 1) t =
            rw off refl in
          let rest = running_from-IsRunning rounds (i + 1) t {j = j} (sym further ∙ h) in
          (omega (arith, rest.0), rest.1, rest.2)
    ]

-- A switch leaves the saved contexts.
switch_to-context :
    (t : ProcessTable) (pid j : ℕ)
    → (((switch_to t pid).2.process_list j).context) ≡ (t.process_list j).context
unfolding switch_to set_state
switch_to-context t pid j = ground arith

-- What the timer leaves of process `i`, which was running, when it goes over to slot `j`.
pub record Preempted (k : Kernel) (frame : InterruptFrame) (i j : ℕ) (k' : Kernel) (ctx : Context)
    : Type 0 where
  pub active : (((k.machine).table).is_process_active j) ≡ true
  pub current : ((k'.machine).table).current_running_pid ≡ j
  pub only_one : IsScheduled ((k'.machine).table)
  pub running : is_running ((((k'.machine).table).process_list j).process_state) ≡ true
  pub resumed : ctx ≡ (((k'.machine).table).process_list j).context
  pub directory : (k'.machine).directory ≡ ctx.page_directory_virtual_addr
  pub saved_cpu : ((((k'.machine).table).process_list i).context).cpu ≡ frame.cpu
  pub saved_eip : ((((k'.machine).table).process_list i).context).eip ≡ frame.eip
  pub saved_eflags : ((((k'.machine).table).process_list i).context).eflags ≡ frame.eflags
  pub others :
      (h : ℕ)
      → i ≢ h
      → (((k'.machine).table).process_list h).context ≡ (((k.machine).table).process_list h).context
  pub acknowledged : k'.ports ≡ k.ports ++ (0x20, 0x20) ∷ []

-- The table after the interrupted context has been saved.
saved_table : ProcessTable → InterruptFrame → ProcessTable
saved_table t frame = scheduler_save_context_to_current_running_pcb t (record {
  cpu = frame.cpu;
  eip = frame.eip;
  eflags = frame.eflags;
  page_directory_virtual_addr = 0;
})

record Saved (t t' : ProcessTable) (frame : InterruptFrame) (i : ℕ) : Type 0 where
  same_active : t'.is_process_active ≡ t.is_process_active
  same_current : t'.current_running_pid ≡ t.current_running_pid
  scheduled : IsScheduled t'
  its_cpu : ((t'.process_list i).context).cpu ≡ frame.cpu
  its_eip : ((t'.process_list i).context).eip ≡ frame.eip
  its_eflags : ((t'.process_list i).context).eflags ≡ frame.eflags
  its_directory :
      ((t'.process_list i).context).page_directory_virtual_addr
      ≡ ((t.process_list i).context).page_directory_virtual_addr
  the_others : (h : ℕ) → i ≢ h → (t'.process_list h).context ≡ (t.process_list h).context

-- The block of process `i` with the frame's registers.
abbrev save_at : ProcessTable → InterruptFrame → ℕ → ProcessTable
save_at t frame i =
    let pcb = t.process_list i in
    let old = pcb.context in
    record t {
      process_list = update t.process_list i (record pcb {
        process_state = ProcessState.ready;
        context = record old { cpu = frame.cpu; eip = frame.eip; eflags = frame.eflags };
      });
    }

saved_table-eq :
    (t : ProcessTable) (frame : InterruptFrame) (i : ℕ)
    → process_get_current_running_pcb_pointer t ≡ some i
    → saved_table t frame ≡ save_at t frame i
unfolding saved_table scheduler_save_context_to_current_running_pcb
saved_table-eq t frame i found =
    rw (found, saved_table, scheduler_save_context_to_current_running_pcb) refl

save_at-Saved :
    (t : ProcessTable) (frame : InterruptFrame) (i : ℕ)
    → IsScheduled t
    → Saved t (save_at t frame i) frame i
save_at-Saved t frame i h = record {
  same_active = refl;
  same_current = refl;
  scheduled = λ pid on. elim (ℕ_discrete i pid) [
    | yes e ↦ absurd (ground arith)
    | no ne ↦ h pid (rw (← at_other pid ne) on)
  ];
  its_cpu = rw (eq→== i i refl) refl;
  its_eip = rw (eq→== i i refl) refl;
  its_eflags = rw (eq→== i i refl) refl;
  its_directory = rw (eq→== i i refl) refl;
  the_others = λ j ne. rw (ne→== i j ne) refl;
}
  where
    at_other : (pid : ℕ) → i ≢ pid → (save_at t frame i).process_list pid ≡ t.process_list pid
    at_other pid ne = rw (ne→== i pid ne) refl

switch_away-eq :
    (k : Kernel) (r : ℕ × Context × ProcessTable)
    → scheduler_switch_to_next_process process_count_max ((k.machine).table) ≡ some r
    → switch_away k
      ≡ switches
          (let m = k.machine in
            with_machine k
              (record m { table = r.2; directory = (r.1).page_directory_virtual_addr }))
          r.1
unfolding switch_away
switch_away-eq k r h = rw (h, switch_away) refl

-- The kernel when the scheduler is called.
before_switch : Kernel → InterruptFrame → ProcessTable → Kernel
before_switch k frame t =
    let m = k.machine in
    record k {
      machine = record m { table = t };
      ports = k.ports ++ pic_ack 0;
      pit_ticks = u32 (k.pit_ticks + 1);
    }

timer-eq :
    (k : Kernel) (frame : InterruptFrame) (i : ℕ)
    → process_get_current_running_pcb_pointer ((k.machine).table) ≡ some i
    → timer k frame ≡ switch_away (before_switch k frame (save_at ((k.machine).table) frame i))
unfolding timer acknowledge with_machine before_switch saved_table
timer-eq k frame i found =
    ap (λ t. switch_away (before_switch k frame t))
      (saved_table-eq ((k.machine).table) frame i found)

-- A timer interrupt while process `i` runs, in a state in which no other runs: the handler goes
-- over to the first active slot in cyclic order, which alone is then running, with the context that
-- was last saved for it and its page directory; the registers that the interrupt found are saved
-- for process `i`, no other saved context changes, and the interrupt is acknowledged.
pub timer_lem :
    (k : Kernel) (frame : InterruptFrame) (i : ℕ)
    → process_get_current_running_pcb_pointer ((k.machine).table) ≡ some i
    → IsScheduled ((k.machine).table)
    → (d : ℕ) × (k' : Kernel) × (ctx : Context) × (timer k frame ≡ switches k' ctx)
      × ((e : ℕ)
          → e < d
          → ((k.machine).table).is_process_active (slot ((k.machine).table).current_running_pid e)
            ≡ false)
      × Preempted k frame i (slot ((k.machine).table).current_running_pid d) k' ctx
unfolding before_switch with_machine process_get_current_running_pcb_pointer
timer_lem k frame i found h =
    let t = (k.machine).table in
    let m = k.machine in
    let t1 = save_at t frame i in
    let saved = save_at-Saved t frame i h in
    let run = running_from-IsRunning process_count_max 0 t found in
    let (d, lt, picked, on, before) = scheduler_switch_to_next_process_lem t1 i run.0 run.1 in
    let j = slot t.current_running_pid d in
    let next = switch_to-IsScheduled t1 j saved.scheduled in
    let k1 = before_switch k frame t1 in
    let r = switch_to t1 j in
    let m1 = k1.machine in
    let left =
      with_machine k1 (record m1 { table = r.2; directory = (r.1).page_directory_virtual_addr }) in
    let at_i = switch_to-context t1 j i in
    (
      d,
      left,
      r.1,
      timer-eq k frame i found ∙ switch_away-eq k1 r picked,
      before,
      record {
        active = on;
        current = next.1;
        only_one = next.0;
        running = next.2;
        resumed = next.3;
        directory = refl;
        saved_cpu = ap (λ (c : Context). c.cpu) at_i ∙ saved.its_cpu;
        saved_eip = ap (λ (c : Context). c.eip) at_i ∙ saved.its_eip;
        saved_eflags = ap (λ (c : Context). c.eflags) at_i ∙ saved.its_eflags;
        others = λ h ne. switch_to-context t1 j h ∙ saved.the_others h ne;
        acknowledged = ap (λ w. k.ports ++ w) ack;
      },
    )
  where
    ack : pic_ack 0 ≡ (0x20, 0x20) ∷ []
    ack = unfold pic_ack in refl
