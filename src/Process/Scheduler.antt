-- ===== src/Process/Scheduler.antt =====
-- src/process/scheduler.c: round robin over the slots of the process table.
use loss_os.Prelude.{ℕ, zero, suc, ◌+◌, ◌%◌, Option, none, some, update, u32, ◌==◌, if◌then◌else◌}
use loss_os.Process.{
  ProcessTable, ProcessState, Context, process_count_max, process_get_current_running_pcb_pointer,
}

unfoldable pub set_state : ProcessTable → ℕ → ProcessState → ProcessTable
set_state t pid state =
    let pcb = t.process_list pid in
    record t { process_list = update t.process_list pid (record pcb { process_state = state }) }

-- `scheduler_save_context_to_current_running_pcb`
unfoldable pub scheduler_save_context_to_current_running_pcb : ProcessTable → Context → ProcessTable
scheduler_save_context_to_current_running_pcb t ctx =
    elim (process_get_current_running_pcb_pointer t) [
      | none ↦ t
      | some i ↦
          let pcb = t.process_list i in
          let old = pcb.context in
          record t {
            process_list = update t.process_list i (record pcb {
              process_state = ProcessState.ready;
              context = record old { cpu = ctx.cpu; eip = ctx.eip; eflags = ctx.eflags };
            });
          }
    ]

-- The body of the loop in `scheduler_switch_to_next_process` for an active process. The answer is
-- the context that is switched to and the new table.
unfoldable pub switch_to : ProcessTable → ℕ → ℕ × Context × ProcessTable
switch_to t next_pid =
    let current_pid = t.current_running_pid in
    let t1 = set_state t next_pid ProcessState.running in
    let t2 = if next_pid == current_pid then t1 else set_state t1 current_pid ProcessState.ready in
    (next_pid, (t.process_list next_pid).context, record t2 { current_running_pid = next_pid })

-- The loop, which has no end if no process is active. `next_pid` is the last one looked at.
unfoldable pub switch_from : ℕ → ProcessTable → ℕ → Option (ℕ × Context × ProcessTable)
switch_from zero t last = none
switch_from (suc fuel) t last =
    let next_pid = u32 (last + 1) % process_count_max in
    let rest = switch_from fuel t next_pid in
    if t.is_process_active next_pid then some (switch_to t next_pid) else rest

unfoldable pub scheduler_switch_to_next_process :
    ℕ → ProcessTable → Option (ℕ × Context × ProcessTable)
scheduler_switch_to_next_process fuel t = switch_from fuel t t.current_running_pid
