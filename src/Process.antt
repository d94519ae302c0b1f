-- ===== src/Process.antt =====
-- Processes: src/process/process.c, and the scheduler of src/process/scheduler.c.
pub mod Scheduler
pub mod Rotation
pub mod Lifecycle
pub mod Creation
pub mod Tests
use loss_os.Prelude.{
  ℕ, zero, suc, ◌+◌, ◌-◌, ◌*◌, ◌/◌, ◌%◌, ◌^◌, Bool, true, false, not, ◌||◌, ◌&&◌, Option, none,
  some, Bytes, zeroes, update, u32, ltb, leb, bit_or, ◌==◌, if◌then◌else◌,
}
use loss_os.Ext2.Layout.{DriverRequest}
use loss_os.Ext2.Device.{Fs}
use loss_os.Ext2.Read.{read}
use loss_os.Text.{is_zero}
use loss_os.Paging.{
  Paging, page_frame_size, paging_directory_table_max_count, paging_allocate_check,
  paging_allocate_user_page_frame, paging_create_new_page_directory, paging_free_page_directory,
}

abbrev pub process_count_max : ℕ
process_count_max = 16

-- `NO_RUNNING_PROCESS`, -1 as a `uint32_t`
abbrev pub no_running_process : ℕ
no_running_process = 2 ^ 32 - 1

abbrev pub kernel_virtual_address_base : ℕ
kernel_virtual_address_base = 0xC0000000

pub data ProcessState : Type 0 where
  ready : ProcessState
  running : ProcessState
  block : ProcessState

abbrev pub is_running : ProcessState → Bool
is_running ProcessState.ready = false
is_running ProcessState.running = true
is_running ProcessState.block = false

pub record CpuRegister : Type 0 where
  pub edi : ℕ
  pub esi : ℕ
  pub ebp : ℕ
  pub esp : ℕ
  pub ebx : ℕ
  pub edx : ℕ
  pub ecx : ℕ
  pub eax : ℕ
  pub gs : ℕ
  pub fs : ℕ
  pub es : ℕ
  pub ds : ℕ

pub record Context : Type 0 where
  pub cpu : CpuRegister
  pub eip : ℕ
  pub eflags : ℕ
  pub page_directory_virtual_addr : ℕ

pub record ProcessControlBlock : Type 0 where
  pub pid : ℕ
  pub name : Bytes
  pub process_state : ProcessState
  pub context : Context
  pub virtual_addr_used : ℕ → ℕ
  pub data_virtual_addr_used : ℕ → Bool
  pub page_frame_used_count : ℕ

abbrev pub blank_cpu : CpuRegister
blank_cpu = record {
  edi = 0;
  esi = 0;
  ebp = 0;
  esp = 0;
  ebx = 0;
  edx = 0;
  ecx = 0;
  eax = 0;
  gs = 0;
  fs = 0;
  es = 0;
  ds = 0;
}

-- A block of zeroes. The page directory of a zero pointer is none of the list.
abbrev pub blank_pcb : ProcessControlBlock
blank_pcb = record {
  pid = 0;
  name = zeroes;
  process_state = ProcessState.ready;
  context = record {
    cpu = blank_cpu;
    eip = 0;
    eflags = 0;
    page_directory_virtual_addr = paging_directory_table_max_count;
  };
  virtual_addr_used = λ i. 0;
  data_virtual_addr_used = λ i. false;
  page_frame_used_count = 0;
}

-- `_process_list` and `process_manager_state`. A write past the list is kept at its index.
pub record ProcessTable : Type 0 where
  pub process_list : ℕ → ProcessControlBlock
  pub is_process_active : ℕ → Bool
  pub active_process_count : ℕ
  pub current_running_pid : ℕ

-- The loop of `process_list_get_inactive_index`, which stops behind the last slot at the latest.
unfoldable pub inactive_from : ℕ → ℕ → (ℕ → Bool) → ℕ
inactive_from zero ret active = ret
inactive_from (suc rounds) ret active =
    let rest = inactive_from rounds (ret + 1) active in if active ret then rest else ret

unfoldable pub process_list_get_inactive_index : ProcessTable → ℕ × ProcessTable
process_list_get_inactive_index t =
    let ret = inactive_from process_count_max 0 t.is_process_active in
    (
      ret,
      record t {
        is_process_active = update t.is_process_active ret true;
        active_process_count = u32 (t.active_process_count + 1);
      },
    )

unfoldable pub running_from : ℕ → ℕ → ProcessTable → Option ℕ
running_from zero i t = none
running_from (suc rounds) i t =
    let rest = running_from rounds (i + 1) t in
    if t.is_process_active i && is_running (t.process_list i).process_state then some i else rest

-- The index of the block, or none for NULL.
unfoldable pub process_get_current_running_pcb_pointer : ProcessTable → Option ℕ
process_get_current_running_pcb_pointer t = running_from process_count_max 0 t

unfoldable pub ceil_div : ℕ → ℕ → ℕ
ceil_div numerator denominator = u32 (numerator + denominator + 2 ^ 32 - 1) / denominator

-- What the kernel keeps: the file system, the pages, the processes, and the page directory in use.
pub record Machine : Type 0 where
  pub file_system : Fs
  pub paging : Paging
  pub table : ProcessTable
  pub directory : ℕ

pub data CreateCode : Type 0 where
  success : CreateCode
  max_process_exceeded : CreateCode
  invalid_entrypoint : CreateCode
  not_enough_memory : CreateCode
  fs_read_failure : CreateCode

-- `(void *)` of a truth value, above the kernel's base
abbrev pub as_address : Bool → ℕ
as_address granted = u32 (kernel_virtual_address_base + (if granted then 1 else 0))

-- Steps 3 and 4 of `process_create_user_process`.
unfoldable pub prepare : ProcessControlBlock → ℕ → ℕ → ℕ → Bytes → ProcessControlBlock
prepare pcb p_index entry pd_new name =
    let cpu = (pcb.context).cpu in
    let flags = (pcb.context).eflags in
    record pcb {
      context = record {
        cpu = record cpu {
          ds = 0x23;
          es = 0x23;
          fs = 0x23;
          gs = 0x23;
          ebp = 0xBFFFFFFC;
          esp = 0xBFFFFFFC;
        };
        eip = entry;
        eflags = bit_or flags 0x202;
        page_directory_virtual_addr = pd_new;
      };
      process_state = ProcessState.ready;
      pid = p_index;
      name = λ i. if ltb i 8 then name i else if ltb i 32 then 0 else pcb.name i;
    }

-- `process_create_user_process`, where `entry` is the address of `request.buf`. The last part of
-- the answer is the image that was read, if one was. A NULL directory is an index past the list's
-- end.
unfoldable pub process_create_user_process :
    Machine → DriverRequest → ℕ → CreateCode × Machine × Option Bytes
process_create_user_process m request entry =
    let needed = ceil_div (u32 (request.buffer_size + page_frame_size)) page_frame_size in
    let (p_index, t1) = process_list_get_inactive_index m.table in
    let created : ℕ × Paging = elim (paging_create_new_page_directory m.paging) [
      | some (d, p) ↦ (d, p)
      | none ↦ (paging_directory_table_max_count, m.paging)
    ] in
    let pd_new = created.0 in
    let (granted0, p2) = paging_allocate_user_page_frame created.1 pd_new entry in
    let (granted1, p3) = paging_allocate_user_page_frame p2 pd_new 0xBFFFFFFC in
    let pcb = t1.process_list p_index in
    let pcb1 = record pcb {
      virtual_addr_used =
          update (update pcb.virtual_addr_used 0 (as_address granted0)) 1 (as_address granted1);
    } in
    let t2 = record t1 { process_list = update t1.process_list p_index pcb1 } in
    let (code, image) = read m.file_system request in
    let t3 = record t2 {
      process_list =
          update t2.process_list p_index (prepare pcb1 p_index entry pd_new request.name);
    } in
    if leb process_count_max (m.table).active_process_count
    then (CreateCode.max_process_exceeded, m, none)
    else if leb kernel_virtual_address_base entry
    then (CreateCode.invalid_entrypoint, m, none)
    else if not (paging_allocate_check m.paging needed) || ltb 8 needed
    then (CreateCode.not_enough_memory, m, none)
    else if not (is_zero code)
    then (
      CreateCode.fs_read_failure,
      record m { paging = p3; table = t2; directory = pd_new },
      some image,
    )
    else (CreateCode.success, record m { paging = p3; table = t3 }, some image)

-- `process_destroy`. The cells of the clock on the screen are not modelled.
unfoldable pub process_destroy : Machine → ℕ → Bool × Machine
process_destroy m pid =
    let t = m.table in
    let dir = ((t.process_list pid).context).page_directory_virtual_addr in
    let t1 = record t {
      is_process_active = update t.is_process_active pid false;
      active_process_count = u32 (t.active_process_count + 2 ^ 32 - 1);
      process_list = update t.process_list pid blank_pcb;
    } in
    if not (t.is_process_active pid)
    then (false, m)
    else (true, record m { table = t1; paging = (paging_free_page_directory m.paging dir).1 })
