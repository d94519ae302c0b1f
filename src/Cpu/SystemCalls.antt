-- ===== src/Cpu/SystemCalls.antt =====
-- The system calls of src/cpu/interrupt.c.
use loss_os.Prelude.{
  ℕ, zero, suc, ◌+◌, ◌-◌, pos, List, [], ◌∷◌, length, as_bytes, codes, u8, ltb, leb, ◌==◌,
  if◌then◌else◌, none, some,
}
use loss_os.Ext2.Read.{read, read_directory}
use loss_os.Ext2.Write.{write}
use loss_os.Ext2.Delete.{delete}
use loss_os.Process.{
  ProcessTable, ProcessState, CpuRegister, process_count_max, process_create_user_process,
  process_destroy,
}
use loss_os.Drivers.Graphics.{vga_draw_char, vga_fill8x8}
use loss_os.Drivers.Keyboard.{keyboard_state_activate, get_keyboard_buffer}
use loss_os.Drivers.Console.{Console, putchar, puts, clear_screen}
use loss_os.Drivers.Clock.{read_rtc}
use loss_os.Shell.Files.{code_number, text_in}
use loss_os.Cpu.Decimal.{itoa}
use loss_os.Cpu.Kernel.{
  Kernel, UserMemory, store_byte, store_buffer, store_char, store_time, Outcome, returns, waits,
  flag, as_int, with_files, exit_process,
}

abbrev state_name : ProcessState → List ℕ
state_name ProcessState.running = codes "RUNNING"
state_name ProcessState.ready = codes "READY"
state_name ProcessState.block = codes "BLOCKED"

unfoldable pub show : List ℕ → ℕ → Console → Console
show text color c = puts c (as_bytes text) (length text) color

abbrev blanks : ℕ → Console → Console
blanks n c = puts c (as_bytes (codes "                                ")) n 0xE

-- System call 12, one line for each active process from slot `i` on.
unfoldable pub list_processes : ℕ → ℕ → ProcessTable → Console → Console
list_processes zero i t c = c
list_processes (suc rounds) i t c =
    let pcb = t.process_list i in
    let pid = itoa (as_int pcb.pid) in
    let name = text_in 32 pcb.name 0 in
    let c1 = blanks (if leb (length pid) 6 then 6 - length pid else 6) (show pid 0xE c) in
    let c2 =
      puts (show name 0xE c1) (as_bytes (codes "                                "))
        (32 - length name) 0xC in
    let c3 = putchar (show (state_name pcb.process_state) 0xE c2) 10 0xC in
    list_processes rounds (i + 1) t (if t.is_process_active i then c3 else c)

unfoldable pub ps : ProcessTable → Console → Console
ps t c = list_processes process_count_max 0 t (
    putchar (puts c (as_bytes (codes "PID   Name                            State")) 42 0xD) 10 0xC)

-- System call 14; the year of the time that is copied to the caller is not set.
unfoldable pub system_time : Kernel → ℕ → Outcome
system_time k at = elim (read_rtc 0 (k.clock).0 (k.clock).1 (k.clock).2) [
  | none ↦ waits k
  | some t ↦ returns k (store_time at (record t { year = k.junk }) ∷ [])
]

-- The system calls on the file system.
unfoldable pub file_call : UserMemory → Kernel → ℕ → ℕ → ℕ → Outcome
file_call u k eax ebx ecx =
    let m = k.machine in
    let r = u.request_at ebx in
    let (read_code, read_buf) = read m.file_system r in
    let (dir_code, dir_buf) = read_directory m.file_system r in
    let (write_code, written) = write m.file_system r in
    let (delete_code, deleted) = delete m.file_system r in
    if eax == 0
    then returns k (store_byte ecx read_code ∷ store_buffer read_buf ∷ [])
    else if eax == 1
    then returns k (store_byte ecx dir_code ∷ store_buffer dir_buf ∷ [])
    else if eax == 2
    then with_files k write_code ecx (record m { file_system = written }) []
    else with_files k delete_code ecx (record m { file_system = deleted }) []

unfoldable pub console_call : UserMemory → Kernel → ℕ → ℕ → ℕ → ℕ → Outcome
console_call u k eax ebx ecx edx =
    let c = k.console in
    let (char, keyboard1) = get_keyboard_buffer c.keyboard in
    if eax == 4
    then returns (record k { console = record c { keyboard = keyboard1 } })
        (store_char ebx char ∷ [])
    else if eax == 5
    then returns (record k { console = putchar c (u8 ebx) (u8 ecx) }) []
    else if eax == 6
    then returns (record k { console = puts c (u.string_at ebx) ecx (u8 edx) }) []
    else if eax == 7
    then returns (record k { console = record c { keyboard = keyboard_state_activate c.keyboard } })
        []
    else returns (record k { console = clear_screen c }) []

-- Process creation hands over the image that was read, if one was.
unfoldable pub process_call : UserMemory → Kernel → ℕ → ℕ → ℕ → Outcome
process_call u k eax ebx ecx =
    let m = k.machine in
    let (code, created, image) =
      process_create_user_process m (u.request_at ebx) (u.buffer_at ebx) in
    let (gone, destroyed) = process_destroy m ebx in
    if eax == 9
    then with_files k (pos (code_number code)) ecx created
        (elim image [ none ↦ [] | some b ↦ store_buffer b ∷ [] ])
    else if eax == 10
    then exit_process k
    else with_files k (flag gone) ecx destroyed []

unfoldable pub screen_call : UserMemory → Kernel → ℕ → ℕ → ℕ → ℕ → Outcome
screen_call u k eax ebx ecx edx =
    let c = k.console in
    let d = u.draw_info_at ebx in
    if eax == 12
    then returns (record k { console = ps ((k.machine).table) c }) []
    else if eax == 13
    then waits k
    else if eax == 14
    then system_time k ebx
    else if eax == 15
    then returns
        (record k {
          console = record c {
            vga = vga_draw_char c.vga (as_int d.x) (as_int d.y) d.character d.color;
          };
        })
        []
    else if eax == 16
    then returns
        (record k {
          console = record c { vga = vga_fill8x8 c.vga (as_int ebx) (as_int ecx) (u8 edx) };
        })
        []
    else returns k []

-- `syscall`. System call 10 never goes on to the code of 11 that stands behind it.
unfoldable pub syscall : UserMemory → Kernel → CpuRegister → Outcome
syscall u k r =
    if ltb r.eax 4
    then file_call u k r.eax r.ebx r.ecx
    else if ltb r.eax 9
    then console_call u k r.eax r.ebx r.ecx r.edx
    else if ltb r.eax 12
    then process_call u k r.eax r.ebx r.ecx
    else screen_call u k r.eax r.ebx r.ecx r.edx
