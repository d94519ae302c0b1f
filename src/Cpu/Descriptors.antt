-- ===== src/Cpu/Descriptors.antt =====
-- src/cpu/gdt.c and src/cpu/idt.c: the tables of segments and of interrupt gates.
use loss_os.Prelude.{
  ℕ, zero, suc, ◌+◌, ◌*◌, ◌/◌, ◌%◌, ◌^◌, ◌<◌, ◌≡◌, refl, bit_and, update, u16, ltb, ◌==◌,
  if◌then◌else◌, arith, ℕ_discrete,
}

-- `struct SegmentDescriptor`; the constants `avl` and `default_op` are kept with the others.
pub record SegmentDescriptor : Type 0 where
  pub segment_low : ℕ
  pub base_low : ℕ
  pub base_mid : ℕ
  pub type_bit : ℕ
  pub non_system : ℕ
  pub dpl : ℕ
  pub seg_present : ℕ
  pub segment_high : ℕ
  pub avl : ℕ
  pub long_mode : ℕ
  pub default_op : ℕ
  pub granularity : ℕ
  pub base_high : ℕ

-- A flat segment of 4 GiB.
abbrev flat : ℕ → ℕ → SegmentDescriptor
flat type_bit dpl = record {
  segment_low = 0xFFFF;
  base_low = 0;
  base_mid = 0;
  type_bit = type_bit;
  non_system = 1;
  dpl = dpl;
  seg_present = 1;
  segment_high = 0xF;
  avl = 0;
  long_mode = 0;
  default_op = 1;
  granularity = 1;
  base_high = 0;
}

abbrev null_descriptor : SegmentDescriptor
null_descriptor = record {
  segment_low = 0;
  base_low = 0;
  base_mid = 0;
  type_bit = 0;
  non_system = 0;
  dpl = 0;
  seg_present = 0;
  segment_high = 0;
  avl = 0;
  long_mode = 0;
  default_op = 0;
  granularity = 0;
  base_high = 0;
}

-- `sizeof(struct TSSEntry)`: 26 words.
abbrev tss_size : ℕ
tss_size = 104

abbrev tss_descriptor : SegmentDescriptor
tss_descriptor = record {
  segment_low = tss_size;
  base_low = 0;
  base_mid = 0;
  type_bit = 0x9;
  non_system = 0;
  dpl = 0;
  seg_present = 1;
  segment_high = 0;
  avl = 0;
  long_mode = 0;
  default_op = 1;
  granularity = 0;
  base_high = 0;
}

-- The entries behind the sixth are zero.
unfoldable pub global_descriptor_table : ℕ → SegmentDescriptor
global_descriptor_table i =
    if i == 1
    then flat 0xA 0
    else if i == 2
    then flat 0x2 0
    else if i == 3
    then flat 0xA 3
    else if i == 4
    then flat 0x2 3
    else if i == 5
    then tss_descriptor
    else null_descriptor

-- `base` is the address of `_interrupt_tss_entry`.
unfoldable pub gdt_install_tss : (ℕ → SegmentDescriptor) → ℕ → ℕ → SegmentDescriptor
gdt_install_tss table base =
    let entry = table 5 in
    update table 5 (record entry {
      base_high = bit_and base (0xFF * 2 ^ 24) / 2 ^ 24;
      base_mid = bit_and base (0xFF * 2 ^ 16) / 2 ^ 16;
      base_low = bit_and base 0xFFFF;
    })

abbrev pub idt_max_entry_count : ℕ
idt_max_entry_count = 256

abbrev pub isr_stub_table_limit : ℕ
isr_stub_table_limit = 64

abbrev pub kernel_code_selector : ℕ
kernel_code_selector = 0x8

-- `struct IDTGate`
pub record IdtGate : Type 0 where
  pub offset_low : ℕ
  pub segment : ℕ
  pub reserved : ℕ
  pub r_bit_1 : ℕ
  pub r_bit_2 : ℕ
  pub gate_32 : ℕ
  pub r_bit_3 : ℕ
  pub dpl : ℕ
  pub seg_present : ℕ
  pub offset_high : ℕ

unfoldable pub set_interrupt_gate : (ℕ → IdtGate) → ℕ → ℕ → ℕ → ℕ → ℕ → IdtGate
set_interrupt_gate table int_vector addr gdt_seg_selector privilege =
    update table int_vector (record {
      offset_low = u16 addr;
      segment = gdt_seg_selector;
      reserved = 0;
      r_bit_1 = 0;
      r_bit_2 = 6;
      gate_32 = 1;
      r_bit_3 = 0;
      dpl = privilege % 4;
      seg_present = 1;
      offset_high = u16 (addr / 2 ^ 16);
    })

-- The loop of `initialize_idt`, at vector `i`; `isr_stub_table` is assembled elsewhere.
unfoldable pub set_gates : ℕ → ℕ → (ℕ → ℕ) → (ℕ → IdtGate) → ℕ → IdtGate
set_gates zero i isr_stub_table table = table
set_gates (suc rounds) i isr_stub_table table =
    set_gates rounds (i + 1) isr_stub_table
      (set_interrupt_gate table i (isr_stub_table i) kernel_code_selector 0)

unfoldable pub initialize_idt : (ℕ → ℕ) → (ℕ → IdtGate) → ℕ → IdtGate
initialize_idt isr_stub_table table =
    set_interrupt_gate (set_gates isr_stub_table_limit 0 isr_stub_table table) 0x30
      (isr_stub_table 0x30) kernel_code_selector 3

set_gates_lem :
    (rounds i : ℕ) (isr_stub_table : ℕ → ℕ) (table : ℕ → IdtGate) (v : ℕ)
    → set_gates rounds i isr_stub_table table v ≡ (
        if ltb v i
        then table v
        else if ltb v (i + rounds)
        then set_interrupt_gate table v (isr_stub_table v) kernel_code_selector 0 v
        else table v)
unfolding set_gates set_interrupt_gate
set_gates_lem zero i isr_stub_table table v = ground arith
set_gates_lem (suc rounds) i isr_stub_table table v = elim (ℕ_discrete i v) [
  | yes e ↦ rw (← e) (
      ground (
        arith,
        set_gates_lem rounds (i + 1) isr_stub_table
            (set_interrupt_gate table i (isr_stub_table i) kernel_code_selector 0) i,
      ))
  | no ne ↦ ground (
    arith,
    set_gates_lem rounds (i + 1) isr_stub_table
        (set_interrupt_gate table i (isr_stub_table i) kernel_code_selector 0) v,
  )
]

initialize_idt-eq :
    (isr_stub_table : ℕ → ℕ) (table : ℕ → IdtGate) (v : ℕ)
    → v < isr_stub_table_limit
    → initialize_idt isr_stub_table table v
      ≡ set_interrupt_gate table v
          (isr_stub_table v)
          kernel_code_selector
          (if v == 0x30 then 3 else 0)
          v
unfolding initialize_idt set_interrupt_gate
initialize_idt-eq isr_stub_table table v h = elim (ℕ_discrete v 0x30) [
  | yes e ↦ rw e refl
  | no ne ↦ ground (arith, set_gates_lem isr_stub_table_limit 0 isr_stub_table table v)
]

-- After the set-up each of the 64 vectors has a present gate of the kernel's code segment that
-- leads to its stub, if the stubs' addresses have 32 bits, and the only one that a user may call is
-- 0x30.
pub initialize_idt_lem :
    (isr_stub_table : ℕ → ℕ) (table : ℕ → IdtGate) (v : ℕ)
    → v < isr_stub_table_limit
    → isr_stub_table v < 2 ^ 32
    → let gate = initialize_idt isr_stub_table table v in
      (gate.offset_high * 2 ^ 16 + gate.offset_low ≡ isr_stub_table v)
      × (gate.segment ≡ kernel_code_selector)
      × (gate.seg_present ≡ 1)
      × (gate.dpl ≡ (if v == 0x30 then 3 else 0))
unfolding set_interrupt_gate
initialize_idt_lem isr_stub_table table v h word =
    rw (initialize_idt-eq isr_stub_table table v h)
      (ground arith, ground arith, ground arith, ground arith)
