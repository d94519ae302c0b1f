-- ===== src/Cpu/Controller.antt =====
-- src/cpu/interrupt.c: the interrupt controller.
use loss_os.Prelude.{ℕ, ◌-◌, bit_and, List, [], ◌∷◌, ◌++◌, leb, if◌then◌else◌}

-- Values that are written to a port, in order.
abbrev pub PortWrites : Type 0
PortWrites = List (ℕ × ℕ)

abbrev io_wait : PortWrites
io_wait = (0x80, 0) ∷ []

unfoldable pub pic_ack : ℕ → PortWrites
pic_ack irq = (if leb 8 irq then (0xA0, 0x20) ∷ [] else []) ++ (0x20, 0x20) ∷ []

unfoldable pub pic_remap : PortWrites
pic_remap =
    (0x20, 0x11) ∷ io_wait
    ++ (0xA0, 0x11) ∷ io_wait
    ++ (0x21, 0x20) ∷ io_wait
    ++ (0xA1, 0x28) ∷ io_wait
    ++ (0x21, 4) ∷ io_wait
    ++ (0xA1, 2) ∷ io_wait
    ++ (0x21, 1) ∷ io_wait
    ++ (0xA1, 1) ∷ io_wait
    ++ (0x21, 0xFF) ∷ (0xA1, 0xFF) ∷ []

-- `mask` is what the controller's mask holds.
unfoldable pub activate_keyboard_interrupt : ℕ → PortWrites
activate_keyboard_interrupt mask = (0x21, bit_and mask (0xFF - 2)) ∷ []
