-- ===== src/Npc/Uart.antt =====
-- The serial port of memory_models.h, an 8250 without a receiver.
use Prim.Native.Nat.{bit_and, bit_or}
use triathlon.Prelude.{ℕ, ◌+◌, Bool, true, false, not, if◌then◌else◌, ◌==◌, List, ◌∷◌}
use triathlon.Prelude.Words.{sub_int, u8, u64, truth}
use triathlon.Npc.State.{Uart, uart_tx}
pub mod Line

unfoldable pub uart_dlab : Uart → Bool
uart_dlab t = truth (bit_and t.lcr 0x80)

-- The identification register: no interrupt is pending, and the upper bits say that the FIFO is on.
unfoldable pub uart_iir : Uart → ℕ
uart_iir t = if truth (bit_and t.fcr 0x01) then bit_or 0x01 0xC0 else 0x01

-- A register by its distance from `uart_tx`.
unfoldable pub uart_register : ℕ → Uart → ℕ
uart_register off t =
    if off == 0
    then (if uart_dlab t then t.dll else 0)
    else if off == 1
    then (if uart_dlab t then t.dlm else t.ier)
    else if off == 2
    then uart_iir t
    else if off == 3
    then t.lcr
    else if off == 4
    then t.mcr
    else if off == 5
    then u8 (bit_or t.lsr 0x60)
    else if off == 6
    then t.msr
    else if off == 7
    then t.scr
    else 0xff

unfoldable pub uart_peek8 : ℕ → Uart → ℕ
uart_peek8 addr t = uart_register (sub_int addr uart_tx) t

-- A byte is sent.
unfoldable pub transmit : ℕ → Uart → Uart
transmit value t = record t {
  tx_bytes = u64 (t.tx_bytes + 1);
  last_tx = value;
  out = if t.stdout_enabled then value ∷ t.out else t.out;
}

unfoldable pub write_uart_register : ℕ → ℕ → Uart → Uart
write_uart_register off value t =
    if off == 0
    then (if uart_dlab t then record t { dll = value } else transmit value t)
    else if off == 1
    then (if uart_dlab t then record t { dlm = value } else record t { ier = value })
    else if off == 2
    then record t { fcr = value }
    else if off == 3
    then record t { lcr = value }
    else if off == 4
    then record t { mcr = value }
    else if off == 7
    then record t { scr = value }
    else t

unfoldable pub uart_write8 : ℕ → ℕ → Uart → Uart
uart_write8 addr value t = write_uart_register (sub_int addr uart_tx) value t
