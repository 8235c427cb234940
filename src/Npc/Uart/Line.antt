-- ===== src/Npc/Uart/Line.antt =====
-- Setting up the serial port of memory_models.h and sending through it.
use triathlon.Prelude.{
  ℕ, ◌+◌, ◌^◌, ◌<◌, true, false, List, [], ◌∷◌, length, ◌≡◌, refl, ap, ◌∙◌, arith,
}
use triathlon.Prelude.Words.{u64}
use triathlon.Prelude.Bits.{bit_and_pow, bit-above}
use triathlon.Npc.State.{Uart, uart_tx}
use triathlon.Npc.Uart.{uart_write8, write_uart_register, transmit, uart_dlab}

-- The bytes of a message, written one by one to the transmit register.
unfoldable pub send : List ℕ → Uart → Uart
send [] t = t
send (b ∷ bs) t = send bs (uart_write8 uart_tx b t)

abbrev pub reversed_onto : List ℕ → List ℕ → List ℕ
reversed_onto [] out = out
reversed_onto (b ∷ bs) out = reversed_onto bs (b ∷ out)

-- The divisor, set while the latch bit of the line control register is up.
unfoldable pub set_divisor : ℕ → ℕ → ℕ → Uart → Uart
set_divisor low high line t =
    uart_write8 (uart_tx + 3) line
      (uart_write8 (uart_tx + 1) high (uart_write8 uart_tx low (uart_write8 (uart_tx + 3) 0x80 t)))

sent : (b : ℕ) (t : Uart) → uart_dlab t ≡ false → uart_write8 uart_tx b t ≡ transmit b t
unfolding uart_write8 write_uart_register
sent b t d = rw d refl

sent-dlab : (b : ℕ) (t : Uart) → uart_dlab (transmit b t) ≡ uart_dlab t
unfolding uart_dlab transmit
sent-dlab b t = refl

-- With the latch bit down every byte of a message comes out, in order, and is counted.
send-out :
    (bs : List ℕ) (t : Uart)
    → uart_dlab t ≡ false
    → t.stdout_enabled ≡ true
    → t.tx_bytes < 2 ^ 64
    → ((send bs t).dll ≡ t.dll)
      × ((send bs t).dlm ≡ t.dlm)
      × ((send bs t).ier ≡ t.ier)
      × ((send bs t).out ≡ reversed_onto bs t.out)
      × ((send bs t).tx_bytes ≡ u64 (t.tx_bytes + length bs))
unfolding send transmit
send-out [] t d o l = (refl, refl, refl, refl, omega arith)
send-out (b ∷ bs) t d o l =
    let (low, high, ier, out, count) =
      send-out bs (transmit b t) (sent-dlab b t ∙ d) o (omega arith) in
    rw (send, sent b t d) (low, high, ier, out ∙ ap (reversed_onto bs) (rw o refl), omega arith)

divisor-set :
    (low high line : ℕ) (t : Uart)
    → set_divisor low high line t ≡ record t { dll = low; dlm = high; lcr = line }
unfolding set_divisor uart_write8 write_uart_register uart_dlab
divisor-set low high line t = refl

latch_down : (line : ℕ) (t : Uart) → line < 0x80 → uart_dlab (record t { lcr = line }) ≡ false
unfolding uart_dlab
latch_down line t l = rw (bit_and_pow line 7, bit-above 7 7 line l (omega arith)) refl

-- Setting the divisor and then sending a message, from any state with the output on: when the line
-- control value that ends the setting has the latch bit down, the divisor is the one set, the
-- interrupt enable register is kept, nothing of the divisor is sent, and the message comes out byte
-- by byte after what was there and is counted.
pub set_divisor-send :
    (low high line : ℕ) (bs : List ℕ) (t : Uart)
    → line < 0x80
    → t.stdout_enabled ≡ true
    → t.tx_bytes < 2 ^ 64
    → ((send bs (set_divisor low high line t)).dll ≡ low)
      × ((send bs (set_divisor low high line t)).dlm ≡ high)
      × ((send bs (set_divisor low high line t)).ier ≡ t.ier)
      × ((send bs (set_divisor low high line t)).out ≡ reversed_onto bs t.out)
      × ((send bs (set_divisor low high line t)).tx_bytes ≡ u64 (t.tx_bytes + length bs))
set_divisor-send low high line bs t l o b = rw (divisor-set low high line t) (
    send-out bs (record t { dll = low; dlm = high; lcr = line })
      (latch_down line (record t { dll = low; dlm = high }) l) o b)
