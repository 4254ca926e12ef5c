-- ===== src/Device/Ioctl/Settles.antt =====
-- A request returns 0 and changes settings only, and the settings are there when the radio goes on.
use linux_cc2520_driver.Prelude.{
  ℕ, ◌+◌, ◌*◌, ◌-◌, ◌≡◌, ◌≤◌, some, List, [], ◌∷◌, ok, Outcome, ◌>>=◌, ◌∙◌, ap, is_ok, is_ok-ok,
  true, arith,
}
use linux_cc2520_driver.Radio.Opcodes
use linux_cc2520_driver.Radio.RegisterMap
use linux_cc2520_driver.Radio.State.{idle, RadioEffect}
use linux_cc2520_driver.Radio.Config.{
  start, on, off, set_channel, set_address, set_txpower, freq, write_register, write_memory,
  addr_mem, strobe,
}
use linux_cc2520_driver.Device.Ioctl.{
  Driver, Request, SetAddressData, ioctl, radio_init, radio_on, radio_off,
}
use linux_cc2520_driver.Device.Ioctl

-- What the layers are in the middle of: their states, and the buffers and locks that go with them.
pub record SameWork (d e : Driver) : Type 0 where
  pub lpl_state : e.lpl.lpl_state ≡ d.lpl.lpl_state
  pub lpl_buf : e.lpl.cur_tx_buf ≡ d.lpl.cur_tx_buf
  pub lpl_len : e.lpl.cur_tx_len ≡ d.lpl.cur_tx_len
  pub csma_state : e.csma.csma_state ≡ d.csma.csma_state
  pub csma_buf : e.csma.cur_tx_buf ≡ d.csma.cur_tx_buf
  pub csma_len : e.csma.cur_tx_len ≡ d.csma.cur_tx_len
  pub sack_state : e.sack.sack_state ≡ d.sack.sack_state
  pub sack_sl : e.sack.sack_sl ≡ d.sack.sack_sl
  pub sack_buf : e.sack.cur_tx_buf ≡ d.sack.cur_tx_buf
  pub radio_state : e.radio.radio_state ≡ d.radio.radio_state
  pub radio_buf : e.radio.tx_buf_r ≡ d.radio.tx_buf_r
  pub radio_len : e.radio.tx_buf_r_len ≡ d.radio.tx_buf_r_len
  pub rx_buf_sl : e.radio.rx_buf_sl ≡ d.radio.rx_buf_sl
  pub pending_rx : e.radio.pending_rx ≡ d.radio.pending_rx

ioctl-is_ok : (d : Driver) (req : Request) → d.radio.radio_state ≡ idle → is_ok (ioctl d req) ≡ true
unfolding ioctl start on off set_channel set_address set_txpower
ioctl-is_ok d req free = ground arith

returns_zero :
    (d e : Driver) (req : Request) (r : ℕ) (es : List RadioEffect)
    → ioctl d req ≡ ok (e, r, es)
    → r ≡ 0
unfolding ioctl start on off set_channel set_address set_txpower
returns_zero d e req r es eq = ground arith

SameWork-ioctl :
    (d e : Driver) (req : Request) (r : ℕ) (es : List RadioEffect)
    → d.radio.radio_state ≡ idle
    → ioctl d req ≡ ok (e, r, es)
    → SameWork d e
unfolding ioctl start on off set_channel set_address set_txpower
SameWork-ioctl d e req r es free eq = ground arith

-- With the radio idle every request, known or not and with its argument read or not, returns, and
-- returns 0, and leaves the variables listed above as they are. (What a request does to the message of a
-- packet that is under way in the radio, is the subject of Stack/Lost.)
pub ioctl_settles :
    (d : Driver) (req : Request)
    → d.radio.radio_state ≡ idle
    → (e : Driver) × (es : List RadioEffect) × (ioctl d req ≡ ok (e, 0, es)) × SameWork d e
ioctl_settles d req free =
    let (x, eq) = is_ok-ok (ioctl d req) (ioctl-is_ok d req free) in
    let zero : x.1 ≡ 0 = returns_zero d x.0 req x.1 x.2 eq in
    (x.0, x.2, eq ∙ ap (λ (n : ℕ). ok (x.0, n, x.2)) zero, SameWork-ioctl d x.0 req x.1 x.2 free eq)

-- Requests in order, with the calls of the last one.
abbrev pub requests : Driver → List Request → List RadioEffect → Outcome (Driver × List RadioEffect)
requests d [] es = ok (d, es)
requests d (req ∷ reqs) es = do (e, r, es') ← ioctl d req; requests e reqs es'

-- The channel (one of 11 to 26) and the addresses that requests have set are written to the chip
-- again each time the radio is turned on, and the receiver is started after them: the requests are
-- a channel, a transmit power, the addresses, off and on, from an idle radio.
pub ioctl_on_restores :
    (d : Driver) (channel txpower : ℕ) (address : SetAddressData)
    → d.radio.radio_state ≡ idle
    → 11 ≤ channel
    → channel ≤ 26
    → (e : Driver) × (requests d
          (Ioctl.set_channel (some channel)
            ∷ Ioctl.set_txpower (some txpower)
            ∷ Ioctl.set_address (some address)
            ∷ radio_off
            ∷ radio_on
            ∷ [])
          []
        ≡ ok (
          e,
          write_register (RegisterMap.address RegisterMap.freqctrl) (11 + 5 * (channel - 11))
              ∷ write_memory Opcodes.mem_addr_base
                  (addr_mem address.short_addr address.extended_addr address.pan_id)
              ∷ strobe Opcodes.cmd_srxon
              ∷ [],
        ))
unfolding ioctl on off set_channel set_address set_txpower freq
ioctl_on_restores d channel txpower address free lo hi = (
  record d {
    radio = record d.radio {
      channel = channel;
      short_addr = address.short_addr;
      extended_addr = address.extended_addr;
      pan_id = address.pan_id;
    };
  },
  ground arith,
)
