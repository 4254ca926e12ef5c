-- ===== src/Radio/Shared/Fits.antt =====
-- Every message of the transmit engine and of the settings fits `tx_buf`.
use linux_cc2520_driver.Prelude.{
  ◌≤◌, ◌≡◌, refl, Option, none, some, List, [], ◌∷◌, ◌∙◌, length, length-copy, memcpy, arith,
}
use linux_cc2520_driver.Config.{spi_buff_size, pkt_buff_size}
use linux_cc2520_driver.Radio.State.{
  Radio, Message, TxCallback, RadioEffect, spi_sync, spi_async_tx, spi_async_rx, gpio_reset, udelay,
  top_tx_done, top_rx_done,
}
use linux_cc2520_driver.Radio.Config.{
  start, on, off, default_writes, write_register, write_memory, set_channel, set_address, addr_mem,
  low_bytes,
}
use linux_cc2520_driver.Radio.Unions.{pack}
use linux_cc2520_driver.Radio.Tx.{tx_packet, tx_check, tx_written, tx_flushed, sfd_occurred}
use linux_cc2520_driver.Radio.Startup.{start-effects}
use linux_cc2520_driver.Radio.Frames.{message_length, tx_message_fits}
use linux_cc2520_driver.Radio.TxWorld as Engine
use linux_cc2520_driver.Radio.TxWorld.{
  TxWorld, send, check, written, flushed, sfd, starts, turns_on, turns_off,
}
use linux_cc2520_driver.Radio.Shared.{Shared, fill, fill_all, on_bus}
use linux_cc2520_driver.Radio.Shared.Layout.{length-lay, gather-lay}
use linux_cc2520_driver.Radio.Shared.World.{effects}

-- The messages of a list of effects fit `tx_buf`.
abbrev pub Fits : RadioEffect → Type 0
Fits (spi_sync m) = message_length m ≤ spi_buff_size
Fits (spi_async_tx m cb) = message_length m ≤ spi_buff_size
Fits _ = Unit {0}

abbrev pub AllFits : List RadioEffect → Type 0
AllFits [] = Unit {0}
AllFits (e ∷ es) = Fits e × AllFits es

pub record Sized (r : Radio) : Type 0 where
  pub buffer : length r.tx_buf_r ≡ pkt_buff_size
  pub packet : r.tx_buf_r_len ≤ pkt_buff_size

pub Step-Sized : {w u : TxWorld} (st : Engine.Step w u) → Sized w.radio → Sized u.radio
unfolding tx_packet tx_check tx_written tx_flushed sfd_occurred start on off memcpy
Step-Sized {w} (send buf len r es e eu) v = ground (arith, length-copy w.radio.tx_buf_r buf len)
Step-Sized (check fifo r es g e eu) v = ground arith
Step-Sized (written x r es g e eu) v = ground arith
Step-Sized (flushed r es g e eu) v = ground arith
Step-Sized (sfd t high r es e eu) v = ground arith
Step-Sized (starts r es e eu) v = ground arith
Step-Sized (turns_on r es e eu) v = ground arith
Step-Sized (turns_off r es e eu) v = ground arith

default_writes-AllFits : AllFits default_writes
unfolding default_writes write_register pack
default_writes-AllFits = omega arith

pub Step-AllFits : {w u : TxWorld} (st : Engine.Step w u) → Sized w.radio → AllFits (effects st)
unfolding tx_packet tx_check tx_written tx_flushed sfd_occurred start on off set_channel set_address
    write_register write_memory addr_mem low_bytes
Step-AllFits (send buf len r es e eu) v = ground arith
Step-AllFits {w} (check fifo r es g e eu) v = ground (arith, tx_message_fits w.radio fifo)
Step-AllFits (written x r es g e eu) v = ground arith
Step-AllFits (flushed r es g e eu) v = ground arith
Step-AllFits (sfd t high r es e eu) v = ground arith
Step-AllFits {w} (starts r es e eu) v =
    rw (start-effects w.radio e) (tt, (tt, (tt, (tt, default_writes-AllFits))))
Step-AllFits (turns_on r es e eu) v = ground arith
Step-AllFits (turns_off r es e eu) v = ground arith

pub fill-on_bus :
    (m : Message) (cb : Option TxCallback) (s : Shared)
    → message_length m ≤ length s.tx_buf
    → (on_bus (fill m cb s) ≡ m)
      × ((fill m cb s).complete ≡ cb)
      × (length (fill m cb s).tx_buf ≡ length s.tx_buf)
unfolding fill
fill-on_bus m cb s h =
    (gather-lay 0 m s.tx_buf (omega arith), refl, length-lay 0 m s.tx_buf (omega arith))

pub fill_all-room :
    (es : List RadioEffect) (s : Shared)
    → AllFits es
    → length s.tx_buf ≡ spi_buff_size
    → length (fill_all es s).tx_buf ≡ spi_buff_size
unfolding fill_all
fill_all-room [] s h e = e
fill_all-room (spi_sync m ∷ es) s h e =
    fill_all-room es (fill m none s) h.1 ((fill-on_bus m none s (omega (arith, h.0, e))).2 ∙ e)
fill_all-room (spi_async_tx m cb ∷ es) s h e =
    fill_all-room es (fill m (some cb) s) h.1
      ((fill-on_bus m (some cb) s (omega (arith, h.0, e))).2 ∙ e)
fill_all-room (spi_async_rx m cb ∷ es) s h e = fill_all-room es s h.1 e
fill_all-room (gpio_reset v ∷ es) s h e = fill_all-room es s h.1 e
fill_all-room (udelay us ∷ es) s h e = fill_all-room es s h.1 e
fill_all-room (top_tx_done status ∷ es) s h e = fill_all-room es s h.1 e
fill_all-room (top_rx_done buf len ∷ es) s h e = fill_all-room es s h.1 e
