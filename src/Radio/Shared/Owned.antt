-- ===== src/Radio/Shared/Owned.antt =====
-- A message under way is left alone until the bus is through with it.
use mathlib.Core.Bool.{false≢true}
use linux_cc2520_driver.Prelude.{
  ℕ, ◌≡◌, refl, sym, subst, ap, ok, Bool, false, Option, none, some, List, [], ◌∷◌, ◌∙◌, Buf,
  length, arith,
}
use linux_cc2520_driver.Config.{spi_buff_size, pkt_buff_size}
use linux_cc2520_driver.Radio.State.{
  Radio, idle, Message, TxCallback, continue_tx_check, continue_tx, complete_flush_tx, RadioEffect,
  spi_sync, spi_async_tx, init,
}
use linux_cc2520_driver.Radio.Config.{start, on, off}
use linux_cc2520_driver.Radio.Tx.{
  tx_packet, tx_check, tx_written, tx_flushed, sfd_occurred, tx_message,
}
use linux_cc2520_driver.Radio.Frames.{tx_message_fits}
use linux_cc2520_driver.Radio.TxWorld as Engine
use linux_cc2520_driver.Radio.TxWorld.{
  TxWorld, send, check, written, flushed, sfd, starts, turns_on, turns_off,
}
use linux_cc2520_driver.Radio.TxCompletion as Completion
use linux_cc2520_driver.Radio.Shared.{Shared, fill_all, on_bus}
use linux_cc2520_driver.Radio.Shared.World.{Engaged, begin, effects, Reach, here, next}
use linux_cc2520_driver.Radio.Shared.Fits.{
  Sized, Step-Sized, Step-AllFits, fill-on_bus, fill_all-room,
}

-- The message that goes with a callback: the radio off, the packet, or the end of an underflow.
abbrev pub Carried : TxCallback → Radio → Message → Type 0
Carried continue_tx_check r m = m ≡ (0x45 ∷ []) ∷ []
Carried continue_tx r m = (fifo : Bool) × (m ≡ tx_message r fifo)
Carried complete_flush_tx r m = m ≡ (0x48 ∷ 0xD0 ∷ 0 ∷ []) ∷ []

abbrev UnderWay : Option TxCallback → Radio → Shared → Type 0
UnderWay none r s = Unit {0}
UnderWay (some cb) r s = (s.complete ≡ some cb) × Carried cb r (on_bus s)

free-UnderWay :
    (cb : Option TxCallback) (r : Radio) (s : Shared)
    → Completion.is_some cb ≡ false
    → UnderWay cb r s
free-UnderWay none r s e = tt
free-UnderWay (some cb) r s e = absurd (false≢true (sym e))

tx_message-same :
    (r r' : Radio) (fifo : Bool)
    → r'.tx_buf_r ≡ r.tx_buf_r
    → r'.tx_buf_r_len ≡ r.tx_buf_r_len
    → tx_message r' fifo ≡ tx_message r fifo
unfolding tx_message
tx_message-same r r' fifo b n = rw (b, n) refl

UnderWay-same :
    (cb : Option TxCallback) (r r' : Radio) (s : Shared)
    → r'.tx_buf_r ≡ r.tx_buf_r
    → r'.tx_buf_r_len ≡ r.tx_buf_r_len
    → UnderWay cb r s
    → UnderWay cb r' s
UnderWay-same none r r' s b n o = tt
UnderWay-same (some continue_tx_check) r r' s b n o = o
UnderWay-same (some complete_flush_tx) r r' s b n o = o
UnderWay-same (some continue_tx) r r' s b n (complete, (fifo, e)) =
    (complete, (fifo, rw (tx_message-same r r' fifo b n) e))

-- An edge of SFD sends no message.
sfd_quiet :
    (w : TxWorld) (s : Shared) (t : ℕ) (high : Bool) {r : Radio} {es : List RadioEffect}
    → sfd_occurred w.radio t high ≡ ok (r, es)
    → (r.tx_buf_r ≡ w.radio.tx_buf_r)
      × (r.tx_buf_r_len ≡ w.radio.tx_buf_r_len)
      × (fill_all es s ≡ s)
      × ((Engine.settle w r es).spi ≡ w.spi)
      × ((Engine.settle w r es).radio ≡ r)
unfolding sfd_occurred fill_all
sfd_quiet w s t high e = ground (arith, e)

post-radio : (e : RadioEffect) (w : TxWorld) → (Engine.post e w).radio ≡ w.radio
post-radio (spi_sync m) w = refl
post-radio e w = refl

post_all-radio : (es : List RadioEffect) (w : TxWorld) → (Engine.post_all es w).radio ≡ w.radio
post_all-radio [] w = refl
post_all-radio (e ∷ es) w = post_all-radio es (Engine.post e w) ∙ post-radio e w

-- A radio that rests idle has no message under way.
idle-free :
    (u : TxWorld) → Completion.Inv u → u.radio.radio_state ≡ idle → Completion.is_some u.spi ≡ false
idle-free u i e = i.spi_under_way ∙ ap Completion.wants_spi e

-- A step that found the radio idle and leaves it idle.
rests-UnderWay :
    {w u : TxWorld} (st : Engine.Step w u) (r : Radio) (es : List RadioEffect) (s : Shared)
    → Completion.Inv w
    → u ≡ Engine.settle w r es
    → r.radio_state ≡ idle
    → UnderWay u.spi u.radio (fill_all es s)
rests-UnderWay {w} {u} st r es s i eu e = free-UnderWay u.spi u.radio (fill_all es s) (
    idle-free u (Completion.Step-Inv st i)
      (rw eu (rw (post_all-radio es (record w { radio = r })) e)))

Step-UnderWay :
    {w u : TxWorld} (st : Engine.Step w u) (s : Shared)
    → Completion.Inv w
    → Sized w.radio
    → length s.tx_buf ≡ spi_buff_size
    → UnderWay w.spi w.radio s
    → UnderWay u.spi u.radio (fill_all (effects st) s)
unfolding tx_packet tx_check tx_written tx_flushed sfd_occurred start on off fill_all
Step-UnderWay (send buf len r es e eu) s i v room o =
    ground (arith, fill-on_bus ((0x45 ∷ []) ∷ []) (some continue_tx_check) s)
Step-UnderWay {w} (check fifo r es g e eu) s i v room o =
    let m = tx_message w.radio fifo in
    let (same, complete, _) =
      fill-on_bus m (some continue_tx) s
        (omega (arith, room, tx_message_fits w.radio fifo v.packet)) in
    let (er, es') : (r ≡ w.radio) × (es ≡ spi_async_tx m continue_tx ∷ []) = (cc, cc) in
    rw eu (rw es' (rw er (complete, (fifo, same))))
Step-UnderWay (written x r es g e eu) s i v room o =
    ground (arith, fill-on_bus ((0x48 ∷ 0xD0 ∷ 0 ∷ []) ∷ []) (some complete_flush_tx) s)
Step-UnderWay (flushed r es g e eu) s i v room o = ground arith
Step-UnderWay {w} (sfd t high r es e eu) s i v room o =
    let (buf, len, quiet, spi, radio) = sfd_quiet w s t high e in
    rw eu (rw (quiet, spi, radio) (UnderWay-same w.spi w.radio r s buf len o))
Step-UnderWay (starts r es e eu) s i v room o =
    rests-UnderWay (starts r es e eu) r es s i eu (ground (arith, e))
Step-UnderWay (turns_on r es e eu) s i v room o =
    rests-UnderWay (turns_on r es e eu) r es s i eu (ground (arith, e))
Step-UnderWay (turns_off r es e eu) s i v room o =
    rests-UnderWay (turns_off r es e eu) r es s i eu (ground (arith, e))

pub record Inv (p : Engaged) : Type 0 where
  pub engine : Completion.Inv p.world
  pub sized : Sized p.world.radio
  pub room : length p.shared.tx_buf ≡ spi_buff_size
  pub under_way : UnderWay p.world.spi p.world.radio p.shared

pub Reach-Inv :
    (tx_fresh in_fresh tx_r_fresh rx_r_fresh : Buf)
    → length tx_fresh ≡ spi_buff_size
    → length tx_r_fresh ≡ pkt_buff_size
    → {p : Engaged} → Reach (begin tx_fresh in_fresh tx_r_fresh rx_r_fresh) p
    → Inv p
unfolding init
Reach-Inv t i b r ht hb here = record {
  engine = Completion.begin-Inv i b r;
  sized = record { buffer = hb; packet = omega arith };
  room = ht;
  under_way = tt;
}
Reach-Inv t i b r ht hb (next {p} {u = u} reach st e) =
    let v = Reach-Inv t i b r ht hb reach in
    rw e (record {
      engine = Completion.Step-Inv st v.engine;
      sized = Step-Sized st v.sized;
      room = fill_all-room (effects st) p.shared (Step-AllFits st v.sized) v.room;
      under_way = Step-UnderWay st p.shared v.engine v.sized v.room v.under_way;
    })

-- From initialisation on, with `tx_buf` of SPI_BUFF_SIZE and `tx_buf_r` of PKT_BUFF_SIZE bytes, under any
-- interleaving of sends, SPI completions, SFD edges and switching the radio on or off, as long as none
-- of the three settings is made: while an SPI message is under way, `msg` still has its callback, and
-- what the bus finds where the transfers of `msg` point is, transfer by transfer, SRFOFF before the
-- packet, then the transmit message of the packet that the radio holds, or SFLUSHTX and the write of 0
-- to EXCFLAG0 after an underflow.
pub shared_message :
    (tx_fresh in_fresh tx_r_fresh rx_r_fresh : Buf)
    → length tx_fresh ≡ spi_buff_size
    → length tx_r_fresh ≡ pkt_buff_size
    → {p : Engaged} → Reach (begin tx_fresh in_fresh tx_r_fresh rx_r_fresh) p
    → (cb : TxCallback) → p.world.spi ≡ some cb
    → (p.shared.complete ≡ some cb) × Carried cb p.world.radio (on_bus p.shared)
shared_message t i b r ht hb {p} reach cb e =
    subst (λ x. UnderWay x p.world.radio p.shared) e (Reach-Inv t i b r ht hb reach).under_way
