-- ===== src/Device/Ioctl.antt =====
-- interface.c: `interface_ioctl` and its handlers, over the variables of all layers. The argument of
-- a request is what `copy_from_user` reads, `none` where it fails. A request whose effect on the
-- radio has to wait for the radio's lock spins (`blocked`). The calls are those on the radio chip.
pub mod Settles
use linux_cc2520_driver.Prelude.{
  ℕ, Bool, Option, none, some, List, [], Outcome, ok, fault, blocked, ◌>>=◌,
}
use linux_cc2520_driver.Lpl.{Lpl}
use linux_cc2520_driver.Csma.{Csma}
use linux_cc2520_driver.Sack.{Sack}
use linux_cc2520_driver.Lpl
use linux_cc2520_driver.Csma
use linux_cc2520_driver.Sack
use linux_cc2520_driver.Radio.State.{Radio, RadioEffect, RadioHandled}
use linux_cc2520_driver.Radio.Config

pub record Driver : Type 0 where
  pub lpl : Lpl
  pub csma : Csma
  pub sack : Sack
  pub radio : Radio
  pub debug_print : ℕ

-- The structures of ioctl.h that have more than one field.
pub record SetAddressData : Type 0 where
  pub short_addr : ℕ
  pub extended_addr : ℕ
  pub pan_id : ℕ

pub record SetLplData : Type 0 where
  pub window : ℕ
  pub interval : ℕ
  pub enabled : Bool

pub record SetCsmaData : Type 0 where
  pub min_backoff : ℕ
  pub init_backoff : ℕ
  pub cong_backoff : ℕ
  pub enabled : Bool

-- The request numbers; any other number is `unknown`.
pub data Request : Type 0 where
  radio_init radio_on radio_off unknown : Request
  set_channel : Option ℕ → Request
  set_address : Option SetAddressData → Request
  set_txpower : Option ℕ → Request
  set_ack : Option ℕ → Request
  set_lpl : Option SetLplData → Request
  set_csma : Option SetCsmaData → Request
  set_print : Option ℕ → Request

-- `interface_ioctl_set_lpl` and `interface_ioctl_set_csma` after the copy
unfoldable pub apply_lpl : Lpl → SetLplData → Lpl
unfolding Lpl.set_enabled Lpl.set_listen_length Lpl.set_wakeup_interval
apply_lpl l ldata =
    Lpl.set_wakeup_interval (Lpl.set_listen_length (Lpl.set_enabled l ldata.enabled) ldata.window)
      ldata.interval

unfoldable pub apply_csma : Csma → SetCsmaData → Csma
unfolding Csma.set_enabled Csma.set_min_backoff Csma.set_init_backoff Csma.set_cong_backoff
apply_csma c ldata =
    Csma.set_cong_backoff
      (Csma.set_init_backoff
        (Csma.set_min_backoff (Csma.set_enabled c ldata.enabled) ldata.min_backoff)
        ldata.init_backoff)
      ldata.cong_backoff

-- `interface_ioctl`, which returns 0 whatever happens.
unfoldable pub ioctl : Driver → Request → Outcome (Driver × ℕ × List RadioEffect)
unfolding apply_lpl apply_csma Sack.set_timeout
ioctl d radio_init = do (radio, es) ← Config.start d.radio; ok (record d { radio = radio }, 0, es)
ioctl d radio_on = do (radio, es) ← Config.on d.radio; ok (record d { radio = radio }, 0, es)
ioctl d radio_off = do (radio, es) ← Config.off d.radio; ok (record d { radio = radio }, 0, es)
ioctl d unknown = ok (d, 0, [])
ioctl d (set_channel (some channel)) =
    let (radio, es) = Config.set_channel d.radio channel in ok (record d { radio = radio }, 0, es)
ioctl d (set_address (some ldata)) =
    let (radio, es) =
      Config.set_address d.radio ldata.short_addr ldata.extended_addr ldata.pan_id in
    ok (record d { radio = radio }, 0, es)
ioctl d (set_txpower (some txpower)) =
    let (radio, es) = Config.set_txpower d.radio txpower in ok (record d { radio = radio }, 0, es)
ioctl d (set_ack (some timeout)) = ok (record d { sack = Sack.set_timeout d.sack timeout }, 0, [])
ioctl d (set_lpl (some ldata)) = ok (record d { lpl = apply_lpl d.lpl ldata }, 0, [])
ioctl d (set_csma (some ldata)) = ok (record d { csma = apply_csma d.csma ldata }, 0, [])
ioctl d (set_print (some debug_level)) = ok (record d { debug_print = debug_level }, 0, [])
ioctl d _ = ok (d, 0, [])
