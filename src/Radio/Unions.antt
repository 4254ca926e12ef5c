-- ===== src/Radio/Unions.antt =====
-- cc2520.h: the unions of a register's value with its bit fields, and their defaults in radio_config.h.
-- The compiler puts the first field into the lowest bits, as on the driver's ARM target; an initialiser
-- sets the fields that it does not name to 0.
use linux_cc2520_driver.Prelude.{ℕ, ◌+◌, ◌*◌, ◌%◌, ◌^◌, List, [], ◌∷◌}

-- A field's width and what is assigned to it.
abbrev pub Fields : Type 0
Fields = List (ℕ × ℕ)

-- `.value`
unfoldable pub pack : Fields → ℕ
pack [] = 0
pack ((width, x) ∷ fs) = x % 2 ^ width + 2 ^ width * pack fs

-- union cc2520_frmctrl0
pub record FrmCtrl0 : Type 0 where
  pub tx_mode : ℕ
  pub rx_mode : ℕ
  pub energy_scan : ℕ
  pub autoack : ℕ
  pub autocrc : ℕ
  pub append_data_mode : ℕ

abbrev pub frmctrl0_fields : FrmCtrl0 → Fields
frmctrl0_fields u =
    (2, u.tx_mode)
    ∷ (2, u.rx_mode)
    ∷ (1, u.energy_scan)
    ∷ (1, u.autoack)
    ∷ (1, u.autocrc)
    ∷ (1, u.append_data_mode)
    ∷ []

abbrev pub frmctrl0_default : FrmCtrl0
frmctrl0_default = record {
  tx_mode = 0;
  rx_mode = 0;
  energy_scan = 0;
  autoack = 0;
  autocrc = 1;
  append_data_mode = 0;
}

-- union cc2520_txpower
pub record TxPower : Type 0 where
  pub pa_power : ℕ

abbrev pub txpower_fields : TxPower → Fields
txpower_fields u = (8, u.pa_power) ∷ []

abbrev pub txpower_default : TxPower
txpower_default = record { pa_power = 0x32 }

-- union cc2520_ccactrl0
pub record CcaCtrl0 : Type 0 where
  pub cca_thr : ℕ

abbrev pub ccactrl0_fields : CcaCtrl0 → Fields
ccactrl0_fields u = (8, u.cca_thr) ∷ []

abbrev pub ccactrl0_default : CcaCtrl0
ccactrl0_default = record { cca_thr = 0x1A }

-- union cc2520_mdmctrl0
pub record MdmCtrl0 : Type 0 where
  pub tx_filter : ℕ
  pub preamble_length : ℕ
  pub demod_avg_mode : ℕ
  pub dem_num_zeros : ℕ

abbrev pub mdmctrl0_fields : MdmCtrl0 → Fields
mdmctrl0_fields u =
    (1, u.tx_filter) ∷ (4, u.preamble_length) ∷ (1, u.demod_avg_mode) ∷ (2, u.dem_num_zeros) ∷ []

abbrev pub mdmctrl0_default : MdmCtrl0
mdmctrl0_default = record {
  tx_filter = 1;
  preamble_length = 2;
  demod_avg_mode = 0;
  dem_num_zeros = 2;
}

-- union cc2520_mdmctrl1
pub record MdmCtrl1 : Type 0 where
  pub corr_thr : ℕ
  pub corr_thr_sfd : ℕ
  pub reserved0 : ℕ

abbrev pub mdmctrl1_fields : MdmCtrl1 → Fields
mdmctrl1_fields u = (5, u.corr_thr) ∷ (1, u.corr_thr_sfd) ∷ (2, u.reserved0) ∷ []

abbrev pub mdmctrl1_default : MdmCtrl1
mdmctrl1_default = record { corr_thr = 0x14; corr_thr_sfd = 0; reserved0 = 0 }

-- union cc2520_freqctrl
pub record FreqCtrl : Type 0 where
  pub freq : ℕ
  pub reserved0 : ℕ

abbrev pub freqctrl_fields : FreqCtrl → Fields
freqctrl_fields u = (7, u.freq) ∷ (1, u.reserved0) ∷ []

abbrev pub freqctrl_default : FreqCtrl
freqctrl_default = record { freq = 0x0B; reserved0 = 0 }

-- union cc2520_fifopctrl
pub record FifopCtrl : Type 0 where
  pub fifop_thr : ℕ
  pub reserved0 : ℕ

abbrev pub fifopctrl_fields : FifopCtrl → Fields
fifopctrl_fields u = (7, u.fifop_thr) ∷ (1, u.reserved0) ∷ []

abbrev pub fifopctrl_default : FifopCtrl
fifopctrl_default = record { fifop_thr = 127; reserved0 = 0 }

-- union cc2520_frmfilt0
pub record FrmFilt0 : Type 0 where
  pub frame_filter_en : ℕ
  pub pan_coordinator : ℕ
  pub max_frame_version : ℕ
  pub fcf_reserved_mask : ℕ
  pub reserved : ℕ

abbrev pub frmfilt0_fields : FrmFilt0 → Fields
frmfilt0_fields u =
    (1, u.frame_filter_en)
    ∷ (1, u.pan_coordinator)
    ∷ (2, u.max_frame_version)
    ∷ (3, u.fcf_reserved_mask)
    ∷ (1, u.reserved)
    ∷ []

abbrev pub frmfilt0_default : FrmFilt0
frmfilt0_default = record {
  frame_filter_en = 1;
  pan_coordinator = 0;
  max_frame_version = 2;
  fcf_reserved_mask = 0;
  reserved = 0;
}

-- union cc2520_frmfilt1
pub record FrmFilt1 : Type 0 where
  pub reserved0 : ℕ
  pub modify_ft_filter : ℕ
  pub accept_ft_0_beacon : ℕ
  pub accept_ft_1_data : ℕ
  pub accept_ft_2_ack : ℕ
  pub accept_ft_3_mac_cmd : ℕ
  pub accept_ft_4to7_reserved : ℕ

abbrev pub frmfilt1_fields : FrmFilt1 → Fields
frmfilt1_fields u =
    (1, u.reserved0)
    ∷ (2, u.modify_ft_filter)
    ∷ (1, u.accept_ft_0_beacon)
    ∷ (1, u.accept_ft_1_data)
    ∷ (1, u.accept_ft_2_ack)
    ∷ (1, u.accept_ft_3_mac_cmd)
    ∷ (1, u.accept_ft_4to7_reserved)
    ∷ []

abbrev pub frmfilt1_default : FrmFilt1
frmfilt1_default = record {
  reserved0 = 0;
  modify_ft_filter = 0;
  accept_ft_0_beacon = 1;
  accept_ft_1_data = 1;
  accept_ft_2_ack = 1;
  accept_ft_3_mac_cmd = 1;
  accept_ft_4to7_reserved = 1;
}

-- union cc2520_srcmatch
pub record SrcMatch : Type 0 where
  pub src_match_en : ℕ
  pub autopend : ℕ
  pub pend_datareq_only : ℕ
  pub reserved : ℕ

abbrev pub srcmatch_fields : SrcMatch → Fields
srcmatch_fields u =
    (1, u.src_match_en) ∷ (1, u.autopend) ∷ (1, u.pend_datareq_only) ∷ (5, u.reserved) ∷ []

abbrev pub srcmatch_default : SrcMatch
srcmatch_default = record { src_match_en = 0; autopend = 1; pend_datareq_only = 1; reserved = 0 }
