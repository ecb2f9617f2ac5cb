-- ===== src/Virtio/Features.antt =====
-- VirtioBlk.cpp, Virtionet.cpp and TapInterface.cpp: the feature words. The numbers of the features
-- are those of virtio_blk.h, virtio_net.h and virtio_ring.h of the kernel headers, and the flags of
-- the tap device those of if_tun.h.
pub mod Negotiated
use type_ii_hypervisor_code.Common.{
  ℕ, ◌*◌, ◌^◌, bit_and, bit_or, if◌then◌else◌, Bool, ◌==◌, List, [], ◌∷◌,
}
use type_ii_hypervisor_code.Word.{not64, has, shr}

pub record BlkFeatures : Type 0 where
  pub ring_f_indirect_desc : ℕ
  pub ring_f_event_idx : ℕ
  pub blk_f_barrier : ℕ
  pub blk_f_size_max : ℕ
  pub blk_f_seg_max : ℕ
  pub blk_f_geometry : ℕ
  pub blk_f_ro : ℕ
  pub blk_f_blk_size : ℕ
  pub blk_f_scsi : ℕ
  pub blk_f_flush : ℕ

pub record NetFeatures : Type 0 where
  pub net_f_csum : ℕ
  pub net_f_host_tso4 : ℕ
  pub net_f_host_tso6 : ℕ
  pub net_f_host_ecn : ℕ
  pub net_f_host_ufo : ℕ
  pub net_f_guest_csum : ℕ
  pub net_f_guest_tso4 : ℕ
  pub net_f_guest_tso6 : ℕ
  pub net_f_guest_ecn : ℕ
  pub net_f_guest_ufo : ℕ

pub record TunFlags : Type 0 where
  pub tun_f_csum : ℕ
  pub tun_f_tso4 : ℕ
  pub tun_f_tso6 : ℕ
  pub tun_f_tso_ecn : ℕ
  pub tun_f_ufo : ℕ

-- `features |= 0x1 << f` and `features &= ~(0x1 << f)`, one after the other, for features below 31.
unfoldable pub with_features : List ℕ → ℕ → ℕ
with_features [] features = features
with_features (f ∷ fs) features = with_features fs (bit_or features (2 ^ f))

unfoldable pub without_features : List ℕ → ℕ → ℕ
without_features [] features = features
without_features (f ∷ fs) features = without_features fs (bit_and features (not64 (2 ^ f)))

module _ (b : BlkFeatures) where
  -- The first two are taken for masks.
  unfoldable pub blk_host_features : ℕ
  unfolding with_features
  blk_host_features =
      with_features (b.blk_f_flush ∷ b.blk_f_seg_max ∷ b.blk_f_size_max ∷ b.blk_f_blk_size ∷ [])
        (bit_or b.ring_f_indirect_desc b.ring_f_event_idx)

  unfoldable pub blk_guest_features : ℕ → ℕ
  unfolding without_features
  blk_guest_features = without_features (
      b.blk_f_barrier ∷ b.blk_f_size_max ∷ b.blk_f_seg_max ∷ b.blk_f_geometry ∷ b.blk_f_ro
      ∷ b.blk_f_blk_size ∷ b.blk_f_scsi ∷ b.blk_f_flush ∷ [])

module _ (n : NetFeatures) where
  -- `features` is what the back end offers.
  unfoldable pub net_host_features : ℕ → ℕ
  unfolding with_features
  net_host_features = with_features (
      n.net_f_csum ∷ n.net_f_host_tso4 ∷ n.net_f_host_tso6 ∷ n.net_f_host_ecn ∷ n.net_f_host_ufo
      ∷ [])

  abbrev pub net_features : List ℕ
  net_features =
      n.net_f_csum ∷ n.net_f_host_tso4 ∷ n.net_f_host_tso6 ∷ n.net_f_host_ecn ∷ n.net_f_host_ufo
      ∷ n.net_f_guest_csum ∷ n.net_f_guest_tso4 ∷ n.net_f_guest_tso6 ∷ n.net_f_guest_ecn
      ∷ n.net_f_guest_ufo ∷ []

  unfoldable pub net_guest_features : ℕ → ℕ
  unfolding without_features
  net_guest_features = without_features net_features

  -- One flag of the tap device.
  abbrev pub flag_if : ℕ → ℕ → ℕ → ℕ → ℕ
  flag_if features f flag offload = if has (shr features f) 1 then bit_or offload flag else offload

  -- The argument of TUNSETOFFLOAD.
  unfoldable pub tap_offload : TunFlags → ℕ → ℕ
  tap_offload t features =
      if has (shr features n.net_f_guest_csum) 1
      then flag_if features n.net_f_guest_ufo t.tun_f_ufo (
          flag_if features n.net_f_guest_ecn t.tun_f_tso_ecn (
            flag_if features n.net_f_guest_tso6 t.tun_f_tso6
              (flag_if features n.net_f_guest_tso4 t.tun_f_tso4 (bit_or 0 t.tun_f_csum))))
      else 0
