-- ===== src/State.antt =====
-- state/state.go: what a volume holds, and what fits.
pub mod Accounting
use rebost.Prelude.{
  String, Bool, true, false, if◌then◌else◌, ℤ, pos, minus_one, ltb_ℤ, eqb_ℤ, int_add,
}
use rebost.Platform.{Time, add, before, zero_time}

pub record State : Type 0 where
  pub mountpoint : String
  pub system_total_size : ℤ
  pub system_used_size : ℤ
  pub volume_total_size : ℤ
  pub volume_used_size : ℤ
  pub updated_at : Time

-- `state.State{}`
abbrev pub empty_state : State
empty_state = record {
  mountpoint = "";
  system_total_size = pos 0;
  system_used_size = pos 0;
  volume_total_size = pos 0;
  volume_used_size = pos 0;
  updated_at = zero_time;
}

unfoldable pub total_size : State → ℤ
total_size s =
    if eqb_ℤ s.volume_total_size minus_one then s.system_total_size else s.volume_total_size

unfoldable pub used_size : State → ℤ
used_size s = if eqb_ℤ s.volume_total_size minus_one then s.system_used_size else s.volume_used_size

unfoldable pub can_store : State → ℤ → Bool
unfolding total_size used_size
can_store s b = if ltb_ℤ (total_size s) (int_add (used_size s) b) then false else true

-- The state comes back changed if `b` fits.
unfoldable pub use_size : State → ℤ → State × Bool
unfolding can_store
use_size s b =
    if can_store s b
    then (
      record s {
        system_used_size = int_add s.system_used_size b;
        volume_used_size = int_add s.volume_used_size b;
      },
      true,
    )
    else (s, false)

unfoldable pub is_in_downtime_range : State → ℤ → Time → Bool
unfolding add
is_in_downtime_range s d now = before (add s.updated_at d) now
