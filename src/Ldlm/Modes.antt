-- ===== src/Ldlm/Modes.antt =====
-- lustre/ldlm.h: which modes two clients can hold on one extent.
use lustre_simulator.Base.{◌^◌, ◌≡◌, refl}
use lustre_simulator.Base.Run.{Ends, ends}
use lustre_simulator.Ldlm.{
  Mode, ex, pw, pr, cw, cr, nl, group, lockmode_compat, lock_mode_to_index, index_loop, mode_value,
}

-- Compatibility is symmetric.
pub lockmode_compat_comm : (a b : Mode) → lockmode_compat a b ≡ lockmode_compat b a
unfolding lockmode_compat
lockmode_compat_comm ex ex = refl
lockmode_compat_comm ex _ = refl
lockmode_compat_comm pw ex = refl
lockmode_compat_comm pw _ = refl
lockmode_compat_comm pr ex = refl
lockmode_compat_comm pr _ = refl
lockmode_compat_comm cw ex = refl
lockmode_compat_comm cw _ = refl
lockmode_compat_comm cr ex = refl
lockmode_compat_comm cr _ = refl
lockmode_compat_comm nl ex = refl
lockmode_compat_comm nl _ = refl
lockmode_compat_comm group ex = refl
lockmode_compat_comm group _ = refl

-- A mode's index is the one bit that its value has, as the assertions on the trees want it.
pub lock_mode_to_index_lem : (m : Mode) → Ends (λ i. 2 ^ i ≡ mode_value m) (lock_mode_to_index m)
unfolding lock_mode_to_index index_loop
lock_mode_to_index_lem ex = ends refl
lock_mode_to_index_lem _ = ends refl
