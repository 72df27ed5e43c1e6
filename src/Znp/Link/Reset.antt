-- ===== src/Znp/Link/Reset.antt =====
-- components/znp_transport/znp_transport.c: `znp_transport_reset_coprocessor`. The writes to the
-- PCA9538 expander only move pins; their results are not looked at.
use zigbee_hub.Base.{
  ℕ, ◌≡◌, refl, arith, Bool, true, false, not, ◌&&◌, ◌||◌, List, [], ◌∷◌, ◌==◌, if◌then◌else◌,
  EspErr, ok, znp_not_init, znp_reset_timeout, bit_and,
}
use zigbee_hub.Znp.Mt.{subsys_sys_areq, sys_reset_ind_cmd}
use zigbee_hub.Znp.Frame.{Frame, frame_type_areq, frame_type_mask}
use zigbee_hub.Znp.Link.{Link, dispatch_frame, dispatch_all, count_error, queue_areq}

-- `arrivals` are the frames that the dispatch task handles while the caller waits.
unfoldable pub reset_coprocessor : Link → List Frame → EspErr × Link
reset_coprocessor l arrivals =
    if not l.initialized
    then (znp_not_init, l)
    else let after = dispatch_all (record l { reset_ind_sem = false }) arrivals in
      if after.reset_ind_sem
      then (ok, record after { reset_ind_sem = false })
      else (znp_reset_timeout, count_error after)

-- SYS_RESET_IND, as an AREQ.
abbrev pub is_reset_ind : Frame → Bool
is_reset_ind f = f.cmd_type == subsys_sys_areq && f.cmd_id == sys_reset_ind_cmd

pub any_reset_ind : List Frame → Bool
any_reset_ind [] = false
any_reset_ind (f ∷ fs) = is_reset_ind f || any_reset_ind fs

reset_type : (t : ℕ) → t ≡ 0x41 → bit_and t frame_type_mask ≡ frame_type_areq
reset_type t e = rw e refl

dispatch_frame-reset_ind :
    (l : Link) (f : Frame)
    → (dispatch_frame l f).reset_ind_sem ≡ (l.reset_ind_sem || is_reset_ind f)
unfolding dispatch_frame queue_areq
dispatch_frame-reset_ind l f = ground (arith, reset_type f.cmd_type)

dispatch_all-reset_ind :
    (l : Link) (fs : List Frame)
    → (dispatch_all l fs).reset_ind_sem ≡ (l.reset_ind_sem || any_reset_ind fs)
unfolding dispatch_all any_reset_ind
dispatch_all-reset_ind l [] = ground arith
dispatch_all-reset_ind l (f ∷ fs) =
    ground (arith, dispatch_all-reset_ind (dispatch_frame l f) fs, dispatch_frame-reset_ind l f)

-- Resetting an initialized link succeeds exactly when a SYS_RESET_IND is among the frames that come
-- after the old indication was cleared, and answers ZNP_ERR_RESET_TIMEOUT otherwise; either way no
-- indication is left behind.
pub reset_coprocessor_lem :
    (l : Link) (arrivals : List Frame)
    → l.initialized ≡ true
    → ((reset_coprocessor l arrivals).0
        ≡ (if any_reset_ind arrivals then ok else znp_reset_timeout))
      × ((reset_coprocessor l arrivals).1.reset_ind_sem ≡ false)
unfolding reset_coprocessor
reset_coprocessor_lem l arrivals init =
    ground (arith, dispatch_all-reset_ind (record l { reset_ind_sem = false }) arrivals)
