-- ===== src/Undel/Dispatch/Reports.antt =====
-- What the user learns of a request that ends.
use mathlib.Core.Path.{subst}
use ext3u.Common.{
  ℕ, ◌≡◌, refl, sym, ap, ◌∙◌, false, if◌then◌else◌, ◌==◌, Result, ok, err, eopnotsupp,
}
use ext3u.Undel.Disk.{Disk}
use ext3u.Undel.Urm.{Setting, urm}
use ext3u.Undel.Urm.Outcome.{Failed, urm-err}
use ext3u.Undel.Dispatch.{
  UrmInfo, Machine, Call, urm_call, do_urm, forwarded, handed_back, handle, ext3_ioctl,
}

module _ {V : Type 0} (C : Setting V) (K : Machine) where
  -- What the ioctl leaves with a number in `u_errcode`, and the rest of the state.
  abbrev pub told : UrmInfo → (e : ℕ) → V → Disk → Result ℕ × Call × V × Disk
  told info e v d = (
    ok K.uncopied,
    (if K.uncopied == 0
        then urm_call (record info { u_errcode = e })
        else K.partial (urm_call info) (urm_call (record info { u_errcode = e }))),
    v,
    d,
  )

  do_urm-err :
      (info : UrmInfo) (v : V) (d : Disk) (e : ℕ)
      → (urm C info.u_path info.u_dpath v d).0 ≡ err e
      → do_urm C K info v d ≡ (
        ok e,
        record info { u_errcode = e },
        (urm C info.u_path info.u_dpath v d).1,
        (urm C info.u_path info.u_dpath v d).2,
      )
  unfolding do_urm
  do_urm-err info v d e h = rw (h, do_urm) refl

  -- The dispatch of a request that `ext3u_do_urm` has answered with a number.
  ext3_ioctl-do_urm :
      (info : UrmInfo) (v : V) (d : Disk) (k e : ℕ) (v' : V) (d' : Disk)
      → K.incompat_undelete ≡ false
      → do_urm C K info v d ≡ (ok k, record info { u_errcode = e }, v', d')
      → ext3_ioctl C K (urm_call info) v d ≡ told info e v' d'
  unfolding ext3_ioctl handle forwarded handed_back
  ext3_ioctl-do_urm info v d k e v' d' on done =
      ap (λ t. if t then (err eopnotsupp, urm_call info, v, d) else handle C K (urm_call info) v d)
        on
      ∙ ap (λ r. (forwarded C K r.0, handed_back C K (urm_call info) (urm_call r.1), r.2, r.3)) done

  -- A restoration that succeeds.
  pub ext3_ioctl-ok :
      (info : UrmInfo) (v : V) (d : Disk)
      → K.incompat_undelete ≡ false
      → (urm C info.u_path info.u_dpath v d).0 ≡ ok tt
      → ext3_ioctl C K (urm_call info) v d
        ≡ told info 0 (urm C info.u_path info.u_dpath v d).1 (urm C info.u_path info.u_dpath v d).2
  unfolding do_urm
  ext3_ioctl-ok info v d on h =
      ext3_ioctl-do_urm info v d 0 0 (urm C info.u_path info.u_dpath v d).1
        (urm C info.u_path info.u_dpath v d).2 on (rw (h, do_urm) refl)

  -- A restoration that fails.
  pub ext3_ioctl-told :
      (info : UrmInfo) (v : V) (d : Disk) (e : ℕ)
      → K.incompat_undelete ≡ false
      → (urm C info.u_path info.u_dpath v d).0 ≡ err e
      → ext3_ioctl C K (urm_call info) v d
        ≡ told info e (urm C info.u_path info.u_dpath v d).1 (urm C info.u_path info.u_dpath v d).2
  ext3_ioctl-told info v d e on h =
      ext3_ioctl-do_urm info v d e e (urm C info.u_path info.u_dpath v d).1
        (urm C info.u_path info.u_dpath v d).2 on (do_urm-err info v d e h)

  -- A restoration that fails, on a file system without the feature that turns the requests off, is told by
  -- `u_errcode` alone, where the copy to the user leaves nothing: the ioctl returns what `copy_to_user` left, whatever the
  -- error. The undelete file is as it was, but where the superblock cannot be read again at the end: then the
  -- error is EIO, and the entry that was found for the path has been deleted from the list.
  pub ext3_ioctl-err :
      (info : UrmInfo) (v : V) (d : Disk) (e : ℕ)
      → K.incompat_undelete ≡ false
      → (urm C info.u_path info.u_dpath v d).0 ≡ err e
      → let (r, call, v', d') = ext3_ioctl C K (urm_call info) v d in
        (r ≡ ok K.uncopied)
        × (call ≡ (
            if K.uncopied == 0
            then urm_call (record info { u_errcode = e })
            else K.partial (urm_call info) (urm_call (record info { u_errcode = e }))))
        × Failed C d info.u_path e d'
  ext3_ioctl-err info v d e on h =
      let answer = ext3_ioctl-told info v d e on h in
      (
        ap (λ r. r.0) answer,
        ap (λ r. r.1) answer,
        subst (Failed C d info.u_path e) (sym (ap (λ r. r.3) answer))
            (urm-err C d info.u_path info.u_dpath v e h),
      )
