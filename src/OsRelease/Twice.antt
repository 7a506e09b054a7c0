-- ===== src/OsRelease/Twice.antt =====
-- Two calls of `Update`, with what both find in the file system unchanged.
use infra_pulse.Base.{
  Bool, true, false, List, [], ◌∷◌, ◌++◌, ◌≡◌, inl, inr, refl, sym, subst, ap, ◌∙◌, Eq,
  Option-cases, Outcome, ok, err, panic,
}
use infra_pulse.Base.Text.{Bytes}
use infra_pulse.Metric.{Float64, FloatOps}
use infra_pulse.OsRelease.{OsError, not_exist, no_data, other, ReleaseFile, System, OsCollector}
use infra_pulse.OsRelease.Load.{behind_stat, behind_open, update_struct}
use infra_pulse.OsRelease.Update.{next_file, is_empty, update_files, send_os, update}
use infra_pulse.OsRelease.Again.{update_from-filenames, update-files}
use infra_pulse.OsRelease.Repeat.{is_missing, missing_open, again_open}

module _ {F T E : Type 0}
    (rest s : OsCollector F T → OsCollector F T × Outcome (OsError E) (Unit {0}))
    (again : (c : OsCollector F T) → (s c).1 ≡ ok tt → s (s c).0 ≡ ((s c).0, ok tt))
    (missing : (c d : OsCollector F T) → is_missing (s c).1 ≡ true → s d ≡ (d, err not_exist))
    (rest_again : (c d : OsCollector F T)
      → (rest c).1 ≡ ok tt
      → d ≡ (rest c).0
      → rest d ≡ (d, ok tt)) where
  -- A result of the first file that leaves the loop without an error leaves it again.
  next_again :
      (last : Bool) (c d : OsCollector F T) (r : OsCollector F T × Outcome (OsError E) (Unit {0}))
      → s c ≡ r
      → (next_file last rest r).1 ≡ ok tt
      → d ≡ (next_file last rest r).0
      → next_file last rest (s d) ≡ (d, ok tt)
  next_again last c d (e, ok u) h f g =
      let first : s d ≡ (d, ok tt) =
        subst (λ x. s x ≡ (x, ok tt)) (ap (λ x. x.0) h ∙ sym g) (again c (ap (λ x. x.1) h)) in
      rw first refl
  next_again true c d (e, err not_exist) h f g = absurd cc
  next_again false c d (e, err not_exist) h f g =
      rw (missing c d (ap (λ x. is_missing x.1) h)) (rest_again e d f g)
  next_again last c d (e, err no_data) h f g = absurd cc
  next_again last c d (e, err (other x)) h f g = absurd cc
  next_again last c d (e, panic) h f g = absurd cc

module _ {F T E : Type 0} ⦃fl : Float64 F⦄ ⦃te : Eq T⦄ (w : System F T E)
    (rootfs_path : Bytes) where
  files_again :
      (paths : List Bytes) (c d : OsCollector F T)
      → (update_files w rootfs_path paths c).1 ≡ ok tt
      → d ≡ (update_files w rootfs_path paths c).0
      → update_files w rootfs_path paths d ≡ (d, ok tt)
  unfolding update_files update_struct
  files_again [] c d f g = refl
  files_again (path ∷ paths) c d f g =
      let file = w.open_file (rootfs_path ++ path) in
      next_again (λ e. update_files w rootfs_path paths e)
        (λ e. update_struct w (rootfs_path ++ path) e)
        (λ e. again_open w (rootfs_path ++ path) e file)
        (λ e k. missing_open w (rootfs_path ++ path) e k file) (λ e k. files_again paths e k)
        (is_empty paths) c d (update_struct w (rootfs_path ++ path) c) refl f g

module _ {F T E : Type 0} where
  abbrev KeepsNames : OsCollector F T → OsCollector F T × Outcome (OsError E) (Unit {0}) → Type 0
  KeepsNames c r = r.0.os_release_filenames ≡ c.os_release_filenames

  next_file-KeepsNames :
      (last : Bool) (rest : OsCollector F T → OsCollector F T × Outcome (OsError E) (Unit {0}))
      → ((e : OsCollector F T) → KeepsNames e (rest e))
      → (c : OsCollector F T) (r : OsCollector F T × Outcome (OsError E) (Unit {0}))
      → KeepsNames c r
      → KeepsNames c (next_file last rest r)
  next_file-KeepsNames last rest k c (e, ok u) h = h
  next_file-KeepsNames true rest k c (e, err not_exist) h = h
  next_file-KeepsNames false rest k c (e, err not_exist) h = k e ∙ h
  next_file-KeepsNames last rest k c (e, err no_data) h = h
  next_file-KeepsNames last rest k c (e, err (other x)) h = h
  next_file-KeepsNames last rest k c (e, panic) h = h

module _ {F T E : Type 0} ⦃fl : Float64 F⦄ ⦃te : Eq T⦄ (w : System F T E)
    (rootfs_path : Bytes) where
  behind_stat-KeepsNames :
      (path content : Bytes) (c : OsCollector F T) (stat : Outcome (OsError E) T)
      → KeepsNames c (behind_stat w path content c stat)
  behind_stat-KeepsNames path content c (ok t) = update_from-filenames w path content t c
  behind_stat-KeepsNames path content c (err e) = refl
  behind_stat-KeepsNames path content c panic = refl

  behind_open-KeepsNames :
      (path : Bytes) (c : OsCollector F T) (file : Outcome (OsError E) (ReleaseFile T E))
      → KeepsNames c (behind_open w path c file)
  behind_open-KeepsNames path c (ok file) = behind_stat-KeepsNames path file.content c file.stat
  behind_open-KeepsNames path c (err e) = refl
  behind_open-KeepsNames path c panic = refl

  update_files-KeepsNames :
      (paths : List Bytes) (c : OsCollector F T) → KeepsNames c (update_files w rootfs_path paths c)
  unfolding update_files update_struct
  update_files-KeepsNames [] c = refl
  update_files-KeepsNames (path ∷ paths) c =
      let file = w.open_file (rootfs_path ++ path) in
      next_file-KeepsNames (is_empty paths) (λ e. update_files w rootfs_path paths e)
        (λ e. update_files-KeepsNames paths e) c (update_struct w (rootfs_path ++ path) c)
        (behind_open-KeepsNames (rootfs_path ++ path) c file)

  send_os-collector :
      ⦃ops : FloatOps F⦄ (r : OsCollector F T × Outcome (OsError E) (Unit {0}))
      → (send_os w r).collector ≡ r.0
  unfolding send_os
  send_os-collector (c, ok u) = elim (Option-cases c.os) [
    | inl e ↦ rw e refl
    | inr (os, e) ↦ rw e refl
  ]
  send_os-collector (c, err e) = refl
  send_os-collector (c, panic) = refl

  send_os-succeeded :
      ⦃ops : FloatOps F⦄ (r : OsCollector F T × Outcome (OsError E) (Unit {0}))
      → (send_os w r).result ≡ ok tt
      → r.1 ≡ ok tt
  unfolding send_os
  send_os-succeeded (c, ok u) h = refl
  send_os-succeeded (c, err e) h = absurd cc
  send_os-succeeded (c, panic) h = absurd cc

  -- A second `Update`, with the files and their times unchanged, behind one without an error: it sends the
  -- same metrics, leaves the collector as it is and returns no error.
  pub update_again :
      ⦃ops : FloatOps F⦄ (c : OsCollector F T)
      → (update w rootfs_path c).result ≡ ok tt
      → update w rootfs_path (update w rootfs_path c).collector ≡ update w rootfs_path c
  update_again c h =
      let names = c.os_release_filenames in
      let r = update_files w rootfs_path names c in
      let first : update w rootfs_path c ≡ send_os w r = update-files w rootfs_path names c refl in
      let behind : (update w rootfs_path c).collector ≡ r.0 =
        ap (λ u. u.collector) first ∙ send_os-collector r in
      let succeeded : r.1 ≡ ok tt = send_os-succeeded r (sym (ap (λ u. u.result) first) ∙ h) in
      ap (λ d. update w rootfs_path d) behind
      ∙ update-files w rootfs_path names r.0 (update_files-KeepsNames names c)
      ∙ ap (λ p. send_os w p) (files_again w rootfs_path names c r.0 succeeded refl)
      ∙ ap (λ o. send_os w (r.0, o)) (sym succeeded)
      ∙ sym first
