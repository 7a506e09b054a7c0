-- ===== src/OsRelease/Again.antt =====
-- A second call of `Update` on the same files.
use infra_pulse.Base.{
  true, false, ◌&&◌, Option, none, some, List, [], ◌∷◌, ◌++◌, ◌≡◌, inl, inr, refl, sym, subst, ap,
  ◌∙◌, arith, nat_eq, list_eq, Eq, ◌==◌, ==_iff, Bool-cases, Outcome, ok, err, panic,
}
use infra_pulse.Base.Text.{Bytes}
use infra_pulse.Metric.{Float64, FloatOps}
use infra_pulse.OsRelease.{Release, other, ReleaseFile, System, OsCollector}
use infra_pulse.OsRelease.Load.{
  read_release, failed, set_support_end, behind_version, set_version, set_release, update_from,
  update_struct, major_minor,
}
use infra_pulse.OsRelease.Update.{next_file, is_empty, update_files, os_metrics, send_os, update}

module _ {F T : Type 0} where
  -- What tells which file was read.
  abbrev stamp : OsCollector F T → Bytes × (T × List Bytes)
  stamp c = (c.os_filename, (c.os_mtime, c.os_release_filenames))

  failed-stamp :
      {E : Type 0} (error : Option E) (c : OsCollector F T) → stamp (failed error c).0 ≡ stamp c
  failed-stamp none c = refl
  failed-stamp (some e) c = refl

module _ {F T E : Type 0} ⦃fl : Float64 F⦄ (w : System F T E) (os : Release) where
  support_end-stamp : (c : OsCollector F T) → stamp (set_support_end w os c).0 ≡ stamp c
  support_end-stamp c = elim (Bool-cases (os.support_end == [])) [
    | inl e ↦ rw e refl
    | inr e ↦
        let (t, error) = w.parse_date os.support_end in
        rw e (failed-stamp error (record c { support_end = t }))
  ]

  behind_version-stamp :
      (error : Option E) (c : OsCollector F T) → stamp (behind_version w os error c).0 ≡ stamp c
  behind_version-stamp none c = support_end-stamp c
  behind_version-stamp (some e) c = refl

  set_version-stamp : (c : OsCollector F T) → stamp (set_version w os c).0 ≡ stamp c
  unfolding set_version
  set_version-stamp c = elim (Bool-cases (major_minor os.version_id == [])) [
    | inl e ↦ rw e (support_end-stamp (record c { version = fl.from_uint 0 }))
    | inr e ↦
        let (v, error) = w.parse_float (major_minor os.version_id) in
        rw e (behind_version-stamp error (record c { version = v }))
  ]

module _ {F T E : Type 0} ⦃fl : Float64 F⦄ (w : System F T E) where
  set_release-stamp :
      (r : Outcome E (Release × Option E)) (c : OsCollector F T)
      → stamp (set_release w r c).0 ≡ stamp c
  unfolding set_release
  set_release-stamp (ok (os, none)) c = set_version-stamp w os (record c { os = some os })
  set_release-stamp (ok (os, some e)) c = refl
  set_release-stamp (err e) c = refl
  set_release-stamp panic c = refl

module _ {F T E : Type 0} ⦃fl : Float64 F⦄ ⦃te : Eq T⦄ (w : System F T E) where
  update_from-skips :
      (path content : Bytes) (t : T) (d : OsCollector F T)
      → path ≡ d.os_filename
      → t ≡ d.os_mtime
      → update_from w path content t d ≡ (d, ok tt)
  unfolding update_from
  update_from-skips path content t d p q =
      let same : path == d.os_filename && t == d.os_mtime ≡ true =
        ground (arith, (==_iff path d.os_filename).1 p, (==_iff t d.os_mtime).1 q) in
      rw (update_from, same) refl

  -- A file that has been read, whatever came of it, is not read again while its time is the same.
  pub update_from_again :
      (path content : Bytes) (t : T) (c : OsCollector F T)
      → update_from w path content t (update_from w path content t c).0
        ≡ ((update_from w path content t c).0, ok tt)
  unfolding update_from
  update_from_again path content t c =
      elim (Bool-cases (path == c.os_filename && t == c.os_mtime)) [
        | inl e ↦
            let first : update_from w path content t c ≡ (c, ok tt) = rw (update_from, e) refl in
            subst (λ r. update_from w path content t r.0 ≡ (r.0, ok tt)) (sym first) first
        | inr e ↦
            let r = read_release w path content in
            let at = record c { os_filename = path; os_mtime = t } in
            let s = set_release-stamp w r at in
            let first : update_from w path content t c ≡ set_release w r at =
              rw (update_from, e) refl in
            subst (λ x. update_from w path content t x.0 ≡ (x.0, ok tt)) (sym first)
              (update_from-skips path content t (set_release w r at).0 (sym (ap (λ x. x.0) s))
                (sym (ap (λ x. x.1.0) s)))
      ]

  pub update_from-filenames :
      (path content : Bytes) (t : T) (c : OsCollector F T)
      → (update_from w path content t c).0.os_release_filenames ≡ c.os_release_filenames
  unfolding update_from
  update_from-filenames path content t c =
      elim (Bool-cases (path == c.os_filename && t == c.os_mtime)) [
        | inl e ↦ rw (update_from, e) refl
        | inr e ↦
            rw (update_from, e)
              (ap (λ x. x.1.1)
                (set_release-stamp w (read_release w path content)
                  (record c { os_filename = path; os_mtime = t })))
      ]

  -- The loop at a file that can be opened.
  files-opened :
      (rootfs_path path : Bytes) (paths : List Bytes) (file : ReleaseFile T E) (t : T)
      (c : OsCollector F T)
      → w.open_file (rootfs_path ++ path) ≡ ok file
      → file.stat ≡ ok t
      → update_files w rootfs_path (path ∷ paths) c
        ≡ next_file
            (is_empty paths)
            (λ d. update_files w rootfs_path paths d)
            (update_from w (rootfs_path ++ path) file.content t c)
  unfolding update_files update_struct
  files-opened rootfs_path path paths file t c ho hs = rw (ho, hs) refl

  pub update-files :
      ⦃ops : FloatOps F⦄ (rootfs_path : Bytes) (files : List Bytes) (c : OsCollector F T)
      → c.os_release_filenames ≡ files
      → update w rootfs_path c ≡ send_os w (update_files w rootfs_path files c)
  unfolding update
  update-files rootfs_path files c h = ap (λ l. send_os w (update_files w rootfs_path l c)) h

  -- When the first file that `Update` tries can be opened but not understood, `Update` returns the error
  -- once: a second call with the same files returns no error and sends what was read of the file.
  pub update-forgets_error :
      ⦃ops : FloatOps F⦄ (rootfs_path path : Bytes) (paths : List Bytes) (file : ReleaseFile T E)
      (t : T) (os : Release) (e : E) (c : OsCollector F T)
      → c.os_release_filenames ≡ path ∷ paths
      → w.open_file (rootfs_path ++ path) ≡ ok file
      → file.stat ≡ ok t
      → read_release w (rootfs_path ++ path) file.content ≡ ok (os, some e)
      → (rootfs_path ++ path == c.os_filename && t == c.os_mtime) ≡ false
      → ((update w rootfs_path c).result ≡ err (other e))
        × ((update w rootfs_path (update w rootfs_path c).collector).result ≡ ok tt)
        × ((update w rootfs_path (update w rootfs_path c).collector).sent
            ≡ os_metrics w os (update w rootfs_path c).collector)
  unfolding update send_os set_release update_from
  update-forgets_error rootfs_path path paths file t os e c fs ho hs hr hc =
      let name = rootfs_path ++ path in
      let d = record c { os_filename = name; os_mtime = t; os = some os } in
      let failed_read : update_from w name file.content t c ≡ (d, err (other e)) =
        rw (update_from, hc, hr) refl in
      let first : update w rootfs_path c
          ≡ record { sent = []; collector = d; result = err (other e) } =
        update-files rootfs_path (path ∷ paths) c fs
        ∙ rw (files-opened rootfs_path path paths file t c ho hs, failed_read) refl in
      let second : update w rootfs_path d
          ≡ record { sent = os_metrics w os d; collector = d; result = ok tt } =
        update-files rootfs_path (path ∷ paths) d fs
        ∙ rw
            (
              files-opened rootfs_path path paths file t d ho hs,
              update_from-skips name file.content t d refl refl,
            )
            refl in
      rw (first, second) (refl, refl, refl)
