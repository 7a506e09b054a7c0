-- ===== src/OsRelease/Repeat.antt =====
-- A second call of `Update` after one that succeeded.
use infra_pulse.Base.{
  Bool, true, false, ◌&&◌, Option, none, some, [], ◌≡◌, inl, inr, refl, nat_eq, list_eq, Eq, ◌==◌,
  Bool-cases, Outcome, ok, err, panic,
}
use infra_pulse.Base.Text.{Bytes}
use infra_pulse.Metric.{Float64}
use infra_pulse.OsRelease.{
  Release, OsError, not_exist, no_data, other, ReleaseFile, System, OsCollector,
}
use infra_pulse.OsRelease.Load.{
  read_release, failed, set_support_end, behind_version, set_version, set_release, update_from,
  behind_stat, behind_open, major_minor,
}
use infra_pulse.OsRelease.Again.{update_from_again}

module _ {E : Type 0} where
  abbrev pub is_missing : Outcome (OsError E) (Unit {0}) → Bool
  is_missing (ok u) = false
  is_missing (err not_exist) = true
  is_missing (err no_data) = false
  is_missing (err (other e)) = false
  is_missing panic = false

  failed-is_missing :
      {C : Type 0} (error : Option E) (c : C) → is_missing (failed error c).1 ≡ false
  failed-is_missing none c = refl
  failed-is_missing (some e) c = refl

module _ {F T E : Type 0} ⦃fl : Float64 F⦄ (w : System F T E) (os : Release) where
  support_end-is_missing : (c : OsCollector F T) → is_missing (set_support_end w os c).1 ≡ false
  support_end-is_missing c = elim (Bool-cases (os.support_end == [])) [
    | inl e ↦ rw e refl
    | inr e ↦
        let (t, error) = w.parse_date os.support_end in
        rw e (failed-is_missing error (record c { support_end = t }))
  ]

  behind_version-is_missing :
      (error : Option E) (c : OsCollector F T) → is_missing (behind_version w os error c).1 ≡ false
  behind_version-is_missing none c = support_end-is_missing c
  behind_version-is_missing (some e) c = refl

  set_version-is_missing : (c : OsCollector F T) → is_missing (set_version w os c).1 ≡ false
  unfolding set_version
  set_version-is_missing c = elim (Bool-cases (major_minor os.version_id == [])) [
    | inl e ↦ rw e (support_end-is_missing (record c { version = fl.from_uint 0 }))
    | inr e ↦
        let (v, error) = w.parse_float (major_minor os.version_id) in
        rw e (behind_version-is_missing error (record c { version = v }))
  ]

module _ {F T E : Type 0} ⦃fl : Float64 F⦄ (w : System F T E) where
  set_release-is_missing :
      (r : Outcome E (Release × Option E)) (c : OsCollector F T)
      → is_missing (set_release w r c).1 ≡ false
  unfolding set_release
  set_release-is_missing (ok (os, none)) c = set_version-is_missing w os (record c { os = some os })
  set_release-is_missing (ok (os, some e)) c = refl
  set_release-is_missing (err e) c = refl
  set_release-is_missing panic c = refl

module _ {F T E : Type 0} ⦃fl : Float64 F⦄ ⦃te : Eq T⦄ (w : System F T E) (path : Bytes) where
  pub update_from-is_missing :
      (content : Bytes) (t : T) (c : OsCollector F T)
      → is_missing (update_from w path content t c).1 ≡ false
  unfolding update_from
  update_from-is_missing content t c =
      elim (Bool-cases (path == c.os_filename && t == c.os_mtime)) [
        | inl e ↦ rw (update_from, e) refl
        | inr e ↦
            rw (update_from, e)
              (set_release-is_missing w (read_release w path content)
                (record c { os_filename = path; os_mtime = t }))
      ]

  missing_stat :
      (content : Bytes) (c d : OsCollector F T) (stat : Outcome (OsError E) T)
      → is_missing (behind_stat w path content c stat).1 ≡ true
      → behind_stat w path content d stat ≡ (d, err not_exist)
  missing_stat content c d (ok t) h = absurd (cc (update_from-is_missing content t c))
  missing_stat content c d (err not_exist) h = refl
  missing_stat content c d (err no_data) h = cc
  missing_stat content c d (err (other e)) h = cc
  missing_stat content c d panic h = cc

  pub missing_open :
      (c d : OsCollector F T) (file : Outcome (OsError E) (ReleaseFile T E))
      → is_missing (behind_open w path c file).1 ≡ true
      → behind_open w path d file ≡ (d, err not_exist)
  missing_open c d (ok file) h = missing_stat file.content c d file.stat h
  missing_open c d (err not_exist) h = refl
  missing_open c d (err no_data) h = cc
  missing_open c d (err (other e)) h = cc
  missing_open c d panic h = cc

  again_stat :
      (content : Bytes) (c : OsCollector F T) (stat : Outcome (OsError E) T)
      → (behind_stat w path content c stat).1 ≡ ok tt
      → behind_stat w path content (behind_stat w path content c stat).0 stat
        ≡ ((behind_stat w path content c stat).0, ok tt)
  again_stat content c (ok t) h = update_from_again w path content t c
  again_stat content c (err e) h = cc
  again_stat content c panic h = cc

  pub again_open :
      (c : OsCollector F T) (file : Outcome (OsError E) (ReleaseFile T E))
      → (behind_open w path c file).1 ≡ ok tt
      → behind_open w path (behind_open w path c file).0 file
        ≡ ((behind_open w path c file).0, ok tt)
  again_open c (ok file) h = again_stat file.content c file.stat h
  again_open c (err e) h = cc
  again_open c panic h = cc
