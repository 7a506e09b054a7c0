-- ===== src/Netstat/Owner/Keeps.antt =====
-- What `iterFdDir` and `extractProcInfo` leave alone: everything but the owners.
use infra_pulse.Base.{
  Option, none, some, List, [], ◌∷◌, ◌≡◌, refl, ap₂, ◌∙◌, either_branch, list_eq, nat_eq, ◌==◌,
  Outcome, ok, err, panic,
}
use infra_pulse.Base.Text.{Bytes, NumError, has_prefix, atoi}
use infra_pulse.Base.Int.{ℤ}
use infra_pulse.Netstat.{SockTabEntry, Process, Error}
use infra_pulse.Netstat.Owner.{
  ProcDir, Marked, sock_prefix, link_name, owned_by, get_process, onto, returned, read_process,
  mark_entries, iter_links, iter_fd_dir, extract_one, extract_all, extract_proc_info,
}

-- The entries without their owners.
abbrev pub unowned : List SockTabEntry → List SockTabEntry
unowned [] = []
unowned (sk ∷ rest) = record sk { process = none } ∷ unowned rest

abbrev Keeps : List SockTabEntry → Outcome Marked Marked → Type 0
Keeps tab (ok m) = unowned m.table ≡ unowned tab
Keeps tab (err m) = unowned m.table ≡ unowned tab
Keeps tab panic = Unit

onto-Keeps :
    (sk sk' : SockTabEntry) (tab : List SockTabEntry) (o : Outcome Marked Marked)
    → record sk' { process = none } ≡ record sk { process = none }
    → Keeps tab o
    → Keeps (sk ∷ tab) (onto sk' o)
onto-Keeps sk sk' tab (ok m) e h = ap₂ ◌∷◌ e h
onto-Keeps sk sk' tab (err m) e h = ap₂ ◌∷◌ e h
onto-Keeps sk sk' tab panic e h = tt

mark_entries-Keeps :
    (pid : ℤ) (stat : Option Bytes) (lname : Bytes) (p : Option Process) (tab : List SockTabEntry)
    → Keeps tab (mark_entries pid stat lname p tab)
unfolding mark_entries
mark_entries-Keeps pid stat lname p [] = refl
mark_entries-Keeps pid stat lname p (sk ∷ rest) =
    either_branch (Keeps (sk ∷ rest)) (link_name sk == lname)
      (owned (get_process p (read_process pid stat))
        (λ q. mark_entries-Keeps pid stat lname (some q) rest))
      (onto-Keeps sk sk rest _ refl (mark_entries-Keeps pid stat lname p rest))
  where
    owned :
        (o : Outcome (Unit {0}) Process)
        → ((q : Process) → Keeps rest (mark_entries pid stat lname (some q) rest))
        → Keeps (sk ∷ rest) (elim o [
          | ok q ↦ onto (owned_by q sk) (mark_entries pid stat lname (some q) rest)
          | err _ ↦ err (record { proc = p; table = sk ∷ rest })
          | panic ↦ panic
        ])
    owned (ok q) ih = onto-Keeps sk (owned_by q sk) rest _ refl (ih q)
    owned (err x) ih = refl
    owned panic ih = tt

Keeps-trans :
    (tab tab' : List SockTabEntry) (o : Outcome Marked Marked)
    → unowned tab' ≡ unowned tab
    → Keeps tab' o
    → Keeps tab o
Keeps-trans tab tab' (ok m) e h = h ∙ e
Keeps-trans tab tab' (err m) e h = h ∙ e
Keeps-trans tab tab' panic e h = tt

iter_links-Keeps :
    (pid : ℤ) (stat : Option Bytes) (links : List (Option Bytes)) (m : Marked)
    → Keeps m.table (iter_links pid stat links m)
unfolding iter_links
iter_links-Keeps pid stat [] m = refl
iter_links-Keeps pid stat (none ∷ links) m = iter_links-Keeps pid stat links m
iter_links-Keeps pid stat (some lname ∷ links) m =
    either_branch (Keeps m.table) (has_prefix lname sock_prefix)
      (go (mark_entries pid stat lname m.proc m.table)
        (mark_entries-Keeps pid stat lname m.proc m.table) (iter_links-Keeps pid stat links))
      (iter_links-Keeps pid stat links m)
  where
    go :
        (o : Outcome Marked Marked)
        → Keeps m.table o
        → ((m' : Marked) → Keeps m'.table (iter_links pid stat links m'))
        → Keeps m.table
            (elim o [ ok m' ↦ iter_links pid stat links m' | err m' ↦ err m' | panic ↦ panic ])
    go (ok m') h ih = Keeps-trans m.table m'.table (iter_links pid stat links m') h (ih m')
    go (err m') h ih = h
    go panic h ih = tt

-- A table that differs from `tab` in the owners alone; or a panic.
abbrev pub KeepsTable : List SockTabEntry → Outcome Error (List SockTabEntry) → Type 0
KeepsTable tab (ok tab') = unowned tab' ≡ unowned tab
KeepsTable tab (err e) = ⊥
KeepsTable tab panic = Unit

returned-KeepsTable :
    (tab : List SockTabEntry) (o : Outcome Marked Marked)
    → Keeps tab o
    → KeepsTable tab (returned o)
returned-KeepsTable tab (ok m) h = h
returned-KeepsTable tab (err m) h = h
returned-KeepsTable tab panic h = tt

extract_one-KeepsTable :
    (dir : ProcDir) (tab : List SockTabEntry) → KeepsTable tab (extract_one dir tab)
unfolding extract_one iter_fd_dir
extract_one-KeepsTable dir tab =
    either_branch (KeepsTable tab) dir.is_dir (numbered (atoi dir.name)) refl
  where
    read :
        (pid : ℤ) (o : Option (List (Option Bytes)))
        → KeepsTable tab (elim o [
          | none ↦ ok tab
          | some links ↦
              returned (iter_links pid dir.stat links (record { proc = none; table = tab }))
        ])
    read pid none = refl
    read pid (some links) =
        returned-KeepsTable tab _
          (iter_links-Keeps pid dir.stat links (record { proc = none; table = tab }))

    numbered :
        (o : Outcome NumError ℤ)
        → KeepsTable tab (elim o [ ok pid ↦ iter_fd_dir pid dir tab | _ ↦ ok tab ])
    numbered (ok pid) = read pid dir.links
    numbered (err e) = refl
    numbered panic = refl

extract_all-KeepsTable :
    (dirs : List ProcDir) (tab : List SockTabEntry) → KeepsTable tab (extract_all dirs tab)
unfolding extract_all
extract_all-KeepsTable [] tab = refl
extract_all-KeepsTable (dir ∷ dirs) tab =
    go (extract_one dir tab) (extract_one-KeepsTable dir tab) (extract_all-KeepsTable dirs)
  where
    go :
        (o : Outcome Error (List SockTabEntry))
        → KeepsTable tab o
        → ((t : List SockTabEntry) → KeepsTable t (extract_all dirs t))
        → KeepsTable tab
            (elim o [ ok sktab' ↦ extract_all dirs sktab' | err e ↦ err e | panic ↦ panic ])
    go (ok t) h ih = KeepsTable-trans t (extract_all dirs t) h (ih t)
      where
        KeepsTable-trans :
            (t : List SockTabEntry) (o : Outcome Error (List SockTabEntry))
            → unowned t ≡ unowned tab
            → KeepsTable t o
            → KeepsTable tab o
        KeepsTable-trans t (ok u) e h = h ∙ e
        KeepsTable-trans t (err x) e h = h
        KeepsTable-trans t panic e h = tt
    go (err e) h ih = h
    go panic h ih = tt

-- Whatever the file system answers, `extractProcInfo` does not fail, and a table that it leaves has
-- the same entries in the same order with all their fields but the owner.
pub extract_proc_info-KeepsTable :
    (procs : Option (List ProcDir)) (tab : List SockTabEntry)
    → KeepsTable tab (extract_proc_info procs tab)
unfolding extract_proc_info
extract_proc_info-KeepsTable none tab = refl
extract_proc_info-KeepsTable (some dirs) tab = extract_all-KeepsTable dirs tab
