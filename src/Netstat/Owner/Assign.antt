-- ===== src/Netstat/Owner/Assign.antt =====
-- Which owners `iterFdDir` gives to the entries of the table.
use infra_pulse.Base.{
  Bool, true, false, ◌||◌, Option, none, some, List, [], ◌∷◌, ◌++◌, ◌≡◌, ◌⊎◌, inl, inr, refl, sym,
  ap, subst, arith, map, Bool-cases, list_eq, nat_eq, ◌==◌, ==_iff, if◌then◌else◌, ok,
}
use infra_pulse.Base.Text.{Bytes, has_prefix}
use infra_pulse.Base.Int.{ℤ}
use infra_pulse.Netstat.{SockTabEntry, Process}
use infra_pulse.Netstat.Owner.{
  ProcDir, sock_prefix, link_name, owned_by, returned, read_process, mark_entries, iter_links,
  iter_fd_dir,
}

-- Whether one of the links leads to the socket.
abbrev pub linked : List (Option Bytes) → SockTabEntry → Bool
linked [] sk = false
linked (none ∷ links) sk = linked links sk
linked (some lname ∷ links) sk = link_name sk == lname || linked links sk

-- The entry with its owner, if it is a socket of the process.
abbrev pub assign : Process → List (Option Bytes) → SockTabEntry → SockTabEntry
assign q links sk = if linked links sk then owned_by q sk else sk

-- What one link does to an entry.
abbrev mark : Process → Bytes → SockTabEntry → SockTabEntry
mark q lname sk = if link_name sk == lname then owned_by q sk else sk

-- The process is not made yet, or it is `q`.
abbrev Knows : Process → Option Process → Type 0
Knows q p = (p ≡ none) ⊎ (p ≡ some q)

assign-nil : (q : Process) (tab : List SockTabEntry) → map (assign q []) tab ≡ tab
assign-nil q [] = refl
assign-nil q (sk ∷ rest) = rw (assign-nil q rest)

assign-mark :
    (q : Process) (lname : Bytes) (links : List (Option Bytes)) (tab : List SockTabEntry)
    → map (assign q links) (map (mark q lname) tab) ≡ map (assign q (some lname ∷ links)) tab
assign-mark q lname links [] = refl
assign-mark q lname links (sk ∷ rest) = elim (Bool-cases (link_name sk == lname)) [
  | inl hit ↦ ground (arith, assign-mark q lname links rest)
  | inr miss ↦ ground (arith, assign-mark q lname links rest)
]

has_prefix-append : (p s : Bytes) → has_prefix (p ++ s) p ≡ true
unfolding has_prefix
has_prefix-append [] s = has_prefix-nil s
  where
    has_prefix-nil : (s : Bytes) → has_prefix s [] ≡ true
    has_prefix-nil [] = refl
    has_prefix-nil (c ∷ cs) = refl
has_prefix-append (c ∷ cs) s = ground (arith, has_prefix-append cs s)

-- A link without the prefix leads to no socket.
mark_other :
    (q : Process) (lname : Bytes) (links : List (Option Bytes)) (tab : List SockTabEntry)
    → has_prefix lname sock_prefix ≡ false
    → map (assign q (some lname ∷ links)) tab ≡ map (assign q links) tab
mark_other q lname links [] h = refl
mark_other q lname links (sk ∷ rest) h = elim (Bool-cases (link_name sk == lname)) [
  | inl hit ↦
      let starts = has_prefix-append sock_prefix (sk.ino ++ b']' ∷ []) in
      let same : link_name sk ≡ lname = (==_iff (link_name sk) lname).0 hit in
      let starts' = subst (λ x. has_prefix x sock_prefix ≡ true) same starts in cc
  | inr miss ↦ ground (arith, mark_other q lname links rest h)
]

module _ (pid : ℤ) (stat : Option Bytes) (q : Process)
    (readable : read_process pid stat ≡ ok q) where
  mark_entries-map :
      (lname : Bytes) (p : Option Process) (tab : List SockTabEntry)
      → Knows q p
      → (p' : Option Process) × (mark_entries pid stat lname p tab
          ≡ ok (record { proc = p'; table = map (mark q lname) tab }))
        × Knows q p'
  unfolding mark_entries
  mark_entries-map lname p [] k = (p, refl, k)
  mark_entries-map lname p (sk ∷ rest) k = elim (Bool-cases (link_name sk == lname)) [
    | inl hit ↦
        let (p', e, k') = mark_entries-map lname (some q) rest (inr refl) in (p', ground arith, k')
    | inr miss ↦ let (p', e, k') = mark_entries-map lname p rest k in (p', ground arith, k')
  ]

  iter_links-map :
      (links : List (Option Bytes)) (p : Option Process) (tab : List SockTabEntry)
      → Knows q p
      → returned (iter_links pid stat links (record { proc = p; table = tab }))
        ≡ ok (map (assign q links) tab)
  unfolding iter_links
  iter_links-map [] p tab k = ap ok (sym (assign-nil q tab))
  iter_links-map (none ∷ links) p tab k = iter_links-map links p tab k
  iter_links-map (some lname ∷ links) p tab k = elim (Bool-cases (has_prefix lname sock_prefix)) [
    | inl starts ↦
        let (p', e, k') = mark_entries-map lname p tab k in
        let ih = iter_links-map links p' (map (mark q lname) tab) k' in
        ground (arith, assign-mark q lname links tab)
    | inr other ↦ ground (arith, mark_other q lname links tab other, iter_links-map links p tab k)
  ]

-- When the links of a process and its stat file can be read, `iterFdDir` gives it exactly those
-- sockets of the table to which one of its links leads; all other entries, and all other fields, stay.
pub iter_fd_dir-assign :
    (pid : ℤ) (dir : ProcDir) (q : Process) (links : List (Option Bytes)) (tab : List SockTabEntry)
    → dir.links ≡ some links
    → read_process pid dir.stat ≡ ok q
    → iter_fd_dir pid dir tab ≡ ok (map (assign q links) tab)
unfolding iter_fd_dir
iter_fd_dir-assign pid dir q links tab e r =
    rw e (iter_links-map pid dir.stat q r links none tab (inl refl))
