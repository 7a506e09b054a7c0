-- ===== src/Netstat/Filled.antt =====
-- What holds of every entry that `doNetstat` returns.
use infra_pulse.Base.{
  Bool, true, false, ◌&&◌, Option, none, some, List, [], ◌∷◌, ◌≡◌, refl, sym, ◌∙◌, ap, subst, arith,
  drop, get_or, select, Outcome, ok, err, panic, ◌>>=◌, >>=-eq-ok, ok-injective, nat_eq, ℕ,
}
use infra_pulse.Base.Text.{Bytes, fields, parse_uint}
use infra_pulse.Netstat.{SockAddr, SockTabEntry, Error}
use infra_pulse.Netstat.Address.{parse_addr, parsed}
use infra_pulse.Netstat.Table.{Scanned, cut_comment, read_fields, parse_line, parse_socktab, at_end}
use infra_pulse.Netstat.Table.Select.{parse_all, parse_socktab-select}
use infra_pulse.Netstat.Owner.{ProcDir, extract_proc_info, do_netstat}
use infra_pulse.Netstat.Owner.Keeps.{unowned, KeepsTable, extract_proc_info-KeepsTable}

-- Both addresses are there.
abbrev pub has_addrs : SockTabEntry → Bool
has_addrs e =
    elim e.local_addr [ none ↦ false | some a ↦ true ]
    && elim e.remote_addr [ none ↦ false | some a ↦ true ]

-- Every entry passes a test that does not look at the owner.
abbrev pub all_pass : (SockTabEntry → Bool) → List SockTabEntry → Bool
all_pass test [] = true
all_pass test (e ∷ tab) = test e && all_pass test tab

all_pass-select :
    (test accept : SockTabEntry → Bool) (tab : List SockTabEntry)
    → all_pass test tab ≡ true
    → all_pass test (select accept tab) ≡ true
all_pass-select test accept [] h = refl
all_pass-select test accept (e ∷ tab) h = ground (arith, all_pass-select test accept tab)

all_pass-accept :
    (accept : SockTabEntry → Bool) (tab : List SockTabEntry)
    → all_pass accept (select accept tab) ≡ true
all_pass-accept accept [] = refl
all_pass-accept accept (e ∷ tab) = ground (arith, all_pass-accept accept tab)

all_pass-unowned :
    (test : SockTabEntry → Bool) (tab : List SockTabEntry)
    → ((e : SockTabEntry) → test (record e { process = none }) ≡ test e)
    → all_pass test (unowned tab) ≡ all_pass test tab
all_pass-unowned test [] h = refl
all_pass-unowned test (e ∷ tab) h = ground (arith, h e, all_pass-unowned test tab h)

read_fields-has_addrs :
    (fs : List Bytes) {e : SockTabEntry} → read_fields fs ≡ ok e → has_addrs e ≡ true
unfolding read_fields
read_fields-has_addrs fs {e} h =
    go (parse_addr (get_or fs 1 [])) (parse_addr (get_or fs 2 []))
      (parsed (parse_uint 16 8 (get_or fs 3 []))) (parsed (parse_uint 10 32 (get_or fs 7 []))) h
  where
    go :
        (l r : Outcome Error SockAddr) (s u : Outcome Error ℕ)
        → (l >>= λ local. r >>= λ remote. s >>= λ state. u >>= λ uid. ok (record {
          ino = get_or fs 9 [];
          local_addr = some local;
          remote_addr = some remote;
          state = state;
          uid = uid;
          process = none;
        }))
          ≡ ok e
        → has_addrs e ≡ true
    go (ok l) (ok r) (ok s) (ok u) q = ap has_addrs (sym (ok-injective q))
    go (ok l) (ok r) (ok s) (err x) q = cc
    go (ok l) (ok r) (ok s) panic q = cc
    go (ok l) (ok r) (err x) u q = cc
    go (ok l) (ok r) panic u q = cc
    go (ok l) (err x) s u q = cc
    go (ok l) panic s u q = cc
    go (err x) r s u q = cc
    go panic r s u q = cc

parse_line-has_addrs :
    (line : Bytes) {e : SockTabEntry} → parse_line line ≡ ok e → has_addrs e ≡ true
unfolding parse_line
parse_line-has_addrs line {e} h =
    ground (arith, read_fields-has_addrs (fields (cut_comment line)) {e = e})

parse_all-has_addrs :
    (lines : List Bytes) {es : List SockTabEntry}
    → parse_all lines ≡ ok es
    → all_pass has_addrs es ≡ true
parse_all-has_addrs [] h = ap (all_pass has_addrs) (sym (ok-injective h))
parse_all-has_addrs (line ∷ lines) h =
    let (e, he, h') = >>=-eq-ok (parse_line line) _ h in
    let (es, hes, q) = >>=-eq-ok (parse_all lines) _ h' in
    ap (all_pass has_addrs) (sym (ok-injective q))
    ∙ ground (arith, parse_line-has_addrs line he, parse_all-has_addrs lines hes)

-- The entries of the table have both addresses, and `accept` holds of them.
abbrev pub Filled : (SockTabEntry → Bool) → List SockTabEntry → Type 0
Filled accept tab = (all_pass has_addrs tab ≡ true) × (all_pass accept tab ≡ true)

parse_socktab-Filled :
    (r : Scanned) (accept : SockTabEntry → Bool) {tab : List SockTabEntry}
    → parse_socktab r accept ≡ ok tab
    → Filled accept tab
parse_socktab-Filled r accept {tab} h =
    let (es, hes, q) =
      >>=-eq-ok (parse_all (drop 1 r.lines)) _ (sym (parse_socktab-select accept r) ∙ h) in
    ended r.error es q (parse_all-has_addrs (drop 1 r.lines) hes)
  where
    ended :
        (o : Option Bytes) (es : List SockTabEntry)
        → at_end o (select accept es) ≡ ok tab
        → all_pass has_addrs es ≡ true
        → Filled accept tab
    ended none es q p =
        let t = ok-injective q in
        rw (sym t) (all_pass-select has_addrs accept es p, all_pass-accept accept es)
    ended (some x) es q p = cc

unowned-Filled :
    (accept : SockTabEntry → Bool) (tab tab' : List SockTabEntry)
    → ((e : SockTabEntry) → accept (record e { process = none }) ≡ accept e)
    → unowned tab' ≡ unowned tab
    → Filled accept tab
    → Filled accept tab'
unowned-Filled accept tab tab' h u f = (
  sym (all_pass-unowned has_addrs tab' (λ e. refl))
      ∙ ap (all_pass has_addrs) u
      ∙ all_pass-unowned has_addrs tab (λ e. refl)
      ∙ f.0,
  sym (all_pass-unowned accept tab' h)
      ∙ ap (all_pass accept) u
      ∙ all_pass-unowned accept tab h
      ∙ f.1,
)

extract-unowned :
    (procs : Option (List ProcDir)) (tab : List SockTabEntry) {tab' : List SockTabEntry}
    → extract_proc_info procs tab ≡ ok tab'
    → unowned tab' ≡ unowned tab
extract-unowned procs tab h = subst (KeepsTable tab) h (extract_proc_info-KeepsTable procs tab)

-- If the filter does not look at the owner, every entry that `doNetstat` returns has a local and a
-- remote address, and the filter holds of it, also after the owners are filled in.
pub do_netstat-Filled :
    (file : Outcome Bytes Scanned) (procs : Option (List ProcDir)) (accept : SockTabEntry → Bool)
    {tab : List SockTabEntry}
    → ((e : SockTabEntry) → accept (record e { process = none }) ≡ accept e)
    → do_netstat file procs accept ≡ ok tab
    → Filled accept tab
unfolding do_netstat
do_netstat-Filled (err e) procs accept h q = cc
do_netstat-Filled panic procs accept h q = cc
do_netstat-Filled (ok file) procs accept {tab} h q =
    go (parse_socktab file accept) (λ t e. parse_socktab-Filled file accept {tab = t} e) q
  where
    go :
        (o : Outcome Error (List SockTabEntry))
        → ((t : List SockTabEntry) → o ≡ ok t → Filled accept t)
        → elim o [ ok tabs ↦ extract_proc_info procs tabs | err e ↦ err e | panic ↦ panic ] ≡ ok tab
        → Filled accept tab
    go (ok t) f e = unowned-Filled accept t tab h (extract-unowned procs t e) (f t refl)
    go (err x) f e = cc
    go panic f e = cc
