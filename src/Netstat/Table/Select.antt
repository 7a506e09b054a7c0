-- ===== src/Netstat/Table/Select.antt =====
-- `parseSocktab` against its description: parse every line, then keep what is accepted.
use infra_pulse.Base.{
  Bool, List, [], ◌∷◌, ◌++◌, ◌≡◌, ◌≢◌, refl, sym, ap, ◌∙◌, arith, drop, select, get_or,
  append_assoc, append-nil, if◌then◌else◌, Outcome, ok, err, panic, ◌>>=◌,
}
use infra_pulse.Base.Text.{Bytes, fields}
use infra_pulse.Netstat.{SockTabEntry, Error}
use infra_pulse.Netstat.Address.Bounds.{parse_addr-IsIpAddress, parsed-ne-panic}
use infra_pulse.Netstat.Table.{
  Scanned, cut_comment, read_fields, parse_line, parse_rows, parse_socktab, at_end,
}

-- The entries of all lines, or what the first bad line gives.
abbrev pub parse_all : List Bytes → Outcome Error (List SockTabEntry)
parse_all [] = ok []
parse_all (line ∷ lines) = do e ← parse_line line; es ← parse_all lines; ok (e ∷ es)

module _ (accept : SockTabEntry → Bool) where
  keep_one : SockTabEntry → List SockTabEntry → List SockTabEntry
  keep_one e tab = if accept e then tab ++ e ∷ [] else tab

  keep_one-select :
      (e : SockTabEntry) (tab : List SockTabEntry) (o : Outcome Error (List SockTabEntry))
      → (o >>= λ es. ok (keep_one e tab ++ select accept es))
        ≡ ((o >>= λ es. ok (e ∷ es)) >>= λ es. ok (tab ++ select accept es))
  unfolding keep_one
  keep_one-select e tab (ok es) = ground (arith, append_assoc tab (e ∷ []) (select accept es))
  keep_one-select e tab (err x) = refl
  keep_one-select e tab panic = refl

  parse_rows-select :
      (lines : List Bytes) (tab : List SockTabEntry)
      → parse_rows accept lines tab ≡ (parse_all lines >>= λ es. ok (tab ++ select accept es))
  unfolding parse_rows keep_one
  parse_rows-select [] tab = ap ok (sym (append-nil tab))
  parse_rows-select (line ∷ lines) tab =
      go (parse_line line) (λ e. parse_rows-select lines (keep_one e tab))
    where
      go :
          (o : Outcome Error SockTabEntry)
          → ((e : SockTabEntry)
              → parse_rows accept lines (keep_one e tab)
                ≡ (parse_all lines >>= λ es. ok (keep_one e tab ++ select accept es)))
          → elim o [
            | ok e ↦ parse_rows accept lines (keep_one e tab)
            | err e ↦ err e
            | panic ↦ panic
          ]
            ≡ ((o >>= λ e. parse_all lines >>= λ es. ok (e ∷ es)) >>= λ es.
                ok (tab ++ select accept es))
      go (ok e) ih = ih e ∙ keep_one-select e tab (parse_all lines)
      go (err e) ih = refl
      go panic ih = refl

  -- The lines behind the title, parsed one by one and then filtered by `accept`, are the table; the
  -- first line that does not parse decides the error, and an error of the scanner comes last.
  pub parse_socktab-select :
      (r : Scanned)
      → parse_socktab r accept
        ≡ (parse_all (drop 1 r.lines) >>= λ es. at_end r.error (select accept es))
  unfolding parse_socktab
  parse_socktab-select r =
      rw (parse_rows-select (drop 1 r.lines) []) (regroup (parse_all (drop 1 r.lines)))
    where
      regroup :
          (o : Outcome Error (List SockTabEntry))
          → ((o >>= λ es. ok (select accept es)) >>= λ tab. at_end r.error tab)
            ≡ (o >>= λ es. at_end r.error (select accept es))
      regroup (ok es) = refl
      regroup (err e) = refl
      regroup panic = refl

read_fields-ne-panic : (fs : List Bytes) → read_fields fs ≢ panic
unfolding read_fields
read_fields-ne-panic fs h = ground (
  arith,
  (parse_addr-IsIpAddress (get_or fs 1 [])).0,
  (parse_addr-IsIpAddress (get_or fs 2 [])).0,
  parsed-ne-panic 16 8 (get_or fs 3 []),
  parsed-ne-panic 10 32 (get_or fs 7 []),
)

parse_line-ne-panic : (line : Bytes) → parse_line line ≢ panic
unfolding parse_line
parse_line-ne-panic line h = ground (arith, read_fields-ne-panic (fields (cut_comment line)))

parse_all-ne-panic : (lines : List Bytes) → parse_all lines ≢ panic
parse_all-ne-panic [] h = cc
parse_all-ne-panic (line ∷ lines) h =
    ground (arith, parse_line-ne-panic line, parse_all-ne-panic lines)

-- No file makes `parseSocktab` panic.
pub parse_socktab-ne-panic :
    (r : Scanned) (accept : SockTabEntry → Bool) → parse_socktab r accept ≢ panic
parse_socktab-ne-panic r accept h =
    ground (arith, parse_socktab-select accept r, parse_all-ne-panic (drop 1 r.lines))
