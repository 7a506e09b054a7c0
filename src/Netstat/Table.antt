-- ===== src/Netstat/Table.antt =====
-- `parseSocktab` and `doNetstat`. What `bufio.Scanner` delivers of a file is an argument: its lines,
-- and the error that it reports behind them.
pub mod Select
use infra_pulse.Base.{
  ℕ, Bool, true, false, Option, none, some, List, [], ◌∷◌, ◌++◌, ltb, length, get_or, take, drop,
  nat_eq, if◌then◌else◌, Outcome, ok, err, panic, ◌>>=◌,
}
use infra_pulse.Base.Text.{Bytes, index, fields, parse_uint}
use infra_pulse.Netstat.{SockTabEntry, Error, line_fields, scanner}
use infra_pulse.Netstat.Address.{parse_addr, parsed}

-- The constants of `SkState`.
abbrev pub listen : ℕ
listen = 0x0a

-- `line[:i]` at the first `#`
abbrev pub cut_comment : Bytes → Bytes
cut_comment line = elim (index b'#' line) [ none ↦ line | some i ↦ take i line ]

-- The fields of a line, of which there are at least 12.
unfoldable pub read_fields : List Bytes → Outcome Error SockTabEntry
read_fields fs = do
  local ← parse_addr (get_or fs 1 [])
  remote ← parse_addr (get_or fs 2 [])
  state ← parsed (parse_uint 16 8 (get_or fs 3 []))
  uid ← parsed (parse_uint 10 32 (get_or fs 7 []))
  ok (record {
    ino = get_or fs 9 [];
    local_addr = some local;
    remote_addr = some remote;
    state = state;
    uid = uid;
    process = none;
  })

-- One round of the loop, up to the call of `accept`.
unfoldable pub parse_line : Bytes → Outcome Error SockTabEntry
parse_line line =
    let fs = fields (cut_comment line) in
    if ltb (length fs) 12 then err (line_fields fs) else read_fields fs

unfoldable pub parse_rows :
    (SockTabEntry → Bool) → List Bytes → List SockTabEntry → Outcome Error (List SockTabEntry)
parse_rows accept [] tab = ok tab
parse_rows accept (line ∷ lines) tab = elim (parse_line line) [
  | ok e ↦ parse_rows accept lines (if accept e then tab ++ e ∷ [] else tab)
  | err e ↦ err e
  | panic ↦ panic
]

pub record Scanned : Type 0 where
  pub lines : List Bytes
  pub error : Option Bytes

-- `return tab, br.Err()`: the caller drops the table if there is an error.
abbrev pub at_end : Option Bytes → List SockTabEntry → Outcome Error (List SockTabEntry)
at_end none tab = ok tab
at_end (some e) tab = err (scanner e)

unfoldable pub parse_socktab : Scanned → (SockTabEntry → Bool) → Outcome Error (List SockTabEntry)
parse_socktab r accept = do tab ← parse_rows accept (drop 1 r.lines) []; at_end r.error tab
