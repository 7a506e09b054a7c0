-- ===== src/Textfile/Errors.antt =====
-- The error flag of `Update`, and when `Update` returns at all.
use infra_pulse.Base.{
  Bool, true, false, ◌&&◌, ◌||◌, not, Option, List, [], ◌∷◌, ◌==◌, list_eq, nat_eq, inl, inr,
}
use infra_pulse.Base.Text.{Bytes, has_suffix}
use infra_pulse.Textfile.Gather.{TextFile, Listing, process_file, prom_suffix}

module _ {F : Type 0} where
  -- A `.prom` file that `processFile` refuses.
  abbrev pub is_broken : TextFile F → Bool
  is_broken f =
      has_suffix f.name prom_suffix && elim (process_file f).mtime [ inl e ↦ true | inr t ↦ false ]

  abbrev pub any_broken : List (TextFile F) → Bool
  any_broken [] = false
  any_broken (f ∷ files) = is_broken f || any_broken files

  -- A directory of the paths that cannot be read, or that holds a broken file.
  abbrev pub is_bad : (Bytes → Listing F) → Bytes → Bool
  is_bad read_dir dir = (read_dir dir).failed && not (dir == []) || any_broken (read_dir dir).files
