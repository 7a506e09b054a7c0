-- ===== src/Diskstats/Udev.antt =====
-- `getUdevDeviceProperties`: the properties of a device in the database of udev.
use infra_pulse.Base.{
  Bool, true, false, Option, none, some, List, [], ◌∷◌, ◌++◌, ◌≡◌, refl, sym, ap, ◌∙◌, arith,
  append_assoc, append-nil, nat_eq, list_eq, ◌==◌, if◌then◌else◌, not, ◌&&◌, All,
}
use infra_pulse.Base.Text.{Bytes, codes, has_prefix, trim_prefix, split_n}
use infra_pulse.Base.Map.{Map, insert, IsMap}
use infra_pulse.Base.Fresh.{AreFresh, AreFresh-nil, insert_absent, fresh_after}

-- `udevInfo`
abbrev pub UdevInfo : Type 0
UdevInfo = Map Bytes Bytes

-- `udevDevicePropertyPrefix`
abbrev pub udev_device_property_prefix : Bytes
udev_device_property_prefix = codes "E:"

-- Two pieces are a name and a value.
abbrev pub add_property : List Bytes → UdevInfo → UdevInfo
add_property (name ∷ value ∷ []) info = insert name value info
add_property pieces info = info

-- A round of the loop over the lines.
unfoldable pub add_udev_line : Bytes → UdevInfo → UdevInfo
add_udev_line line info =
    if has_prefix line udev_device_property_prefix
    then add_property (split_n b'=' 2 (trim_prefix line udev_device_property_prefix)) info
    else info

unfoldable pub add_udev_lines : List Bytes → UdevInfo → UdevInfo
add_udev_lines [] info = info
add_udev_lines (line ∷ lines) info = add_udev_lines lines (add_udev_line line info)

-- `getUdevDeviceProperties`, by the lines of the file, `none` if it cannot be opened; the error of the
-- scanner is not looked at.
unfoldable pub get_udev_device_properties : Option (List Bytes) → Option UdevInfo
get_udev_device_properties none = none
get_udev_device_properties (some lines) = some (add_udev_lines lines [])

-- A name, as udev writes it.
abbrev pub lacks_equals : Bytes → Bool
lacks_equals [] = true
lacks_equals (c ∷ cs) = not (c == b'=') && lacks_equals cs

split_n-property :
    (name value : Bytes)
    → lacks_equals name ≡ true
    → split_n b'=' 2 (name ++ b'=' ∷ value) ≡ name ∷ value ∷ []
unfolding split_n
split_n-property [] value h = refl
split_n-property (c ∷ cs) value h =
    let ih = split_n-property cs value (ground arith) in
    let no : (c == b'=') ≡ false = ground arith in rw (no, ih) refl

-- The lines of the database: properties, and others such as links and tags.
pub data UdevLine : Type 0 where
  of_property : Bytes → Bytes → UdevLine
  of_other : Bytes → UdevLine

abbrev pub print_line : UdevLine → Bytes
print_line (of_property name value) = codes "E:" ++ (name ++ b'=' ∷ value)
print_line (of_other text) = text

abbrev pub properties_of : List UdevLine → UdevInfo
properties_of [] = []
properties_of (of_property name value ∷ lines) = (name, value) ∷ properties_of lines
properties_of (of_other text ∷ lines) = properties_of lines

abbrev pub IsUdevLine : UdevLine → Type 0
IsUdevLine (of_property name value) = lacks_equals name ≡ true
IsUdevLine (of_other text) = has_prefix text (codes "E:") ≡ false

abbrev pub print_lines : List UdevLine → List Bytes
print_lines [] = []
print_lines (line ∷ lines) = print_line line ∷ print_lines lines

add_udev_line-property :
    (name value : Bytes) (info : UdevInfo)
    → lacks_equals name ≡ true
    → add_udev_line (print_line (of_property name value)) info ≡ insert name value info
unfolding add_udev_line has_prefix
add_udev_line-property name value info h = rw (split_n-property name value h) refl

add_udev_line-other :
    (text : Bytes) (info : UdevInfo)
    → has_prefix text (codes "E:") ≡ false
    → add_udev_line (print_line (of_other text)) info ≡ info
unfolding add_udev_line
add_udev_line-other text info h = rw h refl

add_udev_lines-print :
    (lines : List UdevLine) (info : UdevInfo)
    → All IsUdevLine lines
    → IsMap (properties_of lines)
    → AreFresh info (properties_of lines)
    → add_udev_lines (print_lines lines) info ≡ info ++ properties_of lines
unfolding add_udev_lines
add_udev_lines-print [] info h d f = sym (append-nil info)
add_udev_lines-print (of_property name value ∷ lines) info h d f =
    ap (λ i. add_udev_lines (print_lines lines) i)
      (add_udev_line-property name value info h.0 ∙ insert_absent name value info f.0)
    ∙ add_udev_lines-print lines (info ++ (name, value) ∷ []) h.1 d.1
        (fresh_after name value info (properties_of lines) d.0 f.1)
    ∙ append_assoc info ((name, value) ∷ []) (properties_of lines)
add_udev_lines-print (of_other text ∷ lines) info h d f =
    ap (λ i. add_udev_lines (print_lines lines) i) (add_udev_line-other text info h.0)
    ∙ add_udev_lines-print lines info h.1 d f

-- `getUdevDeviceProperties` reads exactly the properties of a file whose property names differ and have
-- no `=`, whatever stands in their values and in the other lines.
pub get_udev_device_properties-print :
    (lines : List UdevLine)
    → All IsUdevLine lines
    → IsMap (properties_of lines)
    → get_udev_device_properties (some (print_lines lines)) ≡ some (properties_of lines)
unfolding get_udev_device_properties
get_udev_device_properties-print lines h d =
    ap some (add_udev_lines-print lines [] h d (AreFresh-nil (properties_of lines)))
