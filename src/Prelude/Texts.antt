-- ===== src/Prelude/Texts.antt =====
-- What the source uses of Go's strings, unicode and path/filepath, on texts by their characters.
use Prim.Native.Nat.{ℕ}
use Prim.Native.Char.{code}
use Prim.Native.String.{String, [] as empty_text, ◌∷◌ as ◌∺◌}
use mathlib.Core.Bool.{Bool, true, false, ◌&&◌, ◌||◌}
use homebrew_tools.Prelude.Tests.{◌==◌, str_eq, if◌then◌else◌}

abbrev slash : ℕ
slash = 47

-- `strings.HasPrefix`
unfoldable pub has_prefix : String → String → Bool
has_prefix s empty_text = true
has_prefix empty_text (d ∺ p) = false
has_prefix (c ∺ s) (d ∺ p) = (code c == code d) && has_prefix s p

-- `strings.HasSuffix`
unfoldable pub has_suffix : String → String → Bool
has_suffix empty_text p = str_eq empty_text p
has_suffix (c ∺ s) p = str_eq (c ∺ s) p || has_suffix s p

-- `strings.TrimPrefix`
unfoldable pub trim_prefix : String → String → String
trim_prefix s empty_text = s
trim_prefix empty_text (d ∺ p) = empty_text
trim_prefix (c ∺ s) (d ∺ p) = if has_prefix (c ∺ s) (d ∺ p) then trim_prefix s p else c ∺ s

unfoldable pub has_char : ℕ → String → Bool
has_char n empty_text = false
has_char n (c ∺ s) = (code c == n) || has_char n s

unfoldable pub trim_slashes : String → String
trim_slashes empty_text = empty_text
trim_slashes (c ∺ s) =
    let rest = trim_slashes s in
    if (code c == slash) && str_eq rest empty_text then empty_text else c ∺ rest

unfoldable pub after_slash : String → String
after_slash empty_text = empty_text
after_slash (c ∺ s) = if has_char slash (c ∺ s) then after_slash s else c ∺ s

-- `filepath.Base`
unfoldable pub base : String → String
base s =
    let whole = trim_slashes s in
    if str_eq s empty_text then "." else if str_eq whole empty_text then "/" else after_slash whole
