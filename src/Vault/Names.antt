-- ===== src/Vault/Names.antt =====
-- internal/authfile/authfile.go: the names of profiles, IsSystemProfile and validateVaultSegment.
use Prim.Native.Char.{code}
use caam_account_switching.Prelude.{
  ℕ, String, Bool, true, false, ◌&&◌, ◌||◌, Option, none, some, leb, ◌==◌, str_eq, if◌then◌else◌,
}

-- `unicode.IsSpace`
unfoldable pub is_space : ℕ → Bool
is_space c =
    (leb 9 c && leb c 13)
    || (c == 32)
    || (c == 133)
    || (c == 160)
    || (c == 5760)
    || (leb 8192 c && leb c 8202)
    || (c == 8232)
    || (c == 8233)
    || (c == 8239)
    || (c == 8287)
    || (c == 12288)

unfoldable pub trim_left : String → String
unfolding is_space
trim_left String.[] = ""
trim_left (String.◌∷◌ c rest) =
    let shorter = trim_left rest in if is_space (code c) then shorter else String.◌∷◌ c rest

unfoldable pub trim_right : String → String
unfolding is_space
trim_right String.[] = ""
trim_right (String.◌∷◌ c rest) =
    let kept = trim_right rest in
    if str_eq kept "" && is_space (code c) then "" else String.◌∷◌ c kept

-- `strings.TrimSpace`
unfoldable pub trim_space : String → String
unfolding trim_left trim_right
trim_space s = trim_right (trim_left s)

-- `strings.HasPrefix(s, "_")`
unfoldable pub has_underscore : String → Bool
has_underscore String.[] = false
has_underscore (String.◌∷◌ c rest) = code c == 95

unfoldable pub is_system_profile : String → Bool
unfolding trim_space has_underscore
is_system_profile name = has_underscore (trim_space name)

unfoldable pub is_safe : ℕ → Bool
is_safe r =
    (leb 97 r && leb r 122)
    || (leb 65 r && leb r 90)
    || (leb 48 r && leb r 57)
    || (r == 95)
    || (r == 45)
    || (r == 46)
    || (r == 64)
    || (r == 43)

unfoldable pub all_safe : String → Bool
unfolding is_safe
all_safe String.[] = true
all_safe (String.◌∷◌ c rest) = is_safe (code c) && all_safe rest

-- A name of safe characters is no absolute path and has no volume, so the last test of the source
-- always passes.
unfoldable pub validate_vault_segment : String → Option String
unfolding trim_space all_safe
validate_vault_segment name =
    let val = trim_space name in
    if str_eq val ""
    then none
    else if str_eq val "." || str_eq val ".."
    then none
    else if all_safe val
    then some val
    else none

-- `strings.HasPrefix(s, prefix)`
unfoldable pub has_prefix : String → String → Bool
has_prefix String.[] s = true
has_prefix (String.◌∷◌ c prefix) String.[] = false
has_prefix (String.◌∷◌ c prefix) (String.◌∷◌ d s) = (code c == code d) && has_prefix prefix s
