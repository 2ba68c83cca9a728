-- ===== src/Ext2/Names.antt =====
-- Assignment4/ext2_utils.c: names and paths, as lists of bytes. `strtok` with "/", `strncmp` and
-- `strlen` are the C library's.
use csc369_operating_systems.Base.{
  zero, ◌&&◌, suc, not, [], length, some, true, false, ◌==◌, none, ltb, Bool, ◌∷◌, Option,
  if◌then◌else◌, List, ℕ,
}
use csc369_operating_systems.Ext2.Image.{return, exit, Program}

abbrev pub Name : Type 0
Name = List ℕ

abbrev pub slash : ℕ
slash = 47

-- Whether the token of a byte goes on with the next one.
abbrev goes_on : List ℕ → Bool
goes_on [] = false
goes_on (c ∷ cs) = not (c == slash)

abbrev pub prepend : ℕ → List Name → List Name
prepend c [] = (c ∷ []) ∷ []
prepend c (t ∷ ts) = (c ∷ t) ∷ ts

-- What the calls of `strtok(path, "/")` return in turn, up to the null pointer.
abbrev pub tokens : List ℕ → List Name
tokens [] = []
tokens (c ∷ cs) =
    let rest = tokens cs in
    if c == slash then rest else if goes_on cs then prepend c rest else (c ∷ []) ∷ rest

abbrev pub is_nil {ℓ} : {A : Type ℓ} → List A → Bool
is_nil [] = true
is_nil (x ∷ xs) = false

abbrev pub first_token : List Name → Option Name
first_token [] = none
first_token (t ∷ ts) = some t

-- `strncmp(a, b, n) == 0`. A list ends at its null byte.
abbrev pub strncmp_equal : ℕ → List ℕ → List ℕ → Bool
strncmp_equal zero a b = true
strncmp_equal (suc n) [] [] = true
strncmp_equal (suc n) [] (y ∷ b) = false
strncmp_equal (suc n) (x ∷ a) [] = false
strncmp_equal (suc n) (x ∷ a) (y ∷ b) = (x == y) && strncmp_equal n a b

abbrev pub last_byte : List ℕ → Option ℕ
last_byte [] = none
last_byte (c ∷ []) = some c
last_byte (c ∷ b ∷ cs) = last_byte (b ∷ cs)

-- `path[strlen(path) - 1] == '/'`
abbrev pub ends_with_slash : List ℕ → Bool
ends_with_slash path = elim (last_byte path) [ none ↦ false | some c ↦ c == slash ]

-- `path[0] == '/'`
abbrev pub is_path_absolute : List ℕ → Bool
is_path_absolute [] = false
is_path_absolute (c ∷ cs) = c == slash

unfoldable pub get_name_len : Name → Program ℕ
get_name_len name = if ltb 255 (length name) then exit 1 else return (length name)

-- The loop of `get_file_name`, from the token `token` on.
unfoldable pub last_token : Option Name → List Name → Option Name
last_token token [] = token
last_token token (next_token ∷ rest) = last_token (some next_token) rest

unfoldable pub get_file_name : List ℕ → Option Name
unfolding last_token
get_file_name path = last_token none (tokens path)
