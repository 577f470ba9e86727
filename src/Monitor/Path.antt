-- ===== src/Monitor/Path.antt =====
-- Paths of executables: `prepend`, `prepend_name` and `hb_get_exe_path` of
-- Source/hyper_box/monitor.c. The buffer is filled from its end, so its state is the bytes between
-- the pointer and the end and the number of bytes left before the pointer. A name is its bytes,
-- of which none is 0.
pub mod Laws
use alcatraz.Prelude.{
  ℕ, suc, ◌+◌, ◌-◌, zero, ◌++◌, List, [], ◌∷◌, Option, none, some, length, ltb, ◌==◌, if◌then◌else◌,
  Bool, true, false, ◌&&◌,
}

pub record Buffer : Type 0 where
  pub bytes : List ℕ
  pub left : ℕ

-- `none` is -ENAMETOOLONG, and then nothing is written.
unfoldable pub prepend : Buffer → List ℕ → Option Buffer
prepend b str =
    if ltb b.left (length str)
    then none
    else some (record { bytes = str ++ b.bytes; left = b.left - length str })

unfoldable pub prepend_name : Buffer → List ℕ → Option Buffer
prepend_name b name =
    if ltb b.left (length name + 1)
    then none
    else some (record { bytes = b'/' ∷ (name ++ b.bytes); left = b.left - (length name + 1) })

-- The loop up to the root, over the bytes from `retval` on; a name that finds no room ends it.
unfoldable pub prepend_names : List (List ℕ) → List ℕ → Buffer → List ℕ
prepend_names [] retval b = retval
prepend_names (name ∷ names) retval b = elim (prepend_name b name) [
  | none ↦ retval
  | some b' ↦ prepend_names names b'.bytes b'
]

-- The buffer after `prepend(&end, &len, "\0", 1)`, whose result the code does not look at.
abbrev pub ended : ℕ → Buffer
ended size = elim (prepend (record { bytes = []; left = size }) (0 ∷ [])) [
  | none ↦ record { bytes = []; left = size }
  | some b ↦ b
]

-- The bytes from the returned pointer to the end of the buffer.
unfoldable pub get_exe_path : List (List ℕ) → ℕ → List ℕ
unfolding prepend
get_exe_path names size = let b = ended size in prepend_names names (b'/' ∷ b.bytes) b

-- The text at a pointer ends before the first 0.
unfoldable pub c_string : List ℕ → List ℕ
c_string [] = []
c_string (c ∷ cs) = if c == 0 then [] else c ∷ c_string cs

-- `strcmp(a, b) == 0` and `strncmp(a, b, n) == 0`.
unfoldable pub str_eq : List ℕ → List ℕ → Bool
str_eq [] [] = true
str_eq [] (y ∷ ys) = false
str_eq (x ∷ xs) [] = false
str_eq (x ∷ xs) (y ∷ ys) = x == y && str_eq xs ys

unfoldable pub strn_eq : ℕ → List ℕ → List ℕ → Bool
strn_eq zero xs ys = true
strn_eq (suc n) [] [] = true
strn_eq (suc n) [] (y ∷ ys) = false
strn_eq (suc n) (x ∷ xs) [] = false
strn_eq (suc n) (x ∷ xs) (y ∷ ys) = x == y && strn_eq n xs ys
