-- ===== src/Monitor/Path/Laws.antt =====
-- The path that is built is the file's full path where it fits the buffer.
use alcatraz.Prelude.{ℕ, ◌+◌, ◌-◌, ◌≤◌, ◌<◌, ◌≡◌, ◌++◌, List, [], ◌∷◌, length, length-append, arith}
use mathlib.Core.List.{append_assoc}
use alcatraz.Monitor.Path.{Buffer, prepend_name, prepend_names, get_exe_path}

-- The full path of a file, from the names of its dentries up to the root.
abbrev pub full_path : List (List ℕ) → List ℕ
full_path [] = []
full_path (name ∷ names) = full_path names ++ b'/' ∷ name

prepend_names_fit :
    (name : List ℕ) (names : List (List ℕ)) (retval : List ℕ) (b : Buffer)
    → length (full_path (name ∷ names)) ≤ b.left
    → prepend_names (name ∷ names) retval b ≡ full_path (name ∷ names) ++ b.bytes
unfolding prepend_names prepend_name
prepend_names_fit name [] retval b h = ground arith
prepend_names_fit name (parent ∷ names) retval b h = ground (
  arith,
  length-append (full_path (parent ∷ names)) (b'/' ∷ name),
  append_assoc (full_path (parent ∷ names)) (b'/' ∷ name) b.bytes,
  prepend_names_fit parent names (b'/' ∷ (name ++ b.bytes))
      (record { bytes = b'/' ∷ (name ++ b.bytes); left = b.left - (length name + 1) }),
)

-- A path that fits the buffer together with its final 0 comes out whole.
pub get_exe_path-full_path :
    (name : List ℕ) (names : List (List ℕ)) (size : ℕ)
    → length (full_path (name ∷ names)) < size
    → get_exe_path (name ∷ names) size ≡ full_path (name ∷ names) ++ 0 ∷ []
unfolding get_exe_path
get_exe_path-full_path name names size h = ground (
  arith,
  prepend_names_fit name names (b'/' ∷ 0 ∷ []) (record { bytes = 0 ∷ []; left = size - 1 }),
)
