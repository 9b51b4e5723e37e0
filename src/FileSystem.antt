-- ===== src/FileSystem.antt =====
-- The files that the source sees, on Unix: what the operating system answers, and the path
-- functions of the standard library over it.
use Prim.Native.Nat.{bit_and}
use outboard.Prelude.{
  ℕ, Text, codes, Bool, true, false, not, ◌&&◌, ◌||◌, List, [], ◌∷◌, ◌++◌, Option, none, some, ◌==◌,
  nat_eq, list_eq, if◌then◌else◌, leb, ends_with,
}

-- std::io::ErrorKind, as far as the source tells kinds apart.
pub data ErrorKind : Type 0 where
  not_found permission_denied unexpected_eof : ErrorKind
  other : ℕ → ErrorKind

pub record Metadata : Type 0 where
  pub is_file : Bool
  pub mode : ℕ
  pub len : ℕ
  -- modified().ok(), then duration_since(UNIX_EPOCH).ok(), in nanoseconds
  pub modified : Option ℕ

-- fs::read_dir: the names of the entries, `none` for one that could not be read, or its error.
pub data ReadDir : Type 0 where
  entries : List (Option Text) → ReadDir
  failed : ErrorKind → ReadDir

pub record FileSystem : Type 0 where
  pub canonicalize : Text → Option Text
  pub metadata : Text → Option Metadata
  pub read_dir : Text → ReadDir

-- Path::join of a directory and a relative path.
unfoldable pub join : Text → Text → Text
join dir name = if dir == [] || ends_with b'/' dir then dir ++ name else dir ++ (codes "/" ++ name)

-- A component that is empty or `.` does not count.
abbrev pub component : Text → Option Text → Option Text
component part found = if part == [] || part == codes "." then found else some part

-- The last component of a path, in `found` the one before and in `cur` the one begun.
unfoldable pub last_component : Option Text → Text → Text → Option Text
last_component found cur [] = component cur found
last_component found cur (c ∷ s) =
    let closed = last_component (component cur found) [] s in
    let longer = last_component found (cur ++ c ∷ []) s in if c == b'/' then closed else longer

-- Path::file_name
unfoldable pub file_name : Text → Option Text
file_name path = elim (last_component none [] path) [
  | none ↦ none
  | some part ↦ if part == codes ".." then none else some part
]

-- The bytes that may follow the first byte of a UTF-8 character.
abbrev continuation : ℕ × ℕ
continuation = (0x80, 0xBF)

utf8_lead : ℕ → Option (List (ℕ × ℕ))
utf8_lead b =
    if leb b 0x7F
    then some []
    else if leb 0xC2 b && leb b 0xDF
    then some (continuation ∷ [])
    else if b == 0xE0
    then some ((0xA0, 0xBF) ∷ continuation ∷ [])
    else if b == 0xED
    then some ((0x80, 0x9F) ∷ continuation ∷ [])
    else if leb 0xE1 b && leb b 0xEF
    then some (continuation ∷ continuation ∷ [])
    else if b == 0xF0
    then some ((0x90, 0xBF) ∷ continuation ∷ continuation ∷ [])
    else if leb 0xF1 b && leb b 0xF3
    then some (continuation ∷ continuation ∷ continuation ∷ [])
    else if b == 0xF4
    then some ((0x80, 0x8F) ∷ continuation ∷ continuation ∷ [])
    else none

utf8_from : List (ℕ × ℕ) → Text → Bool
utf8_from [] [] = true
utf8_from (_ ∷ _) [] = false
utf8_from [] (b ∷ s) = elim (utf8_lead b) [ none ↦ false | some ranges ↦ utf8_from ranges s ]
utf8_from ((lo, hi) ∷ ranges) (b ∷ s) = leb lo b && leb b hi && utf8_from ranges s

-- OsStr::to_str succeeds: the bytes are UTF-8.
unfoldable pub is_utf8 : Text → Bool
unfolding utf8_lead utf8_from
is_utf8 s = utf8_from [] s

-- `is_executable` of discovery.rs on Unix
unfoldable pub is_executable : FileSystem → Text → Bool
is_executable fs path = elim (fs.metadata path) [
  | none ↦ false
  | some m ↦ m.is_file && not (bit_and m.mode 0o111 == 0)
]

-- What stands between the slashes of a path, with what is read of the first part.
abbrev parts_from : Text → Text → List Text
parts_from part [] = part ∷ []
parts_from part (c ∷ p) =
    let next = parts_from [] p in
    let longer = parts_from (part ++ c ∷ []) p in if c == 47 then part ∷ next else longer

-- Empty parts and single dots name nothing.
abbrev named_parts : List Text → List Text
named_parts [] = []
named_parts (part ∷ parts) =
    let rest = named_parts parts in if part == [] || part == codes "." then rest else part ∷ rest

-- A dot that begins a relative path is kept.
abbrev relative_parts : List Text → List Text
relative_parts [] = []
relative_parts (part ∷ parts) =
    if part == codes "." then part ∷ named_parts parts else named_parts (part ∷ parts)

-- Path::components on Unix, the root being a slash
unfoldable pub components : Text → List Text
components [] = []
components (c ∷ p) =
    if c == 47
    then (c ∷ []) ∷ named_parts (parts_from [] p)
    else relative_parts (parts_from [] (c ∷ p))

-- `==` of Path
abbrev pub path_eq : Text → Text → Bool
path_eq a b = components a == components b

-- The match of `same_file`: both paths resolve, or they are compared as they are.
abbrev same_path : Option Text → Option Text → Text → Text → Bool
same_path (some x) (some y) a b = path_eq x y
same_path _ _ a b = path_eq a b

-- `same_file` of discovery.rs
unfoldable pub same_file : FileSystem → Text → Text → Bool
same_file fs a b = same_path (fs.canonicalize a) (fs.canonicalize b) a b

-- `executable_file_name` of discovery.rs on Unix
unfoldable pub executable_file_name : Text → Option Text
executable_file_name path = elim (file_name path) [
  | none ↦ none
  | some name ↦ if is_utf8 name then some name else none
]
