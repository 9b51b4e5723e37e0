-- ===== src/Discovery/Matching.antt =====
-- Which files discovery takes for plugins, and under which name.
use mathlib.Core.List.{append_assoc, append-nil}
use outboard.Prelude.{
  Text, codes, ◌≡◌, ◌≢◌, ◌↔◌, refl, ap, ◌∙◌, [], ◌∷◌, ◌++◌, Option, none, some, true, false, ◌==◌,
  ==_iff, nat_eq, list_eq, list_beq_iff, Bool-cases, Option-cases, inl, inr, arith, All,
  strip_prefix, strip_prefix-append, append_of_strip_prefix, ends_with, ends_with_lem, subst, ◌||◌,
}
use outboard.FileSystem.{
  FileSystem, is_executable, join, executable_file_name, file_name, last_component, component,
  is_utf8,
}
use outboard.Id.{Namespace, PluginKind, PluginName}
use outboard.Id.Valid.{IsIdentifier, new_id_iff, new_id-cases}
use outboard.Id.Naming.{name_prefix}
use outboard.Discovery.Scan.{plugin_name_at}

-- A name that a directory entry can have.
pub record IsEntryName (name : Text) : Type 0 where
  pub non_empty : name ≢ []
  pub not_dot : name ≢ codes "."
  pub not_dot_dot : name ≢ codes ".."
  pub no_slash : All (λ b. b ≢ b'/') name

last_component-slash :
    (found : Option Text) (cur dir name : Text)
    → (before : Option Text) × (last_component found cur (dir ++ (codes "/" ++ name))
        ≡ last_component before [] name)
unfolding last_component
last_component-slash found cur [] name = (component cur found, refl)
last_component-slash found cur (c ∷ dir) name = elim (Bool-cases (c == b'/')) [
  | inl slash ↦
      let (before, e) = last_component-slash (component cur found) [] dir name in
      (before, ground (arith, e))
  | inr other ↦
      let (before, e) = last_component-slash found (cur ++ c ∷ []) dir name in
      (before, ground (arith, e))
]

last_component-name :
    (found : Option Text) (cur name : Text)
    → All (λ b. b ≢ b'/') name
    → last_component found cur name ≡ component (cur ++ name) found
unfolding last_component
last_component-name found cur [] h = rw append-nil
last_component-name found cur (c ∷ name) h =
    ground
      (arith, last_component-name found (cur ++ c ∷ []) name h.1, append_assoc cur (c ∷ []) name)

component-name :
    (found : Option Text) (name : Text) → IsEntryName name → component name found ≡ some name
component-name found name h =
    ground (arith, h.non_empty, h.not_dot, list_beq_iff name [], list_beq_iff name (codes "."))

-- The file name of an entry's path is the entry's name.
pub file_name-join : (dir name : Text) → IsEntryName name → file_name (join dir name) ≡ some name
unfolding file_name join
file_name-join dir name h = elim (Bool-cases (dir == [] || ends_with b'/' dir)) [
  | inl bare ↦ elim (Bool-cases (dir == [])) [
    | inl empty ↦
        let e : dir ≡ [] = (==_iff dir []).0 empty in
        ground (
          arith,
          e,
          last_component-name none [] name h.no_slash,
          component-name none name h,
          h.not_dot_dot,
          list_beq_iff name (codes ".."),
        )
    | inr some_dir ↦
        let closed : ends_with b'/' dir ≡ true = ground arith in
        let (top, e) = ends_with_lem b'/' dir closed in
        let (before, last) = last_component-slash none [] top name in
        let whole : dir ++ name ≡ top ++ (codes "/" ++ name) =
          ap (λ d. d ++ name) e ∙ append_assoc top _ name in
        ground (
          arith,
          bare,
          whole,
          last,
          last_component-name before [] name h.no_slash,
          component-name before name h,
          h.not_dot_dot,
          list_beq_iff name (codes ".."),
        )
  ]
  | inr slash ↦
      let (before, e) = last_component-slash none [] dir name in
      ground (
        arith,
        e,
        slash,
        last_component-name before [] name h.no_slash,
        component-name before name h,
        h.not_dot_dot,
        list_beq_iff name (codes ".."),
      )
]

module _ (fs : FileSystem) (namespace : Namespace) (kind : PluginKind) where
  -- An executable file whose name is the prefix of the namespace and kind, then the plugin's name.
  pub record IsPluginFile (file : Text) (name : PluginName) : Type 0 where
    pub executable : is_executable fs file ≡ true
    pub named : file_name file ≡ some (name_prefix namespace kind ++ name)
    pub utf8 : is_utf8 (name_prefix namespace kind ++ name) ≡ true
    pub identifier : IsIdentifier false name

  stem_of :
      (file stem : Text)
      → (executable_file_name file ≡ some stem)
        ↔ ((file_name file ≡ some stem) × (is_utf8 stem ≡ true))
  unfolding executable_file_name
  stem_of file stem = (λ h. ground arith, λ h. ground arith)

  plugin_name_at_sound :
      (file : Text) (name : PluginName)
      → plugin_name_at fs namespace kind file ≡ some name
      → IsPluginFile file name
  unfolding plugin_name_at
  plugin_name_at_sound file name h = elim (Option-cases (executable_file_name file)) [
    | inl nothing ↦ ground arith
    | inr (stem, there) ↦ elim (Option-cases (strip_prefix (name_prefix namespace kind) stem)) [
      | inl nothing ↦ ground arith
      | inr (rest, stripped) ↦ elim (new_id-cases "plugin name" false rest) [
        | inr (e, bad) ↦ ground arith
        | inl good ↦
            let same : rest ≡ name = ground arith in
            let whole : stem ≡ name_prefix namespace kind ++ name =
              append_of_strip_prefix (name_prefix namespace kind) stem (stripped ∙ ap some same) in
            let parts = (stem_of file stem).0 there in
            record {
              executable = ground arith;
              named = parts.0 ∙ ap some whole;
              utf8 = rw whole at parts.1;
              identifier =
                  subst (IsIdentifier false) same ((new_id_iff "plugin name" false rest).0 good);
            }
      ]
    ]
  ]

  -- Discovery takes a file for a plugin under a name exactly when it is executable, its file name
  -- is `{namespace}-{kind}-{name}` in UTF-8, and the name is a valid identifier.
  pub plugin_name_at_iff :
      (file : Text) (name : PluginName)
      → (plugin_name_at fs namespace kind file ≡ some name) ↔ IsPluginFile file name
  unfolding plugin_name_at
  plugin_name_at_iff file name = (
    plugin_name_at_sound file name,
    λ h.
        let stem = (stem_of file (name_prefix namespace kind ++ name)).1 (h.named, h.utf8) in
        ground (
          arith,
          stem,
          h.executable,
          strip_prefix-append (name_prefix namespace kind) name,
          (new_id_iff "plugin name" false name).1 h.identifier,
        ),
  )
