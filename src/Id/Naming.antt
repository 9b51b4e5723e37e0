-- ===== src/Id/Naming.antt =====
-- The names that an identity gives: its executable and its selector.
use mathlib.Core.List.{append_assoc}
use outboard.Prelude.{Text, codes, ◌≡◌, ◌++◌, some, strip_prefix, strip_prefix-append}
use outboard.Id.{Namespace, PluginKind, PluginId, executable_name}

-- `{namespace}-{kind}-`, the prefix that discovery scans for.
unfoldable pub name_prefix : Namespace → PluginKind → Text
name_prefix namespace kind = namespace ++ (codes "-" ++ (kind ++ codes "-"))

executable_name-eq-prefix :
    (id : PluginId) → executable_name id ≡ name_prefix id.namespace id.kind ++ id.name
unfolding executable_name name_prefix
executable_name-eq-prefix id = simp append_assoc

-- The name of a plugin's executable without the prefix of its namespace and kind is its name.
pub strip_prefix-executable_name :
    (id : PluginId)
    → strip_prefix (name_prefix id.namespace id.kind) (executable_name id) ≡ some id.name
strip_prefix-executable_name id =
    rw executable_name-eq-prefix (strip_prefix-append (name_prefix id.namespace id.kind) id.name)

-- Two different identities can have one executable name: a dash in the kind and a dash in the name
-- read alike.
pub executable_name_ambiguous :
    (ns kind infix_part name : Text)
    → executable_name
        (record { namespace = ns; kind = kind ++ (codes "-" ++ infix_part); name = name })
      ≡ executable_name
          (record { namespace = ns; kind = kind; name = infix_part ++ (codes "-" ++ name) })
unfolding executable_name
executable_name_ambiguous ns kind infix_part name = simp append_assoc
