-- ===== src/Migration/Walk.antt =====
-- listLocalKeys of src/cli/migrate-local-storage.ts. A file is listed with its bytes.
use fetchit_be.Base.{
  ℕ, Bool, true, false, Option, none, some, List, [], ◌∷◌, ◌++◌, ltb, ◌==◌, if◌then◌else◌,
}
use fetchit_be.Texts.{Text, codes, is_empty}
use fetchit_be.Storage.Keys.{slash}

-- What `readdir` finds: files, directories, directories that cannot be read, and other entries, such
-- as links.
mutual
  pub data Node : Type 0 where
    file : List ℕ → Node
    directory : Entries → Node
    unreadable other : Node

  pub data Entries : Type 0 where
    nil : Entries
    cons : Text → Node → Entries → Entries

pub record LocalFile : Type 0 where
  pub key : Text
  pub body : List ℕ

pub record LocalListing : Type 0 where
  pub files : List LocalFile
  pub unread : List Text

abbrev pub both : LocalListing → LocalListing → LocalListing
both a b = record { files = a.files ++ b.files; unread = a.unread ++ b.unread }

abbrev pub under : Text → Text → Text
under dir name = if is_empty dir then name else dir ++ slash ∷ name

unfoldable mutual
  pub walk_node : Text → Node → LocalListing
  walk_node path (file body) = record {
    files = record { key = path; body = body } ∷ [];
    unread = [];
  }
  walk_node path (directory entries) = walk_entries path entries
  walk_node path unreadable = record { files = []; unread = path ∷ [] }
  walk_node path other = record { files = []; unread = [] }

  pub walk_entries : Text → Entries → LocalListing
  walk_entries path nil = record { files = []; unread = [] }
  walk_entries path (cons name node entries) =
      both (walk_node (under path name) node) (walk_entries path entries)

-- The order of `sort`, by code units.
unfoldable pub text_less : Text → Text → Bool
text_less s [] = false
text_less [] (d ∷ t) = true
text_less (c ∷ s) (d ∷ t) = if c == d then text_less s t else ltb c d

unfoldable pub insert : LocalFile → List LocalFile → List LocalFile
insert f [] = f ∷ []
insert f (g ∷ gs) = let rest = insert f gs in if text_less g.key f.key then g ∷ rest else f ∷ g ∷ gs

unfoldable pub sort : List LocalFile → List LocalFile
sort [] = []
sort (f ∷ fs) = insert f (sort fs)

-- A root that cannot be read is none.
unfoldable pub list_local_keys : Option Entries → LocalListing
list_local_keys none = record { files = []; unread = codes "." ∷ [] }
list_local_keys (some entries) =
    let found = walk_entries [] entries in record found { files = sort found.files }
