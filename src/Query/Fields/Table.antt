-- ===== src/Query/Fields/Table.antt =====
-- crates/scour-query/src/fields.rs: every field the language has.
use Prim.Native.String.{String}
use scour.Prelude.{
  Option, none, some, List, [], ◌∷◌, ◌++◌, ◌||◌, Str, codes, str_eq, member, if◌then◌else◌,
}

pub data Takes : Type 0 where
  text path ext size time kind nothing : Takes

pub record Field : Type 0 where
  pub name : Str
  pub aliases : List Str
  pub takes : Takes
  pub about : String
  pub example : String

-- What the language always had.
abbrev pub plain_fields : List Field
plain_fields =
    record {
      name = codes "ext";
      aliases = [];
      takes = Takes.ext;
      about = "extension is this, or any of these separated by ;";
      example = "ext:pdf";
    }
    ∷ record {
      name = codes "path";
      aliases = [];
      takes = Takes.text;
      about = "the whole path contains this";
      example = "path:src/api";
    }
    ∷ record {
      name = codes "under";
      aliases = codes "in" ∷ codes "altinda" ∷ [];
      takes = Takes.path;
      about = "anywhere below this folder, at any depth; ~ is your home";
      example = "under:~/Projects";
    }
    ∷ record {
      name = codes "parent";
      aliases = codes "child" ∷ codes "children" ∷ [];
      takes = Takes.path;
      about = "directly inside this folder, one level down";
      example = "parent:/etc";
    }
    ∷ record {
      name = codes "file";
      aliases = codes "files" ∷ [];
      takes = Takes.nothing;
      about = "files only";
      example = "";
    }
    ∷ record {
      name = codes "folder";
      aliases = codes "folders" ∷ codes "dir" ∷ [];
      takes = Takes.nothing;
      about = "folders only";
      example = "";
    }
    ∷ record {
      name = codes "size";
      aliases = [];
      takes = Takes.size;
      about = "size, in binary units, with an optional comparison";
      example = "size:>1mb";
    }
    ∷ record {
      name = codes "kind";
      aliases = codes "type" ∷ codes "tur" ∷ codes "tür" ∷ [];
      takes = Takes.kind;
      about = "one broad type of file";
      example = "kind:image";
    }
    ∷ record {
      name = codes "dm";
      aliases = codes "modified" ∷ [];
      takes = Takes.time;
      about = "when it was last modified";
      example = "dm:7d";
    }
    ∷ record {
      name = codes "dc";
      aliases = codes "created" ∷ [];
      takes = Takes.time;
      about = "when it was created";
      example = "dc:2026-01-31";
    }
    ∷ record {
      name = codes "da";
      aliases = codes "accessed" ∷ [];
      takes = Takes.time;
      about = "when it was last read";
      example = "da:>2026-01-01";
    }
    ∷ record {
      name = codes "content";
      aliases = codes "text" ∷ codes "icerik" ∷ codes "içerik" ∷ [];
      takes = Takes.text;
      about = "the document's contents contain this, if contents are indexed";
      example = "content:invoice";
    }
    ∷ []

-- What a filesystem knows and nothing else does.
abbrev pub filesystem_fields : List Field
filesystem_fields =
    record {
      name = codes "node";
      aliases = codes "dugum" ∷ [];
      takes = Takes.text;
      about =
          "what the filesystem made it: f file, d folder, l symlink, s socket, p fifo, b block, c char";
      example = "node:l";
    }
    ∷ record {
      name = codes "perm";
      aliases = codes "mode" ∷ codes "izin" ∷ [];
      takes = Takes.text;
      about = "permission bits: 644 exactly, -200 all of these, /222 any of these";
      example = "perm:644";
    }
    ∷ record {
      name = codes "suid";
      aliases = [];
      takes = Takes.nothing;
      about = "runs as its owner";
      example = "";
    }
    ∷ record {
      name = codes "sgid";
      aliases = [];
      takes = Takes.nothing;
      about = "runs as its group";
      example = "";
    }
    ∷ record {
      name = codes "sticky";
      aliases = [];
      takes = Takes.nothing;
      about = "only the owner may delete what is inside";
      example = "";
    }
    ∷ record {
      name = codes "ww";
      aliases = codes "writable" ∷ [];
      takes = Takes.nothing;
      about = "anyone may write to it";
      example = "";
    }
    ∷ record {
      name = codes "user";
      aliases = codes "owner" ∷ [];
      takes = Takes.text;
      about = "owned by this user, by name or by number";
      example = "user:root";
    }
    ∷ record {
      name = codes "group";
      aliases = [];
      takes = Takes.text;
      about = "owned by this group, by name or by number";
      example = "group:root";
    }
    ∷ record {
      name = codes "depth";
      aliases = codes "derinlik" ∷ [];
      takes = Takes.size;
      about =
          "how many components the path has, counted from the root; a bare number means exactly";
      example = "depth:<=4";
    }
    ∷ record {
      name = codes "regex";
      aliases = codes "re" ∷ [];
      takes = Takes.text;
      about = "the name matches this regular expression";
      example = "regex:^[0-9]{4}-";
    }
    ∷ []

-- The spellings of Everything.
abbrev pub everything_fields : List Field
everything_fields =
    record {
      name = codes "empty";
      aliases = codes "bos" ∷ [];
      takes = Takes.nothing;
      about = "nothing in it: a file of no bytes, or a folder with no entries";
      example = "";
    }
    ∷ record {
      name = codes "startwith";
      aliases = codes "startswith" ∷ codes "prefix" ∷ [];
      takes = Takes.text;
      about = "the name begins with this";
      example = "startwith:IMG_";
    }
    ∷ record {
      name = codes "endwith";
      aliases = codes "endswith" ∷ codes "suffix" ∷ [];
      takes = Takes.text;
      about = "the name ends with this";
      example = "endwith:.pdf";
    }
    ∷ record {
      name = codes "len";
      aliases = codes "namelen" ∷ [];
      takes = Takes.size;
      about = "how many characters the name has";
      example = "len:>40";
    }
    ∷ record {
      name = codes "case";
      aliases = codes "cased" ∷ [];
      takes = Takes.text;
      about = "the name contains this, spelled exactly like this";
      example = "case:README";
    }
    ∷ []

-- The type macros, which are `kind:` under other names.
abbrev pub macro_fields : List Field
macro_fields =
    record {
      name = codes "audio";
      aliases = codes "ses" ∷ [];
      takes = Takes.nothing;
      about = "sound files";
      example = "";
    }
    ∷ record {
      name = codes "video";
      aliases = [];
      takes = Takes.nothing;
      about = "video files";
      example = "";
    }
    ∷ record {
      name = codes "pic";
      aliases = codes "image" ∷ codes "gorsel" ∷ [];
      takes = Takes.nothing;
      about = "pictures";
      example = "";
    }
    ∷ record {
      name = codes "doc";
      aliases = codes "belge" ∷ [];
      takes = Takes.nothing;
      about = "documents";
      example = "";
    }
    ∷ record {
      name = codes "exe";
      aliases = [];
      takes = Takes.nothing;
      about = "programs";
      example = "";
    }
    ∷ record {
      name = codes "zip";
      aliases = codes "archive" ∷ codes "arsiv" ∷ [];
      takes = Takes.nothing;
      about = "archives";
      example = "";
    }
    ∷ []

-- `FIELDS`
abbrev pub fields : List Field
fields = plain_fields ++ (filesystem_fields ++ (everything_fields ++ macro_fields))

unfoldable pub find_field : Str → List Field → Option Field
find_field folded [] = none
find_field folded (f ∷ fs) =
    let rest = find_field folded fs in
    if str_eq f.name folded || member folded f.aliases then some f else rest

unfoldable pub lookup : Str → Option Field
unfolding find_field str_eq
lookup folded = find_field folded fields
