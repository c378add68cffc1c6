-- ===== src/Core/Kind.antt =====
-- crates/scour-core/src/types/entry.rs: the kinds of a file, their numbers and their names.
pub mod Laws
use scour.Prelude.{
  ℕ, Option, none, some, List, [], ◌∷◌, Str, codes, member, get_elem?, if◌then◌else◌,
}

pub data Kind : Type 0 where
  file dir code image archive doc exec media audio video build config font : Kind
  dataset : Kind

-- `Kind::ALL`, by discriminant; `dataset` is `Kind::Data`.
abbrev pub all_kinds : List Kind
all_kinds =
    Kind.file ∷ Kind.dir ∷ Kind.code ∷ Kind.image ∷ Kind.archive ∷ Kind.doc ∷ Kind.exec ∷ Kind.media
    ∷ Kind.audio ∷ Kind.video ∷ Kind.build ∷ Kind.dataset ∷ Kind.config ∷ Kind.font ∷ []

-- `Kind::OFFERED`
abbrev pub offered : List Kind
offered =
    Kind.dir ∷ Kind.code ∷ Kind.doc ∷ Kind.image ∷ Kind.dataset ∷ Kind.config ∷ Kind.archive
    ∷ Kind.exec ∷ Kind.audio ∷ Kind.video ∷ Kind.font ∷ Kind.build ∷ Kind.file ∷ []

unfoldable pub as_u8 : Kind → ℕ
as_u8 Kind.file = 0
as_u8 Kind.dir = 1
as_u8 Kind.code = 2
as_u8 Kind.image = 3
as_u8 Kind.archive = 4
as_u8 Kind.doc = 5
as_u8 Kind.exec = 6
as_u8 Kind.media = 7
as_u8 Kind.audio = 8
as_u8 Kind.video = 9
as_u8 Kind.build = 10
as_u8 Kind.dataset = 11
as_u8 Kind.config = 12
as_u8 Kind.font = 13

unfoldable pub from_u8 : ℕ → Option Kind
from_u8 v = get_elem? all_kinds v

-- One row of the `match` in `from_name`: the spellings, and the kinds that they name.
abbrev pub Row : Type 0
Row = List Str × List Kind

abbrev kind_spellings : List Row
kind_spellings =
    (codes "dir" ∷ codes "folder" ∷ codes "klasor" ∷ codes "klasör" ∷ [], Kind.dir ∷ [])
    ∷ (codes "code" ∷ codes "source" ∷ codes "kod" ∷ codes "kaynak" ∷ [], Kind.code ∷ [])
    ∷ (
      codes "image"
          ∷ codes "img"
          ∷ codes "pic"
          ∷ codes "gorsel"
          ∷ codes "görsel"
          ∷ codes "resim"
          ∷ [],
      Kind.image ∷ [],
    )
    ∷ (codes "archive" ∷ codes "arsiv" ∷ codes "arşiv" ∷ codes "zip" ∷ [], Kind.archive ∷ [])
    ∷ (codes "doc" ∷ codes "document" ∷ codes "belge" ∷ [], Kind.doc ∷ [])
    ∷ (
      codes "exec"
          ∷ codes "exe"
          ∷ codes "bin"
          ∷ codes "executable"
          ∷ codes "calistirilabilir"
          ∷ codes "çalıştırılabilir"
          ∷ [],
      Kind.exec ∷ [],
    )
    ∷ (codes "audio" ∷ codes "ses" ∷ codes "muzik" ∷ codes "müzik" ∷ [], Kind.audio ∷ [])
    ∷ (codes "video" ∷ codes "film" ∷ [], Kind.video ∷ [])
    ∷ (codes "media" ∷ codes "medya" ∷ [], Kind.audio ∷ Kind.video ∷ Kind.media ∷ [])
    ∷ (codes "build" ∷ codes "derleme" ∷ codes "cikti" ∷ codes "çıktı" ∷ [], Kind.build ∷ [])
    ∷ (codes "data" ∷ codes "veri" ∷ [], Kind.dataset ∷ [])
    ∷ (
      codes "config"
          ∷ codes "conf"
          ∷ codes "settings"
          ∷ codes "ayar"
          ∷ codes "yapilandirma"
          ∷ codes "yapılandırma"
          ∷ [],
      Kind.config ∷ [],
    )
    ∷ (codes "font" ∷ codes "yazitipi" ∷ codes "yazıtipi" ∷ [], Kind.font ∷ [])
    ∷ (codes "file" ∷ codes "dosya" ∷ [], Kind.file ∷ [])
    ∷ (codes "text" ∷ codes "metin" ∷ [], Kind.code ∷ Kind.doc ∷ Kind.dataset ∷ Kind.config ∷ [])
    ∷ []

-- The first row that has the spelling.
unfoldable pub first_row : Str → List Row → Option (List Kind)
first_row s [] = none
first_row s ((names, kinds) ∷ rows) =
    let rest = first_row s rows in if member s names then some kinds else rest

unfoldable pub from_name : Str → Option (List Kind)
unfolding first_row
from_name folded = first_row folded kind_spellings

-- `Kind::token`: how a kind is spelled in a `kind:` term.
unfoldable pub token : Kind → Str
token Kind.file = codes "file"
token Kind.dir = codes "folder"
token Kind.code = codes "code"
token Kind.image = codes "image"
token Kind.archive = codes "archive"
token Kind.doc = codes "doc"
token Kind.exec = codes "exec"
token Kind.media = codes "media"
token Kind.audio = codes "audio"
token Kind.video = codes "video"
token Kind.build = codes "build"
token Kind.dataset = codes "data"
token Kind.config = codes "config"
token Kind.font = codes "font"
