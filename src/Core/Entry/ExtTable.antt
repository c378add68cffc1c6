-- ===== src/Core/Entry/ExtTable.antt =====
-- crates/scour-core/src/types/entry.rs, `EXT_TABLE`: the extensions that mean one thing.
use scour.Prelude.{List, [], ◌∷◌, ◌++◌, Str, codes}
use scour.Core.Kind.{Kind}

abbrev pub Table : Type 0
Table = List (Str × Kind)

-- The rows in the order of the source, in three parts.
abbrev pub ext_rows_to_h : Table
ext_rows_to_h =
    (codes "1", Kind.doc)
    ∷ (codes "3gp", Kind.video)
    ∷ (codes "7z", Kind.archive)
    ∷ (codes "a", Kind.build)
    ∷ (codes "aac", Kind.audio)
    ∷ (codes "aar", Kind.archive)
    ∷ (codes "adoc", Kind.doc)
    ∷ (codes "afdesign", Kind.image)
    ∷ (codes "afphoto", Kind.image)
    ∷ (codes "aif", Kind.audio)
    ∷ (codes "aiff", Kind.audio)
    ∷ (codes "apk", Kind.archive)
    ∷ (codes "appimage", Kind.exec)
    ∷ (codes "arb", Kind.dataset)
    ∷ (codes "asciidoc", Kind.doc)
    ∷ (codes "asm", Kind.code)
    ∷ (codes "ass", Kind.doc)
    ∷ (codes "avi", Kind.video)
    ∷ (codes "avif", Kind.image)
    ∷ (codes "avro", Kind.dataset)
    ∷ (codes "awk", Kind.code)
    ∷ (codes "azw3", Kind.doc)
    ∷ (codes "bash", Kind.code)
    ∷ (codes "bat", Kind.exec)
    ∷ (codes "bc", Kind.build)
    ∷ (codes "bmp", Kind.image)
    ∷ (codes "bz2", Kind.archive)
    ∷ (codes "c", Kind.code)
    ∷ (codes "cab", Kind.archive)
    ∷ (codes "cc", Kind.code)
    ∷ (codes "cer", Kind.config)
    ∷ (codes "cfg", Kind.config)
    ∷ (codes "cjs", Kind.code)
    ∷ (codes "class", Kind.build)
    ∷ (codes "clj", Kind.code)
    ∷ (codes "cljs", Kind.code)
    ∷ (codes "cmake", Kind.code)
    ∷ (codes "cmd", Kind.exec)
    ∷ (codes "com", Kind.exec)
    ∷ (codes "comp", Kind.code)
    ∷ (codes "conf", Kind.config)
    ∷ (codes "cpp", Kind.code)
    ∷ (codes "cr", Kind.code)
    ∷ (codes "cr2", Kind.image)
    ∷ (codes "crate", Kind.archive)
    ∷ (codes "crt", Kind.config)
    ∷ (codes "cs", Kind.code)
    ∷ (codes "css", Kind.code)
    ∷ (codes "csv", Kind.dataset)
    ∷ (codes "cxx", Kind.code)
    ∷ (codes "d", Kind.build)
    ∷ (codes "dart", Kind.code)
    ∷ (codes "dat", Kind.dataset)
    ∷ (codes "db", Kind.dataset)
    ∷ (codes "db3", Kind.dataset)
    ∷ (codes "deb", Kind.archive)
    ∷ (codes "der", Kind.config)
    ∷ (codes "dex", Kind.build)
    ∷ (codes "digest", Kind.build)
    ∷ (codes "dill", Kind.build)
    ∷ (codes "djvu", Kind.doc)
    ∷ (codes "dll", Kind.exec)
    ∷ (codes "dmg", Kind.archive)
    ∷ (codes "dng", Kind.image)
    ∷ (codes "doc", Kind.doc)
    ∷ (codes "docx", Kind.doc)
    ∷ (codes "dtd", Kind.dataset)
    ∷ (codes "dwo", Kind.build)
    ∷ (codes "dylib", Kind.exec)
    ∷ (codes "el", Kind.code)
    ∷ (codes "eml", Kind.doc)
    ∷ (codes "env", Kind.config)
    ∷ (codes "eot", Kind.font)
    ∷ (codes "epub", Kind.doc)
    ∷ (codes "erl", Kind.code)
    ∷ (codes "ex", Kind.code)
    ∷ (codes "exe", Kind.exec)
    ∷ (codes "exs", Kind.code)
    ∷ (codes "fish", Kind.code)
    ∷ (codes "flac", Kind.audio)
    ∷ (codes "flv", Kind.video)
    ∷ (codes "fon", Kind.font)
    ∷ (codes "frag", Kind.code)
    ∷ (codes "fs", Kind.code)
    ∷ (codes "gcda", Kind.build)
    ∷ (codes "gch", Kind.build)
    ∷ (codes "gcno", Kind.build)
    ∷ (codes "gem", Kind.archive)
    ∷ (codes "gguf", Kind.dataset)
    ∷ (codes "gif", Kind.image)
    ∷ (codes "glsl", Kind.code)
    ∷ (codes "gn", Kind.code)
    ∷ (codes "gni", Kind.code)
    ∷ (codes "go", Kind.code)
    ∷ (codes "gradle", Kind.code)
    ∷ (codes "groovy", Kind.code)
    ∷ (codes "gz", Kind.archive)
    ∷ (codes "h", Kind.code)
    ∷ (codes "h5", Kind.dataset)
    ∷ (codes "hcl", Kind.code)
    ∷ (codes "heic", Kind.image)
    ∷ []

abbrev pub ext_rows_to_p : Table
ext_rows_to_p =
    (codes "hlsl", Kind.code)
    ∷ (codes "hpp", Kind.code)
    ∷ (codes "hrl", Kind.code)
    ∷ (codes "hs", Kind.code)
    ∷ (codes "htm", Kind.doc)
    ∷ (codes "html", Kind.doc)
    ∷ (codes "hxx", Kind.code)
    ∷ (codes "ico", Kind.image)
    ∷ (codes "idl", Kind.code)
    ∷ (codes "ilk", Kind.build)
    ∷ (codes "img", Kind.archive)
    ∷ (codes "ini", Kind.config)
    ∷ (codes "ipynb", Kind.code)
    ∷ (codes "iso", Kind.archive)
    ∷ (codes "jar", Kind.archive)
    ∷ (codes "java", Kind.code)
    ∷ (codes "jks", Kind.config)
    ∷ (codes "jl", Kind.code)
    ∷ (codes "jpeg", Kind.image)
    ∷ (codes "jpg", Kind.image)
    ∷ (codes "js", Kind.code)
    ∷ (codes "json", Kind.dataset)
    ∷ (codes "jsonl", Kind.dataset)
    ∷ (codes "jsx", Kind.code)
    ∷ (codes "keystore", Kind.config)
    ∷ (codes "kt", Kind.code)
    ∷ (codes "kts", Kind.code)
    ∷ (codes "less", Kind.code)
    ∷ (codes "lib", Kind.build)
    ∷ (codes "lock", Kind.dataset)
    ∷ (codes "log", Kind.dataset)
    ∷ (codes "lua", Kind.code)
    ∷ (codes "lz4", Kind.archive)
    ∷ (codes "m", Kind.code)
    ∷ (codes "m3u", Kind.audio)
    ∷ (codes "m3u8", Kind.audio)
    ∷ (codes "m4a", Kind.audio)
    ∷ (codes "m4v", Kind.video)
    ∷ (codes "make", Kind.code)
    ∷ (codes "map", Kind.build)
    ∷ (codes "mbox", Kind.doc)
    ∷ (codes "md", Kind.doc)
    ∷ (codes "metal", Kind.code)
    ∷ (codes "mid", Kind.audio)
    ∷ (codes "midi", Kind.audio)
    ∷ (codes "mjs", Kind.code)
    ∷ (codes "mk", Kind.code)
    ∷ (codes "mkv", Kind.video)
    ∷ (codes "ml", Kind.code)
    ∷ (codes "mli", Kind.code)
    ∷ (codes "mm", Kind.code)
    ∷ (codes "mo", Kind.build)
    ∷ (codes "mobi", Kind.doc)
    ∷ (codes "mov", Kind.video)
    ∷ (codes "mp3", Kind.audio)
    ∷ (codes "mp4", Kind.video)
    ∷ (codes "mpeg", Kind.video)
    ∷ (codes "mpg", Kind.video)
    ∷ (codes "msg", Kind.doc)
    ∷ (codes "msi", Kind.exec)
    ∷ (codes "mts", Kind.code)
    ∷ (codes "nef", Kind.image)
    ∷ (codes "nim", Kind.code)
    ∷ (codes "nix", Kind.code)
    ∷ (codes "npy", Kind.dataset)
    ∷ (codes "npz", Kind.dataset)
    ∷ (codes "o", Kind.build)
    ∷ (codes "odp", Kind.doc)
    ∷ (codes "ods", Kind.doc)
    ∷ (codes "odt", Kind.doc)
    ∷ (codes "ogg", Kind.audio)
    ∷ (codes "ogv", Kind.video)
    ∷ (codes "onnx", Kind.dataset)
    ∷ (codes "opus", Kind.audio)
    ∷ (codes "org", Kind.doc)
    ∷ (codes "otf", Kind.font)
    ∷ (codes "pack", Kind.dataset)
    ∷ (codes "parquet", Kind.dataset)
    ∷ (codes "pbxproj", Kind.config)
    ∷ (codes "pcf", Kind.font)
    ∷ (codes "pch", Kind.build)
    ∷ (codes "pdb", Kind.build)
    ∷ (codes "pdf", Kind.doc)
    ∷ (codes "pem", Kind.config)
    ∷ (codes "pfx", Kind.config)
    ∷ (codes "php", Kind.code)
    ∷ (codes "pickle", Kind.dataset)
    ∷ (codes "pkg", Kind.archive)
    ∷ (codes "pkl", Kind.dataset)
    ∷ (codes "pl", Kind.code)
    ∷ (codes "plist", Kind.config)
    ∷ (codes "pls", Kind.audio)
    ∷ (codes "pm", Kind.code)
    ∷ (codes "png", Kind.image)
    ∷ (codes "po", Kind.dataset)
    ∷ (codes "pom", Kind.config)
    ∷ (codes "pot", Kind.dataset)
    ∷ (codes "ppt", Kind.doc)
    ∷ (codes "pptx", Kind.doc)
    ∷ (codes "properties", Kind.config)
    ∷ []

abbrev pub ext_rows_to_z : Table
ext_rows_to_z =
    (codes "proto", Kind.code)
    ∷ (codes "ps1", Kind.code)
    ∷ (codes "psd", Kind.image)
    ∷ (codes "pt", Kind.dataset)
    ∷ (codes "pth", Kind.dataset)
    ∷ (codes "py", Kind.code)
    ∷ (codes "pyc", Kind.build)
    ∷ (codes "pyi", Kind.code)
    ∷ (codes "pyx", Kind.code)
    ∷ (codes "qcow2", Kind.archive)
    ∷ (codes "qm", Kind.build)
    ∷ (codes "qml", Kind.code)
    ∷ (codes "r", Kind.code)
    ∷ (codes "rar", Kind.archive)
    ∷ (codes "raw", Kind.image)
    ∷ (codes "rb", Kind.code)
    ∷ (codes "resx", Kind.dataset)
    ∷ (codes "rlib", Kind.build)
    ∷ (codes "rmeta", Kind.build)
    ∷ (codes "rpm", Kind.archive)
    ∷ (codes "rs", Kind.code)
    ∷ (codes "rst", Kind.doc)
    ∷ (codes "rtf", Kind.doc)
    ∷ (codes "run", Kind.exec)
    ∷ (codes "s", Kind.code)
    ∷ (codes "safetensors", Kind.dataset)
    ∷ (codes "sass", Kind.code)
    ∷ (codes "scala", Kind.code)
    ∷ (codes "scss", Kind.code)
    ∷ (codes "sh", Kind.code)
    ∷ (codes "slint", Kind.code)
    ∷ (codes "so", Kind.exec)
    ∷ (codes "sol", Kind.code)
    ∷ (codes "sql", Kind.code)
    ∷ (codes "sqlite", Kind.dataset)
    ∷ (codes "sqlite3", Kind.dataset)
    ∷ (codes "squashfs", Kind.archive)
    ∷ (codes "srt", Kind.doc)
    ∷ (codes "storyboard", Kind.code)
    ∷ (codes "sub", Kind.doc)
    ∷ (codes "svelte", Kind.code)
    ∷ (codes "svg", Kind.image)
    ∷ (codes "swift", Kind.code)
    ∷ (codes "tar", Kind.archive)
    ∷ (codes "tex", Kind.doc)
    ∷ (codes "tf", Kind.code)
    ∷ (codes "tgz", Kind.archive)
    ∷ (codes "thrift", Kind.code)
    ∷ (codes "tif", Kind.image)
    ∷ (codes "tiff", Kind.image)
    ∷ (codes "timestamp", Kind.build)
    ∷ (codes "toml", Kind.config)
    ∷ (codes "ts", Kind.code)
    ∷ (codes "tsv", Kind.dataset)
    ∷ (codes "tsx", Kind.code)
    ∷ (codes "ttc", Kind.font)
    ∷ (codes "ttf", Kind.font)
    ∷ (codes "txt", Kind.doc)
    ∷ (codes "ui", Kind.code)
    ∷ (codes "vb", Kind.code)
    ∷ (codes "vdi", Kind.archive)
    ∷ (codes "vert", Kind.code)
    ∷ (codes "vhd", Kind.archive)
    ∷ (codes "vhdx", Kind.archive)
    ∷ (codes "vim", Kind.code)
    ∷ (codes "vmdk", Kind.archive)
    ∷ (codes "vob", Kind.video)
    ∷ (codes "vtt", Kind.doc)
    ∷ (codes "vue", Kind.code)
    ∷ (codes "wasm", Kind.exec)
    ∷ (codes "wat", Kind.code)
    ∷ (codes "wav", Kind.audio)
    ∷ (codes "webm", Kind.video)
    ∷ (codes "webp", Kind.image)
    ∷ (codes "wgsl", Kind.code)
    ∷ (codes "whl", Kind.archive)
    ∷ (codes "wit", Kind.code)
    ∷ (codes "wma", Kind.audio)
    ∷ (codes "wmv", Kind.video)
    ∷ (codes "woff", Kind.font)
    ∷ (codes "woff2", Kind.font)
    ∷ (codes "xcconfig", Kind.config)
    ∷ (codes "xcf", Kind.image)
    ∷ (codes "xhtml", Kind.doc)
    ∷ (codes "xliff", Kind.dataset)
    ∷ (codes "xls", Kind.doc)
    ∷ (codes "xlsx", Kind.doc)
    ∷ (codes "xml", Kind.dataset)
    ∷ (codes "xsd", Kind.dataset)
    ∷ (codes "xz", Kind.archive)
    ∷ (codes "yaml", Kind.config)
    ∷ (codes "yml", Kind.config)
    ∷ (codes "zig", Kind.code)
    ∷ (codes "zip", Kind.archive)
    ∷ (codes "zsh", Kind.code)
    ∷ (codes "zst", Kind.archive)
    ∷ []

abbrev pub ext_table : Table
ext_table = ext_rows_to_h ++ (ext_rows_to_p ++ ext_rows_to_z)
