-- ===== src/Http/Static.antt =====
-- The static files of http/httpd.go: locateFile, getFileSystem, and the handler of NewServer for every
-- path outside the API.
use mock_my_mta.Base.{
  Text, lit, ◌==◌, ◌≡◌, refl, [], ◌∷◌, ◌++◌, Option, none, some, Bool, true, false, if◌then◌else◌,
  ◌⊎◌, inl, inr, eqb, any, Outcome, ok, err, failed, Bool-cases, Outcome-cases, arith,
}
use mock_my_mta.Http.Server.{Server, Services, Reply, FileSystem, bytes, respond, refuse}

-- os.Stat of the folder says whether it exists.
unfoldable pub get_file_system : Bool → Bool → FileSystem → FileSystem → FileSystem
get_file_system debug exists local embedded =
    if debug then (if exists then local else embedded) else embedded

abbrev is_file : Option Bool → Bool
is_file none = false
is_file (some is_folder) = if is_folder then false else true

-- strings.TrimPrefix with a slash.
abbrev pub trim_slash : Text → Text
trim_slash [] = []
trim_slash (c ∷ s) = if eqb c 47 then s else c ∷ s

unfoldable pub locate_file : FileSystem → Text → Outcome Text
locate_file files path =
    if path == lit "/"
    then ok (lit "index.html")
    else if is_file (files.stat path)
    then ok path
    else if is_file (files.stat (trim_slash path))
    then ok (trim_slash path)
    else err (failed (lit "file not found: " ++ path))

-- What follows the last dot, or the whole name.
unfoldable pub extension : Text → Text
extension [] = []
extension (c ∷ s) =
    let rest = extension s in if any (eqb 46) s then rest else if eqb c 46 then s else c ∷ s

-- The content type by the extension in lower case.
unfoldable pub content_type : (Text → Text) → Text → Text → Text
content_type detect content ext =
    if ext == lit "html"
    then lit "text/html"
    else if ext == lit "css"
    then lit "text/css"
    else if ext == lit "js"
    then lit "application/javascript"
    else if ext == lit "json"
    then lit "application/json"
    else if ext == lit "svg"
    then lit "image/svg+xml"
    else detect content

module _ {S : Type 0} (env : Services S) (s : Server S) where
  abbrev file_system_type : Text
  file_system_type = if env.statics.debug then lit "local" else lit "embedded"

  -- The answer with a file.
  unfoldable pub serve_file : Text → Reply S
  unfolding content_type extension
  serve_file filename = elim (env.statics.files.read_file filename) [
    | err e ↦
        refuse s 500
          (lit "cannot read "
            ++ (env.quote filename ++ (lit " from " ++ (file_system_type ++ lit " filesystem"))))
          e
    | ok content ↦
        let ext = env.std.to_lower (extension filename) in
        respond s 200 (
          bytes
            ((lit "Content-Type", content_type env.statics.detect_content_type content ext) ∷ [])
            content)
  ]

  -- A path that names no file gets the index.
  unfoldable pub serve_static : Text → Reply S
  unfolding locate_file serve_file
  serve_static path = elim (locate_file env.statics.files path) [
    | err e ↦ serve_file (lit "index.html")
    | ok filename ↦ serve_file filename
  ]

  serve_file-server : (filename : Text) → (serve_file filename).server ≡ s
  unfolding serve_file
  serve_file-server filename = ground arith

  pub serve_static-server : (path : Text) → (serve_static path).server ≡ s
  unfolding serve_static
  serve_static-server path = elim (Outcome-cases (locate_file env.statics.files path)) [
    | inl (filename, located) ↦ rw (serve_static, located) (serve_file-server filename)
    | inr (e, missing) ↦ rw (serve_static, missing) (serve_file-server (lit "index.html"))
  ]

  -- A file that a path may be answered with: the index, or a file, no folder, that stands at the
  -- path with or without its leading slash.
  abbrev pub IsNamed : Text → Text → Type 0
  IsNamed path filename =
      (filename ≡ lit "index.html")
      ⊎ ((env.statics.files.stat filename ≡ some false)
          × ((filename ≡ path) ⊎ (filename ≡ trim_slash path)))

  is_file-stat : (o : Option Bool) → is_file o ≡ true → o ≡ some false
  is_file-stat none h = cc h
  is_file-stat (some true) h = cc h
  is_file-stat (some false) h = refl

  -- Every path is answered with one file, the index or a file that stands at the path, with or without
  -- its leading slash, and never with a folder.
  pub serve_static-IsNamed :
      (path : Text)
      → (filename : Text) × (serve_static path ≡ serve_file filename) × IsNamed path filename
  unfolding serve_static locate_file
  serve_static-IsNamed path = elim (Bool-cases (path == lit "/")) [
    | inl root ↦ (lit "index.html", rw (serve_static, locate_file, root) refl, inl refl)
    | inr other ↦ elim (Bool-cases (is_file (env.statics.files.stat path))) [
      | inl here ↦ (
        path,
        rw (serve_static, locate_file, other, here) refl,
        inr (is_file-stat (env.statics.files.stat path) here, inl refl),
      )
      | inr absent ↦ elim (Bool-cases (is_file (env.statics.files.stat (trim_slash path)))) [
        | inl trimmed ↦ (
          trim_slash path,
          rw (serve_static, locate_file, other, absent, trimmed) refl,
          inr (is_file-stat (env.statics.files.stat (trim_slash path)) trimmed, inr refl),
        )
        | inr missing ↦ (
          lit "index.html",
          rw (serve_static, locate_file, other, absent, missing) refl,
          inl refl,
        )
      ]
    ]
  ]
