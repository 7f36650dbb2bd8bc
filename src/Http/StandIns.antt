-- ===== src/Http/StandIns.antt =====
-- A small stand-in for what the HTTP server calls, on which the tests evaluate the definitions.
use mock_my_mta.Base.{[], none, some, ok, err, failed, lit, ◌==◌, false, true, if◌then◌else◌}
use mock_my_mta.Base.Int.{pos}
use mock_my_mta.Std.Ascii.{ascii_std}
use mock_my_mta.Storage.Layer.{Layer}
use mock_my_mta.Http.{initial_settings}
use mock_my_mta.Http.Server.{Server, Services, FileSystem}

-- An index and a folder.
abbrev pub two_files : FileSystem
two_files = record {
  stat =
      λ s. if s == lit "index.html" then some false else if s == lit "css" then some true else none;
  read_file =
      λ s. if s == lit "index.html" then ok (lit "hi") else err (failed (lit "no such file"));
}

-- What the server calls, with a stand-in for each package and the storage given.
abbrev pub stand_ins : {S : Type 0} → Layer S → Services S
stand_ins layer = record {
  storage = layer;
  std = ascii_std;
  sanitize = λ s. s;
  quote = λ s. s;
  split_host = λ s. ok s;
  send_mail = λ d. none;
  atoi = λ s. ok (pos 1);
  canonical = λ s. s;
  statics = record {
    debug = false;
    files = two_files;
    detect_content_type = λ s. lit "text/plain";
  };
}

abbrev pub serving : {S : Type 0} → S → Server S
serving store = record { store = store; read_emails = []; relays = []; settings = initial_settings }
