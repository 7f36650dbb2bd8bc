-- ===== src/Storage/Files/Apart.antt =====
-- In the stand-in of Std.Ascii, a path is the folder, a slash and the name: it keeps all names apart.
use mock_my_mta.Base.{◌≡◌, ◌∷◌, ◌++◌}
use mathlib.Core.List.{append_cancel_left, append_cancel_right}
use mock_my_mta.Std.Ascii.{ascii_std}
use mock_my_mta.Storage.Files.{file_suffix}
use mock_my_mta.Storage.Files.Disk.{KeepsApart, KeepsPlainApart}

pub ascii_std-KeepsApart : KeepsApart ascii_std
ascii_std-KeepsApart folder name other same =
    let slashed : 47 ∷ name ≡ 47 ∷ other =
      append_cancel_left folder (47 ∷ name) (47 ∷ other) same in
    cc slashed

pub ascii_std-KeepsPlainApart : KeepsPlainApart ascii_std
ascii_std-KeepsPlainApart folder id j kind plain plain' same =
    append_cancel_right id j (file_suffix kind)
      (ascii_std-KeepsApart folder (id ++ file_suffix kind) (j ++ file_suffix kind) same)
